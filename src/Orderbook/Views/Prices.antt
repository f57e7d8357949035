-- ===== src/Orderbook/Views/Prices.antt =====
-- What a change of the queues at one price is on a view of a side.
use distributed_orderbook.Prelude.{
  ◌≡◌, ◌≢◌, refl, sym, ap, ap₂, ◌∙◌, true, false, none, some, List, [], ◌∷◌, ◌++◌, inl, inr,
  Bool-cases, if◌then◌else◌, if_true, if_false, arith, All,
}
use distributed_orderbook.Prelude.Int.{ℤ, eqb_ℤ}
use distributed_orderbook.Prelude.Maps.{erase}
use distributed_orderbook.Orderbook.Types.{Ptr}
use distributed_orderbook.Orderbook.Rep.{Cell, has, is_nil}
use distributed_orderbook.Orderbook.Rep.Locate.{set_volume, remove}
use distributed_orderbook.Orderbook.Match.Levels.{view}
use distributed_orderbook.Book.{Side, put_level}
use distributed_orderbook.Book.Changes.{change, volume_in}

-- A queue without the address is not changed.
module _ (p : Ptr) where
  pub remove-absent : (cs : List Cell) → has p cs ≡ false → remove p cs ≡ cs
  unfolding remove
  remove-absent [] h = refl
  remove-absent (c ∷ cs) h = ground (arith, remove-absent cs)

  pub set_volume-absent : (v : ℤ) (cs : List Cell) → has p cs ≡ false → set_volume p v cs ≡ cs
  unfolding set_volume
  set_volume-absent v [] h = refl
  set_volume-absent v (c ∷ cs) h = ground (arith, set_volume-absent v cs)

  pub volume_in-absent : (cs : List Cell) → has p cs ≡ false → volume_in p cs ≡ none
  volume_in-absent [] h = refl
  volume_in-absent (c ∷ cs) h = ground (arith, volume_in-absent cs)

  pub volume_in-split :
      (older : List Cell) (c : Cell) (younger : List Cell)
      → has p older ≡ false
      → c.addr ≡ p
      → volume_in p (older ++ c ∷ younger) ≡ some c.volume
  volume_in-split [] c younger h here = ground arith
  volume_in-split (x ∷ older) c younger h here = ground (arith, volume_in-split older c younger)

put_level-cons :
    (price : ℤ) (cs : List Cell) (rest : Side)
    → cs ≢ []
    → put_level price cs rest ≡ (price, cs) ∷ rest
put_level-cons price [] rest ne = absurd (ne refl)
put_level-cons price (c ∷ cs) rest ne = refl

put_level-nil :
    (price : ℤ) (cs : List Cell) (rest : Side) → is_nil cs ≡ true → put_level price cs rest ≡ rest
put_level-nil price [] rest h = refl
put_level-nil price (c ∷ cs) rest h = cc

is_nil→ne : (cs : List Cell) → is_nil cs ≡ false → cs ≢ []
is_nil→ne [] h = cc
is_nil→ne (c ∷ cs) h = cc

module _ (f : List Cell → List Cell) where
  -- a side whose queues are not changed
  pub view-change_other :
      (queue : ℤ → List Cell) (m : List (ℤ × Ptr))
      → All (λ (e : ℤ × Ptr). (queue e.0 ≢ []) × (f (queue e.0) ≡ queue e.0)) m
      → change f (view queue m) ≡ view queue m
  view-change_other queue [] h = refl
  view-change_other queue ((q, l) ∷ m) ((ne, fixed), rest) =
      ap₂ (put_level q) fixed (view-change_other queue m rest)
      ∙ put_level-cons q (queue q) (view queue m) ne

  module _ (queue queue' : ℤ → List Cell) (price : ℤ) (cs : List Cell)
      (own : (q : ℤ) → eqb_ℤ q price ≡ true → (queue' q ≡ cs) × (f (queue q) ≡ cs))
      (other : (q : ℤ)
        → eqb_ℤ q price ≡ false
        → (queue' q ≡ queue q) × (f (queue q) ≡ queue q)) where
    view-gone :
        is_nil cs ≡ true
        → (m : List (ℤ × Ptr)) → All (λ (e : ℤ × Ptr). queue e.0 ≢ []) m
        → view queue' (erase price m) ≡ change f (view queue m)
    unfolding erase
    view-gone gone [] h = refl
    view-gone gone ((q, l) ∷ m) (ne, rest) = elim (Bool-cases (eqb_ℤ q price)) [
      | inl e ↦ rw e (
          view-gone gone m rest
          ∙ sym (put_level-nil q (f (queue q)) _ (ap is_nil (own q e).1 ∙ gone)))
      | inr e ↦ rw e (
          ap₂ (λ (ds : List Cell) (t : Side). (q, ds) ∷ t) ((other q e).0 ∙ sym (other q e).1)
            (view-gone gone m rest)
          ∙ sym (put_level-cons q (f (queue q)) _ (λ n. ne (sym (other q e).1 ∙ n))))
    ]

    view-stays :
        is_nil cs ≡ false
        → (m : List (ℤ × Ptr)) → All (λ (e : ℤ × Ptr). queue e.0 ≢ []) m
        → view queue' m ≡ change f (view queue m)
    view-stays stays [] h = refl
    view-stays stays ((q, l) ∷ m) (ne, rest) = elim (Bool-cases (eqb_ℤ q price)) [
      | inl e ↦
          ap₂ (λ (ds : List Cell) (t : Side). (q, ds) ∷ t) ((own q e).0 ∙ sym (own q e).1)
            (view-stays stays m rest)
          ∙ sym (put_level-cons q (f (queue q)) _ (λ n. is_nil→ne cs stays (sym (own q e).1 ∙ n)))
      | inr e ↦
          ap₂ (λ (ds : List Cell) (t : Side). (q, ds) ∷ t) ((other q e).0 ∙ sym (other q e).1)
            (view-stays stays m rest)
          ∙ sym (put_level-cons q (f (queue q)) _ (λ n. ne (sym (other q e).1 ∙ n)))
    ]

    -- the side that is changed
    pub view-change :
        (m : List (ℤ × Ptr))
        → All (λ (e : ℤ × Ptr). queue e.0 ≢ []) m
        → view queue' (if is_nil cs then erase price m else m) ≡ change f (view queue m)
    view-change m h = elim (Bool-cases (is_nil cs)) [
      | inl gone ↦ ap (view queue') (if_true _ (erase price m) m gone) ∙ view-gone gone m h
      | inr stays ↦ ap (view queue') (if_false _ (erase price m) m stays) ∙ view-stays stays m h
    ]
