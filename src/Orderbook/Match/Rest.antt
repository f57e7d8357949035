-- ===== src/Orderbook/Match/Rest.antt =====
-- What is left of an incoming order rests where the specification puts it.
use mathlib.Core.Path.{subst}
use distributed_orderbook.Prelude.{
  ◌+◌, ◌≡◌, refl, sym, ap, ap₂, ◌∙◌, Bool, true, false, not, none, some, List, [], ◌∷◌, ◌++◌, arith,
  inl, inr, Bool-cases, Option-cases, if_false, All,
}
use distributed_orderbook.Prelude.Int.{ℤ, pos, ◌<ℤ◌, eqb_ℤ, eqb_ℤ→eq, eqb_ℤ-refl}
use distributed_orderbook.Prelude.Maps.{find, assign, insert}
use distributed_orderbook.Orderbook.Types.{Ptr, Orderbook}
use distributed_orderbook.Orderbook.Command.{done, levels, set_levels}
use distributed_orderbook.Orderbook.Methods.{before, rest_order}
use distributed_orderbook.Orderbook.Rep.{Cell, Queues, put_queue, Rep, same_level, Ordered}
use distributed_orderbook.Orderbook.Rep.Frame.{Rep-entry, Rep-apart, Rep-unused}
use distributed_orderbook.Orderbook.Rep.Index.{put_queue-at}
use distributed_orderbook.Orderbook.Rep.Enter.{Enters-Rep}
use distributed_orderbook.Orderbook.Match.Levels.{view, view-put_queue, put_queue-other_side}
use distributed_orderbook.Orderbook.Match.Enqueue.{entered, entered-Enters, rest_order-entered}
use distributed_orderbook.Orderbook.Match.OpenLevel.{
  All-before, opened, opened-Enters, rest_order-opened,
}
use distributed_orderbook.Book.{Side, enter}
use distributed_orderbook.Book.Loops.{queue-cases}

-- The sides of a book, as the specification has them, when an order has joined one of them.
pub record Rests (b : Orderbook) (queues : Queues) (side : Bool) (price : ℤ) (c : Cell)
    (b' : Orderbook) (queues' : Queues) : Type 0 where
  pub rep : Rep b' queues'
  pub own :
      view (queues' side) (levels side b')
      ≡ enter (before side) price c (view (queues side) (levels side b))
  pub other :
      view (queues' (not side)) (levels (not side) b')
      ≡ view (queues (not side)) (levels (not side) b)
  pub index : b'.global_map ≡ assign c.order_id c.addr b.global_map

same_level-ne : (side : Bool) (p q : ℤ) → eqb_ℤ p q ≡ false → same_level side p side q ≡ false
same_level-ne true p q e = e
same_level-ne false p q e = e

eqb_ℤ-sym : (p q : ℤ) → eqb_ℤ p q ≡ false → eqb_ℤ q p ≡ false
eqb_ℤ-sym p q e = ground arith

before-asym : (side : Bool) (p q : ℤ) → before side p q ≡ true → before side q p ≡ false
unfolding before
before-asym true p q h = ground arith
before-asym false p q h = ground arith

find-All :
    (P : ℤ → Type 0) (k : ℤ) (l : Ptr) (m : List (ℤ × Ptr))
    → All (λ (e : ℤ × Ptr). P e.0) m
    → find k m ≡ some l
    → P k
unfolding find
find-All P k l [] h e = cc
find-All P k l ((j, w) ∷ m) h e = elim (Bool-cases (eqb_ℤ j k)) [
  | inl same ↦ subst P (eqb_ℤ→eq j k same) h.0
  | inr other ↦ find-All P k l m h.1 (rw other at e)
]

module _ (queues : Queues) (side : Bool) (price : ℤ) (c : Cell) where
  abbrev after : Queues
  after = put_queue queues side price (queues side price ++ c ∷ [])

  after-other : (q : ℤ) → eqb_ℤ q price ≡ false → after side q ≡ queues side q
  after-other q e =
      if_false _ (queues side price ++ c ∷ []) (queues side q)
        (same_level-ne side price q (eqb_ℤ-sym q price e))

  after-own : (q : ℤ) → eqb_ℤ q price ≡ true → after side q ≡ queues side q ++ c ∷ []
  after-own q e =
      subst (λ r. after side r ≡ queues side r ++ c ∷ []) (sym (eqb_ℤ→eq q price e))
        (put_queue-at queues side price (queues side price ++ c ∷ []))

  view-entered :
      (l : Ptr) (m : List (ℤ × Ptr))
      → Ordered (before side) m
      → find price m ≡ some l
      → view (after side) m ≡ enter (before side) price c (view (queues side) m)
  unfolding enter find
  view-entered l [] h e = cc
  view-entered l ((q, w) ∷ m) h e = elim (Bool-cases (eqb_ℤ q price)) [
    | inl same ↦ rw same (
        ap₂ (λ (ds : List Cell) (t : Side). (q, ds) ∷ t) (after-own q same)
          (view-put_queue queues side price (queues side price ++ c ∷ []) m (
            subst (λ r. All (λ (x : ℤ × Ptr). before side r x.0 ≡ true) m) (eqb_ℤ→eq q price same)
              h.0)))
    | inr other ↦
        let later = find-All (λ r. before side q r ≡ true) price l m h.0 (rw other at e) in
        rw (other, before-asym side q price later)
          (ap₂ (λ (ds : List Cell) (t : Side). (q, ds) ∷ t) (after-other q other)
            (view-entered l m h.1 (rw other at e)))
  ]

  view-opened :
      (l : Ptr) (m : List (ℤ × Ptr))
      → Ordered (before side) m
      → find price m ≡ none
      → queues side price ≡ []
      → view (after side) (insert (before side) price l m)
        ≡ enter (before side) price c (view (queues side) m)
  unfolding enter find insert
  view-opened l [] h e empty =
      ap (λ (ds : List Cell). (price, ds) ∷ [])
        (after-own price (eqb_ℤ-refl price) ∙ ap (λ ds. ds ++ c ∷ []) empty)
  view-opened l ((q, w) ∷ m) h e empty = elim (Bool-cases (eqb_ℤ q price)) [
    | inl same ↦ (let found = rw same at e in cc found)
    | inr other ↦ elim (Bool-cases (before side price q)) [
      | inl first ↦
          rw (other, first)
            (ap₂ (λ (ds : List Cell) (t : Side). (price, ds) ∷ t)
              (after-own price (eqb_ℤ-refl price) ∙ ap (λ ds. ds ++ c ∷ []) empty)
              (view-put_queue queues side price (queues side price ++ c ∷ []) ((q, w) ∷ m)
                (first, All-before side price q m first h.0)))
      | inr later ↦
          rw (other, later)
            (ap₂ (λ (ds : List Cell) (t : Side). (q, ds) ∷ t) (after-other q other)
              (view-opened l m h.1 (rw other at e) empty))
    ]
  ]

levels_set :
    (side : Bool) (m : List (ℤ × Ptr)) (b : Orderbook) → levels side (set_levels side m b) ≡ m
levels_set true m b = refl
levels_set false m b = refl

levels_set_other :
    (side : Bool) (m : List (ℤ × Ptr)) (b : Orderbook)
    → levels (not side) (set_levels side m b) ≡ levels (not side) b
levels_set_other true m b = refl
levels_set_other false m b = refl

pub rest_order-Rests :
    (b : Orderbook) (queues : Queues) (side : Bool) (price order_id volume : ℤ)
    → Rep b queues
    → pos 0 <ℤ volume
    → (b' : Orderbook) × (queues' : Queues) × (rest_order side price volume order_id b ≡ done tt b')
      × Rests b queues side price
          (record { addr = b.unused; order_id = order_id; volume = volume })
          b'
          queues'
rest_order-Rests b queues side price order_id volume rep positive =
    elim (Option-cases (find price (levels side b))) [
      | inl missing ↦ (
        opened rep side price order_id volume missing positive,
        after queues side price c,
        rest_order-opened rep side price order_id volume missing positive,
        record {
          rep =
              Enters-Rep rep (opened-Enters rep side price order_id volume missing positive)
                (λ side' price' _.
                  Rep-unused rep (b.unused + 1) side' price'
                    (rep.fresh (b.unused + 1) (omega arith)).1);
          own =
              ap (view (after queues side price c side)) (levels_set side _ b)
              ∙ view-opened queues side price c (b.unused + 1) (levels side b) (rep.ordered side)
                  missing (Rep-entry rep side price none missing);
          other = ap₂ view (put_queue-other_side queues side price _) (levels_set_other side _ b);
          index = refl;
        },
      )
      | inr (l, entry) ↦ elim (queue-cases (queues side price)) [
        | inl empty ↦ absurd ((Rep-entry rep side price (some l) entry).0 empty)
        | inr (x, xs, queued) ↦ (
          entered rep side price order_id volume l x xs entry queued positive,
          after queues side price c,
          rest_order-entered rep side price order_id volume l x xs entry queued positive,
          record {
            rep =
                Enters-Rep rep
                  (entered-Enters rep side price order_id volume l x xs entry queued positive)
                  (λ side' price' apart. Rep-apart rep l side price side' price' entry apart);
            own = view-entered queues side price c l (levels side b) (rep.ordered side) entry;
            other =
                ap (λ q. view q (levels (not side) b)) (put_queue-other_side queues side price _);
            index = refl;
          },
        )
      ]
    ]
  where
    c : Cell
    c = record { addr = b.unused; order_id = order_id; volume = volume }
