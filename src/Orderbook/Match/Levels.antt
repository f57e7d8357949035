-- ===== src/Orderbook/Match/Levels.antt =====
-- The outer loop of `match`: the levels of the opposite side, the best first.
use mathlib.Core.Path.{subst}
use distributed_orderbook.Prelude.{
  ℕ, suc, ◌≡◌, ◌≢◌, refl, ap, ap₂, ◌∙◌, Bool, true, false, not, ◌&&◌, some, List, [], ◌∷◌, arith,
  if◌then◌else◌, if_false, length, All,
}
use distributed_orderbook.Prelude.Int.{ℤ, pos, ltb_ℤ, eqb_ℤ, eqb_ℤ-refl}
use distributed_orderbook.Prelude.Maps.{erase}
use distributed_orderbook.Orderbook.Types.{Ptr, null, OrderResult, Orderbook}
use distributed_orderbook.Orderbook.Command.{Run, done, levels}
use distributed_orderbook.Orderbook.Command.Runs.{load_limit-done}
use distributed_orderbook.Orderbook.Methods.{
  Exit, returned, left, crosses, before, take_limit, take_levels,
}
use distributed_orderbook.Orderbook.Rep.{
  is_nil, Cell, limit_of, Ordered, Queues, put_queue, same_level, Rep,
}
use distributed_orderbook.Orderbook.Rep.Index.{put_queue-at}
use distributed_orderbook.Orderbook.Match.Queue.{Took}
use distributed_orderbook.Book.{Side, Taken, Swept, put_level}

-- A side of the book as the specification has it
abbrev pub view : (ℤ → List Cell) → List (ℤ × Ptr) → Side
view queue [] = []
view queue ((price, _) ∷ m) = (price, queue price) ∷ view queue m

-- What the loop over the levels leaves of the book.
pub record Sweeps (b : Orderbook) (queues : Queues) (side : Bool) (swept : Swept) (b' : Orderbook)
    (queues' : Queues) : Type 0 where
  pub rep : Rep b' queues'
  pub levels_left : view (queues' side) (levels side b') ≡ swept.levels
  pub index : b'.global_map ≡ swept.index
  pub other : levels (not side) b' ≡ levels (not side) b
  pub other_queues : queues' (not side) ≡ queues (not side)
  pub unused : b'.unused ≡ b.unused

abbrev pub SweptBy : Orderbook → Queues → Bool → Swept → Run Exit → Type 0
SweptBy b queues side swept run =
    (b' : Orderbook) × (queues' : Queues) × (run ≡ done swept.exit b')
    × Sweeps b queues side swept b' queues'

before-ne : (side : Bool) (p q : ℤ) → before side p q ≡ true → eqb_ℤ q p ≡ false
unfolding before
before-ne true p q h = ground arith
before-ne false p q h = ground arith

before-other : (side : Bool) (p q : ℤ) → before side p q ≡ true → same_level side p side q ≡ false
unfolding before
before-other true p q h = ground arith
before-other false p q h = ground arith

module _ (queues : Queues) (side : Bool) (best : ℤ) (cs : List Cell) where
  -- The other levels of the side are not changed.
  pub view-put_queue :
      (m : List (ℤ × Ptr))
      → All (λ (e : ℤ × Ptr). before side best e.0 ≡ true) m
      → view (put_queue queues side best cs side) m ≡ view (queues side) m
  view-put_queue [] h = refl
  view-put_queue ((q, l) ∷ m) h =
      ap₂ (λ (ds : List Cell) (t : Side). (q, ds) ∷ t)
        (if_false _ cs (queues side q) (before-other side best q h.0)) (view-put_queue m h.1)

  erase-later :
      (m : List (ℤ × Ptr)) → All (λ (e : ℤ × Ptr). before side best e.0 ≡ true) m → erase best m ≡ m
  unfolding erase
  erase-later [] h = refl
  erase-later ((q, l) ∷ m) h =
      rw (before-ne side best q h.0) (ap (λ t. (q, l) ∷ t) (erase-later m h.1))

erase-first : (best : ℤ) (l : Ptr) (m : List (ℤ × Ptr)) → erase best ((best, l) ∷ m) ≡ erase best m
unfolding erase
erase-first best l m = rw (eqb_ℤ-refl best)

module _ (queues : Queues) (side : Bool) (best : ℤ) (l : Ptr) (m : List (ℤ × Ptr))
    (ordered : All (λ (e : ℤ × Ptr). before side best e.0 ≡ true) m) where
  pub erase-best : erase best ((best, l) ∷ m) ≡ m
  erase-best = erase-first best l m ∙ erase-later queues side best [] m ordered

  pub view-first :
      (cs : List Cell)
      → view
          (put_queue queues side best cs side)
          (if is_nil cs then erase best ((best, l) ∷ m) else (best, l) ∷ m)
        ≡ put_level best cs (view (queues side) m)
  view-first [] =
      ap (view (put_queue queues side best [] side)) erase-best
      ∙ view-put_queue queues side best [] m ordered
  view-first (c ∷ cs) =
      ap₂ (λ (ds : List Cell) (t : Side). (best, ds) ∷ t) (put_queue-at queues side best (c ∷ cs))
        (view-put_queue queues side best (c ∷ cs) m ordered)

pub put_queue-other_side :
    (queues : Queues) (side : Bool) (best : ℤ) (cs : List Cell)
    → put_queue queues side best cs (not side) ≡ queues (not side)
put_queue-other_side queues true best cs = refl
put_queue-other_side queues false best cs = refl

module _ (side : Bool) (price time : ℤ) where
  pub take_levels-nil :
      (k : ℕ) (volume : ℤ) (res : OrderResult) (b : Orderbook)
      → levels (not side) b ≡ []
      → take_levels (suc k) side price time volume res b ≡ done (left volume res) b
  unfolding take_levels
  take_levels-nil k volume res b e = rw (e, take_levels)

  pub take_levels-stop :
      (k : ℕ) (volume : ℤ) (res : OrderResult) (b : Orderbook) (best : ℤ) (l : Ptr)
      (m : List (ℤ × Ptr))
      → levels (not side) b ≡ (best, l) ∷ m
      → (crosses side price best && ltb_ℤ (pos 0) volume) ≡ false
      → take_levels (suc k) side price time volume res b ≡ done (left volume res) b
  unfolding take_levels
  take_levels-stop k volume res b best l m e stop = rw (e, take_levels, stop)

  module _ (k : ℕ) (volume : ℤ) (res : OrderResult) (b b' : Orderbook) (best : ℤ) (l : Ptr)
      (m : List (ℤ × Ptr)) (cs : List Cell) (top : levels (not side) b ≡ (best, l) ∷ m)
      (go : (crosses side price best && ltb_ℤ (pos 0) volume) ≡ true) (valid : l ≢ null)
      (limit : b.limits l ≡ some (limit_of cs)) where
    pub take_levels-returned :
        (r : OrderResult)
        → take_limit (suc (length cs)) side best l time volume res b ≡ done (returned r) b'
        → take_levels (suc k) side price time volume res b ≡ done (returned r) b'
    unfolding take_levels
    take_levels-returned r ran =
        rw (top, take_levels, go, load_limit-done b l (limit_of cs) valid limit, ran)

    pub take_levels-left :
        (v : ℤ) (r : OrderResult)
        → take_limit (suc (length cs)) side best l time volume res b ≡ done (left v r) b'
        → take_levels (suc k) side price time volume res b ≡ take_levels k side price time v r b'
    unfolding take_levels
    take_levels-left v r ran =
        rw (top, take_levels, go, load_limit-done b l (limit_of cs) valid limit, ran)

  -- The book when the loop does not enter the best level
  pub Sweeps-stop :
      (b : Orderbook) (queues : Queues) (m : List (ℤ × Ptr)) (exit : Exit)
      → Rep b queues
      → levels (not side) b ≡ m
      → Sweeps b queues
          (not side)
          (record { levels = view (queues (not side)) m; index = b.global_map; exit = exit })
          b
          queues
  Sweeps-stop b queues m exit rep top = record {
    rep = rep;
    levels_left = ap (view (queues (not side))) top;
    index = refl;
    other = refl;
    other_queues = refl;
    unused = refl;
  }

  -- The book after the trades at the best level
  pub Sweeps-level :
      (b b' : Orderbook) (queues : Queues) (best : ℤ) (l : Ptr) (m : List (ℤ × Ptr)) (t : Taken)
      (exit : Exit)
      → Rep b queues
      → levels (not side) b ≡ (best, l) ∷ m
      → Took b queues (not side) best t b'
      → Sweeps b queues
          (not side)
          (record {
            levels = put_level best t.queue (view (queues (not side)) m);
            index = t.index;
            exit = exit;
          })
          b'
          (put_queue queues (not side) best t.queue)
  Sweeps-level b b' queues best l m t exit rep top took = record {
    rep = took.rep;
    levels_left =
        ap (view (put_queue queues (not side) best t.queue (not side)))
          (took.keys ∙ ap (λ m'. if is_nil t.queue then erase best m' else m') top)
        ∙ view-first queues (not side) best l m
            (subst (Ordered (before (not side))) top (rep.ordered (not side))).0 t.queue;
    index = took.index;
    other = took.other;
    other_queues = put_queue-other_side queues (not side) best t.queue;
    unused = took.unused;
  }
