-- ===== src/Orderbook/Match/TakeLimit.antt =====
-- The inner loop of `match`: the orders of one level.
use mathlib.Core.Path.{subst, subst₂}
use distributed_orderbook.Prelude.{
  ℕ, zero, suc, ◌<◌, ◌≡◌, refl, sym, ap, ◌∙◌, Bool, true, false, not, some, List, [], ◌∷◌, arith,
  inl, inr, Bool-cases, length,
}
use distributed_orderbook.Prelude.Int.{ℤ, pos, ◌-ℤ◌, ◌<ℤ◌, ltb_ℤ, eqb_ℤ, int_laws, ltb_ℤ→lt}
use distributed_orderbook.Prelude.Maps.{find}
use distributed_orderbook.Orderbook.Types.{Ptr, OrderResult, Orderbook}
use distributed_orderbook.Orderbook.Command.{levels, set_levels}
use distributed_orderbook.Orderbook.Methods.{take_limit}
use distributed_orderbook.Orderbook.Rep.{Cell, Queues, put_queue, Rep}
use distributed_orderbook.Orderbook.Rep.Index.{put_queue-at, put_queue-put_queue}
use distributed_orderbook.Orderbook.Rep.Resize.{resized}
use distributed_orderbook.Orderbook.Rep.CutOut.{cut_out, closed}
use distributed_orderbook.Orderbook.Match.Fills.{fill_part-done, popped-cut_out, popped-closed}
use distributed_orderbook.Book.{traded, take_queue}
use distributed_orderbook.Orderbook.Match.Queue.{
  TookBy, at_head, take_queue-spent, take_queue-part, take_queue-whole, take_limit-spent,
  take_limit-part, take_limit-whole, Took-spent, Took-part, Rep-cut_out, Rep-closed,
}

rest_pos : (v w : ℤ) → v <ℤ w → pos 0 <ℤ w -ℤ v
rest_pos v w h = omega int_laws

one_count : eqb_ℤ (pos 1 -ℤ pos 1) (pos 0) ≡ true
unfolding ◌-ℤ◌
one_count = refl

more_count : (n : ℕ) → eqb_ℤ (pos (suc (suc n)) -ℤ pos 1) (pos 0) ≡ false
unfolding ◌-ℤ◌
more_count n = ground arith

levels-closed :
    (side : Bool) (m : List (ℤ × Ptr)) (b : Orderbook) → levels side (set_levels side m b) ≡ m
levels-closed true m b = refl
levels-closed false m b = refl

levels-closed_other :
    (side : Bool) (m : List (ℤ × Ptr)) (b : Orderbook)
    → levels (not side) (set_levels side m b) ≡ levels (not side) b
levels-closed_other true m b = refl
levels-closed_other false m b = refl

module _ (side : Bool) (price : ℤ) (l : Ptr) (time : ℤ) where
  whole-last :
      (k : ℕ) (volume : ℤ) (res : OrderResult) (c : Cell) (b : Orderbook) (queues : Queues)
      (rep : Rep b queues) (entry : find price (levels (not side) b) ≡ some l)
      (queued : queues (not side) price ≡ c ∷ [])
      → ltb_ℤ (pos 0) volume ≡ true
      → ltb_ℤ volume c.volume ≡ false
      → TookBy b queues
          (not side)
          price
          (take_queue price time volume res b.global_map (c ∷ []))
          (take_limit (suc k) side price l time volume res b)
  unfolding take_queue
  whole-last k volume res c b queues rep entry queued more whole =
      let hp = at_head rep side price l c [] entry queued in
      subst₂ (TookBy b queues (not side) price)
        (sym (take_queue-whole price time volume res b.global_map c [] more whole))
        (sym (
          take_limit-whole rep side price l c [] entry queued k time volume res more whole
          ∙ rw (one_count, popped-closed rep (not side) price l c [] entry queued time volume res)))
        (
          closed rep hp,
          refl,
          record {
            rep = Rep-closed rep side price l c [] entry queued refl;
            index = refl;
            keys = levels-closed (not side) _ b;
            other = levels-closed_other (not side) _ b;
            unused = refl;
          },
        )

  whole-more :
      (k : ℕ) (volume : ℤ) (res : OrderResult) (c c' : Cell) (cs : List Cell) (b : Orderbook)
      (queues : Queues) (rep : Rep b queues) (entry : find price (levels (not side) b) ≡ some l)
      (queued : queues (not side) price ≡ c ∷ c' ∷ cs)
      → ltb_ℤ (pos 0) volume ≡ true
      → ltb_ℤ volume c.volume ≡ false
      → (let b' = cut_out rep (at_head rep side price l c (c' ∷ cs) entry queued) in
          let queues' = put_queue queues (not side) price (c' ∷ cs) in
          TookBy b' queues'
            (not side)
            price
            (take_queue price time
              (volume -ℤ c.volume)
              (traded res price c.volume time)
              b'.global_map
              (c' ∷ cs))
            (take_limit k side price l time
              (volume -ℤ c.volume)
              (traded res price c.volume time)
              b'))
      → TookBy b queues
          (not side)
          price
          (take_queue price time volume res b.global_map (c ∷ c' ∷ cs))
          (take_limit (suc k) side price l time volume res b)
  whole-more k volume res c c' cs b queues rep entry queued more whole (b', ran, took) =
      subst₂ (TookBy b queues (not side) price)
        (sym (take_queue-whole price time volume res b.global_map c (c' ∷ cs) more whole))
        (sym (
          take_limit-whole rep side price l c (c' ∷ cs) entry queued k time volume res more whole
          ∙ rw (more_count (length cs)) (
              ap
                (take_limit k side price l time (volume -ℤ c.volume)
                  (traded res price c.volume time))
                (popped-cut_out rep (not side) price l c (c' ∷ cs) entry queued time volume res
                  (λ e. cc e)))))
        (
          b',
          ran,
          record {
            rep = subst (Rep b') (put_queue-put_queue queues (not side) price (c' ∷ cs) _) took.rep;
            index = took.index;
            keys = took.keys;
            other = took.other;
            unused = took.unused;
          },
        )

  -- The cases of a round, with that of a whole fill left open
  round :
      (k : ℕ) (volume : ℤ) (res : OrderResult) (c : Cell) (cs : List Cell) (b : Orderbook)
      (queues : Queues) (rep : Rep b queues) (entry : find price (levels (not side) b) ≡ some l)
      (queued : queues (not side) price ≡ c ∷ cs)
      → (ltb_ℤ (pos 0) volume ≡ true
          → ltb_ℤ volume c.volume ≡ false
          → TookBy b queues
              (not side)
              price
              (take_queue price time volume res b.global_map (c ∷ cs))
              (take_limit (suc k) side price l time volume res b))
      → TookBy b queues
          (not side)
          price
          (take_queue price time volume res b.global_map (c ∷ cs))
          (take_limit (suc k) side price l time volume res b)
  round k volume res c cs b queues rep entry queued whole =
      elim (Bool-cases (ltb_ℤ (pos 0) volume)) [
        | inr spent ↦
            subst₂ (TookBy b queues (not side) price)
              (sym (take_queue-spent price time volume res b.global_map c cs spent))
              (sym (take_limit-spent rep side price l c cs entry queued k time volume res spent))
              (b, refl, Took-spent rep side price l c cs entry queued k time volume res)
        | inl more ↦ elim (Bool-cases (ltb_ℤ volume c.volume)) [
          | inl part ↦
              let positive = rest_pos volume c.volume (ltb_ℤ→lt volume c.volume part) in
              subst₂ (TookBy b queues (not side) price)
                (sym (take_queue-part price time volume res b.global_map c cs more part))
                (sym (
                  take_limit-part rep side price l c cs entry queued k time volume res more part
                  ∙ fill_part-done rep (not side) price l c cs entry queued time volume res
                      positive))
                (
                  resized rep (at_head rep side price l c cs entry queued) (c.volume -ℤ volume)
                      positive,
                  refl,
                  Took-part rep side price l c cs entry queued k time volume res positive,
                )
          | inr all ↦ whole more all
        ]
      ]

  -- On a well-formed book, the inner loop of `match`, with at least a round for each order of the level,
  -- ends without a fault, and does to the level what `take_queue` does to its queue.
  pub take_limit-Took :
      (k : ℕ) (volume : ℤ) (res : OrderResult) (c : Cell) (cs : List Cell) (b : Orderbook)
      (queues : Queues)
      → Rep b queues
      → find price (levels (not side) b) ≡ some l
      → queues (not side) price ≡ c ∷ cs
      → length cs < k
      → TookBy b queues
          (not side)
          price
          (take_queue price time volume res b.global_map (c ∷ cs))
          (take_limit k side price l time volume res b)
  take_limit-Took zero volume res c cs b queues rep entry queued fuel = absurd (omega arith)
  take_limit-Took (suc k) volume res c [] b queues rep entry queued fuel =
      round k volume res c [] b queues rep entry queued
        (whole-last k volume res c b queues rep entry queued)
  take_limit-Took (suc k) volume res c (c' ∷ cs) b queues rep entry queued fuel =
      round k volume res c (c' ∷ cs) b queues rep entry queued λ more whole.
        whole-more k volume res c c' cs b queues rep entry queued more whole (
          take_limit-Took k (volume -ℤ c.volume) (traded res price c.volume time) c' cs
            (cut_out rep (at_head rep side price l c (c' ∷ cs) entry queued))
            (put_queue queues (not side) price (c' ∷ cs))
            (Rep-cut_out rep side price l c (c' ∷ cs) entry queued (λ e. cc e)) entry
            (put_queue-at queues (not side) price (c' ∷ cs)) (omega arith))
