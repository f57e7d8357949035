-- ===== src/Orderbook/Match/Sweep.antt =====
-- The outer loop of `match` does to the opposite side what `sweep` does.
use mathlib.Core.Path.{subst, subst₂}
use distributed_orderbook.Prelude.{
  ℕ, zero, suc, ◌<◌, ◌≡◌, refl, sym, ap, ap₂, ◌∙◌, Bool, true, false, not, ◌&&◌, some, List, [],
  ◌∷◌, arith, inl, inr, Bool-cases, if◌then◌else◌, length, All,
}
use distributed_orderbook.Prelude.Int.{ℤ, pos, ltb_ℤ, eqb_ℤ-refl}
use distributed_orderbook.Prelude.Maps.{find, erase}
use distributed_orderbook.Orderbook.Types.{Ptr, OrderResult, Orderbook}
use distributed_orderbook.Orderbook.Command.{done, levels}
use distributed_orderbook.Orderbook.Methods.{
  Exit, returned, left, crosses, before, take_limit, take_levels,
}
use distributed_orderbook.Orderbook.Rep.{is_nil, Cell, Level, Ordered, Queues, put_queue, Rep}
use distributed_orderbook.Orderbook.Rep.Frame.{Rep-entry}
use distributed_orderbook.Orderbook.Match.Queue.{Took}
use distributed_orderbook.Orderbook.Match.TakeLimit.{take_limit-Took}
use distributed_orderbook.Orderbook.Match.Levels.{
  view, SweptBy, erase-best, view-put_queue, take_levels-nil, take_levels-stop,
  take_levels-returned, take_levels-left, Sweeps-stop, Sweeps-level, put_queue-other_side,
}
use distributed_orderbook.Book.Loops.{
  Exit-cases, queue-cases, after_level-returned, after_level-next, after_level-left,
  take_queue-left, sweep-stop, sweep-level,
}
use distributed_orderbook.Book.{Side, Taken, Swept, take_queue, after_level, sweep}

find-first : (best : ℤ) (l : Ptr) (m : List (ℤ × Ptr)) → find best ((best, l) ∷ m) ≡ some l
unfolding find
find-first best l m = rw (eqb_ℤ-refl best)

and-false : (a b : Bool) → b ≡ false → (a && b) ≡ false
and-false a b h = ground arith

module _ (side : Bool) (price time : ℤ) where
  abbrev Sweeping : ℕ → List (ℤ × Ptr) → Type 0
  Sweeping k m =
      (volume : ℤ) (res : OrderResult) (b : Orderbook) (queues : Queues)
      → Rep b queues
      → levels (not side) b ≡ m
      → SweptBy b queues (not side)
          (sweep side price time volume res b.global_map (view (queues (not side)) m))
          (take_levels k side price time volume res b)

  nil-case : (k : ℕ) → Sweeping (suc k) []
  unfolding sweep
  nil-case k volume res b queues rep top =
      subst (SweptBy b queues (not side) _)
        (sym (take_levels-nil side price time k volume res b top))
        (b, queues, refl, Sweeps-stop side price time b queues [] (left volume res) rep top)

  stop_any :
      (k : ℕ) (volume : ℤ) (res : OrderResult) (b : Orderbook) (best : ℤ) (l : Ptr)
      (m : List (ℤ × Ptr))
      → 0 < k
      → levels (not side) b ≡ (best, l) ∷ m
      → (crosses side price best && ltb_ℤ (pos 0) volume) ≡ false
      → take_levels k side price time volume res b ≡ done (left volume res) b
  stop_any zero volume res b best l m fuel top stop = absurd (omega arith)
  stop_any (suc k) volume res b best l m fuel top stop =
      take_levels-stop side price time k volume res b best l m top stop

  module _ (k : ℕ) (best : ℤ) (l : Ptr) (m : List (ℤ × Ptr)) (fuel : 0 < k) (ih : Sweeping k m)
      (volume : ℤ) (res : OrderResult) (b : Orderbook) (queues : Queues) (rep : Rep b queues)
      (top : levels (not side) b ≡ (best, l) ∷ m) where
    ordered : All (λ (e : ℤ × Ptr). before (not side) best e.0 ≡ true) m
    ordered = (subst (Ordered (before (not side))) top (rep.ordered (not side))).0

    abbrev Goal : Type 0
    Goal =
        SweptBy b queues (not side)
          (sweep side price time volume res b.global_map
            ((best, queues (not side) best) ∷ view (queues (not side)) m))
          (take_levels (suc k) side price time volume res b)

    stop-case : (crosses side price best && ltb_ℤ (pos 0) volume) ≡ false → Goal
    stop-case stop =
        subst₂ (SweptBy b queues (not side))
          (sym (sweep-stop side price time volume res b.global_map best _ _ stop))
          (sym (take_levels-stop side price time k volume res b best l m top stop))
          (
            b,
            queues,
            refl,
            Sweeps-stop side price time b queues ((best, l) ∷ m) (left volume res) rep top,
          )

    module _ (go : (crosses side price best && ltb_ℤ (pos 0) volume) ≡ true) (c : Cell)
        (cs : List Cell) (queued : queues (not side) best ≡ c ∷ cs) where
      entry : find best (levels (not side) b) ≡ some l
      entry = ap (find best) top ∙ find-first best l m

      at_best : Level b (not side) best (some l) (c ∷ cs)
      at_best =
          subst (Level b (not side) best (some l)) queued
            (Rep-entry rep (not side) best (some l) entry)

      abbrev taken : Taken
      taken = take_queue best time volume res b.global_map (c ∷ cs)

      abbrev rest : Side
      rest = view (queues (not side)) m

      abbrev next : ℤ → OrderResult → List (ℤ × Ptr) → Swept
      next v r i = sweep side price time v r i rest

      swept :
          sweep side price time volume res b.global_map ((best, queues (not side) best) ∷ rest)
          ≡ after_level best rest next taken
      swept =
          sweep-level side price time volume res b.global_map best _ rest go
          ∙ ap (λ ds. after_level best rest next (take_queue best time volume res b.global_map ds))
              queued

      module _ (b' : Orderbook)
          (ran : take_limit (suc (length (c ∷ cs))) side best l time volume res b
            ≡ done taken.exit b')
          (took : Took b queues (not side) best taken b') where
        abbrev queues' : Queues
        queues' = put_queue queues (not side) best taken.queue

        exits :
            (e : Exit)
            → taken.exit ≡ e
            → take_limit (suc (length (c ∷ cs))) side best l time volume res b ≡ done e b'
        exits e is = ran ∙ ap (λ x. done x b') is

        returned-case : (r : OrderResult) → taken.exit ≡ returned r → Goal
        returned-case r is =
            subst₂ (SweptBy b queues (not side))
              (sym (swept ∙ after_level-returned best rest next taken r is))
              (sym (
                take_levels-returned side price time k volume res b b' best l m (c ∷ cs) top go
                  at_best.1 at_best.2 r (exits (returned r) is)))
              (
                b',
                queues',
                refl,
                Sweeps-level side price time b b' queues best l m taken (returned r) rep top took,
              )

        next-case : (v : ℤ) (r : OrderResult) → taken.exit ≡ left v r → taken.queue ≡ [] → Goal
        next-case v r is used_up =
            let (b'', queues'', done_rest, sweeps) = ih v r b' queues' took.rep (
              took.keys
              ∙ ap (λ q. if is_nil q then erase best (levels (not side) b) else levels (not side) b)
                  used_up
              ∙ ap (erase best) top
              ∙ erase-best queues (not side) best l m ordered) in
            subst₂ (SweptBy b queues (not side))
              (sym (
                swept
                ∙ after_level-next best rest next taken v r is used_up
                ∙ ap₂ (sweep side price time v r) (sym took.index)
                    (sym (view-put_queue queues (not side) best taken.queue m ordered))))
              (sym (
                take_levels-left side price time k volume res b b' best l m (c ∷ cs) top go
                  at_best.1 at_best.2 v r (exits (left v r) is)))
              (
                b'',
                queues'',
                done_rest,
                record {
                  rep = sweeps.rep;
                  levels_left = sweeps.levels_left;
                  index = sweeps.index;
                  other = sweeps.other ∙ took.other;
                  other_queues =
                      sweeps.other_queues ∙ put_queue-other_side queues (not side) best taken.queue;
                  unused = sweeps.unused ∙ took.unused;
                },
              )

        left-case :
            (v : ℤ) (r : OrderResult) (d : Cell) (ds : List Cell)
            → taken.exit ≡ left v r
            → taken.queue ≡ d ∷ ds
            → Goal
        left-case v r d ds is some_left =
            subst₂ (SweptBy b queues (not side))
              (sym (swept ∙ after_level-left best rest next taken v r d ds is some_left))
              (sym (
                take_levels-left side price time k volume res b b' best l m (c ∷ cs) top go
                  at_best.1 at_best.2 v r (exits (left v r) is)
                ∙ stop_any k v r b' best l m fuel
                    (took.keys
                      ∙ ap
                          (λ q.
                            if is_nil q
                            then erase best (levels (not side) b)
                            else levels (not side) b)
                          some_left
                      ∙ top)
                    (and-false (crosses side price best) (ltb_ℤ (pos 0) v) (
                      take_queue-left best time volume res b.global_map (c ∷ cs) v r d ds is
                        some_left))))
              (
                b',
                queues',
                refl,
                Sweeps-level side price time b b' queues best l m taken (left v r) rep top took,
              )

        taken-case : Goal
        taken-case = elim (Exit-cases taken.exit) [
          | inl (r, is) ↦ returned-case r is
          | inr (v, r, is) ↦ elim (queue-cases taken.queue) [
            | inl used_up ↦ next-case v r is used_up
            | inr (d, ds, some_left) ↦ left-case v r d ds is some_left
          ]
        ]

      go-case : Goal
      go-case =
          let (b', ran, took) =
            take_limit-Took side best l time (suc (length (c ∷ cs))) volume res c cs b queues rep
              entry queued (omega arith) in
          taken-case b' ran took

    level-case : Goal
    level-case = elim (Bool-cases (crosses side price best && ltb_ℤ (pos 0) volume)) [
      | inr stop ↦ stop-case stop
      | inl go ↦ elim (queue-cases (queues (not side) best)) [
        | inl empty ↦ absurd (
            (Rep-entry rep (not side) best (some l) (ap (find best) top ∙ find-first best l m)).0
              empty)
        | inr (c, cs, queued) ↦ go-case go c cs queued
      ]
    ]

  -- On a well-formed book, the outer loop of `match`, with a round more than the opposite side has
  -- levels, ends without a fault, and does to that side what `sweep` does.
  pub take_levels-Swept :
      (k : ℕ) (m : List (ℤ × Ptr)) (volume : ℤ) (res : OrderResult) (b : Orderbook)
      (queues : Queues)
      → Rep b queues
      → levels (not side) b ≡ m
      → length m < k
      → SweptBy b queues
          (not side)
          (sweep side price time volume res b.global_map (view (queues (not side)) m))
          (take_levels k side price time volume res b)
  take_levels-Swept zero m volume res b queues rep top fuel = absurd (omega arith)
  take_levels-Swept (suc k) [] volume res b queues rep top fuel =
      nil-case k volume res b queues rep top
  take_levels-Swept (suc k) ((best, l) ∷ m) volume res b queues rep top fuel =
      level-case k best l m (omega arith)
        (λ v r b' queues' rep' top'. take_levels-Swept k m v r b' queues' rep' top' (omega arith))
        volume res b queues rep top
