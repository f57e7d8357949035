-- ===== src/Orderbook/Changes.antt =====
-- `cancel` and `modify` do what the specification says.
use mathlib.Core.Path.{subst}
use distributed_orderbook.Prelude.{
  ◌≡◌, refl, sym, ap, ◌∙◌, Bool, true, false, ◌&&◌, none, some, List, [], ◌∷◌, ◌++◌, inl, inr,
  Bool-cases, Option-cases, if◌then◌else◌, if_true, if_false, arith,
}
use distributed_orderbook.Prelude.Int.{ℤ, pos, leb_ℤ, lt→leb_ℤ, le→leb_ℤ}
use distributed_orderbook.Prelude.Maps.{find, erase}
use distributed_orderbook.Orderbook.Types.{Ptr, Orderbook}
use distributed_orderbook.Orderbook.Command.{Run, done, levels}
use distributed_orderbook.Orderbook.Methods.{cancel, modify}
use distributed_orderbook.Orderbook.Rep.{Cell, is_nil, same_side, Queues, Rep}
use distributed_orderbook.Orderbook.Rep.Locate.{set_volume, remove, Place}
use distributed_orderbook.Orderbook.Modify.{Modified, modify_refines}
use distributed_orderbook.Orderbook.Modify
use distributed_orderbook.Orderbook.Cancel.{Cancelled, kept_levels, cancel_refines}
use distributed_orderbook.Orderbook.Cancel
use distributed_orderbook.Orderbook.Match.Levels.{view}
use distributed_orderbook.Orderbook.Match.Refine.{book_of, Book-eq, Yields}
use distributed_orderbook.Orderbook.Views.{change-place}
use distributed_orderbook.Orderbook.Views.Prices.{remove-absent, set_volume-absent}
use distributed_orderbook.Orderbook.Volumes.{volume_of-place}
use distributed_orderbook.Book.{Book}
use distributed_orderbook.Book.Changes.{change_book, volume_of, withdraw, reduce}

module _ {b : Orderbook} {queues : Queues} (rep : Rep b queues) (order_id : ℤ) where
  withdraw-known :
      (p : Ptr)
      → find order_id b.global_map ≡ some p
      → withdraw order_id (book_of b queues) ≡ (
        true,
        record (change_book (remove p) (book_of b queues)) { index = erase order_id b.global_map },
      )
  unfolding withdraw
  withdraw-known p mapped = rw (withdraw, mapped) refl

  withdraw-unknown :
      find order_id b.global_map ≡ none
      → withdraw order_id (book_of b queues) ≡ (false, book_of b queues)
  unfolding withdraw
  withdraw-unknown missing = rw (withdraw, missing) refl

  Cancelled-Yields :
      (run : Run Bool)
      → Cancelled b queues order_id run
      → Yields run (withdraw order_id (book_of b queues))
  Cancelled-Yields run (Cancel.unknown missing) =
      subst (Yields (done false b)) (sym (withdraw-unknown missing)) (b, queues, refl, rep, refl)
  Cancelled-Yields run (Cancel.removed {p} place b' mapped index kept rep') =
      subst (Yields (done true b')) (sym (withdraw-known p mapped)) (
        b',
        _,
        refl,
        rep',
        Book-eq (ap (view _) (kept true) ∙ change-place rep place (remove p) (remove-absent p) true)
            (ap (view _) (kept false) ∙ change-place rep place (remove p) (remove-absent p) false)
            index,
      )

  -- On a well-formed book `cancel` ends without a fault, gives the result that `Book.withdraw` gives on
  -- the book that the state stands for, and leaves a well-formed state, which stands for the book that
  -- `Book.withdraw` gives.
  pub cancel-withdraw : Yields (cancel order_id b) (withdraw order_id (book_of b queues))
  cancel-withdraw = Cancelled-Yields _ (cancel_refines rep order_id)

is_nil-set_volume : (p : Ptr) (v : ℤ) (cs : List Cell) → is_nil (set_volume p v cs) ≡ is_nil cs
unfolding set_volume
is_nil-set_volume p v [] = refl
is_nil-set_volume p v (c ∷ cs) = ground arith

is_nil-append : (xs : List Cell) (c : Cell) (ys : List Cell) → is_nil (xs ++ c ∷ ys) ≡ false
is_nil-append [] c ys = refl
is_nil-append (x ∷ xs) c ys = refl

module _ {b : Orderbook} {queues : Queues} (rep : Rep b queues) (order_id new_size : ℤ) where
  abbrev reduced_to : Bool × Book
  reduced_to = reduce order_id new_size (book_of b queues)

  reduce-unknown : find order_id b.global_map ≡ none → reduced_to ≡ (false, book_of b queues)
  unfolding reduce
  reduce-unknown missing = rw (reduce, missing) refl

  reduce-not_positive : leb_ℤ new_size (pos 0) ≡ true → reduced_to ≡ (false, book_of b queues)
  unfolding reduce
  reduce-not_positive low = elim (Option-cases (find order_id b.global_map)) [
    | inl missing ↦ rw (reduce, missing) refl
    | inr (p, mapped) ↦ rw (reduce, mapped, low) refl
  ]

  module _ (p : Ptr) (volume : ℤ) (mapped : find order_id b.global_map ≡ some p)
      (low : leb_ℤ new_size (pos 0) ≡ false)
      (found : volume_of p (book_of b queues) ≡ some volume) where
    reduce-found : reduced_to ≡ (
        if leb_ℤ volume new_size
        then (false, book_of b queues)
        else (true, change_book (set_volume p new_size) (book_of b queues)))
    unfolding reduce
    reduce-found =
        rw (reduce, mapped, low)
          (ap
            (λ o. elim o [
              | none ↦ (false, book_of b queues)
              | some v ↦
                  if leb_ℤ v new_size
                  then (false, book_of b queues)
                  else (true, change_book (set_volume p new_size) (book_of b queues))
            ])
            found)

  refused : reduced_to ≡ (false, book_of b queues) → Yields (done false b) reduced_to
  refused e = subst (Yields (done false b)) (sym e) (b, queues, refl, rep, refl)

  kept_queue :
      {p : Ptr} (place : Place b queues order_id p) (side : Bool)
      → levels side b ≡ (
          if is_nil (set_volume p new_size (queues place.side place.price))
            && same_side place.side side
          then erase place.price (levels side b)
          else levels side b)
  kept_queue {p} place side =
      let stays : is_nil (set_volume p new_size (queues place.side place.price)) ≡ false =
        is_nil-set_volume p new_size (queues place.side place.price)
        ∙ ap is_nil place.spot.split
        ∙ is_nil-append place.spot.older place.spot.cell place.spot.younger in
      sym (
        if_false _ (erase place.price (levels side b)) (levels side b)
          (ap (λ x. x && same_side place.side side) stays))

  reduced-at :
      {p : Ptr} (place : Place b queues order_id p)
      → find order_id b.global_map ≡ some p
      → leb_ℤ new_size (pos 0) ≡ false
      → reduced_to ≡ (
          if leb_ℤ place.spot.cell.volume new_size
          then (false, book_of b queues)
          else (true, change_book (set_volume p new_size) (book_of b queues)))
  reduced-at {p} place mapped low =
      reduce-found p place.spot.cell.volume mapped low (volume_of-place rep place)

  Modified-Yields :
      (run : Run Bool) → Modified b queues order_id new_size run → Yields run reduced_to
  Modified-Yields run (Modify.unknown missing) = refused (reduce-unknown missing)
  Modified-Yields run (Modify.not_positive low) =
      refused (reduce-not_positive (le→leb_ℤ new_size (pos 0) low))
  Modified-Yields run (Modify.not_smaller place mapped high) =
      elim (Bool-cases (leb_ℤ new_size (pos 0))) [
        | inl low ↦ refused (reduce-not_positive low)
        | inr low ↦ refused (
            reduced-at place mapped low
            ∙ if_true _ _ _ (le→leb_ℤ place.spot.cell.volume new_size high))
      ]
  Modified-Yields run (Modify.reduced {p} place b' mapped low high index asks bids rep') =
      subst (Yields (done true b'))
        (sym (
          reduced-at place mapped (lt→leb_ℤ (pos 0) new_size low)
          ∙ if_false _ _ _ (lt→leb_ℤ new_size place.spot.cell.volume high)))
        (
          b',
          _,
          refl,
          rep',
          Book-eq
              (ap (view _) (asks ∙ kept_queue place true)
                ∙ change-place rep place (set_volume p new_size) (set_volume-absent p new_size)
                    true)
              (ap (view _) (bids ∙ kept_queue place false)
                ∙ change-place rep place (set_volume p new_size) (set_volume-absent p new_size)
                    false)
              index,
        )

  -- On a well-formed book `modify` ends without a fault, gives the result that `Book.reduce` gives on
  -- the book that the state stands for, and leaves a well-formed state, which stands for the book that
  -- `Book.reduce` gives.
  pub modify-reduce : Yields (modify order_id new_size b) reduced_to
  modify-reduce = Modified-Yields _ (modify_refines rep order_id new_size)
