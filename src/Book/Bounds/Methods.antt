-- ===== src/Book/Bounds/Methods.antt =====
-- The bounds of a book through a placement, a cancellation and a reduction.
use mathlib.Core.Path.{subst}
use distributed_orderbook.Prelude.{
  ℕ, ◌+◌, ◌≤◌, ◌≡◌, refl, Bool, true, false, not, some, List, arith, inl, inr, Bool-cases,
  Option-cases, All,
}
use distributed_orderbook.Prelude.Int.{
  ℤ, pos, ◌<ℤ◌, ◌≤ℤ◌, ltb_ℤ, leb_ℤ, int_laws, ltb_ℤ→lt, leb_ℤ→lt,
}
use distributed_orderbook.Prelude.Maps.{find}
use distributed_orderbook.Orderbook.Types.{Ptr, OrderResult}
use distributed_orderbook.Orderbook.Methods.{Exit, returned, left}
use distributed_orderbook.Orderbook.Rep.{Cell}
use distributed_orderbook.Orderbook.Rep.Locate.{remove, set_volume}
use distributed_orderbook.Book.Loops.{Holds, Positive, sweep-Holds}
use distributed_orderbook.Book.Crossing.{All-map}
use distributed_orderbook.Book.{
  Side, Book, Swept, sweep, side_of, swept_book, rested_book, arrived, settle, place,
}
use distributed_orderbook.Book.Changes.{change_book, volume_on, volume_of, withdraw, reduce}
use distributed_orderbook.Book.Bounds.{
  Small, orders, Within, sweep-Within, enter-Within, change-Within, Left, remove-Left,
  set_volume-Left, or_else-small, volume_on-small,
}

module _ (V : ℕ) where
  abbrev Sizes : Side → Type 0
  Sizes = All (λ (e : ℤ × List Cell). Small V e.1)

  -- At most `n` orders rest, each with shares left and at most `V` of them.
  pub record Bounded (n : ℕ) (book : Book) : Type 0 where
    pub number : orders book.asks + orders book.bids ≤ n
    pub asks : Sizes book.asks
    pub bids : Sizes book.bids

  pub grow : {n n' : ℕ} {book : Book} → n ≤ n' → Bounded n book → Bounded n' book
  grow h b = record { number = omega (arith, b.number); asks = b.asks; bids = b.bids }

  positive : (cs : List Cell) → Small V cs → Positive cs
  positive = All-map (λ (c : Cell) h. h.0)

  -- the shares that are left of an incoming order
  sweep-volume :
      (side : Bool) (price time volume : ℤ) (res : OrderResult) (index : List (ℤ × Ptr)) (m : Side)
      → volume ≤ℤ pos V
      → Sizes m
      → (v : ℤ) (r : OrderResult) → (sweep side price time volume res index m).exit ≡ left v r
      → v ≤ℤ pos V
  sweep-volume side price time volume res index m h s v r e =
      subst (Holds (λ w _. w ≤ℤ pos V) (λ _. Unit)) e (
        sweep-Holds (λ w _. w ≤ℤ pos V) (λ _. Unit) side price time
          (λ best _ u q w low pos_w g. (λ _. tt, λ _. omega int_laws)) volume res index m
          (All-map (λ (x : ℤ × List Cell) k. positive x.1 k) m s) h)

  swept-Bounded :
      (side : Bool) (n : ℕ) (book : Book) (s : Swept)
      → Bounded n book
      → Within V (orders (side_of (not side) book)) s.levels
      → Bounded n (swept_book side s book)
  swept-Bounded true n book s b w = record {
    number = omega (arith, b.number, w.number);
    asks = b.asks;
    bids = w.sizes;
  }
  swept-Bounded false n book s b w = record {
    number = omega (arith, b.number, w.number);
    asks = w.sizes;
    bids = b.bids;
  }

  rested-Bounded :
      (side : Bool) (price : ℤ) (c : Cell) (n : ℕ) (book : Book)
      → (pos 0 <ℤ c.volume) × (c.volume ≤ℤ pos V)
      → Bounded n book
      → Bounded (n + 1) (rested_book side price c book)
  rested-Bounded true price c n book h b =
      let w = enter-Within V _ price c book.asks h b.asks in
      record { number = omega (arith, b.number, w.number); asks = w.sizes; bids = b.bids }
  rested-Bounded false price c n book h b =
      let w = enter-Within V _ price c book.bids h b.bids in
      record { number = omega (arith, b.number, w.number); asks = b.asks; bids = w.sizes }

  settle-Bounded :
      (addr : Ptr) (price : ℤ) (side : Bool) (order_id : ℤ) (n : ℕ) (book : Book) (e : Exit)
      → ((v : ℤ) (r : OrderResult) → e ≡ left v r → v ≤ℤ pos V)
      → Bounded n book
      → Bounded (n + 1) (settle addr price side order_id book e).1
  settle-Bounded addr price side order_id n book (returned r) h b = grow (omega arith) b
  settle-Bounded addr price side order_id n book (left v r) h b =
      elim (Bool-cases (ltb_ℤ (pos 0) v)) [
        | inl more ↦ rw more (
            rested-Bounded side price (record { addr = addr; order_id = order_id; volume = v }) n
              book (ltb_ℤ→lt (pos 0) v more, h v r refl) b)
        | inr spent ↦ rw spent (grow (omega arith) b)
      ]

  sizes_of : (side : Bool) (n : ℕ) (book : Book) → Bounded n book → Sizes (side_of side book)
  sizes_of true n book b = b.asks
  sizes_of false n book b = b.bids

  pub place-Bounded :
      (addr : Ptr) (price volume : ℤ) (side : Bool) (time order_id : ℤ) (n : ℕ) (book : Book)
      → volume ≤ℤ pos V
      → Bounded n book
      → Bounded (n + 1) (place addr price volume side time order_id book).1
  unfolding place
  place-Bounded addr price volume side time order_id n book h b =
      let swept : Swept =
        sweep side price time volume (arrived order_id volume) book.index
          (side_of (not side) book) in
      settle-Bounded addr price side order_id n (swept_book side swept book) swept.exit
        (sweep-volume side price time volume (arrived order_id volume) book.index
          (side_of (not side) book) h (sizes_of (not side) n book b))
        (swept-Bounded side n book swept b (
          sweep-Within V side price time volume (arrived order_id volume) book.index
            (side_of (not side) book) (sizes_of (not side) n book b)))

  change-Bounded :
      (f : List Cell → List Cell) (n : ℕ) (book : Book)
      → ((cs : List Cell) → Small V cs → Left V cs (f cs))
      → Bounded n book
      → Bounded n (change_book f book)
  change-Bounded f n book keeps b =
      let a = change-Within V f book.asks keeps b.asks in
      let c = change-Within V f book.bids keeps b.bids in
      record {
        number = omega (arith, b.number, a.number, c.number);
        asks = a.sizes;
        bids = c.sizes;
      }

  pub withdraw-Bounded :
      (order_id : ℤ) (n : ℕ) (book : Book) → Bounded n book → Bounded n (withdraw order_id book).1
  unfolding withdraw
  withdraw-Bounded order_id n book b = elim (Option-cases (find order_id book.index)) [
    | inl missing ↦ rw (withdraw, missing) b
    | inr (p, known) ↦
        let c = change-Bounded (remove p) n book (remove-Left V p) b in
        rw (withdraw, known) (record { number = c.number; asks = c.asks; bids = c.bids })
  ]

  pub reduce-Bounded :
      (order_id new_size : ℤ) (n : ℕ) (book : Book)
      → Bounded n book
      → Bounded n (reduce order_id new_size book).1
  unfolding reduce
  reduce-Bounded order_id new_size n book b = elim (Option-cases (find order_id book.index)) [
    | inl missing ↦ rw (reduce, missing) b
    | inr (p, known) ↦ elim (Bool-cases (leb_ℤ new_size (pos 0))) [
      | inl low ↦ rw (reduce, known, low) b
      | inr low ↦ elim (Option-cases (volume_of p book)) [
        | inl absent ↦ rw (reduce, known, low, absent) b
        | inr (v, there) ↦ elim (Bool-cases (leb_ℤ v new_size)) [
          | inl high ↦ rw (reduce, known, low, there, high) b
          | inr high ↦
              rw (reduce, known, low, there, high)
                (change-Bounded (set_volume p new_size) n book
                  (λ cs.
                    set_volume-Left V p new_size cs (leb_ℤ→lt new_size (pos 0) low)
                      (below v new_size (leb_ℤ→lt v new_size high) (known_volume p v there)))
                  b)
        ]
      ]
    ]
  ]
    where
      known_volume : (p : Ptr) (v : ℤ) → volume_of p book ≡ some v → v ≤ℤ pos V
      known_volume p v e =
          or_else-small V v (volume_on p book.asks) (volume_on p book.bids)
            (volume_on-small V p v book.asks b.asks) (volume_on-small V p v book.bids b.bids) e

      below : (v w : ℤ) → w <ℤ v → v ≤ℤ pos V → w ≤ℤ pos V
      below v w h g = omega arith
