-- ===== src/Book/Quotes.antt =====
-- A book without the addresses of its orders
use mathlib.Core.Path.{subst}
use distributed_orderbook.Prelude.{
  ◌≡◌, refl, sym, ap, ◌∙◌, Bool, true, false, ◌&&◌, List, [], ◌∷◌, ◌++◌, inl, inr, Bool-cases,
}
use distributed_orderbook.Prelude.Int.{ℤ, pos, ◌-ℤ◌, ltb_ℤ, eqb_ℤ}
use distributed_orderbook.Prelude.Maps.{erase}
use distributed_orderbook.Orderbook.Types.{Ptr, null, OrderResult}
use distributed_orderbook.Orderbook.Methods.{Exit, returned, left, crosses, before}
use distributed_orderbook.Orderbook.Rep.{Cell}
use distributed_orderbook.Book.{
  Side, Book, Taken, take_queue, Swept, after_level, sweep, enter, settle, swept_book, rested_book,
  arrived, traded, place,
}

-- What the order book shows of a side: prices, and the ids and volumes of the orders in their queues
abbrev pub bare_cell : Cell → Cell
bare_cell c = record c { addr = null }

abbrev pub bare_queue : List Cell → List Cell
bare_queue [] = []
bare_queue (c ∷ cs) = bare_cell c ∷ bare_queue cs

abbrev pub bare_side : Side → Side
bare_side [] = []
bare_side ((price, cs) ∷ rest) = (price, bare_queue cs) ∷ bare_side rest

module _ (price time : ℤ) where
  take_queue-bare :
      (volume : ℤ) (res : OrderResult) (i j : List (ℤ × Ptr)) (cs : List Cell)
      → (bare_queue (take_queue price time volume res i cs).queue
          ≡ (take_queue price time volume res j (bare_queue cs)).queue)
        × ((take_queue price time volume res i cs).exit
            ≡ (take_queue price time volume res j (bare_queue cs)).exit)
  unfolding take_queue
  take_queue-bare volume res i j [] = (refl, refl)
  take_queue-bare volume res i j (c ∷ cs) = elim (Bool-cases (ltb_ℤ (pos 0) volume)) [
    | inl more ↦ elim (Bool-cases (ltb_ℤ volume c.volume)) [
      | inl part ↦ rw (take_queue, more, part) (refl, refl)
      | inr whole ↦
          rw (take_queue, more, whole)
            (take_queue-bare (volume -ℤ c.volume) (traded res price c.volume time)
              (erase c.order_id i) (erase c.order_id j) cs)
    ]
    | inr spent ↦ rw (take_queue, spent) (refl, refl)
  ]

-- The same levels and the same end of the loop
abbrev SameSweep : Swept → Swept → Type 0
SameSweep s s' = (bare_side s.levels ≡ s'.levels) × (s.exit ≡ s'.exit)

module _ (best : ℤ) (rest : Side) (next next' : ℤ → OrderResult → List (ℤ × Ptr) → Swept)
    (same : (v : ℤ) (r : OrderResult) (i j : List (ℤ × Ptr))
      → SameSweep (next v r i) (next' v r j)) where
  after_level-exit :
      (i j : List (ℤ × Ptr)) (e : Exit) (q : List Cell)
      → SameSweep (after_level best rest next (record { queue = q; index = i; exit = e })) (
          after_level best
            (bare_side rest)
            next'
            (record { queue = bare_queue q; index = j; exit = e }))
  after_level-exit i j (returned r) [] = (refl, refl)
  after_level-exit i j (returned r) (c ∷ cs) = (refl, refl)
  after_level-exit i j (left v r) [] = same v r i j
  after_level-exit i j (left v r) (c ∷ cs) = (refl, refl)

  after_level-bare :
      (t u : Taken)
      → (bare_queue t.queue ≡ u.queue) × (t.exit ≡ u.exit)
      → SameSweep (after_level best rest next t) (after_level best (bare_side rest) next' u)
  after_level-bare t u (q, e) =
      subst
        (λ x. SameSweep (after_level best rest next t) (after_level best (bare_side rest) next' x))
        (λ n. record { queue = q n; index = u.index; exit = e n })
        (after_level-exit t.index u.index t.exit t.queue)

module _ (side : Bool) (price time : ℤ) where
  sweep-bare :
      (volume : ℤ) (res : OrderResult) (i j : List (ℤ × Ptr)) (levels : Side)
      → SameSweep
          (sweep side price time volume res i levels)
          (sweep side price time volume res j (bare_side levels))
  unfolding sweep
  sweep-bare volume res i j [] = (refl, refl)
  sweep-bare volume res i j ((best, cs) ∷ rest) =
      elim (Bool-cases (crosses side price best && ltb_ℤ (pos 0) volume)) [
        | inl more ↦
            rw (sweep, more)
              (after_level-bare best rest (λ v r m. sweep side price time v r m rest)
                (λ v r m. sweep side price time v r m (bare_side rest))
                (λ v r m n. sweep-bare v r m n rest) (take_queue best time volume res i cs)
                (take_queue best time volume res j (bare_queue cs))
                (take_queue-bare best time volume res i j cs))
        | inr over ↦ rw (sweep, over) (refl, refl)
      ]

bare_queue-append :
    (cs : List Cell) (c : Cell) → bare_queue (cs ++ c ∷ []) ≡ bare_queue cs ++ bare_cell c ∷ []
bare_queue-append [] c = refl
bare_queue-append (x ∷ cs) c = ap (λ (t : List Cell). bare_cell x ∷ t) (bare_queue-append cs c)

enter-bare :
    (lt : ℤ → ℤ → Bool) (price : ℤ) (c : Cell) (levels : Side)
    → bare_side (enter lt price c levels) ≡ enter lt price (bare_cell c) (bare_side levels)
unfolding enter
enter-bare lt price c [] = refl
enter-bare lt price c ((q, cs) ∷ rest) = elim (Bool-cases (eqb_ℤ q price)) [
  | inl here ↦ rw (enter, here) (ap (λ ds. (q, ds) ∷ bare_side rest) (bare_queue-append cs c))
  | inr other ↦ elim (Bool-cases (lt price q)) [
    | inl first ↦ rw (enter, other, first) refl
    | inr later ↦
        rw (enter, other, later)
          (ap (λ (t : Side). (q, bare_queue cs) ∷ t) (enter-bare lt price c rest))
  ]
]

-- The same sides
pub record SameSides (book book' : Book) : Type 0 where
  pub asks : bare_side book.asks ≡ bare_side book'.asks
  pub bids : bare_side book.bids ≡ bare_side book'.bids

-- Two answers with the same result and the same sides
pub record SameAnswer (x y : OrderResult × Book) : Type 0 where
  pub result : x.0 ≡ y.0
  pub sides : SameSides x.1 y.1

rested-SameSides :
    (side : Bool) (price order_id volume : ℤ) (p q : Ptr) (book book' : Book)
    → SameSides book book'
    → SameSides
        (rested_book side price (record { addr = p; order_id = order_id; volume = volume }) book)
        (rested_book side price (record { addr = q; order_id = order_id; volume = volume }) book')
rested-SameSides true price order_id volume p q book book' h = record {
  asks =
      enter-bare (before true) price (record { addr = p; order_id = order_id; volume = volume })
        book.asks
      ∙ ap
          (enter (before true) price (record { addr = null; order_id = order_id; volume = volume }))
          h.asks
      ∙ sym (
          enter-bare (before true) price (record { addr = q; order_id = order_id; volume = volume })
            book'.asks);
  bids = h.bids;
}
rested-SameSides false price order_id volume p q book book' h = record {
  asks = h.asks;
  bids =
      enter-bare (before false) price (record { addr = p; order_id = order_id; volume = volume })
        book.bids
      ∙ ap
          (enter (before false) price
            (record { addr = null; order_id = order_id; volume = volume }))
          h.bids
      ∙ sym (
          enter-bare (before false) price
            (record { addr = q; order_id = order_id; volume = volume }) book'.bids);
}

settle-SameAnswer :
    (p q : Ptr) (price : ℤ) (side : Bool) (order_id : ℤ) (book book' : Book) (e : Exit)
    → SameSides book book'
    → SameAnswer (settle p price side order_id book e) (settle q price side order_id book' e)
settle-SameAnswer p q price side order_id book book' (returned r) h = record {
  result = refl;
  sides = h;
}
settle-SameAnswer p q price side order_id book book' (left v r) h =
    elim (Bool-cases (ltb_ℤ (pos 0) v)) [
      | inl more ↦ rw more (record {
        result = refl;
        sides = rested-SameSides side price order_id v p q book book' h;
      })
      | inr spent ↦ rw spent (record { result = refl; sides = h })
    ]

module _ (side : Bool) (price volume time : ℤ) (res : OrderResult) (i j : List (ℤ × Ptr)) where
  -- Two sweeps of sides that are the same without addresses
  sweep-same :
      (xs ys : Side)
      → bare_side xs ≡ bare_side ys
      → (bare_side (sweep side price time volume res i xs).levels
          ≡ bare_side (sweep side price time volume res j ys).levels)
        × ((sweep side price time volume res i xs).exit
            ≡ (sweep side price time volume res j ys).exit)
  sweep-same xs ys e =
      let s = λ (t : Side). sweep side price time volume res [] t in
      let (l, x) = sweep-bare side price time volume res i [] xs in
      let (l', x') = sweep-bare side price time volume res j [] ys in
      (l ∙ ap (λ t. (s t).levels) e ∙ sym l', x ∙ ap (λ t. (s t).exit) e ∙ sym x')

module _ (p q : Ptr) (price : ℤ) (side : Bool) (order_id : ℤ) (book book' : Book) where
  settle-same :
      (s s' : Swept)
      → SameSides (swept_book side s book) (swept_book side s' book')
      → s.exit ≡ s'.exit
      → SameAnswer
          (settle p price side order_id (swept_book side s book) s.exit)
          (settle q price side order_id (swept_book side s' book') s'.exit)
  settle-same s s' h e =
      subst
        (λ x.
          SameAnswer (settle p price side order_id (swept_book side s book) s.exit)
            (settle q price side order_id (swept_book side s' book') x))
        e
        (settle-SameAnswer p q price side order_id (swept_book side s book)
          (swept_book side s' book') s.exit h)

-- Neither the addresses of the orders nor the index matter to an incoming order.
pub place-same :
    (p q : Ptr) (price volume : ℤ) (side : Bool) (time order_id : ℤ) (book book' : Book)
    → SameSides book book'
    → SameAnswer
        (place p price volume side time order_id book)
        (place q price volume side time order_id book')
unfolding place
place-same p q price volume true time order_id book book' h =
    let (l, x) =
      sweep-same true price volume time (arrived order_id volume) book.index book'.index book.bids
        book'.bids h.bids in
    settle-same p q price true order_id book book' _ _ (record { asks = h.asks; bids = l }) x
place-same p q price volume false time order_id book book' h =
    let (l, x) =
      sweep-same false price volume time (arrived order_id volume) book.index book'.index book.asks
        book'.asks h.asks in
    settle-same p q price false order_id book book' _ _ (record { asks = l; bids = h.bids }) x
