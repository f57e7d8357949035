-- ===== src/Book/Crossing.antt =====
-- Whether the prices of the two sides cross.
use distributed_orderbook.Prelude.{
  ◌≡◌, refl, sym, ap, ◌∙◌, Bool, true, false, not, ◌&&◌, List, [], ◌∷◌, arith, inl, inr, Bool-cases,
  All,
}
use distributed_orderbook.Prelude.Int.{ℤ, pos, ◌<ℤ◌, ltb_ℤ, eqb_ℤ, leb_ℤ→lt, lt→leb_ℤ}
use distributed_orderbook.Orderbook.Types.{Ptr, OrderResult}
use distributed_orderbook.Orderbook.Methods.{Exit, returned, left, crosses, before}
use distributed_orderbook.Orderbook.Rep.{Cell}
use distributed_orderbook.Book.Loops.{Exit-cases, queue-cases, take_queue-left}
use distributed_orderbook.Book.{
  Side, Book, Taken, Swept, take_queue, put_level, after_level, sweep, enter, side_of, swept_book,
  rested_book, arrived, settle, place,
}

-- The prices of a side, each before all that follow
abbrev pub Sorted : (ℤ → ℤ → Bool) → Side → Type 0
Sorted lt [] = Unit
Sorted lt ((p, _) ∷ m) = All (λ (e : ℤ × List Cell). lt p e.0 ≡ true) m × Sorted lt m

-- No price of the side `own` would trade with a price of the other side.
abbrev pub Apart : Bool → Side → Side → Type 0
Apart side own other =
    All (λ (e : ℤ × List Cell). All (λ (f : ℤ × List Cell). crosses side e.0 f.0 ≡ false) other) own

-- Every ask is above every bid.
abbrev pub Uncrossed : Book → Type 0
Uncrossed book =
    All (λ (a : ℤ × List Cell). All (λ (b : ℤ × List Cell). b.0 <ℤ a.0) book.bids) book.asks

module _ {A : Type 0} where
  pub All-map : {P Q : A → Type 0} → ((x : A) → P x → Q x) → (m : List A) → All P m → All Q m
  All-map f [] h = tt
  All-map f (x ∷ m) h = (f x h.0, All-map f m h.1)

All-swap :
    {A B : Type 0} (P : A → B → Type 0) (xs : List A) (ys : List B)
    → All (λ x. All (P x) ys) xs
    → All (λ y. All (λ x. P x y) xs) ys
All-swap P xs [] h = tt
All-swap P xs (y ∷ ys) h = (All-map (λ x k. k.0) xs h, All-swap P xs ys (All-map (λ x k. k.1) xs h))

module _ (P : ℤ → Type 0) where
  abbrev Keys : Side → Type 0
  Keys m = All (λ (e : ℤ × List Cell). P e.0) m

  put_level-Keys :
      (best : ℤ) (cs : List Cell) (rest : Side) → P best → Keys rest → Keys (put_level best cs rest)
  put_level-Keys best [] rest p h = h
  put_level-Keys best (c ∷ cs) rest p h = (p, h)

  after_level-Keys :
      (best : ℤ) (rest : Side) (next : ℤ → OrderResult → List (ℤ × Ptr) → Swept) (t : Taken)
      → P best
      → Keys rest
      → ((v : ℤ) (r : OrderResult) (i : List (ℤ × Ptr)) → Keys (next v r i).levels)
      → Keys (after_level best rest next t).levels
  after_level-Keys best rest next t p h go = elim (Exit-cases t.exit) [
    | inl (s, is) ↦ rw is (put_level-Keys best t.queue rest p h)
    | inr (w, s, is) ↦ elim (queue-cases t.queue) [
      | inl empty ↦ rw (is, empty) (go w s t.index)
      | inr (d, ds, some_left) ↦ rw (is, some_left) (p, h)
    ]
  ]

  -- The loops add no price.
  sweep-Keys :
      (side : Bool) (price time v : ℤ) (r : OrderResult) (index : List (ℤ × Ptr)) (m : Side)
      → Keys m
      → Keys (sweep side price time v r index m).levels
  unfolding sweep
  sweep-Keys side price time v r index [] h = h
  sweep-Keys side price time v r index ((best, cs) ∷ rest) h =
      elim (Bool-cases (crosses side price best && ltb_ℤ (pos 0) v)) [
        | inr stop ↦ rw stop (h.0, h.1)
        | inl go ↦ rw go (
            after_level-Keys best rest (λ w s i. sweep side price time w s i rest)
              (take_queue best time v r index cs) h.0 h.1
              (λ w s i. sweep-Keys side price time w s i rest h.1))
      ]

  enter-Keys :
      (lt : ℤ → ℤ → Bool) (price : ℤ) (c : Cell) (m : Side)
      → P price
      → Keys m
      → Keys (enter lt price c m)
  unfolding enter
  enter-Keys lt price c [] p h = (p, tt)
  enter-Keys lt price c ((q, cs) ∷ rest) p h = elim (Bool-cases (eqb_ℤ q price)) [
    | inl same ↦ rw same (h.0, h.1)
    | inr other ↦ elim (Bool-cases (lt price q)) [
      | inl first ↦ rw (other, first) (p, (h.0, h.1))
      | inr later ↦ rw (other, later) (h.0, enter-Keys lt price c rest p h.1)
    ]
  ]

later_apart :
    (side : Bool) (price best q : ℤ)
    → crosses side price best ≡ false
    → before (not side) best q ≡ true
    → crosses side price q ≡ false
unfolding crosses before
later_apart true price best q c h = ground arith
later_apart false price best q c h = ground arith

stopped : (a b : Bool) → (a && b) ≡ false → b ≡ true → a ≡ false
stopped a b h k = ground arith

module _ (side : Bool) (price : ℤ) where
  abbrev Clear : Side → Type 0
  Clear m = All (λ (e : ℤ × List Cell). crosses side price e.0 ≡ false) m

  after_level-Clear :
      (best time v : ℤ) (r : OrderResult) (index : List (ℤ × Ptr)) (cs : List Cell) (rest : Side)
      (next : ℤ → OrderResult → List (ℤ × Ptr) → Swept) (v' : ℤ) (r' : OrderResult)
      → ((w : ℤ) (s : OrderResult) (i : List (ℤ × Ptr))
          → (next w s i).exit ≡ left v' r'
          → Clear (next w s i).levels)
      → ltb_ℤ (pos 0) v' ≡ true
      → (after_level best rest next (take_queue best time v r index cs)).exit ≡ left v' r'
      → Clear (after_level best rest next (take_queue best time v r index cs)).levels
  after_level-Clear best time v r index cs rest next v' r' go more e =
      let t = take_queue best time v r index cs in
      elim (Exit-cases t.exit) [
        | inl (s, is) ↦ (let wrong = rw is at e in cc wrong)
        | inr (w, s, is) ↦ elim (queue-cases t.queue) [
          | inl empty ↦ rw (is, empty) (go w s t.index (rw (is, empty) at e))
          | inr (d, ds, some_left) ↦
              (let same = rw (is, some_left) at e in
                let spent = take_queue-left best time v r index cs w s d ds is some_left in
                cc (
                  sym more
                  ∙ ap (λ x. elim x [ left u _ ↦ ltb_ℤ (pos 0) u | returned _ ↦ true ]) (sym same)
                  ∙ spent))
        ]
      ]

  -- An order that has shares left after the loops crosses no price that is left.
  sweep-Clear :
      (time v : ℤ) (r : OrderResult) (index : List (ℤ × Ptr)) (m : Side) (v' : ℤ) (r' : OrderResult)
      → Sorted (before (not side)) m
      → ltb_ℤ (pos 0) v' ≡ true
      → (sweep side price time v r index m).exit ≡ left v' r'
      → Clear (sweep side price time v r index m).levels
  unfolding sweep
  sweep-Clear time v r index [] v' r' sorted more e = tt
  sweep-Clear time v r index ((best, cs) ∷ rest) v' r' sorted more e =
      elim (Bool-cases (crosses side price best && ltb_ℤ (pos 0) v)) [
        | inr stop ↦
            (let same = rw stop at e in
              let apart =
                stopped _ _ stop (
                  ap (λ x. elim x [ left u _ ↦ ltb_ℤ (pos 0) u | returned _ ↦ true ]) same
                  ∙ more) in
              rw stop (apart, All-map (λ f. later_apart side price best f.0 apart) rest sorted.0))
        | inl go ↦ rw go (
            after_level-Clear best time v r index cs rest
              (λ w s i. sweep side price time w s i rest) v' r'
              (λ w s i. sweep-Clear time w s i rest v' r' sorted.1 more) more (rw go at e))
      ]

above : (a b : ℤ) → b <ℤ a → crosses true a b ≡ false
unfolding crosses
above a b h = lt→leb_ℤ b a h

below : (a b : ℤ) → b <ℤ a → crosses false b a ≡ false
unfolding crosses
below a b h = lt→leb_ℤ b a h

above-lt : (a b : ℤ) → crosses true a b ≡ false → b <ℤ a
unfolding crosses
above-lt a b h = leb_ℤ→lt a b h

below-lt : (a b : ℤ) → crosses false b a ≡ false → b <ℤ a
unfolding crosses
below-lt a b h = leb_ℤ→lt a b h

Apart-side :
    (side : Bool) (book : Book)
    → Uncrossed book
    → Apart side (side_of side book) (side_of (not side) book)
Apart-side true book h = All-map (λ a. All-map (λ b. above a.0 b.0) book.bids) book.asks h
Apart-side false book h =
    All-swap (λ (b a : ℤ × List Cell). crosses false a.0 b.0 ≡ false) book.asks book.bids
      (All-map (λ a. All-map (λ b. below a.0 b.0) book.bids) book.asks h)

Uncrossed-side :
    (side : Bool) (book : Book)
    → Apart side (side_of side book) (side_of (not side) book)
    → Uncrossed book
Uncrossed-side true book h = All-map (λ a. All-map (λ b. above-lt a.0 b.0) book.bids) book.asks h
Uncrossed-side false book h =
    All-swap (λ (b a : ℤ × List Cell). b.0 <ℤ a.0) book.bids book.asks
      (All-map (λ b. All-map (λ a. below-lt a.0 b.0) book.asks) book.bids h)

module _ (side : Bool) (s : Swept) (book : Book) where
  swept-Uncrossed : Apart side (side_of side book) s.levels → Uncrossed (swept_book side s book)
  swept-Uncrossed h = Uncrossed-side side (swept_book side s book) (by_side side h)
    where
      by_side :
          (t : Bool)
          → Apart t (side_of t book) s.levels
          → Apart t (side_of t (swept_book t s book)) (side_of (not t) (swept_book t s book))
      by_side true h' = h'
      by_side false h' = h'

  rested-Uncrossed :
      (price : ℤ) (c : Cell)
      → Apart side (enter (before side) price c (side_of side book)) s.levels
      → Uncrossed (rested_book side price c (swept_book side s book))
  rested-Uncrossed price c h =
      Uncrossed-side side (rested_book side price c (swept_book side s book)) (by_side side h)
    where
      by_side :
          (t : Bool)
          → Apart t (enter (before t) price c (side_of t book)) s.levels
          → Apart t
              (side_of t (rested_book t price c (swept_book t s book)))
              (side_of (not t) (rested_book t price c (swept_book t s book)))
      by_side true h' = h'
      by_side false h' = h'

module _ (addr : Ptr) (price volume : ℤ) (side : Bool) (time order_id : ℤ) (book : Book)
    (sorted : Sorted (before (not side)) (side_of (not side) book))
    (uncrossed : Uncrossed book) where
  abbrev swept : Swept
  swept =
      sweep side price time volume (arrived order_id volume) book.index (side_of (not side) book)

  swept-Apart : Apart side (side_of side book) swept.levels
  swept-Apart =
      All-map
        (λ e.
          sweep-Keys (λ q. crosses side e.0 q ≡ false) side price time volume
            (arrived order_id volume) book.index (side_of (not side) book))
        (side_of side book) (Apart-side side book uncrossed)

  settle-Uncrossed :
      (e : Exit)
      → swept.exit ≡ e
      → Uncrossed (settle addr price side order_id (swept_book side swept book) e).1
  settle-Uncrossed (returned r) is = swept-Uncrossed side swept book swept-Apart
  settle-Uncrossed (left v r) is = elim (Bool-cases (ltb_ℤ (pos 0) v)) [
    | inr spent ↦ rw spent (swept-Uncrossed side swept book swept-Apart)
    | inl more ↦ rw more (
        rested-Uncrossed side swept book price _ (
          enter-Keys (λ p. All (λ (f : ℤ × List Cell). crosses side p f.0 ≡ false) swept.levels)
            (before side) price _ (side_of side book)
            (sweep-Clear side price time volume (arrived order_id volume) book.index
              (side_of (not side) book) v r sorted more is)
            swept-Apart))
  ]

  -- When every ask is above every bid and the opposite side is sorted, every ask is above every bid
  -- after an incoming order too.
  pub place-Uncrossed : Uncrossed (place addr price volume side time order_id book).1
  unfolding place
  place-Uncrossed = settle-Uncrossed swept.exit refl
