-- ===== src/Book/Loops.antt =====
-- The loops of an incoming order, case by case, and what every trade in them keeps.
use distributed_orderbook.Prelude.{
  ◌≡◌, ◌⊎◌, refl, Bool, true, false, ◌&&◌, List, [], ◌∷◌, arith, inl, inr, Bool-cases, All,
}
use distributed_orderbook.Prelude.Int.{ℤ, pos, ◌-ℤ◌, ◌<ℤ◌, ◌≤ℤ◌, ltb_ℤ, ltb_ℤ→lt, ltb_ℤ→le}
use distributed_orderbook.Prelude.Maps.{erase}
use distributed_orderbook.Orderbook.Types.{Ptr, OrderResult}
use distributed_orderbook.Orderbook.Methods.{Exit, returned, left, crosses}
use distributed_orderbook.Orderbook.Rep.{Cell}
use distributed_orderbook.Book.{
  Side, Taken, Swept, settled, traded, take_queue, put_level, after_level, sweep,
}

pub Exit-cases :
    (e : Exit)
    → ((r : OrderResult) × (e ≡ returned r)) ⊎ ((v : ℤ) × (r : OrderResult) × (e ≡ left v r))
Exit-cases (returned r) = inl (r, refl)
Exit-cases (left v r) = inr (v, r, refl)

pub queue-cases : (cs : List Cell) → (cs ≡ []) ⊎ ((c : Cell) × (ds : List Cell) × (cs ≡ c ∷ ds))
queue-cases [] = inl refl
queue-cases (c ∷ ds) = inr (c, ds, refl)

module _ (best : ℤ) (rest : Side) (next : ℤ → OrderResult → List (ℤ × Ptr) → Swept)
    (t : Taken) where
  pub after_level-returned :
      (r : OrderResult)
      → t.exit ≡ returned r
      → after_level best rest next t
        ≡ record { levels = put_level best t.queue rest; index = t.index; exit = returned r }
  after_level-returned r e = rw e

  pub after_level-next :
      (v : ℤ) (r : OrderResult)
      → t.exit ≡ left v r
      → t.queue ≡ []
      → after_level best rest next t ≡ next v r t.index
  after_level-next v r e q = rw (e, q)

  pub after_level-left :
      (v : ℤ) (r : OrderResult) (c : Cell) (ds : List Cell)
      → t.exit ≡ left v r
      → t.queue ≡ c ∷ ds
      → after_level best rest next t
        ≡ record { levels = put_level best t.queue rest; index = t.index; exit = left v r }
  after_level-left v r c ds e q = rw (e, q)

-- A queue that the loop leaves with orders in it, without a `return`, has used up the volume.
module _ (price time : ℤ) where
  pub take_queue-left :
      (volume : ℤ) (res : OrderResult) (index : List (ℤ × Ptr)) (cs : List Cell) (v : ℤ)
      (r : OrderResult) (c : Cell) (ds : List Cell)
      → (take_queue price time volume res index cs).exit ≡ left v r
      → (take_queue price time volume res index cs).queue ≡ c ∷ ds
      → ltb_ℤ (pos 0) v ≡ false
  unfolding take_queue
  take_queue-left volume res index [] v r c ds e q = cc
  take_queue-left volume res index (d ∷ cs) v r c ds e q = ground (
    arith,
    take_queue-left (volume -ℤ d.volume) (traded res price d.volume time) (erase d.order_id index)
        cs v r c ds,
  )

module _ (side : Bool) (price time : ℤ) where
  pub sweep-stop :
      (volume : ℤ) (res : OrderResult) (index : List (ℤ × Ptr)) (best : ℤ) (cs : List Cell)
      (rest : Side)
      → (crosses side price best && ltb_ℤ (pos 0) volume) ≡ false
      → sweep side price time volume res index ((best, cs) ∷ rest)
        ≡ record { levels = (best, cs) ∷ rest; index = index; exit = left volume res }
  unfolding sweep
  sweep-stop volume res index best cs rest e = rw e

  pub sweep-level :
      (volume : ℤ) (res : OrderResult) (index : List (ℤ × Ptr)) (best : ℤ) (cs : List Cell)
      (rest : Side)
      → (crosses side price best && ltb_ℤ (pos 0) volume) ≡ true
      → sweep side price time volume res index ((best, cs) ∷ rest)
        ≡ after_level best rest
            (λ v r i. sweep side price time v r i rest)
            (take_queue best time volume res index cs)
  unfolding sweep
  sweep-level volume res index best cs rest e = rw e

and-left : (a b : Bool) → (a && b) ≡ true → a ≡ true
and-left a b h = ground arith

-- Every order of a queue has shares left.
abbrev pub Positive : List Cell → Type 0
Positive cs = All (λ c. pos 0 <ℤ c.volume) cs

module _ {ℓ} (Going : ℤ → OrderResult → Type ℓ) (Ended : OrderResult → Type ℓ) where
  abbrev pub Holds : Exit → Type ℓ
  Holds (returned r) = Ended r
  Holds (left v r) = Going v r

  -- A trade at a price
  abbrev pub Trades : ℤ → ℤ → Type ℓ
  Trades time price =
      (v : ℤ) (r : OrderResult) (w : ℤ)
      → pos 0 <ℤ v
      → pos 0 <ℤ w
      → Going v r
      → (v <ℤ w → Ended (settled r price v time))
        × (w ≤ℤ v → Going (v -ℤ w) (traded r price w time))

  module _ (price time : ℤ) (trades : Trades time price) where
    pub take_queue-Holds :
        (v : ℤ) (r : OrderResult) (index : List (ℤ × Ptr)) (cs : List Cell)
        → Positive cs
        → Going v r
        → Holds (take_queue price time v r index cs).exit
    unfolding take_queue
    take_queue-Holds v r index [] all g = g
    take_queue-Holds v r index (c ∷ cs) all g = elim (Bool-cases (ltb_ℤ (pos 0) v)) [
      | inr spent ↦ rw spent g
      | inl more ↦ elim (Bool-cases (ltb_ℤ v c.volume)) [
        | inl part ↦
            rw (more, part)
              ((trades v r c.volume (ltb_ℤ→lt (pos 0) v more) all.0 g).0 (ltb_ℤ→lt v c.volume part))
        | inr whole ↦
            rw (more, whole)
              (take_queue-Holds (v -ℤ c.volume) (traded r price c.volume time)
                (erase c.order_id index) cs all.1
                ((trades v r c.volume (ltb_ℤ→lt (pos 0) v more) all.0 g).1
                  (ltb_ℤ→le v c.volume whole)))
      ]
    ]

  after_level-Holds :
      (best : ℤ) (rest : Side) (next : ℤ → OrderResult → List (ℤ × Ptr) → Swept) (t : Taken)
      → ((v : ℤ) (r : OrderResult) (i : List (ℤ × Ptr)) → Going v r → Holds (next v r i).exit)
      → Holds t.exit
      → Holds (after_level best rest next t).exit
  after_level-Holds best rest next t go h = elim (Exit-cases t.exit) [
    | inl (s, is) ↦ rw is (rw is at h)
    | inr (w, s, is) ↦ elim (queue-cases t.queue) [
      | inl empty ↦ rw (is, empty) (go w s t.index (rw is at h))
      | inr (d, ds, some_left) ↦ rw (is, some_left) (rw is at h)
    ]
  ]

  module _ (side : Bool) (price time : ℤ)
      (trades : (best : ℤ) → crosses side price best ≡ true → Trades time best) where
    pub sweep-Holds :
        (v : ℤ) (r : OrderResult) (index : List (ℤ × Ptr)) (m : Side)
        → All (λ (e : ℤ × List Cell). Positive e.1) m
        → Going v r
        → Holds (sweep side price time v r index m).exit
    unfolding sweep
    sweep-Holds v r index [] all g = g
    sweep-Holds v r index ((best, cs) ∷ rest) all g =
        elim (Bool-cases (crosses side price best && ltb_ℤ (pos 0) v)) [
          | inr stop ↦ rw stop g
          | inl go ↦ rw go (
              after_level-Holds best rest (λ w s i. sweep side price time w s i rest)
                (take_queue best time v r index cs) (λ w s i. sweep-Holds w s i rest all.1)
                (take_queue-Holds best time (trades best (and-left _ _ go)) v r index cs all.0 g))
        ]
