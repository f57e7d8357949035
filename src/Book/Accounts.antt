-- ===== src/Book/Accounts.antt =====
-- What the trades of an incoming order add up to.
use distributed_orderbook.Prelude.{
  ◌≡◌, refl, sym, ap, ◌∙◌, Bool, true, false, not, List, [], ◌∷◌, ◌++◌, inl, inr, Bool-cases, All,
}
use distributed_orderbook.Prelude.Int.{
  ℤ, pos, ◌+ℤ◌, ◌-ℤ◌, ◌<ℤ◌, ◌≤ℤ◌, ltb_ℤ, leb_ℤ→le, int_laws, +ℤ_assoc, +ℤ-zero,
}
use distributed_orderbook.Orderbook.Types.{Ptr, Fill, OrderResult}
use distributed_orderbook.Orderbook.Methods.{Exit, returned, left, crosses, fill}
use distributed_orderbook.Orderbook.Rep.{Cell}
use distributed_orderbook.Book.Loops.{Holds, Trades, Positive, sweep-Holds}
use distributed_orderbook.Book.{Book, side_of, arrived, settle, place}

-- The shares that a list of fills trades
abbrev pub traded_volume : List Fill → ℤ
traded_volume [] = pos 0
traded_volume (f ∷ fs) = f.volume +ℤ traded_volume fs

traded_volume-last :
    (fs : List Fill) (f : Fill) → traded_volume (fs ++ f ∷ []) ≡ traded_volume fs +ℤ f.volume
traded_volume-last [] f = omega int_laws
traded_volume-last (g ∷ fs) f =
    ap (λ v. g.volume +ℤ v) (traded_volume-last fs f)
    ∙ sym (+ℤ_assoc g.volume (traded_volume fs) f.volume)

shuffle : (a w v : ℤ) → a +ℤ w +ℤ (v -ℤ w) ≡ a +ℤ v
shuffle a w v = omega int_laws

-- Does an order of a side accept a price? A sell order wants its own or more, a buy order its own or
-- less.
abbrev pub Accepts : Bool → ℤ → ℤ → Type 0
Accepts true price p = price ≤ℤ p
Accepts false price p = p ≤ℤ price

crosses-Accepts : (side : Bool) (price p : ℤ) → crosses side price p ≡ true → Accepts side price p
unfolding crosses
crosses-Accepts true price p h = leb_ℤ→le price p h
crosses-Accepts false price p h = leb_ℤ→le p price h

-- A fill at a price that the incoming order accepts
pub record Fair (side : Bool) (price time : ℤ) (f : Fill) : Type 0 where
  pub accepted : Accepts side price f.price
  pub positive : pos 0 <ℤ f.volume
  pub stamped : f.timestamp ≡ time

-- The result of an order for `volume` shares: its trades and the shares that are left make up the
-- order, `fulfilled` says whether none are left, and every fill is fair.
pub record Correct (side : Bool) (price time volume order_id : ℤ) (r : OrderResult) : Type 0 where
  pub id : r.order_id ≡ order_id
  pub sum : traded_volume r.trades +ℤ r.remaining_qty ≡ volume
  pub spent : r.fulfilled ≡ not (ltb_ℤ (pos 0) r.remaining_qty)
  pub fair : All (Fair side price time) r.trades

-- The result between two trades, when `v` shares are left
record Going (side : Bool) (price time volume order_id v : ℤ) (r : OrderResult) : Type 0 where
  pub id : r.order_id ≡ order_id
  pub sum : traded_volume r.trades +ℤ v ≡ volume
  pub remaining : r.remaining_qty ≡ v
  pub still : r.fulfilled ≡ false
  pub fair : All (Fair side price time) r.trades

All-last {ℓ κ} :
    {A : Type ℓ} (P : A → Type κ) (xs : List A) (x : A) → All P xs → P x → All P (xs ++ x ∷ [])
All-last P [] x h p = (p, tt)
All-last P (y ∷ xs) x h p = (h.0, All-last P xs x h.1 p)

module _ (side : Bool) (price time volume order_id : ℤ) where
  trade :
      (best : ℤ)
      → crosses side price best ≡ true
      → Trades
          (Going side price time volume order_id)
          (Correct side price time volume order_id)
          time
          best
  trade best accepted v r w more positive g = (
    λ part. record {
      id = g.id;
      sum = +ℤ-zero _ ∙ traded_volume-last r.trades (fill best v time) ∙ g.sum;
      spent = refl;
      fair = All-last _ r.trades (fill best v time) g.fair (record {
        accepted = crosses-Accepts side price best accepted;
        positive = more;
        stamped = refl;
      });
    },
    λ whole. record {
      id = g.id;
      sum =
          ap (λ t. t +ℤ (v -ℤ w)) (traded_volume-last r.trades (fill best w time))
          ∙ shuffle (traded_volume r.trades) w v
          ∙ g.sum;
      remaining = ap (λ t. t -ℤ w) g.remaining;
      still = g.still;
      fair = All-last _ r.trades (fill best w time) g.fair (record {
        accepted = crosses-Accepts side price best accepted;
        positive = positive;
        stamped = refl;
      });
    },
  )

  start : Going side price time volume order_id volume (arrived order_id volume)
  start = record { id = refl; sum = omega int_laws; remaining = refl; still = refl; fair = tt }

  settle-Correct :
      (addr : Ptr) (book : Book) (e : Exit)
      → Holds (Going side price time volume order_id) (Correct side price time volume order_id) e
      → Correct side price time volume order_id (settle addr price side order_id book e).0
  settle-Correct addr book (returned r) h = h
  settle-Correct addr book (left v r) h = elim (Bool-cases (ltb_ℤ (pos 0) v)) [
    | inl more ↦ rw more (record {
      id = h.id;
      sum = ap (λ t. traded_volume r.trades +ℤ t) h.remaining ∙ h.sum;
      spent = h.still ∙ sym (ap (λ t. not (ltb_ℤ (pos 0) t)) h.remaining ∙ ap not more);
      fair = h.fair;
    })
    | inr none_left ↦ rw none_left (record {
      id = h.id;
      sum = ap (λ t. traded_volume r.trades +ℤ t) h.remaining ∙ h.sum;
      spent = sym (ap (λ t. not (ltb_ℤ (pos 0) t)) h.remaining ∙ ap not none_left);
      fair = h.fair;
    })
  ]

  -- On a book whose resting orders all have shares left, the trades of an incoming order and the
  -- shares that it has left make up its volume, `fulfilled` says whether it has none left, and each
  -- fill trades at least a share, at a price that the order accepts and at the order's time.
  pub place-Correct :
      (addr : Ptr) (book : Book)
      → All (λ (e : ℤ × List Cell). Positive e.1) (side_of (not side) book)
      → Correct side price time volume order_id (place addr price volume side time order_id book).0
  unfolding place
  place-Correct addr book positive = settle-Correct addr _ _ (
      sweep-Holds _ _ side price time trade volume (arrived order_id volume) book.index
        (side_of (not side) book) positive start)
