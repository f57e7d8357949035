-- ===== src/Book/Bounds.antt =====
-- How many orders a side has, and how large they are.
pub mod Methods
use mathlib.Core.Path.{subst}
use mathlib.Core.Option.{some-injective}
use distributed_orderbook.Prelude.{
  ℕ, ◌+◌, ◌≤◌, ◌≡◌, refl, sym, ap, ◌∙◌, Bool, true, false, not, ◌&&◌, Option, none, some, List, [],
  ◌∷◌, ◌++◌, ◌==◌, length, length-append, arith, inl, inr, Bool-cases, Option-cases, All,
  All-append_one,
}
use distributed_orderbook.Prelude.Int.{
  ℤ, pos, ◌-ℤ◌, ◌<ℤ◌, ◌≤ℤ◌, ltb_ℤ, leb_ℤ, eqb_ℤ, int_laws, ltb_ℤ→lt, leb_ℤ→lt,
}
use distributed_orderbook.Prelude.Maps.{find, erase}
use distributed_orderbook.Orderbook.Types.{Ptr, OrderResult}
use distributed_orderbook.Orderbook.Methods.{Exit, returned, left, crosses, before}
use distributed_orderbook.Orderbook.Rep.{Cell}
use distributed_orderbook.Orderbook.Rep.Locate.{remove, set_volume}
use distributed_orderbook.Book.Loops.{Exit-cases, queue-cases, Holds, Trades, sweep-Holds}
use distributed_orderbook.Book.Crossing.{All-map}
use distributed_orderbook.Book.{
  Side, Book, Taken, Swept, settled, traded, take_queue, put_level, after_level, sweep, enter,
  side_of, swept_book, rested_book, arrived, settle, place,
}
use distributed_orderbook.Book.Changes.{
  change, change_book, volume_in, volume_on, volume_of, or_else, withdraw, reduce,
}

abbrev pub orders : Side → ℕ
orders [] = 0
orders ((_, cs) ∷ m) = length cs + orders m

module _ (V : ℕ) where
  abbrev pub Small : List Cell → Type 0
  Small = All (λ (c : Cell). (pos 0 <ℤ c.volume) × (c.volume ≤ℤ pos V))

  -- At most `n` orders, each with shares left and at most `V` of them
  pub record Within (n : ℕ) (m : Side) : Type 0 where
    pub number : orders m ≤ n
    pub sizes : All (λ (e : ℤ × List Cell). Small e.1) m

  put_level-Within :
      (price : ℤ) (cs : List Cell) (rest : Side) (n : ℕ)
      → Small cs
      → Within n rest
      → Within (length cs + n) (put_level price cs rest)
  put_level-Within price [] rest n s w = record {
    number = omega (arith, w.number);
    sizes = w.sizes;
  }
  put_level-Within price (c ∷ cs) rest n s w = record {
    number = omega (arith, w.number);
    sizes = (s, w.sizes);
  }

  more : {n n' : ℕ} {m : Side} → n ≤ n' → Within n m → Within n' m
  more h w = record { number = omega (arith, w.number); sizes = w.sizes }

  -- What a trade leaves of a queue
  pub record Left (cs ds : List Cell) : Type 0 where
    fewer : length ds ≤ length cs
    small : Small ds

  take_queue-Left :
      (price time volume : ℤ) (res : OrderResult) (index : List (ℤ × Ptr)) (cs : List Cell)
      → Small cs
      → Left cs (take_queue price time volume res index cs).queue
  unfolding take_queue
  take_queue-Left price time volume res index [] s = record { fewer = omega arith; small = tt }
  take_queue-Left price time volume res index (c ∷ cs) s =
      elim (Bool-cases (ltb_ℤ (pos 0) volume)) [
        | inr spent ↦ rw spent (record { fewer = omega arith; small = s })
        | inl go ↦ elim (Bool-cases (ltb_ℤ volume c.volume)) [
          | inl part ↦
              rw (go, part)
                (record {
                  fewer = omega arith;
                  small = (
                    (
                      smaller_pos volume c.volume (ltb_ℤ→lt volume c.volume part),
                      smaller_le volume c.volume (ltb_ℤ→lt (pos 0) volume go) s.0.1,
                    ),
                    s.1,
                  );
                })
          | inr whole ↦
              let rest =
                take_queue-Left price time (volume -ℤ c.volume) (traded res price c.volume time)
                  (erase c.order_id index) cs s.1 in
              rw (go, whole) (record { fewer = omega (arith, rest.fewer); small = rest.small })
        ]
      ]
    where
      smaller_pos : (v w : ℤ) → v <ℤ w → pos 0 <ℤ w -ℤ v
      smaller_pos v w h = omega int_laws

      smaller_le : (v w : ℤ) → pos 0 <ℤ v → w ≤ℤ pos V → w -ℤ v ≤ℤ pos V
      smaller_le v w h g = omega int_laws

  after_level-Within :
      (best : ℤ) (cs : List Cell) (rest : Side) (next : ℤ → OrderResult → List (ℤ × Ptr) → Swept)
      (t : Taken) (n : ℕ)
      → Left cs t.queue
      → Within n rest
      → ((v : ℤ) (r : OrderResult) (i : List (ℤ × Ptr)) → Within n (next v r i).levels)
      → Within (length cs + n) (after_level best rest next t).levels
  after_level-Within best cs rest next t n l w go = elim (Exit-cases t.exit) [
    | inl (s, is) ↦
        rw is (more (omega (arith, l.fewer)) (put_level-Within best t.queue rest n l.small w))
    | inr (v, s, is) ↦ elim (queue-cases t.queue) [
      | inl empty ↦ rw (is, empty) (more (omega arith) (go v s t.index))
      | inr (d, ds, some_left) ↦
          rw (is, some_left)
            (let l' = subst (Left cs) some_left l in
              more (omega (arith, l'.fewer)) (put_level-Within best (d ∷ ds) rest n l'.small w))
    ]
  ]

  pub sweep-Within :
      (side : Bool) (price time volume : ℤ) (res : OrderResult) (index : List (ℤ × Ptr)) (m : Side)
      → All (λ (e : ℤ × List Cell). Small e.1) m
      → Within (orders m) (sweep side price time volume res index m).levels
  unfolding sweep
  sweep-Within side price time volume res index [] s = record { number = omega arith; sizes = tt }
  sweep-Within side price time volume res index ((best, cs) ∷ rest) s =
      elim (Bool-cases (crosses side price best && ltb_ℤ (pos 0) volume)) [
        | inr stop ↦ rw stop (record { number = omega arith; sizes = s })
        | inl go ↦ rw go (
            after_level-Within best cs rest (λ v r i. sweep side price time v r i rest)
              (take_queue best time volume res index cs) (orders rest)
              (take_queue-Left best time volume res index cs s.0)
              (record { number = omega arith; sizes = s.1 })
              (λ v r i. sweep-Within side price time v r i rest s.1))
      ]

  pub enter-Within :
      (lt : ℤ → ℤ → Bool) (price : ℤ) (c : Cell) (m : Side)
      → (pos 0 <ℤ c.volume) × (c.volume ≤ℤ pos V)
      → All (λ (e : ℤ × List Cell). Small e.1) m
      → Within (orders m + 1) (enter lt price c m)
  unfolding enter
  enter-Within lt price c [] h s = record { number = omega arith; sizes = ((h, tt), tt) }
  enter-Within lt price c ((q, cs) ∷ rest) h s = elim (Bool-cases (eqb_ℤ q price)) [
    | inl same ↦ rw same (record {
      number = omega (arith, length-append cs (c ∷ []));
      sizes = (All-append_one _ cs c s.0 h, s.1);
    })
    | inr other ↦ elim (Bool-cases (lt price q)) [
      | inl first ↦ rw (other, first) (record { number = omega arith; sizes = ((h, tt), s) })
      | inr later ↦
          let w = enter-Within lt price c rest h s.1 in
          rw (other, later) (record { number = omega (arith, w.number); sizes = (s.0, w.sizes) })
    ]
  ]

  -- a change of queues that leaves no more and no larger orders
  pub change-Within :
      (f : List Cell → List Cell) (m : Side)
      → ((cs : List Cell) → Small cs → Left cs (f cs))
      → All (λ (e : ℤ × List Cell). Small e.1) m
      → Within (orders m) (change f m)
  change-Within f [] keeps s = record { number = omega arith; sizes = tt }
  change-Within f ((q, cs) ∷ rest) keeps s = more (omega (arith, (keeps cs s.0).fewer)) (
      put_level-Within q (f cs) (change f rest) (orders rest) (keeps cs s.0).small
        (change-Within f rest keeps s.1))

  pub remove-Left : (p : Ptr) (cs : List Cell) → Small cs → Left cs (remove p cs)
  unfolding remove
  remove-Left p [] s = record { fewer = omega arith; small = tt }
  remove-Left p (c ∷ cs) s = elim (Bool-cases (p == c.addr)) [
    | inl e ↦ rw e (record { fewer = omega arith; small = s.1 })
    | inr e ↦
        let w = remove-Left p cs s.1 in
        rw e (record { fewer = omega (arith, w.fewer); small = (s.0, w.small) })
  ]

  pub set_volume-Left :
      (p : Ptr) (v : ℤ) (cs : List Cell)
      → pos 0 <ℤ v
      → v ≤ℤ pos V
      → Small cs
      → Left cs (set_volume p v cs)
  unfolding set_volume
  set_volume-Left p v [] low high s = record { fewer = omega arith; small = tt }
  set_volume-Left p v (c ∷ cs) low high s = elim (Bool-cases (p == c.addr)) [
    | inl e ↦ rw e (record { fewer = omega arith; small = ((low, high), s.1) })
    | inr e ↦
        let w = set_volume-Left p v cs low high s.1 in
        rw e (record { fewer = omega (arith, w.fewer); small = (s.0, w.small) })
  ]

  volume_in-small :
      (p : Ptr) (v : ℤ) (cs : List Cell) → Small cs → volume_in p cs ≡ some v → v ≤ℤ pos V
  volume_in-small p v [] s e = cc
  volume_in-small p v (c ∷ cs) s e = elim (Bool-cases (p == c.addr)) [
    | inl h ↦ subst (λ w. w ≤ℤ pos V) (some-injective _ _ (rw h at e)) s.0.1
    | inr h ↦ volume_in-small p v cs s.1 (rw h at e)
  ]

  pub or_else-small :
      (v : ℤ) (o o' : Option ℤ)
      → (o ≡ some v → v ≤ℤ pos V)
      → (o' ≡ some v → v ≤ℤ pos V)
      → or_else o o' ≡ some v
      → v ≤ℤ pos V
  or_else-small v none o' h g e = g e
  or_else-small v (some w) o' h g e = h e

  pub volume_on-small :
      (p : Ptr) (v : ℤ) (m : Side)
      → All (λ (e : ℤ × List Cell). Small e.1) m
      → volume_on p m ≡ some v
      → v ≤ℤ pos V
  volume_on-small p v [] s e = cc
  volume_on-small p v ((q, cs) ∷ rest) s e =
      or_else-small v (volume_in p cs) (volume_on p rest) (volume_in-small p v cs s.0)
        (volume_on-small p v rest s.1) e
