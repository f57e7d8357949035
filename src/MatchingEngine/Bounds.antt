-- ===== src/MatchingEngine/Bounds.antt =====
-- How large the counts and the totals of the order book's levels become.
use mathlib.Core.Path.{subst}
use native.Mathlib.Nat.{suc-mul, mul-le-mul_right}
use distributed_orderbook.Prelude.{
  ℕ, ◌+◌, ◌*◌, ◌≤◌, ◌≡◌, sym, ◌∙◌, Bool, true, false, inl, inr, some, List, [], ◌∷◌, length, All,
  arith, Bool-cases,
}
use distributed_orderbook.Prelude.Int.{ℤ, pos, ◌≤ℤ◌, eqb_ℤ, eqb_ℤ→eq, int_laws}
use distributed_orderbook.Prelude.Maps.{find}
use distributed_orderbook.Orderbook.Types.{Ptr, Limit, Orderbook, empty_book}
use distributed_orderbook.Orderbook.Command.{done, levels}
use distributed_orderbook.Orderbook.Command.Sequence.{same_state}
use distributed_orderbook.Orderbook.Rep.{Cell, total, limit_of, Queues, Rep}
use distributed_orderbook.Orderbook.Rep.Frame.{Rep-entry}
use distributed_orderbook.Orderbook.Reachable.{empty-Rep}
use distributed_orderbook.Orderbook.Match.Levels.{view}
use distributed_orderbook.Orderbook.Match.Refine.{book_of}
use distributed_orderbook.Book.{Book}
use distributed_orderbook.Book.Bounds.{Small, orders}
use distributed_orderbook.Book.Bounds.Methods.{
  Bounded, grow, place-Bounded, withdraw-Bounded, reduce-Bounded,
}
use distributed_orderbook.MatchingEngine.{Outcome}
use distributed_orderbook.MatchingEngine.Requests.{Request, new_order, cancel_order, modify_order}
use distributed_orderbook.MatchingEngine.Contract.{
  answer, Answers, no_request, then_answer, serve_each, serve_each-Answers,
}

-- A request that places no more than `V` shares
abbrev pub AtMost : ℕ → Request → Type 0
AtMost V (new_order price volume side time order_id gateway_id) = volume ≤ℤ pos V
AtMost V (cancel_order order_id) = Unit
AtMost V (modify_order order_id new_size) = Unit

module _ (V : ℕ) where
  answer-Bounded :
      (addr : Ptr) (r : Request) (n : ℕ) (book : Book)
      → AtMost V r
      → Bounded V n book
      → Bounded V (n + 1) (answer addr r book).1
  unfolding answer
  answer-Bounded addr (new_order price volume side time order_id _) n book small b =
      place-Bounded V addr price volume side time order_id n book small b
  answer-Bounded addr (cancel_order order_id) n book small b =
      grow V (omega arith) (withdraw-Bounded V order_id n book b)
  answer-Bounded addr (modify_order order_id new_size) n book small b =
      grow V (omega arith) (reduce-Bounded V order_id new_size n book b)

  Answers-Bounded :
      {rs : List Request} {book book' : Book} {outcomes : List Outcome} (n : ℕ)
      → All (AtMost V) rs
      → Answers rs book outcomes book'
      → Bounded V n book
      → Bounded V (n + length rs) book'
  Answers-Bounded n small no_request b = grow V (omega arith) b
  Answers-Bounded n small (then_answer {r} {book = book} addr _ _ rest) b =
      grow V (omega arith)
        (Answers-Bounded (n + 1) small.1 rest (answer-Bounded addr r n book small.0 b))

  total-small : (cs : List Cell) → Small V cs → total cs ≤ℤ pos (length cs * V)
  total-small [] s = omega arith
  total-small (c ∷ cs) s = omega (int_laws, s.0.1, total-small cs s.1, suc-mul (length cs) V)

  total-nonnegative : (cs : List Cell) → Small V cs → pos 0 ≤ℤ total cs
  total-nonnegative [] s = omega arith
  total-nonnegative (c ∷ cs) s = omega (int_laws, s.0.0, total-nonnegative cs s.1)

  queue-orders :
      (queue : ℤ → List Cell) (price : ℤ) (l : Ptr) (m : List (ℤ × Ptr))
      → find price m ≡ some l
      → All (λ (e : ℤ × List Cell). Small V e.1) (view queue m)
      → (length (queue price) ≤ orders (view queue m)) × Small V (queue price)
  unfolding find
  queue-orders queue price l [] known s = cc
  queue-orders queue price l ((q, k) ∷ m) known s = elim (Bool-cases (eqb_ℤ q price)) [
    | inl e ↦
        let same = eqb_ℤ→eq q price e in
        (
          subst (λ x. length (queue x) ≤ length (queue q) + orders (view queue m)) same
              (omega arith),
          subst (λ x. Small V (queue x)) same s.0,
        )
    | inr e ↦
        let (fewer, small) = queue-orders queue price l m (rw e at known) s.1 in
        (omega arith, small)
  ]

  side-orders :
      (side : Bool) (n : ℕ) (b : Orderbook) (queues : Queues) (price : ℤ) (l : Ptr)
      → Bounded V n (book_of b queues)
      → find price (levels side b) ≡ some l
      → (length (queues side price) ≤ n) × Small V (queues side price)
  side-orders true n b queues price l bounded known =
      let (fewer, small) = queue-orders (queues true) price l b.asks known bounded.asks in
      (omega (arith, bounded.number), small)
  side-orders false n b queues price l bounded known =
      let (fewer, small) = queue-orders (queues false) price l b.bids known bounded.bids in
      (omega (arith, bounded.number), small)

  -- What the limit of a level says after `n` requests
  pub record IsBounded (n : ℕ) (h : Limit) : Type 0 where
    pub count : h.count ≤ℤ pos n
    pub nonnegative : pos 0 ≤ℤ h.total_volume
    pub total_volume : h.total_volume ≤ℤ pos (n * V)

  limit_of-IsBounded :
      (n : ℕ) (cs : List Cell) → length cs ≤ n → Small V cs → IsBounded n (limit_of cs)
  limit_of-IsBounded n cs fewer small = record {
    count = omega arith;
    nonnegative = total-nonnegative cs small;
    total_volume = omega (arith, total-small cs small, mul-le-mul_right V fewer);
  }

  -- After any list of requests from an empty book, none of which places more than `V` shares, the count
  -- of a level is at most the number of requests, and its total volume is not negative and at most `V`
  -- times that number. So both fit into 64 bits if that product does.
  pub serve_each-IsBounded :
      (rs : List Request)
      → All (AtMost V) rs
      → (outcomes : List Outcome) (b : Orderbook) → serve_each rs empty_book ≡ done outcomes b
      → (side : Bool) (price : ℤ) (l : Ptr) → find price (levels side b) ≡ some l
      → (h : Limit) × (b.limits l ≡ some h) × IsBounded (length rs) h
  serve_each-IsBounded rs small outcomes b ran side price l known =
      let (outs, b', queues, each, rep, answers) =
        serve_each-Answers rs empty_book (λ _ _. []) empty-Rep in
      let same : b' ≡ b = same_state (sym each ∙ ran) in
      let bounded : Bounded V (length rs) (book_of b queues) =
        subst (λ s. Bounded V (length rs) (book_of s queues)) same
          (grow V (omega arith) (
            Answers-Bounded 0 small answers
              (record { number = omega arith; asks = tt; bids = tt }))) in
      let (fewer, sizes) = side-orders side (length rs) b queues price l bounded known in
      (
        limit_of (queues side price),
        (Rep-entry (subst (λ s. Rep s queues) same rep) side price (some l) known).2,
        limit_of-IsBounded (length rs) (queues side price) fewer sizes,
      )
