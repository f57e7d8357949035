-- ===== src/Orderbook/Reachable.antt =====
-- What holds of the order book after any sequence of calls of its methods.
use mathlib.Core.Path.{subst}
use distributed_orderbook.Prelude.{
  ◌≡◌, refl, sym, ◌∙◌, Bool, true, false, not, ◌&&◌, List, [], ◌∷◌, arith, inl, inr, Bool-cases,
  All,
}
use distributed_orderbook.Prelude.Int.{ℤ, ◌<ℤ◌}
use distributed_orderbook.Prelude.Maps.{find}
use distributed_orderbook.Orderbook.Types.{Ptr, Orderbook, empty_book, OrderResult}
use distributed_orderbook.Orderbook.Command.{Run, done, levels}
use distributed_orderbook.Orderbook.Command.Sequence.{same_state}
use distributed_orderbook.Orderbook.Methods.{match, cancel, modify, before}
use distributed_orderbook.Orderbook.Rep.{Cell, Level, Ordered, Queues, Rep, same_side, is_nil}
use distributed_orderbook.Orderbook.Rep.Locate.{Place, remove}
use distributed_orderbook.Orderbook.Rep.CutOut.{All-erase}
use distributed_orderbook.Orderbook.Modify.{Modified, modify_refines}
use distributed_orderbook.Orderbook.Modify
use distributed_orderbook.Orderbook.Cancel.{Cancelled, kept_levels, cancel_refines}
use distributed_orderbook.Orderbook.Cancel
use distributed_orderbook.Orderbook.Match.Levels.{view}
use distributed_orderbook.Orderbook.Match.Refine.{book_of, match_refines}
use distributed_orderbook.Orderbook.Safety.{view-keys, book_of-Sorted}
use distributed_orderbook.Book.{place}
use distributed_orderbook.Book.Crossing.{Uncrossed, place-Uncrossed, All-map}

-- Every ask is above every bid.
abbrev pub Spread : Orderbook → Type 0
Spread b = All (λ (a : ℤ × Ptr). All (λ (c : ℤ × Ptr). c.0 <ℤ a.0) b.bids) b.asks

-- The state is well-formed, and every ask is above every bid.
abbrev pub Sound : Orderbook → Type 0
Sound b = (queues : Queues) × Rep b queues × Spread b

-- The states that calls of the methods reach from a new book
pub data Reachable : Orderbook → Type 0 where
  started : Reachable empty_book
  matched :
      {b : Orderbook} (b' : Orderbook) (price volume : ℤ) (side : Bool) (time order_id : ℤ)
      (r : OrderResult)
      → Reachable b
      → match price volume side time order_id b ≡ done r b'
      → Reachable b'
  cancelled :
      {b : Orderbook} (b' : Orderbook) (order_id : ℤ) (ok : Bool)
      → Reachable b
      → cancel order_id b ≡ done ok b'
      → Reachable b'
  modified :
      {b : Orderbook} (b' : Orderbook) (order_id new_size : ℤ) (ok : Bool)
      → Reachable b
      → modify order_id new_size b ≡ done ok b'
      → Reachable b'

keys-view :
    (P : ℤ → Type 0) (queue : ℤ → List Cell) (m : List (ℤ × Ptr))
    → All (λ (e : ℤ × List Cell). P e.0) (view queue m)
    → All (λ (e : ℤ × Ptr). P e.0) m
keys-view P queue [] h = tt
keys-view P queue ((price, _) ∷ m) h = (h.0, keys-view P queue m h.1)

Spread-Uncrossed : (b : Orderbook) (queues : Queues) → Spread b → Uncrossed (book_of b queues)
Spread-Uncrossed b queues h =
    view-keys (λ p. All (λ (c : ℤ × List Cell). c.0 <ℤ p) (view (queues false) b.bids))
      (queues true) b.asks (All-map (λ a. view-keys (λ p. p <ℤ a.0) (queues false) b.bids) b.asks h)

Uncrossed-Spread : (b : Orderbook) (queues : Queues) → Uncrossed (book_of b queues) → Spread b
Uncrossed-Spread b queues h =
    All-map (λ a. keys-view (λ p. p <ℤ a.0) (queues false) b.bids) b.asks
      (keys-view (λ p. All (λ (c : ℤ × List Cell). c.0 <ℤ p) (view (queues false) b.bids))
        (queues true) b.asks h)

module _ {b : Orderbook} (sound : Sound b) where
  pub match-Sound :
      (b' : Orderbook) (price volume : ℤ) (side : Bool) (time order_id : ℤ) (r : OrderResult)
      → match price volume side time order_id b ≡ done r b'
      → Sound b'
  match-Sound b' price volume side time order_id r e =
      let (queues, rep, spread) = sound in
      let (b'', queues'', ran, rep'', same) =
        match_refines price volume side time order_id b queues rep in
      subst Sound (same_state (sym ran ∙ e)) (
        queues'',
        rep'',
        Uncrossed-Spread b'' queues'' (
            subst Uncrossed (sym same) (
              place-Uncrossed b.unused price volume side time order_id (book_of b queues)
                (book_of-Sorted rep (not side)) (Spread-Uncrossed b queues spread))),
      )

  pub Modified-Sound :
      (order_id new_size : ℤ) (ok : Bool) (b' : Orderbook) (run : Run Bool)
      → Modified b sound.0 order_id new_size run
      → run ≡ done ok b'
      → Sound b'
  Modified-Sound order_id new_size ok b' run (Modify.unknown _) e = subst Sound (same_state e) sound
  Modified-Sound order_id new_size ok b' run (Modify.not_positive _) e =
      subst Sound (same_state e) sound
  Modified-Sound order_id new_size ok b' run (Modify.not_smaller _ _ _) e =
      subst Sound (same_state e) sound
  Modified-Sound order_id new_size ok b' run (Modify.reduced place b'' _ _ _ _ asks bids rep) e =
      subst Sound (same_state e) (
        _,
        rep,
        subst (λ m. All (λ (a : ℤ × Ptr). All (λ (c : ℤ × Ptr). c.0 <ℤ a.0) b''.bids) m) (sym asks)
            (subst (λ m. All (λ (a : ℤ × Ptr). All (λ (c : ℤ × Ptr). c.0 <ℤ a.0) m) b.asks)
              (sym bids) sound.2),
      )

  kept-All :
      {order_id : ℤ} {p : Ptr} (place : Place b sound.0 order_id p) (P : ℤ × Ptr → Type 0)
      (side : Bool)
      → All P (levels side b)
      → All P (kept_levels b place side)
  kept-All {order_id} {p} place P side h =
      elim (Bool-cases
        (is_nil (remove p (sound.0 place.side place.price)) && same_side place.side side)) [
          | inl gone ↦ rw gone (All-erase P place.price (levels side b) h)
          | inr stays ↦ rw stays h
        ]

  pub Cancelled-Sound :
      (order_id : ℤ) (ok : Bool) (b' : Orderbook) (run : Run Bool)
      → Cancelled b sound.0 order_id run
      → run ≡ done ok b'
      → Sound b'
  Cancelled-Sound order_id ok b' run (Cancel.unknown _) e = subst Sound (same_state e) sound
  Cancelled-Sound order_id ok b' run (Cancel.removed place b'' _ _ kept rep) e =
      subst Sound (same_state e) (
        _,
        rep,
        subst (λ m. All (λ (a : ℤ × Ptr). All (λ (c : ℤ × Ptr). c.0 <ℤ a.0) b''.bids) m)
            (sym (kept true))
            (kept-All place (λ a. All (λ (c : ℤ × Ptr). c.0 <ℤ a.0) b''.bids) true
              (All-map
                (λ a h.
                  subst (λ m. All (λ (c : ℤ × Ptr). c.0 <ℤ a.0) m) (sym (kept false))
                    (kept-All place (λ c. c.0 <ℤ a.0) false h))
                b.asks sound.2)),
      )

empty-Level :
    (side : Bool) (price : ℤ) → Level empty_book side price (find price (levels side empty_book)) []
unfolding find
empty-Level true price = refl
empty-Level false price = refl

empty-Ordered : (side : Bool) → Ordered (before side) (levels side empty_book)
empty-Ordered true = tt
empty-Ordered false = tt

pub empty-Rep : Rep empty_book (λ _ _. [])
unfolding find
empty-Rep = record {
  level = empty-Level;
  ordered = empty-Ordered;
  indexed = λ order_id p e. cc;
  fresh = λ a u. (refl, refl);
  nonnull = omega arith;
}

-- Every state that calls of `match`, `cancel` and `modify` reach from a new book is well-formed, and
-- in it every ask is above every bid.
pub Reachable-Sound : (b : Orderbook) → Reachable b → Sound b
Reachable-Sound b started = (λ _ _. [], empty-Rep, tt)
Reachable-Sound _ (matched b' price volume side time order_id r past e) =
    match-Sound (Reachable-Sound _ past) b' price volume side time order_id r e
Reachable-Sound _ (cancelled b' order_id ok past e) =
    let sound = Reachable-Sound _ past in
    Cancelled-Sound sound order_id ok b' _ (cancel_refines sound.1 order_id) e
Reachable-Sound _ (modified b' order_id new_size ok past e) =
    let sound = Reachable-Sound _ past in
    Modified-Sound sound order_id new_size ok b' _ (modify_refines sound.1 order_id new_size) e
