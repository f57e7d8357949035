-- ===== src/Orderbook/Quotes.antt =====
-- What `match` does depends on the prices, ids and volumes of the resting orders alone.
use distributed_orderbook.Prelude.{◌≡◌, sym, ap, ◌∙◌, Bool}
use distributed_orderbook.Prelude.Int.{ℤ}
use distributed_orderbook.Orderbook.Types.{OrderResult, Orderbook}
use distributed_orderbook.Orderbook.Command.{done}
use distributed_orderbook.Orderbook.Methods.{match}
use distributed_orderbook.Orderbook.Rep.{Queues, Rep}
use distributed_orderbook.Orderbook.Match.Refine.{book_of, match_refines}
use distributed_orderbook.Book.{Book}
use distributed_orderbook.Book.Quotes.{bare_side, SameSides, place-same}

-- Two states that show the same: the same prices, with orders of the same ids and volumes in the same
-- order, at whatever addresses
abbrev pub ShowSame : Orderbook → Queues → Orderbook → Queues → Type 0
ShowSame b queues c others = SameSides (book_of b queues) (book_of c others)

SameSides-at : {x x' y y' : Book} → x' ≡ x → y' ≡ y → SameSides x y → SameSides x' y'
SameSides-at p q h = record {
  asks =
      ap (λ (z : Book). bare_side z.asks) p ∙ h.asks ∙ sym (ap (λ (z : Book). bare_side z.asks) q);
  bids =
      ap (λ (z : Book). bare_side z.bids) p ∙ h.bids ∙ sym (ap (λ (z : Book). bare_side z.bids) q);
}

-- On two well-formed books that show the same prices, with orders of the same ids and volumes in the
-- same order, `match` ends with the same result, and leaves two well-formed books that again show the
-- same. So neither the addresses of the orders and levels, nor what `global_map` has, matter to it.
pub match-ShowSame :
    (price volume : ℤ) (side : Bool) (time order_id : ℤ) (b c : Orderbook) (queues others : Queues)
    → Rep b queues
    → Rep c others
    → ShowSame b queues c others
    → (res : OrderResult) × (b' : Orderbook) × (c' : Orderbook) × (queues' : Queues)
      × (others' : Queues) × (match price volume side time order_id b ≡ done res b')
      × (match price volume side time order_id c ≡ done res c')
      × Rep b' queues'
      × Rep c' others'
      × ShowSame b' queues' c' others'
match-ShowSame price volume side time order_id b c queues others rep rep_c same =
    let (b', queues', ran, rep', is) = match_refines price volume side time order_id b queues rep in
    let (c', others', ran_c, rep_c', is_c) =
      match_refines price volume side time order_id c others rep_c in
    let answer =
      place-same b.unused c.unused price volume side time order_id (book_of b queues)
        (book_of c others) same in
    (
      _,
      b',
      c',
      queues',
      others',
      ran,
      ran_c ∙ ap (λ r. done r c') (sym answer.result),
      rep',
      rep_c',
      SameSides-at is is_c answer.sides,
    )
