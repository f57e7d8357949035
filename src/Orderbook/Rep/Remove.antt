-- ===== src/Orderbook/Rep/Remove.antt =====
-- The book when an order has left its queue: `cancel`, and a fill that takes an order whole.
use mathlib.Core.Option.{some-injective}
use mathlib.Core.Path.{subst}
use distributed_orderbook.Prelude.{
  ◌<◌, ◌≤◌, ==-refl, if_true, if_false, ◌≡◌, ◌≢◌, refl, sym, ap, ◌∙◌, Bool, false, Option, none,
  some, List, [], ◌∷◌, ◌++◌, arith, ◌==◌, inl, inr, Bool-cases, ==→eq,
}
use distributed_orderbook.Prelude.Int.{ℤ, eqb_ℤ, eqb_ℤ-cases}
use distributed_orderbook.Prelude.Maps.{find, erase, find-erase}
use distributed_orderbook.Orderbook.Types.{Ptr, null, Order, Orderbook}
use distributed_orderbook.Orderbook.Command.{levels}
use distributed_orderbook.Orderbook.Rep.{
  Cell, first, last, has, id_at, node, Segment, Level, Queues, put_queue, Rep, same_level, Ordered,
  Resting,
}
use distributed_orderbook.Orderbook.Methods.{before}
use distributed_orderbook.Orderbook.Rep.Segments.{Segment-node, Segment-back, Segment-front}
use distributed_orderbook.Orderbook.Rep.Frame.{
  Spares, Rep-Level, Rep-apart, same_level_refl, other_addr,
}
use distributed_orderbook.Orderbook.Rep.Locate.{remove, remove-split, Place}
use distributed_orderbook.Orderbook.Rep.Index.{Resting-put, id_at-remove}
use distributed_orderbook.Orderbook.Rep.Unlink.{
  unused-out, unlinked, unlinked-other, unlinked-unused,
}

module _ (h : Ptr → Option Order) (side : Bool) (price : ℤ) (l : Ptr) where
  -- The order at an address of a queue has the id that the queue gives.
  Segment-id :
      (prev after : Ptr) (cs : List Cell) (a : Ptr) (order_id : ℤ)
      → Segment h side price l prev after cs
      → id_at a cs ≡ some order_id
      → (o : Order) × (h a ≡ some o) × (o.order_id ≡ order_id)
  Segment-id prev after [] a order_id s e = cc
  Segment-id prev after (c ∷ cs) a order_id s e = elim (Bool-cases (a == c.addr)) [
    | inl here ↦ (
      node side price l prev c (first after cs),
      rw (==→eq a c.addr here) s.3,
      some-injective _ _ (rw here at e),
    )
    | inr past ↦ Segment-id c.addr after cs a order_id s.4 (rw past at e)
  ]

  -- An order of another level is not in the queue.
  other-out :
      (prev after : Ptr) (cs : List Cell) (a : Ptr) (o : Order)
      → Segment h side price l prev after cs
      → h a ≡ some o
      → same_level side price o.side o.price ≡ false
      → has a cs ≡ false
  other-out prev after cs a o s held apart = elim (Bool-cases (has a cs)) [
    | inl i ↦
        let (o', held', s', p', _) = Segment-node h side price l prev after cs a s i in
        absurd (
          other_addr h side price a a o o' held held' apart
            (rw (s', p') (same_level_refl side price)) refl)
    | inr e ↦ e
  ]

id_at-split :
    (p : Ptr) (xs : List Cell) (c : Cell) (ys : List Cell)
    → c.addr ≡ p
    → has p xs ≡ false
    → id_at p (xs ++ c ∷ ys) ≡ some c.order_id
id_at-split p [] c ys here out = rw (here, ==-refl p)
id_at-split p (x ∷ xs) c ys here out = ground (arith, id_at-split p xs c ys here)

module _ {b : Orderbook} {queues : Queues} (rep : Rep b queues) where
  Level-id :
      (side : Bool) (price : ℤ) (entry : Option Ptr) (cs : List Cell) (a : Ptr) (order_id : ℤ)
      → Level b side price entry cs
      → id_at a cs ≡ some order_id
      → (o : Order) × (b.orders a ≡ some o) × (o.order_id ≡ order_id)
  Level-id side price none cs a order_id v e = cc (sym e ∙ ap (id_at a) v)
  Level-id side price (some l) cs a order_id v e =
      Segment-id b.orders side price l null null cs a order_id v.3 e

  pub Level-out :
      (side : Bool) (price : ℤ) (entry : Option Ptr) (cs : List Cell) (a : Ptr) (o : Order)
      → Level b side price entry cs
      → b.orders a ≡ some o
      → same_level side price o.side o.price ≡ false
      → has a cs ≡ false
  Level-out side price none cs a o v held apart = ap (has a) v
  Level-out side price (some l) cs a o v held apart =
      other-out b.orders side price l null null cs a o v.3 held apart

  pub Level-unused :
      (side : Bool) (price : ℤ) (entry : Option Ptr) (cs : List Cell) (a : Ptr)
      → Level b side price entry cs
      → b.orders a ≡ none
      → has a cs ≡ false
  Level-unused side price none cs a v e = ap (has a) v
  Level-unused side price (some l) cs a v e = unused-out b.orders side price l null null cs a v.3 e

  -- A resting order has one id.
  pub Resting-id : (a : Ptr) (i j : ℤ) → Resting queues i a → Resting queues j a → i ≡ j
  Resting-id a i j (side, price, e) (side', price', e') =
      let (o, held, known) = Level-id side price _ _ a i (rep.level side price) e in
      let (o', held', known') = Level-id side' price' _ _ a j (rep.level side' price') e' in
      sym known ∙ ap (λ (x : Order). x.order_id) (some-injective _ _ (sym held ∙ held')) ∙ known'

-- What a method leaves of a book when it has taken out the order at a place
pub record Removes {b : Orderbook} {queues : Queues} {order_id : ℤ} {p : Ptr}
    (place : Place b queues order_id p) (b' : Orderbook) : Type 0 where
  pub orders : b'.orders ≡ unlinked b.orders place.spot.older place.spot.cell place.spot.younger
  pub limits : (a : Ptr) → a ≢ place.l → b'.limits a ≡ b.limits a
  pub entries :
      (side' : Bool) (price' : ℤ)
      → same_level place.side place.price side' price' ≡ false
      → find price' (levels side' b') ≡ find price' (levels side' b)
  pub own :
      Level b' place.side place.price
        (find place.price (levels place.side b'))
        (place.spot.older ++ place.spot.younger)
  pub ordered : (side' : Bool) → Ordered (before side') (levels side' b')
  pub index : b'.global_map ≡ erase order_id b.global_map
  pub unused : b'.unused ≡ b.unused

module _ {b : Orderbook} {queues : Queues} (rep : Rep b queues) {order_id : ℤ} {p : Ptr}
    (place : Place b queues order_id p) {b' : Orderbook} (done : Removes place b') where
  open place use {side, price, l, spot, entry, limit, list}
  open spot use {older, cell, younger, split, here, passed, known}

  back : Segment b.orders side price l (last null older) null (cell ∷ younger)
  back = Segment-back b.orders side price l null null older (cell ∷ younger) list

  front : Segment b.orders side price l null cell.addr older
  front = Segment-front b.orders side price l null null older (cell ∷ younger) list

  Removes-Spares : Spares b b' side price l
  Removes-Spares = record {
    entries = done.entries;
    orders = λ a o held apart.
        ap (λ f. f a) done.orders
        ∙ unlinked-other b.orders side price l older cell younger list a
            (other-out b.orders side price l null cell.addr older a o front held apart)
            (other_addr b.orders side price a cell.addr o _ held back.3 apart
              (same_level_refl side price))
            (other-out b.orders side price l cell.addr null younger a o back.4 held apart)
        ∙ held;
    limits = done.limits;
  }

  index-Resting :
      (i : ℤ) (a : Ptr)
      → find i b'.global_map ≡ some a
      → Resting (put_queue queues side price (remove p (queues side price))) i a
  index-Resting i a e = elim (eqb_ℤ-cases order_id i) [
    | inl (same, _) ↦ cc (
        sym (
          ap (find i) done.index
          ∙ find-erase order_id i b.global_map
          ∙ if_true (eqb_ℤ order_id i) none (find i b.global_map) same)
        ∙ e)
    | inr (other, ne) ↦
        let kept = rep.indexed i a (
          sym (
            ap (find i) done.index
            ∙ find-erase order_id i b.global_map
            ∙ if_false (eqb_ℤ order_id i) none (find i b.global_map) other)
          ∙ e) in
        Resting-put queues side price _ i a
          (λ h.
            id_at-remove p a (queues side price)
              (λ q. ne (Resting-id rep p order_id i taken (rw q at kept)))
            ∙ h)
          kept
  ]
    where
      taken : Resting queues order_id p
      taken = (
        side,
        price,
        ap (id_at p) split ∙ id_at-split p older cell younger here passed ∙ ap some known,
      )

  pub Removes-Rep : Rep b' (put_queue queues side price (remove p (queues side price)))
  Removes-Rep = record {
    level =
        Rep-Level rep b' side price l _ Removes-Spares (λ s q. Rep-apart rep l side price s q entry)
          (subst (Level b' side price (find price (levels side b')))
            (sym (ap (remove p) split ∙ remove-split p cell younger here older passed)) done.own);
    ordered = done.ordered;
    indexed = index-Resting;
    fresh = λ a u.
        let u' = subst (λ n. n ≤ a) done.unused u in
        (
          ap (λ f. f a) done.orders
              ∙ unlinked-unused b.orders side price l older cell younger list a (rep.fresh a u').0,
          done.limits a (λ q. cc (sym limit ∙ ap b.limits (sym q) ∙ (rep.fresh a u').1))
              ∙ (rep.fresh a u').1,
        );
    nonnull = subst (λ n. 0 < n) (sym done.unused) rep.nonnull;
  }
