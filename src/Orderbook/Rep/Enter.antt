-- ===== src/Orderbook/Rep/Enter.antt =====
-- The book when an order has joined the end of the queue of its price.
use mathlib.Core.Option.{some-injective}
use mathlib.Core.Path.{subst}
use distributed_orderbook.Prelude.{
  ◌<◌, ◌≡◌, ◌≢◌, sym, ap, ◌∙◌, Bool, false, none, some, List, [], ◌∷◌, ◌++◌, arith, ==-refl, inl,
  inr, if◌then◌else◌, if_true, if_false,
}
use distributed_orderbook.Prelude.Int.{ℤ, eqb_ℤ, eqb_ℤ-cases}
use distributed_orderbook.Prelude.Maps.{find, assign, find-assign}
use distributed_orderbook.Orderbook.Types.{Ptr, Orderbook}
use distributed_orderbook.Orderbook.Command.{levels}
use distributed_orderbook.Orderbook.Methods.{before}
use distributed_orderbook.Orderbook.Rep.{
  Cell, has, id_at, Level, Queues, put_queue, Rep, same_level, Ordered, Resting,
}
use distributed_orderbook.Orderbook.Rep.Frame.{Spares, Rep-Level, same_level_refl}
use distributed_orderbook.Orderbook.Rep.Index.{Resting-put}
use distributed_orderbook.Orderbook.Rep.Remove.{Level-out, Level-unused}

id_at-append :
    (a : Ptr) (cs : List Cell) (c : Cell) (i : ℤ)
    → id_at a cs ≡ some i
    → id_at a (cs ++ c ∷ []) ≡ some i
id_at-append a [] c i h = cc
id_at-append a (d ∷ cs) c i h = ground (arith, id_at-append a cs c i)

id_at-last :
    (cs : List Cell) (c : Cell)
    → has c.addr cs ≡ false
    → id_at c.addr (cs ++ c ∷ []) ≡ some c.order_id
id_at-last [] c h = rw (==-refl c.addr)
id_at-last (d ∷ cs) c h = ground (arith, id_at-last cs c)

-- What a method leaves of a book when the order `c` has joined the level with limit `l`
pub record Enters (b : Orderbook) (queues : Queues) (side : Bool) (price : ℤ) (l : Ptr) (c : Cell)
    (b' : Orderbook) : Type 0 where
  pub orders : (a : Ptr) → has a (queues side price) ≡ false → a ≢ c.addr → b'.orders a ≡ b.orders a
  pub limits : (a : Ptr) → a ≢ l → b'.limits a ≡ b.limits a
  pub entries :
      (side' : Bool) (price' : ℤ)
      → find price' (levels side' b')
        ≡ (if same_level side price side' price' then some l else find price' (levels side' b))
  pub own : Level b' side price (some l) (queues side price ++ c ∷ [])
  pub ordered : (side' : Bool) → Ordered (before side') (levels side' b')
  pub index : b'.global_map ≡ assign c.order_id c.addr b.global_map
  pub new : c.addr ≡ b.unused
  pub unused : b.unused < b'.unused
  pub limit_used : l < b'.unused

module _ {b : Orderbook} {queues : Queues} (rep : Rep b queues) {side : Bool} {price : ℤ} {l : Ptr}
    {c : Cell} {b' : Orderbook} (done : Enters b queues side price l c b') where
  free : b.orders c.addr ≡ none
  free = (rep.fresh c.addr (omega (arith, done.new))).0

  new-out : has c.addr (queues side price) ≡ false
  new-out = Level-unused rep side price _ _ c.addr (rep.level side price) free

  Enters-Spares : Spares b b' side price l
  Enters-Spares = record {
    entries = λ side' price' apart. done.entries side' price' ∙ if_false _ (some l) _ apart;
    orders = λ a o held apart.
        done.orders a (Level-out rep side price _ _ a o (rep.level side price) held apart)
          (λ e. cc (sym held ∙ ap b.orders e ∙ free))
        ∙ held;
    limits = done.limits;
  }

  index-Resting :
      (i : ℤ) (a : Ptr)
      → find i b'.global_map ≡ some a
      → Resting (put_queue queues side price (queues side price ++ c ∷ [])) i a
  index-Resting i a e = elim (eqb_ℤ-cases c.order_id i) [
    | inl (same, is) ↦
        let at_new = some-injective c.addr a (
          sym (found ∙ if_true (eqb_ℤ c.order_id i) (some c.addr) (find i b.global_map) same)
          ∙ e) in
        (
          side,
          price,
          rw (same_level_refl side price) (
              ap (λ x. id_at x (queues side price ++ c ∷ [])) (sym at_new)
              ∙ id_at-last (queues side price) c new-out
              ∙ ap some is),
        )
    | inr (other, ne) ↦
        Resting-put queues side price _ i a (id_at-append a (queues side price) c i) (
          rep.indexed i a (
            sym (found ∙ if_false (eqb_ℤ c.order_id i) (some c.addr) (find i b.global_map) other)
            ∙ e))
  ]
    where
      found :
          find i b'.global_map ≡ (if eqb_ℤ c.order_id i then some c.addr else find i b.global_map)
      found = ap (find i) done.index ∙ find-assign c.order_id i c.addr b.global_map

  pub Enters-Rep :
      ((side' : Bool) (price' : ℤ)
        → same_level side price side' price' ≡ false
        → find price' (levels side' b) ≢ some l)
      → Rep b' (put_queue queues side price (queues side price ++ c ∷ []))
  Enters-Rep apart = record {
    level = Rep-Level rep b' side price l _ Enters-Spares apart (
        subst (λ e. Level b' side price e (queues side price ++ c ∷ []))
          (sym (done.entries side price ∙ if_true _ (some l) _ (same_level_refl side price)))
          done.own);
    ordered = done.ordered;
    indexed = index-Resting;
    fresh = λ a u.
        let old = rep.fresh a (omega (arith, done.unused)) in
        (
          done.orders a (Level-unused rep side price _ _ a (rep.level side price) old.0)
                (omega (arith, done.unused, done.new))
              ∙ old.0,
          done.limits a (omega (arith, done.limit_used)) ∙ old.1,
        );
    nonnull = omega (arith, done.unused);
  }
