-- ===== src/Orderbook/Rep/Frame.antt =====
-- What a change at one level leaves alone: the queues of the other levels.
use mathlib.Core.Option.{some-injective}
use mathlib.Core.Path.{subst}
use distributed_orderbook.Prelude.{
  ◌≡◌, ◌≢◌, refl, sym, ◌∙◌, ap, Bool, true, false, Option, none, some, List, [], ◌∷◌, inl, inr,
  Bool-cases,
}
use distributed_orderbook.Prelude.Int.{ℤ, eqb_ℤ→eq, eqb_ℤ-refl}
use distributed_orderbook.Prelude.Maps.{find}
use distributed_orderbook.Orderbook.Types.{Ptr, null, Order, Orderbook}
use distributed_orderbook.Orderbook.Command.{levels}
use distributed_orderbook.Orderbook.Rep.{Cell, has, Level, Queues, same_level, put_queue, Rep}
use distributed_orderbook.Orderbook.Rep.Segments.{Segment-node, Segment-frame}

-- What a method at the level of a side and a price, with limit `l`, leaves alone
pub record Spares (b b' : Orderbook) (side : Bool) (price : ℤ) (l : Ptr) : Type 0 where
  pub entries :
      (side' : Bool) (price' : ℤ)
      → same_level side price side' price' ≡ false
      → find price' (levels side' b') ≡ find price' (levels side' b)
  pub orders :
      (a : Ptr) (o : Order)
      → b.orders a ≡ some o
      → same_level side price o.side o.price ≡ false
      → b'.orders a ≡ some o
  pub limits : (a : Ptr) → a ≢ l → b'.limits a ≡ b.limits a

pub same_level_refl : (side : Bool) (price : ℤ) → same_level side price side price ≡ true
same_level_refl true price = eqb_ℤ-refl price
same_level_refl false price = eqb_ℤ-refl price

pub same_level→eq :
    (side : Bool) (price : ℤ) (side' : Bool) (price' : ℤ)
    → same_level side price side' price' ≡ true
    → (side ≡ side') × (price ≡ price')
same_level→eq true price true price' h = (refl, eqb_ℤ→eq price price' h)
same_level→eq false price false price' h = (refl, eqb_ℤ→eq price price' h)
same_level→eq true price false price' h = cc
same_level→eq false price true price' h = cc

-- Orders of two levels are at two addresses.
pub other_addr :
    (h : Ptr → Option Order) (side : Bool) (price : ℤ) (a p : Ptr) (o r : Order)
    → h a ≡ some o
    → h p ≡ some r
    → same_level side price o.side o.price ≡ false
    → same_level side price r.side r.price ≡ true
    → a ≢ p
other_addr h side price a p o r ha hp apart same e =
    let same_order = some-injective o r (sym ha ∙ ap h e ∙ hp) in
    cc (sym apart ∙ ap (λ (x : Order). same_level side price x.side x.price) same_order ∙ same)

-- Two levels with one limit are the same: their head order has one side and one price.
Level-apart :
    (b : Orderbook) (l : Ptr) (side : Bool) (price : ℤ) (cs : List Cell) (side' : Bool) (price' : ℤ)
    (cs' : List Cell)
    → Level b side price (some l) cs
    → Level b side' price' (some l) cs'
    → (side ≡ side') × (price ≡ price')
Level-apart b l side price [] side' price' cs' v w = absurd (v.0 refl)
Level-apart b l side price (c ∷ cs) side' price' [] v w = absurd (w.0 refl)
Level-apart b l side price (c ∷ cs) side' price' (c' ∷ cs') v w =
    let heads = some-injective _ _ (sym v.2 ∙ w.2) in
    let nodes = some-injective _ _ (sym v.3.3 ∙ ap b.orders (ap (λ m. m.head) heads) ∙ w.3.3) in
    (ap (λ o. o.side) nodes, ap (λ o. o.price) nodes)

Level-frame :
    (b b' : Orderbook) (side : Bool) (price : ℤ) (l : Ptr) (side' : Bool) (price' : ℤ)
    (entry : Option Ptr) (cs : List Cell)
    → Spares b b' side price l
    → same_level side price side' price' ≡ false
    → entry ≢ some l
    → Level b side' price' entry cs
    → Level b' side' price' entry cs
Level-frame b b' side price l side' price' none cs sp apart ne v = v
Level-frame b b' side price l side' price' (some l') cs sp apart ne v = (
  v.0,
  v.1,
  sp.limits l' (λ e. ne (ap some e)) ∙ v.2,
  Segment-frame b.orders side' price' l' b'.orders null null cs v.3 same,
)
  where
    same : (a : Ptr) → has a cs ≡ true → b'.orders a ≡ b.orders a
    same a i =
        let (o, held, s, p, _) = Segment-node b.orders side' price' l' null null cs a v.3 i in
        sp.orders a o held (rw (s, p) apart) ∙ sym held

module _ {b : Orderbook} {queues : Queues} (rep : Rep b queues) where
  pub Rep-entry :
      (side : Bool) (price : ℤ) (entry : Option Ptr)
      → find price (levels side b) ≡ entry
      → Level b side price entry (queues side price)
  Rep-entry side price entry e =
      subst (λ o. Level b side price o (queues side price)) e (rep.level side price)

  -- No other level has the limit of a level.
  pub Rep-apart :
      (l : Ptr) (side : Bool) (price : ℤ) (side' : Bool) (price' : ℤ)
      → find price (levels side b) ≡ some l
      → same_level side price side' price' ≡ false
      → find price' (levels side' b) ≢ some l
  Rep-apart l side price side' price' e apart e' =
      let (s, p) =
        Level-apart b l side price (queues side price) side' price' (queues side' price')
          (Rep-entry side price (some l) e) (Rep-entry side' price' (some l) e') in
      cc (same_level_refl side price)

  -- A limit that memory does not hold is no level's.
  pub Rep-unused :
      (l : Ptr) (side' : Bool) (price' : ℤ)
      → b.limits l ≡ none
      → find price' (levels side' b) ≢ some l
  Rep-unused l side' price' e e' = cc (sym e ∙ (Rep-entry side' price' (some l) e').2)

  -- A change at one level keeps the invariant of all levels, if it does at its own.
  pub Rep-Level :
      (b' : Orderbook) (side : Bool) (price : ℤ) (l : Ptr) (cs : List Cell)
      → Spares b b' side price l
      → ((side' : Bool) (price' : ℤ)
          → same_level side price side' price' ≡ false
          → find price' (levels side' b) ≢ some l)
      → Level b' side price (find price (levels side b')) cs
      → (side' : Bool) (price' : ℤ)
      → Level b' side' price'
          (find price' (levels side' b'))
          (put_queue queues side price cs side' price')
  Rep-Level b' side price l cs sp apart own side' price' =
      elim (Bool-cases (same_level side price side' price')) [
        | inl e ↦
            let (s, p) = same_level→eq side price side' price' e in
            rw (← s, ← p, same_level_refl side price) own
        | inr e ↦ rw e (
            subst (λ o. Level b' side' price' o (queues side' price'))
              (sym (sp.entries side' price' e))
              (Level-frame b b' side price l side' price' (find price' (levels side' b))
                (queues side' price') sp e (apart side' price' e) (rep.level side' price')))
      ]
