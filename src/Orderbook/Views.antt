-- ===== src/Orderbook/Views.antt =====
-- What a change of one queue, `cancel`'s or `modify`'s, is on the side that the specification has.
pub mod Prices
use mathlib.Core.Path.{subst, fun_ext}
use distributed_orderbook.Prelude.{
  ◌≡◌, ◌≢◌, ◌⊎◌, refl, sym, ap, ap₂, ◌∙◌, Bool, true, false, ◌&&◌, Option, none, some, List, [],
  ◌∷◌, ◌++◌, inl, inr, Bool-cases, if◌then◌else◌, if_true, if_false, arith, All,
}
use distributed_orderbook.Prelude.Int.{ℤ, eqb_ℤ, eqb_ℤ-refl, eqb_ℤ→eq}
use distributed_orderbook.Prelude.Maps.{find, erase}
use distributed_orderbook.Orderbook.Types.{Ptr, null, Orderbook}
use distributed_orderbook.Orderbook.Command.{levels}
use distributed_orderbook.Orderbook.Rep.{
  Cell, has, is_nil, same_side, same_level, Level, Queues, put_queue, Rep,
}
use distributed_orderbook.Orderbook.Rep.Segments.{Segment-node}
use distributed_orderbook.Orderbook.Rep.Frame.{Rep-entry, other_addr, same_level_refl}
use distributed_orderbook.Orderbook.Rep.Index.{put_queue-at}
use distributed_orderbook.Orderbook.Rep.Locate.{set_volume, remove, Place}
use distributed_orderbook.Orderbook.Rep.Resize.{resting, resting-held}
use distributed_orderbook.Orderbook.Match.Levels.{view}
use distributed_orderbook.Book.{Side, put_level}
use distributed_orderbook.Book.Crossing.{All-map}
use distributed_orderbook.Book.Changes.{change, volume_in}
use distributed_orderbook.Orderbook.Views.Prices.{view-change_other, view-change}

and-same_side : (x s : Bool) → (x && same_side s s) ≡ x
and-same_side true true = refl
and-same_side true false = refl
and-same_side false s = refl

and-other_side :
    (x : Bool) (s side : Bool) → same_side s side ≡ false → (x && same_side s side) ≡ false
and-other_side true s side h = h
and-other_side false s side h = refl

side-cases : (s side : Bool) → (side ≡ s) ⊎ (same_side s side ≡ false)
side-cases true true = inl refl
side-cases true false = inr refl
side-cases false true = inr refl
side-cases false false = inl refl

pub other_price :
    (side : Bool) (price q : ℤ) → eqb_ℤ q price ≡ false → same_level side price side q ≡ false
other_price true price q h = ground arith
other_price false price q h = ground arith

pub other_side :
    (s side : Bool) (price q : ℤ) → same_side s side ≡ false → same_level s price side q ≡ false
other_side true false price q h = refl
other_side false true price q h = refl
other_side true true price q h = cc
other_side false false price q h = cc

-- Each key of a map is found in it.
keys-find : (m : List (ℤ × Ptr)) → All (λ (e : ℤ × Ptr). (l : Ptr) × (find e.0 m ≡ some l)) m
unfolding find
keys-find [] = tt
keys-find ((q, l) ∷ m) = (
  (l, rw (eqb_ℤ-refl q) refl),
  All-map
      (λ (e : ℤ × Ptr) (known : (k : Ptr) × (find e.0 m ≡ some k)).
        elim (Bool-cases (eqb_ℤ q e.0)) [
          | inl same ↦ (l, rw same refl)
          | inr differ ↦ (known.0, rw differ known.1)
        ])
      m (keys-find m),
)

module _ {b : Orderbook} {queues : Queues} (rep : Rep b queues) where
  -- The entries of a side's map have queues with orders.
  queues-filled : (side : Bool) → All (λ (e : ℤ × Ptr). queues side e.0 ≢ []) (levels side b)
  queues-filled side =
      All-map
        (λ (e : ℤ × Ptr) (known : (l : Ptr) × (find e.0 (levels side b) ≡ some l)).
          (Rep-entry rep side e.0 (some known.0) known.1).0)
        (levels side b) (keys-find (levels side b))

  module _ {order_id : ℤ} {p : Ptr} (place : Place b queues order_id p) where
    open place.spot use {older, cell, younger, here, split, passed}

    absent_at :
        (side : Bool) (price : ℤ) (entry : Option Ptr)
        → same_level place.side place.price side price ≡ false
        → Level b side price entry (queues side price)
        → has p (queues side price) ≡ false
    absent_at side price none apart v = ap (has p) v
    absent_at side price (some l) apart v = elim (Bool-cases (has p (queues side price))) [
      | inl i ↦
          let (o, held, s, q, _) =
            Segment-node b.orders side price l null null (queues side price) p v.3 i in
          absurd (
            other_addr b.orders place.side place.price p cell.addr o (resting rep place) held
              (resting-held rep place) (rw (s, q) apart) (same_level_refl place.side place.price)
              (sym here))
      | inr out ↦ out
    ]

    -- An order stands in no other queue.
    pub absent :
        (side : Bool) (price : ℤ)
        → same_level place.side place.price side price ≡ false
        → has p (queues side price) ≡ false
    absent side price apart =
        absent_at side price (find price (levels side b)) apart (rep.level side price)

    -- A change of queues that spares those without the order
    module _ (f : List Cell → List Cell)
        (spares : (cs : List Cell) → has p cs ≡ false → f cs ≡ cs) where
      abbrev changed : Queues
      changed = put_queue queues place.side place.price (f (queues place.side place.price))

      abbrev left : List Cell
      left = f (queues place.side place.price)

      own_queue :
          (q : ℤ)
          → eqb_ℤ q place.price ≡ true
          → (changed place.side q ≡ left) × (f (queues place.side q) ≡ left)
      own_queue q e =
          let same = eqb_ℤ→eq q place.price e in
          (
            ap (changed place.side) same ∙ put_queue-at queues place.side place.price left,
            ap (λ x. f (queues place.side x)) same,
          )

      other_queue :
          (side : Bool) (q : ℤ)
          → same_level place.side place.price side q ≡ false
          → (changed side q ≡ queues side q) × (f (queues side q) ≡ queues side q)
      other_queue side q apart =
          (if_false _ left (queues side q) apart, spares (queues side q) (absent side q apart))

      change-own :
          view
            (changed place.side)
            (if is_nil left then erase place.price (levels place.side b) else levels place.side b)
          ≡ change f (view (queues place.side) (levels place.side b))
      change-own =
          view-change f (queues place.side) (changed place.side) place.price left own_queue
            (λ q e. other_queue place.side q (other_price place.side place.price q e))
            (levels place.side b) (queues-filled place.side)

      change-other :
          (side : Bool)
          → same_side place.side side ≡ false
          → view (changed side) (levels side b) ≡ change f (view (queues side) (levels side b))
      change-other side apart =
          let other =
            λ (q : ℤ). other_queue side q (other_side place.side side place.price q apart) in
          ap (λ g. view g (levels side b)) (fun_ext (λ q. (other q).0))
          ∙ sym (
              view-change_other f (queues side) (levels side b) (
                All-map (λ (e : ℤ × Ptr) ne. (ne, (other e.0).1)) (levels side b)
                  (queues-filled side)))

      -- On both sides, the change of the order's queue is the change of every queue.
      pub change-place :
          (side : Bool)
          → view (changed side) (
              if is_nil left && same_side place.side side
              then erase place.price (levels side b)
              else levels side b)
            ≡ change f (view (queues side) (levels side b))
      change-place side = elim (side-cases place.side side) [
        | inl same ↦
            subst
              (λ s.
                view (changed s) (
                  if is_nil left && same_side place.side s
                  then erase place.price (levels s b)
                  else levels s b)
                ≡ change f (view (queues s) (levels s b)))
              (sym same)
              (ap
                  (λ x.
                    view (changed place.side)
                      (if x then erase place.price (levels place.side b) else levels place.side b))
                  (and-same_side (is_nil left) place.side)
                ∙ change-own)
        | inr apart ↦
            ap (view (changed side)) (
              if_false _ (erase place.price (levels side b)) (levels side b)
                (and-other_side (is_nil left) place.side side apart))
            ∙ change-other side apart
      ]
