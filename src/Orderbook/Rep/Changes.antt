-- ===== src/Orderbook/Rep/Changes.antt =====
-- Writes to the nodes of a linked list: a new successor of its last node, a new predecessor of its
-- first, a new volume, and a write elsewhere.
use mathlib.Core.Option.{some-injective}
use distributed_orderbook.Prelude.{
  ◌≡◌, ◌≢◌, sym, ap, ◌∙◌, Bool, true, false, Option, some, List, [], ◌∷◌, arith, ==-refl, ne→==,
}
use distributed_orderbook.Prelude.Int.{ℤ, pos, ◌<ℤ◌}
use distributed_orderbook.Orderbook.Types.{Ptr, Order, write}
use distributed_orderbook.Orderbook.Rep.{Cell, last, has, Segment}
use distributed_orderbook.Orderbook.Rep.Segments.{Segment-frame}

module _ {ℓ} {A : Type ℓ} (h : Ptr → Option A) (p : Ptr) (o : Option A) where
  pub write_self : write h p o p ≡ o
  unfolding write
  write_self = rw (==-refl p)

  pub write_ne : (a : Ptr) → a ≢ p → write h p o a ≡ h a
  unfolding write
  write_ne a ne = rw (ne→== a p ne)

pub has-last : (p : Ptr) (c : Cell) (cs : List Cell) → has (last p (c ∷ cs)) (c ∷ cs) ≡ true
has-last p c [] = ground arith
has-last p c (c' ∷ cs) = ground (arith, has-last c.addr c' cs)

pub ne_of_has : (a b : Ptr) (cs : List Cell) → has a cs ≡ true → has b cs ≡ false → a ≢ b
ne_of_has a b cs i o e = cc (sym i ∙ ap (λ p. has p cs) e ∙ o)

module _ (h : Ptr → Option Order) (side : Bool) (price : ℤ) (l : Ptr) where
  -- A write outside the list
  pub Segment-write :
      (p : Ptr) (o : Option Order) (prev after : Ptr) (cs : List Cell)
      → has p cs ≡ false
      → Segment h side price l prev after cs
      → Segment (write h p o) side price l prev after cs
  Segment-write p o prev after cs out s =
      Segment-frame h side price l (write h p o) prev after cs s
        (λ a i. write_ne h p o a (ne_of_has a p cs i out))

  -- `last->next = next`
  pub Segment-set_next :
      (o : Order) (prev after next : Ptr) (c : Cell) (cs : List Cell)
      → h (last prev (c ∷ cs)) ≡ some o
      → Segment h side price l prev after (c ∷ cs)
      → Segment
          (write h (last prev (c ∷ cs)) (some (record o { next = next })))
          side
          price
          l
          prev
          next
          (c ∷ cs)
  Segment-set_next o prev after next c [] e s = (
    s.0,
    s.1,
    s.2,
    write_self h c.addr _
        ∙ ap {A = Order} (λ n. some (record n { next = next })) (some-injective _ _ (sym e ∙ s.3)),
    tt,
  )
  Segment-set_next o prev after next c (c' ∷ cs) e s = (
    s.0,
    s.1,
    s.2,
    write_ne h _ _ c.addr (λ q. ne_of_has _ c.addr (c' ∷ cs) (has-last c.addr c' cs) s.1 (sym q))
        ∙ s.3,
    Segment-set_next o c.addr after next c' cs e s.4,
  )

  -- `first->prev = prev'`
  pub Segment-set_prev :
      (o : Order) (prev after prev' : Ptr) (c : Cell) (cs : List Cell)
      → h c.addr ≡ some o
      → Segment h side price l prev after (c ∷ cs)
      → Segment
          (write h c.addr (some (record o { prev = prev' })))
          side
          price
          l
          prev'
          after
          (c ∷ cs)
  Segment-set_prev o prev after prev' c cs e s = (
    s.0,
    s.1,
    s.2,
    write_self h c.addr _
        ∙ ap {A = Order} (λ n. some (record n { prev = prev' })) (some-injective _ _ (sym e ∙ s.3)),
    Segment-write c.addr _ c.addr after cs s.1 s.4,
  )

  -- `first->volume = volume`
  pub Segment-set_volume :
      (o : Order) (prev after : Ptr) (volume : ℤ) (c : Cell) (cs : List Cell)
      → h c.addr ≡ some o
      → pos 0 <ℤ volume
      → Segment h side price l prev after (c ∷ cs)
      → Segment
          (write h c.addr (some (record o { volume = volume })))
          side
          price
          l
          prev
          after
          (record c { volume = volume } ∷ cs)
  Segment-set_volume o prev after volume c cs e positive s = (
    s.0,
    s.1,
    positive,
    write_self h c.addr _
        ∙ ap {A = Order} (λ n. some (record n { volume = volume }))
            (some-injective _ _ (sym e ∙ s.3)),
    Segment-write c.addr _ c.addr after cs s.1 s.4,
  )
