-- ===== src/Orderbook/Rep/Segments.antt =====
-- Parts of a doubly linked list in memory: what they say of an address, how they survive a change
-- elsewhere, and how they are cut and joined.
use distributed_orderbook.Prelude.{
  ◌≡◌, refl, sym, ap, ◌∙◌, Bool, true, false, ◌||◌, Option, some, List, [], ◌∷◌, ◌++◌, arith, ◌==◌,
  inl, inr, Bool-cases, ==→eq,
}
use distributed_orderbook.Prelude.Int.{ℤ}
use distributed_orderbook.Orderbook.Types.{Ptr, Order}
use distributed_orderbook.Orderbook.Rep.{Cell, first, last, has, node, Segment}

-- No address in both lists
abbrev pub Apart : List Cell → List Cell → Type 0
Apart xs ys = (a : Ptr) → has a xs ≡ true → has a ys ≡ false

pub Apart-head :
    (xs : List Cell) (c : Cell) (ys : List Cell) → Apart xs (c ∷ ys) → has c.addr xs ≡ false
Apart-head xs c ys apart = elim (Bool-cases (has c.addr xs)) [
  | inl e ↦ ground (arith, apart c.addr e)
  | inr e ↦ e
]

pub has-append : (a : Ptr) (xs ys : List Cell) → has a (xs ++ ys) ≡ (has a xs || has a ys)
has-append a [] ys = refl
has-append a (c ∷ xs) ys = ground (arith, has-append a xs ys)

pub first-append : (p : Ptr) (xs ys : List Cell) → first p (xs ++ ys) ≡ first (first p ys) xs
first-append p [] ys = refl
first-append p (c ∷ xs) ys = refl

pub last-append : (p : Ptr) (xs ys : List Cell) → last p (xs ++ ys) ≡ last (last p xs) ys
last-append p [] ys = refl
last-append p (c ∷ xs) ys = last-append c.addr xs ys

or-false : {a b : Bool} → (a || b) ≡ false → (a ≡ false) × (b ≡ false)
or-false h = ground arith

module _ (h : Ptr → Option Order) (side : Bool) (price : ℤ) (l : Ptr) where
  -- The order at an address of a queue carries the queue's side, price and limit.
  pub Segment-node :
      (prev after : Ptr) (cs : List Cell) (a : Ptr)
      → Segment h side price l prev after cs
      → has a cs ≡ true
      → (o : Order) × (h a ≡ some o) × (o.side ≡ side) × (o.price ≡ price) × (o.parentlimit ≡ l)
  Segment-node prev after [] a q i = cc
  Segment-node prev after (c ∷ cs) a q i = elim (Bool-cases (a == c.addr)) [
    | inl e ↦
        (node side price l prev c (first after cs), rw (==→eq a c.addr e) q.3, refl, refl, refl)
    | inr e ↦ Segment-node c.addr after cs a q.4 (rw e at i)
  ]

  -- A queue survives a change that spares its addresses.
  pub Segment-frame :
      (g : Ptr → Option Order) (prev after : Ptr) (cs : List Cell)
      → Segment h side price l prev after cs
      → ((a : Ptr) → has a cs ≡ true → g a ≡ h a)
      → Segment g side price l prev after cs
  Segment-frame g prev after [] q same = tt
  Segment-frame g prev after (c ∷ cs) q same = (
    q.0,
    q.1,
    q.2,
    same c.addr (ground arith) ∙ q.3,
    Segment-frame g c.addr after cs q.4 (λ a i. same a (ground arith)),
  )

  pub Segment-append :
      (prev after : Ptr) (xs ys : List Cell)
      → Segment h side price l prev (first after ys) xs
      → Segment h side price l (last prev xs) after ys
      → Apart xs ys
      → Segment h side price l prev after (xs ++ ys)
  Segment-append prev after [] ys s t apart = t
  Segment-append prev after (c ∷ xs) ys s t apart = (
    s.0,
    rw (has-append c.addr xs ys, s.1) (apart c.addr (ground arith)),
    s.2,
    s.3 ∙ ap (λ p. some (node side price l prev c p)) (sym (first-append after xs ys)),
    Segment-append c.addr after xs ys s.4 t (λ a i. apart a (ground arith)),
  )

  pub Segment-front :
      (prev after : Ptr) (xs ys : List Cell)
      → Segment h side price l prev after (xs ++ ys)
      → Segment h side price l prev (first after ys) xs
  Segment-front prev after [] ys s = tt
  Segment-front prev after (c ∷ xs) ys s = (
    s.0,
    (or-false (rw has-append at s.1)).0,
    s.2,
    s.3 ∙ ap (λ p. some (node side price l prev c p)) (first-append after xs ys),
    Segment-front c.addr after xs ys s.4,
  )

  pub Segment-back :
      (prev after : Ptr) (xs ys : List Cell)
      → Segment h side price l prev after (xs ++ ys)
      → Segment h side price l (last prev xs) after ys
  Segment-back prev after [] ys s = s
  Segment-back prev after (c ∷ xs) ys s = Segment-back c.addr after xs ys s.4

  pub Segment-Apart :
      (prev after : Ptr) (xs ys : List Cell)
      → Segment h side price l prev after (xs ++ ys)
      → Apart xs ys
  Segment-Apart prev after [] ys s a i = cc
  Segment-Apart prev after (c ∷ xs) ys s a i = elim (Bool-cases (a == c.addr)) [
    | inl e ↦ rw (==→eq a c.addr e) (or-false (rw has-append at s.1)).1
    | inr e ↦ Segment-Apart c.addr after xs ys s.4 a (rw e at i)
  ]
