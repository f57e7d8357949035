-- ===== src/Orderbook/Rep/Unlink.antt =====
-- An order is taken out of its doubly linked list: its neighbours are linked to one another and its
-- node is deleted.
use mathlib.Core.Path.{subst}
use mathlib.Core.Option
use mathlib.Core.Option.{some-injective}
use distributed_orderbook.Prelude.{
  ◌≡◌, ◌≢◌, refl, sym, ap, ◌∙◌, Bool, false, Option, none, some, List, [], ◌∷◌, ◌++◌, arith, inl,
  inr, Bool-cases, ne→==,
}
use distributed_orderbook.Prelude.Int.{ℤ}
use distributed_orderbook.Orderbook.Types.{Ptr, null, Order, Orderbook, write}
use distributed_orderbook.Orderbook.Command.{done, update_order, unless_null}
use distributed_orderbook.Orderbook.Command.Runs.{update_order-done}
use distributed_orderbook.Orderbook.Rep.{Cell, first, last, has, Segment}
use distributed_orderbook.Orderbook.Rep.Segments.{
  Segment-frame, Apart, Apart-head, Segment-node, Segment-append, Segment-front, Segment-back,
  Segment-Apart,
}
use distributed_orderbook.Orderbook.Rep.Changes.{
  write_ne, has-last, ne_of_has, Segment-write, Segment-set_next, Segment-set_prev,
}

-- A change of the object at an address
abbrev pub amend {ℓ} : {A : Type ℓ} → (Ptr → Option A) → Ptr → (A → A) → Ptr → Option A
amend h p f = write h p (Option.map f (h p))

pub amend-eq {ℓ} :
    {A : Type ℓ} (h : Ptr → Option A) (p : Ptr) (o : A) (f : A → A)
    → h p ≡ some o
    → amend h p f ≡ write h p (some (f o))
amend-eq h p o f held = ap (λ m. write h p (Option.map f m)) held

abbrev pub relink_last : (Ptr → Option Order) → List Cell → Ptr → Ptr → Option Order
relink_last h [] n = h
relink_last h (x ∷ xs) n = amend h (last null (x ∷ xs)) (λ o. record o { next = n })

abbrev pub relink_first : (Ptr → Option Order) → List Cell → Ptr → Ptr → Option Order
relink_first h [] p = h
relink_first h (y ∷ ys) p = amend h y.addr (λ o. record o { prev = p })

pub relink_last-other :
    (h : Ptr → Option Order) (xs : List Cell) (n a : Ptr)
    → has a xs ≡ false
    → relink_last h xs n a ≡ h a
relink_last-other h [] n a out = refl
relink_last-other h (x ∷ xs) n a out =
    write_ne h _ _ a (λ e. ne_of_has _ a (x ∷ xs) (has-last null x xs) out (sym e))

pub relink_first-other :
    (h : Ptr → Option Order) (ys : List Cell) (p a : Ptr)
    → has a ys ≡ false
    → relink_first h ys p a ≡ h a
relink_first-other h [] p a out = refl
relink_first-other h (y ∷ ys) p a out = write_ne h y.addr _ a (λ e. ground arith)

tail_out : (a : Ptr) (c : Cell) (cs : List Cell) → has a (c ∷ cs) ≡ false → has a cs ≡ false
tail_out a c cs h = ground arith

module _ (h : Ptr → Option Order) (side : Bool) (price : ℤ) (l : Ptr) where
  pub Segment-last :
      (prev after : Ptr) (x : Cell) (xs : List Cell)
      → Segment h side price l prev after (x ∷ xs)
      → (last prev (x ∷ xs) ≢ null) × (o : Order) × (h (last prev (x ∷ xs)) ≡ some o)
  Segment-last prev after x [] s = (s.0, _, s.3)
  Segment-last prev after x (x' ∷ xs) s = Segment-last x.addr after x' xs s.4

  pub Segment-relink_last :
      (after n : Ptr) (xs : List Cell)
      → Segment h side price l null after xs
      → Segment (relink_last h xs n) side price l null n xs
  Segment-relink_last after n [] s = tt
  Segment-relink_last after n (x ∷ xs) s =
      let (_, o, held) = Segment-last null after x xs s in
      subst (λ g. Segment g side price l null n (x ∷ xs)) (sym (amend-eq h _ o _ held))
        (Segment-set_next h side price l o null after n x xs held s)

  Segment-relink_first :
      (prev after p : Ptr) (ys : List Cell)
      → Segment h side price l prev after ys
      → Segment (relink_first h ys p) side price l p after ys
  Segment-relink_first prev after p [] s = tt
  Segment-relink_first prev after p (y ∷ ys) s =
      subst (λ g. Segment g side price l p after (y ∷ ys)) (sym (amend-eq h y.addr _ _ s.3))
        (Segment-set_prev h side price l _ prev after p y ys s.3 s)

  pub unused-out :
      (prev after : Ptr) (cs : List Cell) (a : Ptr)
      → Segment h side price l prev after cs
      → h a ≡ none
      → has a cs ≡ false
  unused-out prev after cs a s e = elim (Bool-cases (has a cs)) [
    | inl i ↦ let r = Segment-node h side price l prev after cs a s i in cc (sym e ∙ r.1)
    | inr o ↦ o
  ]

-- The neighbours of the order `c` are linked to one another and its node is deleted.
abbrev pub unlinked : (Ptr → Option Order) → List Cell → Cell → List Cell → Ptr → Option Order
unlinked h xs c ys =
    write (relink_first (relink_last h xs (first null ys)) ys (last null xs)) c.addr none

module _ (h : Ptr → Option Order) (side : Bool) (price : ℤ) (l : Ptr) where
  module _ (xs : List Cell) (c : Cell) (ys : List Cell)
      (s : Segment h side price l null null (xs ++ c ∷ ys)) where
    pub out_older : has c.addr xs ≡ false
    out_older = Apart-head xs c ys (Segment-Apart h side price l null null xs (c ∷ ys) s)

    pub out_younger : has c.addr ys ≡ false
    out_younger = (Segment-back h side price l null null xs (c ∷ ys) s).1

    older_Apart : Apart xs ys
    older_Apart a i = tail_out a c ys (Segment-Apart h side price l null null xs (c ∷ ys) s a i)

    younger_Apart : Apart ys xs
    younger_Apart a i = elim (Bool-cases (has a xs)) [
      | inl e ↦ cc (sym i ∙ older_Apart a e)
      | inr e ↦ e
    ]

    pub relinked-cell :
        relink_first (relink_last h xs (first null ys)) ys (last null xs) c.addr ≡ h c.addr
    relinked-cell =
        relink_first-other (relink_last h xs (first null ys)) ys (last null xs) c.addr out_younger
        ∙ relink_last-other h xs (first null ys) c.addr out_older

    pub Segment-relinked : Segment (relink_last h xs (first null ys)) side price l c.addr null ys
    Segment-relinked =
        Segment-frame h side price l (relink_last h xs (first null ys)) c.addr null ys
          (Segment-back h side price l null null xs (c ∷ ys) s).4
          (λ a i. relink_last-other h xs (first null ys) a (younger_Apart a i))

    pub Segment-unlinked : Segment (unlinked h xs c ys) side price l null null (xs ++ ys)
    Segment-unlinked =
        let front =
          Segment-relink_last h side price l c.addr (first null ys) xs
            (Segment-front h side price l null null xs (c ∷ ys) s) in
        let h' = relink_last h xs (first null ys) in
        let h'' = relink_first h' ys (last null xs) in
        let front' =
          Segment-frame h' side price l h'' null (first null ys) xs front
            (λ a i. relink_first-other h' ys (last null xs) a (older_Apart a i)) in
        let back =
          Segment-relink_first h' side price l c.addr null (last null xs) ys Segment-relinked in
        Segment-append (unlinked h xs c ys) side price l null null xs ys
          (Segment-write h'' side price l c.addr none null (first null ys) xs out_older front')
          (Segment-write h'' side price l c.addr none (last null xs) null ys out_younger back)
          older_Apart

    -- Nothing else is written.
    pub unlinked-other :
        (a : Ptr) → has a xs ≡ false → a ≢ c.addr → has a ys ≡ false → unlinked h xs c ys a ≡ h a
    unlinked-other a x e y =
        write_ne _ c.addr none a e
        ∙ relink_first-other (relink_last h xs (first null ys)) ys (last null xs) a y
        ∙ relink_last-other h xs (first null ys) a x

    pub unlinked-unused : (a : Ptr) → h a ≡ none → unlinked h xs c ys a ≡ none
    unlinked-unused a e =
        unlinked-other a
          (unused-out h side price l null c.addr xs a
            (Segment-front h side price l null null xs (c ∷ ys) s) e)
          (λ q. cc (sym e ∙ ap h q ∙ (Segment-back h side price l null null xs (c ∷ ys) s).3))
          (unused-out h side price l c.addr null ys a
            (Segment-back h side price l null null xs (c ∷ ys) s).4 e)
        ∙ e

-- The commands that relink the neighbours
module _ (b : Orderbook) (side : Bool) (price : ℤ) (l : Ptr) where
  pub relink_last-done :
      (after n : Ptr) (xs : List Cell)
      → Segment b.orders side price l null after xs
      → unless_null (last null xs) (update_order (last null xs) (λ o. record o { next = n })) b
        ≡ done tt (record b { orders = relink_last b.orders xs n })
  relink_last-done after n [] s = refl
  relink_last-done after n (x ∷ xs) s =
      let (valid, o, held) = Segment-last b.orders side price l null after x xs s in
      rw
        (
          ne→== (last null (x ∷ xs)) null valid,
          update_order-done b (last null (x ∷ xs)) o valid held _,
        )
        (ap (λ f. done tt (record b { orders = f })) (sym (amend-eq b.orders _ o _ held)))

  pub relink_first-done :
      (prev after p : Ptr) (ys : List Cell)
      → Segment b.orders side price l prev after ys
      → unless_null (first null ys) (update_order (first null ys) (λ o. record o { prev = p })) b
        ≡ done tt (record b { orders = relink_first b.orders ys p })
  relink_first-done prev after p [] s = refl
  relink_first-done prev after p (y ∷ ys) s =
      rw (ne→== y.addr null s.0, update_order-done b y.addr _ s.0 s.3 _)
        (ap (λ f. done tt (record b { orders = f })) (sym (amend-eq b.orders y.addr _ _ s.3)))
