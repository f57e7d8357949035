-- ===== src/Orderbook/Match/OpenLevel.antt =====
-- An order that rests at a price its side's map lacks: it opens a level.
use mathlib.Core.Path.{subst}
use distributed_orderbook.Prelude.{
  ◌+◌, ◌≡◌, ◌≢◌, refl, sym, ap, ap₂, ◌∙◌, Bool, true, false, none, some, List, [], ◌∷◌, ◌++◌, arith,
  inl, inr, Bool-cases, if◌then◌else◌, All,
}
use distributed_orderbook.Prelude.Int.{ℤ, pos, ◌<ℤ◌, +ℤ-zero, eqb_ℤ, eqb_ℤ→eq}
use distributed_orderbook.Prelude.Maps.{find, assign, insert, find-insert}
use distributed_orderbook.Orderbook.Types.{Ptr, null, Limit, new_order, new_limit, Orderbook, write}
use distributed_orderbook.Orderbook.Command.{done, levels, set_levels, alloc_order, alloc_limit}
use distributed_orderbook.Orderbook.Command.Runs.{update_order-done, update_limit-done}
use distributed_orderbook.Orderbook.Methods.{before, open_level, rest_order}
use distributed_orderbook.Orderbook.Rep.{
  Cell, node, limit_of, Level, Queues, Rep, same_level, Ordered,
}
use distributed_orderbook.Orderbook.Rep.Changes.{write_self, write_ne}
use distributed_orderbook.Orderbook.Rep.Frame.{Rep-entry}
use distributed_orderbook.Orderbook.Rep.CutOut.{write-write}
use distributed_orderbook.Orderbook.Rep.Enter.{Enters}

pub before_trans :
    (side : Bool) (p q r : ℤ)
    → before side p q ≡ true
    → before side q r ≡ true
    → before side p r ≡ true
unfolding before
before_trans true p q r h k = ground arith
before_trans false p q r h k = ground arith

pub before_total :
    (side : Bool) (p q : ℤ) → eqb_ℤ p q ≡ false → before side q p ≡ false → before side p q ≡ true
unfolding before
before_total true p q h k = ground arith
before_total false p q h k = ground arith

All-insert :
    (P : ℤ × Ptr → Type 0) (lt : ℤ → ℤ → Bool) (k : ℤ) (v : Ptr) (m : List (ℤ × Ptr))
    → P (k, v)
    → All P m
    → All P (insert lt k v m)
unfolding insert
All-insert P lt k v [] p h = (p, tt)
All-insert P lt k v ((j, w) ∷ m) p h = elim (Bool-cases (eqb_ℤ j k)) [
  | inl e ↦ rw e (p, h.1)
  | inr e ↦ elim (Bool-cases (lt k j)) [
    | inl f ↦ rw (e, f) (p, (h.0, h.1))
    | inr f ↦ rw (e, f) (h.0, All-insert P lt k v m p h.1)
  ]
]

pub All-before :
    (side : Bool) (p q : ℤ) (m : List (ℤ × Ptr))
    → before side p q ≡ true
    → All (λ (e : ℤ × Ptr). before side q e.0 ≡ true) m
    → All (λ (e : ℤ × Ptr). before side p e.0 ≡ true) m
All-before side p q [] h a = tt
All-before side p q ((r, _) ∷ m) h a = (before_trans side p q r h a.0, All-before side p q m h a.1)

Ordered-insert :
    (side : Bool) (k : ℤ) (v : Ptr) (m : List (ℤ × Ptr))
    → Ordered (before side) m
    → Ordered (before side) (insert (before side) k v m)
unfolding insert
Ordered-insert side k v [] h = (tt, tt)
Ordered-insert side k v ((j, w) ∷ m) h = elim (Bool-cases (eqb_ℤ j k)) [
  | inl e ↦
      rw e
        (subst (λ i. All (λ (x : ℤ × Ptr). before side i x.0 ≡ true) m) (eqb_ℤ→eq j k e) h.0, h.1)
  | inr e ↦ elim (Bool-cases (before side k j)) [
    | inl f ↦ rw (e, f) ((f, All-before side k j m f h.0), (h.0, h.1))
    | inr f ↦
        rw (e, f)
          (
            All-insert _ (before side) k v m (before_total side j k e f) h.0,
            Ordered-insert side k v m h.1,
          )
  ]
]

find-insert_level :
    (b : Orderbook) (side : Bool) (price : ℤ) (l : Ptr) (side' : Bool) (price' : ℤ)
    → find price' (levels side' (set_levels side (insert (before side) price l (levels side b)) b))
      ≡ (if same_level side price side' price' then some l else find price' (levels side' b))
find-insert_level b true price l true price' = find-insert (before true) price price' l b.asks
find-insert_level b true price l false price' = refl
find-insert_level b false price l true price' = refl
find-insert_level b false price l false price' = find-insert (before false) price price' l b.bids

Ordered-insert_level :
    (b : Orderbook) (side : Bool) (price : ℤ) (l : Ptr)
    → ((side' : Bool) → Ordered (before side') (levels side' b))
    → (side' : Bool)
    → Ordered
        (before side')
        (levels side' (set_levels side (insert (before side) price l (levels side b)) b))
Ordered-insert_level b true price l h true = Ordered-insert true price l b.asks (h true)
Ordered-insert_level b true price l h false = h false
Ordered-insert_level b false price l h true = h true
Ordered-insert_level b false price l h false = Ordered-insert false price l b.bids (h false)

module _ {b : Orderbook} {queues : Queues} (rep : Rep b queues) (side : Bool) (price : ℤ)
    (order_id volume : ℤ) (entry : find price (levels side b) ≡ none)
    (positive : pos 0 <ℤ volume) where
  abbrev cell : Cell
  cell = record { addr = b.unused; order_id = order_id; volume = volume }

  abbrev l : Ptr
  l = b.unused + 1

  empty : queues side price ≡ []
  empty = Rep-entry rep side price none entry

  abbrev started : Orderbook
  started = record b {
    orders = write b.orders b.unused (some (new_order price volume order_id side));
    unused = b.unused + 1;
  }

  abbrev pub opened : Orderbook
  opened = set_levels side (insert (before side) price l (levels side b)) (record b {
    orders = write b.orders b.unused (some (node side price l null cell null));
    limits = write b.limits l (some (limit_of (cell ∷ [])));
    unused = b.unused + 1 + 1;
    global_map = assign order_id b.unused b.global_map;
  })

  fresh_ne : b.unused ≢ null
  fresh_ne = omega (arith, rep.nonnull)

  limit_ne : l ≢ null
  limit_ne = omega arith

  pub opened-Enters : Enters b queues side price l cell opened
  opened-Enters = record {
    orders = λ a h ne. write_ne b.orders b.unused _ a ne;
    limits = λ a ne. write_ne b.limits l _ a ne;
    entries = λ side' price'. find-insert_level b side price l side' price';
    own =
        subst (λ ds. Level opened side price (some l) (ds ++ cell ∷ [])) (sym empty)
          (
            λ e. cc e,
            limit_ne,
            write_self b.limits l _,
            (fresh_ne, refl, positive, write_self b.orders b.unused _, tt),
          );
    ordered = Ordered-insert_level b side price l rep.ordered;
    index = refl;
    new = refl;
    unused = omega arith;
    limit_used = omega arith;
  }

  open_level-done :
      open_level side price b.unused volume started
      ≡ done tt (record opened { global_map = b.global_map })
  unfolding open_level alloc_limit
  open_level-done =
      let b1 : Orderbook =
        set_levels side (insert (before side) price l (levels side b)) (record started {
          limits = write b.limits l (some new_limit);
          unused = b.unused + 1 + 1;
        }) in
      let h : Limit = record {
        count = pos 1;
        head = b.unused;
        tail = b.unused;
        total_volume = volume;
      } in
      let b2 : Orderbook = record b1 { limits = write b1.limits l (some h) } in
      rw
        (
          update_limit-done b1 l new_limit limit_ne (write_self b.limits l _) (λ _. record {
            count = pos 1;
            head = b.unused;
            tail = b.unused;
            total_volume = volume;
          }),
          update_order-done b2 b.unused _ fresh_ne (write_self b.orders b.unused _)
              (λ o. record o { parentlimit = l }),
        )
        (ap₂ (λ os ls. done tt (record b1 { orders = os; limits = ls }))
          (write-write b.orders b.unused _ _)
          (write-write b.limits l _ _
            ∙ ap (λ v. write b.limits l (some (record h { total_volume = v })))
                (sym (+ℤ-zero volume))))

  pub rest_order-opened : rest_order side price volume order_id b ≡ done tt opened
  unfolding rest_order alloc_order
  rest_order-opened = rw (started_entry, open_level-done) refl
    where
      started_entry : find price (levels side started) ≡ none
      started_entry = entry
