-- ===== src/Orderbook/Rep/CutOut.antt =====
-- The book that `cancel` and a whole fill leave: with the limit of the order kept, if the level has
-- other orders, and with the level closed if not.
use mathlib.Core.Path.{subst, fun_ext}
use distributed_orderbook.Prelude.{
  ◌≡◌, ◌≢◌, refl, sym, ◌∙◌, Bool, true, false, Option, none, some, List, [], ◌∷◌, ◌++◌, ◌==◌, inl,
  inr, Bool-cases, if◌then◌else◌, if_true, if_false, All,
}
use distributed_orderbook.Prelude.Int.{ℤ, eqb_ℤ}
use distributed_orderbook.Prelude.Maps.{find, erase, find-erase}
use distributed_orderbook.Orderbook.Types.{Ptr, Orderbook, write}
use distributed_orderbook.Orderbook.Command.{levels, set_levels}
use distributed_orderbook.Orderbook.Methods.{before}
use distributed_orderbook.Orderbook.Rep.{limit_of, Level, Queues, Rep, same_level, Ordered}
use distributed_orderbook.Orderbook.Rep.Changes.{write_self, write_ne}
use distributed_orderbook.Orderbook.Rep.Locate.{Place}
use distributed_orderbook.Orderbook.Rep.Unlink.{unlinked, Segment-unlinked}
use distributed_orderbook.Orderbook.Rep.Frame.{same_level_refl}
use distributed_orderbook.Orderbook.Rep.Remove.{Removes}

pub write-write {ℓ} :
    {A : Type ℓ} (h : Ptr → Option A) (p : Ptr) (o o' : Option A)
    → write (write h p o) p o' ≡ write h p o'
unfolding write
write-write h p o o' = fun_ext (λ a. elim (Bool-cases (a == p)) [ inl e ↦ rw e | inr e ↦ rw e ])

pub All-erase : (P : ℤ × Ptr → Type 0) (k : ℤ) (m : List (ℤ × Ptr)) → All P m → All P (erase k m)
unfolding erase
All-erase P k [] h = tt
All-erase P k ((j, l) ∷ m) h = elim (Bool-cases (eqb_ℤ j k)) [
  | inl e ↦ rw e (All-erase P k m h.1)
  | inr e ↦ rw e (h.0, All-erase P k m h.1)
]

pub Ordered-erase :
    (lt : ℤ → ℤ → Bool) (k : ℤ) (m : List (ℤ × Ptr)) → Ordered lt m → Ordered lt (erase k m)
unfolding erase
Ordered-erase lt k [] h = tt
Ordered-erase lt k ((j, l) ∷ m) h = elim (Bool-cases (eqb_ℤ j k)) [
  | inl e ↦ rw e (Ordered-erase lt k m h.1)
  | inr e ↦ rw e (All-erase _ k m h.0, Ordered-erase lt k m h.1)
]

pub find-erase_level :
    (b : Orderbook) (side : Bool) (price : ℤ) (side' : Bool) (price' : ℤ)
    → find price' (levels side' (set_levels side (erase price (levels side b)) b))
      ≡ (if same_level side price side' price' then none else find price' (levels side' b))
find-erase_level b true price true price' = find-erase price price' b.asks
find-erase_level b true price false price' = refl
find-erase_level b false price true price' = refl
find-erase_level b false price false price' = find-erase price price' b.bids

Ordered-erase_level :
    (b : Orderbook) (side : Bool) (price : ℤ)
    → ((side' : Bool) → Ordered (before side') (levels side' b))
    → (side' : Bool)
    → Ordered (before side') (levels side' (set_levels side (erase price (levels side b)) b))
Ordered-erase_level b true price h true = Ordered-erase (before true) price b.asks (h true)
Ordered-erase_level b true price h false = h false
Ordered-erase_level b false price h true = h true
Ordered-erase_level b false price h false = Ordered-erase (before false) price b.bids (h false)

module _ {b : Orderbook} {queues : Queues} (rep : Rep b queues) {order_id : ℤ} {p : Ptr}
    (place : Place b queues order_id p) where
  open place use {side, price, l, spot, entry, valid, list}
  open spot use {older, cell, younger}

  -- The book when the order is unlinked and deleted, and its limit is up to date
  abbrev pub cut_out : Orderbook
  cut_out = record b {
    orders = unlinked b.orders older cell younger;
    limits = write b.limits l (some (limit_of (older ++ younger)));
    global_map = erase order_id b.global_map;
  }

  -- The book when that was the last order of its level
  abbrev pub closed : Orderbook
  closed = set_levels side (erase price (levels side b)) (record b {
    orders = unlinked b.orders older cell younger;
    limits = write b.limits l none;
    global_map = erase order_id b.global_map;
  })

  pub cut_out-Removes : older ++ younger ≢ [] → Removes place cut_out
  cut_out-Removes some_left = record {
    orders = refl;
    limits = λ a ne. write_ne b.limits l _ a ne;
    entries = λ side' price' _. refl;
    own =
        subst (λ e. Level cut_out side price e (older ++ younger)) (sym entry)
          (
            some_left,
            valid,
            write_self b.limits l _,
            Segment-unlinked b.orders side price l older cell younger list,
          );
    ordered = rep.ordered;
    index = refl;
    unused = refl;
  }

  pub closed-Removes : older ++ younger ≡ [] → Removes place closed
  closed-Removes none_left = record {
    orders = refl;
    limits = λ a ne. write_ne b.limits l _ a ne;
    entries = λ side' price' apart.
        find-erase_level b side price side' price'
        ∙ if_false _ none (find price' (levels side' b)) apart;
    own =
        subst (λ e. Level closed side price e (older ++ younger))
          (sym (
            find-erase_level b side price side price
            ∙ if_true _ none (find price (levels side b)) (same_level_refl side price)))
          none_left;
    ordered = Ordered-erase_level b side price rep.ordered;
    index = refl;
    unused = refl;
  }
