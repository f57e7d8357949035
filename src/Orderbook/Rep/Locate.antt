-- ===== src/Orderbook/Rep/Locate.antt =====
-- The place of an order in its queue, and what the methods do to the queue there.
use distributed_orderbook.Prelude.{
  ◌≡◌, none, Option, Bool, refl, sym, ap, ◌∙◌, false, some, List, [], ◌∷◌, ◌++◌, arith, ◌==◌, inl,
  inr, Bool-cases, ==→eq, ==-refl, if◌then◌else◌,
}
use distributed_orderbook.Prelude.Int.{ℤ, ◌+ℤ◌, int_laws, +ℤ_assoc}
use mathlib.Core.Path.{subst}
use mathlib.Core.Logic.{◌≢◌}
use distributed_orderbook.Prelude.Maps.{find}
use distributed_orderbook.Orderbook.Types.{Ptr, null, Orderbook}
use distributed_orderbook.Orderbook.Command.{levels}
use distributed_orderbook.Orderbook.Rep.Frame.{Rep-entry}
use distributed_orderbook.Orderbook.Rep.{
  Cell, has, id_at, total, limit_of, Segment, Level, Queues, Rep,
}

pub append-ne-nil : (xs : List Cell) (c : Cell) (ys : List Cell) → xs ++ c ∷ ys ≢ []
append-ne-nil [] c ys e = cc
append-ne-nil (x ∷ xs) c ys e = cc

pub record Located (p : Ptr) (order_id : ℤ) (cs : List Cell) : Type 0 where
  pub older : List Cell
  pub cell : Cell
  pub younger : List Cell
  pub split : cs ≡ older ++ cell ∷ younger
  pub here : cell.addr ≡ p
  pub known : cell.order_id ≡ order_id
  pub passed : has p older ≡ false

pub locate :
    (p : Ptr) (order_id : ℤ) (cs : List Cell) → id_at p cs ≡ some order_id → Located p order_id cs
locate p order_id [] h = cc
locate p order_id (c ∷ cs) h = elim (Bool-cases (p == c.addr)) [
  | inl e ↦ record {
    older = [];
    cell = c;
    younger = cs;
    split = refl;
    here = sym (==→eq p c.addr e);
    known = ground arith;
    passed = refl;
  }
  | inr e ↦
      let r = locate p order_id cs (rw e at h) in
      record {
        older = c ∷ r.older;
        cell = r.cell;
        younger = r.younger;
        split = ap (λ t. c ∷ t) r.split;
        here = r.here;
        known = r.known;
        passed = rw e r.passed;
      }
]

-- The queue with the order at `p` at a new volume, and without that order
unfoldable pub set_volume : Ptr → ℤ → List Cell → List Cell
set_volume p volume [] = []
set_volume p volume (c ∷ cs) =
    let rest = set_volume p volume cs in
    if p == c.addr then record c { volume = volume } ∷ cs else c ∷ rest

unfoldable pub remove : Ptr → List Cell → List Cell
remove p [] = []
remove p (c ∷ cs) = let rest = remove p cs in if p == c.addr then cs else c ∷ rest

module _ (p : Ptr) (c : Cell) (ys : List Cell) (here : c.addr ≡ p) where
  pub set_volume-split :
      (volume : ℤ) (xs : List Cell)
      → has p xs ≡ false
      → set_volume p volume (xs ++ c ∷ ys) ≡ xs ++ record c { volume = volume } ∷ ys
  unfolding set_volume
  set_volume-split volume [] out = rw (here, ==-refl p)
  set_volume-split volume (x ∷ xs) out = ground (arith, set_volume-split volume xs)

  pub remove-split : (xs : List Cell) → has p xs ≡ false → remove p (xs ++ c ∷ ys) ≡ xs ++ ys
  unfolding remove
  remove-split [] out = rw (here, ==-refl p)
  remove-split (x ∷ xs) out = ground (arith, remove-split xs)

pub total-append : (xs ys : List Cell) → total (xs ++ ys) ≡ total xs +ℤ total ys
total-append [] ys = omega int_laws
total-append (x ∷ xs) ys =
    ap (λ t. x.volume +ℤ t) (total-append xs ys) ∙ sym (+ℤ_assoc x.volume (total xs) (total ys))

-- What a well-formed book says of an order that `global_map` has.
pub record Place (b : Orderbook) (queues : Queues) (order_id : ℤ) (p : Ptr) : Type 0 where
  pub side : Bool
  pub price : ℤ
  pub l : Ptr
  pub spot : Located p order_id (queues side price)
  pub entry : find price (levels side b) ≡ some l
  pub valid : l ≢ null
  pub limit : b.limits l ≡ some (limit_of (spot.older ++ spot.cell ∷ spot.younger))
  pub list : Segment b.orders side price l null null (spot.older ++ spot.cell ∷ spot.younger)

module _ {b : Orderbook} {queues : Queues} (rep : Rep b queues) where
  Rep-place_at :
      (order_id : ℤ) (p : Ptr) (side : Bool) (price : ℤ) (entry : Option Ptr)
      → find price (levels side b) ≡ entry
      → Located p order_id (queues side price)
      → Place b queues order_id p
  Rep-place_at order_id p side price none e spot = absurd (
      append-ne-nil spot.older spot.cell spot.younger
        (sym spot.split ∙ Rep-entry rep side price none e))
  Rep-place_at order_id p side price (some l) e spot =
      let v =
        subst (Level b side price (some l)) spot.split (Rep-entry rep side price (some l) e) in
      record {
        side = side;
        price = price;
        l = l;
        spot = spot;
        entry = e;
        valid = v.1;
        limit = v.2;
        list = v.3;
      }

  pub Rep-place :
      (order_id : ℤ) (p : Ptr) → find order_id b.global_map ≡ some p → Place b queues order_id p
  Rep-place order_id p mapped =
      let (side, price, at_p) = rep.indexed order_id p mapped in
      Rep-place_at order_id p side price (find price (levels side b)) refl
        (locate p order_id (queues side price) at_p)
