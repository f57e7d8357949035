-- ===== src/Orderbook/Command.antt =====
-- Commands over the orderbook's state and memory: what a C++ statement does, or the fault that it
-- is. A fault stands for undefined behaviour: a null or dangling pointer is followed or freed.
pub mod Runs
pub mod Sequence
use distributed_orderbook.Prelude.{
  ◌+◌, Bool, true, false, Option, none, some, List, ◌==◌, if◌then◌else◌,
}
use distributed_orderbook.Prelude.Int.{ℤ}
use distributed_orderbook.Prelude.Maps.{find, erase}
use distributed_orderbook.Orderbook.Types.{Ptr, null, Limit, Order, new_limit, Orderbook, write}

pub data Run (A : Type 0) : Type 0 where
  done : A → Orderbook → Run A
  fault : Run A
  out_of_fuel : Run A

abbrev pub Command : Type 0 → Type 0
Command A = Orderbook → Run A

abbrev pub pure : {A : Type 0} → A → Command A
pure = done

module _ {A B : Type 0} where
  abbrev pub and_then : Run A → (A → Command B) → Run B
  and_then (done a b) k = k a b
  and_then fault k = fault
  and_then out_of_fuel k = out_of_fuel

  infixl 5 ◌>>=◌ ◌>>◌
  abbrev pub ◌>>=◌ : Command A → (A → Command B) → Command B
  m >>= k = λ b. and_then (m b) k

  abbrev pub ◌>>◌ : Command A → Command B → Command B
  m >> n = m >>= λ _. n

-- A member of the class is read or written.
abbrev pub get : Command Orderbook
get b = done b b

abbrev pub put : Orderbook → Command (Unit {0})
put b _ = done tt b

abbrev pub deref : {A : Type 0} → Option A → Command A
deref none = λ _. fault
deref (some a) = pure a

-- `*p` for an order and for a limit
unfoldable pub load_order : Ptr → Command Order
load_order p b = if p == null then fault else deref (b.orders p) b

unfoldable pub load_limit : Ptr → Command Limit
load_limit l b = if l == null then fault else deref (b.limits l) b

-- Assignments to fields of `*p`
unfoldable pub update_order : Ptr → (Order → Order) → Command (Unit {0})
unfolding load_order
update_order p f b =
    and_then (load_order p b)
      λ o b'. done tt (record b' { orders = write b'.orders p (some (f o)) })

unfoldable pub update_limit : Ptr → (Limit → Limit) → Command (Unit {0})
unfolding load_limit
update_limit l f b =
    and_then (load_limit l b)
      λ o b'. done tt (record b' { limits = write b'.limits l (some (f o)) })

-- `new Order{...}` and `std::make_unique<Limit>()`
unfoldable pub alloc_order : Order → Command Ptr
alloc_order o b =
    done b.unused (record b { orders = write b.orders b.unused (some o); unused = b.unused + 1 })

unfoldable pub alloc_limit : Command Ptr
alloc_limit b =
    done b.unused
      (record b { limits = write b.limits b.unused (some new_limit); unused = b.unused + 1 })

-- `delete order`
unfoldable pub delete_order : Ptr → Command (Unit {0})
unfolding load_order
delete_order p b =
    and_then (load_order p b) λ _ b'. done tt (record b' { orders = write b'.orders p none })

-- `global_map.erase(order_id)`
unfoldable pub erase_id : ℤ → Command (Unit {0})
erase_id order_id b = done tt (record b { global_map = erase order_id b.global_map })

-- The ordered map that holds the resting orders of a side: sells rest in `asks`, buys in `bids`.
abbrev pub levels : Bool → Orderbook → List (ℤ × Ptr)
levels side b = if side then b.asks else b.bids

abbrev pub set_levels : Bool → List (ℤ × Ptr) → Orderbook → Orderbook
set_levels side m b = record b {
  asks = if side then m else b.asks;
  bids = if side then b.bids else m;
}

-- `bids.erase(price)` and `asks.erase(price)`: the entry goes, and with it the limit that it owns.
unfoldable pub erase_level : Bool → ℤ → Command (Unit {0})
erase_level side price b = elim (find price (levels side b)) [
  | none ↦ done tt b
  | some l ↦
      done tt (
        set_levels side (erase price (levels side b)) (record b { limits = write b.limits l none }))
]

abbrev pub unless_null : Ptr → Command (Unit {0}) → Command (Unit {0})
unless_null p m = if p == null then pure tt else m
