-- ===== src/Orderbook/Types.antt =====
-- The data of Core_Infra/orderbook.hpp, with the heap that its pointers point into.
use distributed_orderbook.Prelude.{◌≡◌, ℕ, Bool, Option, none, List, [], ◌==◌, if◌then◌else◌}
use distributed_orderbook.Prelude.Int.{ℤ, pos}

-- An address. 0 is `nullptr`.
abbrev pub Ptr : Type 0
Ptr = ℕ

abbrev pub null : Ptr
null = 0

pub record Fill : Type 0 where
  pub price : ℤ
  pub volume : ℤ
  pub timestamp : ℤ

pub record OrderResult : Type 0 where
  pub order_id : ℤ
  pub fulfilled : Bool
  pub remaining_qty : ℤ
  pub trades : List Fill

-- One price level: a doubly linked list of orders.
pub record Limit : Type 0 where
  pub head : Ptr
  pub tail : Ptr
  pub count : ℤ
  pub total_volume : ℤ

-- `side` is true for a sell order and false for a buy order.
pub record Order : Type 0 where
  pub price : ℤ
  pub volume : ℤ
  pub order_id : ℤ
  pub side : Bool
  pub order_arrival_time : ℤ
  pub next : Ptr
  pub prev : Ptr
  pub parentlimit : Ptr

-- `Limit()`, with the defaults of its fields
abbrev pub new_limit : Limit
new_limit = record { head = null; tail = null; count = pos 0; total_volume = pos 0 }

-- `Order{price, volume, orderID, side}`, with the defaults of the other fields
abbrev pub new_order : ℤ → ℤ → ℤ → Bool → Order
new_order price volume order_id side = record {
  price = price;
  volume = volume;
  order_id = order_id;
  side = side;
  order_arrival_time = pos 0;
  next = null;
  prev = null;
  parentlimit = null;
}

-- The maps of the class, and the memory that their pointers point into. `asks` lists the entries of
-- the ordered map from `begin()` and `bids` from `rbegin()`, so that each starts with its best price.
-- Addresses from `unused` on have not been given out by `new`.
pub record Orderbook : Type 0 where
  pub global_map : List (ℤ × Ptr)
  pub bids : List (ℤ × Ptr)
  pub asks : List (ℤ × Ptr)
  pub orders : Ptr → Option Order
  pub limits : Ptr → Option Limit
  pub unused : Ptr

-- `Orderbook()`: no order, and nothing in memory
abbrev pub empty_book : Orderbook
empty_book = record {
  global_map = [];
  bids = [];
  asks = [];
  orders = λ _. none;
  limits = λ _. none;
  unused = 1;
}

-- A write to one address; `none` gives the memory back.
unfoldable pub write {ℓ} : {A : Type ℓ} → (Ptr → Option A) → Ptr → Option A → Ptr → Option A
write h p c a = if a == p then c else h a

pub Limit-eq :
    {h h' : Limit}
    → h.head ≡ h'.head
    → h.tail ≡ h'.tail
    → h.count ≡ h'.count
    → h.total_volume ≡ h'.total_volume
    → h ≡ h'
Limit-eq p q r s = λ i. record { head = p i; tail = q i; count = r i; total_volume = s i }
