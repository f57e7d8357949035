-- ===== src/Orderbook/Rep.antt =====
-- The representation invariant of the order book: which queues of orders its maps, limits and
-- linked lists stand for.
pub mod Segments
pub mod Frame
pub mod Changes
pub mod Locate
pub mod Index
pub mod Resize
pub mod Unlink
pub mod Remove
pub mod CutOut
pub mod Enter
use distributed_orderbook.Prelude.{
  ℕ, ◌<◌, ◌≤◌, ◌≡◌, ◌≢◌, Bool, true, false, ◌&&◌, ◌||◌, Option, none, some, List, [], ◌∷◌, ◌==◌,
  if◌then◌else◌, length, All,
}
use distributed_orderbook.Prelude.Int.{ℤ, pos, ◌+ℤ◌, ◌<ℤ◌, eqb_ℤ}
use distributed_orderbook.Prelude.Maps.{find}
use distributed_orderbook.Orderbook.Types.{Ptr, null, Limit, Order, Orderbook}
use distributed_orderbook.Orderbook.Command.{levels}
use distributed_orderbook.Orderbook.Methods.{before}

-- A resting order: its address, its id and the shares that it has left.
pub record Cell : Type 0 where
  pub addr : Ptr
  pub order_id : ℤ
  pub volume : ℤ

-- The oldest order of a queue stands first. The address is what an empty list gives.
abbrev pub first : Ptr → List Cell → Ptr
first p [] = p
first p (c ∷ _) = c.addr

abbrev pub last : Ptr → List Cell → Ptr
last p [] = p
last p (c ∷ cs) = last c.addr cs

abbrev pub total : List Cell → ℤ
total [] = pos 0
total (c ∷ cs) = c.volume +ℤ total cs

abbrev pub has : Ptr → List Cell → Bool
has a [] = false
has a (c ∷ cs) = a == c.addr || has a cs

abbrev pub is_nil : List Cell → Bool
is_nil [] = true
is_nil (c ∷ cs) = false

-- The id of the order at an address of the queue
abbrev pub id_at : Ptr → List Cell → Option ℤ
id_at a [] = none
id_at a (c ∷ cs) = if a == c.addr then some c.order_id else id_at a cs

-- The node of an order in its list
abbrev pub node : Bool → ℤ → Ptr → Ptr → Cell → Ptr → Order
node side price l prev c next = record {
  price = price;
  volume = c.volume;
  order_id = c.order_id;
  side = side;
  order_arrival_time = pos 0;
  next = next;
  prev = prev;
  parentlimit = l;
}

abbrev pub limit_of : List Cell → Limit
limit_of cs = record {
  head = first null cs;
  tail = last null cs;
  count = pos (length cs);
  total_volume = total cs;
}

-- The nodes of a part of a doubly linked list, between the addresses `prev` and `after`: at
-- different addresses, each with shares left.
abbrev pub Segment : (Ptr → Option Order) → Bool → ℤ → Ptr → Ptr → Ptr → List Cell → Type 0
Segment h side price l prev after [] = Unit
Segment h side price l prev after (c ∷ cs) =
    (c.addr ≢ null)
    × (has c.addr cs ≡ false)
    × (pos 0 <ℤ c.volume)
    × (h c.addr ≡ some (node side price l prev c (first after cs)))
    × Segment h side price l c.addr after cs

-- What the entry of a price in a side's map says of the queue at that price. A price with no order
-- has no entry.
abbrev pub Level : Orderbook → Bool → ℤ → Option Ptr → List Cell → Type 0
Level b side price none cs = cs ≡ []
Level b side price (some l) cs =
    (cs ≢ [])
    × (l ≢ null)
    × (b.limits l ≡ some (limit_of cs))
    × Segment b.orders side price l null null cs

-- The prices of a side's map, each before all that follow
abbrev pub Ordered : (ℤ → ℤ → Bool) → List (ℤ × Ptr) → Type 0
Ordered lt [] = Unit
Ordered lt ((p, _) ∷ m) = All (λ (e : ℤ × Ptr). lt p e.0 ≡ true) m × Ordered lt m

-- The queues of all prices of both sides
abbrev pub Queues : Type 0
Queues = Bool → ℤ → List Cell

abbrev pub same_side : Bool → Bool → Bool
same_side true true = true
same_side false false = true
same_side _ _ = false

abbrev pub same_level : Bool → ℤ → Bool → ℤ → Bool
same_level side price side' price' = same_side side side' && eqb_ℤ price price'

abbrev pub put_queue : Queues → Bool → ℤ → List Cell → Queues
put_queue queues side price cs side' price' =
    if same_level side price side' price' then cs else queues side' price'

-- The order that `global_map` gives for an id is a resting order with that id.
abbrev pub Resting : Queues → ℤ → Ptr → Type 0
Resting queues order_id p =
    (side : Bool) × (price : ℤ) × (id_at p (queues side price) ≡ some order_id)

pub record Rep (b : Orderbook) (queues : Queues) : Type 0 where
  pub level :
      (side : Bool) (price : ℤ)
      → Level b side price (find price (levels side b)) (queues side price)
  pub ordered : (side : Bool) → Ordered (before side) (levels side b)
  pub indexed :
      (order_id : ℤ) (p : Ptr) → find order_id b.global_map ≡ some p → Resting queues order_id p
  pub fresh : (a : Ptr) → b.unused ≤ a → (b.orders a ≡ none) × (b.limits a ≡ none)
  pub nonnull : 0 < b.unused
