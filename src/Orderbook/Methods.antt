-- ===== src/Orderbook/Methods.antt =====
-- The methods of `Orderbook` in Core_Infra/orderbook.cpp, statement by statement. The two branches
-- of `match` mirror each other, and are one definition over `side`.
use distributed_orderbook.Prelude.{
  ℕ, zero, suc, Bool, true, false, not, ◌&&◌, none, some, [], ◌∷◌, ◌++◌, ◌==◌, if◌then◌else◌,
  length,
}
use distributed_orderbook.Prelude.Int.{ℤ, pos, pos_part, ◌+ℤ◌, ◌-ℤ◌, ltb_ℤ, leb_ℤ, eqb_ℤ}
use distributed_orderbook.Prelude.Maps.{find, assign, insert}
use distributed_orderbook.Orderbook.Types.{Ptr, null, Fill, OrderResult, new_order}
use distributed_orderbook.Orderbook.Command.{
  done, out_of_fuel, Command, pure, ◌>>=◌, ◌>>◌, get, put, load_order, load_limit, update_order,
  update_limit, alloc_order, alloc_limit, delete_order, erase_id, levels, set_levels, erase_level,
  unless_null,
}

-- What the loops of `match` end with: a `return`, or the values of `volume` and `res`.
pub data Exit : Type 0 where
  returned : OrderResult → Exit
  left : ℤ → OrderResult → Exit

abbrev pub fill : ℤ → ℤ → ℤ → Fill
fill price volume time = record { price = price; volume = volume; timestamp = time }

-- Does an incoming order of a side trade at the best opposite price?
unfoldable pub crosses : Bool → ℤ → ℤ → Bool
crosses true price best = leb_ℤ price best
crosses false price best = leb_ℤ best price

-- The comparison that orders the map of a side as it is listed: the best price first.
unfoldable pub before : Bool → ℤ → ℤ → Bool
before true p q = ltb_ℤ p q
before false p q = ltb_ℤ q p

-- `current_order.volume > volume`: the resting order keeps the rest.
unfoldable pub fill_part : Ptr → Ptr → ℤ → ℤ → OrderResult → Command Exit
fill_part l p time volume res = do
  o ← load_order p
  update_order p λ c. record c { volume = c.volume -ℤ volume }
  update_limit l λ h. record h { total_volume = h.total_volume -ℤ volume }
  pure (
      returned (record res {
        fulfilled = true;
        remaining_qty = pos 0;
        trades = res.trades ++ fill o.price volume time ∷ [];
      }))

-- The other case: the head order is taken whole, unlinked and deleted.
unfoldable pub fill_whole : Ptr → Ptr → ℤ → OrderResult → Command OrderResult
fill_whole l p time res = do
  o ← load_order p
  update_limit l λ h. record h {
    count = h.count -ℤ pos 1;
    total_volume = h.total_volume -ℤ o.volume;
    head = o.next;
  }
  unless_null o.next (update_order o.next λ n. record n { prev = null })
  erase_id o.order_id
  delete_order p
  pure (record res {
    remaining_qty = res.remaining_qty -ℤ o.volume;
    trades = res.trades ++ fill o.price o.volume time ∷ [];
  })

-- The inner loop of `match`, over the orders of the best opposite level.
unfoldable pub take_limit : ℕ → Bool → ℤ → Ptr → ℤ → ℤ → OrderResult → Command Exit
take_limit zero side best l time volume res = λ _. out_of_fuel
take_limit (suc k) side best l time volume res = do
  lim ← load_limit l
  if ltb_ℤ (pos 0) lim.count && ltb_ℤ (pos 0) volume
      then (do
        o ← load_order lim.head
        if ltb_ℤ volume o.volume then fill_part l lim.head time volume res else (do
          res' ← fill_whole l lim.head time res
          lim' ← load_limit l
          if eqb_ℤ lim'.count (pos 0)
              then (do erase_level (not side) best; pure (left (volume -ℤ o.volume) res'))
              else take_limit k side best l time (volume -ℤ o.volume) res'))
      else pure (left volume res)

-- The outer loop, over the levels that cross. A level is given a round more than its count.
unfoldable pub take_levels : ℕ → Bool → ℤ → ℤ → ℤ → OrderResult → Command Exit
take_levels zero side price time volume res b = out_of_fuel
take_levels (suc k) side price time volume res b = elim (levels (not side) b) [
  | [] ↦ done (left volume res) b
  | (best, l) ∷ _ ↦
      (if crosses side price best && ltb_ℤ (pos 0) volume
          then (do
            lim ← load_limit l
            exit ← take_limit (suc (pos_part lim.count)) side best l time volume res
            elim exit [
              | returned r ↦ pure (returned r)
              | left v r ↦ take_levels k side price time v r
            ])
          else pure (left volume res))
        b
]

-- The end of the queue at a price that the side's map has
unfoldable pub enqueue : Ptr → Ptr → ℤ → Command (Unit {0})
enqueue l new volume = do
  update_limit l λ h. record h { count = h.count +ℤ pos 1 }
  lim ← load_limit l
  update_order lim.tail λ o. record o { next = new }
  update_order new λ o. record o { prev = lim.tail }
  update_limit l λ h. record h { tail = new; total_volume = h.total_volume +ℤ volume }
  update_order new λ o. record o { parentlimit = l }

-- A new level for a price that the side's map lacks
unfoldable pub open_level : Bool → ℤ → Ptr → ℤ → Command (Unit {0})
open_level side price new volume = do
  l ← alloc_limit
  b ← get
  put (set_levels side (insert (before side) price l (levels side b)) b)
  update_limit l λ h. record { count = pos 1; head = new; tail = new; total_volume = volume }
  update_order new λ o. record o { parentlimit = l }

-- The part of `match` behind its loops: what is left of the order rests on its own side.
unfoldable pub rest_order : Bool → ℤ → ℤ → ℤ → Command (Unit {0})
rest_order side price volume order_id = do
  new ← alloc_order (new_order price volume order_id side)
  b ← get
  elim (find price (levels side b)) [
    | some l ↦ enqueue l new volume
    | none ↦ open_level side price new volume
  ]
  b' ← get
  put (record b' { global_map = assign order_id new b'.global_map })

unfoldable pub match : ℤ → ℤ → Bool → ℤ → ℤ → Command OrderResult
match price volume side time order_id = do
  b ← get
  let res : OrderResult = record {
    order_id = order_id;
    fulfilled = false;
    remaining_qty = volume;
    trades = [];
  }
  exit ← take_levels (suc (length (levels (not side) b))) side price time volume res
  elim exit [
    | returned r ↦ pure r
    | left v r ↦
        if ltb_ℤ (pos 0) v
        then (do rest_order side price v order_id; pure r)
        else pure (record r { fulfilled = true })
  ]

unfoldable pub place_order : ℤ → ℤ → Bool → ℤ → ℤ → ℤ → Command (OrderResult × ℤ)
place_order price volume side time order_id gateway_id = do
  res ← match price volume side time order_id
  pure (res, gateway_id)

-- `cancel` for an order that `global_map` has
unfoldable pub unlink_order : ℤ → Ptr → Command Bool
unlink_order order_id p = do
  o ← load_order p
  unless_null o.prev (update_order o.prev λ n. record n { next = o.next })
  o' ← load_order p
  unless_null o'.next (update_order o'.next λ n. record n { prev = o'.prev })
  o'' ← load_order p
  update_limit o.parentlimit λ h. record {
    head = if h.head == p then o''.next else h.head;
    tail = if h.tail == p then o''.prev else h.tail;
    count = h.count -ℤ pos 1;
    total_volume = h.total_volume -ℤ o''.volume;
  }
  erase_id order_id
  delete_order p
  lim ← load_limit o.parentlimit
  if eqb_ℤ lim.count (pos 0) then erase_level o''.side o.price else pure tt
  pure true

unfoldable pub cancel : ℤ → Command Bool
cancel order_id b = elim (find order_id b.global_map) [
  | none ↦ done false b
  | some p ↦ unlink_order order_id p b
]

unfoldable pub modify : ℤ → ℤ → Command Bool
modify order_id new_size b = elim (find order_id b.global_map) [
  | none ↦ done false b
  | some p ↦
      (if leb_ℤ new_size (pos 0) then pure false else (do
        o ← load_order p
        if leb_ℤ o.volume new_size then pure false else (do
          update_order p λ c. record c { volume = new_size }
          update_limit o.parentlimit
              λ h. record h { total_volume = h.total_volume -ℤ (o.volume -ℤ new_size) }
          pure true)))
        b
]
