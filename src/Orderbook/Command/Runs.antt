-- ===== src/Orderbook/Command/Runs.antt =====
-- What the commands on memory do at an address that holds an object.
use distributed_orderbook.Prelude.{Bool, ◌≡◌, ◌≢◌, some, none, ne→==}
use distributed_orderbook.Prelude.Int.{ℤ}
use distributed_orderbook.Prelude.Maps.{find, erase}
use distributed_orderbook.Orderbook.Types.{Ptr, null, Limit, Order, Orderbook, write}
use distributed_orderbook.Orderbook.Command.{
  done, load_order, load_limit, update_order, update_limit, delete_order, erase_level, levels,
  set_levels,
}

module _ (b : Orderbook) (p : Ptr) (o : Order) (valid : p ≢ null) (held : b.orders p ≡ some o) where
  pub load_order-done : load_order p b ≡ done o b
  unfolding load_order
  load_order-done = rw (ne→== p null valid, held)

  pub update_order-done :
      (f : Order → Order)
      → update_order p f b ≡ done tt (record b { orders = write b.orders p (some (f o)) })
  unfolding update_order
  update_order-done f = rw (load_order-done)

  pub delete_order-done : delete_order p b ≡ done tt (record b { orders = write b.orders p none })
  unfolding delete_order
  delete_order-done = rw (load_order-done)

module _ (b : Orderbook) (l : Ptr) (h : Limit) (valid : l ≢ null) (held : b.limits l ≡ some h) where
  pub load_limit-done : load_limit l b ≡ done h b
  unfolding load_limit
  load_limit-done = rw (ne→== l null valid, held)

  pub update_limit-done :
      (f : Limit → Limit)
      → update_limit l f b ≡ done tt (record b { limits = write b.limits l (some (f h)) })
  unfolding update_limit
  update_limit-done f = rw (load_limit-done)

pub erase_level-done :
    (b : Orderbook) (side : Bool) (price : ℤ) (l : Ptr)
    → find price (levels side b) ≡ some l
    → erase_level side price b
      ≡ done tt (
          set_levels side
            (erase price (levels side b))
            (record b { limits = write b.limits l none }))
unfolding erase_level
erase_level-done b side price l e = rw (e, erase_level)
