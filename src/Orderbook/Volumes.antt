-- ===== src/Orderbook/Volumes.antt =====
-- The volume that the specification finds for an order is that of the order's node.
use distributed_orderbook.Prelude.{
  ◌≡◌, refl, ap, ap₂, ◌∙◌, Bool, true, false, none, some, List, [], ◌∷◌, inl, inr, Bool-cases,
}
use distributed_orderbook.Prelude.Int.{ℤ, eqb_ℤ, eqb_ℤ→eq}
use distributed_orderbook.Prelude.Maps.{find}
use distributed_orderbook.Orderbook.Types.{Ptr, Orderbook}
use distributed_orderbook.Orderbook.Command.{levels}
use distributed_orderbook.Orderbook.Rep.{Cell, has, same_level, Queues, Rep}
use distributed_orderbook.Orderbook.Rep.Locate.{Place}
use distributed_orderbook.Orderbook.Match.Levels.{view}
use distributed_orderbook.Orderbook.Match.Refine.{book_of}
use distributed_orderbook.Orderbook.Views.{absent, other_price}
use distributed_orderbook.Orderbook.Views.Prices.{volume_in-absent, volume_in-split}
use distributed_orderbook.Book.Changes.{volume_in, volume_on, volume_of, or_else}

module _ (p : Ptr) (queue : ℤ → List Cell) where
  volume_on-none :
      ((q : ℤ) → has p (queue q) ≡ false) → (m : List (ℤ × Ptr)) → volume_on p (view queue m) ≡ none
  volume_on-none out [] = refl
  volume_on-none out ((q, l) ∷ m) =
      ap₂ or_else (volume_in-absent p (queue q) (out q)) (volume_on-none out m)

  volume_on-at :
      (price v : ℤ) (l : Ptr)
      → volume_in p (queue price) ≡ some v
      → ((q : ℤ) → eqb_ℤ q price ≡ false → has p (queue q) ≡ false)
      → (m : List (ℤ × Ptr)) → find price m ≡ some l
      → volume_on p (view queue m) ≡ some v
  unfolding find
  volume_on-at price v l own out [] known = cc
  volume_on-at price v l own out ((q, k) ∷ m) known = elim (Bool-cases (eqb_ℤ q price)) [
    | inl e ↦
        ap (λ o. or_else o (volume_on p (view queue m)))
          (ap (λ x. volume_in p (queue x)) (eqb_ℤ→eq q price e) ∙ own)
    | inr e ↦
        ap₂ or_else (volume_in-absent p (queue q) (out q e))
          (volume_on-at price v l own out m (rw e at known))
  ]

module _ {b : Orderbook} {queues : Queues} (rep : Rep b queues) {order_id : ℤ} {p : Ptr}
    (place : Place b queues order_id p) where
  open place.spot use {older, cell, younger, here, split, passed}

  own_volume : volume_in p (queues place.side place.price) ≡ some cell.volume
  own_volume = ap (volume_in p) split ∙ volume_in-split p older cell younger passed here

  on_own_side : volume_on p (view (queues place.side) (levels place.side b)) ≡ some cell.volume
  on_own_side =
      volume_on-at p (queues place.side) place.price cell.volume place.l own_volume
        (λ q e. absent rep place place.side q (other_price place.side place.price q e))
        (levels place.side b) place.entry

  volume_at :
      (side : Bool)
      → place.side ≡ side
      → volume_on p (view (queues side) (levels side b)) ≡ some cell.volume
      → volume_of p (book_of b queues) ≡ some cell.volume
  volume_at true is own = ap (λ o. or_else o (volume_on p (view (queues false) b.bids))) own
  volume_at false is own =
      ap₂ or_else
        (volume_on-none p (queues true)
          (λ q. absent rep place true q (ap (λ s. same_level s place.price true q) is)) b.asks)
        own

  pub volume_of-place : volume_of p (book_of b queues) ≡ some cell.volume
  volume_of-place = volume_at place.side refl on_own_side
