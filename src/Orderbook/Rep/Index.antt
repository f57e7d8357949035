-- ===== src/Orderbook/Rep/Index.antt =====
-- What a change of one queue means for the orders that `global_map` has.
use mathlib.Core.Path.{fun_ext}
use distributed_orderbook.Prelude.{
  ◌≡◌, ◌≢◌, refl, sym, ap, ◌∙◌, Bool, Option, none, some, List, [], ◌∷◌, arith, inl, inr,
  Bool-cases,
}
use distributed_orderbook.Prelude.Int.{ℤ}
use distributed_orderbook.Orderbook.Types.{Ptr, write}
use distributed_orderbook.Orderbook.Rep.{Cell, id_at, Queues, same_level, put_queue, Resting}
use distributed_orderbook.Orderbook.Rep.Frame.{same_level→eq, same_level_refl}
use distributed_orderbook.Orderbook.Rep.Changes.{write_ne}
use distributed_orderbook.Orderbook.Rep.Locate.{set_volume, remove}

-- An order rests on if its own queue still has it.
pub Resting-put :
    (queues : Queues) (side : Bool) (price : ℤ) (cs : List Cell) (order_id : ℤ) (p : Ptr)
    → (id_at p (queues side price) ≡ some order_id → id_at p cs ≡ some order_id)
    → Resting queues order_id p
    → Resting (put_queue queues side price cs) order_id p
Resting-put queues side price cs order_id p keep (side', price', h) =
    elim (Bool-cases (same_level side price side' price')) [
      | inl e ↦
          let (s, q) = same_level→eq side price side' price' e in
          (side', price', rw e (keep (rw (← s, ← q) at h)))
      | inr e ↦ (side', price', rw e h)
    ]

pub id_at-set_volume :
    (p : Ptr) (volume : ℤ) (a : Ptr) (cs : List Cell)
    → id_at a (set_volume p volume cs) ≡ id_at a cs
unfolding set_volume
id_at-set_volume p volume a [] = refl
id_at-set_volume p volume a (c ∷ cs) = ground (arith, id_at-set_volume p volume a cs)

pub id_at-remove : (p a : Ptr) (cs : List Cell) → a ≢ p → id_at a (remove p cs) ≡ id_at a cs
unfolding remove
id_at-remove p a [] ne = refl
id_at-remove p a (c ∷ cs) ne = ground (arith, id_at-remove p a cs)

-- Memory that is not in use stays so under a write to an object.
pub write-unused {ℓ} :
    {A : Type ℓ} (h : Ptr → Option A) (p a : Ptr) (o : A) (c : Option A)
    → h p ≡ some o
    → h a ≡ none
    → write h p c a ≡ none
write-unused h p a o c held unused =
    write_ne h p c a (λ e. cc (sym held ∙ ap h (sym e) ∙ unused)) ∙ unused

pub put_queue-at :
    (queues : Queues) (side : Bool) (price : ℤ) (cs : List Cell)
    → put_queue queues side price cs side price ≡ cs
put_queue-at queues side price cs = rw (same_level_refl side price)

pub put_queue_self :
    (queues : Queues) (side : Bool) (price : ℤ) (cs : List Cell)
    → queues side price ≡ cs
    → put_queue queues side price cs ≡ queues
put_queue_self queues side price cs e = fun_ext (λ side'. fun_ext (λ price'.
    elim (Bool-cases (same_level side price side' price')) [
      | inl same ↦
          let (s, p) = same_level→eq side price side' price' same in rw (same, ← s, ← p) (sym e)
      | inr apart ↦ rw apart
    ]))

pub put_queue-put_queue :
    (queues : Queues) (side : Bool) (price : ℤ) (cs ds : List Cell)
    → put_queue (put_queue queues side price cs) side price ds ≡ put_queue queues side price ds
put_queue-put_queue queues side price cs ds = fun_ext (λ side'. fun_ext (λ price'.
    elim (Bool-cases (same_level side price side' price')) [ inl e ↦ rw e | inr e ↦ rw e ]))
