-- ===== src/RingBuffer/Slots.antt =====
-- The slots of a ring: what a write to one of them does to the others.
use native.Mathlib.Nat.{mod-lt}
use distributed_orderbook.Prelude.{
  ℕ, ◌+◌, ◌-◌, ◌%◌, ◌^◌, ◌<◌, bit_and, ◌≡◌, ◌≢◌, sym, ap, ◌∙◌, List, arith, inl, inr, Bool-cases,
  ltb, ltb→lt, length, get_or, set, get_or-set_self, get_or-set_ne,
}
use distributed_orderbook.Prelude.Bits.{bit_and_mask, pow_pos}
use distributed_orderbook.Prelude.Window.{mod_apart}

pub mod_differ : (size x y : ℕ) → x ≢ y → x < y + size → y < x + size → x % size ≢ y % size
mod_differ size x y ne high low e = elim (Bool-cases (ltb x y)) [
  | inl h ↦ mod_apart size x y (ltb→lt x y h) low e
  | inr h ↦ mod_apart size y x (ground arith) high (sym e)
]

-- A ring of 2 ^ k slots
pub record Ring {ℓ} {A : Type ℓ} (k : ℕ) (buffer : List A) (size mask : ℕ) : Type ℓ where
  pub power : size ≡ 2 ^ k
  pub masks : mask ≡ 2 ^ k - 1
  pub filled : length buffer ≡ size

module _ {ℓ} {A : Type ℓ} {k : ℕ} {buffer : List A} {size mask : ℕ}
    (ring : Ring k buffer size mask) where
  pub slot_mod : (seq : ℕ) → bit_and seq mask ≡ seq % size
  slot_mod seq =
      ap (bit_and seq) ring.masks ∙ bit_and_mask k seq ∙ ap (λ m. seq % m) (sym ring.power)

  pub size_pos : 0 < size
  size_pos = omega (arith, ring.power, pow_pos k)

  pub get-set_self :
      (seq : ℕ) (v d : A) → get_or (set buffer (bit_and seq mask) v) (bit_and seq mask) d ≡ v
  get-set_self seq v d =
      get_or-set_self buffer (bit_and seq mask) v d
        (omega (arith, slot_mod seq, mod-lt seq {m = size} size_pos, ring.filled))

  -- Two sequence numbers less than a ring apart have two slots.
  pub get-set_ne :
      (a b : ℕ) (v d : A)
      → a ≢ b
      → a < b + size
      → b < a + size
      → get_or (set buffer (bit_and a mask) v) (bit_and b mask) d ≡ get_or buffer (bit_and b mask) d
  get-set_ne a b v d ne above below =
      get_or-set_ne buffer (bit_and a mask) (bit_and b mask) v d
        (λ e. mod_differ size a b ne above below (sym (slot_mod a) ∙ e ∙ slot_mod b))
