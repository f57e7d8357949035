-- ===== src/SpscQueue/Refine.antt =====
-- The queue holds the values that were pushed and not popped, in order, whatever each side sees of the
-- other.
use native.Mathlib.Nat.{mod-lt}
use distributed_orderbook.Prelude.{
  ℕ, zero, suc, ◌+◌, ◌-◌, ◌%◌, ◌^◌, ◌<◌, ◌≤◌, bit_and, ◌≡◌, refl, sym, ap, ◌∙◌, Bool, true, false,
  List, [], ◌∷◌, ◌++◌, arith, inl, inr, Bool-cases, leb, length, get_or, set, length-set,
  length-replicate,
}
use distributed_orderbook.Prelude.Bits.{bit_and_mask, pow_pos}
use distributed_orderbook.Prelude.Window.{window, window-set, length-window}
use distributed_orderbook.SpscQueue.{SpscQueue, new_queue, try_push, try_pop}

-- The capacity is a power of two, and the two pointers are at most a capacity apart.
pub record Valid {ℓ} {T : Type ℓ} (k : ℕ) (q : SpscQueue T) : Type ℓ where
  pub power : q.capacity ≡ 2 ^ k
  pub masks : q.mask ≡ 2 ^ k - 1
  pub filled : length q.buffer ≡ q.capacity
  pub behind : q.tail ≤ q.head
  pub fits : q.head ≤ q.tail + q.capacity

-- The values in the queue, the oldest first
abbrev pub values {ℓ} : {T : Type ℓ} → T → SpscQueue T → List T
values d q = window q.capacity q.buffer d q.tail (q.head - q.tail)

-- What a push does: the queue has room and gets the value, or it is seen as full and stays.
pub data Pushed {ℓ} {T : Type ℓ} (k : ℕ) (d : T) (tail : ℕ) (value : T) (q : SpscQueue T)
    : Bool × SpscQueue T → Type ℓ where
  stored :
      (q' : SpscQueue T)
      → length (values d q) < q.capacity
      → Valid k q'
      → values d q' ≡ values d q ++ value ∷ []
      → q'.tail ≡ q.tail
      → Pushed k d tail value q (true, q')
  full : tail + q.capacity ≤ q.head → Pushed k d tail value q (false, q)

-- What a pop does: the oldest value leaves the queue, or nothing is seen in it.
pub data Popped {ℓ} {T : Type ℓ} (k : ℕ) (d : T) (head : ℕ) (out : T) (q : SpscQueue T)
    : Bool × SpscQueue T × T → Type ℓ where
  taken :
      (q' : SpscQueue T) (value : T)
      → Valid k q'
      → values d q ≡ value ∷ values d q'
      → q'.head ≡ q.head
      → Popped k d head out q (true, q', value)
  empty : head ≤ q.tail → Popped k d head out q (false, q, out)

leb→lt : (a b : ℕ) → leb a b ≡ false → b < a
leb→lt a b h = ground arith

leb→le : (a b : ℕ) → leb a b ≡ true → a ≤ b
leb→le a b h = ground arith

module _ {ℓ} {T : Type ℓ} (k : ℕ) (q : SpscQueue T) (valid : Valid k q) where
  masked : (seq : ℕ) → bit_and seq q.mask ≡ seq % q.capacity
  masked seq =
      ap (bit_and seq) valid.masks ∙ bit_and_mask k seq ∙ ap (λ m. seq % m) (sym valid.power)

  full_case :
      (d : T) (tail : ℕ) (value : T)
      → leb q.capacity (q.head - tail) ≡ true
      → Pushed k d tail value q (try_push tail value q)
  unfolding try_push
  full_case d tail value h =
      rw h (full (omega (arith, leb→le q.capacity (q.head - tail) h, pow_pos k, valid.power)))

  abbrev pushed : T → SpscQueue T
  pushed value = record q { buffer = set q.buffer (q.head % q.capacity) value; head = q.head + 1 }

  values-pushed :
      (d value : T)
      → q.head - q.tail < q.capacity
      → values d (pushed value) ≡ values d q ++ value ∷ []
  values-pushed d value room =
      let more : q.head + 1 - q.tail ≡ suc (q.head - q.tail) = omega (arith, valid.behind) in
      let here : q.head ≡ q.tail + (q.head - q.tail) = omega (arith, valid.behind) in
      ap (window q.capacity (set q.buffer (q.head % q.capacity) value) d q.tail) more
      ∙ ap
          (λ p.
            window q.capacity (set q.buffer (p % q.capacity) value) d q.tail
              (suc (q.head - q.tail)))
          here
      ∙ window-set q.capacity d q.buffer q.tail (q.head - q.tail) value valid.filled room

  stored_case :
      (d : T) (tail : ℕ) (value : T)
      → tail ≤ q.tail
      → leb q.capacity (q.head - tail) ≡ false
      → Pushed k d tail value q (try_push tail value q)
  unfolding try_push
  stored_case d tail value old h =
      let room : q.head - tail < q.capacity = leb→lt q.capacity (q.head - tail) h in
      rw (h, masked q.head)
        (stored (pushed value)
          (omega (arith, old, length-window q.capacity d q.buffer q.tail (q.head - q.tail)))
          (record {
            power = valid.power;
            masks = valid.masks;
            filled = length-set q.buffer (q.head % q.capacity) value ∙ valid.filled;
            behind = omega (arith, valid.behind);
            fits = omega (arith, valid.behind);
          })
          (values-pushed d value (omega (arith, old))) refl)

  -- When the producer sees a value of `tail` that the consumer has passed or is at, a push stores the
  -- value behind the others, if it sees room, and then the queue has room; or it sees the queue full
  -- and changes nothing. The queue stays valid.
  pub try_push_refines :
      (d : T) (tail : ℕ) (value : T)
      → tail ≤ q.tail
      → Pushed k d tail value q (try_push tail value q)
  try_push_refines d tail value old = elim (Bool-cases (leb q.capacity (q.head - tail))) [
    | inl h ↦ full_case d tail value h
    | inr h ↦ stored_case d tail value old h
  ]

  abbrev popped : SpscQueue T
  popped = record q { tail = q.tail + 1 }

  get_or-default :
      (d out : T) (xs : List T) (i : ℕ) → i < length xs → get_or xs i out ≡ get_or xs i d
  get_or-default d out [] i h = absurd (omega arith)
  get_or-default d out (x ∷ xs) zero h = refl
  get_or-default d out (x ∷ xs) (suc i) h = get_or-default d out xs i (omega arith)

  taken_case :
      (d : T) (head : ℕ) (out : T)
      → head ≤ q.head
      → leb head q.tail ≡ false
      → Popped k d head out q (try_pop head out q)
  unfolding try_pop
  taken_case d head out old h =
      let some_left : q.tail < head = leb→lt head q.tail h in
      let fewer : q.head - q.tail ≡ suc (q.head - (q.tail + 1)) = omega arith in
      rw (h, masked q.tail)
        (taken popped _
          (record {
            power = valid.power;
            masks = valid.masks;
            filled = valid.filled;
            behind = omega arith;
            fits = omega (arith, valid.fits);
          })
          (ap (window q.capacity q.buffer d q.tail) fewer
            ∙ ap (λ (x : T). x ∷ window q.capacity q.buffer d (q.tail + 1) (q.head - (q.tail + 1)))
                (get_or-default out d q.buffer (q.tail % q.capacity) (
                  omega (
                    arith,
                    mod-lt q.tail {m = q.capacity} (omega (arith, valid.power, pow_pos k)),
                    valid.filled,
                  ))))
          refl)

  empty_case :
      (d : T) (head : ℕ) (out : T)
      → leb head q.tail ≡ true
      → Popped k d head out q (try_pop head out q)
  unfolding try_pop
  empty_case d head out h = rw h (empty (leb→le head q.tail h))

  -- When the consumer sees a value of `head` that the producer has passed or is at, a pop gives the
  -- oldest value and removes it, if it sees one; or it sees the queue empty and changes nothing. The
  -- queue stays valid.
  pub try_pop_refines :
      (d : T) (head : ℕ) (out : T) → head ≤ q.head → Popped k d head out q (try_pop head out q)
  try_pop_refines d head out old = elim (Bool-cases (leb head q.tail)) [
    | inl h ↦ empty_case d head out h
    | inr h ↦ taken_case d head out old h
  ]

pub new_queue-Valid {ℓ} : {T : Type ℓ} (k : ℕ) (d : T) → Valid k (new_queue d (2 ^ k))
new_queue-Valid k d = record {
  power = refl;
  masks = refl;
  filled = length-replicate (2 ^ k) d;
  behind = omega arith;
  fits = omega arith;
}
