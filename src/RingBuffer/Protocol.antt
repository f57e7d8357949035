-- ===== src/RingBuffer/Protocol.antt =====
-- The protocol of a ring between one writer and one reader: the slots from `lo` to `hi` are ready and
-- the others are not.
use native.Mathlib.Nat.{add-mod_right}
use distributed_orderbook.Prelude.{
  ℕ, zero, suc, ◌+◌, ◌-◌, ◌<◌, ◌≤◌, bit_and, ◌≡◌, refl, sym, ap, ap₂, ◌∙◌, Bool, true, false, List,
  [], ◌∷◌, ◌++◌, arith, inl, inr, Bool-cases, get_or, set, length-set, ◌==◌, ==→eq,
}
use distributed_orderbook.RingBuffer.Slots.{Ring, slot_mod, size_pos, get-set_self, get-set_ne}

module _ {ℓ} {A : Type ℓ} (d : A) where
  -- The value at a sequence number, and the values from one on
  abbrev pub at : List A → ℕ → ℕ → A
  at buffer mask seq = get_or buffer (bit_and seq mask) d

  abbrev pub values_from : List A → ℕ → ℕ → ℕ → List A
  values_from buffer mask lo zero = []
  values_from buffer mask lo (suc n) = at buffer mask lo ∷ values_from buffer mask (lo + 1) n

  abbrev pub put : List A → ℕ → ℕ → A → List A
  put buffer mask seq v = set buffer (bit_and seq mask) v

  values_from-same :
      (xs ys : List A) (mask lo n : ℕ)
      → ((a : ℕ) → lo ≤ a → a < lo + n → at ys mask a ≡ at xs mask a)
      → values_from ys mask lo n ≡ values_from xs mask lo n
  values_from-same xs ys mask lo zero same = refl
  values_from-same xs ys mask lo (suc n) same =
      ap₂ (λ x (t : List A). x ∷ t) (same lo (omega arith) (omega arith))
        (values_from-same xs ys mask (lo + 1) n (λ a h g. same a (omega arith) (omega arith)))

  values_from_last :
      (xs : List A) (mask lo n : ℕ)
      → values_from xs mask lo (suc n) ≡ values_from xs mask lo n ++ at xs mask (lo + n) ∷ []
  values_from_last xs mask lo zero = ap (λ a. at xs mask a ∷ []) (omega arith)
  values_from_last xs mask lo (suc n) =
      ap (λ (t : List A). at xs mask lo ∷ t)
        (values_from_last xs mask (lo + 1) n
          ∙ ap (λ a. values_from xs mask (lo + 1) n ++ at xs mask a ∷ []) (omega arith))

  module _ (ready : A → Bool) where
    pub record Open (k lo hi : ℕ) (buffer : List A) (size mask : ℕ) : Type ℓ where
      pub ring : Ring k buffer size mask
      pub behind : lo ≤ hi
      pub fits : hi ≤ lo + size
      pub is_ready : (seq : ℕ) → lo ≤ seq → seq < hi → ready (at buffer mask seq) ≡ true
      pub is_free : (seq : ℕ) → hi ≤ seq → seq < lo + size → ready (at buffer mask seq) ≡ false

    module _ {k lo hi size mask : ℕ} (buffer : List A) (held : Open k lo hi buffer size mask) where
      put-Ring : (seq : ℕ) (v : A) → Ring k (put buffer mask seq v) size mask
      put-Ring seq v = record {
        power = held.ring.power;
        masks = held.ring.masks;
        filled = length-set buffer (bit_and seq mask) v ∙ held.ring.filled;
      }

      -- The writer makes the slot at `hi` ready.
      pub put-Open :
          (v : A)
          → ready v ≡ true
          → hi < lo + size
          → Open k lo (hi + 1) (put buffer mask hi v) size mask
      put-Open v full room = record {
        ring = put-Ring hi v;
        behind = omega (arith, held.behind);
        fits = omega arith;
        is_ready = λ seq low high. elim (Bool-cases (seq == hi)) [
          | inl e ↦
              ap (λ a. ready (at (put buffer mask hi v) mask a)) (==→eq seq hi e)
              ∙ ap ready (get-set_self held.ring hi v d)
              ∙ full
          | inr e ↦
              ap ready (
                get-set_ne held.ring hi seq v d (ground arith) (omega arith)
                  (omega (arith, size_pos held.ring)))
              ∙ held.is_ready seq low (ground arith)
        ];
        is_free = λ seq low high.
            ap ready (
              get-set_ne held.ring hi seq v d (omega arith) (omega (arith, size_pos held.ring))
                (omega (arith, held.behind)))
            ∙ held.is_free seq (omega arith) high;
      }

      pub put-values :
          (v : A)
          → hi < lo + size
          → values_from (put buffer mask hi v) mask lo (hi + 1 - lo)
            ≡ values_from buffer mask lo (hi - lo) ++ v ∷ []
      put-values v room =
          let n : ℕ = hi - lo in
          let more : hi + 1 - lo ≡ suc n = omega (arith, held.behind) in
          let here : lo + n ≡ hi = omega (arith, held.behind) in
          ap (values_from (put buffer mask hi v) mask lo) more
          ∙ values_from_last (put buffer mask hi v) mask lo n
          ∙ ap₂ (λ (t : List A) x. t ++ x ∷ [])
              (values_from-same buffer (put buffer mask hi v) mask lo n (λ a low high.
                get-set_ne held.ring hi a v d (omega (arith, here)) (omega (arith, here))
                  (omega (arith, size_pos held.ring, here))))
              (ap (at (put buffer mask hi v) mask) here ∙ get-set_self held.ring hi v d)

      -- The reader frees the slot at `lo`.
      pub take-Open :
          (v : A) → ready v ≡ false → lo < hi → Open k (lo + 1) hi (put buffer mask lo v) size mask
      take-Open v free some_left = record {
        ring = put-Ring lo v;
        behind = omega arith;
        fits = omega (arith, held.fits);
        is_ready = λ seq low high.
            ap ready (
              get-set_ne held.ring lo seq v d (omega arith) (omega arith)
                (omega (arith, held.fits)))
            ∙ held.is_ready seq (omega arith) high;
        is_free = λ seq low high. elim (Bool-cases (seq == lo + size)) [
          | inl e ↦
              ap (λ a. ready (at (put buffer mask lo v) mask a)) (==→eq seq (lo + size) e)
              ∙ ap (λ i. ready (get_or (put buffer mask lo v) i d))
                  (slot_mod held.ring (lo + size)
                    ∙ add-mod_right lo size
                    ∙ sym (slot_mod held.ring lo))
              ∙ ap ready (get-set_self held.ring lo v d)
              ∙ free
          | inr e ↦
              ap ready (get-set_ne held.ring lo seq v d (omega arith) (omega arith) (ground arith))
              ∙ held.is_free seq low (ground arith)
        ];
      }

      pub take-values :
          (v : A)
          → lo < hi
          → values_from buffer mask lo (hi - lo)
            ≡ at buffer mask lo ∷ values_from (put buffer mask lo v) mask (lo + 1) (hi - (lo + 1))
      take-values v some_left =
          let n : ℕ = hi - (lo + 1) in
          let more : hi - lo ≡ suc n = omega arith in
          ap (values_from buffer mask lo) more
          ∙ ap (λ (t : List A). at buffer mask lo ∷ t)
              (sym (
                values_from-same buffer (put buffer mask lo v) mask (lo + 1) n (λ a low high.
                  get-set_ne held.ring lo a v d (omega arith) (omega arith)
                    (omega (arith, held.fits)))))
