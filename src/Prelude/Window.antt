-- ===== src/Prelude/Window.antt =====
-- A window of a ring: the values at `n` sequence numbers from `lo` on, each at its remainder by the
-- size.
use Prim.Native.Nat.{ℕ, zero, suc, ◌+◌, ◌/◌, ◌%◌, ◌≤◌, ◌<◌}
use mathlib.Core.Path.{◌≡◌, refl, sym, ap, ap₂, ◌∙◌}
use mathlib.Core.Logic.{◌≢◌, inl, inr}
use mathlib.Core.List.{List, [], ◌∷◌, ◌++◌}
use native.Mathlib.Omega.{arith}
use native.Mathlib.Nat.{mod-lt, div-add-mod, mul-le-mul_left, mul-suc}
use distributed_orderbook.Prelude.Lists.{length, get_or, set, get_or-set_self, get_or-set_ne}
use distributed_orderbook.Prelude.Tests.{ltb, ltb→lt, Bool-cases}

ltb→le : (a b : ℕ) → ltb a b ≡ ltb 1 0 → b ≤ a
ltb→le a b h = ground arith

-- Numbers less than a ring apart have different remainders.
pub mod_apart : (size a b : ℕ) → a < b → b < a + size → a % size ≢ b % size
mod_apart size a b low high e = elim (Bool-cases (ltb (a / size) (b / size))) [
  | inl h ↦ omega (
    arith,
    div-add-mod a size,
    div-add-mod b size,
    mul-le-mul_left size (ltb→lt (a / size) (b / size) h),
    mul-suc size (a / size),
  )
  | inr h ↦ omega (
    arith,
    div-add-mod a size,
    div-add-mod b size,
    mul-le-mul_left size (ltb→le (a / size) (b / size) h),
  )
]

abbrev pub window {ℓ} : {A : Type ℓ} → ℕ → List A → A → ℕ → ℕ → List A
window size xs d lo zero = []
window size xs d lo (suc n) = get_or xs (lo % size) d ∷ window size xs d (lo + 1) n

module _ {ℓ} {A : Type ℓ} (size : ℕ) (d : A) where
  pub length-window : (xs : List A) (lo n : ℕ) → length (window size xs d lo n) ≡ n
  length-window xs lo zero = refl
  length-window xs lo (suc n) = ap suc (length-window xs (lo + 1) n)

  window_apart :
      (xs : List A) (p : ℕ) (v : A) (lo n : ℕ)
      → lo + n ≤ p
      → p < lo + size
      → window size (set xs (p % size) v) d lo n ≡ window size xs d lo n
  window_apart xs p v lo zero low high = refl
  window_apart xs p v lo (suc n) low high =
      ap₂ (λ x (t : List A). x ∷ t)
        (get_or-set_ne xs (p % size) (lo % size) v d
          (λ e. mod_apart size lo p (omega arith) high (sym e)))
        (window_apart xs p v (lo + 1) n (omega arith) (omega arith))

  window_last :
      (xs : List A) (lo n : ℕ)
      → window size xs d lo (suc n) ≡ window size xs d lo n ++ get_or xs ((lo + n) % size) d ∷ []
  window_last xs lo zero = ap (λ i. get_or xs (i % size) d ∷ []) (omega arith)
  window_last xs lo (suc n) =
      ap (λ (t : List A). get_or xs (lo % size) d ∷ t)
        (window_last xs (lo + 1) n
          ∙ ap (λ i. window size xs d (lo + 1) n ++ get_or xs (i % size) d ∷ []) (omega arith))

  -- A value behind the window joins it.
  pub window-set :
      (xs : List A) (lo n : ℕ) (v : A)
      → length xs ≡ size
      → n < size
      → window size (set xs ((lo + n) % size) v) d lo (suc n) ≡ window size xs d lo n ++ v ∷ []
  window-set xs lo n v len room =
      window_last (set xs ((lo + n) % size) v) lo n
      ∙ ap₂ (λ (t : List A) x. t ++ x ∷ [])
          (window_apart xs (lo + n) v lo n (omega arith) (omega arith))
          (get_or-set_self xs ((lo + n) % size) v d
            (omega (arith, mod-lt (lo + n) {m = size} (omega arith))))
