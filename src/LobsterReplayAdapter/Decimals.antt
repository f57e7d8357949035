-- ===== src/LobsterReplayAdapter/Decimals.antt =====
-- Numbers written in decimal, and `strtoll` and the cast to `int` on them.
use native.Mathlib.Nat.{div-add-mod, mod-eq_of_lt}
use distributed_orderbook.Prelude.{
  ℕ, zero, suc, ◌+◌, ◌-◌, ◌*◌, ◌/◌, ◌%◌, ◌^◌, ◌<◌, ◌≡◌, refl, ap, ◌∙◌, Bool, true, false, ◌==◌, ltb,
  ltb→lt, Bool-cases, inl, inr, some, [], ◌∷◌, ◌++◌, append_assoc, arith,
}
use distributed_orderbook.Prelude.Int.{ℤ, pos, negsuc}
use distributed_orderbook.LobsterReplayAdapter.Strto.{
  Text, is_space, is_digit, starts_digit, skip_space, digits, clamp, convert, signed, strtoll,
  of_low, to_int, strtol_int,
}

abbrev digit : ℕ → ℕ
digit d = b'0' + d

-- The last `fuel` digits of `n`; `n + 1` is enough for all of them.
unfoldable pub decimal : ℕ → ℕ → Text
decimal zero n = []
decimal (suc fuel) n = elim (ltb n 10) [
  | true ↦ digit n ∷ []
  | false ↦ decimal fuel (n / 10) ++ digit (n % 10) ∷ []
]

abbrev pub print_ℕ : ℕ → Text
print_ℕ n = decimal (suc n) n

abbrev pub print : ℤ → Text
print (pos n) = print_ℕ n
print (negsuc n) = b'-' ∷ print_ℕ (suc n)

-- The values of `int64_t` and of `int`
abbrev pub IsInt64 : ℤ → Type 0
IsInt64 (pos n) = n < 2 ^ 63
IsInt64 (negsuc n) = n < 2 ^ 63

abbrev pub IsInt : ℤ → Type 0
IsInt (pos n) = n < 2 ^ 31
IsInt (negsuc n) = n < 2 ^ 31

is_digit_of : (d : ℕ) → d < 10 → is_digit (b'0' + d) ≡ true
is_digit_of d h = ground arith

digit_value : (d : ℕ) → b'0' + d - b'0' ≡ d
digit_value d = omega arith

digits-step :
    (m d : ℕ) (rest : Text) → d < 10 → digits m (digit d ∷ rest) ≡ digits (m * 10 + d) rest
unfolding digits
digits-step m d rest h = rw (is_digit_of d h, digit_value d) refl

digits-stop : (m : ℕ) (rest : Text) → starts_digit rest ≡ false → digits m rest ≡ (m, rest)
unfolding digits
digits-stop m [] h = refl
digits-stop m (c ∷ rest) h = rw h refl

-- the step of the printer on a number of several digits
decimal-append :
    (fuel n : ℕ) (rest : Text)
    → ltb n 10 ≡ false
    → decimal (suc fuel) n ++ rest ≡ decimal fuel (n / 10) ++ digit (n % 10) ∷ rest
unfolding decimal
decimal-append fuel n rest e =
    rw (decimal, e) (append_assoc (decimal fuel (n / 10)) (digit (n % 10) ∷ []) rest)

decimal-one : (fuel n : ℕ) → ltb n 10 ≡ true → decimal (suc fuel) n ≡ digit n ∷ []
unfolding decimal
decimal-one fuel n e = rw (decimal, e) refl

digits-decimal :
    (fuel n : ℕ) (rest : Text) → n < fuel → digits 0 (decimal fuel n ++ rest) ≡ digits n rest
digits-decimal zero n rest h = absurd (omega arith)
digits-decimal (suc fuel) n rest h = elim (Bool-cases (ltb n 10)) [
  | inl e ↦
      rw (decimal-one fuel n e)
        (digits-step 0 n rest (ltb→lt n 10 e) ∙ ap (λ m. digits m rest) (omega arith))
  | inr e ↦
      ap (digits 0) (decimal-append fuel n rest e)
      ∙ digits-decimal fuel (n / 10) (digit (n % 10) ∷ rest) (ground arith)
      ∙ digits-step (n / 10) (n % 10) rest (omega arith)
      ∙ ap (λ m. digits m rest) (omega (arith, div-add-mod n 10))
]

starts_digit-decimal :
    (fuel n : ℕ) (rest : Text) → n < fuel → starts_digit (decimal fuel n ++ rest) ≡ true
starts_digit-decimal zero n rest h = absurd (omega arith)
starts_digit-decimal (suc fuel) n rest h = elim (Bool-cases (ltb n 10)) [
  | inl e ↦ rw (decimal-one fuel n e) (is_digit_of n (ltb→lt n 10 e))
  | inr e ↦
      ap starts_digit (decimal-append fuel n rest e)
      ∙ starts_digit-decimal fuel (n / 10) _ (ground arith)
]

-- a digit is no white space and no sign
skip_space-digit : (s : Text) → starts_digit s ≡ true → skip_space s ≡ s
unfolding skip_space
skip_space-digit [] h = cc
skip_space-digit (c ∷ s) h = rw (not_space c h) refl
  where
    not_space : (c : ℕ) → is_digit c ≡ true → is_space c ≡ false
    not_space c h = ground arith

signed-digit : (s : Text) → starts_digit s ≡ true → signed s ≡ convert false s
signed-digit [] h = cc
signed-digit (c ∷ s) h = rw (no_minus c h, no_plus c h) refl
  where
    no_minus : (c : ℕ) → is_digit c ≡ true → (c == b'-') ≡ false
    no_minus c h = ground arith

    no_plus : (c : ℕ) → is_digit c ≡ true → (c == b'+') ≡ false
    no_plus c h = ground arith

clamp-negative : (n : ℕ) → n < 2 ^ 63 → clamp true (suc n) ≡ negsuc n
clamp-negative n h = ground arith

module _ (rest : Text) (stops : starts_digit rest ≡ false) where
  convert-decimal :
      (negative : Bool) (n : ℕ)
      → convert negative (print_ℕ n ++ rest) ≡ some (clamp negative n, rest)
  convert-decimal negative n =
      let read : digits 0 (print_ℕ n ++ rest) ≡ (n, rest) =
        digits-decimal (suc n) n rest (omega arith) ∙ digits-stop n rest stops in
      rw (starts_digit-decimal (suc n) n rest (omega arith), read) refl

  -- A printed `int64_t` is read back, up to what follows it.
  pub strtoll-print : (v : ℤ) → IsInt64 v → strtoll (print v ++ rest) ≡ some (v, rest)
  unfolding strtoll skip_space
  strtoll-print (pos n) h =
      let starts = starts_digit-decimal (suc n) n rest (omega arith) in
      ap signed (skip_space-digit (print_ℕ n ++ rest) starts)
      ∙ signed-digit (print_ℕ n ++ rest) starts
      ∙ convert-decimal false n
      ∙ ap (λ m. some (pos m, rest)) (omega arith)
  strtoll-print (negsuc n) h =
      convert-decimal true (suc n) ∙ ap (λ v. some (v, rest)) (clamp-negative n h)

of_low-pos : (n : ℕ) → n < 2 ^ 31 → of_low n ≡ pos n
of_low-pos n h = ground arith

of_low-negsuc : (n : ℕ) → n < 2 ^ 31 → of_low (2 ^ 32 - 1 - n) ≡ negsuc n
of_low-negsuc n h = ground arith

to_int-same : (v : ℤ) → IsInt v → to_int v ≡ v
unfolding to_int
to_int-same (pos n) h = ap of_low (mod-eq_of_lt (omega arith)) ∙ of_low-pos n h
to_int-same (negsuc n) h =
    ap (λ m. of_low (2 ^ 32 - 1 - m)) (mod-eq_of_lt (omega arith)) ∙ of_low-negsuc n h

widen : (v : ℤ) → IsInt v → IsInt64 v
widen (pos n) h = omega arith
widen (negsuc n) h = omega arith

-- A printed `int` is read back, up to what follows it.
pub strtol_int-print :
    (rest : Text) (v : ℤ)
    → starts_digit rest ≡ false
    → IsInt v
    → strtol_int (print v ++ rest) ≡ some (v, rest)
unfolding strtol_int
strtol_int-print rest v stops h =
    rw (strtol_int, strtoll-print rest stops v (widen v h))
      (ap (λ u. some (u, rest)) (to_int-same v h))
