-- ===== src/LobsterReplayAdapter/Malformed.antt =====
-- Lines that are no rows.
use mathlib.Core.Path.{subst}
use native.Mathlib.Nat.{mod-lt}
use distributed_orderbook.Prelude.{
  ℕ, suc, ◌+◌, ◌-◌, ◌*◌, ◌%◌, ◌^◌, ◌<◌, ◌≤◌, ◌≡◌, ap, Bool, true, false, ◌==◌, inl, inr, Bool-cases,
  Option-cases, Option, none, some, ltb, ltb→lt, [], ◌∷◌, if◌then◌else◌, arith,
}
use distributed_orderbook.Prelude.Int.{ℤ, pos, negsuc}
use distributed_orderbook.LobsterReplayAdapter.Strto.{
  Text, is_space, is_digit, starts_digit, skip_space, digits, clamp, convert, signed, strtoll,
  of_low, to_int, strtol_int,
}
use distributed_orderbook.LobsterReplayAdapter.Parser.{Reader, parse_row}
use distributed_orderbook.LobsterReplayAdapter.Decimals.{IsInt64, IsInt}
use distributed_orderbook.LobsterReplayAdapter.Grammar.{some-injective, parse_row_iff}

-- the commas of a text
abbrev pub commas : Text → ℕ
commas [] = 0
commas (c ∷ s) = let n = commas s in if c == b',' then suc n else n

-- A conversion gives a value with `P`, and leaves no comma that was not there.
pub record Gives (P : ℤ → Type 0) (s : Text) (v : ℤ) (end : Text) : Type 0 where
  pub value : P v
  pub fewer : commas end ≤ commas s

commas-tail : (c : ℕ) (s : Text) → commas s ≤ commas (c ∷ s)
commas-tail c s = ground arith

skip_space-commas : (s : Text) → commas (skip_space s) ≤ commas s
unfolding skip_space
skip_space-commas [] = omega arith
skip_space-commas (c ∷ s) = elim (Bool-cases (is_space c)) [
  | inl e ↦ rw e (omega (arith, skip_space-commas s, commas-tail c s))
  | inr e ↦ rw e (omega arith)
]

digits-commas : (n : ℕ) (s : Text) → commas (digits n s).1 ≤ commas s
unfolding digits
digits-commas n [] = omega arith
digits-commas n (c ∷ s) = elim (Bool-cases (is_digit c)) [
  | inl e ↦ rw e (omega (arith, digits-commas (n * 10 + (c - b'0')) s, commas-tail c s))
  | inr e ↦ rw e (omega arith)
]

clamp-IsInt64 : (negative : Bool) (n : ℕ) → IsInt64 (clamp negative n)
clamp-IsInt64 false n = omega arith
clamp-IsInt64 true n = elim (Bool-cases (n == 0)) [
  | inl e ↦ rw e (omega arith)
  | inr e ↦ rw e (omega arith)
]

some-pair :
    {a b : ℤ} {s t : Text}
    → ◌≡◌ {A = Option (ℤ × Text)} (some (a, s)) (some (b, t))
    → (a ≡ b) × (s ≡ t)
some-pair e =
    let same = some-injective e in
    (ap (λ (x : ℤ × Text). x.0) same, ap (λ (x : ℤ × Text). x.1) same)

convert-Gives :
    (negative : Bool) (s end : Text) (v : ℤ)
    → convert negative s ≡ some (v, end)
    → Gives IsInt64 s v end
convert-Gives negative s end v e = elim (Bool-cases (starts_digit s)) [
  | inl h ↦
      let (same, left) = some-pair (rw h at e) in
      record {
        value = subst IsInt64 same (clamp-IsInt64 negative (digits 0 s).0);
        fewer = omega (arith, digits-commas 0 s, ap commas left);
      }
  | inr h ↦ absurd (cc (rw h at e))
]

more :
    {P : ℤ → Type 0} (s t end : Text) (v : ℤ)
    → commas s ≤ commas t
    → Gives P s v end
    → Gives P t v end
more s t end v h g = record { value = g.value; fewer = omega (arith, g.fewer) }

signed-Gives : (s end : Text) (v : ℤ) → signed s ≡ some (v, end) → Gives IsInt64 s v end
signed-Gives [] end v e = cc
signed-Gives (c ∷ s) end v e = elim (Bool-cases (c == b'-')) [
  | inl h ↦ more s (c ∷ s) end v (commas-tail c s) (convert-Gives true s end v (rw h at e))
  | inr h ↦ elim (Bool-cases (c == b'+')) [
    | inl g ↦ more s (c ∷ s) end v (commas-tail c s) (convert-Gives false s end v (rw (h, g) at e))
    | inr g ↦ convert-Gives false (c ∷ s) end v (rw (h, g) at e)
  ]
]

pub strtoll-Gives : (s end : Text) (v : ℤ) → strtoll s ≡ some (v, end) → Gives IsInt64 s v end
unfolding strtoll
strtoll-Gives s end v e =
    more (skip_space s) s end v (skip_space-commas s) (signed-Gives (skip_space s) end v e)

of_low-IsInt : (n : ℕ) → n < 2 ^ 32 → IsInt (of_low n)
of_low-IsInt n h = elim (Bool-cases (ltb n (2 ^ 31))) [
  | inl e ↦ rw e (ltb→lt n (2 ^ 31) e)
  | inr e ↦ rw e (ground arith)
]

to_int-IsInt : (v : ℤ) → IsInt (to_int v)
unfolding to_int
to_int-IsInt (pos n) = of_low-IsInt (n % 2 ^ 32) (mod-lt n (omega arith))
to_int-IsInt (negsuc n) = of_low-IsInt (2 ^ 32 - 1 - n % 2 ^ 32) (omega arith)

strtol_int-Gives : (s end : Text) (v : ℤ) → strtol_int s ≡ some (v, end) → Gives IsInt s v end
unfolding strtol_int
strtol_int-Gives s end v e = elim (Option-cases (strtoll s)) [
  | inl h ↦ absurd (cc (rw (strtol_int, h) at e))
  | inr ((u, rest), h) ↦
      let (same, left) = some-pair (rw (strtol_int, h) at e) in
      record {
        value = subst IsInt same (to_int-IsInt u);
        fewer = omega (arith, (strtoll-Gives s rest u h).fewer, ap commas left);
      }
]

module _ (strtod : Reader) (line : Text) where
  -- what the comma after a field costs
  spent : {P : ℤ → Type 0} {s t : Text} {v : ℤ} → Gives P s v (b',' ∷ t) → commas t < commas s
  spent g = omega (arith, g.fewer)

  -- A line with fewer than five commas is no row, if `strtod` leaves no comma that was not in the text.
  pub parse_row-few_commas :
      ((s end : Text) (v : ℤ) → strtod s ≡ some (v, end) → commas end ≤ commas s)
      → commas line < 5
      → parse_row strtod line ≡ none
  parse_row-few_commas within few = elim (Option-cases (parse_row strtod line)) [
    | inl e ↦ e
    | inr (row, e) ↦
        let g = (parse_row_iff strtod line row).0 e in
        absurd (
          omega (
            arith,
            within line _ row.time_ns g.time,
            spent (strtol_int-Gives _ _ row.type g.type),
            spent (strtoll-Gives _ _ row.order_id g.order_id),
            spent (strtoll-Gives _ _ row.size g.size),
            spent (strtoll-Gives _ _ row.price g.price),
          ))
  ]
