-- ===== src/LobsterReplayAdapter/Strto.antt =====
-- `std::strtol` and `std::strtoll` in base 10, as Core_Infra/lobster_replay_adapter.cpp calls them. A text
-- is the list of its bytes without the closing zero, `long` has 64 bits, and a result carries the text
-- from `end` on; `none` is `end == p`.
use distributed_orderbook.Prelude.{
  ℕ, ◌+◌, ◌-◌, ◌*◌, ◌^◌, ◌%◌, Bool, true, false, ◌&&◌, ◌||◌, ◌==◌, ltb, leb, min, Option, none,
  some, List, [], ◌∷◌, if◌then◌else◌,
}
use distributed_orderbook.Prelude.Int.{ℤ, pos, negsuc}

abbrev pub Text : Type 0
Text = List ℕ

-- `isspace`, in the locale of C
abbrev pub is_space : ℕ → Bool
is_space c = c == b' ' || leb 9 c && leb c 13

abbrev pub is_digit : ℕ → Bool
is_digit c = leb b'0' c && leb c b'9'

abbrev pub starts_digit : Text → Bool
starts_digit [] = false
starts_digit (c ∷ s) = is_digit c

unfoldable pub skip_space : Text → Text
skip_space [] = []
skip_space (c ∷ s) = if is_space c then skip_space s else c ∷ s

-- The digits at the front, after those with the value `n`
unfoldable pub digits : ℕ → Text → ℕ × Text
digits n [] = (n, [])
digits n (c ∷ s) =
    let rest = digits (n * 10 + (c - b'0')) s in if is_digit c then rest else (n, c ∷ s)

-- A value out of range is LLONG_MAX or LLONG_MIN.
abbrev pub clamp : Bool → ℕ → ℤ
clamp false n = pos (min n (2 ^ 63 - 1))
clamp true n = if n == 0 then pos 0 else negsuc (min n (2 ^ 63) - 1)

abbrev pub convert : Bool → Text → Option (ℤ × Text)
convert negative s =
    if starts_digit s then some (clamp negative (digits 0 s).0, (digits 0 s).1) else none

-- After the white space
abbrev pub signed : Text → Option (ℤ × Text)
signed [] = none
signed (c ∷ s) =
    if c == b'-'
    then convert true s
    else if c == b'+'
    then convert false s
    else convert false (c ∷ s)

unfoldable pub strtoll : Text → Option (ℤ × Text)
strtoll s = signed (skip_space s)

-- `static_cast<int>`: the low 32 bits, in two's complement
abbrev pub of_low : ℕ → ℤ
of_low n = if ltb n (2 ^ 31) then pos n else negsuc (2 ^ 32 - n - 1)

unfoldable pub to_int : ℤ → ℤ
to_int (pos n) = of_low (n % 2 ^ 32)
to_int (negsuc n) = of_low (2 ^ 32 - 1 - n % 2 ^ 32)

-- `static_cast<int>(std::strtol(p, &end, 10))`
unfoldable pub strtol_int : Text → Option (ℤ × Text)
strtol_int s = elim (strtoll s) [ none ↦ none | some (v, end) ↦ some (to_int v, end) ]
