-- ===== src/Prelude/Maps.antt =====
-- `std::unordered_map` and `std::map` with `int64_t` keys, as lists of entries. The operations keep
-- the keys different. `std::map` keeps its entries in the order of its comparison, a parameter.
use mathlib.Core.Path.{◌≡◌, refl, sym, ◌∙◌}
use mathlib.Core.Logic.{inl, inr}
use mathlib.Core.Bool.{Bool, true, false}
use mathlib.Core.Option.{Option, none, some}
use mathlib.Core.List.{List, [], ◌∷◌}
use distributed_orderbook.Prelude.Tests.{if◌then◌else◌, Bool-cases}
use distributed_orderbook.Prelude.Int.{ℤ, eqb_ℤ, eqb_ℤ-cases, ne→eqb_ℤ}

if_same {ℓ} : {A : Type ℓ} (b : Bool) (x : A) → x ≡ (if b then x else x)
if_same true x = refl
if_same false x = refl

if_again {ℓ} :
    {A : Type ℓ} (b : Bool) (x y z : A)
    → (if b then x else z) ≡ (if b then x else if b then y else z)
if_again true x y z = refl
if_again false x y z = refl

module _ {ℓ} {V : Type ℓ} where
  -- `m.find(k)`, with `none` for `m.end()`
  unfoldable pub find : ℤ → List (ℤ × V) → Option V
  find k [] = none
  find k ((j, v) ∷ m) = if eqb_ℤ j k then some v else find k m

  -- `m.erase(k)`
  unfoldable pub erase : ℤ → List (ℤ × V) → List (ℤ × V)
  erase k [] = []
  erase k ((j, v) ∷ m) = let rest = erase k m in if eqb_ℤ j k then rest else (j, v) ∷ rest

  -- `m[k] = v` on an unordered map
  unfoldable pub assign : ℤ → V → List (ℤ × V) → List (ℤ × V)
  assign k v m = (k, v) ∷ erase k m

  -- `m[k] = v` on an ordered map
  unfoldable pub insert : (ℤ → ℤ → Bool) → ℤ → V → List (ℤ × V) → List (ℤ × V)
  insert before k v [] = (k, v) ∷ []
  insert before k v ((j, w) ∷ m) =
      if eqb_ℤ j k
      then (k, v) ∷ m
      else if before k j
      then (k, v) ∷ (j, w) ∷ m
      else (j, w) ∷ insert before k v m

  pub find-erase :
      (k j : ℤ) (m : List (ℤ × V)) → find j (erase k m) ≡ (if eqb_ℤ k j then none else find j m)
  unfolding find erase
  find-erase k j [] = if_same (eqb_ℤ k j) none
  find-erase k j ((i, v) ∷ m) = elim (eqb_ℤ-cases i k) [
    | inl (e, same) ↦
        rw (e, same) (find-erase k j m ∙ if_again (eqb_ℤ k j) none (some v) (find j m))
    | inr (e, ne) ↦ elim (eqb_ℤ-cases k j) [
      | inl (f, hit) ↦ rw (e, f, ne→eqb_ℤ i j (λ g. ne (g ∙ sym hit)), find-erase k j m, f)
      | inr (f, _) ↦ rw (e, f, find-erase k j m, f)
    ]
  ]

  pub find-assign :
      (k j : ℤ) (v : V) (m : List (ℤ × V))
      → find j (assign k v m) ≡ (if eqb_ℤ k j then some v else find j m)
  unfolding assign find
  find-assign k j v m = elim (eqb_ℤ-cases k j) [
    | inl (e, _) ↦ rw e
    | inr (e, _) ↦ rw (e, find-erase k j m, e)
  ]

  pub find-insert :
      (before : ℤ → ℤ → Bool) (k j : ℤ) (v : V) (m : List (ℤ × V))
      → find j (insert before k v m) ≡ (if eqb_ℤ k j then some v else find j m)
  unfolding insert find
  find-insert before k j v [] = refl
  find-insert before k j v ((i, w) ∷ m) = elim (eqb_ℤ-cases i k) [
    | inl (e, same) ↦ rw (e, same) (if_again (eqb_ℤ k j) (some v) (some w) (find j m))
    | inr (e, ne) ↦ elim (Bool-cases (before k i)) [
      | inl first ↦ rw (e, first)
      | inr later ↦ elim (eqb_ℤ-cases k j) [
        | inl (f, hit) ↦
            rw (e, later, f, ne→eqb_ℤ i j (λ g. ne (g ∙ sym hit)), find-insert before k j v m, f)
        | inr (f, _) ↦ rw (e, later, f, find-insert before k j v m, f)
      ]
    ]
  ]
