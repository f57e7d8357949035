-- ===== src/Orderbook/Command/Sequence.antt =====
-- Commands for a list of things, one after the other.
use distributed_orderbook.Prelude.{◌≡◌, ap, ◌∙◌, List, [], ◌∷◌, ◌++◌}
use distributed_orderbook.Orderbook.Types.{Orderbook}
use distributed_orderbook.Orderbook.Command.{Run, done, fault, out_of_fuel, Command, and_then}

state_of : {A : Type 0} → Orderbook → Run A → Orderbook
state_of b (done a b') = b'
state_of b fault = b
state_of b out_of_fuel = b

pub same_state : {A : Type 0} {a a' : A} {b b' : Orderbook} → done a b ≡ done a' b' → b ≡ b'
unfolding state_of
same_state {b = b} e = ap (state_of b) e

module _ {A B : Type 0} (f : A → Command B) where
  unfoldable pub run_all : List A → Command (Unit {0})
  run_all [] b = done tt b
  run_all (x ∷ xs) b = and_then (f x b) λ _ b'. run_all xs b'

  after_first :
      (xs : List A) (x : A) (b' b'' : Orderbook) (first : Run B)
      → ((s : Orderbook) → run_all xs s ≡ done tt b' → run_all (xs ++ x ∷ []) s ≡ done tt b'')
      → and_then first (λ _ s. run_all xs s) ≡ done tt b'
      → and_then first (λ _ s. run_all (xs ++ x ∷ []) s) ≡ done tt b''
  after_first xs x b' b'' (done _ s) ih h = ih s h
  after_first xs x b' b'' fault ih h = cc
  after_first xs x b' b'' out_of_fuel ih h = cc

  -- one more at the end
  pub run_all_last :
      (xs : List A) (x : A) (b b' b'' : Orderbook) (res : B)
      → run_all xs b ≡ done tt b'
      → f x b' ≡ done res b''
      → run_all (xs ++ x ∷ []) b ≡ done tt b''
  unfolding run_all
  run_all_last [] x b b' b'' res h g =
      ap (λ s. and_then (f x s) λ _ t. done tt t) (same_state h)
      ∙ ap (λ r. and_then r λ _ t. done tt t) g
  run_all_last (y ∷ xs) x b b' b'' res h g =
      after_first xs x b' b'' (f y b) (λ s k. run_all_last xs x s b' b'' res k g) h
