-- ===== src/Base/Results.antt =====
-- A result or an error's text, as Go's pairs of a value and an error.
use Prim.Native.Nat.{ℕ}
use mathlib.Core.List.{List, ◌++◌}

-- What a function returns that has nothing to return but its error.
abbrev pub Done : Type 0
Done = Unit

pub data Fallible {ℓ} (A : Type ℓ) : Type ℓ where
  fine : A → Fallible A
  erred : List ℕ → Fallible A

-- `fmt.Errorf("…: %w", err)`: an error with the text that the caller puts in front of it.
abbrev pub context {ℓ} : {A : Type ℓ} → List ℕ → Fallible A → Fallible A
context front (fine a) = fine a
context front (erred error) = erred (front ++ error)

-- `if err != nil { return …, err }`, and otherwise the rest.
abbrev pub and_then {ℓ κ} : {A : Type ℓ} {B : Type κ} → Fallible A → (A → Fallible B) → Fallible B
and_then (fine a) f = f a
and_then (erred error) f = erred error
