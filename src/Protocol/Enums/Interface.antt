-- ===== src/Protocol/Enums/Interface.antt =====
-- `enum.IntEnum`, as far as the program uses it: members with values, and the call of the class
-- with a number, which raises `ValueError` for a number that no member has.
use dinix.Shared.{ℕ, ◌≡◌, arith, List, [], ◌∷◌, ◌==◌, if◌then◌else◌, Bool-cases, inl, inr}
use dinix.Exceptions.OnlyRaises.{OnlyRaises, returns, raises}
use dinix.Exceptions.{Result, ok, err, value_error}

pub record IntEnum (A : Type 0) : Type 0 where
  pub value : A → ℕ
  pub members : List A

member_with : {A : Type 0} → (A → ℕ) → List A → ℕ → Result A
member_with value [] n = err value_error
member_with value (x ∷ xs) n = if value x == n then ok x else member_with value xs n

unfoldable pub from_value : {A : Type 0} ⦃e : IntEnum A⦄ → ℕ → Result A
unfolding member_with
from_value ⦃e⦄ n = member_with e.value e.members n

value-member_with :
    {A : Type 0} (value : A → ℕ) (xs : List A) (n : ℕ) (x : A)
    → member_with value xs n ≡ ok x
    → value x ≡ n
unfolding member_with
value-member_with value [] n x h = cc
value-member_with value (y ∷ xs) n x h = ground (arith, value-member_with value xs n x)

member_with-OnlyRaises :
    {A : Type 0} (value : A → ℕ) (xs : List A) (n : ℕ)
    → OnlyRaises value_error (member_with value xs n)
unfolding member_with
member_with-OnlyRaises value [] n = raises
member_with-OnlyRaises value (x ∷ xs) n = elim (Bool-cases (value x == n)) [
  | inl same ↦ rw same (returns x)
  | inr other ↦ rw other (member_with-OnlyRaises value xs n)
]

module _ {A : Type 0} ⦃e : IntEnum A⦄ where
  -- A member that the call gives has the number for its value.
  pub value-from_value : (n : ℕ) (x : A) → from_value n ≡ ok x → e.value x ≡ n
  unfolding from_value
  value-from_value n x h = value-member_with e.value e.members n x h

  pub from_value-OnlyRaises : (n : ℕ) → OnlyRaises {A = A} value_error (from_value n)
  unfolding from_value
  from_value-OnlyRaises n = member_with-OnlyRaises e.value e.members n
