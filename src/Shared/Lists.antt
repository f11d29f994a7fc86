-- ===== src/Shared/Lists.antt =====
-- Lists measured and indexed by native numbers, under the library's names, and Python's slices.
use Prim.Native.Nat.{ℕ, zero, suc, ◌+◌, ◌-◌, ◌≤◌, min}
use mathlib.Core.Path.{◌≡◌, refl, ap}
use mathlib.Core.List.{List, [], ◌∷◌, ◌++◌, reverse, reverse-append}
use mathlib.Core.Option.{Option, none, some}
use native.Mathlib.Omega.{arith}

module _ {ℓ} {A : Type ℓ} where
  abbrev pub length : List A → ℕ
  length [] = 0
  length (x ∷ xs) = suc (length xs)

  abbrev pub get_elem? : List A → ℕ → Option A
  get_elem? [] i = none
  get_elem? (x ∷ xs) zero = some x
  get_elem? (x ∷ xs) (suc i) = get_elem? xs i

  abbrev pub take : ℕ → List A → List A
  take zero xs = []
  take (suc n) [] = []
  take (suc n) (x ∷ xs) = x ∷ take n xs

  abbrev pub drop : ℕ → List A → List A
  drop zero xs = xs
  drop (suc n) [] = []
  drop (suc n) (x ∷ xs) = drop n xs

  -- `xs[lo : lo + n]`
  abbrev pub slice : List A → ℕ → ℕ → List A
  slice xs lo n = take n (drop lo xs)

  abbrev pub All {κ} : (A → Type κ) → List A → Type κ
  All P [] = Unit {κ}
  All P (x ∷ xs) = P x × All P xs

  pub length-append : (xs ys : List A) → length (xs ++ ys) ≡ length xs + length ys
  length-append [] ys = omega arith
  length-append (x ∷ xs) ys = omega (arith, length-append xs ys)

  pub length-take : (n : ℕ) (xs : List A) → length (take n xs) ≡ min n (length xs)
  length-take zero xs = omega arith
  length-take (suc n) [] = omega arith
  length-take (suc n) (x ∷ xs) = omega (arith, length-take n xs)

  pub length-drop : (n : ℕ) (xs : List A) → length (drop n xs) ≡ length xs - n
  length-drop zero xs = omega arith
  length-drop (suc n) [] = omega arith
  length-drop (suc n) (x ∷ xs) = omega (arith, length-drop n xs)

  pub take-append : (xs ys : List A) → take (length xs) (xs ++ ys) ≡ xs
  take-append [] ys = refl
  take-append (x ∷ xs) ys = ap (λ t. x ∷ t) (take-append xs ys)

  pub drop-append : (xs ys : List A) → drop (length xs) (xs ++ ys) ≡ ys
  drop-append [] ys = refl
  drop-append (x ∷ xs) ys = drop-append xs ys

  pub take-all : (xs : List A) → take (length xs) xs ≡ xs
  take-all [] = refl
  take-all (x ∷ xs) = ap (λ t. x ∷ t) (take-all xs)

  pub take-append-drop : (n : ℕ) (xs : List A) → take n xs ++ drop n xs ≡ xs
  take-append-drop zero xs = refl
  take-append-drop (suc n) [] = refl
  take-append-drop (suc n) (x ∷ xs) = rw (take-append-drop n xs)

module _ {ℓ} {A : Type ℓ} where
  pub length-reverse : (xs : List A) → length (reverse xs) ≡ length xs
  length-reverse [] = refl
  length-reverse (x ∷ xs) =
      rw (reverse-append (x ∷ []) xs) (rw length-append (omega (arith, length-reverse xs)))

  -- A slice that lies behind `pre` and covers `xs`.
  pub slice-append :
      (pre xs post : List A) (k n : ℕ)
      → length pre ≡ k
      → length xs ≡ n
      → slice (pre ++ (xs ++ post)) k n ≡ xs
  slice-append pre xs post k n hk hn = rw (← hk, ← hn, drop-append, take-append)

  pub append_split : (n : ℕ) (xs : List A) → n ≤ length xs → length (take n xs) ≡ n
  append_split n xs h = omega (arith, length-take n xs)

  pub drop-append_eq : (xs ys : List A) (k : ℕ) → length xs ≡ k → drop k (xs ++ ys) ≡ ys
  drop-append_eq xs ys k h = rw (← h) (drop-append xs ys)

-- A prefix in two parts.
module _ {ℓ} {A : Type ℓ} where
  pub take_two : (k m n : ℕ) (xs : List A) → k + m ≡ n → take k xs ++ take m (drop k xs) ≡ take n xs
  take_two zero m n xs h = let e : m ≡ n = omega arith in rw e
  take_two (suc k) m zero xs h = absurd (omega arith)
  take_two (suc k) zero (suc n) [] h = refl
  take_two (suc k) (suc m) (suc n) [] h = refl
  take_two (suc k) m (suc n) (x ∷ xs) h = ap (λ t. x ∷ t) (take_two k m n xs (omega arith))

  pub drop_two : (k m n : ℕ) (xs : List A) → k + m ≡ n → drop m (drop k xs) ≡ drop n xs
  drop_two zero m n xs h = let e : m ≡ n = omega arith in rw e
  drop_two (suc k) m zero xs h = absurd (omega arith)
  drop_two (suc k) zero (suc n) [] h = refl
  drop_two (suc k) (suc m) (suc n) [] h = refl
  drop_two (suc k) m (suc n) (x ∷ xs) h = drop_two k m n xs (omega arith)
