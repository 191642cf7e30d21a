-- ===== src/Base/Lists.antt =====
-- Lists tested by Boolean functions, membership, and the queries over tables as list comprehensions.
use Prim.Native.Nat.{ℕ, zero, suc}
use mathlib.Core.Bool.{Bool, true, false, ◌||◌, ◌&&◌}
use mathlib.Core.Option.{Option, none, some}
use mathlib.Core.List.{List, [], ◌∷◌, ◌++◌}
use msq_lms.Base.Tests.{◌==◌, if◌then◌else◌}

abbrev pub All {κ ℓ} : {A : Type κ} (Q : A → Type ℓ) → List A → Type ℓ
All Q (first_one ∷ others) = Q first_one × All Q others
All Q [] = Unit

module _ {ℓ} {A : Type ℓ} where
  abbrev pub length : List A → ℕ
  length [] = 0
  length (x ∷ xs) = suc (length xs)

  abbrev pub get_elem? : List A → ℕ → Option A
  get_elem? [] i = none
  get_elem? (x ∷ xs) zero = some x
  get_elem? (x ∷ xs) (suc i) = get_elem? xs i

  -- `rows[0]`, and LIMIT 1.
  abbrev pub first : List A → Option A
  first [] = none
  first (x ∷ xs) = some x

  abbrev pub is_empty : List A → Bool
  is_empty [] = true
  is_empty (x ∷ xs) = false

  abbrev pub filter : (A → Bool) → List A → List A
  filter p [] = []
  filter p (x ∷ xs) = if p x then x ∷ filter p xs else filter p xs

  abbrev pub any : (A → Bool) → List A → Bool
  any p [] = false
  any p (x ∷ xs) = p x || any p xs

  abbrev pub all : (A → Bool) → List A → Bool
  all p [] = true
  all p (x ∷ xs) = p x && all p xs

  -- An inner join or a WHERE clause over what it selects from.
  abbrev pub only_if : Bool → List A → List A
  only_if true rows = rows
  only_if false rows = []

abbrev pub contains : List ℕ → ℕ → Bool
contains xs x = any (λ y. y == x) xs

-- FROM and JOIN: for each row of a table, what the rest of the query selects.
infixl 5 ◌>>=◌
abbrev pub ◌>>=◌ : {A B : Type 0} → List A → (A → List B) → List B
[] >>= f = []
(x ∷ xs) >>= f = f x ++ (xs >>= f)
