-- ===== src/Base/ListLaws.antt =====
-- Membership in filtered lists and in the results of queries.
use Prim.Native.Nat.{ℕ, zero, suc, ◌+◌, ◌<◌}
use mathlib.Core.Path.{◌≡◌, refl, subst, sym}
use mathlib.Core.Logic.{inl, inr}
use mathlib.Core.Bool.{Bool, true, false}
use mathlib.Core.Option.{none, some}
use mathlib.Core.List.{List, [], ◌∷◌, ◌++◌, Memᴰ}
use mathlib.Core.List.Memᴰ.{append_cases, append_left, append_right, cases_cons}
use native.Mathlib.Omega.{arith}
use msq_lms.Base.Tests.{Bool-cases}
use msq_lms.Base.Lists.{All, length, get_elem?, filter, any, only_if, first, ◌>>=◌, is_empty}

module _ {ℓ} {A : Type ℓ} where
  mem-filter-step :
      (p : A → Bool) (x : A) (xs : List A) {a : A}
      → (Memᴰ a (filter p xs) → Memᴰ a xs × (p a ≡ true))
      → Memᴰ a (filter p (x ∷ xs))
      → Memᴰ a (x ∷ xs) × (p a ≡ true)
  mem-filter-step p x xs ih m = elim (Bool-cases (p x)) [
    | inl holds ↦ elim (cases_cons (rw holds at m)) [
      | inl e ↦ (Memᴰ.head e, subst (λ y. p y ≡ true) (sym e) holds)
      | inr k ↦ let (j, h) = ih k in (Memᴰ.tail j, h)
    ]
    | inr fails ↦ let (j, h) = ih (rw fails at m) in (Memᴰ.tail j, h)
  ]

  pub mem-filter :
      (p : A → Bool) (xs : List A) {a : A} → Memᴰ a (filter p xs) → Memᴰ a xs × (p a ≡ true)
  mem-filter p [] m = elim m [ ]
  mem-filter p (x ∷ xs) m = mem-filter-step p x xs (mem-filter p xs) m

  pub filter-mem :
      (p : A → Bool) {a : A} {xs : List A} → Memᴰ a xs → p a ≡ true → Memᴰ a (filter p xs)
  filter-mem p (Memᴰ.head {x} {xs} e) h = rw (subst (λ y. p y ≡ true) e h) (Memᴰ.head e)
  filter-mem p (Memᴰ.tail {x} {xs} m) h = elim (Bool-cases (p x)) [
    | inl holds ↦ rw holds (Memᴰ.tail (filter-mem p m h))
    | inr fails ↦ rw fails (filter-mem p m h)
  ]

  pub mem-only_if :
      (b : Bool) (xs : List A) {a : A} → Memᴰ a (only_if b xs) → (b ≡ true) × Memᴰ a xs
  mem-only_if true xs m = (refl, m)
  mem-only_if false xs m = elim m [ ]

  pub any-false : (p : A → Bool) {a : A} {xs : List A} → any p xs ≡ false → Memᴰ a xs → p a ≡ false
  any-false p h (Memᴰ.head {x} {xs} e) = subst (λ y. p y ≡ false) (sym e) (ground arith)
  any-false p h (Memᴰ.tail {x} {xs} m) = any-false p (ground arith) m

  pub any-mem : (p : A → Bool) (xs : List A) → any p xs ≡ true → (a : A) × Memᴰ a xs × (p a ≡ true)
  any-mem p [] h = cc
  any-mem p (x ∷ xs) h = elim (Bool-cases (p x)) [
    | inl holds ↦ (x, Memᴰ.head refl, holds)
    | inr fails ↦ let (a, m, e) = any-mem p xs (rw fails at h) in (a, Memᴰ.tail m, e)
  ]

  pub mem-any : (p : A → Bool) {a : A} {xs : List A} → Memᴰ a xs → p a ≡ true → any p xs ≡ true
  mem-any p (Memᴰ.head {x} {xs} e) h = rw (subst (λ y. p y ≡ true) e h)
  mem-any p (Memᴰ.tail {x} {xs} m) h = ground (arith, mem-any p m h)

  pub is_empty-nil : (xs : List A) → is_empty xs ≡ true → xs ≡ []
  is_empty-nil [] h = refl
  is_empty-nil (x ∷ xs) h = cc

  pub All-mem {κ} : (P : A → Type κ) {a : A} {xs : List A} → All P xs → Memᴰ a xs → P a
  All-mem P h (Memᴰ.head e) = subst P (sym e) h.0
  All-mem P h (Memᴰ.tail m) = All-mem P h.1 m

  pub All-append {κ} :
      (Q : A → Type κ) (front back : List A) → All Q front → All Q back → All Q (front ++ back)
  All-append Q [] back these those = those
  All-append Q (x ∷ front) back (this, these) those = (this, All-append Q front back these those)

  pub get_elem?-mem : (xs : List A) (i : ℕ) {a : A} → get_elem? xs i ≡ some a → Memᴰ a xs
  get_elem?-mem [] i h = cc
  get_elem?-mem (x ∷ xs) zero h = Memᴰ.head (cc)
  get_elem?-mem (x ∷ xs) (suc i) h = Memᴰ.tail (get_elem?-mem xs i h)

  pub get_elem?-some : (xs : List A) (i : ℕ) → i < length xs → (a : A) × (get_elem? xs i ≡ some a)
  get_elem?-some [] i h = absurd (omega arith)
  get_elem?-some (x ∷ xs) zero h = (x, refl)
  get_elem?-some (x ∷ xs) (suc i) h = get_elem?-some xs i (omega arith)

  pub length-append : (xs ys : List A) → length (xs ++ ys) ≡ length xs + length ys
  length-append [] ys = omega arith
  length-append (x ∷ xs) ys = omega (arith, length-append xs ys)

  pub first-mem : (xs : List A) {a : A} → first xs ≡ some a → Memᴰ a xs
  first-mem [] h = cc
  first-mem (x ∷ xs) h = Memᴰ.head (cc)

  pub first-none : (xs : List A) → first xs ≡ none → xs ≡ []
  first-none [] h = refl
  first-none (x ∷ xs) h = cc

module _ {A B : Type 0} where
  pub mem->>= :
      (xs : List A) (f : A → List B) {b : B}
      → Memᴰ b (xs >>= f)
      → (a : A) × Memᴰ a xs × Memᴰ b (f a)
  mem->>= [] f m = elim m [ ]
  mem->>= (x ∷ xs) f m = elim (append_cases (f x) m) [
    | inl k ↦ (x, Memᴰ.head refl, k)
    | inr k ↦ let (a, j, h) = mem->>= xs f k in (a, Memᴰ.tail j, h)
  ]

  pub >>=-mem :
      (f : A → List B) {a : A} {b : B} {xs : List A} → Memᴰ a xs → Memᴰ b (f a) → Memᴰ b (xs >>= f)
  >>=-mem f {b} (Memᴰ.head {x} {xs} e) k = append_left (xs >>= f) (subst (λ y. Memᴰ b (f y)) e k)
  >>=-mem f {b} (Memᴰ.tail {x} {xs} m) k = append_right (f x) (>>=-mem f m k)
