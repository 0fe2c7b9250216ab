-- ===== src/Prelude/Lists.antt =====
-- Lists measured and indexed by native numbers, under the library's names.
use Prim.Native.Nat.{ℕ, zero, suc, ◌+◌, ◌≤◌}
use mathlib.Core.Path.{◌≡◌, refl, ap}
use mathlib.Core.List.{List, [], ◌∷◌, ◌++◌}
use mathlib.Core.Option.{Option, none, some}
use native.Mathlib.Omega.{arith}

module _ {ℓ} {A : Type ℓ} where
  abbrev pub length : List A → ℕ
  length [] = 0
  length (x ∷ xs) = suc (length xs)

  abbrev pub get_elem? : List A → ℕ → Option A
  get_elem? [] i = none
  get_elem? (x ∷ xs) zero = some x
  get_elem? (x ∷ xs) (suc i) = get_elem? xs i

  abbrev pub get_or : List A → ℕ → A → A
  get_or [] i d = d
  get_or (x ∷ xs) zero d = x
  get_or (x ∷ xs) (suc i) d = get_or xs i d

  pub get_elem?-none : (xs : List A) (i : ℕ) → length xs ≤ i → get_elem? xs i ≡ none
  get_elem?-none [] i h = refl
  get_elem?-none (x ∷ xs) zero h = absurd (omega arith)
  get_elem?-none (x ∷ xs) (suc i) h = get_elem?-none xs i (omega arith)

  pub length-append : (xs ys : List A) → length (xs ++ ys) ≡ length xs + length ys
  length-append [] ys = omega arith
  length-append (x ∷ xs) ys = omega (arith, length-append xs ys)

  pub get_or-append_right :
      (xs ys : List A) (i : ℕ) (d : A) → get_or (xs ++ ys) (length xs + i) d ≡ get_or ys i d
  get_or-append_right [] ys i d = ground arith
  get_or-append_right (x ∷ xs) ys i d = ground (arith, get_or-append_right xs ys i d)

-- std::vector's `back()`, and an assignment through that reference.
module _ {ℓ} {A : Type ℓ} where
  unfoldable pub back : List A → Option A
  back [] = none
  back (x ∷ []) = some x
  back (x ∷ y ∷ xs) = back (y ∷ xs)

  unfoldable pub set_back : A → List A → List A
  set_back v [] = []
  set_back v (x ∷ []) = v ∷ []
  set_back v (x ∷ y ∷ xs) = x ∷ set_back v (y ∷ xs)

  pub back-append : (xs : List A) (v : A) → back (xs ++ v ∷ []) ≡ some v
  unfolding back
  back-append [] v = refl
  back-append (x ∷ []) v = refl
  back-append (x ∷ y ∷ xs) v = back-append (y ∷ xs) v

  pub set_back-append : (xs : List A) (v w : A) → set_back w (xs ++ v ∷ []) ≡ xs ++ w ∷ []
  unfolding set_back
  set_back-append [] v w = refl
  set_back-append (x ∷ []) v w = refl
  set_back-append (x ∷ y ∷ xs) v w = ap (λ t. x ∷ t) (set_back-append (y ∷ xs) v w)

  -- A list with a last element is one with that element appended.
  pub append_of_back :
      (xs : List A) (v : A) → back xs ≡ some v → (ys : List A) × (xs ≡ ys ++ v ∷ [])
  unfolding back
  append_of_back [] v h = cc
  append_of_back (x ∷ []) v h = ([], cc)
  append_of_back (x ∷ y ∷ xs) v h =
      let (ys, e) = append_of_back (y ∷ xs) v h in (x ∷ ys, ap (λ t. x ∷ t) e)

  -- A predicate on every element.
  abbrev pub All {κ} : (A → Type κ) → List A → Type κ
  All P [] = Unit
  All P (x ∷ xs) = P x × All P xs

  pub All-append {κ} : (P : A → Type κ) (xs ys : List A) → All P xs → All P ys → All P (xs ++ ys)
  All-append P [] ys h k = k
  All-append P (x ∷ xs) ys h k = (h.0, All-append P xs ys h.1 k)

  pub All-append_left {κ} : (P : A → Type κ) (xs ys : List A) → All P (xs ++ ys) → All P xs
  All-append_left P [] ys h = tt
  All-append_left P (x ∷ xs) ys h = (h.0, All-append_left P xs ys h.1)

  pub All-append_right {κ} : (P : A → Type κ) (xs ys : List A) → All P (xs ++ ys) → All P ys
  All-append_right P [] ys h = h
  All-append_right P (x ∷ xs) ys h = All-append_right P xs ys h.1
