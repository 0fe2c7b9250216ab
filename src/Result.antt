-- ===== src/Result.antt =====
-- Outcomes of the C++ code: a value, a thrown exception, undefined behaviour, or (in the model
-- alone) a loop that was given too little fuel.
use mathlib.Core.Path.{subst}
use sprout_lang.Prelude.{ℕ, ◌≡◌, ◌≢◌, refl, Bool, true, false, List, if◌then◌else◌}

-- The exceptions: std::runtime_error by its message and the text in it, std::bad_alloc, and the two
-- of std::stoll.
pub data Error : Type 0 where
  header_too_small bad_magic bad_version outside_bytecode invalid_operands : Error
  invalid_opcode : ℕ → Error
  index_out_of_bounds no_memory faulty_allocation : Error
  unexpected_end other_token block_not_closed : Error
  unexpected_token bad_argument_list expected_identifier : List ℕ → Error
  no_conversion out_of_range : Error

-- Undefined behaviour: an access outside the bytecode, the operand stack, the function table or
-- live heap memory, a signed overflow, a division by zero.
pub data Fault : Type 0 where
  bytecode_access stack_access table_access memory_access int_overflow division uninitialized :
      Fault

-- How a piece of the code ends.
pub data Result {ℓ} (A : Type ℓ) : Type ℓ where
  out_of_fuel : Result A
  fault : Fault → Result A
  thrown : Error → Result A
  ok : A → Result A

module _ {ℓA ℓB} {A : Type ℓA} {B : Type ℓB} where
  -- What follows runs only where what came before has a value.
  infixl 5 ◌>>=◌
  abbrev pub ◌>>=◌ : Result A → (A → Result B) → Result B
  out_of_fuel >>= next = out_of_fuel
  fault why >>= next = fault why
  thrown why >>= next = thrown why
  ok x >>= next = next x

  pub >>=-eq-ok :
      (r : Result A) (next : A → Result B) {y : B}
      → (r >>= next) ≡ ok y
      → (x : A) × (r ≡ ok x) × (next x ≡ ok y)
  >>=-eq-ok out_of_fuel next ends = cc
  >>=-eq-ok (fault why) next ends = cc
  >>=-eq-ok (thrown why) next ends = cc
  >>=-eq-ok (ok x) next ends = (x, refl, ends)

-- Undefined behaviour unless the test holds; an exception unless it holds.
abbrev pub ensure : Bool → Fault → Result (Unit {0})
ensure test why = if test then ok tt else fault why

abbrev pub check : Bool → Error → Result (Unit {0})
check test why = if test then ok tt else thrown why

infixl 5 ◌>>◌
abbrev pub ◌>>◌ {ℓ} : {B : Type ℓ} → Result (Unit {0}) → Result B → Result B
r >> rest = r >>= λ done. rest

-- The code ends within the fuel and without undefined behaviour, and a value that it returns has
-- the property.
pub data Returns {ℓ κ} {A : Type ℓ} (P : A → Type κ) : Result A → Type (ℓ ⊔ κ) where
  gives : (a : A) → P a → Returns P (ok a)
  throws : (why : Error) → Returns P (thrown why)

module _ {ℓ κ} {A : Type ℓ} {P : A → Type κ} where
  pub Returns-ok : (r : Result A) {a : A} → Returns P r → r ≡ ok a → P a
  Returns-ok _ (gives a p) e = subst P (cc) p
  Returns-ok _ (throws why) e = cc

  pub Returns-out_of_fuel : (r : Result A) → Returns P r → r ≢ out_of_fuel
  Returns-out_of_fuel _ (gives a p) e = cc
  Returns-out_of_fuel _ (throws why) e = cc

  pub branch-Returns :
      {x y : Result A} (b : Bool)
      → (b ≡ true → Returns P x)
      → (b ≡ false → Returns P y)
      → Returns P (if b then x else y)
  branch-Returns true first second = first refl
  branch-Returns false first second = second refl

  pub >>=-Returns {ℓ' κ'} :
      {B : Type ℓ'} {Q : B → Type κ'} (r : Result A) (next : A → Result B)
      → Returns P r
      → ((a : A) → P a → Returns Q (next a))
      → Returns Q (r >>= next)
  >>=-Returns _ next (gives a p) k = k a p
  >>=-Returns _ next (throws why) k = throws why

  pub Returns-map {κ'} :
      {Q : A → Type κ'} {r : Result A} → Returns P r → ((a : A) → P a → Q a) → Returns Q r
  Returns-map (gives a p) weaker = gives a (weaker a p)
  Returns-map (throws why) weaker = throws why

  pub Returns-itself : {r : Result A} → Returns P r → Returns (λ a. r ≡ ok a) r
  Returns-itself (gives a p) = gives a refl
  Returns-itself (throws why) = throws why

pub Returns-both {ℓ κ κ'} :
    {A : Type ℓ} {P : A → Type κ} {Q : A → Type κ'} {r : Result A}
    → Returns P r
    → Returns Q r
    → Returns (λ a. P a × Q a) r
Returns-both (gives a p) q = gives a (p, Returns-ok (ok a) q refl)
Returns-both (throws why) q = throws why

pub check-Returns : (b : Bool) (why : Error) → Returns (λ _. Unit {0}) (check b why)
check-Returns true why = gives tt tt
check-Returns false why = throws why

-- A value that the code returns has the property; whether it returns one is left open.
pub data Yields {ℓ κ} {A : Type ℓ} (P : A → Type κ) : Result A → Type (ℓ ⊔ κ) where
  value : (a : A) → P a → Yields P (ok a)
  raised : (why : Error) → Yields P (thrown why)
  undefined : (why : Fault) → Yields P (fault why)
  no_fuel : Yields P out_of_fuel

module _ {ℓ κ} {A : Type ℓ} {P : A → Type κ} where
  pub Yields-ok : (r : Result A) {a : A} → Yields P r → r ≡ ok a → P a
  Yields-ok _ (value a p) e = subst P (cc) p
  Yields-ok _ (raised why) e = cc
  Yields-ok _ (undefined why) e = cc
  Yields-ok _ no_fuel e = cc

  pub branch-Yields :
      {x y : Result A} (b : Bool) → Yields P x → Yields P y → Yields P (if b then x else y)
  branch-Yields true first second = first
  branch-Yields false first second = second

  pub >>=-Yields {ℓ' κ'} :
      {B : Type ℓ'} {Q : B → Type κ'} (r : Result A) (next : A → Result B)
      → Yields P r
      → ((a : A) → P a → Yields Q (next a))
      → Yields Q (r >>= next)
  >>=-Yields _ next (value a p) k = k a p
  >>=-Yields _ next (raised why) k = raised why
  >>=-Yields _ next (undefined why) k = undefined why
  >>=-Yields _ next no_fuel k = no_fuel

  pub >>-Yields : (first : Result (Unit {0})) {r : Result A} → Yields P r → Yields P (first >> r)
  >>-Yields (ok done) h = h
  >>-Yields (thrown why) h = raised why
  >>-Yields (fault why) h = undefined why
  >>-Yields out_of_fuel h = no_fuel

-- A result of which nothing is said.
pub any-Yields {ℓ} : {A : Type ℓ} (r : Result A) → Yields (λ _. Unit {0}) r
any-Yields (ok a) = value a tt
any-Yields (thrown why) = raised why
any-Yields (fault why) = undefined why
any-Yields out_of_fuel = no_fuel
