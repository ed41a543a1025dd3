-- ===== src/Prelude/Outcome.antt =====
-- The outcome of kernel code: a value, or the end of the machine's progress in `panic_assert` or
-- `panic` of src/common.c, which disable interrupts and loop for ever.
use mathlib.Core.Path.{◌≡◌, refl, sym, subst}
use mathlib.Core.Logic.{◌⊎◌, inl, inr}
use mathlib.Core.Bool.{Bool, true, false}
use my_own_os.Prelude.Tests.{if◌then◌else◌}

pub data Outcome {ℓ} (A : Type ℓ) : Type ℓ where
  ok : A → Outcome A
  panic : Outcome A

-- What comes after code that stopped does not run.
infixl 5 ◌>>=◌
abbrev pub ◌>>=◌ {ℓ κ} : {A : Type ℓ} {B : Type κ} → Outcome A → (A → Outcome B) → Outcome B
panic >>= next = panic
ok value >>= next = next value

infixl 5 ◌>>◌
abbrev pub ◌>>◌ {κ} : {B : Type κ} → Outcome (Unit {0}) → Outcome B → Outcome B
panic >> next = panic
ok _ >> next = next

-- `ASSERT(b)`
abbrev pub assert : Bool → Outcome (Unit {0})
assert true = ok tt
assert false = panic

pub ok-injective {ℓ} : {A : Type ℓ} {a b : A} → ok a ≡ ok b → a ≡ b
ok-injective e = cc

pub Outcome-cases {ℓ} : {A : Type ℓ} (m : Outcome A) → (m ≡ panic) ⊎ ((a : A) × (m ≡ ok a))
Outcome-cases (ok a) = inr (a, refl)
Outcome-cases panic = inl refl

-- Code that ran to its end ran its first part to the end.
pub >>=-eq-ok {ℓ κ} :
    {A : Type ℓ} (first : Outcome A) {B : Type κ} (next : A → Outcome B) {result : B}
    → (first >>= next) ≡ ok result
    → (value : A) × (first ≡ ok value) × (next value ≡ ok result)
>>=-eq-ok panic next done = cc
>>=-eq-ok (ok value) next done = (value, refl, done)

-- The code does not stop, and its result satisfies `P`.
pub data Returns {ℓ κ} {A : Type ℓ} (P : A → Type κ) : Outcome A → Type (ℓ ⊔ κ) where
  returned : (a : A) → P a → Returns P (ok a)

module _ {ℓ κ} {A : Type ℓ} {P : A → Type κ} where
  pub Returns->>= {ℓ' κ'} :
      {B : Type ℓ'} {Q : B → Type κ'} {first : Outcome A} {next : A → Outcome B}
      → Returns P first
      → ((a : A) → P a → Returns Q (next a))
      → Returns Q (first >>= next)
  Returns->>= (returned a p) then_next = then_next a p

  pub Returns-ok : {r : Outcome A} → Returns P r → (a : A) × (r ≡ ok a) × P a
  Returns-ok (returned a p) = (a, refl, p)

  pub ok-Returns : {r : Outcome A} (a : A) → r ≡ ok a → P a → Returns P r
  ok-Returns {r} a e p = subst (Returns P) (sym e) (returned a p)

module _ {ℓ κ} {A : Type ℓ} {P : A → Type κ} where
  -- After an assertion that holds.
  pub Returns-assert :
      {next : Outcome A} (b : Bool) → b ≡ true → Returns P next → Returns P (assert b >> next)
  Returns-assert true holds next = next
  Returns-assert false holds next = cc

  pub Returns-if :
      {x y : Outcome A} (b : Bool)
      → (b ≡ true → Returns P x)
      → (b ≡ false → Returns P y)
      → Returns P (if b then x else y)
  Returns-if true yes_case no_case = yes_case refl
  Returns-if false yes_case no_case = no_case refl

pub Returns-map {ℓ κ κ'} :
    {A : Type ℓ} {P : A → Type κ} {Q : A → Type κ'} {r : Outcome A}
    → Returns P r
    → ((a : A) → P a → Q a)
    → Returns Q r
Returns-map (returned a p) weaken = returned a (weaken a p)

-- If the code does not stop, its result satisfies `P`.
pub data IfOk {ℓ κ} {A : Type ℓ} (P : A → Type κ) : Outcome A → Type (ℓ ⊔ κ) where
  stopped : IfOk P panic
  holds : (a : A) → P a → IfOk P (ok a)

module _ {ℓ κ} {A : Type ℓ} {P : A → Type κ} where
  pub IfOk->>= {ℓ' κ'} :
      {B : Type ℓ'} {Q : B → Type κ'} {first : Outcome A} {next : A → Outcome B}
      → IfOk P first
      → ((a : A) → P a → IfOk Q (next a))
      → IfOk Q (first >>= next)
  IfOk->>= stopped then_next = stopped
  IfOk->>= (holds a p) then_next = then_next a p

  pub IfOk-eq : {r : Outcome A} {a : A} → IfOk P r → r ≡ ok a → P a
  IfOk-eq stopped e = cc
  IfOk-eq (holds a p) e = subst P (ok-injective e) p

  -- After an assertion, it holds.
  pub IfOk-assert :
      {next : Outcome A} (b : Bool) → (b ≡ true → IfOk P next) → IfOk P (assert b >> next)
  IfOk-assert true next = next refl
  IfOk-assert false next = stopped

  pub IfOk-if :
      {x y : Outcome A} (b : Bool)
      → (b ≡ true → IfOk P x)
      → (b ≡ false → IfOk P y)
      → IfOk P (if b then x else y)
  IfOk-if true yes_case no_case = yes_case refl
  IfOk-if false yes_case no_case = no_case refl

pub IfOk-map {ℓ κ κ'} :
    {A : Type ℓ} {P : A → Type κ} {Q : A → Type κ'} {r : Outcome A}
    → IfOk P r
    → ((a : A) → P a → Q a)
    → IfOk Q r
IfOk-map stopped weaken = stopped
IfOk-map (holds a p) weaken = holds a (weaken a p)
