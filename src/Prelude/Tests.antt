-- ===== src/Prelude/Tests.antt =====
-- Boolean tests, the conditional, and Python's `==` as an interface.
use Prim.Native.Nat.{ℕ, ◌≤◌, ◌<◌, compare, Ordering}
use Prim.Native.String.{String}
use mathlib.Core.Path.{◌≡◌, refl, ap}
use mathlib.Core.Logic.{◌↔◌, ◌≢◌, ◌⊎◌, inl, inr}
use mathlib.Core.Bool.{Bool, true, false}
use mathlib.Core.Option.{Option, none, some}
use native.Mathlib.Omega.{arith}
use text.Mathlib.Text.{◌==◌ as str_eq}
use text.Mathlib.TextEquality.{eq_iff}

abbrev pub ltb : ℕ → ℕ → Bool
ltb a b = elim (compare a b) [ Ordering.lt ↦ true | _ ↦ false ]

abbrev pub leb : ℕ → ℕ → Bool
leb a b = elim (compare a b) [ Ordering.gt ↦ false | _ ↦ true ]

abbrev pub nat_eqb : ℕ → ℕ → Bool
nat_eqb a b = elim (compare a b) [ Ordering.eq ↦ true | _ ↦ false ]

infix 1 if◌then◌else◌
abbrev pub if◌then◌else◌ {ℓ} : {A : Type ℓ} → Bool → A → A → A
if true then x else y = x
if false then x else y = y

pub ltb→lt : (a b : ℕ) → ltb a b ≡ true → a < b
ltb→lt a b h = ground arith

pub lt→ltb : (a b : ℕ) → a < b → ltb a b ≡ true
lt→ltb a b h = ground arith

pub leb→le : (a b : ℕ) → leb a b ≡ true → a ≤ b
leb→le a b h = ground arith

pub nat_eqb_iff : (a b : ℕ) → (nat_eqb a b ≡ true) ↔ (a ≡ b)
nat_eqb_iff a b = ground arith

-- To split on a computed value and keep the equation.
pub Bool-cases : (b : Bool) → (b ≡ true) ⊎ (b ≡ false)
Bool-cases true = inl refl
Bool-cases false = inr refl

pub Option-cases {ℓ} : {A : Type ℓ} (o : Option A) → (o ≡ none) ⊎ ((a : A) × (o ≡ some a))
Option-cases none = inl refl
Option-cases (some a) = inr (a, refl)

-- What Python's `==` is on a type: a test, and the fact that it decides equality.
pub record HasEq (A : Type 0) : Type 0 where
  pub eqb : A → A → Bool
  pub eqb_iff : (x y : A) → (eqb x y ≡ true) ↔ (x ≡ y)

infix 50 ◌==◌
abbrev pub ◌==◌ : {A : Type 0} ⦃e : HasEq A⦄ → A → A → Bool
◌==◌ ⦃e⦄ x y = e.eqb x y

-- On texts.
instance abbrev pub string_eq : HasEq String
string_eq = record { eqb = str_eq; eqb_iff = eq_iff }

-- On counts.
instance abbrev pub nat_eq : HasEq ℕ
nat_eq = record { eqb = nat_eqb; eqb_iff = nat_eqb_iff }

module _ {A : Type 0} ⦃e : HasEq A⦄ where
  pub eqb_refl : (a : A) → (a == a) ≡ true
  eqb_refl a = (e.eqb_iff a a).1 refl

  pub eq_of_eqb : (a b : A) → (a == b) ≡ true → a ≡ b
  eq_of_eqb a b = (e.eqb_iff a b).0

  pub eqb_of_eq : (a b : A) → a ≡ b → (a == b) ≡ true
  eqb_of_eq a b = (e.eqb_iff a b).1

  pub ne_of_eqb : (a b : A) → (a == b) ≡ false → a ≢ b
  ne_of_eqb a b h p = ground (arith, eqb_of_eq a b p)

  pub eqb_sym : (a b : A) → (a == b) ≡ (b == a)
  eqb_sym a b = ground (arith, e.eqb_iff a b, e.eqb_iff b a)

  abbrev pub option_eqb : Option A → Option A → Bool
  option_eqb none none = true
  option_eqb (some a) (some b) = a == b
  option_eqb none (some b) = false
  option_eqb (some a) none = false

  pub option_eqb_iff : (a b : Option A) → (option_eqb a b ≡ true) ↔ (a ≡ b)
  option_eqb_iff none none = (λ _. refl, λ _. refl)
  option_eqb_iff (some a) (some b) = (λ h. ap some (eq_of_eqb a b h), λ p. eqb_of_eq a b (cc))
  option_eqb_iff none (some b) = (λ h. cc, λ h. cc)
  option_eqb_iff (some a) none = (λ h. cc, λ h. cc)

  instance abbrev pub option_eq : HasEq (Option A)
  option_eq = record { eqb = option_eqb; eqb_iff = option_eqb_iff }

-- A chain of steps that may give nothing.
infixl 5 ◌>>=◌
abbrev pub ◌>>=◌ : {A B : Type 0} → Option A → (A → Option B) → Option B
none >>= f = none
some a >>= f = f a
