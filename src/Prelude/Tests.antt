-- ===== src/Prelude/Tests.antt =====
-- Boolean tests on the native numbers and on other types, and the conditional.
use Prim.Native.Nat.{ℕ, ◌≤◌, ◌<◌, compare, Ordering}
use Prim.Native.String.{String}
use mathlib.Core.Path.{◌≡◌, refl, ap}
use mathlib.Core.Logic.{◌↔◌, ◌⊎◌, inl, inr}
use mathlib.Core.Bool.{Bool, true, false, ◌&&◌}
use mathlib.Core.Option.{Option, none, some}
use mathlib.Core.List.{List, [], ◌∷◌}
use native.Mathlib.Omega.{arith}
use text.Mathlib.Text.{◌==◌ as str_eq}
use text.Mathlib.TextEquality.{eq_iff}

abbrev pub ltb : ℕ → ℕ → Bool
ltb a b = elim (compare a b) [ Ordering.lt ↦ true | _ ↦ false ]

abbrev pub leb : ℕ → ℕ → Bool
leb a b = elim (compare a b) [ Ordering.gt ↦ false | _ ↦ true ]

-- Equality of numbers, which are also the identifiers of the program.
infix 50 ◌==◌
abbrev pub ◌==◌ : ℕ → ℕ → Bool
a == b = elim (compare a b) [ Ordering.eq ↦ true | _ ↦ false ]

infix 1 if◌then◌else◌
abbrev pub if◌then◌else◌ {ℓ} : {A : Type ℓ} → Bool → A → A → A
if true then x else y = x
if false then x else y = y

pub ltb→lt : (a b : ℕ) → ltb a b ≡ true → a < b
ltb→lt a b h = ground arith

pub lt→ltb : (a b : ℕ) → a < b → ltb a b ≡ true
lt→ltb a b h = ground arith

pub leb→le : (a b : ℕ) → leb a b ≡ true → a ≤ b
leb→le a b h = ground arith

pub ==_iff : (a b : ℕ) → ((a == b) ≡ true) ↔ (a ≡ b)
==_iff a b = ground arith

pub ruleset tests = (arith, ltb→lt, lt→ltb, leb→le)

-- To split on a computed value and keep the equation.
pub Bool-cases : (b : Bool) → (b ≡ true) ⊎ (b ≡ false)
Bool-cases true = inl refl
Bool-cases false = inr refl

pub Option-cases {ℓ} : {A : Type ℓ} (o : Option A) → (o ≡ none) ⊎ ((a : A) × (o ≡ some a))
Option-cases none = inl refl
Option-cases (some a) = inr (a, refl)

-- Rust's `==` on types that derive `PartialEq`: a Boolean test that decides equality.
pub record Eq {ℓ} (A : Type ℓ) : Type ℓ where
  pub beq : A → A → Bool
  pub beq_iff : (a b : A) → (beq a b ≡ true) ↔ (a ≡ b)

instance abbrev pub ℕ_eq : Eq ℕ
ℕ_eq = record { beq = ◌==◌; beq_iff = ==_iff }

instance abbrev pub String_eq : Eq String
String_eq = record { beq = str_eq; beq_iff = eq_iff }

module _ {ℓ} {A : Type ℓ} ⦃e : Eq A⦄ where
  abbrev pub Option_beq : Option A → Option A → Bool
  Option_beq none none = true
  Option_beq none (some b) = false
  Option_beq (some a) none = false
  Option_beq (some a) (some b) = e.beq a b

  pub Option_beq_iff : (o p : Option A) → (Option_beq o p ≡ true) ↔ (o ≡ p)
  Option_beq_iff none none = (λ _. refl, λ _. refl)
  Option_beq_iff none (some b) = (λ h. cc, λ h. cc)
  Option_beq_iff (some a) none = (λ h. cc, λ h. cc)
  Option_beq_iff (some a) (some b) =
      (λ h. ap some ((e.beq_iff a b).0 h), λ h. (e.beq_iff a b).1 (cc))

  abbrev pub List_beq : List A → List A → Bool
  List_beq [] [] = true
  List_beq [] (y ∷ ys) = false
  List_beq (x ∷ xs) [] = false
  List_beq (x ∷ xs) (y ∷ ys) = e.beq x y && List_beq xs ys

  pub List_beq_iff : (xs ys : List A) → (List_beq xs ys ≡ true) ↔ (xs ≡ ys)
  List_beq_iff [] [] = (λ _. refl, λ _. refl)
  List_beq_iff [] (y ∷ ys) = (λ h. cc, λ h. cc)
  List_beq_iff (x ∷ xs) [] = (λ h. cc, λ h. cc)
  List_beq_iff (x ∷ xs) (y ∷ ys) = (
    λ h. ground (arith, e.beq_iff x y, List_beq_iff xs ys),
    λ h. ground (arith, e.beq_iff x y, List_beq_iff xs ys),
  )

instance abbrev pub Bytes_eq : Eq (List ℕ)
Bytes_eq = record { beq = List_beq; beq_iff = List_beq_iff }
