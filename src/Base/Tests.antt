-- ===== src/Base/Tests.antt =====
-- Tests on native numbers, the conditional, equality as an interface, and case lemmas.
use Prim.Native.Nat.{ℕ, ◌≤◌, ◌<◌, compare, Ordering}
use mathlib.Core.Path.{◌≡◌, refl}
use mathlib.Core.Logic.{◌↔◌, ◌⊎◌, inl, inr}
use mathlib.Core.Bool.{Bool, true, false}
use mathlib.Core.Option.{Option, none, some}
use native.Mathlib.Omega.{arith}

abbrev pub ltb : ℕ → ℕ → Bool
ltb a b = elim (compare a b) [ Ordering.lt ↦ true | _ ↦ false ]

abbrev pub leb : ℕ → ℕ → Bool
leb a b = elim (compare a b) [ Ordering.gt ↦ false | _ ↦ true ]

abbrev pub nat_eqb : ℕ → ℕ → Bool
nat_eqb a b = elim (compare a b) [ Ordering.eq ↦ true | _ ↦ false ]

infix 1 if◌then◌else◌
abbrev pub if◌then◌else◌ {ℓ} : {A : Type ℓ} → Bool → A → A → A
if true then x else y = x
if false then x else y = y

ltb-lt : (a b : ℕ) → ltb a b ≡ true → a < b
ltb-lt a b h = ground arith

ltb-false-le : (a b : ℕ) → ltb a b ≡ false → b ≤ a
ltb-false-le a b h = ground arith

leb-le : (a b : ℕ) → leb a b ≡ true → a ≤ b
leb-le a b h = ground arith

pub nat_eqb_iff : (a b : ℕ) → (nat_eqb a b ≡ true) ↔ (a ≡ b)
nat_eqb_iff a b = ground arith

-- Splits that keep the equation of the value.
pub Bool-cases : (b : Bool) → (b ≡ true) ⊎ (b ≡ false)
Bool-cases true = inl refl
Bool-cases false = inr refl

pub Option-cases {ℓ} : {A : Type ℓ} (o : Option A) → (o ≡ none) ⊎ ((a : A) × (o ≡ some a))
Option-cases none = inl refl
Option-cases (some a) = inr (a, refl)

abbrev pub is_some {ℓ} : {A : Type ℓ} → Option A → Bool
is_some none = false
is_some (some a) = true

-- `PartialEq` and `Eq` of the source's key types: a test that decides equality.
infix 50 ◌==◌
pub record Eq {ℓ} (K : Type ℓ) : Type ℓ where
  pub same : (x y : K) → Bool
  pub same_iff : (x y : K) → (same x y ≡ true) ↔ (x ≡ y)

abbrev pub ◌==◌ {ℓ} : {K : Type ℓ} ⦃i : Eq K⦄ (x y : K) → Bool
◌==◌ ⦃i⦄ x y = i.same x y

instance abbrev pub nat_eq : Eq ℕ
nat_eq = record { same = nat_eqb; same_iff = nat_eqb_iff }

-- A key is found by itself.
module _ {ℓ} {A : Type ℓ} ⦃e : Eq A⦄ where
  same_refl : (a : A) → (a == a) ≡ true
  same_refl a = (e.same_iff a a).1 refl
