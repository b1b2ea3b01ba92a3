-- ===== src/Prelude/Tests.antt =====
-- Boolean tests on the native numbers, and the conditional.
use Prim.Native.Nat.{ℕ, ◌≤◌, ◌<◌, compare, Ordering}
use mathlib.Core.Path.{◌≡◌, refl}
use mathlib.Core.Logic.{◌↔◌, ◌≢◌, ◌⊎◌, inl, inr}
use mathlib.Core.Bool.{Bool, true, false}
use mathlib.Core.Option.{Option, none, some}
use native.Mathlib.Omega.{arith}

abbrev pub ltb : ℕ → ℕ → Bool
ltb a b = elim (compare a b) [ Ordering.lt ↦ true | _ ↦ false ]

abbrev pub leb : ℕ → ℕ → Bool
leb a b = elim (compare a b) [ Ordering.gt ↦ false | _ ↦ true ]

infix 50 ◌==◌
abbrev pub ◌==◌ : ℕ → ℕ → Bool
a == b = elim (compare a b) [ Ordering.eq ↦ true | _ ↦ false ]

infix 1 if◌then◌else◌
abbrev pub if◌then◌else◌ {ℓ} : {A : Type ℓ} → Bool → A → A → A
if true then x else y = x
if false then x else y = y

pub ltb→lt : (a b : ℕ) → ltb a b ≡ true → a < b
ltb→lt a b h = ground arith

pub lt→ltb : (a b : ℕ) → a < b → ltb a b ≡ true
lt→ltb a b h = ground arith

pub le→ltb : (a b : ℕ) → b ≤ a → ltb a b ≡ false
le→ltb a b h = ground arith

pub leb→le : (a b : ℕ) → leb a b ≡ true → a ≤ b
leb→le a b h = ground arith

pub ==_iff : (a b : ℕ) → ((a == b) ≡ true) ↔ (a ≡ b)
==_iff a b = ground arith

pub ==-false→ne : (a b : ℕ) → (a == b) ≡ false → a ≢ b
==-false→ne a b h = ground arith

pub leb-false→lt : (a b : ℕ) → leb a b ≡ false → b < a
leb-false→lt a b h = ground arith

pub lt→leb-false : (a b : ℕ) → a < b → leb b a ≡ false
lt→leb-false a b h = ground arith

pub Bool-cases : (b : Bool) → (b ≡ true) ⊎ (b ≡ false)
Bool-cases true = inl refl
Bool-cases false = inr refl

pub Option-cases {ℓ} : {A : Type ℓ} (o : Option A) → (o ≡ none) ⊎ ((a : A) × (o ≡ some a))
Option-cases none = inl refl
Option-cases (some a) = inr (a, refl)

-- A decision as a test.
abbrev pub test_of {ℓ} : {P : Type ℓ} → Dec P → Bool
test_of (yes p) = true
test_of (no n) = false

pub test_of_sound {ℓ} : {P : Type ℓ} (d : Dec P) → test_of d ≡ true → P
test_of_sound (yes p) h = p
test_of_sound (no n) h = absurd (ground arith)

pub test_of_complete {ℓ} : {P : Type ℓ} (d : Dec P) → P → test_of d ≡ true
test_of_complete (yes p) q = refl
test_of_complete (no n) q = absurd (n q)
