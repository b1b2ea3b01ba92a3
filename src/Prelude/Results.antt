-- ===== src/Prelude/Results.antt =====
-- Rust's `Result`, with its chaining.
use mathlib.Core.Path.{◌≡◌, refl}
use rand_verifier.Prelude.Tests.{if◌then◌else◌}
use mathlib.Core.Logic.{◌⊎◌, inl, inr}
use mathlib.Core.Bool.{Bool, true, false}

pub data Result {ℓ} (E A : Type ℓ) : Type ℓ where
  ok : A → Result E A
  err : E → Result E A

-- What follows a success; an error is passed on.
infixl 5 ◌>>=◌ ◌>>◌
abbrev pub ◌>>=◌ {ℓ} : {E A B : Type ℓ} → Result E A → (A → Result E B) → Result E B
first >>= next = elim first [ err why ↦ err why | ok a ↦ next a ]

abbrev pub ◌>>◌ {ℓ} : {E A B : Type ℓ} → Result E A → Result E B → Result E B
first >> second = first >>= λ a. second

-- A chain that succeeds had a first part that succeeded.
pub >>=-eq-ok {ℓ} :
    {E A B : Type ℓ} (first : Result E A) (next : A → Result E B) {b : B}
    → (first >>= next) ≡ ok b
    → (a : A) × (first ≡ ok a) × (next a ≡ ok b)
>>=-eq-ok (err why) next e = absurd (cc)
>>=-eq-ok (ok a) next e = (a, refl, e)

-- Behind a guard that returned no error, the guard's test failed.
pub if-err-eq-ok {ℓ} :
    {E A : Type ℓ} (b : Bool) (e : E) (r : Result E A) {a : A}
    → (if b then err e else r) ≡ ok a
    → (b ≡ false) × (r ≡ ok a)
if-err-eq-ok true e r h = cc
if-err-eq-ok false e r h = (refl, h)

pub Result-cases {ℓ} :
    {E A : Type ℓ} (r : Result E A) → ((a : A) × (r ≡ ok a)) ⊎ ((e : E) × (r ≡ err e))
Result-cases (ok a) = inl (a, refl)
Result-cases (err e) = inr (e, refl)
