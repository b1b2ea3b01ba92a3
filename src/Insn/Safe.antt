-- ===== src/Insn/Safe.antt =====
-- Results of the decoder of src/insn.rs that are not the panic, and the reads of src/insn.rs that stay
-- inside their slice.
pub mod Arms
use rand_verifier.Prelude.{
  ℕ, zero, suc, ◌+◌, ◌<◌, ◌≡◌, ◌≢◌, refl, arith, Bool, true, false, if◌then◌else◌, List, [], ◌∷◌,
  Option, none, some, Result, ok, err, ◌>>=◌, length,
}
use rand_verifier.Insn.Decode.{DecodeError, panicked}
use rand_verifier.Insn.Read.{indexed, le_u16, le_u32, read_fields}

-- A result that is not one error.
abbrev pub Avoids : {E A : Type 0} → E → Result E A → Type 0
Avoids bad r = r ≢ err bad

abbrev pub Safe : {A : Type 0} → Result DecodeError A → Type 0
Safe r = Avoids panicked r

abbrev pub is_some {ℓ} : {A : Type ℓ} → Option A → Bool
is_some none = false
is_some (some a) = true

abbrev pub is_panic : DecodeError → Bool
is_panic panicked = true
is_panic _ = false

pub error-Safe : {A : Type 0} (e : DecodeError) → is_panic e ≡ false → Safe {A = A} (err e)
error-Safe e h p = ground arith

module _ {E A : Type 0} (bad : E) where
  pub if-Avoids :
      (b : Bool) (x y : Result E A)
      → (b ≡ true → Avoids bad x)
      → (b ≡ false → Avoids bad y)
      → Avoids bad (if b then x else y)
  if-Avoids true x y h k = h refl
  if-Avoids false x y h k = k refl

  pub >>=-Avoids :
      {B : Type 0} (m : Result E B) (f : B → Result E A)
      → Avoids bad m
      → ((b : B) → Avoids bad (f b))
      → Avoids bad (m >>= f)
  >>=-Avoids (ok b) f h k = k b
  >>=-Avoids (err e) f h k = λ p. h (cc)

-- A guard, whose error is not the panic.
pub guard-Safe :
    {A : Type 0} (b : Bool) (e : DecodeError) (y : Result DecodeError A)
    → is_panic e ≡ false
    → (b ≡ false → Safe y)
    → Safe (if b then err e else y)
guard-Safe b e y h k = if-Avoids panicked b (err e) y (λ t. error-Safe e h) k

pub indexed-Safe : (bytes : List ℕ) (i : ℕ) → i < length bytes → Safe (indexed bytes i)
unfolding indexed
indexed-Safe [] i l = absurd (omega arith)
indexed-Safe (b ∷ bytes) zero l = λ p. cc
indexed-Safe (b ∷ bytes) (suc i) l = indexed-Safe bytes i (omega arith)

pub le_u16-Safe : (bytes : List ℕ) (i : ℕ) → i + 1 < length bytes → Safe (le_u16 bytes i)
unfolding le_u16
le_u16-Safe bytes i l =
    >>=-Avoids panicked (indexed bytes i) _ (indexed-Safe bytes i (omega arith)) (λ low.
      >>=-Avoids panicked (indexed bytes (i + 1)) _ (indexed-Safe bytes (i + 1) l) (λ high p. cc))

pub le_u32-Safe : (bytes : List ℕ) (i : ℕ) → i + 3 < length bytes → Safe (le_u32 bytes i)
unfolding le_u32
le_u32-Safe bytes i l =
    >>=-Avoids panicked (le_u16 bytes i) _ (le_u16-Safe bytes i (omega arith)) (λ low.
      >>=-Avoids panicked (le_u16 bytes (i + 2)) _ (le_u16-Safe bytes (i + 2) (omega arith))
        (λ high p. cc))

pub read_fields-Safe : (bytes : List ℕ) → 7 < length bytes → Safe (read_fields bytes)
unfolding read_fields
read_fields-Safe bytes l =
    >>=-Avoids panicked (indexed bytes 0) _ (indexed-Safe bytes 0 (omega arith)) (λ op.
      >>=-Avoids panicked (indexed bytes 1) _ (indexed-Safe bytes 1 (omega arith)) (λ regs.
        >>=-Avoids panicked (le_u16 bytes 2) _ (le_u16-Safe bytes 2 (omega arith)) (λ offset.
          >>=-Avoids panicked (le_u32 bytes 4) _ (le_u32-Safe bytes 4 (omega arith))
            (λ imm p. cc))))
