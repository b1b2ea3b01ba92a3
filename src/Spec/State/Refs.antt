-- ===== src/Spec/State/Refs.antt =====
-- Acquiring a reference and releasing it again.
use rand_verifier.Prelude.{
  ℕ, zero, suc, ◌+◌, ◌-◌, ◌≤◌, ◌<◌, ◌≡◌, ◌==◌, ==_iff, leb, some, none, List, [], ◌∷◌, ok, arith,
  Bool-cases, Option-cases, inl, inr, length, set, take, refl, sym, ap, ◌∙◌, if-err-eq-ok,
  length-set, leb-false→lt,
}
use rand_verifier.Spec.State.{SpecState, acquire_ref, acquired, released_at, release_ref, position}
use rand_verifier.Spec.Verdict.{too_many_references}

module _ {ℓ} {A : Type ℓ} where
  take-set : (xs : List A) (n : ℕ) (v : A) → take n (set xs n v) ≡ take n xs
  take-set [] n v = refl
  take-set (x ∷ xs) zero v = refl
  take-set (x ∷ xs) (suc n) v = ap (λ (t : List A). x ∷ t) (take-set xs n v)

-- A new last id is found at its own index.
position-take :
    (rs : List ℕ) (n id : ℕ)
    → n < length rs
    → position (take n rs) id ≡ none
    → position (take (suc n) (set rs n id)) id ≡ some n
unfolding position
position-take [] n id l h = absurd (omega arith)
position-take (r ∷ rs) zero id l h = rw ((==_iff id id).1 refl) refl
position-take (r ∷ rs) (suc n) id l h = elim (Bool-cases (r == id)) [
  | inl e ↦ absurd (cc (rw e at h))
  | inr e ↦ elim (Option-cases (position (take n rs) id)) [
    | inl p ↦ rw (e, position-take rs n id (omega arith) p) refl
    | inr (i, p) ↦ absurd (cc (rw (e, p) at h))
  ]
]

-- The ids in use.
abbrev pub active : SpecState → List ℕ
active st = take st.refs_cnt st.refs

add_one : (n : ℕ) → n + 1 ≡ suc n
add_one n = omega arith

add_one_sub : (n : ℕ) → n + 1 - 1 ≡ n
add_one_sub n = omega arith

-- An acquired reference had a free place.
acquire_ref-acquired :
    (st st' : SpecState) (id : ℕ)
    → acquire_ref st id ≡ ok st'
    → (st.refs_cnt < length st.refs) × (acquired st id ≡ st')
unfolding acquire_ref
acquire_ref-acquired st st' id h =
    let (room, same) =
      if-err-eq-ok (leb (length st.refs) st.refs_cnt) too_many_references (ok (acquired st id)) h in
    (leb-false→lt (length st.refs) st.refs_cnt room, cc)

released_at-acquired :
    (st : SpecState) (id : ℕ) → active (released_at (acquired st id) st.refs_cnt) ≡ active st
released_at-acquired st id =
    rw (add_one_sub st.refs_cnt)
      (take-set (set st.refs st.refs_cnt id) st.refs_cnt _ ∙ take-set st.refs st.refs_cnt id)

release_ref-found :
    (st : SpecState) (id i : ℕ)
    → position (active st) id ≡ some i
    → release_ref st id ≡ some (released_at st i)
unfolding release_ref
release_ref-found st id i e = rw (e, release_ref) refl

-- A reference acquired under an id not in use can be released, and the ids in use are then as
-- before.
pub release_ref-acquire_ref :
    (st st' : SpecState) (id : ℕ)
    → position (active st) id ≡ none
    → acquire_ref st id ≡ ok st'
    → (st'' : SpecState) × (release_ref st' id ≡ some st'') × (active st'' ≡ active st)
release_ref-acquire_ref st st' id fresh h =
    let (room, same) = acquire_ref-acquired st st' id h in
    let found : position (active (acquired st id)) id ≡ some st.refs_cnt =
      rw (add_one st.refs_cnt) (position-take st.refs st.refs_cnt id room fresh) in
    rw (sym same) (
      released_at (acquired st id) st.refs_cnt,
      release_ref-found (acquired st id) id st.refs_cnt found,
      released_at-acquired st id,
    )

-- An acquisition that is not refused adds one reference, and the count stays within the array.
pub acquire_ref-bound :
    (st st' : SpecState) (id : ℕ)
    → acquire_ref st id ≡ ok st'
    → (st'.refs_cnt ≡ st.refs_cnt + 1) × (st'.refs_cnt ≤ length st'.refs)
acquire_ref-bound st st' id h =
    let (room, same) = acquire_ref-acquired st st' id h in
    rw (sym same) (refl, omega (arith, length-set st.refs st.refs_cnt id))
