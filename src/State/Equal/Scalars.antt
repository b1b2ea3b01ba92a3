-- ===== src/State/Equal/Scalars.antt =====
-- The comparison of scalars in src/state_eq.rs against the numbers that they stand for.
use rand_verifier.Prelude.{ℕ, ◌≡◌, ◌⊎◌, inl, inr, ap₂, true, arith}
use rand_verifier.Tnum.{subsumes}
use rand_verifier.Tnum.Members.{IsNormal}
use rand_verifier.Tnum.Order.{subsumes_iff}
use rand_verifier.State.{ScalarBounds}
use rand_verifier.State.Sync.{InBounds}
use rand_verifier.State.Frames.{scalar}
use rand_verifier.State.Equal.{
  ExactLevel, exact, not_exact, IdMap, regsafe, regs_exact, ranges_safe, scalar_bounds_exact,
  scalar_range_within,
}

module _ (old new : ScalarBounds) (normal_old : IsNormal old.tnum)
    (normal_new : IsNormal new.tnum) where
  scalar_range_within-InBounds :
      (x : ℕ) → scalar_range_within old new ≡ true → InBounds new x → InBounds old x
  unfolding scalar_range_within
  scalar_range_within-InBounds x h v =
      let covers : subsumes old.tnum new.tnum ≡ true = ground (arith, h) in
      record {
        ranges = ground (arith, h, v.ranges);
        unsigned32 = ground (arith, h, v.unsigned32);
        signed32 = ground (arith, h, v.signed32);
        member = (subsumes_iff old.tnum new.tnum normal_old normal_new).0 covers x v.member;
      }

  scalar_bounds_exact-InBounds :
      (x : ℕ) → scalar_bounds_exact old new ≡ true → InBounds new x → InBounds old x
  unfolding scalar_bounds_exact
  scalar_bounds_exact-InBounds x h v =
      let value : new.tnum.value ≡ old.tnum.value = ground (arith, h) in
      let mask : new.tnum.mask ≡ old.tnum.mask = ground (arith, h) in
      let same : new.tnum ≡ old.tnum =
        ap₂ (λ (a : ℕ) (b : ℕ). record { value = a; mask = b }) value mask in
      record {
        ranges = ground (arith, h, v.ranges);
        unsigned32 = ground (arith, h, v.unsigned32);
        signed32 = ground (arith, h, v.signed32);
        member = rw same at v.member;
      }

  -- Where tracked numbers have disjoint u64 fields and `regsafe` accepts a scalar against one that
  -- was explored, exactly or with the explored one precise, all that the explored scalar tracks
  -- holds of every number of which all that the new one tracks holds.
  pub regsafe-InBounds :
      (level : ExactLevel) (idmap : IdMap) (x : ℕ)
      → (level ≡ exact) ⊎ (old.precise ≡ true)
      → (regsafe (scalar old) (scalar new) level idmap).1 ≡ true
      → InBounds new x
      → InBounds old x
  unfolding regsafe regs_exact ranges_safe
  regsafe-InBounds exact idmap x p h v = scalar_bounds_exact-InBounds x (ground (arith, h)) v
  regsafe-InBounds not_exact idmap x (inl p) h v = absurd (cc)
  regsafe-InBounds not_exact idmap x (inr p) h v =
      scalar_range_within-InBounds x (ground (arith, p, h)) v
