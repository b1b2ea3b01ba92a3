-- ===== src/State/Equal/Clean.antt =====
-- What `clean_state` of src/state_eq.rs leaves of the registers.
use rand_verifier.Prelude.{
  ℕ, zero, suc, ◌+◌, ◌^◌, ◌≤◌, ◌<◌, ◌≡◌, inl, inr, refl, sym, ◌∙◌, ◌==◌, ◌&&◌, not, ==_iff,
  ==-false→ne, Bool, Bool-cases, List, length, set, length-set, get_or-set_self, get_or-set_ne,
  bit_and, arith, if◌then◌else◌,
}
use rand_verifier.State.Frames.{RegState, VerifierState, uninit, reg_at, num_regs}
use rand_verifier.State.Equal.Stack.{clean_regs, clean_state}

abbrev pub is_dead : ℕ → ℕ → Bool
is_dead live r = not (r == 10) && bit_and live (2 ^ r) == 0

-- Registers before the first one are not touched.
clean_regs-below :
    (n r live j : ℕ) (regs : List RegState)
    → j < r
    → reg_at (clean_regs n r live regs) j ≡ reg_at regs j
unfolding clean_regs
clean_regs-below zero r live j regs l = refl
clean_regs-below (suc n) r live j regs l = elim (Bool-cases (is_dead live r)) [
  | inl e ↦
      rw (clean_regs, e)
        (clean_regs-below n (suc r) live j (set regs r uninit) (omega arith)
          ∙ get_or-set_ne regs uninit uninit (λ q. absurd (omega (arith, q))))
  | inr e ↦ rw (clean_regs, e) (clean_regs-below n (suc r) live j regs (omega arith))
]

clean_regs-at :
    (n r live j : ℕ) (regs : List RegState)
    → r ≤ j
    → j < r + n
    → j < length regs
    → reg_at (clean_regs n r live regs) j ≡ (if is_dead live j then uninit else reg_at regs j)
unfolding clean_regs
clean_regs-at zero r live j regs l k b = absurd (omega arith)
clean_regs-at (suc n) r live j regs l k b = elim (Bool-cases (j == r)) [
  | inl q ↦
      let here = (==_iff j r).0 q in
      elim (Bool-cases (is_dead live r)) [
        | inl e ↦
            rw (here, clean_regs, e)
              (clean_regs-below n (suc r) live r (set regs r uninit) (omega arith)
                ∙ get_or-set_self regs r uninit uninit (omega (arith, here)))
        | inr e ↦ rw (here, clean_regs, e) (clean_regs-below n (suc r) live r regs (omega arith))
      ]
  | inr q ↦
      let far = ==-false→ne j r q in
      elim (Bool-cases (is_dead live r)) [
        | inl e ↦
            rw (clean_regs, e)
              (clean_regs-at n (suc r) live j (set regs r uninit) (ground arith) (omega arith)
                  (rw (length-set regs r uninit) b)
                ∙ rw (get_or-set_ne regs {i = r} {j = j} uninit uninit (λ p. far (sym p))) refl)
        | inr e ↦
            rw (clean_regs, e) (clean_regs-at n (suc r) live j regs (ground arith) (omega arith) b)
      ]
]

-- In a state with all its registers, `clean_state` leaves a register of the live mask, and the
-- frame pointer, as it is, and makes every other one uninitialized.
pub clean_state-regs :
    (s : VerifierState) (live_regs live_stack r : ℕ)
    → length s.regs ≡ num_regs
    → r < num_regs
    → reg_at (clean_state s live_regs live_stack).regs r
      ≡ (if is_dead live_regs r then uninit else reg_at s.regs r)
unfolding clean_state
clean_state-regs s live_regs live_stack r n l =
    clean_regs-at num_regs 0 live_regs r s.regs (omega arith) (omega arith) (omega (arith, n))
