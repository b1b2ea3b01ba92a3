-- ===== src/Spec/Memory/Spilled.antt =====
-- A full 8-byte store and the load that fills it back.
use rand_verifier.Prelude.{
  ℕ, ◌<◌, ◌≡◌, Bool, true, ◌&&◌, ◌||◌, not, ==_iff, leb, Option, some, none, ok, List, arith,
  if-err-eq-ok, >>=-eq-ok, inl, inr, length, set, get_or, get_or-set_self, refl, sym, ap, ◌∙◌,
  Option-cases,
}
use rand_verifier.Prelude.Int.{ℤ, pos, eqb_ℤ, ltb_ℤ, neg_ℤ, ◌-ℤ◌}
use rand_verifier.Insn.{size_dw}
use rand_verifier.ProgType.{ProgType}
use rand_verifier.Spec.Value.{
  SpecValue, scalar, uninit, ptr_to_stack, ptr_to_ctx, ptr_to_map, ptr_to_map_value, ptr_to_mem,
  ptr_to_map_value_or_null, ptr_to_mem_or_null,
}
use rand_verifier.Spec.State.{SpecState, SpecStack, Spill, reg, stack_size}
use rand_verifier.Spec.Memory.{
  size_bytes, byte_of, slot_of, mark_range_init, check_stack_range, access_start, access_end,
  aligned_across,
}
use rand_verifier.Spec.Memory.Store.{
  filled, constant_written, with_spill, store, store_at, store_stack, store_full, spill_of,
  spec_const,
}
use rand_verifier.Spec.Memory.Load.{load, load_at, load_stack, load_exact, spill_at, spill_value}

eqb_self : (z : ℤ) → eqb_ℤ z z ≡ true
eqb_self z = (==_iff _ _).1 refl

-- The slot of a byte is one of the 64.
slot_of-lt : (abs : ℤ) (slot : ℕ) → slot_of abs ≡ some slot → slot < 64
unfolding slot_of
slot_of-lt abs slot h = ground arith

-- What a full spill keeps of a value is the value.
spill_value-spill_of : (v : SpecValue) → spill_value (spill_of v) ≡ v
unfolding spill_value spill_of
spill_value-spill_of uninit = refl
spill_value-spill_of (scalar lo hi) = refl
spill_value-spill_of (ptr_to_stack lo hi) = refl
spill_value-spill_of (ptr_to_ctx off) = refl
spill_value-spill_of (ptr_to_map k v t) = refl
spill_value-spill_of (ptr_to_map_value lo hi size) = refl
spill_value-spill_of (ptr_to_map_value_or_null size id) = refl
spill_value-spill_of (ptr_to_mem lo hi size id) = refl
spill_value-spill_of (ptr_to_mem_or_null size id) = refl

-- A passed check does not depend on the instruction that it reports.
check_stack_range-pc :
    (pc pc' : ℕ) (start end : ℤ) (size : ℕ)
    → check_stack_range pc start end size ≡ ok tt
    → check_stack_range pc' start end size ≡ ok tt
unfolding check_stack_range
check_stack_range-pc pc pc' start end size h =
    let (inside, rest) =
      if-err-eq-ok (ltb_ℤ start (neg_ℤ (pos stack_size)) || ltb_ℤ (pos 0) end) _ _ h in
    let (grid, done) =
      if-err-eq-ok (leb 4 size && not (aligned_across start (end -ℤ pos size) size)) _ _ rest in
    rw (inside, grid) refl

-- After a full store the slot holds the value's spill, and the registers are as before.
record IsSpilled (st st' : SpecState) (start : ℤ) (value : SpecValue) : Type 0 where
  held : spill_at st'.cur.stack (byte_of start) ≡ some (spill_of value)
  regs_kept : st'.cur.regs ≡ st.cur.regs

constant_written-spill :
    (stack : SpecStack) (abs : ℕ) (c : Option ℕ)
    → (constant_written stack abs c).spill ≡ stack.spill
unfolding constant_written
constant_written-spill stack abs none = refl
constant_written-spill stack abs (some v) = refl

filled-spill :
    (st : SpecState) (slot : ℕ) (start : ℤ) (value : SpecValue)
    → (filled st slot start value).cur.stack.spill
      ≡ set st.cur.stack.spill slot (some (spill_of value))
unfolding filled mark_range_init with_spill
filled-spill st slot start value = constant_written-spill _ _ (spec_const value)

spill_at-slot :
    (stack : SpecStack) (abs : ℤ) (slot : ℕ)
    → slot_of abs ≡ some slot
    → spill_at stack abs ≡ get_or stack.spill slot none
unfolding spill_at
spill_at-slot stack abs slot e = rw (e, spill_at) refl

filled-IsSpilled :
    (st : SpecState) (slot : ℕ) (start : ℤ) (value : SpecValue)
    → length st.cur.stack.spill ≡ 64
    → slot_of (byte_of start) ≡ some slot
    → IsSpilled st (filled st slot start value) start value
unfolding filled
filled-IsSpilled st slot start value l e = record {
  held =
      spill_at-slot _ _ slot e
      ∙ ap (λ (t : List (Option Spill)). get_or t slot none) (filled-spill st slot start value)
      ∙ get_or-set_self st.cur.stack.spill slot _ none
          (omega (arith, slot_of-lt (byte_of start) slot e));
  regs_kept = refl;
}

store_full-IsSpilled :
    (st st' : SpecState) (pc : ℕ) (start : ℤ) (value : SpecValue)
    → length st.cur.stack.spill ≡ 64
    → store_full st pc start value ≡ ok st'
    → IsSpilled st st' start value
unfolding store_full
store_full-IsSpilled st st' pc start value l h = elim (Option-cases (slot_of (byte_of start))) [
  | inl e ↦ absurd (cc (rw (e, store_full) at h))
  | inr (slot, e) ↦
      let same : filled st slot start value ≡ st' = cc (rw (e, store_full) at h) in
      rw (sym same) (filled-IsSpilled st slot start value l e)
]

-- At the same known offset, a load of the slot gives the value back.
load_stack-IsSpilled :
    (st st' : SpecState) (pc : ℕ) (lo off : ℤ) (ext : Bool) (value : SpecValue)
    → IsSpilled st st' (access_start lo off) value
    → check_stack_range pc (access_start lo off) (access_end lo off 8) 8 ≡ ok tt
    → load_stack st'.cur.stack pc lo lo off 8 ext ≡ ok value
unfolding load_stack load_exact
load_stack-IsSpilled st st' pc lo off ext value v c =
    rw (c, eqb_self lo, load_exact, v.held) (ap ok (spill_value-spill_of value))

store_stack-IsSpilled :
    (st st' : SpecState) (pc : ℕ) (lo off : ℤ) (value : SpecValue)
    → length st.cur.stack.spill ≡ 64
    → store_stack st pc lo lo off 8 value ≡ ok st'
    → IsSpilled st st' (access_start lo off) value
unfolding store_stack
store_stack-IsSpilled st st' pc lo off value l h =
    let (u, c, rest) =
      >>=-eq-ok (check_stack_range pc (access_start lo off) (access_end lo off 8) 8) _ h in
    store_full-IsSpilled st st' pc (access_start lo off) value l (rw (eqb_self lo) at rest)

checked :
    (st st' : SpecState) (pc : ℕ) (lo off : ℤ) (value : SpecValue)
    → store_stack st pc lo lo off 8 value ≡ ok st'
    → check_stack_range pc (access_start lo off) (access_end lo off 8) 8 ≡ ok tt
unfolding store_stack
checked st st' pc lo off value h =
    (>>=-eq-ok (check_stack_range pc (access_start lo off) (access_end lo off 8) 8) _ h).1

-- In a stack of 64 slots, a value of any kind stored as 8 bytes through a stack pointer of known
-- offset is what an 8-byte load at the same place gives back, at any later instruction that finds
-- the state unchanged.
pub load-store :
    (prog : ProgType) (st st' : SpecState) (pc pc' base : ℕ) (lo off : ℤ) (ext : Bool)
    (value : SpecValue)
    → length st.cur.stack.spill ≡ 64
    → reg st base ≡ ptr_to_stack lo lo
    → store st pc base off size_dw value ≡ ok st'
    → load prog st' pc' base off size_dw ext ≡ ok value
unfolding load store reg size_bytes load_at store_at
load-store prog st st' pc pc' base lo off ext value l r h =
    let h' : store_stack st pc lo lo off 8 value ≡ ok st' = rw r at h in
    let v = store_stack-IsSpilled st st' pc lo off value l h' in
    let c = check_stack_range-pc pc pc' _ _ 8 (checked st st' pc lo off value h') in
    rw (v.regs_kept, r) (load_stack-IsSpilled st st' pc' lo off ext value v c)
