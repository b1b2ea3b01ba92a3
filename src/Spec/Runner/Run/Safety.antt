-- ===== src/Spec/Runner/Run/Safety.antt =====
-- What acceptance says of the loads, the stores and the exits of a program.
use rand_verifier.Prelude.{
  ℕ, ◌+◌, Bool, true, ◌≡◌, Option, some, List, ok, get_elem?, >>=-eq-ok, ◌>>=◌,
}
use rand_verifier.Prelude.Int.{ℤ}
use rand_verifier.Insn.{AtomicOp, BpfInsn, MemSize, atomic, ld_mem, st_mem, st_mem_imm, exit}
use rand_verifier.ProgType.{ProgType}
use rand_verifier.Spec.Value.{SpecValue, const_scalar, is_scalar}
use rand_verifier.Spec.Refine.{as_u64}
use rand_verifier.Spec.State.{reg}
use rand_verifier.Spec.Memory.{size_bytes}
use rand_verifier.Spec.Memory.Load.{load}
use rand_verifier.Spec.Memory.Store.{store}
use rand_verifier.Spec.Memory.Safe.{
  IsReadable, IsWritable, SizesFit, load-IsReadable, store-IsWritable,
}
use rand_verifier.Spec.Runner.Branch.{WorkItem}
use rand_verifier.Spec.Runner.Return.{exit_step-released}
use rand_verifier.Spec.Runner.Step.{MapInfo, atomic_step, go, plain, step, exit_step}
use rand_verifier.Spec.Runner.Step.Writes.{atomic_step-IsWritable}
use rand_verifier.Spec.Runner.Run.{explored}
use rand_verifier.Spec.Runner.Run.Closed.{Certificate}

-- An instruction that writes memory: the register of its base, its offset and its width.
pub data Writes : BpfInsn → ℕ → ℤ → MemSize → Type 0 where
  of_reg :
      (src base : ℕ) (off : ℤ) (size : MemSize) → Writes (st_mem src base off size) base off size
  of_imm :
      (i : ℤ) (base : ℕ) (off : ℤ) (size : MemSize)
      → Writes (st_mem_imm i base off size) base off size
  of_atomic :
      (base src : ℕ) (off : ℤ) (size : MemSize) (op : AtomicOp) (fetch : Bool)
      → Writes (atomic base src off size op fetch) base off size

module _ (prog : ProgType) (maps : ℕ → Option MapInfo) (program : List BpfInsn)
    (c : Certificate prog maps program) (w : WorkItem) (visited : explored c.states w ≡ true) where
  -- The step at a visited state, of the instruction that stands there.
  stepped_at :
      (insn : BpfInsn)
      → get_elem? program w.pc ≡ some insn
      → (id : ℕ) × (r : List WorkItem × ℕ) × (step prog maps id w.state w.pc insn ≡ ok r)
  stepped_at insn f =
      let j = c.justified w visited in
      let same : j.insn ≡ insn = cc (j.fetched, f) in
      (j.first_id, (j.next, j.last_id), rw same at j.stepped)

  -- Where a program has a certificate (which acceptance gives) and a map or memory base's size
  -- fits 32 bits, a load at one of its items reads in bounds: for every offset that its base
  -- register may have, inside the frame, the map value or the buffer, and from the context only
  -- what the context model of the program type covers.
  pub load-in-bounds :
      (dst base : ℕ) (off : ℤ) (size : MemSize) (ext : Bool)
      → get_elem? program w.pc ≡ some (ld_mem dst base off size ext)
      → SizesFit (reg w.state base)
      → IsReadable prog (reg w.state base) off (size_bytes size)
  unfolding step
  load-in-bounds dst base off size ext f sizes =
      let (id, r, s) = stepped_at (ld_mem dst base off size ext) f in
      let (next, pushed, rest) = >>=-eq-ok (load prog w.state w.pc base off size ext >>= _) _ s in
      let (v, loaded, rest2) = >>=-eq-ok (load prog w.state w.pc base off size ext) _ pushed in
      load-IsReadable prog w.state w.pc base off size ext sizes loaded

  -- A store of a value, whichever instruction it stands for.
  stored_at :
      (base : ℕ) (off : ℤ) (size : MemSize) (value : SpecValue) (id : ℕ) {r : List WorkItem × ℕ}
      → SizesFit (reg w.state base)
      → plain prog maps id (store w.state w.pc base off size value >>= (λ st. go (w.pc + 1) st))
        ≡ ok r
      → IsWritable (reg w.state base) off (size_bytes size)
  stored_at base off size value id sizes s =
      let (next, pushed, rest) = >>=-eq-ok (store w.state w.pc base off size value >>= _) _ s in
      let (st, stored, rest2) = >>=-eq-ok (store w.state w.pc base off size value) _ pushed in
      store-IsWritable w.state w.pc base off size value sizes stored

  -- Where a program has a certificate (which acceptance gives) and a map or memory base's size
  -- fits 32 bits, an instruction at one of its items that writes memory (a store of a register, a
  -- store of an immediate, an atomic operation) writes inside the frame, the map value or the
  -- buffer, for every offset of its base register, and never to the context.
  pub store-in-bounds :
      (insn : BpfInsn) (base : ℕ) (off : ℤ) (size : MemSize)
      → Writes insn base off size
      → get_elem? program w.pc ≡ some insn
      → SizesFit (reg w.state base)
      → IsWritable (reg w.state base) off (size_bytes size)
  unfolding step
  store-in-bounds _ _ _ _ (of_reg src base off size) f sizes =
      let (id, r, s) = stepped_at (st_mem src base off size) f in
      stored_at base off size (reg w.state src) id sizes s
  store-in-bounds _ _ _ _ (of_imm i base off size) f sizes =
      let (id, r, s) = stepped_at (st_mem_imm i base off size) f in
      stored_at base off size (const_scalar (as_u64 i)) id sizes s
  store-in-bounds _ _ _ _ (of_atomic base src off size op fetch) f sizes =
      let (id, r, s) = stepped_at (atomic base src off size op fetch) f in
      let (next, pushed, rest) =
        >>=-eq-ok (atomic_step w.state w.pc base src off size op fetch) _ s in
      atomic_step-IsWritable w.state w.pc base src off size op fetch sizes pushed

  -- Where a program has a certificate (which acceptance gives), an exit at one of its items has a
  -- scalar in R0 and no acquired reference.
  pub exit-releases :
      get_elem? program w.pc ≡ some exit
      → (is_scalar (reg w.state 0) ≡ true) × (w.state.refs_cnt ≡ 0)
  unfolding step
  exit-releases f =
      let (id, r, s) = stepped_at exit f in
      let (next, pushed, rest) = >>=-eq-ok (exit_step w.state w.pc) _ s in
      exit_step-released w.state w.pc pushed
