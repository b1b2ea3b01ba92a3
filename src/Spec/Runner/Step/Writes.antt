-- ===== src/Spec/Runner/Step/Writes.antt =====
-- The memory that an atomic operation of src/spec/runner.rs writes.
use rand_verifier.Prelude.{ℕ, Bool, ◌≡◌, List, ok, >>=-eq-ok, ◌>>◌}
use rand_verifier.Prelude.Int.{ℤ}
use rand_verifier.Insn.{AtomicOp, MemSize}
use rand_verifier.Spec.Value.{
  SpecValue, scalar, uninit, ptr_to_stack, ptr_to_ctx, ptr_to_map, ptr_to_map_value, ptr_to_mem,
  ptr_to_map_value_or_null, ptr_to_mem_or_null,
}
use rand_verifier.Spec.State.{SpecState, reg}
use rand_verifier.Spec.Memory.{size_bytes}
use rand_verifier.Spec.Memory.Safe.{IsWritable, SizesFit, stack-InBounds, map-InBounds}
use rand_verifier.Spec.Runner.Branch.{WorkItem}
use rand_verifier.Spec.Runner.Step.{atomic_at, atomic_stack, atomic_step}

atomic_at-IsWritable :
    (v : SpecValue) (st : SpecState) (pc : ℕ) (off : ℤ) (bytes : ℕ) {r : SpecValue × SpecState}
    → SizesFit v
    → atomic_at v st pc off bytes ≡ ok r
    → IsWritable v off bytes
unfolding atomic_at atomic_stack IsWritable SizesFit
atomic_at-IsWritable (ptr_to_stack lo hi) st pc off bytes f h =
    let (u, c, rest) = >>=-eq-ok _ _ h in stack-InBounds pc lo hi off bytes c
atomic_at-IsWritable (ptr_to_map_value lo hi size) st pc off bytes f h =
    let (u, c, rest) = >>=-eq-ok _ _ h in map-InBounds pc lo hi off size bytes f c
atomic_at-IsWritable (ptr_to_mem lo hi size id) st pc off bytes f h = cc
atomic_at-IsWritable (ptr_to_ctx base) st pc off bytes f h = cc
atomic_at-IsWritable uninit st pc off bytes f h = cc
atomic_at-IsWritable (scalar a b) st pc off bytes f h = cc
atomic_at-IsWritable (ptr_to_map k v t) st pc off bytes f h = cc
atomic_at-IsWritable (ptr_to_map_value_or_null size id) st pc off bytes f h = cc
atomic_at-IsWritable (ptr_to_mem_or_null size id) st pc off bytes f h = cc

pub atomic_step-IsWritable :
    (st : SpecState) (pc base src : ℕ) (off : ℤ) (size : MemSize) (op : AtomicOp) (fetch : Bool)
    {r : List WorkItem}
    → SizesFit (reg st base)
    → atomic_step st pc base src off size op fetch ≡ ok r
    → IsWritable (reg st base) off (size_bytes size)
unfolding atomic_step
atomic_step-IsWritable st pc base src off size op fetch sizes h =
    let (v, written, rest) =
      >>=-eq-ok (_ >> atomic_at (reg st base) st pc off (size_bytes size)) _ h in
    let (u, at, rest2) =
      >>=-eq-ok _ (λ u. atomic_at (reg st base) st pc off (size_bytes size)) written in
    atomic_at-IsWritable (reg st base) st pc off (size_bytes size) sizes rest2
