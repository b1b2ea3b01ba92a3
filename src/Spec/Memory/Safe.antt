-- ===== src/Spec/Memory/Safe.antt =====
-- An access that is not refused is in bounds, for every offset that its pointer may have.
use rand_verifier.Prelude.{
  refl, err, Result, not, true, ℕ, ◌-◌, ◌^◌, ◌<◌, ◌≡◌, Bool, ◌||◌, ok, arith, if-err-eq-ok,
  >>=-eq-ok,
}
use rand_verifier.Prelude.Int.{
  ℤ, pos, negsuc, ◌+ℤ◌, ◌-ℤ◌, ◌≤ℤ◌, ◌<ℤ◌, ltb_ℤ, neg_ℤ, +ℤ_parts, -ℤ_parts,
}
use rand_verifier.Insn.{MemSize}
use rand_verifier.ProgType.{ProgType}
use rand_verifier.Spec.Value.{
  SpecValue, scalar, uninit, ptr_to_stack, ptr_to_ctx, ptr_to_map, ptr_to_map_value, ptr_to_mem,
  ptr_to_map_value_or_null, ptr_to_mem_or_null,
}
use rand_verifier.Spec.State.{SpecState, reg, stack_size}
use rand_verifier.Spec.Memory.{
  size_bytes, saturating_add, check_stack_range, check_map_range, access_start, access_end,
}
use rand_verifier.Spec.Memory.Store.{store, store_at, store_stack, store_buffer}
use rand_verifier.Ctx.{CtxError, CtxAccess, read, invalid, unmodeled, scalar_field, pointer_field}
use rand_verifier.Ctx.Bounds.{InContext, read-InContext}
use rand_verifier.Spec.Memory.Load.{
  fits_i32, of_ctx_read, load_ctx, load, load_at, load_stack, load_buffer,
}

-- Every access of `bytes` bytes at `off` from an offset in [lo, hi] lies in [low, high).
pub record InBounds (low high lo hi off : ℤ) (bytes : ℕ) : Type 0 where
  pub from_low : (o : ℤ) → lo ≤ℤ o → low ≤ℤ o +ℤ off
  pub to_high : (o : ℤ) → o ≤ℤ hi → o +ℤ off +ℤ pos bytes ≤ℤ high

-- What a pointer must promise so that an access is in bounds; no other value may be accessed.
unfoldable pub IsReadable : ProgType → SpecValue → ℤ → ℕ → Type 0
IsReadable prog (ptr_to_stack lo hi) off bytes =
    InBounds (neg_ℤ (pos stack_size)) (pos 0) lo hi off bytes
IsReadable prog (ptr_to_map_value lo hi size) off bytes =
    InBounds (pos 0) (pos size) lo hi off bytes
IsReadable prog (ptr_to_mem lo hi size id) off bytes = InBounds (pos 0) (pos size) lo hi off bytes
IsReadable prog (ptr_to_ctx base) off bytes = InContext prog (base +ℤ off) bytes
IsReadable prog _ off bytes = ⊥

-- The context may not be written.
unfoldable pub IsWritable : SpecValue → ℤ → ℕ → Type 0
IsWritable (ptr_to_stack lo hi) off bytes =
    InBounds (neg_ℤ (pos stack_size)) (pos 0) lo hi off bytes
IsWritable (ptr_to_map_value lo hi size) off bytes = InBounds (pos 0) (pos size) lo hi off bytes
IsWritable (ptr_to_mem lo hi size id) off bytes = InBounds (pos 0) (pos size) lo hi off bytes
IsWritable _ off bytes = ⊥

-- A bound inside the range of `i64` that holds of a saturated sum holds of the sum.
saturating-low :
    (low a b : ℤ) → negsuc (2 ^ 63 - 1) <ℤ low → low ≤ℤ saturating_add a b → low ≤ℤ a +ℤ b
unfolding saturating_add
saturating-low low a b h k = ground (arith, +ℤ_parts a b)

saturating-high :
    (high a b : ℤ) → high <ℤ pos (2 ^ 63 - 1) → saturating_add a b ≤ℤ high → a +ℤ b ≤ℤ high
unfolding saturating_add
saturating-high high a b h k = ground (arith, +ℤ_parts a b)

module _ (low high lo hi off : ℤ) (bytes : ℕ) where
  InBounds-of_ends :
      negsuc (2 ^ 63 - 1) <ℤ low
      → high <ℤ pos (2 ^ 63 - 1)
      → low ≤ℤ access_start lo off
      → access_end hi off bytes ≤ℤ high
      → InBounds low high lo hi off bytes
  InBounds-of_ends l h p q = record {
    from_low = λ o k.
        let a = saturating-low low lo off l p in omega (arith, +ℤ_parts lo off, +ℤ_parts o off);
    to_high = λ o k.
        let a = saturating-high high (saturating_add hi off) (pos bytes) h q in
        let b =
          saturating-high (high -ℤ pos bytes) hi off (omega (arith, -ℤ_parts high (pos bytes))) (
            omega
              (arith, -ℤ_parts high (pos bytes), +ℤ_parts (saturating_add hi off) (pos bytes))) in
        omega (
          arith,
          +ℤ_parts hi off,
          +ℤ_parts o off,
          +ℤ_parts (o +ℤ off) (pos bytes),
          -ℤ_parts high (pos bytes),
        );
  }

checked_stack :
    (pc : ℕ) (start end : ℤ) (size : ℕ)
    → check_stack_range pc start end size ≡ ok tt
    → (neg_ℤ (pos stack_size) ≤ℤ start) × (end ≤ℤ pos 0)
unfolding check_stack_range
checked_stack pc start end size h =
    let (inside, rest) =
      if-err-eq-ok (ltb_ℤ start (neg_ℤ (pos stack_size)) || ltb_ℤ (pos 0) end) _ _ h in
    ground arith

checked_map :
    (pc : ℕ) (start end : ℤ) (bound size : ℕ)
    → check_map_range pc start end bound size ≡ ok tt
    → (pos 0 ≤ℤ start) × (end ≤ℤ pos bound)
unfolding check_map_range
checked_map pc start end bound size h =
    let (inside, rest) = if-err-eq-ok (ltb_ℤ start (pos 0) || ltb_ℤ (pos bound) end) _ _ h in
    ground arith

pub stack-InBounds :
    (pc : ℕ) (lo hi off : ℤ) (bytes : ℕ)
    → check_stack_range pc (access_start lo off) (access_end hi off bytes) bytes ≡ ok tt
    → InBounds (neg_ℤ (pos stack_size)) (pos 0) lo hi off bytes
stack-InBounds pc lo hi off bytes h =
    let (p, q) = checked_stack pc _ _ bytes h in
    InBounds-of_ends _ _ lo hi off bytes (omega arith) (omega arith) p q

-- A size is a `u32`, so that the end of a buffer fits an `i64`.
pub map-InBounds :
    (pc : ℕ) (lo hi off : ℤ) (bound bytes : ℕ)
    → bound < 2 ^ 32
    → check_map_range pc (access_start lo off) (access_end hi off bytes) bound bytes ≡ ok tt
    → InBounds (pos 0) (pos bound) lo hi off bytes
map-InBounds pc lo hi off bound bytes l h =
    let (p, q) = checked_map pc _ _ bound bytes h in
    InBounds-of_ends _ _ lo hi off bytes (omega arith) (omega arith) p q

-- The sizes that a value carries are `u32`s.
unfoldable pub SizesFit : SpecValue → Type 0
SizesFit (ptr_to_map_value lo hi size) = size < 2 ^ 32
SizesFit (ptr_to_mem lo hi size id) = size < 2 ^ 32
SizesFit _ = Unit

of_ctx_read-scalar :
    (pc bytes : ℕ) (ext : Bool) (r : Result CtxError CtxAccess) {v : SpecValue}
    → of_ctx_read pc bytes ext r ≡ ok v
    → r ≡ ok scalar_field
unfolding of_ctx_read
of_ctx_read-scalar pc bytes ext (ok scalar_field) h = refl
of_ctx_read-scalar pc bytes ext (ok (pointer_field f)) h = cc
of_ctx_read-scalar pc bytes ext (err (unmodeled f)) h = cc
of_ctx_read-scalar pc bytes ext (err invalid) h = cc

-- A saturated sum that fits an `i32` is the sum.
saturating-inside : (a b : ℤ) → fits_i32 (saturating_add a b) ≡ true → saturating_add a b ≡ a +ℤ b
unfolding saturating_add
saturating-inside a b h = ground (arith, +ℤ_parts a b)

load_ctx-InContext :
    (prog : ProgType) (pc : ℕ) (base off : ℤ) (bytes : ℕ) (ext : Bool) {v : SpecValue}
    → load_ctx prog pc base off bytes ext ≡ ok v
    → InContext prog (base +ℤ off) bytes
unfolding load_ctx
load_ctx-InContext prog pc base off bytes ext h =
    let (fits, rest) = if-err-eq-ok (not (fits_i32 (saturating_add base off))) _ _ h in
    let same = saturating-inside base off (ground arith) in
    read-InContext prog (base +ℤ off) bytes (
      rw same at (of_ctx_read-scalar pc bytes ext (read prog (saturating_add base off) bytes) rest))

load_at-IsReadable :
    (v : SpecValue) (prog : ProgType) (st : SpecState) (pc : ℕ) (off : ℤ) (bytes : ℕ) (ext : Bool)
    {r : SpecValue}
    → SizesFit v
    → load_at v prog st pc off bytes ext ≡ ok r
    → IsReadable prog v off bytes
unfolding load_at load_stack load_buffer IsReadable SizesFit
load_at-IsReadable (ptr_to_stack lo hi) prog st pc off bytes ext f h =
    let (u, c, rest) = >>=-eq-ok _ _ h in stack-InBounds pc lo hi off bytes c
load_at-IsReadable (ptr_to_ctx base) prog st pc off bytes ext f h =
    load_ctx-InContext prog pc base off bytes ext h
load_at-IsReadable (ptr_to_map_value lo hi size) prog st pc off bytes ext f h =
    let (u, c, rest) = >>=-eq-ok _ _ h in map-InBounds pc lo hi off size bytes f c
load_at-IsReadable (ptr_to_mem lo hi size id) prog st pc off bytes ext f h =
    let (u, c, rest) = >>=-eq-ok _ _ h in map-InBounds pc lo hi off size bytes f c
load_at-IsReadable uninit prog st pc off bytes ext f h = cc
load_at-IsReadable (scalar a b) prog st pc off bytes ext f h = cc
load_at-IsReadable (ptr_to_map k v t) prog st pc off bytes ext f h = cc
load_at-IsReadable (ptr_to_map_value_or_null size id) prog st pc off bytes ext f h = cc
load_at-IsReadable (ptr_to_mem_or_null size id) prog st pc off bytes ext f h = cc

store_at-IsWritable :
    (v : SpecValue) (st : SpecState) (pc : ℕ) (off : ℤ) (bytes : ℕ) (value : SpecValue)
    {r : SpecState}
    → SizesFit v
    → store_at v st pc off bytes value ≡ ok r
    → IsWritable v off bytes
unfolding store_at store_stack store_buffer IsWritable SizesFit
store_at-IsWritable (ptr_to_stack lo hi) st pc off bytes value f h =
    let (u, c, rest) = >>=-eq-ok _ _ h in stack-InBounds pc lo hi off bytes c
store_at-IsWritable (ptr_to_map_value lo hi size) st pc off bytes value f h =
    let (u, c, rest) = >>=-eq-ok _ _ h in map-InBounds pc lo hi off size bytes f c
store_at-IsWritable (ptr_to_mem lo hi size id) st pc off bytes value f h =
    let (u, c, rest) = >>=-eq-ok _ _ h in map-InBounds pc lo hi off size bytes f c
store_at-IsWritable (ptr_to_ctx base) st pc off bytes value f h = cc
store_at-IsWritable uninit st pc off bytes value f h = cc
store_at-IsWritable (scalar a b) st pc off bytes value f h = cc
store_at-IsWritable (ptr_to_map k v t) st pc off bytes value f h = cc
store_at-IsWritable (ptr_to_map_value_or_null size id) st pc off bytes value f h = cc
store_at-IsWritable (ptr_to_mem_or_null size id) st pc off bytes value f h = cc

-- A load that is not refused goes through a pointer that may be read there, for every offset it
-- may have, where a map or memory base's size fits 32 bits: inside the frame, the map value or the
-- buffer, or in the context as the context model allows.
pub load-IsReadable :
    (prog : ProgType) (st : SpecState) (pc base : ℕ) (off : ℤ) (size : MemSize) (ext : Bool)
    {r : SpecValue}
    → SizesFit (reg st base)
    → load prog st pc base off size ext ≡ ok r
    → IsReadable prog (reg st base) off (size_bytes size)
unfolding load
load-IsReadable prog st pc base off size ext f h =
    load_at-IsReadable (reg st base) prog st pc off (size_bytes size) ext f h

-- A store that is not refused goes through a pointer that may be written there, for every offset
-- it may have, where a map or memory base's size fits 32 bits: inside the frame, the map value or
-- the buffer, never the context.
pub store-IsWritable :
    (st : SpecState) (pc base : ℕ) (off : ℤ) (size : MemSize) (value : SpecValue) {r : SpecState}
    → SizesFit (reg st base)
    → store st pc base off size value ≡ ok r
    → IsWritable (reg st base) off (size_bytes size)
unfolding store
store-IsWritable st pc base off size value f h =
    store_at-IsWritable (reg st base) st pc off (size_bytes size) value f h
