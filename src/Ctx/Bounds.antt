-- ===== src/Ctx/Bounds.antt =====
-- A context read that is allowed stays in the structure, on its grid.
use rand_verifier.Prelude.{
  Option-cases, inl, inr, true, false, some, ℕ, ◌+◌, ◌%◌, ◌≤◌, ◌≡◌, Bool, ok, arith, ◌<◌, ◌≢◌,
  if-err-eq-ok, not, ◌||◌, ◌==◌,
}
use rand_verifier.Prelude.Int.{ℤ, pos, pos_part, ◌≤ℤ◌}
use rand_verifier.ProgType.{
  ProgType, CtxModel, model_socket_filter, model_sched_cls, model_xdp, model_trace_point, ctx_model,
}
use rand_verifier.Ctx.{
  read, read_model, skb_data, skb_data_end, skb_data_meta, skb_sk, Field, in_struct,
  skb_scalar_read, pointer_read, skb_field_read, scalar_field, skb_read, xdp_read, tracepoint_read,
}

-- A context read of `size` bytes that the table allows starts on the grid of its size and ends inside
-- the `limit` bytes of the structure.
pub record InStruct (limit : ℕ) (off : ℤ) (size : ℕ) : Type 0 where
  pub not_negative : pos 0 ≤ℤ off
  pub ends_inside : pos_part off + size ≤ limit
  pub aligned : pos_part off % size ≡ 0

scalar_ends :
    (off size : ℕ) (f : Bool)
    → skb_scalar_read off size f ≡ ok scalar_field
    → off < 192
    → off + size ≤ 192
unfolding skb_scalar_read
scalar_ends off size f h l = ground arith

pointer_read-ne : (f : Field) (w size : ℕ) → pointer_read f w size ≢ ok scalar_field
unfolding pointer_read
pointer_read-ne f w size h = ground arith

field_scalar :
    (off size : ℕ) (f : Bool)
    → skb_field_read off size f ≡ ok scalar_field
    → skb_scalar_read off size f ≡ ok scalar_field
unfolding skb_field_read
field_scalar off size f h = ground (
  arith,
  pointer_read-ne skb_data 4 size,
  pointer_read-ne skb_data_end 4 size,
  pointer_read-ne skb_data_meta 4 size,
  pointer_read-ne skb_sk 8 size,
)

-- A read of __sk_buff that the table allows starts on the grid of its size and ends inside the 192
-- bytes.
pub skb_read-InStruct :
    (off : ℤ) (size : ℕ) (f : Bool) → skb_read off size f ≡ ok scalar_field → InStruct 192 off size
unfolding skb_read
skb_read-InStruct off size f h =
    let (good, read_ok) =
      if-err-eq-ok (not (in_struct 0 192 off) || (size == 0) || not (pos_part off % size == 0)) _ _
        h in
    record {
      not_negative = ground arith;
      ends_inside =
          scalar_ends (pos_part off) size f (field_scalar (pos_part off) size f read_ok)
            (ground arith);
      aligned = ground arith;
    }

pub xdp_read-InStruct :
    (off : ℤ) (size : ℕ) → xdp_read off size ≡ ok scalar_field → InStruct 24 off size
unfolding xdp_read
xdp_read-InStruct off size h = record {
  not_negative = ground arith;
  ends_inside = ground arith;
  aligned = ground arith;
}

-- A read of the tracepoint buffer that is allowed starts on the grid of its size and ends inside
-- its 8192 bytes.
pub tracepoint_read-InStruct :
    (off : ℤ) (size : ℕ) → tracepoint_read off size ≡ ok scalar_field → InStruct 8192 off size
unfolding tracepoint_read
tracepoint_read-InStruct off size h = record {
  not_negative = ground arith;
  ends_inside = ground arith;
  aligned = ground arith;
}

-- The size of each structure.
unfoldable pub struct_size : CtxModel → ℕ
struct_size model_socket_filter = 192
struct_size model_sched_cls = 192
struct_size model_xdp = 24
struct_size model_trace_point = 8192

-- A program type has a context, and an access stays in it.
pub record InContext (prog : ProgType) (off : ℤ) (size : ℕ) : Type 0 where
  pub model : CtxModel
  pub uses : ctx_model prog ≡ some model
  pub inside : InStruct (struct_size model) off size

read_model-InStruct :
    (model : CtxModel) (off : ℤ) (size : ℕ)
    → read_model model off size ≡ ok scalar_field
    → InStruct (struct_size model) off size
unfolding read_model struct_size
read_model-InStruct model_socket_filter off size h = skb_read-InStruct off size true h
read_model-InStruct model_sched_cls off size h = skb_read-InStruct off size false h
read_model-InStruct model_xdp off size h = xdp_read-InStruct off size h
read_model-InStruct model_trace_point off size h = tracepoint_read-InStruct off size h

-- A read of the context that is allowed as a scalar belongs to a program type with a context
-- model, starts on the grid of its size, and ends inside the structure of the model.
pub read-InContext :
    (prog : ProgType) (off : ℤ) (size : ℕ)
    → read prog off size ≡ ok scalar_field
    → InContext prog off size
unfolding read
read-InContext prog off size h = elim (Option-cases (ctx_model prog)) [
  | inl e ↦ absurd (cc (rw (e, read) at h))
  | inr (m, e) ↦ record {
    model = m;
    uses = e;
    inside = read_model-InStruct m off size (rw (e, read) at h);
  }
]
