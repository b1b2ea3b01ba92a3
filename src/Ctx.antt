-- ===== src/Ctx.antt =====
-- src/ctx.rs: which reads of the context a program type may make.
pub mod Bounds
use rand_verifier.Prelude.{
  ℕ, ◌+◌, ◌-◌, ◌%◌, Bool, true, false, ◌&&◌, ◌||◌, not, ◌==◌, ltb, leb, if◌then◌else◌, Option, some,
  none, Result, ok, err,
}
use rand_verifier.Prelude.Int.{ℤ, pos, pos_part, leb_ℤ, ltb_ℤ}
use rand_verifier.ProgType.{
  ProgType, CtxModel, model_socket_filter, model_sched_cls, model_xdp, model_trace_point, ctx_model,
}

-- The names that an unmodelled access reports.
pub data Field : Type 0 where
  program_type skb_data skb_data_end skb_data_meta skb_sk : Field
  xdp_data xdp_data_end xdp_data_meta xdp_egress_ifindex : Field

pub data CtxError : Type 0 where
  invalid : CtxError
  unmodeled : Field → CtxError

pub data CtxAccess : Type 0 where
  scalar_field : CtxAccess
  pointer_field : Field → CtxAccess

-- `(lo..hi).contains(&off)`.
abbrev pub in_struct : ℕ → ℕ → ℤ → Bool
in_struct lo hi off = leb_ℤ (pos lo) off && ltb_ℤ off (pos hi)

-- `(lo..=hi).contains(&off)`, for an offset known not to be negative.
abbrev pub within : ℕ → ℕ → ℕ → Bool
within lo hi off = leb lo off && leb off hi

-- A pointer field is a gap in the model at its own width and invalid at any other.
pointer_read : Field → ℕ → ℕ → Result CtxError CtxAccess
pointer_read f width size = if size == width then err (unmodeled f) else err invalid

-- What follows the pointer fields, by the chain of early returns.
skb_scalar_read : ℕ → ℕ → Bool → Result CtxError CtxAccess
skb_scalar_read off size socket_filter =
    if socket_filter && (off == 72)
    then err invalid
    else if within 88 139 off
    then err invalid
    else if socket_filter && ((off == 152) || (off == 160) || (off == 184))
    then err invalid
    else if off == 180
    then if (size == 1) && not socket_filter then ok scalar_field else err invalid
    else if within 181 183 off
    then err invalid
    else if (off == 152) || (off == 184)
    then if size == 8 then ok scalar_field else err invalid
    else if ltb 4 size || ltb 4 (off % 4 + size)
    then err invalid
    else ok scalar_field

skb_field_read : ℕ → ℕ → Bool → Result CtxError CtxAccess
skb_field_read off size socket_filter =
    if off == 76
    then pointer_read skb_data 4 size
    else if off == 80
    then pointer_read skb_data_end 4 size
    else if off == 140
    then pointer_read skb_data_meta 4 size
    else if off == 144
    then err invalid
    else if off == 168
    then pointer_read skb_sk 8 size
    else skb_scalar_read off size socket_filter

unfoldable pub skb_read : ℤ → ℕ → Bool → Result CtxError CtxAccess
unfolding skb_field_read skb_scalar_read pointer_read
skb_read off size socket_filter =
    if not (in_struct 0 192 off) || (size == 0) || not (pos_part off % size == 0)
    then err invalid
    else skb_field_read (pos_part off) size socket_filter

xdp_field_read : ℕ → Result CtxError CtxAccess
xdp_field_read off =
    if off == 0
    then err (unmodeled xdp_data)
    else if off == 4
    then err (unmodeled xdp_data_end)
    else if off == 8
    then err (unmodeled xdp_data_meta)
    else if off == 20
    then err (unmodeled xdp_egress_ifindex)
    else ok scalar_field

-- Sizes are 1, 2, 4 or 8: the remainder by 0 does not arise.
unfoldable pub xdp_read : ℤ → ℕ → Result CtxError CtxAccess
unfolding xdp_field_read
xdp_read off size =
    if not (in_struct 0 24 off) || not (pos_part off % size == 0) || not (size == 4)
    then err invalid
    else xdp_field_read (pos_part off)

unfoldable pub tracepoint_read : ℤ → ℕ → Result CtxError CtxAccess
tracepoint_read off size =
    let valid_size = (size == 1) || (size == 2) || (size == 4) || (size == 8) in
    if not (in_struct 8 8192 off) || not valid_size || not (pos_part off % size == 0)
    then err invalid
    else ok scalar_field

read_model : CtxModel → ℤ → ℕ → Result CtxError CtxAccess
read_model model_socket_filter off size = skb_read off size true
read_model model_sched_cls off size = skb_read off size false
read_model model_xdp off size = xdp_read off size
read_model model_trace_point off size = tracepoint_read off size

unfoldable pub read : ProgType → ℤ → ℕ → Result CtxError CtxAccess
unfolding read_model
read prog off size = elim (ctx_model prog) [
  | none ↦ err (unmodeled program_type)
  | some model ↦ read_model model off size
]
