-- ===== src/State/Equal.antt =====
-- src/state_eq.rs: the comparison of registers, with the map between the ids of the two states, which is
-- passed along.
pub mod Scalars
pub mod Stack
pub mod Clean
use rand_verifier.Prelude.{
  ℕ, ◌+◌, Bool, true, false, not, ◌&&◌, ◌||◌, ◌==◌, leb, if◌then◌else◌, List, [], ◌∷◌, ◌++◌, Option,
  some, none,
}
use rand_verifier.Prelude.Int.{leb_ℤ, eqb_ℤ}
use rand_verifier.Tnum.{Tnum, subsumes}
use rand_verifier.State.{ScalarBounds}
use rand_verifier.State.Frames.{
  RegState, uninit, scalar, ptr_to_stack, ptr_to_ctx, ptr_to_map, ptr_to_map_value,
  ptr_to_map_value_or_null, ptr_to_mem, ptr_to_mem_or_null, ptr_to_btf_id,
}

pub data ExactLevel : Type 0 where
  not_exact exact : ExactLevel

abbrev pub align_unknown : ℕ
align_unknown = 0xff

unfoldable pub scalar_range_within : ScalarBounds → ScalarBounds → Bool
unfolding subsumes
scalar_range_within old new =
    leb_ℤ old.smin new.smin
    && leb_ℤ new.smax old.smax
    && leb old.umin new.umin
    && leb new.umax old.umax
    && leb_ℤ old.s32_min new.s32_min
    && leb_ℤ new.s32_max old.s32_max
    && leb old.u32_min new.u32_min
    && leb new.u32_max old.u32_max
    && subsumes old.tnum new.tnum

pub record IdMap : Type 0 where
  pub pairs : List (ℕ × ℕ)
  pub tmp_id_gen : ℕ

abbrev pub Compared : Type 0
Compared = IdMap × Bool

-- The answer of the first pair that has one of the ids.
unfoldable pub known_pair : List (ℕ × ℕ) → ℕ → ℕ → Option Bool
known_pair [] old_id cur_id = none
known_pair ((old, cur) ∷ pairs) old_id cur_id =
    let later = known_pair pairs old_id cur_id in
    if old == old_id then some (cur == cur_id) else if cur == cur_id then some false else later

abbrev differ : Bool → Bool → Bool
differ true b = not b
differ false b = b

unfoldable pub check_ids : IdMap → ℕ → ℕ → Compared
unfolding known_pair
check_ids idmap old_id cur_id =
    if differ (old_id == 0) (cur_id == 0)
    then (idmap, false)
    else if old_id == 0
    then (idmap, true)
    else elim (known_pair idmap.pairs old_id cur_id) [
      | some answer ↦ (idmap, answer)
      | none ↦ (record idmap { pairs = idmap.pairs ++ ((old_id, cur_id) ∷ []) }, true)
    ]

unfoldable pub check_scalar_ids : IdMap → ℕ → ℕ → Compared
unfolding check_ids
check_scalar_ids idmap old_id cur_id =
    if old_id == 0
    then (idmap, true)
    else if cur_id == 0
    then check_ids (record idmap { tmp_id_gen = idmap.tmp_id_gen + 1 }) old_id
        (idmap.tmp_id_gen + 1)
    else check_ids idmap old_id cur_id

-- `test && rest` and `first && rest`, where the rest changes the map.
abbrev pub provided : Bool → IdMap → Compared → Compared
provided test idmap rest = if test then rest else (idmap, false)

abbrev pub and_ids : Compared → ℕ → ℕ → Compared
and_ids first old_id cur_id = if first.1 then check_ids first.0 old_id cur_id else first

abbrev pub same_tnum : Tnum → Tnum → Bool
same_tnum a b = a.value == b.value && a.mask == b.mask

unfoldable pub scalar_bounds_exact : ScalarBounds → ScalarBounds → Bool
scalar_bounds_exact a b =
    eqb_ℤ a.smin b.smin
    && eqb_ℤ a.smax b.smax
    && a.umin == b.umin
    && a.umax == b.umax
    && eqb_ℤ a.s32_min b.s32_min
    && eqb_ℤ a.s32_max b.s32_max
    && a.u32_min == b.u32_min
    && a.u32_max == b.u32_max
    && same_tnum a.tnum b.tnum

unfoldable pub regs_exact : RegState → RegState → Bool
unfolding scalar_bounds_exact
regs_exact uninit uninit = true
regs_exact (scalar a) (scalar b) = scalar_bounds_exact a b
regs_exact (ptr_to_stack a_min a_max a_align a_frame) (ptr_to_stack b_min b_max b_align b_frame) =
    eqb_ℤ a_min b_min && eqb_ℤ a_max b_max && a_align == b_align && a_frame == b_frame
regs_exact (ptr_to_ctx a) (ptr_to_ctx b) = eqb_ℤ a b
regs_exact (ptr_to_map a_key a_val a_type) (ptr_to_map b_key b_val b_type) =
    a_key == b_key && a_val == b_val
regs_exact (ptr_to_map_value a_min a_max a_align a_size a_id)
      (ptr_to_map_value b_min b_max b_align b_size b_id) =
    eqb_ℤ a_min b_min && eqb_ℤ a_max b_max && a_align == b_align && a_size == b_size
regs_exact (ptr_to_map_value_or_null a_size a_id) (ptr_to_map_value_or_null b_size b_id) =
    a_size == b_size
regs_exact _ _ = false

unfoldable pub check_reg_ids : IdMap → RegState → RegState → Compared
unfolding check_scalar_ids check_ids
check_reg_ids idmap (scalar a) (scalar b) = check_scalar_ids idmap a.id b.id
check_reg_ids idmap (ptr_to_map_value _ _ _ _ a) (ptr_to_map_value _ _ _ _ b) = check_ids idmap a b
check_reg_ids idmap (ptr_to_map_value_or_null _ a) (ptr_to_map_value_or_null _ b) =
    check_ids idmap a b
check_reg_ids idmap (ptr_to_mem _ _ _ a _) (ptr_to_mem _ _ _ b _) = check_ids idmap a b
check_reg_ids idmap (ptr_to_mem_or_null a a_parent _) (ptr_to_mem_or_null b b_parent _) =
    and_ids (check_ids idmap a b) a_parent b_parent
check_reg_ids idmap (ptr_to_btf_id _ a) (ptr_to_btf_id _ b) = check_ids idmap a b
check_reg_ids idmap _ _ = (idmap, true)

-- The arms of `regsafe` below the exact level.
unfoldable pub ranges_safe : IdMap → RegState → RegState → Compared
unfolding scalar_range_within check_scalar_ids check_ids
ranges_safe idmap uninit new = (idmap, true)
ranges_safe idmap (scalar old) (scalar new) =
    if not old.precise
    then (idmap, true)
    else provided ((eqb_ℤ old.delta new.delta || old.id == 0) && scalar_range_within old new) idmap
        (check_scalar_ids idmap old.id new.id)
ranges_safe idmap (ptr_to_stack a_min a_max a_align a_frame)
      (ptr_to_stack b_min b_max b_align b_frame) =
    (idmap, eqb_ℤ a_min b_min && eqb_ℤ a_max b_max && a_align == b_align && a_frame == b_frame)
ranges_safe idmap (ptr_to_ctx a) (ptr_to_ctx b) = (idmap, eqb_ℤ a b)
ranges_safe idmap (ptr_to_map a_key a_val a_type) (ptr_to_map b_key b_val b_type) =
    (idmap, a_key == b_key && a_val == b_val && a_type == b_type)
ranges_safe idmap (ptr_to_map_value a_min a_max a_align a_size a_id)
      (ptr_to_map_value b_min b_max b_align b_size b_id) =
    provided
      (a_size == b_size
        && leb_ℤ a_min b_min
        && leb_ℤ b_max a_max
        && (a_align == b_align || a_align == align_unknown))
      idmap (check_ids idmap a_id b_id)
ranges_safe idmap (ptr_to_map_value_or_null a_size a_id) (ptr_to_map_value_or_null b_size b_id) =
    provided (a_size == b_size) idmap (check_ids idmap a_id b_id)
ranges_safe idmap (ptr_to_mem a_min a_max a_align a_id a_parent)
      (ptr_to_mem b_min b_max b_align b_id b_parent) =
    provided (leb_ℤ a_min b_min && leb_ℤ b_max a_max) idmap
      (and_ids (check_ids idmap a_id b_id) a_parent b_parent)
ranges_safe idmap (ptr_to_mem_or_null a_id a_parent a_size)
      (ptr_to_mem_or_null b_id b_parent b_size) =
    provided (a_size == b_size) idmap (and_ids (check_ids idmap a_id b_id) a_parent b_parent)
ranges_safe idmap (ptr_to_btf_id a_btf a_ref) (ptr_to_btf_id b_btf b_ref) =
    provided (a_btf == b_btf) idmap (check_ids idmap a_ref b_ref)
ranges_safe idmap _ _ = (idmap, false)

unfoldable pub regsafe : RegState → RegState → ExactLevel → IdMap → Compared
unfolding regs_exact check_reg_ids ranges_safe
regsafe old new exact idmap = provided (regs_exact old new) idmap (check_reg_ids idmap old new)
regsafe old new not_exact idmap = ranges_safe idmap old new
