-- ===== src/Spec/Helper.antt =====
-- src/spec/helper.rs: the helper contracts, and the slots of a dynptr.
use rand_verifier.Prelude.{
  ℕ, ◌+◌, ◌/◌, ◌==◌, ◌||◌, ◌&&◌, leb, if◌then◌else◌, Option, some, none, List, [], ◌∷◌,
}
use rand_verifier.Prelude.Int.{ℤ, pos, negsuc, ◌+ℤ◌, leb_ℤ, pos_part}

pub data SpecArg : Type 0 where
  arg_map arg_stack arg_scalar arg_map_value arg_mem arg_dynptr arg_dynptr_write : SpecArg
  arg_stack_init : (size : ℕ) → SpecArg

pub data SpecRet : Type 0 where
  ret_zero ret_unknown_scalar ret_unknown_u32 ret_map_value_or_null ret_mem_or_null : SpecRet

pub record SpecHelper : Type 0 where
  pub args : List SpecArg
  pub ret : SpecRet

helper_of : ℕ → Option SpecHelper
helper_of id =
    if id == 1
    then some (record { args = arg_map ∷ arg_stack_init 0 ∷ []; ret = ret_map_value_or_null })
    else if id == 2
    then some (record {
      args = arg_map ∷ arg_stack_init 0 ∷ arg_stack_init 0 ∷ arg_scalar ∷ [];
      ret = ret_zero;
    })
    else if (id == 5) || (id == 8) || (id == 10) || (id == 125) || (id == 160) || (id == 208)
    then some (record { args = []; ret = ret_unknown_scalar })
    else if id == 7
    then some (record { args = []; ret = ret_unknown_u32 })
    else if id == 131
    then some (record { args = arg_map ∷ arg_scalar ∷ arg_scalar ∷ []; ret = ret_mem_or_null })
    else if (id == 132) || (id == 133)
    then some (record { args = arg_mem ∷ arg_scalar ∷ []; ret = ret_zero })
    else if id == 197
    then some (record {
      args = arg_map_value ∷ arg_scalar ∷ arg_scalar ∷ arg_dynptr_write ∷ [];
      ret = ret_zero;
    })
    else if id == 201
    then some (record {
      args = arg_stack ∷ arg_scalar ∷ arg_dynptr ∷ arg_scalar ∷ arg_scalar ∷ [];
      ret = ret_zero;
    })
    else if id == 202
    then some (record {
      args = arg_dynptr ∷ arg_scalar ∷ arg_stack ∷ arg_scalar ∷ arg_scalar ∷ [];
      ret = ret_zero;
    })
    else if id == 203
    then some (record { args = arg_dynptr ∷ arg_scalar ∷ arg_scalar ∷ []; ret = ret_mem_or_null })
    else none

unfoldable pub spec_helper : ℤ → Option SpecHelper
unfolding helper_of
spec_helper (pos id) = helper_of id
spec_helper (negsuc n) = none

unfoldable pub spec_stack_base_check : ℤ → Option ℕ
spec_stack_base_check off =
    let idx = pos 512 +ℤ off in
    if leb_ℤ (pos 0) idx && leb (pos_part idx + 16) 512 then some (pos_part idx) else none

unfoldable pub dynptr_slots_of : ℤ → Option (ℕ × ℕ)
dynptr_slots_of off = elim (spec_stack_base_check off) [
  | none ↦ none
  | some idx ↦ some (idx / 8, idx / 8 + 1)
]
