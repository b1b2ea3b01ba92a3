-- ===== src/Liveness/Analyze.antt =====
-- src/liveness.rs: `analyze`, the data flow solved round by round. The rounds take fuel, more than
-- the masks can grow. An index behind the program, which panics in the source, reads an empty mask.
pub mod Order
pub mod Grow
pub mod Round
pub mod Solved
use rand_verifier.Prelude.{
  ℕ, zero, suc, ◌+◌, ◌-◌, ◌*◌, ◌^◌, Bool, true, false, ◌&&◌, ◌||◌, ◌==◌, not, if◌then◌else◌, List,
  [], ◌∷◌, Option, some, none, length, get_elem?, get_or, set, replicate, bit_and, bit_or,
}
use rand_verifier.Insn.{BpfInsn}
use rand_verifier.Liveness.{InsnUseDef, use_def, no_use_def}
use rand_verifier.Liveness.Successors.{static_successors}

-- The masks before and behind each instruction.
pub record Masks : Type 0 where
  pub in_regs : List ℕ
  pub out_regs : List ℕ
  pub in_slots : List ℕ
  pub out_slots : List ℕ

-- `o |= masks[s]` for each successor.
unfoldable pub joined : List ℕ → List ℕ → ℕ → ℕ
joined masks [] o = o
joined masks (s ∷ ss) o = joined masks ss (bit_or o (get_or masks s 0))

-- `(o & !def) | used`, of `w` bits.
abbrev pub transfer : ℕ → ℕ → ℕ → ℕ → ℕ
transfer w o defined used = bit_or (bit_and o (2 ^ w - 1 - defined)) used

abbrev pub use_def_at : List BpfInsn → ℕ → InsnUseDef
use_def_at program i = elim (get_elem? program i) [ none ↦ no_use_def | some insn ↦ use_def insn ]

-- A mask that is written where it differs.
abbrev pub differs : List ℕ → ℕ → ℕ → Bool
differs masks i new = not (new == get_or masks i 0)

-- The body of the loop over the instructions: the masks, and whether one has changed.
unfoldable pub update_at : List BpfInsn → ℕ → Masks → Masks × Bool
unfolding joined static_successors use_def
update_at program i m =
    let succs = static_successors i program in
    let ud = use_def_at program i in
    let o_regs = joined m.in_regs succs 0 in
    let o_slots = joined m.in_slots succs 0 in
    let new_in_regs = transfer 16 o_regs ud.def_regs ud.use_regs in
    let new_in_slots = transfer 64 o_slots ud.write_slots ud.read_slots in
    (
      record {
        in_regs = set m.in_regs i new_in_regs;
        out_regs = set m.out_regs i o_regs;
        in_slots = set m.in_slots i new_in_slots;
        out_slots = set m.out_slots i o_slots;
      },
      differs m.in_regs i new_in_regs
          || differs m.in_slots i new_in_slots
          || differs m.out_regs i o_regs
          || differs m.out_slots i o_slots,
    )

-- The `n` instructions from `i` on.
unfoldable pub update_from : List BpfInsn → ℕ → ℕ → Masks × Bool → Masks × Bool
unfolding update_at
update_from program i zero r = r
update_from program i (suc n) r =
    let step = update_at program i r.0 in update_from program (suc i) n (step.0, r.1 || step.1)

-- `loop`, with fuel; `none` means that it ran out.
unfoldable pub solve : ℕ → List BpfInsn → Masks → Option Masks
unfolding update_from
solve zero program m = none
solve (suc fuel) program m =
    let round = update_from program 0 (length program) (m, false) in
    let again = solve fuel program round.0 in if round.1 then again else some round.0

abbrev pub no_masks : List BpfInsn → Masks
no_masks program =
    let zeros : List ℕ = replicate (length program) 0 in
    record { in_regs = zeros; out_regs = zeros; in_slots = zeros; out_slots = zeros }

-- A round that changes a mask makes it greater.
pub solve_fuel : List BpfInsn → ℕ
solve_fuel program = length program * (2 * 2 ^ 16 + 2 * 2 ^ 64) + 1

pub record LivenessMasks : Type 0 where
  pub live_regs : List ℕ
  pub live_stack : List ℕ

unfoldable pub analyze : List BpfInsn → Option LivenessMasks
unfolding solve solve_fuel
analyze program = elim (solve (solve_fuel program) program (no_masks program)) [
  | none ↦ none
  | some m ↦ some (record { live_regs = m.in_regs; live_stack = m.in_slots })
]

unfoldable pub live_regs_before : LivenessMasks → ℕ → ℕ
live_regs_before l pc = get_or l.live_regs pc 0

unfoldable pub live_stack_before : LivenessMasks → ℕ → ℕ
live_stack_before l pc = get_or l.live_stack pc 0
