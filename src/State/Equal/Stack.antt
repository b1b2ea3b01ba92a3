-- ===== src/State/Equal/Stack.antt =====
-- src/state_eq.rs: the comparison of stacks and of whole states, and the cleaning of what is dead.
use rand_verifier.Prelude.{
  ℕ, zero, suc, ◌+◌, ◌-◌, ◌*◌, ◌/◌, ◌%◌, ◌^◌, Bool, true, false, not, ◌&&◌, ◌||◌, ◌==◌,
  if◌then◌else◌, List, [], ◌∷◌, Option, some, none, get_or, set, fill, bit_and,
}
use rand_verifier.Tnum.{subreg}
use rand_verifier.State.{ScalarBounds, unknown_bounds}
use rand_verifier.Cfg.Stack.{stack_size, max_call_frames}
use rand_verifier.State.Frames.{
  RegState, uninit, scalar, StackByte, invalid, misc, zero_byte, spill, dynptr_byte, DynptrState,
  StackState, FrameState, VerifierState, num_regs, stack_slots, reg_at,
}
use rand_verifier.State.Equal.{
  ExactLevel, exact, not_exact, IdMap, Compared, check_ids, regs_exact, regsafe,
}

abbrev byte_code : StackByte → ℕ
byte_code invalid = 0
byte_code misc = 1
byte_code zero_byte = 2
byte_code spill = 3
byte_code dynptr_byte = 4

abbrev same_byte : StackByte → StackByte → Bool
same_byte a b = byte_code a == byte_code b

abbrev byte_at : StackState → ℕ → StackByte
byte_at s i = get_or s.bytes i invalid

abbrev spilled_at : StackState → ℕ → Option RegState
spilled_at s slot = get_or s.spilled slot none

abbrev dynptr_at : StackState → ℕ → Option DynptrState
dynptr_at s slot = get_or s.dynptr slot none

abbrev same_dynptr : Option DynptrState → Option DynptrState → Bool
same_dynptr none none = true
same_dynptr (some a) (some b) = a.size == b.size && a.id == b.id
same_dynptr _ _ = false

-- Whether the bytes of a slot from `im` on are all of one kind; `n` of them are left.
abbrev all_bytes : StackByte → StackState → ℕ → ℕ → Bool
all_bytes kind s i zero = true
all_bytes kind s i (suc n) = same_byte (byte_at s i) kind && all_bytes kind s (suc i) n

-- The 32-bit view of a spilled scalar.
unfoldable pub subreg_view : ScalarBounds → ScalarBounds
unfolding subreg
subreg_view b = record b {
  smin = b.s32_min;
  smax = b.s32_max;
  umin = b.u32_min;
  umax = b.u32_max;
  tnum = subreg b.tnum;
}

abbrev spilled_view : ℕ → Option RegState → Option RegState
spilled_view im (some (scalar b)) =
    if im == 0 then some (scalar b) else some (scalar (subreg_view b))
spilled_view im _ = none

unfoldable pub fake_scalar_for_stack : StackState → ℕ → ℕ → Option RegState
unfolding subreg_view unknown_bounds
fake_scalar_for_stack s spi im =
    if all_bytes spill s (spi * 8 + im) (8 - im)
    then spilled_view im (spilled_at s spi)
    else if all_bytes misc s (spi * 8 + im) (8 - im)
    then some (scalar (record unknown_bounds { precise = false }))
    else none

-- A byte refuses the stack, or lets the loop go on behind the bytes skipped.
pub data ByteStep : Type 0 where
  refuses : (idmap : IdMap) → ByteStep
  passes : (idmap : IdMap) (skip : ℕ) → ByteStep

abbrev by_regs : Compared → ℕ → ByteStep
by_regs r skip = if r.1 then passes r.0 skip else refuses r.0

-- The registers spilled to a slot, at its last byte.
unfoldable pub spills_step : Option RegState → Option RegState → ExactLevel → IdMap → ByteStep
unfolding regsafe
spills_step none new level idmap = passes idmap 0
spills_step (some a) none level idmap = refuses idmap
spills_step (some a) (some b) level idmap = by_regs (regsafe a b level idmap) 0

unfoldable pub types_step : StackState → StackState → ExactLevel → ℕ → IdMap → ByteStep
unfolding spills_step
types_step old new level i idmap =
    let o = byte_at old i in
    let n = byte_at new i in
    let spi = i / 8 in
    if same_byte o misc && same_byte n zero_byte
    then passes idmap 0
    else if not (same_byte o n)
    then refuses idmap
    else if not (i % 8 == 7)
    then passes idmap 0
    else if same_byte o dynptr_byte && not (same_dynptr (dynptr_at old spi) (dynptr_at new spi))
    then refuses idmap
    else if same_byte o spill
    then spills_step (spilled_at old spi) (spilled_at new spi) level idmap
    else passes idmap 0

abbrev is_exact : ExactLevel → Bool
is_exact exact = true
is_exact not_exact = false

-- The fake scalars of both stacks at a slot or its upper half, where both are there.
abbrev fake_scalars : StackState → StackState → ℕ → Option (RegState × RegState)
fake_scalars old new i =
    if i % 8 == 0 || i % 8 == 4
    then elim (fake_scalar_for_stack old (i / 8) (i % 8)) [
      | none ↦ none
      | some a ↦ elim (fake_scalar_for_stack new (i / 8) (i % 8)) [
        | none ↦ none
        | some b ↦ some (a, b)
      ]
    ]
    else none

unfoldable pub byte_step : StackState → StackState → ExactLevel → ℕ → IdMap → ByteStep
unfolding types_step fake_scalar_for_stack regsafe
byte_step old new level i idmap =
    if is_exact level && not (same_byte (byte_at old i) (byte_at new i))
    then refuses idmap
    else if same_byte (byte_at old i) invalid
    then passes idmap 0
    else elim (fake_scalars old new i) [
      | none ↦ types_step old new level i idmap
      | some pair ↦ by_regs (regsafe pair.0 pair.1 level idmap) (if i % 8 == 0 then 7 else 3)
    ]

-- The bytes that are left, the first `skip` of them passed over.
unfoldable pub stack_from : ℕ → ℕ → StackState → StackState → ExactLevel → IdMap → Compared
unfolding byte_step
stack_from zero skip old new level idmap = (idmap, true)
stack_from (suc left) (suc skip) old new level idmap = stack_from left skip old new level idmap
stack_from (suc left) zero old new level idmap =
    elim (byte_step old new level (stack_size - suc left) idmap) [
      | refuses m ↦ (m, false)
      | passes m skip ↦ stack_from left skip old new level m
    ]

unfoldable pub stacksafe : StackState → StackState → ExactLevel → IdMap → Compared
unfolding stack_from
stacksafe old new level idmap = stack_from stack_size 0 old new level idmap

-- A comparison, and the one behind it.
abbrev and_then : Compared → (IdMap → Compared) → Compared
and_then r next = if r.1 then next r.0 else r

unfoldable pub refs_safe : ℕ → ℕ → List ℕ → List ℕ → IdMap → Compared
unfolding check_ids
refs_safe zero i old new idmap = (idmap, true)
refs_safe (suc n) i old new idmap =
    and_then (check_ids idmap (get_or old i 0) (get_or new i 0))
      (λ m. refs_safe n (suc i) old new m)

-- The `n` registers from `r` on that are in the mask.
unfoldable pub regs_safe : ℕ → ℕ → ℕ → List RegState → List RegState → ExactLevel → IdMap → Compared
unfolding regsafe
regs_safe zero r live old new level idmap = (idmap, true)
regs_safe (suc n) r live old new level idmap =
    let here =
      if bit_and live (2 ^ r) == 0
      then (idmap, true)
      else regsafe (reg_at old r) (reg_at new r) level idmap in
    and_then here (λ m. regs_safe n (suc r) live old new level m)

abbrev all_regs : ℕ
all_regs = 2 ^ num_regs - 1

unfoldable pub frames_safe :
    ℕ → ℕ → List (Option FrameState) → List (Option FrameState) → ExactLevel → IdMap → Compared
unfolding regs_safe stacksafe
frames_safe zero i old new level idmap = (idmap, true)
frames_safe (suc n) i old new level idmap = elim (get_or old i none) [
  | none ↦ elim (get_or new i none) [
    | none ↦ frames_safe n (suc i) old new level idmap
    | some b ↦ (idmap, false)
  ]
  | some a ↦ elim (get_or new i none) [
    | none ↦ (idmap, false)
    | some b ↦ and_then (regs_safe num_regs 0 all_regs a.regs b.regs level idmap) (λ m.
        and_then (stacksafe a.stack b.stack level m) (λ m'. frames_safe n (suc i) old new level m'))
  ]
]

abbrev empty_map : IdMap
empty_map = record { pairs = []; tmp_id_gen = 0 }

unfoldable pub states_equal : VerifierState → VerifierState → ExactLevel → ℕ → Bool
unfolding refs_safe regs_safe stacksafe frames_safe
states_equal old new level live_regs =
    if not (old.curframe == new.curframe) || not (old.refs_cnt == new.refs_cnt)
    then false
    else (and_then (refs_safe old.refs_cnt 0 old.refs new.refs empty_map) (λ m.
        and_then (regs_safe num_regs 0 live_regs old.regs new.regs level m) (λ m'.
          and_then (stacksafe old.stack new.stack level m')
            (λ m''. frames_safe (max_call_frames - 1) 0 old.saved new.saved level m'')))).1

-- `clean_state`: the registers, and the slots with their bytes, that the masks leave out.
unfoldable pub clean_regs : ℕ → ℕ → ℕ → List RegState → List RegState
clean_regs zero r live regs = regs
clean_regs (suc n) r live regs =
    let dead = not (r == 10) && bit_and live (2 ^ r) == 0 in
    clean_regs n (suc r) live (if dead then set regs r uninit else regs)

unfoldable pub clean_slot : StackState → ℕ → StackState
clean_slot s slot = record {
  bytes = fill s.bytes (slot * 8) 8 invalid;
  spilled = set s.spilled slot none;
  dynptr = set s.dynptr slot none;
}

unfoldable pub clean_slots : ℕ → ℕ → ℕ → StackState → StackState
unfolding clean_slot
clean_slots zero slot live s = s
clean_slots (suc n) slot live s =
    clean_slots n (suc slot) live (if bit_and live (2 ^ slot) == 0 then clean_slot s slot else s)

unfoldable pub clean_state : VerifierState → ℕ → ℕ → VerifierState
unfolding clean_regs clean_slots
clean_state s live_regs live_stack = record s {
  regs = clean_regs num_regs 0 live_regs s.regs;
  stack = clean_slots stack_slots 0 live_stack s.stack;
}

unfoldable pub all_regs_exact : List RegState → List RegState → Bool
unfolding regs_exact
all_regs_exact (a ∷ old) (b ∷ new) = regs_exact a b && all_regs_exact old new
all_regs_exact _ _ = true

unfoldable pub states_maybe_looping : VerifierState → VerifierState → Bool
unfolding all_regs_exact
states_maybe_looping old new = old.refs_cnt == new.refs_cnt && all_regs_exact old.regs new.regs
