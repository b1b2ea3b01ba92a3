-- ===== src/Spec/Runner/Run/Closed.antt =====
-- What an accepting exploration leaves behind: a set of visited states that the steps do not leave.
use rand_verifier.Prelude.{
  ℕ, zero, suc, Bool, true, false, ltb, Option, some, List, [], ◌∷◌, ok, length, get_elem?, ◌≡◌,
  ◌⊎◌, inl, inr, refl, Result-cases, test_of, test_of_sound, test_of_complete, ◌||◌, ap, sym, ◌∙◌,
  Bool-cases, Option-cases,
}
use rand_verifier.Insn.{BpfInsn}
use rand_verifier.ProgType.{ProgType}
use rand_verifier.Spec.State.{initial}
use rand_verifier.Spec.Verdict.{accept, verdict_of, Refusal, failure, unsupported}
use rand_verifier.Spec.Runner.Branch.{WorkItem, item}
use rand_verifier.Spec.Runner.Step.{MapInfo, step}
use rand_verifier.Spec.Runner.Run.{
  Item-discrete, explored, push_all, run, member, SpecLimits, verify_spec_limited,
  compute_loop_heads,
}

-- Every item of a list is in a set.
abbrev pub Covers : List WorkItem → List WorkItem → Type 0
Covers vs [] = Unit
Covers vs (w ∷ ws) = (explored vs w ≡ true) × Covers vs ws

or-true : (b : Bool) → (b || true) ≡ true
or-true true = refl
or-true false = refl

pub explored_self : (w : WorkItem) (vs : List WorkItem) → explored (w ∷ vs) w ≡ true
unfolding explored
explored_self w vs = rw (test_of_complete (Item-discrete w w) refl) refl

nothing_explored : (w : WorkItem) → ¬ (explored [] w ≡ true)
unfolding explored
nothing_explored w h = cc

pub explored-later :
    (v : WorkItem) (vs : List WorkItem) (w : WorkItem)
    → explored vs w ≡ true
    → explored (v ∷ vs) w ≡ true
unfolding explored
explored-later v vs w h = rw h (or-true (test_of (Item-discrete v w)))

explored-inv :
    (v : WorkItem) (vs : List WorkItem) (w : WorkItem)
    → explored (v ∷ vs) w ≡ true
    → (v ≡ w) ⊎ (explored vs w ≡ true)
unfolding explored
explored-inv v vs w h = elim (Bool-cases (test_of (Item-discrete v w))) [
  | inl e ↦ inl (test_of_sound (Item-discrete v w) e)
  | inr e ↦ inr (ap (λ b. b || explored vs w) (sym e) ∙ h)
]

Covers-push_all :
    (vs next worklist : List WorkItem)
    → Covers vs (push_all next worklist)
    → Covers vs next × Covers vs worklist
unfolding push_all
Covers-push_all vs [] worklist c = (tt, c)
Covers-push_all vs (w ∷ ws) worklist c =
    let (rest, (here, later)) = Covers-push_all vs ws (w ∷ worklist) c in ((here, rest), later)

module _ (prog : ProgType) (maps : ℕ → Option MapInfo) (program : List BpfInsn) where
  -- The instruction at an item was stepped without a refusal, and every successor is in the set.
  pub record IsJustified (vs : List WorkItem) (w : WorkItem) : Type 0 where
    pub insn : BpfInsn
    pub next : List WorkItem
    pub first_id : ℕ
    pub last_id : ℕ
    pub fetched : get_elem? program w.pc ≡ some insn
    pub stepped : step prog maps first_id w.state w.pc insn ≡ ok (next, last_id)
    pub covered : Covers vs next

  -- A set that holds what was visited and what is left to do, and justifies what is new.
  record Closure (visited worklist : List WorkItem) : Type 0 where
    vs : List WorkItem
    keeps : (w : WorkItem) → explored visited w ≡ true → explored vs w ≡ true
    covers : Covers vs worklist
    justifies :
        (w : WorkItem) → explored vs w ≡ true → (explored visited w ≡ true) ⊎ IsJustified vs w

  -- One more visited item, whose step is known.
  visit :
      {visited worklist next : List WorkItem} {w : WorkItem} {insn : BpfInsn} (first_id last_id : ℕ)
      → get_elem? program w.pc ≡ some insn
      → step prog maps first_id w.state w.pc insn ≡ ok (next, last_id)
      → Closure (w ∷ visited) (push_all next worklist)
      → Closure visited (w ∷ worklist)
  visit {visited} {worklist} {next} {w} {insn} first_id last_id f s c = record {
    vs = c.vs;
    keeps = λ v e. c.keeps v (explored-later w visited v e);
    covers = (c.keeps w (explored_self w visited), parts.1);
    justifies = λ v e. elim (c.justifies v e) [
      | inr j ↦ inr j
      | inl old ↦ elim (explored-inv w visited v old) [
        | inl same ↦ inr (rw (sym same) here)
        | inr seen ↦ inl seen
      ]
    ];
  }
    where
      parts : Covers c.vs next × Covers c.vs worklist
      parts = Covers-push_all c.vs next worklist c.covers

      here : IsJustified c.vs w
      here = record {
        insn = insn;
        next = next;
        first_id = first_id;
        last_id = last_id;
        fetched = f;
        stepped = s;
        covered = parts.0;
      }

  skip :
      {visited worklist : List WorkItem} {w : WorkItem}
      → explored visited w ≡ true
      → Closure visited worklist
      → Closure visited (w ∷ worklist)
  skip {w = w} e c = record {
    vs = c.vs;
    keeps = c.keeps;
    covers = (c.keeps w e, c.covers);
    justifies = c.justifies;
  }

  verdict_of-ne : (r : Refusal) → ¬ (verdict_of r ≡ accept)
  unfolding verdict_of
  verdict_of-ne (failure f) h = cc
  verdict_of-ne unsupported h = cc

  module _ (max_states : ℕ) (heads : List ℕ) where
    run-Closure :
        (left : ℕ) (visited : List WorkItem) (next_id : ℕ) (worklist : List WorkItem)
        → run prog maps program max_states heads left visited next_id worklist ≡ accept
        → Closure visited worklist
    unfolding run
    run-Closure left visited next_id [] h = record {
      vs = visited;
      keeps = λ w e. e;
      covers = tt;
      justifies = λ w e. inl e;
    }
    run-Closure zero visited next_id (w ∷ worklist) h = cc
    run-Closure (suc left) visited next_id (w ∷ worklist) h =
        elim (Bool-cases (ltb max_states (length visited))) [
          | inl full ↦ absurd (cc (rw full at h))
          | inr room ↦ elim (Option-cases (get_elem? program w.pc)) [
            | inl gone ↦ absurd (cc (rw (room, gone) at h))
            | inr (insn, fetched) ↦ elim (Bool-cases (explored visited w)) [
              | inl seen ↦ elim (Bool-cases (member heads w.pc)) [
                | inl loop ↦ absurd (cc (rw (room, fetched, seen, loop) at h))
                | inr l ↦
                    skip seen
                      (run-Closure left visited next_id worklist (rw (room, fetched, seen, l) at h))
              ]
              | inr fresh ↦ elim (Result-cases (step prog maps next_id w.state w.pc insn)) [
                | inl ((next, last_id), stepped) ↦ visit next_id last_id fetched stepped (
                    run-Closure left (w ∷ visited) last_id (push_all next worklist)
                      (rw (room, fetched, fresh, stepped) at h))
                | inr (why, stepped) ↦
                    absurd (verdict_of-ne why (rw (room, fetched, fresh, stepped) at h))
              ]
            ]
          ]
        ]

-- A set of states around the initial one, each of them justified.
pub record Certificate (prog : ProgType) (maps : ℕ → Option MapInfo) (program : List BpfInsn)
    : Type 0 where
  pub states : List WorkItem
  pub starts : explored states (item 0 initial) ≡ true
  pub justified : (w : WorkItem) → explored states w ≡ true → IsJustified prog maps program states w

-- Every item of a list is justified.
abbrev pub AllJustified :
    ProgType → (ℕ → Option MapInfo) → List BpfInsn → List WorkItem → List WorkItem → Type 0
AllJustified prog maps program vs [] = Unit
AllJustified prog maps program vs (w ∷ ws) =
    IsJustified prog maps program vs w × AllJustified prog maps program vs ws

pub IsJustified-of :
    (prog : ProgType) (maps : ℕ → Option MapInfo) (program : List BpfInsn) (vs ws : List WorkItem)
    → AllJustified prog maps program vs ws
    → (w : WorkItem) → explored ws w ≡ true
    → IsJustified prog maps program vs w
IsJustified-of prog maps program vs [] j w e = absurd (nothing_explored w e)
IsJustified-of prog maps program vs (v ∷ ws) j w e = elim (explored-inv v ws w e) [
  | inl same ↦ rw (sym same) j.0
  | inr later ↦ IsJustified-of prog maps program vs ws j.1 w later
]

-- If verify_spec_limited returns Accept, for whatever limits, there is a set of (pc, state) items
-- that contains the initial one and is closed under the steps of the program: at each item the
-- instruction exists, its step is not refused, and all its successors are in the set.
pub accept-Certificate :
    (program : List BpfInsn) (maps : ℕ → Option MapInfo) (limits : SpecLimits) (prog : ProgType)
    → verify_spec_limited program maps limits prog ≡ accept
    → Certificate prog maps program
unfolding verify_spec_limited
accept-Certificate program maps limits prog h =
    let c =
      run-Closure prog maps program limits.max_states (compute_loop_heads program) limits.max_steps
        [] 0x4000_0000 (item 0 initial ∷ []) h in
    record {
      states = c.vs;
      starts = c.covers.0;
      justified =
          λ w e. elim (c.justifies w e) [ inl old ↦ absurd (nothing_explored w old) | inr j ↦ j ];
    }
