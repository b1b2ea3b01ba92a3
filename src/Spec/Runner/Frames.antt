-- ===== src/Spec/Runner/Frames.antt =====
-- src/spec/runner.rs `push_frame`, `pop_frame`, `caller_exists`: the saved frames of active calls.
use rand_verifier.Prelude.{
  ℕ, suc, Bool, true, false, Option, some, none, List, [], ◌∷◌, ◌≡◌, refl, Option-cases, inl, inr,
}
use rand_verifier.Spec.State.{SpecFrame}

abbrev pub Saved : Type 0
Saved = List (Option SpecFrame)

unfoldable pub caller_exists : Saved → Bool
caller_exists [] = false
caller_exists (none ∷ fs) = caller_exists fs
caller_exists (some f ∷ fs) = true

-- Into the first free slot; `none` is the source's error.
unfoldable pub push_frame : Saved → SpecFrame → Option Saved
push_frame [] f = none
push_frame (none ∷ fs) f = some (some f ∷ fs)
push_frame (some g ∷ fs) f = elim (push_frame fs f) [ none ↦ none | some gs ↦ some (some g ∷ gs) ]

-- Out of the last slot in use.
unfoldable pub pop_frame : Saved → Option (SpecFrame × Saved)
pop_frame [] = none
pop_frame (slot ∷ fs) = elim (pop_frame fs) [
  | some r ↦ some (r.0, slot ∷ r.1)
  | none ↦ elim slot [ none ↦ none | some f ↦ some (f, none ∷ fs) ]
]

-- The slots in use come first.
pub data IsStack : Saved → Type 0 where
  all_free : {fs : Saved} → caller_exists fs ≡ false → IsStack fs
  in_use : {f : SpecFrame} {fs : Saved} → IsStack fs → IsStack (some f ∷ fs)

-- How many frames are saved.
unfoldable pub depth : Saved → ℕ
depth [] = 0
depth (none ∷ fs) = depth fs
depth (some f ∷ fs) = suc (depth fs)

pop_frame-free : (fs : Saved) → caller_exists fs ≡ false → pop_frame fs ≡ none
unfolding caller_exists pop_frame
pop_frame-free [] h = refl
pop_frame-free (none ∷ fs) h = rw (pop_frame-free fs h) refl
pop_frame-free (some f ∷ fs) h = cc

-- After a push a caller exists.
pub push_frame-caller_exists :
    (fs gs : Saved) (f : SpecFrame) → push_frame fs f ≡ some gs → caller_exists gs ≡ true
unfolding push_frame caller_exists
push_frame-caller_exists [] gs f h = cc
push_frame-caller_exists (none ∷ fs) gs f h = cc
push_frame-caller_exists (some g ∷ fs) gs f h = elim (Option-cases (push_frame fs f)) [
  | inl e ↦ absurd (cc)
  | inr (gs', e) ↦ cc
]

-- Where the used slots come first, a pushed frame is the next one popped and the slots are as
-- before.
pub pop_frame-push_frame :
    (fs gs : Saved) (f : SpecFrame)
    → IsStack fs
    → push_frame fs f ≡ some gs
    → pop_frame gs ≡ some (f, fs)
unfolding push_frame pop_frame caller_exists
pop_frame-push_frame [] gs f v h = cc
pop_frame-push_frame (none ∷ fs) gs f (all_free e) h = cc (pop_frame-free fs e)
pop_frame-push_frame (some g ∷ fs) gs f (all_free e) h = cc
pop_frame-push_frame (some g ∷ fs) gs f (in_use v) h = elim (Option-cases (push_frame fs f)) [
  | inl e ↦ cc
  | inr (gs', e) ↦ cc (pop_frame-push_frame fs gs' f v e)
]

-- A frame can be popped just where a caller exists: the source's `unwrap` does not fail.
pub pop_frame-caller_exists :
    (fs : Saved) → caller_exists fs ≡ true → (r : SpecFrame × Saved) × (pop_frame fs ≡ some r)
unfolding caller_exists pop_frame
pop_frame-caller_exists [] h = cc
pop_frame-caller_exists (none ∷ fs) h =
    let (r, e) = pop_frame-caller_exists fs h in ((r.0, none ∷ r.1), rw e refl)
pop_frame-caller_exists (some f ∷ fs) h = elim (Option-cases (pop_frame fs)) [
  | inl e ↦ ((f, none ∷ fs), rw e refl)
  | inr (r, e) ↦ ((r.0, some f ∷ r.1), rw e refl)
]
