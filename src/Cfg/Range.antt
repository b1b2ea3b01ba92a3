-- ===== src/Cfg/Range.antt =====
-- The range of a subprogram in src/cfg.rs, `find_subprog_range`.
use rand_verifier.Prelude.{
  ℕ, ◌≤◌, ◌<◌, ◌≡◌, ◌⊎◌, inl, inr, refl, true, false, List, [], ◌∷◌, ltb, leb, arith, Bool-cases,
  leb→le, leb-false→lt,
}
use rand_verifier.Cfg.{find_subprog_range, first_gt, last_le}

-- The entries, each above the one before.
abbrev pub Above : ℕ → List ℕ → Type 0
Above lo [] = Unit
Above lo (s ∷ ss) = (lo < s) × Above s ss

abbrev pub Outside : ℕ → ℕ → List ℕ → Type 0
Outside start end [] = Unit
Outside start end (s ∷ ss) = ((s ≤ start) ⊎ (end ≤ s)) × Outside start end ss

-- What the two searches find among entries from `lo` on.
last_le-Above : (idx d lo : ℕ) (ss : List ℕ) → Above lo ss → idx < lo → last_le idx ss d ≡ d
last_le-Above idx d lo [] a l = refl
last_le-Above idx d lo (s ∷ ss) (p, a) l =
    let far : leb s idx ≡ false = ground arith in rw far (last_le-Above idx d s ss a (omega arith))

last_le-ge : (idx lo d : ℕ) (ss : List ℕ) → Above lo ss → d ≤ lo → d ≤ last_le idx ss d
last_le-ge idx lo d [] a l = omega arith
last_le-ge idx lo d (s ∷ ss) (p, a) l = elim (Bool-cases (leb s idx)) [
  | inl e ↦ rw e (omega (arith, last_le-ge idx s s ss a (omega arith)))
  | inr e ↦ rw e (last_le-ge idx s d ss a (omega arith))
]

Outside-Above : (start end lo : ℕ) (ss : List ℕ) → Above lo ss → end ≤ lo → Outside start end ss
Outside-Above start end lo [] a l = tt
Outside-Above start end lo (s ∷ ss) (p, a) l =
    (inr (omega arith), Outside-Above start end s ss a (omega arith))

pub record Brackets (idx start end : ℕ) (ss : List ℕ) : Type 0 where
  pub from : start ≤ idx
  pub to : idx < end
  pub outside : Outside start end ss

search-Brackets :
    (idx cnt lo : ℕ) (ss : List ℕ)
    → Above lo ss
    → lo ≤ idx
    → idx < cnt
    → Brackets idx (last_le idx ss lo) (first_gt idx ss cnt) ss
search-Brackets idx cnt lo [] a l k = record { from = l; to = k; outside = tt }
search-Brackets idx cnt lo (s ∷ ss) (p, a) l k = elim (Bool-cases (leb s idx)) [
  | inl e ↦
      let past : ltb idx s ≡ false = ground arith in
      let later = search-Brackets idx cnt s ss a (leb→le s idx e) k in
      rw (e, past)
        (record {
          from = later.from;
          to = later.to;
          outside = (inl (last_le-ge idx s s ss a (omega arith)), later.outside);
        })
  | inr e ↦
      let ahead : ltb idx s ≡ true = ground arith in
      rw (e, ahead, last_le-Above idx lo s ss a (leb-false→lt s idx e))
        (record {
          from = l;
          to = leb-false→lt s idx e;
          outside = (inr (omega arith), Outside-Above lo s s ss a (omega arith));
        })
]

-- For entries in order, the first of them 0, and an instruction of the program, the range holds the
-- instruction, and no entry lies inside it.
pub find_subprog_range-Brackets :
    (idx cnt : ℕ) (ss : List ℕ)
    → Above 0 ss
    → idx < cnt
    → Brackets idx
        (find_subprog_range idx (0 ∷ ss) cnt).0
        (find_subprog_range idx (0 ∷ ss) cnt).1
        (0 ∷ ss)
unfolding find_subprog_range
find_subprog_range-Brackets idx cnt ss a k =
    let first : leb 0 idx ≡ true = ground arith in
    let past : ltb idx 0 ≡ false = ground arith in
    let later = search-Brackets idx cnt 0 ss a (omega arith) k in
    rw (first, past)
      (record { from = later.from; to = later.to; outside = (inl (omega arith), later.outside) })
