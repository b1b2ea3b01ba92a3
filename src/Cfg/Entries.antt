-- ===== src/Cfg/Entries.antt =====
-- The entries that `add_subprog` of src/cfg.rs collects.
use rand_verifier.Prelude.{
  ℕ, suc, ◌<◌, ◌≡◌, refl, Bool, true, false, ◌||◌, ◌==◌, List, [], ◌∷◌, ◌++◌, Option, some, none,
  ok, >>=-eq-ok, length, leb, arith, Bool-cases, inl, inr, sym, ap, ◌∙◌,
}
use rand_verifier.Prelude.Int.{ℤ}
use rand_verifier.Insn.{BpfInsn}
use rand_verifier.Insn.Control.{call_offset, target_of}
use rand_verifier.Cfg.{
  find_subprog_range, listed, insert_sorted, sort, add_entry, add_entries, add_subprog,
}
use rand_verifier.Cfg.Range.{Above, Brackets, find_subprog_range-Brackets}

abbrev Distinct : List ℕ → Type 0
Distinct [] = Unit
Distinct (x ∷ xs) = (listed xs x ≡ false) × Distinct xs

-- Entries of a program, each once.
abbrev AllBelow : ℕ → List ℕ → Type 0
AllBelow n [] = Unit
AllBelow n (x ∷ xs) = (x < n) × AllBelow n xs

listed-append : (xs : List ℕ) (y x : ℕ) → listed (xs ++ (y ∷ [])) x ≡ (listed xs x || (y == x))
listed-append [] y x = ground arith
listed-append (z ∷ xs) y x = ground (arith, listed-append xs y x)

Distinct-append :
    (xs : List ℕ) (y : ℕ) → Distinct xs → listed xs y ≡ false → Distinct (xs ++ (y ∷ []))
Distinct-append [] y d h = (refl, tt)
Distinct-append (z ∷ xs) y (n, d) h =
    (ground (arith, listed-append xs y z), Distinct-append xs y d (ground arith))

AllBelow-append :
    (n : ℕ) (xs : List ℕ) (y : ℕ) → AllBelow n xs → y < n → AllBelow n (xs ++ (y ∷ []))
AllBelow-append n [] y b l = (l, tt)
AllBelow-append n (z ∷ xs) y (p, b) l = (p, AllBelow-append n xs y b l)

record IsEntries (n : ℕ) (starts : List ℕ) : Type 0 where
  distinct : Distinct starts
  below : AllBelow n starts
  main : listed starts 0 ≡ true

add_entry-IsEntries :
    (pc n : ℕ) (o : Option ℤ) (starts more : List ℕ)
    → IsEntries n starts
    → add_entry pc n o starts ≡ ok more
    → IsEntries n more
unfolding add_entry
add_entry-IsEntries pc n none starts more v h = let same : starts ≡ more = cc in rw (sym same) v
add_entry-IsEntries pc n (some offset) starts more v h =
    let target = target_of pc offset in
    elim (Bool-cases (leb n target)) [
      | inl e ↦ absurd (cc (rw (add_entry, e) at h))
      | inr e ↦ elim (Bool-cases (listed starts target)) [
        | inl c ↦ let same : starts ≡ more = cc (rw (add_entry, e, c) at h) in rw (sym same) v
        | inr c ↦
            let same : starts ++ (target ∷ []) ≡ more = cc (rw (add_entry, e, c) at h) in
            rw (sym same) (record {
              distinct = Distinct-append starts target v.distinct c;
              below = AllBelow-append n starts target v.below (ground arith);
              main = ground (arith, listed-append starts target 0, v.main);
            })
      ]
    ]

add_entries-IsEntries :
    (pc n : ℕ) (insns : List BpfInsn) (starts more : List ℕ)
    → IsEntries n starts
    → add_entries pc n insns starts ≡ ok more
    → IsEntries n more
unfolding add_entries
add_entries-IsEntries pc n [] starts more v h = let same : starts ≡ more = cc in rw (sym same) v
add_entries-IsEntries pc n (insn ∷ insns) starts more v h =
    let (s1, added, rest) = >>=-eq-ok (add_entry pc n (call_offset insn) starts) _ h in
    add_entries-IsEntries (suc pc) n insns s1 more
      (add_entry-IsEntries pc n (call_offset insn) starts s1 v added) rest

abbrev Ascending : List ℕ → Type 0
Ascending [] = Unit
Ascending (x ∷ xs) = Above x xs

listed-insert_sorted :
    (y x : ℕ) (xs : List ℕ) → listed (insert_sorted y xs) x ≡ ((y == x) || listed xs x)
listed-insert_sorted y x [] = refl
listed-insert_sorted y x (z ∷ xs) = elim (Bool-cases (leb y z)) [
  | inl e ↦ rw e refl
  | inr e ↦ rw e (ground (arith, listed-insert_sorted y x xs))
]

listed-sort : (x : ℕ) (xs : List ℕ) → listed (sort xs) x ≡ listed xs x
listed-sort x [] = refl
listed-sort x (y ∷ xs) =
    listed-insert_sorted y x (sort xs) ∙ ap (λ (b : Bool). (y == x) || b) (listed-sort x xs)

Above-insert_sorted :
    (lo y : ℕ) (xs : List ℕ)
    → Above lo xs
    → lo < y
    → listed xs y ≡ false
    → Above lo (insert_sorted y xs)
Above-insert_sorted lo y [] a l c = (l, tt)
Above-insert_sorted lo y (z ∷ xs) (p, a) l c = elim (Bool-cases (leb y z)) [
  | inl e ↦ rw e (l, (ground arith, a))
  | inr e ↦ rw e (p, Above-insert_sorted z y xs a (ground arith) (ground arith))
]

Ascending-insert_sorted :
    (y : ℕ) (xs : List ℕ) → Ascending xs → listed xs y ≡ false → Ascending (insert_sorted y xs)
Ascending-insert_sorted y [] a c = tt
Ascending-insert_sorted y (z ∷ xs) a c = elim (Bool-cases (leb y z)) [
  | inl e ↦ rw e (ground arith, a)
  | inr e ↦ rw e (Above-insert_sorted z y xs a (ground arith) (ground arith))
]

Ascending-sort : (xs : List ℕ) → Distinct xs → Ascending (sort xs)
Ascending-sort [] d = tt
Ascending-sort (x ∷ xs) (n, d) =
    Ascending-insert_sorted x (sort xs) (Ascending-sort xs d) (listed-sort x xs ∙ n)

no_zero-Above : (lo : ℕ) (xs : List ℕ) → Above lo xs → listed xs 0 ≡ false
no_zero-Above lo [] a = refl
no_zero-Above lo (x ∷ xs) (p, a) = ground (arith, no_zero-Above x xs a)

zero_first :
    (xs : List ℕ) → Ascending xs → listed xs 0 ≡ true → (ss : List ℕ) × (xs ≡ 0 ∷ ss) × Above 0 ss
zero_first [] a h = absurd (cc)
zero_first (x ∷ xs) a h =
    let first : x ≡ 0 = ground (arith, no_zero-Above x xs a) in
    (xs, ap (λ (t : ℕ). t ∷ xs) first, rw first at a)

-- The entries of a program that is not empty are in order, each once, and the first of them is 0.
add_subprog-Above :
    (insns : List BpfInsn) (subprogs : List ℕ)
    → 0 < length insns
    → add_subprog insns ≡ ok subprogs
    → (ss : List ℕ) × (subprogs ≡ 0 ∷ ss) × Above 0 ss
unfolding add_subprog
add_subprog-Above insns subprogs l h =
    let (starts, added, sorted) = >>=-eq-ok (add_entries 0 (length insns) insns (0 ∷ [])) _ h in
    let v =
      add_entries-IsEntries 0 (length insns) insns (0 ∷ []) starts
        (record { distinct = (refl, tt); below = (l, tt); main = refl }) added in
    let same : sort starts ≡ subprogs = cc sorted in
    let (ss, e, a) =
      zero_first (sort starts) (Ascending-sort starts v.distinct) (listed-sort 0 starts ∙ v.main) in
    (ss, sym same ∙ e, a)

-- Where the entries of a program are found, the range of an instruction holds it, and no entry
-- lies inside the range.
pub find_subprog_range-add_subprog :
    (insns : List BpfInsn) (subprogs : List ℕ) (idx : ℕ)
    → add_subprog insns ≡ ok subprogs
    → idx < length insns
    → Brackets idx
        (find_subprog_range idx subprogs (length insns)).0
        (find_subprog_range idx subprogs (length insns)).1
        subprogs
find_subprog_range-add_subprog insns subprogs idx h l =
    let (ss, e, a) = add_subprog-Above insns subprogs (omega arith) h in
    rw e (find_subprog_range-Brackets idx (length insns) ss a l)
