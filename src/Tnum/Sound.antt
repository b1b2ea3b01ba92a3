-- ===== src/Tnum/Sound.antt =====
-- The operations of src/tnum.rs against the operations on members, by kind.
use rand_verifier.Prelude.{ℕ, ◌%◌, ◌^◌, bit_and, bit_or, bit_xor}
use rand_verifier.Word.{wrapping_add, wrapping_sub, shl_or_zero, shr_or_zero, sar_or_sign}
use rand_verifier.Tnum.{
  Tnum, add, sub, and, or, xor, union, intersect, lshift, rshift, arshift, subreg,
}
use rand_verifier.Tnum.Members.{IsNormal, Contains}
use rand_verifier.Tnum.Arith.{add-Contains, sub-Contains}
use rand_verifier.Tnum.Bitwise.{
  and-Contains, or-Contains, xor-Contains, union-left, union-right, intersect-Contains,
}
use rand_verifier.Tnum.Shift.{lshift-Contains, rshift-Contains, arshift-Contains, subreg-Contains}

module _ (a b : Tnum) (na : IsNormal a) (nb : IsNormal b) where
  -- For tracked numbers with disjoint u64 fields, the sum and the difference contain the wrapped
  -- sum and difference of any two members.
  pub add-sub-Contains :
      (x y : ℕ)
      → Contains a x
      → Contains b y
      → Contains (add a b) (wrapping_add x y) × Contains (sub a b) (wrapping_sub x y)
  add-sub-Contains x y cx cy = (add-Contains a b na nb x y cx cy, sub-Contains a b na nb x y cx cy)

  -- For tracked numbers with disjoint u64 fields, the tracked bit operations contain the
  -- conjunction, the disjunction and the exclusive disjunction of any two members.
  pub bitwise-Contains :
      (x y : ℕ)
      → Contains a x
      → Contains b y
      → Contains (and a b) (bit_and x y)
        × Contains (or a b) (bit_or x y)
        × Contains (xor a b) (bit_xor x y)
  bitwise-Contains x y cx cy = (
    and-Contains a b na nb x y cx cy,
    or-Contains a b na nb x y cx cy,
    xor-Contains a b na nb x y cx cy,
  )

  -- For tracked numbers with disjoint u64 fields, the union contains the members of both, and the
  -- intersection the common ones.
  pub union-intersect-Contains :
      (x y z : ℕ)
      → Contains a x
      → Contains b y
      → Contains a z
      → Contains b z
      → Contains (union a b) x × Contains (union a b) y × Contains (intersect a b) z
  union-intersect-Contains x y z cx cy az bz =
      (union-left a b na nb x cx, union-right a b na nb y cy, intersect-Contains a b na nb z az bz)

module _ (t : Tnum) (n : IsNormal t) where
  -- For tracked numbers with disjoint u64 fields, the tracked shifts contain the shifted members,
  -- and the low half contains the members' low halves.
  pub shifts-Contains :
      (k x : ℕ)
      → Contains t x
      → Contains (lshift t k) (shl_or_zero x k)
        × Contains (rshift t k) (shr_or_zero x k)
        × Contains (arshift t k) (sar_or_sign x k)
        × Contains (subreg t) (x % 2 ^ 32)
  shifts-Contains k x c = (
    lshift-Contains t n k x c,
    rshift-Contains t n k x c,
    arshift-Contains t n k x c,
    subreg-Contains t n x c,
  )
