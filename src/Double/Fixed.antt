-- ===== src/Double/Fixed.antt =====
-- Millionths as a `Double`: the instance at which the tests and the witnesses run.
use hl_maker_lighter_arb_cpp.Common.{ℕ, ◌+◌, ◌*◌, ◌/◌, ◌^◌, arith, ltb, if◌then◌else◌}
use hl_maker_lighter_arb_cpp.Common.Int.{ℤ, pos, pos_part, neg_part, sub_ℕ, ltb_ℤ, leb_ℤ}
use hl_maker_lighter_arb_cpp.Double.Defs.{Double}
use hl_maker_lighter_arb_cpp.Double.Order.{IsOrdered}

abbrev pub Fixed : Type 0
Fixed = ℤ

abbrev one : ℕ
one = 1_000_000

-- The sign of a product or quotient, and a magnitude.
abbrev signed : ℤ → ℤ → ℕ → ℤ
signed a b n =
    sub_ℕ (if ltb (pos_part a * neg_part b + neg_part a * pos_part b) 1 then n else 0)
      (if ltb (pos_part a * neg_part b + neg_part a * pos_part b) 1 then 0 else n)

abbrev magnitude : ℤ → ℕ
magnitude a = pos_part a + neg_part a

instance abbrev pub fixed_double : Double Fixed
fixed_double = record {
  lit = λ n k. pos (n * one / 10 ^ k);
  add = λ a b. sub_ℕ (pos_part a + pos_part b) (neg_part a + neg_part b);
  sub = λ a b. sub_ℕ (pos_part a + neg_part b) (neg_part a + pos_part b);
  mul = λ a b. signed a b (magnitude a * magnitude b / one);
  div = λ a b. signed a b (magnitude a * one / magnitude b);
  neg = λ a. sub_ℕ (neg_part a) (pos_part a);
  fabs = λ a. pos (magnitude a);
  lt = ltb_ℤ;
  le = leb_ℤ;
}

pub Fixed-IsOrdered : IsOrdered Fixed
Fixed-IsOrdered = ground arith
