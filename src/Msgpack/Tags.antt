-- ===== src/Msgpack/Tags.antt =====
-- The tag bytes of the short forms, `0xa0 | size` and the like: the bits do not overlap, so the tag is
-- a sum.
use Prim.Native.Nat.{bit_or}
use hl_maker_lighter_arb_cpp.Common.{
  ℕ, ◌+◌, ◌<◌, ◌≡◌, refl, Bool, ◌==◌, ==_iff, passes_below, passes_below_at,
}
use hl_maker_lighter_arb_cpp.Msgpack.Bytes.{u8}

abbrev is_sum : ℕ → ℕ → Bool
is_sum base n = u8 (bit_or base n) == base + n

pub tag_of_str : (n : ℕ) → n < 32 → u8 (bit_or 0xa0 n) ≡ 0xa0 + n
unfolding passes_below
tag_of_str n h = (==_iff _ _).0 (passes_below_at (is_sum 0xa0) 32 n h refl)

pub tag_of_array : (n : ℕ) → n < 16 → u8 (bit_or 0x90 n) ≡ 0x90 + n
unfolding passes_below
tag_of_array n h = (==_iff _ _).0 (passes_below_at (is_sum 0x90) 16 n h refl)

pub tag_of_map : (n : ℕ) → n < 16 → u8 (bit_or 0x80 n) ≡ 0x80 + n
unfolding passes_below
tag_of_map n h = (==_iff _ _).0 (passes_below_at (is_sum 0x80) 16 n h refl)
