-- ===== src/Msgpack/RoundTrip.antt =====
-- What is written is read back, and takes as many bytes as the format says.
use mathlib.Core.List.{append_assoc}
use hl_maker_lighter_arb_cpp.Msgpack.Tags.{tag_of_str, tag_of_array, tag_of_map}
use hl_maker_lighter_arb_cpp.Common.{
  ℕ, zero, suc, ◌/◌, ◌%◌, ◌^◌, ◌≤◌, ◌<◌, ◌≡◌, ◌≢◌, refl, sym, ap, ◌∙◌, inl, inr, Option-cases, Bool,
  some, [], ◌∷◌, ◌++◌, arith, length,
}
use hl_maker_lighter_arb_cpp.Msgpack.Bytes.{ByteBuffer, u8, big_endian, read_big_endian}
use hl_maker_lighter_arb_cpp.Msgpack.Pack.{
  mp_pack_uint, mp_pack_str, mp_pack_bool, mp_pack_array_size, mp_pack_map_size,
}
use hl_maker_lighter_arb_cpp.Msgpack.Unpack.{
  unpack, read_str, split_at?, uint, str, bool, array_size, map_size,
}

read-big_endian_one :
    (v : ℕ) (rest : ByteBuffer) → v < 2 ^ 8 → read_big_endian 1 0 (u8 v ∷ rest) ≡ some (v, rest)
unfolding read_big_endian
read-big_endian_one v rest h = ap (λ (n : ℕ). some (n, rest)) (omega arith)

read-big_endian_two :
    (v : ℕ) (rest : ByteBuffer)
    → v < 2 ^ 16
    → read_big_endian 2 0 (u8 (v / 256) ∷ u8 v ∷ rest) ≡ some (v, rest)
unfolding read_big_endian
read-big_endian_two v rest h = ap (λ (n : ℕ). some (n, rest)) (omega arith)

read-big_endian_four :
    (v : ℕ) (rest : ByteBuffer)
    → v < 2 ^ 32
    → read_big_endian 4 0 (big_endian 4 v ++ rest) ≡ some (v, rest)
unfolding big_endian read_big_endian
read-big_endian_four v rest h = ap (λ (n : ℕ). some (n, rest)) (omega arith)

pub read-big_endian_eight :
    (v : ℕ) (rest : ByteBuffer)
    → v < 2 ^ 64
    → read_big_endian 8 0 (big_endian 8 v ++ rest) ≡ some (v, rest)
unfolding big_endian read_big_endian
read-big_endian_eight v rest h = ap (λ (n : ℕ). some (n, rest)) (omega arith)

-- A 64-bit number is read back, with what follows untouched.
pub unpack-pack_uint :
    (value : ℕ) (rest : ByteBuffer)
    → value < 2 ^ 64
    → unpack (mp_pack_uint [] value ++ rest) ≡ some (uint value, rest)
unfolding mp_pack_uint unpack
unpack-pack_uint value rest h = ground (
  arith,
  read-big_endian_one value rest,
  read-big_endian_two value rest,
  read-big_endian_four value rest,
  read-big_endian_eight value rest,
)

-- A flag is read back.
pub unpack-pack_bool :
    (value : Bool) (rest : ByteBuffer)
    → unpack (mp_pack_bool [] value ++ rest) ≡ some (bool value, rest)
unfolding mp_pack_bool unpack
unpack-pack_bool value rest = ground arith

split_at?-append :
    (front rest : ByteBuffer) → split_at? (length front) (front ++ rest) ≡ some (front, rest)
unfolding split_at?
split_at?-append [] rest = refl
split_at?-append (b ∷ front) rest = rw (split_at?-append front rest)

-- A string of up to 255 bytes is read back, with what follows untouched.
pub unpack-pack_str :
    (value rest : ByteBuffer)
    → length value < 256
    → unpack (mp_pack_str [] value ++ rest) ≡ some (str value, rest)
unfolding mp_pack_str unpack read_str
unpack-pack_str value rest h = ground (
  arith,
  tag_of_str (length value),
  read-big_endian_one (length value) (value ++ rest),
  split_at?-append value rest,
  append_assoc (0xd9 ∷ u8 (length value) ∷ []) value rest,
)

-- The size of an array or of a map, up to 65535, is read back.
pub unpack-pack_size :
    (size : ℕ) (rest : ByteBuffer)
    → size < 2 ^ 16
    → (unpack (mp_pack_array_size [] size ++ rest) ≡ some (array_size size, rest))
      × (unpack (mp_pack_map_size [] size ++ rest) ≡ some (map_size size, rest))
unfolding mp_pack_array_size mp_pack_map_size unpack
unpack-pack_size size rest h =
    let read = read-big_endian_two size rest in
    (ground (arith, tag_of_array size, read), ground (arith, tag_of_map size, read))

split_at?-length :
    (n : ℕ) (bs front rest : ByteBuffer) → split_at? n bs ≡ some (front, rest) → length front ≡ n
unfolding split_at?
split_at?-length zero bs front rest e = ground arith
split_at?-length (suc n) [] front rest e = cc
split_at?-length (suc n) (b ∷ bs) front rest e = elim (Option-cases (split_at? n bs)) [
  | inl f ↦ ground arith
  | inr ((f, r), g) ↦ ground (arith, split_at?-length n bs f r)
]

read_str-length :
    (n : ℕ) (bs s rest : ByteBuffer) → read_str (some (n, bs)) ≡ some (str s, rest) → length s ≡ n
unfolding read_str
read_str-length n bs s rest e = elim (Option-cases (split_at? n bs)) [
  | inl f ↦ ground arith
  | inr ((f, r), g) ↦ ground (arith, split_at?-length n bs f r)
]

unpack-pack_long_str :
    (s rest : ByteBuffer)
    → 256 ≤ length s
    → length s < 2 ^ 32
    → unpack (mp_pack_str [] s ++ rest) ≡ read_str (some (length s % 256, s ++ rest))
unfolding mp_pack_str unpack
unpack-pack_long_str s rest h k = ground (arith, read-big_endian_one (length s % 256) (s ++ rest))

-- A longer string is not read back: the one byte for its length holds the length modulo 256.
long_str_lost :
    (s rest : ByteBuffer)
    → 256 ≤ length s
    → length s < 2 ^ 32
    → unpack (mp_pack_str [] s ++ rest) ≢ some (str s, rest)
long_str_lost s rest h k e =
    let short = read_str-length _ _ s rest (sym (unpack-pack_long_str s rest h k) ∙ e) in
    absurd (omega arith)
