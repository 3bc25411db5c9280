-- ===== src/Examples/Crypto.antt =====
-- Keccak-256 and hexadecimal text at concrete inputs.
use Prim.Native.String.{String}
use hl_maker_lighter_arb_cpp.Common.{ℕ, ◌≡◌, refl, true, some, none, List, [], ◌∷◌, arith}
use hl_maker_lighter_arb_cpp.Crypto.Permutation.{
  for_below, for_5, rotation, rotl64, not64, round_constants, column_parities, column_effects,
  apply_effects, rotate_and_move, mix_rows, keccak_round, rounds, keccakf,
}
use hl_maker_lighter_arb_cpp.Crypto.Hash.{
  keccak256, absorb_full, absorb, load_lane, last_block, copy_remaining, mark_end, squeeze, finish,
  repeated,
}
use hl_maker_lighter_arb_cpp.Crypto.Reference.{keccak}
use hl_maker_lighter_arb_cpp.Crypto.Digest.{keccak256_lem}
use hl_maker_lighter_arb_cpp.Crypto.Hex.{
  digit_value, starts_with_digit, read_digits, prefixed, read_number, read_unsigned, skip_spaces,
  read_signed, stoul_16, without_prefix, pairs, hex_to_bytes, hex_digit, hex_digits, bytes_to_hex,
}
use hl_maker_lighter_arb_cpp.Crypto.HexText.{hex_to_bytes-bytes_to_hex}

keccak_text : List ℕ → String
unfolding keccak256 absorb_full absorb load_lane last_block copy_remaining mark_end squeeze finish
    repeated keccakf rounds keccak_round round_constants column_parities column_effects
    apply_effects rotate_and_move mix_rows rotation rotl64 not64 for_5 for_below bytes_to_hex
    hex_digits hex_digit
keccak_text message = bytes_to_hex (keccak256 message) true

-- The published values of the empty message and of "abc", and one of 200 bytes 0xa3, more than a block.
keccak_empty : keccak_text [] ≡ "0xc5d2460186f7233c927e7db2dcc703c0e500b653ca82273b7bfad8045d85a470"
unfolding keccak_text
keccak_empty = refl

keccak_abc :
    keccak_text (97 ∷ 98 ∷ 99 ∷ [])
    ≡ "0x4e03657aea45a94fc7d47ba826c8d667c0d1e6e33a64a036ec44f58fa12d6c45"
unfolding keccak_text
keccak_abc = refl

keccak_long :
    keccak_text (repeated 200 0xa3)
    ≡ "0x3a57666b048777f2c953dc4456f45a2588e1cb6f2da760122d530ac2ce607d4a"
unfolding keccak_text
keccak_long = refl

keccak256_lem_example : keccak256 (97 ∷ 98 ∷ 99 ∷ []) ≡ keccak (97 ∷ 98 ∷ 99 ∷ [])
keccak256_lem_example = keccak256_lem (97 ∷ 98 ∷ 99 ∷ [])

hex_to_bytes-bytes_to_hex_example :
    hex_to_bytes (bytes_to_hex (0xde ∷ 0x00 ∷ 0x0f ∷ []) true) ≡ some (0xde ∷ 0x00 ∷ 0x0f ∷ [])
hex_to_bytes-bytes_to_hex_example =
    hex_to_bytes-bytes_to_hex (0xde ∷ 0x00 ∷ 0x0f ∷ []) true
      (omega arith, (omega arith, (omega arith, tt)))

odd_length : hex_to_bytes "abc" ≡ none
unfolding hex_to_bytes without_prefix prefixed pairs stoul_16 skip_spaces read_signed read_unsigned
    read_number starts_with_digit read_digits digit_value
odd_length = refl
