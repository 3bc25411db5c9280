-- ===== src/Crypto/Hash.antt =====
-- `keccak256`: the sponge around the permutation, with a rate of 136 bytes.
use Prim.Native.Nat.{bit_or, bit_xor}
use hl_maker_lighter_arb_cpp.Common.{
  ℕ, zero, suc, ◌+◌, ◌-◌, ◌*◌, ◌/◌, ◌%◌, ◌^◌, List, [], ◌∷◌, length, set, leb, if◌then◌else◌,
}
use hl_maker_lighter_arb_cpp.Crypto.Permutation.{at, zeros_25, for_below, keccakf}

abbrev pub rate : ℕ
rate = 136

-- `lane |= bytes[i * 8 + j] << (8 * j)` for each `j`, where `read` indexes the bytes.
unfoldable pub load_lane : (ℕ → ℕ) → ℕ → ℕ
unfolding for_below
load_lane read i = for_below 8 0 (λ j lane. bit_or lane (read (i * 8 + j) * 2 ^ (8 * j) % 2 ^ 64)) 0

-- `state[i] ^= lane` for each lane of a block.
unfoldable pub absorb : (ℕ → ℕ) → List ℕ → List ℕ
unfolding for_below load_lane
absorb read state = for_below 17 0 (λ i s. set s i (bit_xor (at s i) (load_lane read i))) state

-- The state and the offset after the full blocks; each takes more than one byte, so that as much fuel as
-- there are bytes is enough.
unfoldable pub absorb_full : ℕ → List ℕ → ℕ → List ℕ → List ℕ × ℕ
absorb_full zero bytes offset state = (state, offset)
absorb_full (suc fuel) bytes offset state =
    let rest =
      absorb_full fuel bytes (offset + rate)
        (keccakf (absorb (λ k. at bytes (offset + k)) state)) in
    if leb (offset + rate) (length bytes) then rest else (state, offset)

unfoldable pub repeated : ℕ → ℕ → List ℕ
repeated zero b = []
repeated (suc n) b = b ∷ repeated n b

-- The last block: the bytes that remain, the mark 1 behind them, and 128 in the last byte.
unfoldable pub copy_remaining : ℕ → List ℕ → ℕ → List ℕ
copy_remaining remaining bytes offset =
    for_below remaining 0 (λ i b. set b i (at bytes (offset + i))) (repeated rate 0)

unfoldable pub mark_end : List ℕ → List ℕ
mark_end block = set block 135 (bit_xor (at block 135) 0x80)

unfoldable pub last_block : List ℕ → ℕ → List ℕ
last_block bytes offset =
    let remaining = length bytes - offset in
    mark_end (set (copy_remaining remaining bytes offset) remaining 1)

unfoldable pub squeeze : List ℕ → List ℕ
unfolding for_below repeated
squeeze state =
    for_below 32 0 (λ i output. set output i (at state (i / 8) / 2 ^ (8 * (i % 8)) % 256))
      (repeated 32 0)

-- From the end of the loop over the full blocks on.
unfoldable pub finish : List ℕ → List ℕ × ℕ → List ℕ
finish bytes (state, offset) = squeeze (keccakf (absorb (at (last_block bytes offset)) state))

unfoldable pub keccak256 : List ℕ → List ℕ
keccak256 bytes = finish bytes (absorb_full (length bytes) bytes 0 zeros_25)
