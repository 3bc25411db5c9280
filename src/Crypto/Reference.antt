-- ===== src/Crypto/Reference.antt =====
-- Keccak as its specification gives it: the five steps of a round on a five by five matrix of lanes, the
-- rotations and the constants by their recurrences, and the sponge on a padded message.
use Prim.Native.Nat.{bit_and, bit_or, bit_xor}
use hl_maker_lighter_arb_cpp.Common.{
  ℕ, zero, suc, ◌+◌, ◌-◌, ◌*◌, ◌/◌, ◌%◌, ◌^◌, List, [], ◌∷◌, ◌++◌, ◌&&◌, ◌==◌, ltb, length, get_or,
  drop, if◌then◌else◌,
}
use hl_maker_lighter_arb_cpp.Crypto.Permutation.{at, rotl64, not64, zeros_25}
use hl_maker_lighter_arb_cpp.Crypto.Hash.{repeated}

abbrev pub Lanes : Type 0
Lanes = ℕ → ℕ → ℕ

abbrev parity : Lanes → ℕ → ℕ
parity a x = bit_xor (bit_xor (bit_xor (bit_xor (a x 0) (a x 1)) (a x 2)) (a x 3)) (a x 4)

abbrev theta : Lanes → Lanes
theta a x y = bit_xor (a x y) (bit_xor (parity a ((x + 4) % 5)) (rotl64 (parity a ((x + 1) % 5)) 1))

-- The walk (x, y) ↦ (y, 2x + 3y) from (1, 0) meets each lane but the first once; the lane of step `t` is
-- rotated by the triangular number (t + 1)(t + 2) / 2.
unfoldable pub offset_on : ℕ → ℕ → ℕ → ℕ → ℕ → ℕ → ℕ
offset_on zero t at_x at_y x y = 0
offset_on (suc n) t at_x at_y x y =
    let later = offset_on n (suc t) at_y ((2 * at_x + 3 * at_y) % 5) x y in
    if at_x == x && at_y == y then (t + 1) * (t + 2) / 2 % 64 else later

abbrev offset : ℕ → ℕ → ℕ
offset x y = offset_on 24 0 1 0 x y

abbrev rho : Lanes → Lanes
rho a x y = rotl64 (a x y) (offset x y)

abbrev pi : Lanes → Lanes
pi a x y = a ((x + 3 * y) % 5) x

abbrev chi : Lanes → Lanes
chi a x y = bit_xor (a x y) (bit_and (not64 (a ((x + 1) % 5) y)) (a ((x + 2) % 5) y))

abbrev iota : ℕ → Lanes → Lanes
iota rc a x y = if x == 0 && y == 0 then bit_xor (a 0 0) rc else a x y

abbrev pub round : ℕ → Lanes → Lanes
round rc a = iota rc (chi (pi (rho (theta a))))

-- The shift register of the constants, with the polynomial x^8 + x^6 + x^5 + x^4 + 1, after `t` steps.
unfoldable pub register : ℕ → ℕ
register zero = 1
register (suc t) = let r = register t * 2 in if ltb r 256 then r else bit_xor r 0x171

-- Bit 2^j - 1 of the constant of round `i` is the register's low bit after j + 7i steps.
unfoldable pub constant_on : ℕ → ℕ → ℕ
constant_on zero i = 0
constant_on (suc j) i = constant_on j i + register (j + 7 * i) % 2 * 2 ^ (2 ^ j - 1)

unfoldable pub constants_on : ℕ → ℕ → List ℕ
unfolding constant_on register
constants_on zero i = []
constants_on (suc n) i = constant_on 7 i ∷ constants_on n (suc i)

unfoldable pub rounds : List ℕ → Lanes → Lanes
rounds [] a = a
rounds (rc ∷ rcs) a = rounds rcs (round rc a)

-- Lane (x, y) is word x + 5y.
unfoldable pub tabulate : ℕ → ℕ → (ℕ → ℕ) → List ℕ
tabulate zero i f = []
tabulate (suc n) i f = f i ∷ tabulate n (suc i) f

unfoldable pub words : Lanes → List ℕ
unfolding tabulate
words a = tabulate 25 0 (λ i. a (i % 5) (i / 5))

abbrev pub lanes : List ℕ → Lanes
lanes state x y = get_or state (x + 5 * y) 0

-- Keccak-f of 24 rounds.
unfoldable pub permute : List ℕ → List ℕ
permute state = words (rounds (constants_on 24 0) (lanes state))

-- The lowest byte of a word comes first.
abbrev word : List ℕ → ℕ
word bytes =
    bit_or
      (bit_or
        (bit_or
          (bit_or (bit_or (bit_or (bit_or (bit_or 0 (byte 0)) (byte 1)) (byte 2)) (byte 3))
            (byte 4))
          (byte 5))
        (byte 6))
      (byte 7)
  where
    byte : ℕ → ℕ
    byte j = get_or bytes j 0 * 2 ^ (8 * j) % 2 ^ 64

abbrev bytes_of : ℕ → List ℕ
bytes_of w =
    (w / 2 ^ 0 % 256)
    ∷ (w / 2 ^ 8 % 256)
    ∷ (w / 2 ^ 16 % 256)
    ∷ (w / 2 ^ 24 % 256)
    ∷ (w / 2 ^ 32 % 256)
    ∷ (w / 2 ^ 40 % 256)
    ∷ (w / 2 ^ 48 % 256)
    ∷ (w / 2 ^ 56 % 256)
    ∷ []

-- The bytes 8i to 8i + 7 of a block as a word, the lowest first.
unfoldable pub block_words : ℕ → List ℕ → List ℕ
block_words zero bytes = []
block_words (suc n) bytes = word bytes ∷ block_words n (drop 8 bytes)

-- One block is taken in.
unfoldable pub xor_words : List ℕ → List ℕ → List ℕ
xor_words state [] = state
xor_words [] (w ∷ ws) = []
xor_words (s ∷ state) (w ∷ ws) = bit_xor s w ∷ xor_words state ws

unfoldable pub absorb_blocks : ℕ → List ℕ → List ℕ → List ℕ
unfolding block_words xor_words
absorb_blocks zero bytes state = state
absorb_blocks (suc n) bytes state =
    absorb_blocks n (drop 136 bytes) (permute (xor_words state (block_words 17 bytes)))

-- What pads a message to whole blocks: a 1, zeros, and 128 in the last byte, which may be the same byte.
unfoldable pub padding : ℕ → List ℕ
unfolding repeated
padding q = if q == 1 then 0x81 ∷ [] else 1 ∷ (repeated (q - 2) 0 ++ (0x80 ∷ []))

unfoldable pub padded : List ℕ → List ℕ
unfolding padding
padded message = message ++ padding (136 - length message % 136)

-- The first 32 bytes of the state.
unfoldable pub output : List ℕ → List ℕ
output state =
    bytes_of (at state 0)
    ++ (bytes_of (at state 1) ++ (bytes_of (at state 2) ++ bytes_of (at state 3)))

unfoldable pub keccak : List ℕ → List ℕ
keccak message = output (absorb_blocks (length message / 136 + 1) (padded message) zeros_25)
