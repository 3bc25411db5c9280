-- ===== src/Crypto/Permutation.antt =====
-- `keccakf`: the permutation of 25 words of 64 bits, loop by loop.
use Prim.Native.Nat.{bit_and, bit_or, bit_xor}
use hl_maker_lighter_arb_cpp.Common.{
  ℕ, zero, suc, ◌+◌, ◌-◌, ◌*◌, ◌/◌, ◌%◌, ◌^◌, List, [], ◌∷◌, get_or, set, ◌≡◌, refl,
}

-- A table is read inside of its bounds only.
abbrev pub at : List ℕ → ℕ → ℕ
at xs i = get_or xs i 0

unfoldable pub round_constants : List ℕ
round_constants =
    0x0000000000000001 ∷ 0x0000000000008082 ∷ 0x800000000000808a ∷ 0x8000000080008000
    ∷ 0x000000000000808b ∷ 0x0000000080000001 ∷ 0x8000000080008081 ∷ 0x8000000000008009
    ∷ 0x000000000000008a ∷ 0x0000000000000088 ∷ 0x0000000080008009 ∷ 0x000000008000000a
    ∷ 0x000000008000808b ∷ 0x800000000000008b ∷ 0x8000000000008089 ∷ 0x8000000000008003
    ∷ 0x8000000000008002 ∷ 0x8000000000000080 ∷ 0x000000000000800a ∷ 0x800000008000000a
    ∷ 0x8000000080008081 ∷ 0x8000000000008080 ∷ 0x0000000080000001 ∷ 0x8000000080008008 ∷ []

-- `kRotation[x][y]`, row by row.
unfoldable pub rotation : List ℕ
rotation =
    0 ∷ 36 ∷ 3 ∷ 41 ∷ 18 ∷ 1 ∷ 44 ∷ 10 ∷ 45 ∷ 2 ∷ 62 ∷ 6 ∷ 43 ∷ 15 ∷ 61 ∷ 28 ∷ 55 ∷ 25 ∷ 21 ∷ 56
    ∷ 27 ∷ 20 ∷ 39 ∷ 8 ∷ 14 ∷ []

-- A shift by 64, which the table's first entry makes, is undefined in C++; here it gives 0.
unfoldable pub rotl64 : ℕ → ℕ → ℕ
rotl64 x shift = bit_or (x * 2 ^ shift % 2 ^ 64) (x / 2 ^ (64 - shift))

-- `~x`
unfoldable pub not64 : ℕ → ℕ
not64 x = 2 ^ 64 - 1 - x

-- `for (int x = 0; x < 5; ++x)`, and the same with `for (int y = 0; y < 5; ++y)` inside: the rounds that
-- are left, and the round's number.
unfoldable pub for_below {ℓ} : {A : Type ℓ} → ℕ → ℕ → (ℕ → A → A) → A → A
for_below zero i body a = a
for_below (suc n) i body a = for_below n (suc i) body (body i a)

unfoldable pub for_5 {ℓ} : {A : Type ℓ} → (ℕ → A → A) → A → A
unfolding for_below
for_5 body a = for_below 5 0 body a

abbrev pub zeros_5 : List ℕ
zeros_5 = 0 ∷ 0 ∷ 0 ∷ 0 ∷ 0 ∷ []

abbrev pub zeros_25 : List ℕ
zeros_25 =
    0 ∷ 0 ∷ 0 ∷ 0 ∷ 0 ∷ 0 ∷ 0 ∷ 0 ∷ 0 ∷ 0 ∷ 0 ∷ 0 ∷ 0 ∷ 0 ∷ 0 ∷ 0 ∷ 0 ∷ 0 ∷ 0 ∷ 0 ∷ 0 ∷ 0 ∷ 0 ∷ 0
    ∷ 0 ∷ []

unfoldable pub column_parities : List ℕ → List ℕ
unfolding for_5
column_parities state =
    for_5
      (λ x c. set c x (
        bit_xor
          (bit_xor (bit_xor (bit_xor (at state x) (at state (x + 5))) (at state (x + 10)))
            (at state (x + 15)))
          (at state (x + 20))))
      zeros_5

unfoldable pub column_effects : List ℕ → List ℕ
unfolding for_5 rotl64
column_effects c =
    for_5 (λ x d. set d x (bit_xor (at c ((x + 4) % 5)) (rotl64 (at c ((x + 1) % 5)) 1))) zeros_5

unfoldable pub apply_effects : List ℕ → List ℕ → List ℕ
unfolding for_5
apply_effects d state =
    for_5 (λ x s. for_5 (λ y s. set s (x + 5 * y) (bit_xor (at s (x + 5 * y)) (at d x))) s) state

unfoldable pub rotate_and_move : List ℕ → List ℕ
unfolding for_5 rotl64 rotation
rotate_and_move state =
    for_5
      (λ x b.
        for_5
          (λ y b.
            set b (y + 5 * ((2 * x + 3 * y) % 5))
              (rotl64 (at state (x + 5 * y)) (at rotation (x * 5 + y))))
          b)
      zeros_25

unfoldable pub mix_rows : List ℕ → List ℕ → List ℕ
unfolding for_5 not64
mix_rows b state =
    for_5
      (λ x s.
        for_5
          (λ y s. set s (x + 5 * y) (
            bit_xor (at b (x + 5 * y))
              (bit_and (not64 (at b ((x + 1) % 5 + 5 * y))) (at b ((x + 2) % 5 + 5 * y)))))
          s)
      state

-- One round with the constant `rc`.
unfoldable pub keccak_round : List ℕ → ℕ → List ℕ
unfolding column_parities column_effects apply_effects rotate_and_move mix_rows
keccak_round state rc =
    let effects = column_effects (column_parities state) in
    let mixed = apply_effects effects state in
    let moved = rotate_and_move mixed in
    let rows = mix_rows moved mixed in set rows 0 (bit_xor (at rows 0) rc)

unfoldable pub rounds : List ℕ → List ℕ → List ℕ
rounds [] state = state
rounds (rc ∷ rcs) state = rounds rcs (keccak_round state rc)

unfoldable pub keccakf : List ℕ → List ℕ
keccakf state = rounds round_constants state

test_round : at (keccak_round zeros_25 1) 0 ≡ 1
unfolding keccak_round
test_round = refl

test_f : at (keccakf zeros_25) 0 ≡ 0xF1258F7940E1DDE7
unfolding keccakf rounds keccak_round round_constants
test_f = refl
