-- ===== src/Crypto/Digest.antt =====
-- `keccak256` is Keccak-256 of the specification.
use Prim.Native.Nat.{bit_xor}
use mathlib.Core.Path.{subst}
use mathlib.Core.List.{append_assoc}
use hl_maker_lighter_arb_cpp.Common.{
  ℕ, zero, suc, ◌+◌, ◌-◌, ◌/◌, ◌%◌, ◌<◌, ◌≤◌, ◌≡◌, refl, sym, ap, ◌∙◌, List, [], ◌∷◌, ◌++◌, length,
  length-append, set, drop, take, arith, true, false, leb,
}
use hl_maker_lighter_arb_cpp.Crypto.Permutation.{at, for_below, keccakf, zeros_25}
use hl_maker_lighter_arb_cpp.Crypto.Hash.{
  rate, keccak256, absorb, absorb_full, copy_remaining, mark_end, last_block, squeeze, finish,
  repeated,
}
use hl_maker_lighter_arb_cpp.Crypto.Reference.{
  permute, block_words, xor_words, absorb_blocks, padding, padded, output, keccak,
}
use hl_maker_lighter_arb_cpp.Crypto.Sponge.{
  at-append, at-append_left, set-append, drop-append, copy_lem, length-padding, mark_last,
  block_lem, block_words-append, squeeze_lem, length-permute, repeated-suc, add-zero,
}

copied :
    (front rest : List ℕ) (m : ℕ)
    → length rest + m ≡ 136
    → copy_remaining (length rest) (front ++ rest) (length front) ≡ rest ++ repeated m 0
unfolding copy_remaining
copied front rest m is =
    ap (λ n. for_below (length rest) 0 body (repeated n 0)) (sym is)
    ∙ copy_lem rest [] (λ i. at (front ++ rest) (length front + i)) m
        (λ k h. ap (λ j. at (front ++ rest) (length front + j)) (plus k) ∙ at-append front rest k)
  where
    body : ℕ → List ℕ → List ℕ
    body i b = set b i (at (front ++ rest) (length front + i))

    plus : (k : ℕ) → 0 + k ≡ k
    plus k = omega arith

marked :
    (rest : List ℕ) (m : ℕ)
    → set (rest ++ repeated (suc m) 0) (length rest) 1 ≡ rest ++ (1 ∷ repeated m 0)
marked rest m =
    ap (λ i. set (rest ++ repeated (suc m) 0) i 1) (add-zero (length rest))
    ∙ set-append rest (repeated (suc m) 0) 0 1
    ∙ ap (λ l. rest ++ set l 0 1) (repeated-suc m)

ended :
    (rest : List ℕ) (m : ℕ)
    → length rest + m ≡ 135
    → mark_end (rest ++ (1 ∷ repeated m 0)) ≡ rest ++ padding (suc m)
unfolding mark_end
ended rest m is =
    ap (λ i. set whole i (bit_xor (at whole i) 0x80)) (sym is)
    ∙ ap (λ b. set whole (length rest + m) (bit_xor b 0x80)) (at-append rest (1 ∷ repeated m 0) m)
    ∙ set-append rest (1 ∷ repeated m 0) m (bit_xor (at (1 ∷ repeated m 0) m) 0x80)
    ∙ ap (λ l. rest ++ l) (mark_last m)
  where
    whole : List ℕ
    whole = rest ++ (1 ∷ repeated m 0)

last_block_lem :
    (front rest : List ℕ) (m : ℕ)
    → length rest + m ≡ 135
    → last_block (front ++ rest) (length front) ≡ rest ++ padding (suc m)
unfolding last_block
last_block_lem front rest m is =
    ap (λ r. mark_end (set (copy_remaining r (front ++ rest) (length front)) r 1)) remaining
    ∙ ap (λ b. mark_end (set b (length rest) 1)) (copied front rest (suc m) (omega (arith, is)))
    ∙ ap mark_end (marked rest m)
    ∙ ended rest m is
  where
    remaining : length (front ++ rest) - length front ≡ length rest
    remaining = omega (arith, length-append front rest)

finish_lem :
    (front rest state : List ℕ) (m : ℕ)
    → length rest + m ≡ 135
    → length state ≡ 25
    → finish (front ++ rest) (state, length front)
      ≡ output (permute (xor_words state (block_words 17 (rest ++ padding (suc m)))))
unfolding finish
finish_lem front rest state m is wide =
    ap (λ b. squeeze (keccakf (absorb (at b) state))) (last_block_lem front rest m is)
    ∙ ap squeeze (block_lem (at block) block state full wide (λ k h. refl))
    ∙ squeeze_lem (permute (xor_words state (block_words 17 block))) (length-permute _)
  where
    block : List ℕ
    block = rest ++ padding (suc m)

    full : length block ≡ 136
    full = omega (arith, is, length-append rest (padding (suc m)), length-padding (suc m))

-- The loop stops where less than a block remains.
stops :
    (fuel : ℕ) (front rest state : List ℕ)
    → length rest < 136
    → absorb_full fuel (front ++ rest) (length front) state ≡ (state, length front)
unfolding absorb_full
stops zero front rest state short = refl
stops (suc fuel) front rest state short = rw test refl
  where
    test : leb (length front + rate) (length (front ++ rest)) ≡ false
    test = ground (arith, length-append front rest)

-- A round of the loop takes in the next block.
goes_on :
    (fuel : ℕ) (front block rest state : List ℕ)
    → length block ≡ 136
    → length state ≡ 25
    → absorb_full (suc fuel) (front ++ (block ++ rest)) (length front) state
      ≡ absorb_full fuel
          ((front ++ block) ++ rest)
          (length (front ++ block))
          (permute (xor_words state (block_words 17 block)))
unfolding absorb_full
goes_on fuel front block rest state full wide = rw test (
    ap (absorb_full fuel bytes (length front + rate))
      (block_lem (λ k. at bytes (length front + k)) block state full wide same)
    ∙ ap (λ o. absorb_full fuel bytes o (permute (xor_words state (block_words 17 block)))) moved
    ∙ ap
        (λ b.
          absorb_full fuel b (length (front ++ block))
            (permute (xor_words state (block_words 17 block))))
        (sym (append_assoc front block rest)))
  where
    bytes : List ℕ
    bytes = front ++ (block ++ rest)

    test : leb (length front + rate) (length bytes) ≡ true
    test = ground (arith, length-append front (block ++ rest), length-append block rest)

    same : (k : ℕ) → k < length block → at bytes (length front + k) ≡ at block k
    same k h = at-append front (block ++ rest) k ∙ at-append_left block rest k h

    moved : length front + rate ≡ length (front ++ block)
    moved = omega (arith, length-append front block, full)

absorb_blocks-suc :
    (n : ℕ) (block rest state : List ℕ)
    → length block ≡ 136
    → absorb_blocks (suc n) (block ++ rest) state
      ≡ absorb_blocks n rest (permute (xor_words state (block_words 17 block)))
unfolding absorb_blocks
absorb_blocks-suc n block rest state full =
    ap (λ b. absorb_blocks n b (permute (xor_words state (block_words 17 (block ++ rest)))))
      (drop-append block rest 136 full)
    ∙ ap (λ w. absorb_blocks n rest (permute (xor_words state w)))
        (block_words-append block rest full)

take-drop : (n : ℕ) (xs : List ℕ) → take n xs ++ drop n xs ≡ xs
take-drop zero xs = refl
take-drop (suc n) [] = refl
take-drop (suc n) (x ∷ xs) = ap (λ l. x ∷ l) (take-drop n xs)

length-take : (n : ℕ) (xs : List ℕ) → n ≤ length xs → length (take n xs) ≡ n
length-take zero xs h = refl
length-take (suc n) [] h = absurd (omega arith)
length-take (suc n) (x ∷ xs) h = ap suc (length-take n xs (omega arith))

abbrev Agrees : ℕ → ℕ → List ℕ → List ℕ → List ℕ → Type 0
Agrees n fuel front rest state =
    finish (front ++ rest) (absorb_full fuel (front ++ rest) (length front) state)
    ≡ output (absorb_blocks (suc n) (rest ++ padding (136 - length rest % 136)) state)

Agrees-last :
    (fuel : ℕ) (front rest state : List ℕ)
    → length rest < 136
    → length state ≡ 25
    → Agrees 0 fuel front rest state
unfolding absorb_blocks
Agrees-last fuel front rest state short wide =
    ap (finish (front ++ rest)) (stops fuel front rest state short)
    ∙ finish_lem front rest state (135 - length rest) (omega arith) wide
    ∙ ap (λ q. output (permute (xor_words state (block_words 17 (rest ++ padding q))))) size
  where
    size : suc (135 - length rest) ≡ 136 - length rest % 136
    size = omega (arith, short)

Agrees-next :
    (n fuel : ℕ) (front block rest state : List ℕ)
    → length block ≡ 136
    → length state ≡ 25
    → Agrees n fuel (front ++ block) rest (permute (xor_words state (block_words 17 block)))
    → Agrees (suc n) (suc fuel) front (block ++ rest) state
Agrees-next n fuel front block rest state full wide next =
    ap (finish (front ++ (block ++ rest))) (goes_on fuel front block rest state full wide)
    ∙ ap (λ b. finish b loop) (sym (append_assoc front block rest))
    ∙ next
    ∙ ap output (
        sym
          (absorb_blocks-suc (suc n) block (rest ++ padding (136 - length rest % 136)) state full))
    ∙ ap (λ b. output (absorb_blocks (suc (suc n)) b state))
        (sym (append_assoc block rest (padding (136 - length rest % 136))))
    ∙ ap (λ q. output (absorb_blocks (suc (suc n)) ((block ++ rest) ++ padding q) state)) size
  where
    loop : List ℕ × ℕ
    loop =
        absorb_full fuel ((front ++ block) ++ rest) (length (front ++ block))
          (permute (xor_words state (block_words 17 block)))

    size : 136 - length rest % 136 ≡ 136 - length (block ++ rest) % 136
    size = omega (arith, length-append block rest, full)

agrees :
    (n fuel : ℕ) (front rest state : List ℕ)
    → length rest / 136 ≡ n
    → length rest ≤ fuel
    → length state ≡ 25
    → Agrees n fuel front rest state
agrees zero fuel front rest state count enough wide =
    Agrees-last fuel front rest state (omega arith) wide
agrees (suc n) zero front rest state count enough wide = absurd (omega arith)
agrees (suc n) (suc fuel) front rest state count enough wide =
    subst (λ r. Agrees (suc n) (suc fuel) front r state) (take-drop 136 rest)
      (Agrees-next n fuel front (take 136 rest) (drop 136 rest) state full wide (
        agrees n fuel (front ++ take 136 rest) (drop 136 rest)
          (permute (xor_words state (block_words 17 (take 136 rest)))) (omega (arith, size))
          (omega (arith, size)) (length-permute _)))
  where
    full : length (take 136 rest) ≡ 136
    full = length-take 136 rest (omega arith)

    size : length rest ≡ 136 + length (drop 136 rest)
    size =
        ap length (sym (take-drop 136 rest))
        ∙ omega (arith, length-append (take 136 rest) (drop 136 rest), full)

-- For every message the code computes Keccak-256 as the specification defines it.
pub keccak256_lem : (message : List ℕ) → keccak256 message ≡ keccak message
unfolding keccak256 keccak padded
keccak256_lem message =
    agrees (length message / 136) (length message) [] message zeros_25 refl (omega arith) refl
    ∙ ap (λ n. output (absorb_blocks n (message ++ padding (136 - length message % 136)) zeros_25))
        (next (length message / 136))
  where
    next : (n : ℕ) → suc n ≡ n + 1
    next n = omega arith
