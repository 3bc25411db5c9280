-- ===== src/Crypto/Equivalence.antt =====
-- The code computes what the specification says.
use hl_maker_lighter_arb_cpp.Common.{
  ℕ, suc, ◌+◌, ◌/◌, ◌%◌, ◌<◌, ◌≡◌, refl, sym, ap, ◌∙◌, List, [], ◌∷◌, length, arith,
}
use mathlib.Core.Path.{ap₂}
use hl_maker_lighter_arb_cpp.Crypto.Permutation.{
  at, round_constants, rotation, for_below, for_5, column_parities, column_effects, apply_effects,
  rotate_and_move, mix_rows, keccak_round, rounds, keccakf,
}
use hl_maker_lighter_arb_cpp.Crypto.Reference.{
  Lanes, constants_on, constant_on, register, offset_on, tabulate, words, lanes, permute, round,
  rounds as rounds_of,
}

constants : constants_on 24 0 ≡ round_constants
unfolding constants_on constant_on register round_constants
constants = refl

round-words : (rc : ℕ) (a : Lanes) → keccak_round (words a) rc ≡ words (round rc a)
unfolding keccak_round column_parities column_effects apply_effects rotate_and_move mix_rows for_5
    for_below rotation words tabulate offset_on
round-words rc a = refl

rounds-words : (rcs : List ℕ) (a : Lanes) → rounds rcs (words a) ≡ words (rounds_of rcs a)
unfolding rounds rounds_of
rounds-words [] a = refl
rounds-words (rc ∷ rcs) a = ap (rounds rcs) (round-words rc a) ∙ rounds-words rcs (round rc a)

pub tabulate_lem :
    (xs : List ℕ) (i : ℕ) (f : ℕ → ℕ)
    → ((k : ℕ) → k < length xs → f (i + k) ≡ at xs k)
    → tabulate (length xs) i f ≡ xs
unfolding tabulate
tabulate_lem [] i f same = refl
tabulate_lem (x ∷ xs) i f same =
    ap₂ ◌∷◌ (ap f (omega arith) ∙ same 0 (omega arith))
      (tabulate_lem xs (suc i) f (λ k h. ap f (omega arith) ∙ same (suc k) (omega (arith, h))))

words-lanes : (state : List ℕ) → length state ≡ 25 → words (lanes state) ≡ state
unfolding words
words-lanes state is =
    ap (λ n. tabulate n 0 (λ i. lanes state (i % 5) (i / 5))) (sym is)
    ∙ tabulate_lem state 0 (λ i. lanes state (i % 5) (i / 5)) (λ k h. ap (at state) (omega arith))

-- The permutation of the code is Keccak-f.
pub keccakf_lem : (state : List ℕ) → length state ≡ 25 → keccakf state ≡ permute state
unfolding keccakf permute
keccakf_lem state is =
    ap (rounds round_constants) (sym (words-lanes state is))
    ∙ rounds-words round_constants (lanes state)
    ∙ ap (λ rcs. words (rounds_of rcs (lanes state))) (sym constants)
