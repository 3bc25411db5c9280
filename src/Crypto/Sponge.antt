-- ===== src/Crypto/Sponge.antt =====
-- The sponge of the code and that of the specification.
use Prim.Native.Nat.{bit_xor}
use mathlib.Core.List.{append_assoc}
use hl_maker_lighter_arb_cpp.Common.{
  ℕ, zero, suc, ◌+◌, ◌-◌, ◌<◌, ◌≡◌, refl, sym, ap, ◌∙◌, List, [], ◌∷◌, ◌++◌, length, length-append,
  set, drop, arith, false, ◌==◌,
}
use hl_maker_lighter_arb_cpp.Crypto.Permutation.{at, for_below, keccakf}
use hl_maker_lighter_arb_cpp.Crypto.Hash.{absorb, load_lane, squeeze, repeated}
use hl_maker_lighter_arb_cpp.Crypto.Reference.{
  tabulate, permute, block_words, xor_words, padding, output, words,
}
use hl_maker_lighter_arb_cpp.Crypto.Equivalence.{tabulate_lem, keccakf_lem}

at_tabulated : (xs : List ℕ) (n : ℕ) → length xs ≡ n → xs ≡ tabulate n 0 (at xs)
at_tabulated xs n is = sym (
    ap (λ m. tabulate m 0 (at xs)) (sym is)
    ∙ tabulate_lem xs 0 (at xs) (λ k h. ap (at xs) (omega arith)))

read_tabulated :
    (xs : List ℕ) (n : ℕ) (read : ℕ → ℕ)
    → length xs ≡ n
    → ((k : ℕ) → k < length xs → read k ≡ at xs k)
    → xs ≡ tabulate n 0 read
read_tabulated xs n read is same = sym (
    ap (λ m. tabulate m 0 read) (sym is)
    ∙ tabulate_lem xs 0 read (λ k h. ap read (omega arith) ∙ same k h))

absorb_tabulated :
    (read g : ℕ → ℕ)
    → absorb read (tabulate 25 0 g)
      ≡ xor_words (tabulate 25 0 g) (block_words 17 (tabulate 136 0 read))
unfolding absorb load_lane for_below tabulate xor_words block_words
absorb_tabulated read g = refl

absorb_lem :
    (read : ℕ → ℕ) (block state : List ℕ)
    → length block ≡ 136
    → length state ≡ 25
    → ((k : ℕ) → k < length block → read k ≡ at block k)
    → absorb read state ≡ xor_words state (block_words 17 block)
absorb_lem read block state full is same =
    ap (absorb read) (at_tabulated state 25 is)
    ∙ absorb_tabulated read (at state)
    ∙ ap (λ s. xor_words s (block_words 17 (tabulate 136 0 read))) (sym (at_tabulated state 25 is))
    ∙ ap (λ b. xor_words state (block_words 17 b)) (sym (read_tabulated block 136 read full same))

squeeze_tabulated : (g : ℕ → ℕ) → squeeze (tabulate 25 0 g) ≡ output (tabulate 25 0 g)
unfolding squeeze for_below repeated output tabulate
squeeze_tabulated g = refl

pub squeeze_lem : (state : List ℕ) → length state ≡ 25 → squeeze state ≡ output state
squeeze_lem state is =
    ap squeeze (at_tabulated state 25 is)
    ∙ squeeze_tabulated (at state)
    ∙ ap output (sym (at_tabulated state 25 is))

pub length-permute : (state : List ℕ) → length (permute state) ≡ 25
unfolding permute words tabulate
length-permute state = refl

pub length-xor_words : (state ws : List ℕ) → length (xor_words state ws) ≡ length state
unfolding xor_words
length-xor_words [] [] = refl
length-xor_words (s ∷ state) [] = refl
length-xor_words [] (w ∷ ws) = refl
length-xor_words (s ∷ state) (w ∷ ws) = ap suc (length-xor_words state ws)

-- One block through the code's loop, and through the specification's.
pub block_lem :
    (read : ℕ → ℕ) (block state : List ℕ)
    → length block ≡ 136
    → length state ≡ 25
    → ((k : ℕ) → k < length block → read k ≡ at block k)
    → keccakf (absorb read state) ≡ permute (xor_words state (block_words 17 block))
block_lem read block state full is same =
    ap keccakf (absorb_lem read block state full is same)
    ∙ keccakf_lem (xor_words state (block_words 17 block))
        (length-xor_words state (block_words 17 block) ∙ is)

block_words_tabulated :
    (g : ℕ → ℕ) (rest : List ℕ)
    → block_words 17 (tabulate 136 0 g ++ rest) ≡ block_words 17 (tabulate 136 0 g)
unfolding block_words tabulate
block_words_tabulated g rest = refl

pub block_words-append :
    (block rest : List ℕ)
    → length block ≡ 136
    → block_words 17 (block ++ rest) ≡ block_words 17 block
block_words-append block rest full =
    ap (λ b. block_words 17 (b ++ rest)) tabulated
    ∙ block_words_tabulated (at block) rest
    ∙ ap (block_words 17) (sym tabulated)
  where
    tabulated : block ≡ tabulate 136 0 (at block)
    tabulated = at_tabulated block 136 full

suc-add : (n k : ℕ) → suc n + k ≡ suc (n + k)
suc-add n k = omega arith

pub add-zero : (n : ℕ) → n ≡ n + 0
add-zero n = omega arith

pub repeated-suc : (n : ℕ) → repeated (suc n) 0 ≡ 0 ∷ repeated n 0
unfolding repeated
repeated-suc n = refl

pub at-append : (xs ys : List ℕ) (k : ℕ) → at (xs ++ ys) (length xs + k) ≡ at ys k
at-append [] ys k = ap (at ys) (omega arith)
at-append (x ∷ xs) ys k = rw (suc-add (length xs) k) (at-append xs ys k)

pub at-append_left : (xs ys : List ℕ) (k : ℕ) → k < length xs → at (xs ++ ys) k ≡ at xs k
at-append_left [] ys k h = absurd (omega arith)
at-append_left (x ∷ xs) ys zero h = refl
at-append_left (x ∷ xs) ys (suc k) h = at-append_left xs ys k (omega arith)

pub set-append : (xs ys : List ℕ) (k v : ℕ) → set (xs ++ ys) (length xs + k) v ≡ xs ++ set ys k v
set-append [] ys k v = ap (λ i. set ys i v) (omega arith)
set-append (x ∷ xs) ys k v = rw (suc-add (length xs) k) (ap (λ l. x ∷ l) (set-append xs ys k v))

pub drop-append : (xs ys : List ℕ) (n : ℕ) → length xs ≡ n → drop n (xs ++ ys) ≡ ys
drop-append [] ys n is = ap (λ m. drop m ys) (sym is)
drop-append (x ∷ xs) ys n is =
    ap (λ m. drop m (x ∷ (xs ++ ys))) (sym is) ∙ drop-append xs ys (length xs) refl

set-front :
    (front ys : List ℕ) (y v : ℕ)
    → set (front ++ (y ∷ ys)) (length front) v ≡ (front ++ (v ∷ [])) ++ ys
set-front [] ys y v = refl
set-front (x ∷ front) ys y v = ap (λ l. x ∷ l) (set-front front ys y v)

length-snoc : (front : List ℕ) (x : ℕ) → suc (length front) ≡ length (front ++ (x ∷ []))
length-snoc front x = omega (arith, length-append front (x ∷ []))

-- The loop that copies the remaining bytes into the block.
pub copy_lem :
    (rest front : List ℕ) (read : ℕ → ℕ) (m : ℕ)
    → ((k : ℕ) → k < length rest → read (length front + k) ≡ at rest k)
    → for_below
        (length rest)
        (length front)
        (λ i b. set b i (read i))
        (front ++ repeated (length rest + m) 0)
      ≡ front ++ (rest ++ repeated m 0)
unfolding for_below
copy_lem [] front read m same = ap (λ n. front ++ repeated n 0) zero-m
  where
    zero-m : 0 + m ≡ m
    zero-m = omega arith
copy_lem (x ∷ rest) front read m same =
    ap (for_below (length rest) (suc (length front)) body) written
    ∙ ap (λ n. for_below (length rest) n body ((front ++ (x ∷ [])) ++ repeated (length rest + m) 0))
        (length-snoc front x)
    ∙ copy_lem rest (front ++ (x ∷ [])) read m later
    ∙ append_assoc front (x ∷ []) (rest ++ repeated m 0)
  where
    body : ℕ → List ℕ → List ℕ
    body i b = set b i (read i)

    first : read (length front) ≡ x
    first = ap read (add-zero (length front)) ∙ same 0 (omega arith)

    written :
        set (front ++ repeated (suc (length rest) + m) 0) (length front) (read (length front))
        ≡ (front ++ (x ∷ [])) ++ repeated (length rest + m) 0
    written =
        ap (λ n. set (front ++ repeated n 0) (length front) (read (length front)))
          (suc-add (length rest) m)
        ∙ ap (λ l. set (front ++ l) (length front) (read (length front)))
            (repeated-suc (length rest + m))
        ∙ set-front front (repeated (length rest + m) 0) 0 (read (length front))
        ∙ ap (λ v. (front ++ (v ∷ [])) ++ repeated (length rest + m) 0) first

    later : (k : ℕ) → k < length rest → read (length (front ++ (x ∷ [])) + k) ≡ at rest k
    later k h = ap read (shifted k) ∙ same (suc k) (omega (arith, h))
      where
        shifted : (k : ℕ) → length (front ++ (x ∷ [])) + k ≡ length front + suc k
        shifted k = omega (arith, length-snoc front x)

length-repeated : (n b : ℕ) → length (repeated n b) ≡ n
unfolding repeated
length-repeated zero b = refl
length-repeated (suc n) b = ap suc (length-repeated n b)

padding_long : (q : ℕ) → padding (suc (suc q)) ≡ 1 ∷ (repeated q 0 ++ (0x80 ∷ []))
unfolding padding
padding_long q = rw (not_one, left) refl
  where
    not_one : (suc (suc q) == 1) ≡ false
    not_one = ground arith

    left : suc (suc q) - 2 ≡ q
    left = omega arith

pub length-padding : (q : ℕ) → 0 < q → length (padding q) ≡ q
length-padding zero pos = absurd (omega arith)
length-padding (suc zero) pos = unfold padding in refl
length-padding (suc (suc q)) pos =
    ap length (padding_long q)
    ∙ omega (arith, length-append (repeated q 0) (0x80 ∷ []), length-repeated q 0)

mark_zeros :
    (m : ℕ)
    → set (repeated (suc m) 0) m (bit_xor (at (repeated (suc m) 0) m) 0x80)
      ≡ repeated m 0 ++ (0x80 ∷ [])
unfolding repeated
mark_zeros zero = refl
mark_zeros (suc m) = ap (λ l. 0 ∷ l) (mark_zeros m)

-- The 128 in the last byte of what is the mark and zeros.
pub mark_last :
    (m : ℕ) → set (1 ∷ repeated m 0) m (bit_xor (at (1 ∷ repeated m 0) m) 0x80) ≡ padding (suc m)
mark_last zero = unfold padding repeated in refl
mark_last (suc m) = ap (λ l. 1 ∷ l) (mark_zeros m) ∙ sym (padding_long m)
