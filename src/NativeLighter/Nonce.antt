-- ===== src/NativeLighter/Nonce.antt =====
-- `next_nonce` on any number of threads, each atomic access to the counter as a step. The counter has 64
-- bits; the nonce that the venue reports is below 2^63.
use hl_maker_lighter_arb_cpp.Common.{
  ℕ, suc, ◌+◌, ◌%◌, ◌^◌, ◌≤◌, ◌<◌, ◌≡◌, ◌≢◌, List, [], ◌∷◌, length, ◌==◌, inl, inr, Bool-cases,
  if◌then◌else◌, arith,
}

-- A thread: outside, behind its load of 0, with the venue's nonce for the exchange, or about to add.
pub data Place : Type 0 where
  outside fetching adding : Place
  swapping : ℕ → Place

pub record Nonces : Type 0 where
  pub nonce_cache : ℕ
  pub places : ℕ → Place
  pub issued : List ℕ

abbrev pub put : (ℕ → Place) → ℕ → Place → ℕ → Place
put places t p u = if t == u then p else places u

pub data Step : Nonces → Nonces → Type 0 where
  load :
      (s : Nonces) (t : ℕ)
      → s.places t ≡ outside
      → Step s
          (record s { places = put s.places t (if s.nonce_cache == 0 then fetching else adding) })
  fetch :
      (s : Nonces) (t remote : ℕ)
      → s.places t ≡ fetching
      → remote < 2 ^ 63
      → Step s (record s { places = put s.places t (swapping remote) })
  swap_won :
      (s : Nonces) (t remote : ℕ)
      → s.places t ≡ swapping remote
      → s.nonce_cache ≡ 0
      → Step s (record {
        nonce_cache = (remote + 1) % 2 ^ 64;
        places = put s.places t outside;
        issued = remote ∷ s.issued;
      })
  swap_lost :
      (s : Nonces) (t remote : ℕ)
      → s.places t ≡ swapping remote
      → s.nonce_cache ≢ 0
      → Step s (record s { places = put s.places t adding })
  add :
      (s : Nonces) (t : ℕ)
      → s.places t ≡ adding
      → Step s (record {
        nonce_cache = (s.nonce_cache + 1) % 2 ^ 64;
        places = put s.places t outside;
        issued = s.nonce_cache ∷ s.issued;
      })

pub data Reach : Nonces → Nonces → Type 0 where
  here : (s : Nonces) → Reach s s
  onward : (s t u : Nonces) → Reach s t → Step t u → Reach s u

-- Each nonce is one more than the one issued before it, and the counter is one more than the last.
unfoldable pub Consecutive : ℕ → List ℕ → Type 0
Consecutive cache [] = Unit
Consecutive cache (n ∷ earlier) = (cache ≡ suc n) × Consecutive n earlier

abbrev Inv : Nonces → Type 0
Inv s =
    Consecutive s.nonce_cache s.issued
    × (s.nonce_cache ≤ 2 ^ 63 + length s.issued)
    × ((t r : ℕ) → s.places t ≡ swapping r → r < 2 ^ 63)

-- Where the counter is 0 nothing was issued.
zero-Consecutive :
    (cache n : ℕ) (issued : List ℕ) → Consecutive cache issued → cache ≡ 0 → Consecutive n issued
unfolding Consecutive
zero-Consecutive cache n [] chain zero_ = tt
zero-Consecutive cache n (m ∷ earlier) chain zero_ = ground arith

-- The venue's nonces in hand stay small when a thread moves.
abbrev Small : (ℕ → Place) → Type 0
Small places = (t r : ℕ) → places t ≡ swapping r → r < 2 ^ 63

put-Small :
    (places : ℕ → Place) (t : ℕ) (p : Place)
    → Small places
    → ((r : ℕ) → p ≡ swapping r → r < 2 ^ 63)
    → Small (put places t p)
put-Small places t p small new v r is = elim (Bool-cases (t == v)) [
  | inl same ↦ new r (ground arith)
  | inr other ↦ small v r (ground arith)
]

step-Inv : (s u : Nonces) → Step s u → length u.issued < 2 ^ 63 → Inv s → Inv u
unfolding Consecutive
step-Inv s u (load _ t at) few (chain, low, small) =
    (chain, low, put-Small s.places t _ small (λ r is. ground arith))
step-Inv s u (fetch _ t remote at lt) few (chain, low, small) =
    (chain, low, put-Small s.places t (swapping remote) small (λ r is. ground arith))
step-Inv s u (swap_won _ t remote at zero_) few (chain, low, small) =
    let lt : remote < 2 ^ 63 = small t remote at in
    (
      (ground arith, zero-Consecutive s.nonce_cache remote s.issued chain zero_),
      ground arith,
      put-Small s.places t outside small (λ r is. ground arith),
    )
step-Inv s u (swap_lost _ t remote at set) few (chain, low, small) =
    (chain, low, put-Small s.places t adding small (λ r is. ground arith))
step-Inv s u (add _ t at) few (chain, low, small) =
    ((ground arith, chain), ground arith, put-Small s.places t outside small (λ r is. ground arith))

issued_grows : (s u : Nonces) → Step s u → length s.issued ≤ length u.issued
issued_grows s u (load _ t at) = omega arith
issued_grows s u (fetch _ t remote at lt) = omega arith
issued_grows s u (swap_won _ t remote at zero_) = omega arith
issued_grows s u (swap_lost _ t remote at set) = omega arith
issued_grows s u (add _ t at) = omega arith

Reach-Inv : (s u : Nonces) → Reach s u → length u.issued < 2 ^ 63 → Inv s → Inv u
Reach-Inv s u (here _) few inv = inv
Reach-Inv s u (onward _ t _ before one) few inv =
    step-Inv t u one few (Reach-Inv s t before (omega (arith, few, issued_grows t u one)) inv)

-- However the threads are interleaved, the nonces that they are given are consecutive: none is given
-- twice and none is left out. The run starts with the venue's nonce, below 2^63, or 0 in the counter, and
-- gives out fewer than 2^63.
pub nonces-Consecutive :
    (s u : Nonces)
    → s.issued ≡ []
    → ((t : ℕ) → s.places t ≡ outside)
    → s.nonce_cache < 2 ^ 63
    → Reach s u
    → length u.issued < 2 ^ 63
    → Consecutive u.nonce_cache u.issued
unfolding Consecutive
nonces-Consecutive s u fresh out low run few =
    let start : Consecutive s.nonce_cache s.issued = rw fresh tt in
    (Reach-Inv s u run few (start, ground arith, (λ t r is. ground (arith, out t)))).0
