-- ===== src/Transport/HlPost/Waiting.antt =====
-- The requests in the table are unanswered, each at an address of its own.
use Prim.Native.String.{String}
use hl_maker_lighter_arb_cpp.Common.{
  ℕ, suc, ◌≡◌, ◌≢◌, refl, ap, ◌∙◌, ◌<◌, inl, inr, true, false, none, some, List, [], ◌∷◌, All, ◌==◌,
  Bool-cases, Option-cases, arith,
}
use hl_maker_lighter_arb_cpp.Transport.HlPost.Table.{
  PendingResponse, find_pending, erase, emplace, write, fail_all, failed,
}

-- No entry has the address `a`.
abbrev pub Avoids : ℕ → List (ℕ × ℕ) → Type 0
Avoids a pending = All (λ e. (a == e.1) ≡ false) pending

abbrev pub Waiting : (ℕ → PendingResponse) → ℕ → List (ℕ × ℕ) → Type 0
Waiting heap n [] = Unit
Waiting heap n ((id, a) ∷ rest) =
    (a < n) × ((heap a).ready ≡ false) × Avoids a rest × Waiting heap n rest

pub Waiting-write :
    (heap : ℕ → PendingResponse) (n a : ℕ) (r : PendingResponse) (pending : List (ℕ × ℕ))
    → Avoids a pending
    → Waiting heap n pending
    → Waiting (write heap a r) n pending
Waiting-write heap n a r [] apart w = tt
Waiting-write heap n a r ((id, b) ∷ rest) (ne, apart) (lt, open_, own, w) =
    (lt, rw ne open_, own, Waiting-write heap n a r rest apart w)

pub Waiting-suc :
    (heap : ℕ → PendingResponse) (n : ℕ) (pending : List (ℕ × ℕ))
    → Waiting heap n pending
    → Waiting heap (suc n) pending
Waiting-suc heap n [] w = tt
Waiting-suc heap n ((id, b) ∷ rest) (lt, open_, own, w) =
    (omega (arith, lt), open_, own, Waiting-suc heap n rest w)

pub Waiting-Avoids :
    (heap : ℕ → PendingResponse) (n : ℕ) (pending : List (ℕ × ℕ))
    → Waiting heap n pending
    → Avoids n pending
Waiting-Avoids heap n [] w = tt
Waiting-Avoids heap n ((id, b) ∷ rest) (lt, open_, own, w) =
    (ground arith, Waiting-Avoids heap n rest w)

-- An address that is answered is in no entry.
pub answered-Avoids :
    (heap : ℕ → PendingResponse) (n a : ℕ) (pending : List (ℕ × ℕ))
    → Waiting heap n pending
    → (heap a).ready ≡ true
    → Avoids a pending
answered-Avoids heap n a [] w done = tt
answered-Avoids heap n a ((id, b) ∷ rest) (lt, open_, own, w) done =
    (grind arith, answered-Avoids heap n a rest w done)

pub erase-Avoids :
    (id a : ℕ) (pending : List (ℕ × ℕ)) → Avoids a pending → Avoids a (erase id pending)
unfolding erase
erase-Avoids id a [] apart = tt
erase-Avoids id a ((k, b) ∷ rest) (ne, apart) = elim (Bool-cases (k == id)) [
  | inl same ↦ rw same (erase-Avoids id a rest apart)
  | inr other ↦ rw other (ne, erase-Avoids id a rest apart)
]

pub Waiting-erase :
    (heap : ℕ → PendingResponse) (n id : ℕ) (pending : List (ℕ × ℕ))
    → Waiting heap n pending
    → Waiting heap n (erase id pending)
unfolding erase
Waiting-erase heap n id [] w = tt
Waiting-erase heap n id ((k, b) ∷ rest) (lt, open_, own, w) = elim (Bool-cases (k == id)) [
  | inl same ↦ rw same (Waiting-erase heap n id rest w)
  | inr other ↦ rw other (lt, open_, erase-Avoids id b rest own, Waiting-erase heap n id rest w)
]

-- An address that an entry has is not one that all entries avoid.
found-apart :
    (id a b : ℕ) (pending : List (ℕ × ℕ))
    → find_pending id pending ≡ some a
    → Avoids b pending
    → (b == a) ≡ false
unfolding find_pending
found-apart id a b [] found apart = ground arith
found-apart id a b ((k, c) ∷ rest) found (ne, apart) = elim (Bool-cases (k == id)) [
  | inl same ↦ ground arith
  | inr other ↦ found-apart id a b rest (rw other at found) apart
]

pub found_elsewhere :
    (id a b : ℕ) (pending : List (ℕ × ℕ))
    → find_pending id pending ≡ some a
    → Avoids b pending
    → (a == b) ≡ false
found_elsewhere id a b pending found apart =
    let ne = found-apart id a b pending found apart in ground arith

pub found-Avoids :
    (heap : ℕ → PendingResponse) (n id a : ℕ) (pending : List (ℕ × ℕ))
    → Waiting heap n pending
    → find_pending id pending ≡ some a
    → Avoids a (erase id pending)
unfolding find_pending erase
found-Avoids heap n id a [] w found = tt
found-Avoids heap n id a ((k, b) ∷ rest) (lt, open_, own, w) found = elim (Bool-cases (k == id)) [
  | inl same ↦
      let there : b ≡ a = ground arith in rw same (erase-Avoids id a rest (rw there at own))
  | inr other ↦ rw other (
    found_elsewhere id a b rest (rw other at found) own,
    found-Avoids heap n id a rest w (rw other at found),
  )
]

pub Waiting-emplace :
    (heap : ℕ → PendingResponse) (n id : ℕ) (r : PendingResponse) (pending : List (ℕ × ℕ))
    → r.ready ≡ false
    → Waiting heap n pending
    → Waiting (write heap n r) (suc n) (emplace id n pending)
unfolding emplace
Waiting-emplace heap n id r pending unready w =
    let apart = Waiting-Avoids heap n pending w in
    let old = Waiting-suc (write heap n r) n pending (Waiting-write heap n n r pending apart w) in
    let new : (write heap n r n).ready ≡ false = ground arith in
    elim (Option-cases (find_pending id pending)) [
      | inl free ↦
          let shape : emplace id n pending ≡ (id, n) ∷ pending = rw (free, emplace) in
          rw shape (omega arith, new, apart, old)
      | inr (b, taken) ↦
          let shape : emplace id n pending ≡ pending = rw (taken, emplace) in rw shape old
    ]

-- Losing the connection answers the entries and leaves the other addresses.
pub fail_all-Avoids :
    (reason : String) (pending : List (ℕ × ℕ)) (heap : ℕ → PendingResponse) (a : ℕ)
    → Avoids a pending
    → fail_all reason pending heap a ≡ heap a
unfolding fail_all
fail_all-Avoids reason [] heap a apart = refl
fail_all-Avoids reason ((id, b) ∷ rest) heap a (ne, apart) =
    let rest_same = fail_all-Avoids reason rest (write heap b (failed reason (heap b))) a apart in
    let elsewhere : (b == a) ≡ false = ground arith in rw rest_same (rw elsewhere)

pub fail_all_found :
    (reason : String) (pending : List (ℕ × ℕ)) (heap : ℕ → PendingResponse) (n id a : ℕ)
    → Waiting heap n pending
    → find_pending id pending ≡ some a
    → fail_all reason pending heap a ≡ failed reason (heap a)
unfolding fail_all find_pending
fail_all_found reason [] heap n id a w found = ground arith
fail_all_found reason ((k, b) ∷ rest) heap n id a (lt, open_, own, w) found =
    let heap' = write heap b (failed reason (heap b)) in
    elim (Bool-cases (k == id)) [
      | inl same ↦
          let there : a ≡ b = ground arith in
          let kept = fail_all-Avoids reason rest heap' b own in
          let now : heap' b ≡ failed reason (heap b) = ground arith in rw there (kept ∙ now)
      | inr other ↦
          let apart : (b == a) ≡ false = found-apart id a b rest (rw other at found) own in
          let later =
            fail_all_found reason rest heap' n id a
              (Waiting-write heap n b (failed reason (heap b)) rest own w) (rw other at found) in
          let same : heap' a ≡ heap a = rw apart in later ∙ ap (failed reason) same
    ]

-- What erasing an id does to later look-ups.
pub find_pending-erase :
    (id : ℕ) (pending : List (ℕ × ℕ)) → find_pending id (erase id pending) ≡ none
unfolding find_pending erase
find_pending-erase id [] = refl
find_pending-erase id ((k, a) ∷ rest) = ground (arith, find_pending-erase id rest)

pub find_pending-erase_other :
    (id k : ℕ) (pending : List (ℕ × ℕ))
    → k ≢ id
    → find_pending k (erase id pending) ≡ find_pending k pending
unfolding find_pending erase
find_pending-erase_other id k [] ne = refl
find_pending-erase_other id k ((j, a) ∷ rest) ne =
    ground (arith, find_pending-erase_other id k rest ne)

pub erase_absent :
    (id : ℕ) (pending : List (ℕ × ℕ)) → find_pending id pending ≡ none → erase id pending ≡ pending
unfolding find_pending erase
erase_absent id [] absent = refl
erase_absent id ((k, a) ∷ rest) absent = elim (Bool-cases (k == id)) [
  | inl same ↦ ground arith
  | inr other ↦
      let later = erase_absent id rest (rw other at absent) in rw other (ap (λ r. (k, a) ∷ r) later)
]

pub find_pending_head :
    (id a : ℕ) (pending : List (ℕ × ℕ)) → find_pending id ((id, a) ∷ pending) ≡ some a
unfolding find_pending
find_pending_head id a pending = ground arith

pub erase_head :
    (id a : ℕ) (pending : List (ℕ × ℕ)) → erase id ((id, a) ∷ pending) ≡ erase id pending
unfolding erase
erase_head id a pending = ground arith
