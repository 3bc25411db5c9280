-- ===== src/Transport/HlPost/Locks.antt =====
-- The locks of `HlWsPostTransport`: `pending_mu_` for the table, and one `mu` for each request. A caller
-- that times out holds its `mu` while it takes `pending_mu_`; `on_disconnect` holds `pending_mu_` while
-- it takes every `mu`.
use hl_maker_lighter_arb_cpp.Common.{
  ℕ, ◌≡◌, ◌≢◌, refl, ap, ◌∙◌, List, [], ◌∷◌, ◌==◌, if◌then◌else◌, arith,
}
use hl_maker_lighter_arb_cpp.Transport.HlPost.Table.{erase}

-- A caller: in `wait_for`, which holds no lock; behind it on a time-out, with its `mu`; or returned.
pub data Caller : Type 0 where
  waiting giving_up returned : Caller

-- The connection's thread: between callbacks, or in `on_disconnect` with `pending_mu_` and the entries
-- that its loop has left.
pub data Connection : Type 0 where
  idle : Connection
  failing : List (ℕ × ℕ) → Connection

pub record Locks : Type 0 where
  pub pending : List (ℕ × ℕ)
  pub callers : ℕ → Caller
  pub connection : Connection

abbrev pub move : (ℕ → Caller) → ℕ → Caller → ℕ → Caller
move callers a c b = if a == b then c else callers b

-- One thread's move up to the next lock. Who needs `pending_mu_` moves only while the connection is idle,
-- and the loop passes an entry only while its caller does not hold the entry's `mu`.
pub data Step : Locks → Locks → Type 0 where
  post :
      (s : Locks) (id a : ℕ)
      → s.connection ≡ idle
      → Step s (record s { pending = (id, a) ∷ s.pending; callers = move s.callers a waiting })
  respond :
      (s : Locks) (id a : ℕ)
      → s.connection ≡ idle
      → s.callers a ≡ waiting
      → Step s (record s { pending = erase id s.pending; callers = move s.callers a returned })
  time_out :
      (s : Locks) (a : ℕ)
      → s.callers a ≡ waiting
      → Step s (record s { callers = move s.callers a giving_up })
  give_up :
      (s : Locks) (id a : ℕ)
      → s.callers a ≡ giving_up
      → s.connection ≡ idle
      → Step s (record s { pending = erase id s.pending; callers = move s.callers a returned })
  lose : (s : Locks) → s.connection ≡ idle → Step s (record s { connection = failing s.pending })
  fail :
      (s : Locks) (id a : ℕ) (rest : List (ℕ × ℕ))
      → s.connection ≡ failing ((id, a) ∷ rest)
      → s.callers a ≢ giving_up
      → Step s (record s { connection = failing rest })
  clear :
      (s : Locks)
      → s.connection ≡ failing []
      → Step s (record s { connection = idle; pending = [] })

pub data Reach : Locks → Locks → Type 0 where
  here : (s : Locks) → Reach s s
  later : (s t u : Locks) → Step s t → Reach t u → Reach s u

-- The loop waits for a caller that waits for the loop.
abbrev pub Stuck : ℕ → ℕ → List (ℕ × ℕ) → Locks → Type 0
Stuck id a rest s = (s.connection ≡ failing ((id, a) ∷ rest)) × (s.callers a ≡ giving_up)

step-Stuck :
    (id a : ℕ) (rest : List (ℕ × ℕ)) (s t : Locks)
    → Step s t
    → Stuck id a rest s
    → Stuck id a rest t × (t.pending ≡ s.pending)
step-Stuck id a rest s t (post _ j b free) (busy, held) = ground arith
step-Stuck id a rest s t (respond _ j b free w) (busy, held) = ground arith
step-Stuck id a rest s t (time_out _ b w) (busy, held) = ((busy, ground arith), refl)
step-Stuck id a rest s t (give_up _ j b h free) (busy, held) = ground arith
step-Stuck id a rest s t (lose _ free) (busy, held) = ground arith
step-Stuck id a rest s t (fail _ j b more at ne) (busy, held) = ground arith
step-Stuck id a rest s t (clear _ at) (busy, held) = ground arith

Reach-Stuck :
    (id a : ℕ) (rest : List (ℕ × ℕ)) (s t : Locks)
    → Reach s t
    → Stuck id a rest s
    → Stuck id a rest t × (t.pending ≡ s.pending)
Reach-Stuck id a rest s t (here _) stuck = (stuck, refl)
Reach-Stuck id a rest s t (later _ u _ one more) stuck =
    let (stuck', same) = step-Stuck id a rest s u one stuck in
    let (stuck'', same') = Reach-Stuck id a rest u t more stuck' in (stuck'', same' ∙ same)

-- A time-out and a lost connection can lock each other out: where the caller of the entry that the loop
-- visits first still waits, a run leads to a state from which, in every further run, that caller holds
-- its lock and never returns, `on_disconnect` never ends, and the table stays as it is.
pub disconnect_deadlocks :
    (s : Locks) (id a : ℕ) (rest : List (ℕ × ℕ))
    → s.connection ≡ idle
    → s.pending ≡ (id, a) ∷ rest
    → s.callers a ≡ waiting
    → (t : Locks) × Reach s t
      × ((u : Locks)
          → Reach t u
          → (u.connection ≡ failing ((id, a) ∷ rest))
            × (u.callers a ≡ giving_up)
            × (u.pending ≡ s.pending))
disconnect_deadlocks s id a rest free table w =
    let t₁ : Locks = record s { callers = move s.callers a giving_up } in
    let t₂ : Locks = record t₁ { connection = failing t₁.pending } in
    let stuck : Stuck id a rest t₂ = (ap failing table, ground arith) in
    (
      t₂,
      later s t₁ t₂ (time_out s a w) (later t₁ t₂ t₂ (lose t₁ free) (here t₂)),
      (λ u run.
          let ((busy, held), same) = Reach-Stuck id a rest t₂ u run stuck in (busy, held, same)),
    )
