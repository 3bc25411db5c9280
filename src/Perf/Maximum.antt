-- ===== src/Perf/Maximum.antt =====
-- `record_sample` on any number of threads: the loop of compare-and-exchange that keeps the maximum, each
-- atomic access as a step.
use mathlib.Core.Path.{subst}
use hl_maker_lighter_arb_cpp.Common.{
  ℕ, ◌≤◌, ◌≡◌, refl, sym, true, false, ◌==◌, ==_iff, ltb, ◌⊎◌, inl, inr, Bool-cases, if◌then◌else◌,
  arith,
}

-- A thread with its value: before its load, in the loop with the maximum that it saw, or done.
pub data Recorder : Type 0 where
  loading : ℕ → Recorder
  comparing : ℕ → ℕ → Recorder
  recorded : ℕ → Recorder

pub record Race : Type 0 where
  pub max : ℕ
  pub recorders : ℕ → Recorder

abbrev pub put : (ℕ → Recorder) → ℕ → Recorder → ℕ → Recorder
put recorders i r j = if i == j then r else recorders j

-- A weak exchange may fail for no reason; it then takes over the maximum that it finds.
pub data Step : Race → Race → Type 0 where
  load :
      (s : Race) (i value : ℕ)
      → s.recorders i ≡ loading value
      → Step s (record s { recorders = put s.recorders i (comparing value s.max) })
  exchanged :
      (s : Race) (i value seen : ℕ)
      → s.recorders i ≡ comparing value seen
      → ltb seen value ≡ true
      → s.max ≡ seen
      → Step s (record { max = value; recorders = put s.recorders i (recorded value) })
  failed :
      (s : Race) (i value seen : ℕ)
      → s.recorders i ≡ comparing value seen
      → ltb seen value ≡ true
      → Step s (record s { recorders = put s.recorders i (comparing value s.max) })
  left :
      (s : Race) (i value seen : ℕ)
      → s.recorders i ≡ comparing value seen
      → ltb seen value ≡ false
      → Step s (record s { recorders = put s.recorders i (recorded value) })

pub data Reach : Race → Race → Type 0 where
  here : (s : Race) → Reach s s
  onward : (s t u : Race) → Reach s t → Step t u → Reach s u

-- What a thread knows of the maximum, its value being `value`.
unfoldable pub IsFine : ℕ → ℕ → Recorder → Type 0
IsFine max value (loading v) = v ≡ value
IsFine max value (comparing v seen) = (v ≡ value) × (seen ≤ max)
IsFine max value (recorded v) = (v ≡ value) × (v ≤ max)

IsFine-grows :
    (max max' value : ℕ) (r : Recorder) → max ≤ max' → IsFine max value r → IsFine max' value r
unfolding IsFine
IsFine-grows max max' value (loading v) le fine = fine
IsFine-grows max max' value (comparing v seen) le (same, below) = (same, omega arith)
IsFine-grows max max' value (recorded v) le (same, below) = (same, omega arith)

put-IsFine :
    (values : ℕ → ℕ) (max max' i : ℕ) (r : Recorder) (recorders : ℕ → Recorder)
    → max ≤ max'
    → IsFine max' (values i) r
    → ((j : ℕ) → IsFine max (values j) (recorders j))
    → (j : ℕ) → IsFine max' (values j) (put recorders i r j)
put-IsFine values max max' i r recorders le fine all j = elim (Bool-cases (i == j)) [
  | inl same ↦
      let is = (==_iff i j).0 same in
      subst (λ b. IsFine max' (values j) (if b then r else recorders j)) (sym same)
        (subst (λ k. IsFine max' (values k) r) is fine)
  | inr other ↦
      subst (λ b. IsFine max' (values j) (if b then r else recorders j)) (sym other)
        (IsFine-grows max max' (values j) (recorders j) le (all j))
]

abbrev Inv : ℕ → (ℕ → ℕ) → Race → Type 0
Inv start values s =
    ((j : ℕ) → IsFine s.max (values j) (s.recorders j))
    × (start ≤ s.max)
    × ((s.max ≡ start) ⊎ ((i : ℕ) × (s.max ≡ values i)))

IsFine-path : (max value : ℕ) (r r' : Recorder) → r ≡ r' → IsFine max value r → IsFine max value r'
IsFine-path max value r r' is = subst (IsFine max value) is

step-Inv :
    (start : ℕ) (values : ℕ → ℕ) (s t : Race) → Step s t → Inv start values s → Inv start values t
unfolding IsFine
step-Inv start values s t (load _ i value at) (all, low, whose) =
    let same = IsFine-path s.max (values i) _ _ at (all i) in
    (
      put-IsFine values s.max s.max i (comparing value s.max) s.recorders (omega arith)
          (same, omega arith) all,
      low,
      whose,
    )
step-Inv start values s t (exchanged _ i value seen at more is) (all, low, whose) =
    let (same, below) = IsFine-path s.max (values i) _ _ at (all i) in
    let grows : s.max ≤ value = ground arith in
    (
      put-IsFine values s.max value i (recorded value) s.recorders grows (same, omega arith) all,
      omega arith,
      inr (i, same),
    )
step-Inv start values s t (failed _ i value seen at more) (all, low, whose) =
    let (same, below) = IsFine-path s.max (values i) _ _ at (all i) in
    (
      put-IsFine values s.max s.max i (comparing value s.max) s.recorders (omega arith)
          (same, omega arith) all,
      low,
      whose,
    )
step-Inv start values s t (left _ i value seen at less) (all, low, whose) =
    let (same, below) = IsFine-path s.max (values i) _ _ at (all i) in
    let under : value ≤ s.max = ground arith in
    (
      put-IsFine values s.max s.max i (recorded value) s.recorders (omega arith) (same, under) all,
      low,
      whose,
    )

Reach-Inv :
    (start : ℕ) (values : ℕ → ℕ) (s t : Race) → Reach s t → Inv start values s → Inv start values t
Reach-Inv start values s t (here _) inv = inv
Reach-Inv start values s t (onward _ u _ before one) inv =
    step-Inv start values u t one (Reach-Inv start values s u before inv)

-- However the threads are interleaved, the maximum is at least each value whose thread is done and at
-- least what it was before, and it is one of these: once all threads are done it is the largest of them.
pub max-recorded :
    (s t : Race) (values : ℕ → ℕ)
    → ((i : ℕ) → s.recorders i ≡ loading (values i))
    → Reach s t
    → ((i v : ℕ) → t.recorders i ≡ recorded v → (v ≡ values i) × (v ≤ t.max))
      × (s.max ≤ t.max)
      × ((t.max ≡ s.max) ⊎ ((i : ℕ) × (t.max ≡ values i)))
unfolding IsFine
max-recorded s t values starts run =
    let first : ((j : ℕ) → IsFine s.max (values j) (s.recorders j)) =
      λ j. IsFine-path s.max (values j) _ _ (sym (starts j)) refl in
    let (all, low, whose) = Reach-Inv s.max values s t run (first, omega arith, inl refl) in
    (λ i v at. IsFine-path t.max (values i) _ _ at (all i), low, whose)
