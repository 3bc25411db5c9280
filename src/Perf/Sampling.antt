-- ===== src/Perf/Sampling.antt =====
-- How many of the calls on the hot path are samples.
use hl_maker_lighter_arb_cpp.Common.{
  ℕ, ◌+◌, ◌/◌, ◌%◌, ◌^◌, ◌<◌, ◌≡◌, ap, refl, ◌∙◌, ◌*◌, ◌==◌, ==_iff, Bool, true, false,
  if◌then◌else◌, Bool-cases, inl, inr, List, [], ◌∷◌, length, arith,
}
use hl_maker_lighter_arb_cpp.Perf.{
  hl_quote_age_ms, lighter_quote_age_ms, cross_venue_alignment_ms, strategy_decision_ns, PerfMetric,
  PerfCollector, index, record_sample, record_hot_path,
}

unfoldable hot_path : PerfMetric → List ℕ → ℕ → PerfCollector → PerfCollector
unfolding record_hot_path
hot_path metric [] seq c = c
hot_path metric (value ∷ values) seq c =
    let (next, c') = record_hot_path metric value seq c in hot_path metric values next c'

abbrev count_of : PerfMetric → PerfCollector → ℕ
count_of metric c = (c.counters (index metric)).count

record_sample-count :
    (metric : PerfMetric) (value : ℕ) (c : PerfCollector)
    → count_of metric (record_sample metric value c) ≡ (count_of metric c + 1) % 2 ^ 64
unfolding record_sample
record_sample-count metric value c =
    let same : index metric == index metric ≡ true =
      (==_iff (index metric) (index metric)).1 refl in
    rw (same, count_of) refl

-- A call counts one step towards the next sample.
hot_path-step :
    (metric : PerfMetric) (value seq : ℕ) (c : PerfCollector)
    → count_of metric c + 1 < 2 ^ 64
    → let (next, c') = record_hot_path metric value seq c in
      (next ≡ (seq + 1) % 2 ^ 32)
      × (count_of metric c' * 64 + next % 64 ≡ count_of metric c * 64 + seq % 64 + 1)
unfolding record_hot_path
hot_path-step metric value seq c small =
    let counted = record_sample-count metric value c in
    elim (Bool-cases ((seq + 1) % 2 ^ 32 % 64 == 0)) [
      | inl samples ↦
          let zero = (==_iff ((seq + 1) % 2 ^ 32 % 64) 0).0 samples in
          rw samples (refl, rw counted (omega arith))
      | inr skips ↦ rw skips (refl, ground (arith, skips))
    ]

-- On one thread, the calls on the hot path count one sample in 64, across the wrap-around of the
-- thread's 32-bit sequence number too, as long as the count does not reach 2^64.
hot_path-count :
    (metric : PerfMetric) (values : List ℕ) (seq : ℕ) (c : PerfCollector)
    → seq < 2 ^ 32
    → (c.counters (index metric)).count + length values < 2 ^ 64
    → ((hot_path metric values seq c).counters (index metric)).count
      ≡ (c.counters (index metric)).count + (seq % 64 + length values) / 64
unfolding hot_path
hot_path-count metric [] seq c low small = omega arith
hot_path-count metric (value ∷ values) seq c low small =
    let (next, counted) = hot_path-step metric value seq c (omega arith) in
    hot_path-count metric values (record_hot_path metric value seq c).0
      (record_hot_path metric value seq c).1 (omega arith) (omega arith)
    ∙ omega arith

-- The calls of a tick of src/main_live.cpp, all on one thread, with one number: two, and two more where
-- the engine asks the strategy.
pub record TickValues : Type 0 where
  pub hl_age : ℕ
  pub lighter_age : ℕ
  pub decides : Bool
  pub alignment : ℕ
  pub decision : ℕ

unfoldable pub decision_calls : TickValues → ℕ → PerfCollector → ℕ × PerfCollector
decision_calls v seq c =
    let (seq, c) = record_hot_path cross_venue_alignment_ms v.alignment seq c in
    record_hot_path strategy_decision_ns v.decision seq c

unfoldable pub tick_calls : TickValues → ℕ → PerfCollector → ℕ × PerfCollector
tick_calls v seq c =
    let (seq, c) = record_hot_path hl_quote_age_ms v.hl_age seq c in
    let (seq, c) = record_hot_path lighter_quote_age_ms v.lighter_age seq c in
    if v.decides then decision_calls v seq c else (seq, c)

unfoldable pub all_tick_calls : List TickValues → ℕ → PerfCollector → PerfCollector
all_tick_calls [] seq c = c
all_tick_calls (v ∷ vs) seq c = let (next, c') = tick_calls v seq c in all_tick_calls vs next c'

-- A call at an odd number is no sample.
odd_call :
    (metric : PerfMetric) (value seq : ℕ) (c : PerfCollector)
    → seq % 2 ≡ 0
    → record_hot_path metric value seq c ≡ ((seq + 1) % 2 ^ 32, c)
unfolding record_hot_path
odd_call metric value seq c even = elim (Bool-cases ((seq + 1) % 2 ^ 32 % 64 == 0)) [
  | inl samples ↦ absurd (let zero = (==_iff ((seq + 1) % 2 ^ 32 % 64) 0).0 samples in omega arith)
  | inr skips ↦ rw skips refl
]

-- A call counts for no other metric.
other_call :
    (metric : PerfMetric) (value seq : ℕ) (c : PerfCollector) (i : ℕ)
    → i == index metric ≡ false
    → let (next, c') = record_hot_path metric value seq c in
      (next ≡ (seq + 1) % 2 ^ 32) × (c'.counters i ≡ c.counters i)
unfolding record_hot_path record_sample
other_call metric value seq c i other = elim (Bool-cases ((seq + 1) % 2 ^ 32 % 64 == 0)) [
  | inl samples ↦ rw samples (refl, rw other refl)
  | inr skips ↦ rw skips (refl, refl)
]

-- Two calls from an even number on, the second one for another metric.
pair-kept :
    (first second : PerfMetric) (value value' seq : ℕ) (c : PerfCollector) (i : ℕ)
    → seq % 2 ≡ 0
    → i == index second ≡ false
    → let (middle, c') = record_hot_path first value seq c in
      let (next, c'') = record_hot_path second value' middle c' in
      (next % 2 ≡ 0) × (c''.counters i ≡ c.counters i)
pair-kept first second value value' seq c i even other =
    let (next, same) = other_call second value' ((seq + 1) % 2 ^ 32) c i other in
    rw (odd_call first value seq c even) (ap (λ x. x % 2) next ∙ omega arith, same)

tick_calls-kept :
    (v : TickValues) (seq : ℕ) (c : PerfCollector) (i : ℕ)
    → seq % 2 ≡ 0
    → i == index lighter_quote_age_ms ≡ false
    → i == index strategy_decision_ns ≡ false
    → let (next, c') = tick_calls v seq c in (next % 2 ≡ 0) × (c'.counters i ≡ c.counters i)
unfolding tick_calls decision_calls
tick_calls-kept v seq c i even not_lighter not_decision =
    let c' : PerfCollector =
      (record_hot_path lighter_quote_age_ms v.lighter_age
        (record_hot_path hl_quote_age_ms v.hl_age seq c).0
        (record_hot_path hl_quote_age_ms v.hl_age seq c).1).1 in
    let n : ℕ =
      (record_hot_path lighter_quote_age_ms v.lighter_age
        (record_hot_path hl_quote_age_ms v.hl_age seq c).0
        (record_hot_path hl_quote_age_ms v.hl_age seq c).1).0 in
    let (middle, same) =
      pair-kept hl_quote_age_ms lighter_quote_age_ms v.hl_age v.lighter_age seq c i even
        not_lighter in
    let (next, same') =
      pair-kept cross_venue_alignment_ms strategy_decision_ns v.alignment v.decision n c' i middle
        not_decision in
    elim (Bool-cases v.decides) [
      | inl decided ↦ rw decided (next, same' ∙ same)
      | inr undecided ↦ rw undecided (middle, same)
    ]

all_tick_calls-kept :
    (vs : List TickValues) (seq : ℕ) (c : PerfCollector) (i : ℕ)
    → seq % 2 ≡ 0
    → i == index lighter_quote_age_ms ≡ false
    → i == index strategy_decision_ns ≡ false
    → (all_tick_calls vs seq c).counters i ≡ c.counters i
unfolding all_tick_calls
all_tick_calls-kept [] seq c i even not_lighter not_decision = refl
all_tick_calls-kept (v ∷ vs) seq c i even not_lighter not_decision =
    let (next, same) = tick_calls-kept v seq c i even not_lighter not_decision in
    all_tick_calls-kept vs (tick_calls v seq c).0 (tick_calls v seq c).1 i next not_lighter
      not_decision
    ∙ same

-- A tick makes two calls on the hot path or four, and every 64th call is a sample: from an even number on,
-- the age of Hyperliquid's quotes and the alignment of the venues, which are at the odd calls, are never
-- counted, however many ticks there are.
pub odd_metrics_unsampled :
    (vs : List TickValues) (seq : ℕ) (c : PerfCollector)
    → seq % 2 ≡ 0
    → let c' = all_tick_calls vs seq c in
      (c'.counters (index hl_quote_age_ms) ≡ c.counters (index hl_quote_age_ms))
      × (c'.counters (index cross_venue_alignment_ms) ≡ c.counters (index cross_venue_alignment_ms))
unfolding index
odd_metrics_unsampled vs seq c even = (
  all_tick_calls-kept vs seq c (index hl_quote_age_ms) even refl refl,
  all_tick_calls-kept vs seq c (index cross_venue_alignment_ms) even refl refl,
)
