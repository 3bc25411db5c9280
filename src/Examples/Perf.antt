-- ===== src/Examples/Perf.antt =====
-- The counters of the performance at concrete inputs.
use hl_maker_lighter_arb_cpp.Common.{
  ℕ, zero, suc, ◌≤◌, ◌≡◌, ◌⊎◌, refl, true, ◌==◌, List, [], ◌∷◌, if◌then◌else◌,
}
use hl_maker_lighter_arb_cpp.Perf.{PerfCollector, index, record_sample, record_hot_path}
use hl_maker_lighter_arb_cpp.Perf.Sampling.{
  TickValues, tick_calls, decision_calls, all_tick_calls, decision_calls, odd_metrics_unsampled,
}
use hl_maker_lighter_arb_cpp.Perf.Maximum.{
  Race, Reach, here, onward, loading, comparing, recorded, load, exchanged, failed, left, put,
  max-recorded,
}

-- Two threads record 5 and 9: the slower one finds the maximum raised, tries again and leaves.
abbrev values : ℕ → ℕ
values i = if i == 0 then 5 else if i == 1 then 9 else 0

abbrev start : Race
start = record { max = 0; recorders = λ i. loading (values i) }

abbrev both_loaded : Race
both_loaded = record start {
  recorders = put (put start.recorders 0 (comparing 5 0)) 1 (comparing 9 0);
}

abbrev raised : Race
raised = record { max = 9; recorders = put both_loaded.recorders 1 (recorded 9) }

abbrev again : Race
again = record raised { recorders = put raised.recorders 0 (comparing 5 9) }

abbrev finished : Race
finished = record again { recorders = put again.recorders 0 (recorded 5) }

raced : Reach start finished
raced =
    onward _ again _
      (onward _ raised _
        (onward _ both_loaded _
          (onward _ (record start { recorders = put start.recorders 0 (comparing 5 0) }) _
            (onward _ start _ (here start) (load start 0 5 refl))
            (load (record start { recorders = put start.recorders 0 (comparing 5 0) }) 1 9 refl))
          (exchanged both_loaded 1 9 0 refl refl refl))
        (failed raised 0 5 0 refl refl))
      (left again 0 5 9 refl refl)

max-recorded_example :
    ((i v : ℕ) → finished.recorders i ≡ recorded v → (v ≡ values i) × (v ≤ finished.max))
    × (0 ≤ finished.max)
    × ((finished.max ≡ 0) ⊎ ((i : ℕ) × (finished.max ≡ values i)))
max-recorded_example = max-recorded start finished values (λ i. refl) raced

-- Fifty ticks from the start of the thread.
abbrev fifty : ℕ → List TickValues
fifty zero = []
fifty (suc n) =
    record { hl_age = 7; lighter_age = 8; decides = true; alignment = 1; decision = 900 } ∷ fifty n

abbrev empty : PerfCollector
empty = record { counters = λ i. record { count = 0; sum = 0; max = 0 } }

odd_metrics_unsampled_example :
    let c' = all_tick_calls (fifty 50) 0 empty in
    (c'.counters 2 ≡ empty.counters 2) × (c'.counters 4 ≡ empty.counters 4)
unfolding index
odd_metrics_unsampled_example = odd_metrics_unsampled (fifty 50) 0 empty refl

decisions_sampled : ((all_tick_calls (fifty 50) 0 empty).counters 5).count ≡ 3
unfolding all_tick_calls tick_calls decision_calls record_hot_path record_sample index
decisions_sampled = refl
