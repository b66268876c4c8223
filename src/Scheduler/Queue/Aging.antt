-- ===== src/Scheduler/Queue/Aging.antt =====
-- internal/scheduler/queue.go: `EffectivePriorityWeight` against the priorities.
use aegis_llm_control_plane.Base.{ℕ, ◌+◌, ◌/◌, ◌≤◌, ◌<◌, ◌^◌, ◌≡◌, true, false, arith}
use aegis_llm_control_plane.Base.Int.{
  pos, pos_part, ◌+ℤ◌, ◌-ℤ◌, ◌≤ℤ◌, lt_int, eq_int, time_sub, +ℤ_parts, -ℤ_parts, seconds, Time,
  one_part,
}
use aegis_llm_control_plane.Cluster.Types.{Workload, Priority}
use aegis_llm_control_plane.Cluster.Validation.{known_priority}
use aegis_llm_control_plane.Scheduler.Queue.{
  priority_weight, effective_priority_weight, workload_aging_interval, goes_first,
}

priority_weight_range : (p : Priority) → (pos 0 ≤ℤ priority_weight p) × (priority_weight p ≤ℤ pos 3)
unfolding priority_weight
priority_weight_range p = ground arith

known_priority_weight : (p : Priority) → known_priority p ≡ true → pos 1 ≤ℤ priority_weight p
unfolding priority_weight
known_priority_weight p h = ground arith

-- Nanoseconds from one time to a later one.
abbrev since : Time → Time → ℕ
since t u = pos_part (t -ℤ u)

time_sub_exact :
    (t u : Time) → lt_int u t ≡ true → since t u < 2 ^ 63 → pos_part (time_sub t u) ≡ since t u
unfolding time_sub
time_sub_exact t u h b = ground (arith, -ℤ_parts t u)

module _ {F : Type 0} where
  aged_weight :
      (w : Workload F) (now : Time)
      → eq_int w.arrival_time (pos 0) ≡ false
      → lt_int w.arrival_time now ≡ true
      → since now w.arrival_time < 2 ^ 63
      → effective_priority_weight w now
        ≡ priority_weight w.priority +ℤ pos (since now w.arrival_time / workload_aging_interval)
  unfolding effective_priority_weight
  aged_weight w now nz later small = ground (arith, time_sub_exact now w.arrival_time)

  weight_bound :
      (w : Workload F) (now : Time)
      → since now w.arrival_time < 2 ^ 63
      → effective_priority_weight w now
        ≤ℤ pos (3 + since now w.arrival_time / workload_aging_interval)
  unfolding effective_priority_weight
  weight_bound w now small = ground (
    arith,
    time_sub_exact now w.arrival_time,
    priority_weight_range w.priority,
    +ℤ_parts (priority_weight w.priority)
        (pos (since now w.arrival_time / workload_aging_interval)),
    +ℤ_parts (priority_weight w.priority)
        (pos (pos_part (time_sub now w.arrival_time) / workload_aging_interval)),
  )

  weight_floor :
      (w : Workload F) (now : Time)
      → known_priority w.priority ≡ true
      → eq_int w.arrival_time (pos 0) ≡ false
      → lt_int w.arrival_time now ≡ true
      → since now w.arrival_time < 2 ^ 63
      → pos (1 + since now w.arrival_time / workload_aging_interval)
        ≤ℤ effective_priority_weight w now
  weight_floor w now known nz later small = rw (aged_weight w now nz later small) (
      omega (
        arith,
        known_priority_weight w.priority known,
        +ℤ_parts (priority_weight w.priority)
            (pos (since now w.arrival_time / workload_aging_interval)),
      ))

  -- A workload of any known priority that arrived ten minutes before another goes before it, if
  -- both have arrived, it has an arrival time, and it waits for less than 2^63 nanoseconds.
  pub aging_overtakes :
      (a b : Workload F) (now : Time)
      → known_priority a.priority ≡ true
      → eq_int a.arrival_time (pos 0) ≡ false
      → a.arrival_time +ℤ seconds 600 ≤ℤ b.arrival_time
      → b.arrival_time ≤ℤ now
      → since now a.arrival_time < 2 ^ 63
      → goes_first (λ w. effective_priority_weight w now) a b ≡ true
  aging_overtakes a b now known nz gap arrived small =
      let da = -ℤ_parts now a.arrival_time in
      let db = -ℤ_parts now b.arrival_time in
      let one = one_part (now -ℤ a.arrival_time) in
      let one_b = one_part (now -ℤ b.arrival_time) in
      let sum = +ℤ_parts a.arrival_time (seconds 600) in
      let longer : since now b.arrival_time + 600_000_000_000 ≤ since now a.arrival_time =
        omega arith in
      let earlier : lt_int a.arrival_time now ≡ true = ground arith in
      let first : lt_int a.arrival_time b.arrival_time ≡ true = ground arith in
      let low = weight_floor a now known nz earlier small in
      let high = weight_bound b now (omega arith) in
      let enough : since now b.arrival_time / workload_aging_interval + 2
          ≤ since now a.arrival_time / workload_aging_interval =
        omega arith in
      ground arith
