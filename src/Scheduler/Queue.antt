-- ===== src/Scheduler/Queue.antt =====
-- internal/scheduler/queue.go: the order in which pending workloads are scheduled.
pub mod Laws
pub mod Aging
use aegis_llm_control_plane.Base.{
  ℕ, ◌/◌, Bool, true, false, not, ◌||◌, ◌==◌, List, [], ◌∷◌, if◌then◌else◌,
}
use aegis_llm_control_plane.Base.Int.{
  ℤ, pos, pos_part, ◌+ℤ◌, lt_int, eq_int, Time, Duration, time_sub, is_zero_time, after, before,
}
use aegis_llm_control_plane.Cluster.Types.{
  Workload, Priority, priority_critical, priority_standard, priority_batch,
}

-- `workloadAgingInterval`, five minutes in nanoseconds.
abbrev pub workload_aging_interval : ℕ
workload_aging_interval = 300_000_000_000

unfoldable pub priority_weight : Priority → ℤ
priority_weight priority =
    if priority == priority_critical
    then pos 3
    else if priority == priority_standard
    then pos 2
    else if priority == priority_batch
    then pos 1
    else pos 0

module _ {F : Type 0} where
  -- The waiting time is positive where it is divided, so the quotient is that of its size. It is
  -- less than 2^63 / 3 * 10^11, and the sum does not wrap.
  unfoldable pub effective_priority_weight : Workload F → Time → ℤ
  effective_priority_weight workload now =
      if is_zero_time workload.arrival_time || not (after now workload.arrival_time)
      then priority_weight workload.priority
      else (priority_weight workload.priority
          +ℤ pos (pos_part (time_sub now workload.arrival_time) / workload_aging_interval))

-- `sort.SliceStable` with a `less`: a stable insertion.
module _ {A : Type 0} (less : A → A → Bool) where
  unfoldable pub insert_stable : A → List A → List A
  insert_stable a [] = a ∷ []
  insert_stable a (x ∷ xs) =
      let later = insert_stable a xs in if less x a then x ∷ later else a ∷ x ∷ xs

  unfoldable pub sort_stable : List A → List A
  sort_stable [] = []
  sort_stable (x ∷ xs) = insert_stable x (sort_stable xs)

module _ {F : Type 0} where
  -- The comparison of both orders: the higher weight, and the earlier arrival where they agree.
  abbrev pub goes_first : (Workload F → ℤ) → Workload F → Workload F → Bool
  goes_first weight a b =
      if not (eq_int (weight a) (weight b))
      then lt_int (weight b) (weight a)
      else before a.arrival_time b.arrival_time

  abbrev pub weight_of : Workload F → ℤ
  weight_of w = priority_weight w.priority

  unfoldable pub order_workloads : List (Workload F) → List (Workload F)
  order_workloads workloads = sort_stable (goes_first weight_of) workloads

  unfoldable pub order_workloads_with_aging : List (Workload F) → Time → List (Workload F)
  order_workloads_with_aging workloads now =
      sort_stable (goes_first (λ w. effective_priority_weight w now)) workloads
