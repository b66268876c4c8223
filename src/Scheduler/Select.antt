-- ===== src/Scheduler/Select.antt =====
-- internal/scheduler/scheduler.go: `SelectWorker`, and the loop that the three selections share.
pub mod Laws
pub mod Baseline
pub mod Order
use aegis_llm_control_plane.Base.{
  ◌≡◌, Bool, true, false, not, ◌&&◌, ◌||◌, List, [], ◌∷◌, Option, none, some, ok, err, text_lt,
  if◌then◌else◌,
}
use aegis_llm_control_plane.Base.Float.{Float64}
use aegis_llm_control_plane.Errors.{Outcome, no_eligible_worker}
use aegis_llm_control_plane.Cluster.Types.{Worker, Workload}
use aegis_llm_control_plane.Scheduler.Score.{is_eligible, score_worker}

-- The loop: skip what is not eligible, and keep the candidate with its value if there is none kept
-- (`!found`) or if it is to be preferred.
module _ {A B : Type 0} (eligible : A → Bool) (value : A → B) (prefer : A × B → A × B → Bool) where
  abbrev consider : A → Option (A × B) → Option (A × B)
  consider a none = if eligible a then some (a, value a) else none
  consider a (some kept) =
      if eligible a && prefer (a, value a) kept then some (a, value a) else some kept

  unfoldable pub select_from : Option (A × B) → List A → Option (A × B)
  select_from kept [] = kept
  select_from kept (a ∷ rest) = select_from (consider a kept) rest

-- `if !found { return ErrNoEligibleWorker }`
abbrev pub or_no_worker : {A B : Type 0} → Option (A × B) → Outcome A
or_no_worker none = err no_eligible_worker
or_no_worker (some (a, b)) = ok a

module _ {F : Type 0} ⦃fl : Float64 F⦄ where
  -- A higher score, or the same score and an ID that comes first.
  abbrev pub prefer_score : Worker F × F → Worker F × F → Bool
  prefer_score (worker, score) (selected, selected_score) =
      fl.lt selected_score score || (fl.eq score selected_score && text_lt worker.id selected.id)

  unfoldable pub select_worker : Workload F → List (Worker F) → Outcome (Worker F)
  select_worker workload workers =
      or_no_worker
        (select_from (is_eligible workload) (score_worker workload) prefer_score none workers)
