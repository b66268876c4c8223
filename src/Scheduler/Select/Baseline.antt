-- ===== src/Scheduler/Select/Baseline.antt =====
-- internal/scheduler/scheduler.go: the result of `SelectWorker`.
use mathlib.Core.List.{Mem}
use aegis_llm_control_plane.Base.{
  ◌≡◌, ◌↔◌, true, false, List, [], ◌∷◌, ok, err, All, text_lt, arith,
}
use aegis_llm_control_plane.Base.TextOrder.{text_lt_irrefl, text_lt_trans}
use aegis_llm_control_plane.Base.Float.{Float64, IsIeee, IsNumber, ◌≼◌}
use aegis_llm_control_plane.Base.FloatOrder.{
  lt_irrefl, lt_trans, le_of_not-lt, lt_of_lt-le, lt_of_le-lt,
}
use aegis_llm_control_plane.Errors.{no_eligible_worker}
use aegis_llm_control_plane.Cluster.Types.{Worker, Workload}
use aegis_llm_control_plane.Scheduler.Score.{is_eligible, score_worker}
use aegis_llm_control_plane.Scheduler.Select.{prefer_score, select_worker}
use aegis_llm_control_plane.Scheduler.Select.Laws.{
  IsPreference, Unbeaten, picked_none, picked, run-Unbeaten,
}

module _ {F : Type 0} ⦃fl : Float64 F⦄ where
  -- A selection fails, and then with this error, exactly when no worker is eligible.
  pub select_worker_none :
      (workload : Workload F) (workers : List (Worker F))
      → (select_worker workload workers ≡ err no_eligible_worker)
        ↔ All (λ w. is_eligible workload w ≡ false) workers
  unfolding select_worker
  select_worker_none workload workers =
      picked_none (is_eligible workload) (score_worker workload) prefer_score workers

  module _ (laws : IsIeee F) (workload : Workload F) where
    abbrev Numeric : Worker F × F → Type 0
    Numeric p = IsNumber p.1

    prefer_score-IsPreference :
        IsPreference (is_eligible workload) (score_worker workload) prefer_score Numeric
    prefer_score-IsPreference = record {
      irrefl = λ p n. ground (arith, lt_irrefl laws p.1, text_lt_irrefl p.0.id);
      trans = λ p q r a b c h k. ground (
        arith,
        lt_trans laws r.1 q.1 p.1,
        text_lt_trans p.0.id q.0.id r.0.id,
        laws.eq_iff p.1 q.1,
        laws.eq_iff q.1 r.1,
        laws.eq_iff p.1 r.1,
        lt_of_lt-le laws r.1 q.1 p.1,
        lt_of_le-lt laws r.1 q.1 p.1,
        laws.le_trans p.1 q.1 r.1,
        laws.le_trans r.1 q.1 p.1,
      );
    }

    -- Every worker that is eligible has a score that is a number.
    abbrev pub NumericScores : List (Worker F) → Type 0
    NumericScores = All (λ w. is_eligible workload w ≡ true → IsNumber (score_worker workload w))

    -- No score is higher than that of w, and where one is the same its ID does not come first.
    abbrev pub Best : Worker F → List (Worker F) → Type 0
    Best w = All (λ x.
        is_eligible workload x ≡ true
        → (score_worker workload x ≼ score_worker workload w)
          × (fl.eq (score_worker workload x) (score_worker workload w) ≡ true
              → text_lt x.id w.id ≡ false))

    -- If the scores are numbers, the worker selected is one of the list, is eligible, and no eligible
    -- one has a higher score, or the same score and an ID that comes first.
    pub select_worker-Best :
        (workers : List (Worker F)) (w : Worker F)
        → NumericScores workers
        → select_worker workload workers ≡ ok w
        → Mem w workers × (is_eligible workload w ≡ true) × Best w workers
    unfolding select_worker
    select_worker-Best workers w numeric e =
        let (r, el, m) =
          picked (is_eligible workload) (score_worker workload) prefer_score w workers e in
        let (n, best) =
          run-Unbeaten (is_eligible workload) (score_worker workload) prefer_score Numeric
            prefer_score-IsPreference (w, score_worker workload w) workers numeric r in
        (m, el, weigh workers numeric n best)
      where
        weigh :
            (xs : List (Worker F))
            → NumericScores xs
            → IsNumber (score_worker workload w)
            → Unbeaten
                (is_eligible workload)
                (score_worker workload)
                prefer_score
                xs
                (w, score_worker workload w)
            → Best w xs
        weigh [] numeric n best = tt
        weigh (x ∷ xs) (nx, ns) n (b, bs) = (
          λ el.
              let not_beaten = b el in
              let number = nx el in
              (
                ground
                    (arith, le_of_not-lt laws (score_worker workload w) (score_worker workload x)),
                λ same. ground arith,
              ),
          weigh xs ns n bs,
        )
