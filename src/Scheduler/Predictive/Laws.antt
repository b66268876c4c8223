-- ===== src/Scheduler/Predictive/Laws.antt =====
-- internal/scheduler/predictive.go: the result of the selection, and the predictions it uses.
use mathlib.Core.List.{Mem}
use aegis_llm_control_plane.Base.{
  ◌≡◌, ◌↔◌, true, false, List, [], ◌∷◌, none, ok, err, All, text_lt, arith,
}
use aegis_llm_control_plane.Base.Float.{Float64, IsIeee, IsNumber, ◌≼◌}
use aegis_llm_control_plane.Base.FloatOrder.{lt_irrefl, lt_trans, le_of_not-lt}
use aegis_llm_control_plane.Errors.{no_eligible_worker}
use aegis_llm_control_plane.Cluster.Types.{Worker, Workload}
use aegis_llm_control_plane.Scheduler.Score.{is_eligible, score_worker}
use aegis_llm_control_plane.Scheduler.Select.{select_worker, select_from}
use aegis_llm_control_plane.Scheduler.Select.Laws.{
  IsPreference, Unbeaten, picked_none, picked, run-Unbeaten,
}
use aegis_llm_control_plane.Scheduler.Predictive.{
  Outlook, usable_prediction, explain_predictive_worker_score, predictive_total, prefer_higher,
  select_worker_predictive,
}

module _ {F : Type 0} ⦃fl : Float64 F⦄ where
  -- A predictive selection fails exactly when no worker is eligible, whatever the predictions.
  pub select_worker_predictive_none :
      (outlook : Outlook F) (workload : Workload F) (workers : List (Worker F))
      → (select_worker_predictive outlook workload workers ≡ err no_eligible_worker)
        ↔ All (λ w. is_eligible workload w ≡ false) workers
  unfolding select_worker_predictive
  select_worker_predictive_none outlook workload workers =
      picked_none (is_eligible workload) (predictive_total outlook workload) prefer_higher workers

  -- Without a usable prediction the total is the baseline score.
  pub predictive_total_fallback :
      (outlook : Outlook F) (workload : Workload F) (w : Worker F)
      → usable_prediction outlook w.id ≡ none
      → predictive_total outlook workload w ≡ score_worker workload w
  unfolding explain_predictive_worker_score score_worker
  predictive_total_fallback outlook workload w e = ground arith

  module _ (laws : IsIeee F) (outlook : Outlook F) (workload : Workload F) where
    abbrev Numeric : Worker F × F → Type 0
    Numeric p = IsNumber p.1

    prefer_higher-IsPreference :
        IsPreference
          (is_eligible workload)
          (predictive_total outlook workload)
          prefer_higher
          Numeric
    prefer_higher-IsPreference = record {
      irrefl = λ p n. lt_irrefl laws p.1;
      trans = λ p q r a b c h k. lt_trans laws r.1 q.1 p.1 k h;
    }

    abbrev pub NumericTotals : List (Worker F) → Type 0
    NumericTotals =
        All (λ w. is_eligible workload w ≡ true → IsNumber (predictive_total outlook workload w))

    abbrev pub Highest : Worker F → List (Worker F) → Type 0
    Highest w = All (λ x.
        is_eligible workload x ≡ true
        → predictive_total outlook workload x ≼ predictive_total outlook workload w)

    -- If the totals are numbers, the worker selected is one of the list, is eligible (predictions
    -- never override a hard constraint), and no eligible one has a higher total.
    pub select_worker_predictive_best :
        (workers : List (Worker F)) (w : Worker F)
        → NumericTotals workers
        → select_worker_predictive outlook workload workers ≡ ok w
        → Mem w workers × (is_eligible workload w ≡ true) × Highest w workers
    unfolding select_worker_predictive
    select_worker_predictive_best workers w numeric e =
        let (r, el, m) =
          picked (is_eligible workload) (predictive_total outlook workload) prefer_higher w workers
            e in
        let (n, best) =
          run-Unbeaten (is_eligible workload) (predictive_total outlook workload) prefer_higher
            Numeric prefer_higher-IsPreference (w, predictive_total outlook workload w) workers
            numeric r in
        (m, el, weigh workers numeric n best)
      where
        weigh :
            (xs : List (Worker F))
            → NumericTotals xs
            → IsNumber (predictive_total outlook workload w)
            → Unbeaten
                (is_eligible workload)
                (predictive_total outlook workload)
                prefer_higher
                xs
                (w, predictive_total outlook workload w)
            → Highest w xs
        weigh [] numeric n best = tt
        weigh (x ∷ xs) (nx, ns) n (b, bs) =
            (λ el. le_of_not-lt laws _ _ n (nx el) (b el), weigh xs ns n bs)

  -- Without usable predictions, on a tie listed against the order of the IDs, the predictive
  -- selection returns the first worker listed and the baseline the one whose ID comes first.
  pub stale_tie_differs :
      (laws : IsIeee F) (outlook : Outlook F) (workload : Workload F) (v w : Worker F)
      → is_eligible workload v ≡ true
      → is_eligible workload w ≡ true
      → usable_prediction outlook v.id ≡ none
      → usable_prediction outlook w.id ≡ none
      → fl.eq (score_worker workload w) (score_worker workload v) ≡ true
      → text_lt w.id v.id ≡ true
      → (select_worker_predictive outlook workload (v ∷ w ∷ []) ≡ ok v)
        × (select_worker workload (v ∷ w ∷ []) ≡ ok w)
  unfolding select_worker_predictive select_worker select_from
  stale_tie_differs laws outlook workload v w ev ew pv pw tie first = (
    ground (
      arith,
      predictive_total_fallback outlook workload v pv,
      predictive_total_fallback outlook workload w pw,
      laws.eq_iff (score_worker workload w) (score_worker workload v),
      laws.lt_iff (score_worker workload v) (score_worker workload w),
    ),
    ground arith,
  )
