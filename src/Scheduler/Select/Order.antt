-- ===== src/Scheduler/Select/Order.antt =====
-- internal/scheduler/scheduler.go: `SelectWorker` on one list in two orders.
use mathlib.Core.List.{Mem, Perm}
use mathlib.Core.List.Perm
use aegis_llm_control_plane.Base.{
  ◌≡◌, sym, ◌∙◌, ap, true, false, List, none, ok, err, All_of_mem, inl, inr, text_lt, Result-cases,
}
use aegis_llm_control_plane.Base.TextOrder.{text_lt_total}
use aegis_llm_control_plane.Base.Float.{Float64, IsIeee, ◌≼◌}
use aegis_llm_control_plane.Errors.{Error, no_eligible_worker}
use aegis_llm_control_plane.Cluster.Types.{Worker, Workload}
use aegis_llm_control_plane.Scheduler.Score.{is_eligible, score_worker}
use aegis_llm_control_plane.Scheduler.Select.{select_worker, select_from, prefer_score}
use aegis_llm_control_plane.Scheduler.Select.Laws.{or_no_worker_error}
use aegis_llm_control_plane.Scheduler.Select.Baseline.{
  NumericScores, Best, select_worker_none, select_worker-Best,
}

module _ {F : Type 0} ⦃fl : Float64 F⦄ (laws : IsIeee F) (workload : Workload F) where
  Best-of_mem :
      (w x : Worker F) (xs : List (Worker F))
      → Best laws workload w xs
      → Mem x xs
      → is_eligible workload x ≡ true
      → (score_worker workload x ≼ score_worker workload w)
        × (fl.eq (score_worker workload x) (score_worker workload w) ≡ true
            → text_lt x.id w.id ≡ false)
  Best-of_mem w x xs b m el = All_of_mem _ (λ a. hlevel) x xs b m el

  -- Two best workers of the same workers have one ID.
  Best-id :
      (w v : Worker F) (xs ys : List (Worker F))
      → Best laws workload w xs
      → Best laws workload v ys
      → Mem v xs
      → Mem w ys
      → is_eligible workload w ≡ true
      → is_eligible workload v ≡ true
      → w.id ≡ v.id
  Best-id w v xs ys bw bv mv mw ew ev =
      let (below, first) = Best-of_mem w v xs bw mv ev in
      let (above, first') = Best-of_mem v w ys bv mw ew in
      text_lt_total w.id v.id
        (first'
          ((laws.eq_iff (score_worker workload w) (score_worker workload v)).1 (above, below)))
        (first ((laws.eq_iff (score_worker workload v) (score_worker workload w)).1 (below, above)))

  only_error :
      (xs : List (Worker F)) (e : Error)
      → select_worker workload xs ≡ err e
      → e ≡ no_eligible_worker
  unfolding select_worker
  only_error xs e h =
      or_no_worker_error
        (select_from (is_eligible workload) (score_worker workload) prefer_score none xs) e h

  none_of_mem :
      (w : Worker F) (xs : List (Worker F)) (e : Error)
      → select_worker workload xs ≡ err e
      → Mem w xs
      → is_eligible workload w ≡ false
  none_of_mem w xs e h m =
      All_of_mem _ (λ a. hlevel) w xs
        ((select_worker_none workload xs).0 (h ∙ ap err (only_error xs e h))) m

  -- If the scores are numbers and no two workers share an ID, the same workers listed in another
  -- order give the same selection, or the same failure.
  pub select_worker_order :
      (xs ys : List (Worker F))
      → Perm xs ys
      → NumericScores laws workload xs
      → NumericScores laws workload ys
      → ((v w : Worker F) → Mem v xs → Mem w xs → v.id ≡ w.id → v ≡ w)
      → select_worker workload xs ≡ select_worker workload ys
  select_worker_order xs ys p nx ny distinct = elim (Result-cases (select_worker workload xs)) [
    | inl (w, ew) ↦
        let (mw, lw, bw) = select_worker-Best laws workload xs w nx ew in
        elim (Result-cases (select_worker workload ys)) [
          | inl (v, ev) ↦
              let (mv, lv, bv) = select_worker-Best laws workload ys v ny ev in
              let back = (Perm.mem_iff p).1 mv in
              let same = Best-id w v xs ys bw bv back ((Perm.mem_iff p).0 mw) lw lv in
              ew ∙ ap ok (distinct w v mw back same) ∙ sym ev
          | inr (e, ee) ↦ cc (none_of_mem w ys e ee ((Perm.mem_iff p).0 mw), lw)
        ]
    | inr (e, ee) ↦ elim (Result-cases (select_worker workload ys)) [
      | inl (v, ev) ↦
          let (mv, lv, bv) = select_worker-Best laws workload ys v ny ev in
          cc (none_of_mem v xs e ee ((Perm.mem_iff p).1 mv), lv)
      | inr (e', ee') ↦ ee ∙ ap err (only_error xs e ee ∙ sym (only_error ys e' ee')) ∙ sym ee'
    ]
  ]
