-- ===== src/Predictor/Service/Outcomes.antt =====
-- internal/predictor/service.go: the results that a pass stores.
use aegis_llm_control_plane.Base.{
  ◌≡◌, ◌≢◌, ◌⊎◌, inl, inr, refl, sym, ap, subst, ◌∙◌, String, false, List, [], ◌∷◌, map, some, ◌==◌,
  eq_iff, ok, err, length, arith, Bool-cases, Option-cases, proceed, ltb,
}
use aegis_llm_control_plane.Base.Dict.{Dict, lookup, insert, lookup-insert}
use aegis_llm_control_plane.Base.Int.{pos, Time, Duration}
use aegis_llm_control_plane.Base.Float.{Float64, IsIeee}
use aegis_llm_control_plane.Errors.{Outcome}
use aegis_llm_control_plane.Telemetry.Types.{Record}
use aegis_llm_control_plane.Predictor.Types.{Forecast, Prediction}
use aegis_llm_control_plane.Predictor.History.{HistoryStore, new_history_store, recent}
use aegis_llm_control_plane.Predictor.History.Laws.{IsFiled, add-IsFiled, recent-All}
use aegis_llm_control_plane.Predictor.Results.{set, get}
use aegis_llm_control_plane.Predictor.Trend.{forecast, new_trend_predictor}
use aegis_llm_control_plane.Predictor.Trend.Laws.{forecast_worker_id, forecast_few}
use aegis_llm_control_plane.Predictor.Service.{
  Service, Forecaster, restart, add_all, absorb, keep_forecast, forecast_worker, forecast_workers,
  predict,
}
use aegis_llm_control_plane.Predictor.Service.Laws.{Replays, Follows, absorb_any}

module _ {F : Type 0} where
  -- What the worker's forecast is made with.
  abbrev Frame : Service F → Service F → Type 0
  Frame s t = (t.forecaster ≡ s.forecaster) × (t.history ≡ s.history) × (t.horizon ≡ s.horizon)

  abbrev made : Service F → String → Outcome (Forecast F)
  made s id = s.forecaster (recent id (pos 16) s.history) s.horizon

  -- Each forecast is named after its worker, which has a name.
  abbrev Named : Service F → Type 0
  Named s = (id : String) (f : Forecast F) → made s id ≡ ok f → (f.worker_id ≡ id) × (id ≢ "")

  keep_forecast-Frame :
      (clock : String → Time) (id : String) (r : Outcome (Forecast F)) (s : Service F)
      → Frame s (keep_forecast clock id r s).1
  keep_forecast-Frame clock id (ok f) s = (refl, refl, refl)
  keep_forecast-Frame clock id (err e) s = (refl, refl, refl)

  made-Frame : (s t : Service F) (id : String) → Frame s t → made t id ≡ made s id
  made-Frame s t id h = rw (h.0, h.1, h.2)

  Named-Frame : (s t : Service F) → Frame s t → Named s → Named t
  Named-Frame s t h n id f e = n id f (sym (made-Frame s t id h) ∙ e)

  abbrev result : (String → Time) → String → Forecast F → Prediction F
  result clock id f = record { forecast = f; generated_at = clock id }

  set_named :
      (p : Prediction F) (id : String) (m : Dict (Prediction F))
      → p.forecast.worker_id ≡ id
      → id ≢ ""
      → set p m ≡ insert id p m
  unfolding set
  set_named p id m e n =
      let name : (id == "") ≡ false = ground (arith, eq_iff id "") in rw (e, name)

  -- A worker's own turn stores its forecast.
  keep_forecast_own :
      (clock : String → Time) (id : String) (f : Forecast F) (s : Service F)
      → (f.worker_id ≡ id) × (id ≢ "")
      → lookup id (keep_forecast clock id (ok f) s).1.results ≡ some (result clock id f)
  keep_forecast_own clock id f s n =
      rw (set_named (result clock id f) id s.results n.0 n.1)
        (ground (arith, lookup-insert id id (result clock id f) s.results, eq_iff id id))

  -- Another turn leaves what it stored, or stores the same again.
  keep_forecast_other :
      (clock : String → Time) (id j : String) (f : Forecast F) (r : Outcome (Forecast F))
      (s : Service F)
      → ((g : Forecast F) → r ≡ ok g → (g.worker_id ≡ j) × (j ≢ ""))
      → (j ≡ id → r ≡ ok f)
      → lookup id s.results ≡ some (result clock id f)
      → lookup id (keep_forecast clock j r s).1.results ≡ some (result clock id f)
  keep_forecast_other clock id j f (err e) s n same h = h
  keep_forecast_other clock id j f (ok g) s n same h =
      let own = n g refl in
      rw
        (
          set_named (result clock j g) j s.results own.0 own.1,
          lookup-insert j id (result clock j g) s.results,
        )
        (elim (Bool-cases (j == id)) [
          | inl e ↦ let i = (eq_iff j id).0 e in cc (e, i, same i)
          | inr e ↦ cc (e, h)
        ])

  proceed_both :
      (r : Outcome (Unit {0}) × Service F) (k : Service F → Outcome (Unit {0}) × Service F)
      → (proceed r.0 (λ _. k) r.1).0 ≡ ok tt
      → (proceed r.0 (λ _. k) r.1 ≡ k r.1)
  proceed_both (ok u, t) k h = refl
  proceed_both (err e, t) k h = cc

  forecast_workers_keep :
      (clock : String → Time) (ids : List String) (s : Service F) (id : String) (f : Forecast F)
      → Named s
      → made s id ≡ ok f
      → lookup id s.results ≡ some (result clock id f)
      → (forecast_workers clock ids s).0 ≡ ok tt
      → lookup id (forecast_workers clock ids s).1.results ≡ some (result clock id f)
  unfolding forecast_workers forecast_worker
  forecast_workers_keep clock [] s id f n e h good = h
  forecast_workers_keep clock (j ∷ ids) s id f n e h good =
      let r = keep_forecast clock j (made s j) s in
      let frame = keep_forecast-Frame clock j (made s j) s in
      let step = proceed_both r (forecast_workers clock ids) good in
      let now = keep_forecast_other clock id j f (made s j) s (n j) (λ i. ap (made s) i ∙ e) h in
      ap (λ x. lookup id x.1.results) step
      ∙ forecast_workers_keep clock ids r.1 id f (Named-Frame s r.1 frame n)
          (made-Frame s r.1 id frame ∙ e) now (sym (ap (λ x. x.0) step) ∙ good)

  forecast_workers_store :
      {V : Type 0} (clock : String → Time) (d : Dict V) (s : Service F) (id : String) (v : V)
      (f : Forecast F)
      → Named s
      → lookup id d ≡ some v
      → made s id ≡ ok f
      → (forecast_workers clock (map (λ x. x.0) d) s).0 ≡ ok tt
      → lookup id (forecast_workers clock (map (λ x. x.0) d) s).1.results ≡ some (result clock id f)
  unfolding forecast_workers forecast_worker lookup
  forecast_workers_store clock [] s id v f n found e good = cc
  forecast_workers_store clock ((j, w) ∷ d) s id v f n found e good =
      let ids = map (λ x. x.0) d in
      let r = keep_forecast clock j (made s j) s in
      let frame = keep_forecast-Frame clock j (made s j) s in
      let step = proceed_both r (forecast_workers clock ids) good in
      let rest : (forecast_workers clock ids r.1).0 ≡ ok tt = sym (ap (λ x. x.0) step) ∙ good in
      let n' = Named-Frame s r.1 frame n in
      let e' = made-Frame s r.1 id frame ∙ e in
      ap (λ x. lookup id x.1.results) step ∙ (elim (Bool-cases (j == id)) [
        | inl same ↦
            let i = (eq_iff j id).0 same in
            let own : made s j ≡ ok f = ap (made s) i ∙ e in
            forecast_workers_keep clock ids r.1 id f n' e'
              (subst
                (λ t.
                  lookup t (keep_forecast clock j (made s j) s).1.results ≡ some (result clock t f))
                i (rw own (keep_forecast_own clock j f s (n j f own))))
              rest
        | inr other ↦ forecast_workers_store clock d r.1 id v f n' (rw other at found) e' rest
      ])

  add_all-IsFiled : (rs : List (Record F)) (h : HistoryStore F) → IsFiled h → IsFiled (add_all rs h)
  unfolding add_all
  add_all-IsFiled [] h f = f
  add_all-IsFiled (r ∷ rs) h f = add_all-IsFiled rs _ (add-IsFiled r h f)

  replayed-IsFiled :
      (listed : List (Record F)) → IsFiled (add_all listed (new_history_store (pos 16)))
  unfolding new_history_store lookup
  replayed-IsFiled listed =
      add_all-IsFiled listed (new_history_store (pos 16)) (λ id v e. absurd (cc e))

  recent_known :
      (id : String) (h : HistoryStore F)
      → (recent id (pos 16) h ≡ []) ⊎ ((rs : List (Record F)) × (lookup id h.records ≡ some rs))
  unfolding recent
  recent_known id h = elim (Option-cases (lookup id h.records)) [
    | inl e ↦ inl (rw e refl)
    | inr found ↦ inr found
  ]

  fed_frame :
      (listed : List (Record F)) (s : Service F)
      → ((absorb listed (restart listed s)).forecaster ≡ s.forecaster)
        × ((absorb listed (restart listed s)).horizon ≡ s.horizon)
  unfolding absorb restart
  fed_frame listed s = elim (Bool-cases (ltb (length listed) s.processed_records)) [
    | inl t ↦ rw t (refl, refl)
    | inr t ↦ rw t (refl, refl)
  ]

  made_by :
      (s : Service F) (id : String) (g : Forecaster F) (h : HistoryStore F) (z : Duration)
      → s.forecaster ≡ g
      → s.history ≡ h
      → s.horizon ≡ z
      → made s id ≡ g (recent id (pos 16) h) z
  made_by s id g h z eg eh ez = rw (eg, eh, ez)

module _ {F : Type 0} ⦃fl : Float64 F⦄ where
  fed-Named :
      (laws : IsIeee F) (s : Service F)
      → s.forecaster ≡ forecast new_trend_predictor
      → IsFiled s.history
      → Named s
  fed-Named laws s e filed id f made_ok =
      let made_here : forecast new_trend_predictor (recent id (pos 16) s.history) s.horizon ≡ ok f =
        subst (λ x. x (recent id (pos 16) s.history) s.horizon ≡ ok f) e made_ok in
      (
        forecast_worker_id laws (recent id (pos 16) s.history) s.horizon id f
            (recent-All id (pos 16) s.history filed) made_here,
        elim (recent_known id s.history) [
          | inl none_yet ↦ absurd (cc (rw none_yet at made_here, forecast_few s.horizon))
          | inr (rs, found) ↦ (filed id rs found).0
        ],
      )

  -- The passes of the default forecaster refine one forecast from the whole listing. When a pass
  -- over a listing that extends the last one, or is shorter than it, succeeds, each worker for
  -- which the forecaster makes a forecast from the last 16 observations of a history of all records
  -- listed has that forecast as its stored result, with the time at which it was made.
  pub predict_results :
      (laws : IsIeee F) (clock : String → Time) (old listed : List (Record F)) (s : Service F)
      (id : String) (f : Forecast F)
      → s.forecaster ≡ forecast new_trend_predictor
      → Replays s old
      → Follows old listed
      → (predict clock (ok listed) s).0 ≡ ok tt
      → forecast new_trend_predictor
          (recent id (pos 16) (add_all listed (new_history_store (pos 16))))
          s.horizon
        ≡ ok f
      → get (predict clock (ok listed) s).1.results id
        ≡ some (record { forecast = f; generated_at = clock id })
  unfolding predict get
  predict_results laws clock old listed s id f default h follows good e =
      let fed = absorb listed (restart listed s) in
      let here = absorb_any old listed s h follows in
      let frame = fed_frame listed s in
      let filed : IsFiled fed.history =
        subst IsFiled (sym here.content) (replayed-IsFiled listed) in
      let named = fed-Named laws fed (frame.0 ∙ default) filed in
      let made_ok : made fed id ≡ ok f =
        made_by fed id (forecast new_trend_predictor) (add_all listed (new_history_store (pos 16)))
          s.horizon (frame.0 ∙ default) here.content frame.1
        ∙ e in
      elim (recent_known id fed.history) [
        | inl none_yet ↦ absurd (cc (none_yet, here.content, e, forecast_few {F = F} s.horizon))
        | inr (rs, found) ↦
            forecast_workers_store clock fed.history.records fed id rs f named found made_ok good
      ]
