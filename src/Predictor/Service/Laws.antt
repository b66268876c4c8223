-- ===== src/Predictor/Service/Laws.antt =====
-- internal/predictor/service.go: the passes against one reading of the whole listing, and what a
-- pass stores.
use aegis_llm_control_plane.Base.{
  ◌<◌, ◌≡◌, ◌⊎◌, inl, inr, refl, sym, subst, ◌∙◌, String, true, false, List, [], ◌∷◌, ◌++◌, ok, err,
  ltb, length, length-append, drop, arith, proceed,
}
use aegis_llm_control_plane.Base.Int.{pos, Time}
use aegis_llm_control_plane.Errors.{Outcome}
use aegis_llm_control_plane.Telemetry.Types.{Record}
use aegis_llm_control_plane.Predictor.Types.{Forecast}
use aegis_llm_control_plane.Predictor.History.{HistoryStore, new_history_store, recent, worker_ids}
use aegis_llm_control_plane.Predictor.Service.{
  Service, restart, add_all, absorb, keep_forecast, forecast_worker, forecast_workers, predict,
}

drop_prefix : {A : Type 0} (xs ys : List A) → drop (length xs) (xs ++ ys) ≡ ys
drop_prefix [] ys = refl
drop_prefix (x ∷ xs) ys = drop_prefix xs ys

module _ {F : Type 0} where
  add_all-append :
      (xs ys : List (Record F)) (h : HistoryStore F)
      → add_all (xs ++ ys) h ≡ add_all ys (add_all xs h)
  unfolding add_all
  add_all-append [] ys h = refl
  add_all-append (x ∷ xs) ys h = add_all-append xs ys _

  -- The service stands where one reading of the whole listing would have put it.
  pub record Replays (s : Service F) (listed : List (Record F)) : Type 0 where
    pub count : s.processed_records ≡ length listed
    pub content : s.history ≡ add_all listed (new_history_store (pos 16))

  -- What the forecasts of a pass leave as it was.
  abbrev Still : Service F → Service F → Type 0
  Still s t = (t.processed_records ≡ s.processed_records) × (t.history ≡ s.history)

  keep_forecast-Still :
      (clock : String → Time) (id : String) (r : Outcome (Forecast F)) (s : Service F)
      → Still s (keep_forecast clock id r s).1
  keep_forecast-Still clock id (ok f) s = (refl, refl)
  keep_forecast-Still clock id (err e) s = (refl, refl)

  proceed-Still :
      (clock : String → Time) (ids : List String) (s : Service F)
      (r : Outcome (Unit {0}) × Service F)
      → Still s r.1
      → Still s (forecast_workers clock ids r.1).1
      → Still s (proceed r.0 (λ _. forecast_workers clock ids) r.1).1
  proceed-Still clock ids s (ok u, t) h k = k
  proceed-Still clock ids s (err e, t) h k = h

  forecast_workers-Still :
      (clock : String → Time) (ids : List String) (s : Service F)
      → Still s (forecast_workers clock ids s).1
  unfolding forecast_workers forecast_worker
  forecast_workers-Still clock [] s = (refl, refl)
  forecast_workers-Still clock (id ∷ ids) s =
      let r = forecast_worker clock id s in
      let first =
        keep_forecast-Still clock id (s.forecaster (recent id (pos 16) s.history) s.horizon) s in
      let others = forecast_workers-Still clock ids r.1 in
      proceed-Still clock ids s r first (others.0 ∙ first.0, others.1 ∙ first.1)

  absorb-Replays :
      (old more : List (Record F)) (s : Service F)
      → Replays s old
      → Replays (absorb (old ++ more) (restart (old ++ more) s)) (old ++ more)
  unfolding absorb restart
  absorb-Replays old more s h =
      let grown : ltb (length (old ++ more)) s.processed_records ≡ false =
        ground (arith, h.count, length-append {0} old more) in
      rw grown (record {
        count = refl;
        content = rw (h.count, drop_prefix old more, h.content) (sym (add_all-append old more _));
      })

  restart-Replays :
      (old listed : List (Record F)) (s : Service F)
      → Replays s old
      → length listed < length old
      → Replays (absorb listed (restart listed s)) listed
  unfolding absorb restart
  restart-Replays old listed s h less =
      let shorter : ltb (length listed) s.processed_records ≡ true = ground (arith, h.count) in
      rw shorter (record { count = refl; content = refl })

  predict-Still :
      (clock : String → Time) (listed : List (Record F)) (s : Service F)
      → Replays (absorb listed (restart listed s)) listed
      → Replays (predict clock (ok listed) s).1 listed
  unfolding predict
  predict-Still clock listed s h =
      let fed = absorb listed (restart listed s) in
      let still = forecast_workers-Still clock (worker_ids fed.history) fed in
      record { count = still.0 ∙ h.count; content = still.1 ∙ h.content }

  -- A listing that extends the last one, or that is shorter than it.
  abbrev pub Follows : List (Record F) → List (Record F) → Type 0
  Follows old listed =
      ((more : List (Record F)) × (listed ≡ old ++ more)) ⊎ (length listed < length old)

  pub absorb_any :
      (old listed : List (Record F)) (s : Service F)
      → Replays s old
      → Follows old listed
      → Replays (absorb listed (restart listed s)) listed
  absorb_any old listed s h (inl (more, e)) =
      subst (λ l. Replays (absorb l (restart l s)) l) (sym e) (absorb-Replays old more s h)
  absorb_any old listed s h (inr less) = restart-Replays old listed s h less

  -- The passes refine one reading of the listing. After a pass over a listing that extends the last
  -- one, or that is shorter than it, the history is what a new history holds when all the records
  -- listed are added to it in order, and their number is the count of processed records, whatever
  -- the forecasts returned.
  pub predict-Replays :
      (clock : String → Time) (old listed : List (Record F)) (s : Service F)
      → Replays s old
      → Follows old listed
      → Replays (predict clock (ok listed) s).1 listed
  predict-Replays clock old listed s h follows =
      predict-Still clock listed s (absorb_any old listed s h follows)
