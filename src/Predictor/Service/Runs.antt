-- ===== src/Predictor/Service/Runs.antt =====
-- internal/predictor/service.go: the service over all its passes, with one log that it reads.
use aegis_llm_control_plane.Base.{
  ◌≡◌, inl, inr, refl, sym, ap, ◌∙◌, subst, String, List, [], ◌∷◌, ◌++◌, ok, err, arith, Bool-cases,
}
use aegis_llm_control_plane.Base.Int.{pos, le_int, Time}
use aegis_llm_control_plane.Errors.{Outcome}
use aegis_llm_control_plane.Ticker.{Event, Brings, run_loop-keeps_if}
use aegis_llm_control_plane.Telemetry.Types.{Record}
use aegis_llm_control_plane.Predictor.Service.{Service, predict, run}
use aegis_llm_control_plane.Predictor.Service.Laws.{Replays, Follows, predict-Replays}

module _ {F : Type 0} where
  abbrev pub IsPrefix : List (Record F) → List (Record F) → Type 0
  IsPrefix listed log = (rest : List (Record F)) × (log ≡ listed ++ rest)

  -- What the store's `List` returns: the log as far as it is written, or an error.
  abbrev pub Reads : List (Record F) → Outcome (List (Record F)) → Type 0
  Reads log (ok listed) = IsPrefix listed log
  Reads log (err e) = Unit {0}

  Follows-cons :
      (r : Record F) (old listed : List (Record F))
      → Follows old listed
      → Follows (r ∷ old) (r ∷ listed)
  Follows-cons r old listed (inl (more, e)) = inl (more, ap (λ l. r ∷ l) e)
  Follows-cons r old listed (inr less) = inr (omega (arith, less))

  -- Of two readings of a log the second extends the first or is shorter.
  Follows-prefixes :
      (old listed a b : List (Record F)) → old ++ a ≡ listed ++ b → Follows old listed
  Follows-prefixes [] listed a b e = inl (listed, refl)
  Follows-prefixes (r ∷ old) [] a b e = inr (omega arith)
  Follows-prefixes (r ∷ old) (x ∷ listed) a b e =
      subst (λ y. Follows (r ∷ old) (y ∷ listed)) (cc e)
        (Follows-cons r old listed (Follows-prefixes old listed a b (cc e)))

  -- The service stands where one reading of a part of the log would have put it.
  abbrev pub ReplaysPart : List (Record F) → Service F → Type 0
  ReplaysPart log s = (listed : List (Record F)) × (IsPrefix listed log × Replays s listed)

  predict-ReplaysPart :
      (clock : String → Time) (log : List (Record F)) (r : Outcome (List (Record F)))
      (s : Service F)
      → Reads log r
      → ReplaysPart log s
      → ReplaysPart log (predict clock r s).1
  unfolding predict
  predict-ReplaysPart clock log (err e) s reads h = h
  predict-ReplaysPart clock log (ok listed) s (rest, e) (old, ((after, e'), h)) = (
    listed,
    (
      (rest, e),
      predict-Replays clock old listed s h (Follows-prefixes old listed after rest (sym e' ∙ e)),
    ),
  )

  -- Over its whole run the service refines one reading of a log. When each pass is given a part of
  -- one log from its start, of whatever length, or an error of the record store, then at the end of
  -- the run, or where it is left waiting, the history is what a new history holds when the records
  -- of such a part are added to it in order, and their number is the count of processed records.
  pub run-ReplaysPart :
      (log : List (Record F)) (events : List (Event (Outcome (List (Record F)) × (String → Time))))
      (s : Service F)
      → Brings (λ t. Reads log t.0) events
      → ReplaysPart log s
      → ReplaysPart log (run events s).1
  unfolding run
  run-ReplaysPart log events s reads h = elim (Bool-cases (le_int s.interval (pos 0))) [
    | inl t ↦ rw t h
    | inr t ↦ rw t (elim (Bool-cases (le_int s.horizon (pos 0))) [
      | inl u ↦ rw u h
      | inr u ↦ rw u (
          run_loop-keeps_if (ReplaysPart log) (λ x. Reads log x.0) (λ x. predict x.1 x.0) events
            (λ x v. predict-ReplaysPart x.1 log x.0 v) reads s h)
    ])
  ]
