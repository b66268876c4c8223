-- ===== src/Predictor/Service/Fed.antt =====
-- internal/telemetry/collector.go and internal/predictor/service.go: a collection and the pass that
-- reads it.
use aegis_llm_control_plane.Base.{none, inl, inr, String}
use aegis_llm_control_plane.Base.Int.{Time}
use aegis_llm_control_plane.Base.Float.{Float64}
use aegis_llm_control_plane.Cluster.Types.{Snapshot}
use aegis_llm_control_plane.Telemetry.Memory.{InMemoryStore, in_memory, list}
use aegis_llm_control_plane.Telemetry.Collector.{Calls, record_snapshot}
use aegis_llm_control_plane.Telemetry.Collector.Laws.{record_snapshot-Appends}
use aegis_llm_control_plane.Predictor.Service.{Service, predict}
use aegis_llm_control_plane.Predictor.Service.Laws.{Replays, Follows, predict-Replays}

module _ {F : Type 0} ⦃fl : Float64 F⦄ where
  collected-Follows :
      (snapshot : Snapshot F) (timestamp : Time) (c : Calls (InMemoryStore F))
      → Follows c.store (record_snapshot in_memory snapshot timestamp c).1.store
  collected-Follows snapshot timestamp c = elim (record_snapshot-Appends snapshot timestamp c) [
    | inl (_, e, _) ↦ inl (_, e)
    | inr (_, done, _, _, (_, _, e, _, _)) ↦ inl (done, e)
  ]

  -- The collector and the prediction service together: when the service stands where one reading
  -- of the record store would have put it, it stands so again after the collector recorded a
  -- snapshot, wholly or up to a call that its context refused, and the service made a pass over
  -- what the store then lists.
  pub collected-Replays :
      (clock : String → Time) (snapshot : Snapshot F) (timestamp : Time)
      (c : Calls (InMemoryStore F)) (s : Service F)
      → Replays s c.store
      → Replays
          (predict clock (list none (record_snapshot in_memory snapshot timestamp c).1.store).0 s).1
          (record_snapshot in_memory snapshot timestamp c).1.store
  unfolding list
  collected-Replays clock snapshot timestamp c s h =
      predict-Replays clock c.store (record_snapshot in_memory snapshot timestamp c).1.store s h
        (collected-Follows snapshot timestamp c)
