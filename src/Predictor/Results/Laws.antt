-- ===== src/Predictor/Results/Laws.antt =====
-- internal/predictor/result_store.go: reads after writes.
use aegis_llm_control_plane.Base.{◌≡◌, String, not, ◌&&◌, ◌==◌, some, if◌then◌else◌, arith}
use aegis_llm_control_plane.Base.Dict.{lookup-insert}
use aegis_llm_control_plane.Predictor.Types.{Prediction}
use aegis_llm_control_plane.Predictor.Results.{ResultStore, set, get}

-- After a prediction is stored, a reader finds it under its own worker, if that has a name, and
-- finds under every other worker what was there.
pub get-set :
    {F : Type 0} (r : Prediction F) (s : ResultStore F) (id : String)
    → get (set r s) id ≡ (
        if not (r.forecast.worker_id == "") && r.forecast.worker_id == id then some r else get s id)
unfolding get set
get-set r s id = ground (arith, lookup-insert r.forecast.worker_id id r s)
