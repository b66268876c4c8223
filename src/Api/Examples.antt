-- ===== src/Api/Examples.antt =====
-- The theorems on requests at examples.
use aegis_llm_control_plane.Base.{◌≡◌, refl, arith, none, some}
use aegis_llm_control_plane.Base.Dict.{lookup, insert}
use aegis_llm_control_plane.Base.Int.{seconds}
use aegis_llm_control_plane.Base.Float.{Whole, whole_float}
use aegis_llm_control_plane.Errors.{is_worker_already_exists}
use aegis_llm_control_plane.Cluster.Validation.{
  validate_worker, validate_workload, validate_demand, validate_lifecycle,
}
use aegis_llm_control_plane.Cluster.Store.{register_worker, create_workload, update_worker}
use aegis_llm_control_plane.Cluster.Store.Valid.{IsWellFormed}
use aegis_llm_control_plane.Cluster.Examples.{example_store, example-IsSound, worker_a}
use aegis_llm_control_plane.Shared.{call, alone, Good}
use aegis_llm_control_plane.Scheduler.Service.{new_service}
use aegis_llm_control_plane.Api.{
  Request, one_worker, choose, reply, register, put_worker, handle_workers, handle_worker, serve,
}
use aegis_llm_control_plane.Api.Laws.{serve_refuses}
use aegis_llm_control_plane.Api.RoundTrip.{put_get}
use aegis_llm_control_plane.Api.Safe.{serve-IsWellFormed}

-- A worker that is registered a second time.
abbrev again : Request Whole
again = record { method = "POST"; path = "/v1/workers"; worker = some worker_a; workload = none }

serve_refuses_example :
    (serve new_service (seconds 1) again (alone example_store)).1 ≡ alone example_store
unfolding serve choose handle_workers register reply call register_worker create_workload lookup
    insert validate_worker validate_workload validate_demand validate_lifecycle
    is_worker_already_exists
serve_refuses_example = serve_refuses new_service (seconds 1) again example_store refl (omega arith)

serve-IsWellFormed_example :
    Good IsWellFormed (serve new_service (seconds 1) again (alone example_store)).1
serve-IsWellFormed_example =
    serve-IsWellFormed new_service (seconds 1) again (alone example_store) (omega arith)
      (example-IsSound.well_formed, tt)

abbrev put_a : Request Whole
put_a = record again { method = "PUT"; path = "/v1/workers/a" }

put_get_example :
    handle_worker
      (record put_a { method = "GET" })
      "a"
      (handle_worker put_a "a" (alone example_store)).1
    ≡ (
      record { status = 200; body = one_worker (record worker_a { id = "a" }) },
      (handle_worker put_a "a" (alone example_store)).1,
    )
unfolding choose handle_worker put_worker reply call update_worker register_worker create_workload
    lookup insert validate_worker validate_workload validate_demand validate_lifecycle
put_get_example = put_get put_a "a" worker_a example_store refl refl refl refl
