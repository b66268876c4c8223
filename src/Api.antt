-- ===== src/Api.antt =====
-- internal/api/server.go: the handlers of the HTTP server. A request is its method, its path and
-- what encoding/json makes of its body; a response is its status and the value that is encoded.
-- A handler runs against the store like every other goroutine. Paths are clean: what net/http
-- redirects does not come here.
pub mod Laws
pub mod RoundTrip
pub mod Safe
pub mod Examples
use Prim.Native.String.{◌++◌, len, slice}
use text.Mathlib.Text.{starts_with}
use aegis_llm_control_plane.Base.{
  ℕ, ◌-◌, String, Bool, ◌&&◌, leb, ◌==◌, List, Option, none, some, ok, err, Result, if◌then◌else◌,
}
use aegis_llm_control_plane.Base.Int.{Time}
use aegis_llm_control_plane.Base.Float.{Float64}
use aegis_llm_control_plane.Errors.{
  Error, is_worker_not_found, is_worker_already_exists, is_workload_not_found,
  is_workload_already_exists, is_no_eligible_worker,
}
use aegis_llm_control_plane.Cluster.Types.{Worker, Workload}
use aegis_llm_control_plane.Cluster.Store.{
  get_worker, get_workload, list_workers, list_workloads, register_worker, update_worker,
  create_workload, update_workload,
}
use aegis_llm_control_plane.Shared.{Run, Sys, call}
use aegis_llm_control_plane.Scheduler.Service.{Service, service_place_workload, schedule_pending}

-- `none` is a body that does not decode.
pub record Request (F : Type 0) : Type 0 where
  pub method : String
  pub path : String
  pub worker : Option (Worker F)
  pub workload : Option (Workload F)

pub data Message : Type 0 where
  message : String → Message
  of_error : Error → Message

pub data Body (F : Type 0) : Type 0 where
  health : Body F
  failure : Message → Body F
  one_worker : Worker F → Body F
  all_workers : List (Worker F) → Body F
  one_workload : Workload F → Body F
  all_workloads : List (Workload F) → Body F

pub record Response (F : Type 0) : Type 0 where
  pub status : ℕ
  pub body : Body F

abbrev pub Handler : Type 0 → Type 0
Handler F = Sys F → Response F × Sys F

-- `strings.TrimPrefix`, `strings.HasSuffix` and `strings.TrimSuffix`
unfoldable pub trim_prefix : String → String → String
trim_prefix s p = if starts_with s p then slice s (len p) (len s) else s

unfoldable pub has_suffix : String → String → Bool
has_suffix s t = leb (len t) (len s) && slice s (len s - len t) (len s) == t

unfoldable pub trim_suffix : String → String → String
trim_suffix s t = if has_suffix s t then slice s 0 (len s - len t) else s

module _ {F : Type 0} where
  abbrev pub write_error : ℕ → Message → Response F
  write_error status why = record { status = status; body = failure why }

  abbrev pub refuse : ℕ → String → Handler F
  refuse status why s = (write_error status (message why), s)

  -- What a call of the store or the scheduler returned: its value with the status, or its error
  -- with the status of the error.
  abbrev pub answer : {A : Type 0} → (Error → ℕ) → ℕ → (A → Body F) → Result Error A → Response F
  answer codes status body (ok a) = record { status = status; body = body a }
  answer codes status body (err e) = write_error (codes e) (of_error e)

  unfoldable pub reply : {A : Type 0} → (Error → ℕ) → ℕ → (A → Body F) → Run F A → Handler F
  reply codes status body m s = let p = m s in (answer codes status body p.0, p.1)

  -- What a pass returned.
  abbrev pub scheduled : {S : Type 0} → (List (Workload F) × Option Error) × S → Response F × S
  scheduled ((placed, none), s) = (record { status = 200; body = all_workloads placed }, s)
  scheduled ((placed, some e), s) = (write_error 500 (of_error e), s)

  -- The decoding of the body, which comes first.
  abbrev pub decoded : {A : Type 0} → Option A → (A → Handler F) → Handler F
  decoded none handle = refuse 400 "invalid request body"
  decoded (some a) handle = handle a

  -- A test of the request; `switch` is a row of them.
  unfoldable pub choose : Bool → Handler F → Handler F → Handler F
  choose b h k s = if b then h s else k s

  abbrev pub not_allowed : Handler F
  not_allowed = refuse 405 "method not allowed"

-- The statuses of errors.
abbrev pub internal : Error → ℕ
internal e = 500

abbrev pub on_create_worker : Error → ℕ
on_create_worker e = if is_worker_already_exists e then 409 else 400

abbrev pub on_get_worker : Error → ℕ
on_get_worker e = if is_worker_not_found e then 404 else 500

abbrev pub on_put_worker : Error → ℕ
on_put_worker e = if is_worker_not_found e then 404 else 400

abbrev pub on_create_workload : Error → ℕ
on_create_workload e = if is_workload_already_exists e then 409 else 400

abbrev pub on_get_workload : Error → ℕ
on_get_workload e = if is_workload_not_found e then 404 else 500

abbrev pub on_put_workload : Error → ℕ
on_put_workload e = if is_workload_not_found e then 404 else 400

abbrev pub on_place : Error → ℕ
on_place e = if is_workload_not_found e then 404 else if is_no_eligible_worker e then 409 else 400

module _ {F : Type 0} ⦃fl : Float64 F⦄ where
  abbrev pub healthy : Handler F
  healthy s = (record { status = 200; body = health }, s)

  unfoldable pub handle_health : Request F → Handler F
  handle_health r = choose (r.method == "GET") healthy not_allowed

  unfoldable pub register : Worker F → Handler F
  register worker =
      reply on_create_worker 201 (λ _. one_worker worker) (call (λ ctx. register_worker ctx worker))

  unfoldable pub handle_workers : Request F → Handler F
  handle_workers r =
      choose (r.method == "GET") (reply internal 200 all_workers (call list_workers))
        (choose (r.method == "POST") (decoded r.worker register) not_allowed)

  -- The ID of the path replaces that of the body.
  unfoldable pub put_worker : String → Worker F → Handler F
  put_worker worker_id body =
      let worker = record body { id = worker_id } in
      reply on_put_worker 200 (λ _. one_worker worker) (call (λ ctx. update_worker ctx worker))

  -- `handleWorkerByID` past its first line.
  unfoldable pub handle_worker : Request F → String → Handler F
  handle_worker r worker_id = choose (worker_id == "") (refuse 400 "worker id is required") (
      choose (r.method == "GET")
        (reply on_get_worker 200 one_worker (call (λ ctx. get_worker ctx worker_id)))
        (choose (r.method == "PUT") (decoded r.worker (put_worker worker_id)) not_allowed))

  unfoldable pub handle_worker_by_id : Request F → Handler F
  handle_worker_by_id r = handle_worker r (trim_prefix r.path "/v1/workers/")

  unfoldable pub create : Workload F → Handler F
  create workload =
      reply on_create_workload 201 (λ _. one_workload workload)
        (call (λ ctx. create_workload ctx workload))

  unfoldable pub handle_workloads : Request F → Handler F
  handle_workloads r =
      choose (r.method == "GET") (reply internal 200 all_workloads (call list_workloads))
        (choose (r.method == "POST") (decoded r.workload create) not_allowed)

  unfoldable pub put_workload : String → Workload F → Handler F
  put_workload workload_id body =
      let workload = record body { id = workload_id } in
      reply on_put_workload 200 (λ _. one_workload workload)
        (call (λ ctx. update_workload ctx workload))

  -- `now` is the clock at the decision.
  unfoldable pub handle_placement_path : Service F → Time → Request F → String → Handler F
  handle_placement_path scheduler now r workload_id =
      choose (r.method == "POST")
        (reply on_place 200 one_workload (service_place_workload scheduler now workload_id))
        not_allowed

  -- `handleWorkloadByID` past its test of the suffix.
  unfoldable pub handle_workload : Request F → String → Handler F
  handle_workload r workload_id =
      choose (workload_id == "") (refuse 400 "workload id is required") (
        choose (r.method == "GET")
          (reply on_get_workload 200 one_workload (call (λ ctx. get_workload ctx workload_id)))
          (choose (r.method == "PUT") (decoded r.workload (put_workload workload_id)) not_allowed))

  unfoldable pub handle_workload_by_id : Service F → Time → Request F → Handler F
  handle_workload_by_id scheduler now r =
      let workload_id = trim_prefix r.path "/v1/workloads/" in
      choose (has_suffix workload_id "/place")
        (handle_placement_path scheduler now r (trim_suffix workload_id "/place"))
        (handle_workload r workload_id)

  unfoldable pub schedule : Service F → Time → Handler F
  schedule scheduler now s = scheduled (schedule_pending scheduler now s)

  unfoldable pub handle_schedule : Service F → Time → Request F → Handler F
  handle_schedule scheduler now r = choose (r.method == "POST") (schedule scheduler now) not_allowed

  -- The routes that are registered, and what net/http answers for any other path.
  unfoldable pub serve : Service F → Time → Request F → Handler F
  serve scheduler now r = choose (r.path == "/healthz") (handle_health r) (
      choose (r.path == "/v1/workers") (handle_workers r) (
        choose (starts_with r.path "/v1/workers/") (handle_worker_by_id r) (
          choose (r.path == "/v1/workloads") (handle_workloads r) (
            choose (starts_with r.path "/v1/workloads/") (handle_workload_by_id scheduler now r) (
              choose (r.path == "/v1/schedule") (handle_schedule scheduler now r)
                (refuse 404 "404 page not found"))))))
