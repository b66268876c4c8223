-- ===== src/Api/Safe.antt =====
-- internal/api/server.go: the entries of the store under any request.
use text.Mathlib.Text.{starts_with}
use aegis_llm_control_plane.Base.{
  ℕ, ◌<◌, ◌^◌, ◌≡◌, refl, sym, subst, String, Bool, true, false, ◌==◌, Option, none, some, arith,
  List,
}
use aegis_llm_control_plane.Base.Int.{Time}
use aegis_llm_control_plane.Base.Float.{Float64}
use aegis_llm_control_plane.Errors.{Error}
use aegis_llm_control_plane.Cluster.Types.{Worker, Workload}
use aegis_llm_control_plane.Cluster.Store.{
  Store, Method, get_worker, get_workload, list_workers, list_workloads, commit_placement,
}
use aegis_llm_control_plane.Cluster.Store.Valid.{
  IsWellFormed, commit_placement-IsWellFormed, register_worker-IsWellFormed,
  update_worker-IsWellFormed, create_workload-IsWellFormed, update_workload-IsWellFormed,
}
use aegis_llm_control_plane.Shared.{Run, Sys, call, Good, Keeps, Keeps-call}
use aegis_llm_control_plane.Scheduler.Service.{Service, schedule_pending}
use aegis_llm_control_plane.Scheduler.Service.Laws.{
  Keeps-service_place_workload, schedule_pending-Good,
}
use aegis_llm_control_plane.Api.{
  choose, schedule, handle_worker, trim_prefix, trim_suffix, has_suffix, Request, Body, Handler,
  refuse, reply, decoded, not_allowed, register, put_worker, create, put_workload, handle_health,
  handle_workers, handle_worker_by_id, handle_workloads, handle_workload, handle_placement_path,
  handle_workload_by_id, scheduled, handle_schedule, serve,
}

module _ {F : Type 0} where
  -- A handler that keeps what the others keep.
  abbrev HoldsOn : (Store F → Type 0) → Handler F → Type 0
  HoldsOn P h = (s : Sys F) → Good P s → Good P (h s).1

  HoldsOn-reply :
      {A : Type 0} (P : Store F → Type 0) (codes : Error → ℕ) (status : ℕ) (body : A → Body F)
      (m : Run F A)
      → Keeps P m
      → HoldsOn P (reply codes status body m)
  unfolding reply
  HoldsOn-reply P codes status body m keep s g = keep s g

  HoldsOn-refuse :
      (P : Store F → Type 0) (status : ℕ) (why : String) → HoldsOn P (refuse status why)
  HoldsOn-refuse P status why s g = g

  HoldsOn-if :
      (P : Store F → Type 0) (b : Bool) (h k : Handler F)
      → HoldsOn P h
      → HoldsOn P k
      → HoldsOn P (choose b h k)
  unfolding choose
  HoldsOn-if P true h k p q = p
  HoldsOn-if P false h k p q = q

  scheduled-store : (r : (List (Workload F) × Option Error) × Sys F) → (scheduled r).1 ≡ r.1
  scheduled-store ((placed, none), s) = refl
  scheduled-store ((placed, some e), s) = refl

module _ {F : Type 0} ⦃fl : Float64 F⦄ where
  get_worker-store : (ctx : Option Error) (id : String) (x : Store F) → (get_worker ctx id x).1 ≡ x
  unfolding get_worker
  get_worker-store ctx id x = ground arith

  get_workload-store :
      (ctx : Option Error) (id : String) (x : Store F) → (get_workload ctx id x).1 ≡ x
  unfolding get_workload
  get_workload-store ctx id x = ground arith

  list_workers-store : (ctx : Option Error) (x : Store F) → (list_workers ctx x).1 ≡ x
  unfolding list_workers
  list_workers-store ctx x = ground arith

  list_workloads-store : (ctx : Option Error) (x : Store F) → (list_workloads ctx x).1 ≡ x
  unfolding list_workloads
  list_workloads-store ctx x = ground arith

  -- A body's worker has a memory in the range of a uint64.
  abbrev pub Fits : Option (Worker F) → Type 0
  Fits none = Unit {0}
  Fits (some w) = w.total_memory_mb < 2 ^ 64

  HoldsOn-worker :
      (o : Option (Worker F)) (h : Worker F → Handler F)
      → Fits o
      → ((w : Worker F) → w.total_memory_mb < 2 ^ 64 → HoldsOn IsWellFormed (h w))
      → HoldsOn IsWellFormed (decoded o h)
  HoldsOn-worker none h f p = HoldsOn-refuse IsWellFormed 400 "invalid request body"
  HoldsOn-worker (some w) h f p = p w f

  HoldsOn-workload :
      (o : Option (Workload F)) (h : Workload F → Handler F)
      → ((w : Workload F) → HoldsOn IsWellFormed (h w))
      → HoldsOn IsWellFormed (decoded o h)
  HoldsOn-workload none h p = HoldsOn-refuse IsWellFormed 400 "invalid request body"
  HoldsOn-workload (some w) h p = p w

  refused : HoldsOn {F = F} IsWellFormed not_allowed
  refused = HoldsOn-refuse IsWellFormed 405 "method not allowed"

  reading :
      {A : Type 0} (codes : Error → ℕ) (body : A → Body F) (m : Option Error → Method F A)
      → ((ctx : Option Error) (x : Store F) → (m ctx x).1 ≡ x)
      → HoldsOn IsWellFormed (reply codes 200 body (call m))
  reading codes body m same =
      HoldsOn-reply IsWellFormed codes 200 body (call m)
        (Keeps-call IsWellFormed m (λ ctx x p. subst IsWellFormed (sym (same ctx x)) p))

  workers-IsWellFormed : (r : Request F) → Fits r.worker → HoldsOn IsWellFormed (handle_workers r)
  unfolding handle_workers register
  workers-IsWellFormed r fits =
      HoldsOn-if IsWellFormed (r.method == "GET") _ _ (reading _ _ list_workers list_workers-store)
        (HoldsOn-if IsWellFormed (r.method == "POST") _ _
          (HoldsOn-worker r.worker register fits λ w f.
            HoldsOn-reply IsWellFormed _ 201 _ _
              (Keeps-call IsWellFormed _ (λ ctx x p. register_worker-IsWellFormed x ctx w f p)))
          refused)

  worker_by_id-IsWellFormed :
      (r : Request F) → Fits r.worker → HoldsOn IsWellFormed (handle_worker_by_id r)
  unfolding handle_worker_by_id handle_worker put_worker
  worker_by_id-IsWellFormed r fits =
      let id = trim_prefix r.path "/v1/workers/" in
      HoldsOn-if IsWellFormed (id == "") _ _
        (HoldsOn-refuse IsWellFormed 400 "worker id is required")
        (HoldsOn-if IsWellFormed (r.method == "GET") _ _
          (reading _ _ (λ ctx. get_worker ctx id) (λ ctx x. get_worker-store ctx id x))
          (HoldsOn-if IsWellFormed (r.method == "PUT") _ _
            (HoldsOn-worker r.worker (put_worker id) fits λ w f.
              HoldsOn-reply IsWellFormed _ 200 _ _ (
                Keeps-call IsWellFormed _
                  (λ ctx x p. update_worker-IsWellFormed x ctx (record w { id = id }) f p)))
            refused))

  workloads-IsWellFormed : (r : Request F) → HoldsOn IsWellFormed (handle_workloads r)
  unfolding handle_workloads create
  workloads-IsWellFormed r =
      HoldsOn-if IsWellFormed (r.method == "GET") _ _
        (reading _ _ list_workloads list_workloads-store)
        (HoldsOn-if IsWellFormed (r.method == "POST") _ _
          (HoldsOn-workload r.workload create λ w.
            HoldsOn-reply IsWellFormed _ 201 _ _
              (Keeps-call IsWellFormed _ (λ ctx x p. create_workload-IsWellFormed x ctx w p)))
          refused)

  workload-IsWellFormed :
      (r : Request F) (id : String) → HoldsOn IsWellFormed (handle_workload r id)
  unfolding handle_workload put_workload
  workload-IsWellFormed r id =
      HoldsOn-if IsWellFormed (id == "") _ _
        (HoldsOn-refuse IsWellFormed 400 "workload id is required")
        (HoldsOn-if IsWellFormed (r.method == "GET") _ _
          (reading _ _ (λ ctx. get_workload ctx id) (λ ctx x. get_workload-store ctx id x))
          (HoldsOn-if IsWellFormed (r.method == "PUT") _ _
            (HoldsOn-workload r.workload (put_workload id) λ w.
              HoldsOn-reply IsWellFormed _ 200 _ _ (
                Keeps-call IsWellFormed _
                  (λ ctx x p. update_workload-IsWellFormed x ctx (record w { id = id }) p)))
            refused))

  committing :
      (ctx : Option Error) (a b : String) (x : Store F)
      → IsWellFormed x
      → IsWellFormed (commit_placement ctx a b x).1
  committing ctx a b x p = commit_placement-IsWellFormed x ctx a b p

  workload_by_id-IsWellFormed :
      (service : Service F) (now : Time) (r : Request F)
      → HoldsOn IsWellFormed (handle_workload_by_id service now r)
  unfolding handle_workload_by_id handle_placement_path
  workload_by_id-IsWellFormed service now r =
      let id = trim_prefix r.path "/v1/workloads/" in
      HoldsOn-if IsWellFormed (has_suffix id "/place") _ _
        (HoldsOn-if IsWellFormed (r.method == "POST") _ _
          (HoldsOn-reply IsWellFormed _ 200 _ _ (
            Keeps-service_place_workload IsWellFormed committing service now
              (trim_suffix id "/place")))
          refused)
        (workload-IsWellFormed r id)

  schedule-IsWellFormed :
      (service : Service F) (now : Time) (r : Request F)
      → HoldsOn IsWellFormed (handle_schedule service now r)
  unfolding handle_schedule schedule
  schedule-IsWellFormed service now r =
      HoldsOn-if IsWellFormed (r.method == "POST") _ _
        (λ s g.
          subst (Good IsWellFormed) (sym (scheduled-store (schedule_pending service now s)))
            (schedule_pending-Good IsWellFormed committing service now s g))
        refused

  -- Any request keeps a store well formed when the others do, whatever its method, path, body and
  -- answer: each worker and workload passes its check and stands under its own ID. The memory in a
  -- worker's body is a uint64.
  pub serve-IsWellFormed :
      (service : Service F) (now : Time) (r : Request F) (s : Sys F)
      → Fits r.worker
      → Good IsWellFormed s
      → Good IsWellFormed (serve service now r s).1
  unfolding serve handle_health
  serve-IsWellFormed service now r s fits =
      HoldsOn-if IsWellFormed (r.path == "/healthz") _ _
        (HoldsOn-if IsWellFormed (r.method == "GET") _ _ (λ t g. g) refused)
        (HoldsOn-if IsWellFormed (r.path == "/v1/workers") _ _ (workers-IsWellFormed r fits) (
          HoldsOn-if IsWellFormed (starts_with r.path "/v1/workers/") _ _
            (worker_by_id-IsWellFormed r fits)
            (HoldsOn-if IsWellFormed (r.path == "/v1/workloads") _ _ (workloads-IsWellFormed r) (
              HoldsOn-if IsWellFormed (starts_with r.path "/v1/workloads/") _ _
                (workload_by_id-IsWellFormed service now r)
                (HoldsOn-if IsWellFormed (r.path == "/v1/schedule") _ _
                  (schedule-IsWellFormed service now r)
                  (HoldsOn-refuse IsWellFormed 404 "404 page not found"))))))
        s
