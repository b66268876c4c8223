-- ===== src/Api/Laws.antt =====
-- internal/api/server.go: what a request that is answered with an error leaves behind.
use text.Mathlib.Text.{starts_with}
use aegis_llm_control_plane.Base.{
  ℕ, ◌≤◌, ◌<◌, ◌≡◌, refl, String, Bool, true, false, ◌==◌, Option, none, some, ok, err, Result,
  arith,
}
use aegis_llm_control_plane.Base.Int.{Time}
use aegis_llm_control_plane.Base.Float.{Float64}
use aegis_llm_control_plane.Errors.{Error}
use aegis_llm_control_plane.Cluster.Types.{Worker, Workload}
use aegis_llm_control_plane.Cluster.Store.{
  Store, Method, get_worker, get_workload, list_workers, list_workloads, register_worker,
  update_worker, create_workload, update_workload,
}
use aegis_llm_control_plane.Shared.{Run, Sys, call, alone, Spares, Spares-call, Reads-call}
use aegis_llm_control_plane.Scheduler.Service.{Service}
use aegis_llm_control_plane.Scheduler.Service.Alone.{Spares-service_place_workload}
use aegis_llm_control_plane.Api.{
  choose, healthy, handle_worker, trim_prefix, trim_suffix, has_suffix, Request, Body, Handler,
  refuse, answer, reply, decoded, not_allowed, register, put_worker, create, put_workload,
  handle_health, handle_workers, handle_worker_by_id, handle_workloads, handle_workload,
  handle_placement_path, handle_workload_by_id, serve,
}

module _ {F : Type 0} where
  -- A handler that changes nothing when its answer is an error.
  abbrev Refuses : Handler F → Type 0
  Refuses h = (x : Store F) → 400 ≤ (h (alone x)).0.status → (h (alone x)).1 ≡ alone x

  Refuses-answer :
      {A : Type 0} (codes : Error → ℕ) (status : ℕ) (body : A → Body F) (r : Result Error A)
      (s : Sys F) (x : Store F)
      → status < 400
      → ((e : Error) → r ≡ err e → s ≡ alone x)
      → 400 ≤ (answer codes status body r).status
      → s ≡ alone x
  Refuses-answer codes status body (ok a) s x good h bad = absurd (omega arith)
  Refuses-answer codes status body (err e) s x good h bad = h e refl

  Refuses-reply :
      {A : Type 0} (codes : Error → ℕ) (status : ℕ) (body : A → Body F) (m : Run F A)
      → status < 400
      → Spares m
      → Refuses (reply codes status body m)
  unfolding reply
  Refuses-reply codes status body m good spares x bad =
      Refuses-answer codes status body (m (alone x)).0 (m (alone x)).1 x good (spares x) bad

  Refuses-refuse : (status : ℕ) (message : String) → Refuses (refuse status message)
  Refuses-refuse status message x bad = refl

  Refuses-if : (b : Bool) (h k : Handler F) → Refuses h → Refuses k → Refuses (choose b h k)
  unfolding choose
  Refuses-if true h k p q = p
  Refuses-if false h k p q = q

  -- A test that fails.
  Refuses-other : {b : Bool} (h k : Handler F) → b ≡ false → Refuses k → Refuses (choose b h k)
  unfolding choose
  Refuses-other h k e q x = rw e (q x)

  Refuses-decoded :
      {A : Type 0} (o : Option A) (h : A → Handler F)
      → ((a : A) → Refuses (h a))
      → Refuses (decoded o h)
  Refuses-decoded none h p = Refuses-refuse 400 "invalid request body"
  Refuses-decoded (some a) h p = p a

  -- A handler of a call that only reads.
  Refuses-reading :
      {A : Type 0} (codes : Error → ℕ) (body : A → Body F) (m : Option Error → Method F A)
      → ((x : Store F) → (m none x).1 ≡ x)
      → Refuses (reply codes 200 body (call m))
  Refuses-reading codes body m same =
      Refuses-reply codes 200 body (call m) (omega arith) (λ x e k. Reads-call m same x)

module _ {F : Type 0} ⦃fl : Float64 F⦄ where
  Spares-register : (w : Worker F) → Spares (call (λ ctx. register_worker ctx w))
  unfolding register_worker
  Spares-register w = Spares-call _ (λ x e h. ground arith)

  Spares-update_worker : (w : Worker F) → Spares (call (λ ctx. update_worker ctx w))
  unfolding update_worker
  Spares-update_worker w = Spares-call _ (λ x e h. ground arith)

  Spares-create : (w : Workload F) → Spares (call (λ ctx. create_workload ctx w))
  unfolding create_workload
  Spares-create w = Spares-call _ (λ x e h. ground arith)

  Spares-update_workload : (w : Workload F) → Spares (call (λ ctx. update_workload ctx w))
  unfolding update_workload
  Spares-update_workload w = Spares-call _ (λ x e h. ground arith)

  list_workers_reads : (x : Store F) → (list_workers none x).1 ≡ x
  unfolding list_workers
  list_workers_reads x = refl

  list_workloads_reads : (x : Store F) → (list_workloads none x).1 ≡ x
  unfolding list_workloads
  list_workloads_reads x = refl

  get_worker_reads : (id : String) (x : Store F) → (get_worker none id x).1 ≡ x
  unfolding get_worker
  get_worker_reads id x = ground arith

  get_workload_reads : (id : String) (x : Store F) → (get_workload none id x).1 ≡ x
  unfolding get_workload
  get_workload_reads id x = ground arith

  Refuses-health : (r : Request F) → Refuses (handle_health r)
  unfolding handle_health
  Refuses-health r =
      Refuses-if (r.method == "GET") healthy not_allowed (λ x bad. refl)
        (Refuses-refuse 405 "method not allowed")

  Refuses-workers : (r : Request F) → Refuses (handle_workers r)
  unfolding handle_workers register
  Refuses-workers r =
      Refuses-if (r.method == "GET") _ _ (Refuses-reading _ _ list_workers list_workers_reads) (
        Refuses-if (r.method == "POST") _ _
          (Refuses-decoded r.worker register
            λ w. Refuses-reply _ 201 _ _ (omega arith) (Spares-register w))
          (Refuses-refuse 405 "method not allowed"))

  Refuses-worker_by_id : (r : Request F) → Refuses (handle_worker_by_id r)
  unfolding handle_worker_by_id handle_worker put_worker
  Refuses-worker_by_id r =
      let id = trim_prefix r.path "/v1/workers/" in
      Refuses-if (id == "") _ _ (Refuses-refuse 400 "worker id is required") (
        Refuses-if (r.method == "GET") _ _
          (Refuses-reading _ _ (λ ctx. get_worker ctx id) (get_worker_reads id))
          (Refuses-if (r.method == "PUT") _ _
            (Refuses-decoded r.worker (put_worker id) λ w.
              Refuses-reply _ 200 _ _ (omega arith) (Spares-update_worker (record w { id = id })))
            (Refuses-refuse 405 "method not allowed")))

  Refuses-workloads : (r : Request F) → Refuses (handle_workloads r)
  unfolding handle_workloads create
  Refuses-workloads r =
      Refuses-if (r.method == "GET") _ _ (Refuses-reading _ _ list_workloads list_workloads_reads) (
        Refuses-if (r.method == "POST") _ _
          (Refuses-decoded r.workload create
            λ w. Refuses-reply _ 201 _ _ (omega arith) (Spares-create w))
          (Refuses-refuse 405 "method not allowed"))

  Refuses-workload : (r : Request F) (id : String) → Refuses (handle_workload r id)
  unfolding handle_workload put_workload
  Refuses-workload r id = Refuses-if (id == "") _ _ (Refuses-refuse 400 "workload id is required") (
      Refuses-if (r.method == "GET") _ _
        (Refuses-reading _ _ (λ ctx. get_workload ctx id) (get_workload_reads id))
        (Refuses-if (r.method == "PUT") _ _
          (Refuses-decoded r.workload (put_workload id) λ w.
            Refuses-reply _ 200 _ _ (omega arith) (Spares-update_workload (record w { id = id })))
          (Refuses-refuse 405 "method not allowed")))

  Refuses-workload_by_id :
      (service : Service F) (now : Time) (r : Request F)
      → Refuses (handle_workload_by_id service now r)
  unfolding handle_workload_by_id handle_placement_path
  Refuses-workload_by_id service now r =
      let id = trim_prefix r.path "/v1/workloads/" in
      Refuses-if (has_suffix id "/place") _ _
        (Refuses-if (r.method == "POST") _ _
          (Refuses-reply _ 200 _ _ (omega arith)
            (Spares-service_place_workload service now (trim_suffix id "/place")))
          (Refuses-refuse 405 "method not allowed"))
        (Refuses-workload r id)

  -- A request outside of the path of scheduling passes, which is answered with a status of 400 or
  -- more while nobody else acts on the store, has changed nothing: a refused method, a body that
  -- does not decode, a failed check, a name that is taken or missing and a placement that fails
  -- leave the store as it was.
  pub serve_refuses :
      (service : Service F) (now : Time) (r : Request F) (x : Store F)
      → (r.path == "/v1/schedule") ≡ false
      → 400 ≤ (serve service now r (alone x)).0.status
      → (serve service now r (alone x)).1 ≡ alone x
  unfolding serve
  serve_refuses service now r x other =
      Refuses-if (r.path == "/healthz") _ _ (Refuses-health r)
        (Refuses-if (r.path == "/v1/workers") _ _ (Refuses-workers r) (
          Refuses-if (starts_with r.path "/v1/workers/") _ _ (Refuses-worker_by_id r) (
            Refuses-if (r.path == "/v1/workloads") _ _ (Refuses-workloads r) (
              Refuses-if (starts_with r.path "/v1/workloads/") _ _
                (Refuses-workload_by_id service now r)
                (Refuses-other _ _ other (Refuses-refuse 404 "404 page not found"))))))
        x
