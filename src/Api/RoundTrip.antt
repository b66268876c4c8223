-- ===== src/Api/RoundTrip.antt =====
-- internal/api/server.go: a worker that is put, and the request that gets it.
use aegis_llm_control_plane.Base.{
  ℕ, ◌≡◌, refl, String, Bool, true, false, ◌==◌, some, arith, Option-cases, inl, inr, if◌then◌else◌,
}
use aegis_llm_control_plane.Base.Dict.{lookup, lookup-insert_own}
use aegis_llm_control_plane.Base.Float.{Float64}
use aegis_llm_control_plane.Errors.{is_worker_not_found, worker_not_found}
use aegis_llm_control_plane.Cluster.Validation.{validate_worker}
use aegis_llm_control_plane.Cluster.Types.{Worker}
use aegis_llm_control_plane.Cluster.Store.{Store, get_worker, update_worker}
use aegis_llm_control_plane.Shared.{call, alone}
use aegis_llm_control_plane.Api.{choose, handle_worker, Request, one_worker, reply, put_worker}

module _ {F : Type 0} ⦃fl : Float64 F⦄ where
  -- A PUT of a worker under an ID that is not empty, answered with status 200 while nobody else
  -- acts, leaves what the next GET of that ID returns: the worker of the body with the ID of the
  -- path. The GET changes nothing.
  pub put_get :
      (r : Request F) (id : String) (w : Worker F) (x : Store F)
      → (id == "") ≡ false
      → r.method ≡ "PUT"
      → r.worker ≡ some w
      → (handle_worker r id (alone x)).0.status ≡ 200
      → handle_worker (record r { method = "GET" }) id (handle_worker r id (alone x)).1 ≡ (
        record { status = 200; body = one_worker (record w { id = id }) },
        (handle_worker r id (alone x)).1,
      )
  unfolding handle_worker choose put_worker reply call update_worker get_worker
  put_get r id w x named method body good =
      elim (Option-cases (validate_worker (record w { id = id }))) [
        | inr (e, bad) ↦
            absurd (not_200 (is_worker_not_found e) (rw (named, method, body, bad) at good))
        | inl fine ↦ elim (Option-cases (lookup id x.workers)) [
          | inl gone ↦ absurd (
              not_200 (is_worker_not_found (worker_not_found id))
                (rw (named, method, body, fine, gone) at good))
          | inr (old, found) ↦
              rw
                (
                  named,
                  method,
                  body,
                  fine,
                  found,
                  lookup-insert_own id id (record w { id = id }) x.workers refl,
                )
                refl
        ]
      ]
    where
      not_200 : (b : Bool) → ◌≡◌ {A = ℕ} (if b then 404 else 400) 200 → ⊥
      not_200 true h = omega arith
      not_200 false h = omega arith
