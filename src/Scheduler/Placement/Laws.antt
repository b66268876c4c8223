-- ===== src/Scheduler/Placement/Laws.antt =====
-- internal/scheduler: a placement against a store that others change.
use aegis_llm_control_plane.Base.{
  ◌≡◌, refl, sym, ◌∙◌, subst, ap, String, List, [], Option, none, some, ok, ◌>>=◌, lift, bind_ok,
  ok_injective, pure,
}
use aegis_llm_control_plane.Base.Dict.{values}
use aegis_llm_control_plane.Errors.{Error, Outcome}
use aegis_llm_control_plane.Cluster.Types.{Worker, Workload, Snapshot}
use aegis_llm_control_plane.Cluster.Store.{Store, place, snapshot, commit_placement}
use aegis_llm_control_plane.Cluster.Store.Commit.{
  IsCommit, IsCommittable, committed, commit_placement_ok, commit_placement_succeeds,
}
use aegis_llm_control_plane.Shared.{
  Sys, Run, call, seen, turn, turns_left, Keeps, Keeps-call, Keeps-bind,
}
use aegis_llm_control_plane.Scheduler.Placement.{schedulable_workload, place_with}

module _ {F : Type 0} where
  -- The store after the turn of the others before the first call, and before the second, if the
  -- first call changes nothing.
  abbrev pub at_first : Sys F → Store F
  at_first s = seen s

  abbrev pub at_second : Sys F → Store F
  at_second s = seen (record { store = seen s; turns = turns_left s.turns })

  abbrev pub snapshot_of : Store F → Snapshot F
  snapshot_of x = record { workers = values x.workers; workloads = values x.workloads }

  abbrev pub after_first : Sys F → Sys F
  after_first s = record { store = seen s; turns = turns_left s.turns }

  pub snapshot_store : (ctx : Option Error) (x : Store F) → (snapshot ctx x).1 ≡ x
  unfolding snapshot
  snapshot_store none x = refl
  snapshot_store (some e) x = refl

  snapshot_value :
      (ctx : Option Error) (x : Store F) (snap : Snapshot F)
      → (snapshot ctx x).0 ≡ ok snap
      → snap ≡ snapshot_of x
  unfolding snapshot
  snapshot_value none x snap h = cc
  snapshot_value (some e) x snap h = cc

  pub call-snapshot : (s : Sys F) → (call snapshot s).1 ≡ after_first s
  unfolding call
  call-snapshot s = λ i. record {
    store = snapshot_store (turn s.turns).ctx (seen s) i;
    turns = turns_left s.turns;
  }

  snapshot_ok :
      (s : Sys F) (snap : Snapshot F)
      → (call snapshot s).0 ≡ ok snap
      → snap ≡ snapshot_of (at_first s)
  unfolding call
  snapshot_ok s snap h = snapshot_value (turn s.turns).ctx (seen s) snap h

  IsCommit-ok :
      (s : Sys F) (a b : String) (k : Workload F)
      → (call (λ ctx. commit_placement ctx a b) s).0 ≡ ok k
      → IsCommit (seen s) a b k (call (λ ctx. commit_placement ctx a b) s).1.store
  unfolding call
  IsCommit-ok s a b k h = commit_placement_ok (seen s) (turn s.turns).ctx a b k h

  -- A placement as it should be: the workload stood in the snapshot and could be scheduled, the
  -- worker was selected from the snapshot, and the commit succeeded on the state that it found.
  abbrev pub IsPlacement :
      (Workload F → List (Worker F) → Outcome (Worker F))
      → String
      → Sys F
      → Workload F
      → Store F
      → Type 0
  IsPlacement select workload_id s placed after =
      (k : Workload F) × (w : Worker F) × (schedulable_workload workload_id
          (snapshot_of (at_first s))
        ≡ ok k)
      × (select k (values (at_first s).workers) ≡ ok w)
      × IsCommit (at_second s) k.id w.id placed after

module _ {F D : Type 0} (select : Workload F → List (Worker F) → Outcome (Worker F))
    (decide : Workload F → Worker F → D) (id : String) where
  abbrev finish : Workload F → Worker F → Run F (Workload F × D)
  finish k w = call (λ ctx. commit_placement ctx k.id w.id) >>= λ placed. pure (placed, decide k w)

  abbrev continue : Snapshot F → Run F (Workload F × D)
  continue snap =
      lift (schedulable_workload id snap) >>= λ k. lift (select k snap.workers) >>= finish k

  finish_ok :
      (s : Sys F) (k : Workload F) (w : Worker F) (r : Workload F × D)
      → (finish k w s).0 ≡ ok r
      → IsCommit (seen s) k.id w.id r.0 (finish k w s).1.store
  finish_ok s k w r h =
      let (placed, e, p) =
        bind_ok (call (λ ctx. commit_placement ctx k.id w.id)) (λ x. pure (x, decide k w)) s r h in
      let same : (placed, decide k w) ≡ r = ok_injective (sym (ap (λ x. x.0) p) ∙ h) in
      subst (λ x. IsCommit (seen s) k.id w.id r.0 x.1.store) (sym p)
        (subst
          (λ x.
            IsCommit (seen s) k.id w.id x.0
              (call (λ ctx. commit_placement ctx k.id w.id) s).1.store)
          same (IsCommit-ok s k.id w.id placed e))

  continue_ok :
      (x : Store F) (s : Sys F) (r : Workload F × D)
      → (continue (snapshot_of x) s).0 ≡ ok r
      → (k : Workload F) × (w : Worker F) × (schedulable_workload id (snapshot_of x) ≡ ok k)
        × (select k (values x.workers) ≡ ok w)
        × IsCommit (seen s) k.id w.id r.0 (continue (snapshot_of x) s).1.store
  continue_ok x s r h =
      let (k, ek, pk) =
        bind_ok (lift (schedulable_workload id (snapshot_of x)))
          (λ k. lift (select k (values x.workers)) >>= finish k) s r h in
      let hk = sym (ap (λ y. y.0) pk) ∙ h in
      let (w, ew, pw) = bind_ok (lift (select k (values x.workers))) (finish k) s r hk in
      let hw = sym (ap (λ y. y.0) pw) ∙ hk in
      (
        k,
        w,
        ek,
        ew,
        subst (λ y. IsCommit (seen s) k.id w.id r.0 y.1.store) (sym (pk ∙ pw))
            (finish_ok s k w r hw),
      )

  -- A placement that succeeds, whatever others do between its two calls of the store, placed a
  -- schedulable workload on a worker selected from its snapshot, by a commit that met every demand
  -- on the state that it found, and wrote nothing else.
  pub place_with_ok :
      (s : Sys F) (placed : Workload F) (d : D)
      → (place_with select decide id s).0 ≡ ok (placed, d)
      → IsPlacement select id s placed (place_with select decide id s).1.store
  unfolding place_with
  place_with_ok s placed d h =
      let (snap, e, p) = bind_ok (call snapshot) continue s (placed, d) h in
      let h' = sym (ap (λ y. y.0) p) ∙ h in
      let value = snapshot_ok s snap e in
      let whole : continue snap (call snapshot s).1
          ≡ continue (snapshot_of (at_first s)) (after_first s) =
        λ i. continue (value i) (call-snapshot s i) in
      let (k, w, ek, ew, c) =
        continue_ok (at_first s) (after_first s) (placed, d) (sym (ap (λ y. y.0) whole) ∙ h') in
      (
        k,
        w,
        ek,
        ew,
        subst (λ y. IsCommit (at_second s) k.id w.id placed y.1.store) (sym (p ∙ whole)) c,
      )

  Keeps-lift : {A : Type 0} (P : Store F → Type 0) (r : Outcome A) → Keeps P (lift r)
  Keeps-lift P r s g = g

  -- What the store keeps under a commit, and the others keep too, a placement keeps, whatever its
  -- outcome.
  pub Keeps-place_with :
      (P : Store F → Type 0)
      → ((ctx : Option Error) (a b : String) (x : Store F) → P x → P (commit_placement ctx a b x).1)
      → Keeps P (place_with select decide id)
  unfolding place_with
  Keeps-place_with P keep =
      Keeps-bind P (call snapshot) continue
        (Keeps-call P snapshot (λ ctx x p. subst P (sym (snapshot_store ctx x)) p))
        λ snap.
          Keeps-bind P (lift (schedulable_workload id snap)) _
            (Keeps-lift P (schedulable_workload id snap))
            λ k.
              Keeps-bind P (lift (select k snap.workers)) (finish k)
                (Keeps-lift P (select k snap.workers))
                λ w.
                  Keeps-bind P (call (λ ctx. commit_placement ctx k.id w.id)) _
                    (Keeps-call P _ (λ ctx x p. keep ctx k.id w.id x p)) λ placed s g. g

  -- A placement whose workload can be scheduled, and whose selected worker meets the demands of a
  -- commit, when nobody else acts.
  pub place_with_succeeds :
      (x : Store F) (k : Workload F) (w : Worker F)
      → schedulable_workload id (snapshot_of x) ≡ ok k
      → select k (values x.workers) ≡ ok w
      → IsCommittable x k.id w.id k w
      → place_with select decide id (record { store = x; turns = [] })
        ≡ (ok (place w.id k, decide k w), record { store = committed k w x; turns = [] })
  unfolding place_with call snapshot
  place_with_succeeds x k w ek ew c = rw (ek, ew, commit_placement_succeeds x k.id w.id k w c)
