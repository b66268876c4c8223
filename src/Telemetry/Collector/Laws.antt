-- ===== src/Telemetry/Collector/Laws.antt =====
-- internal/telemetry/collector.go: the records of a snapshot, against a description without groups.
use aegis_llm_control_plane.Base.{
  ◌≡◌, ◌⊎◌, inl, inr, refl, sym, ap, ◌∙◌, String, true, false, not, ◌&&◌, List, [], ◌∷◌, ◌++◌, map,
  Option, none, some, ◌==◌, eq_iff, ok, err, M, Result, proceed, ◌>>◌, pure, filter, subst,
  Bool-cases,
}
use aegis_llm_control_plane.Base.Dict.{Dict, lookup, insert, lookup-insert}
use aegis_llm_control_plane.Base.Int.{Time}
use aegis_llm_control_plane.Base.Float.{Float64}
use aegis_llm_control_plane.Errors.{Error}
use aegis_llm_control_plane.Cluster.Types.{Worker, Workload, Snapshot}
use aegis_llm_control_plane.Telemetry.Types.{Record}
use aegis_llm_control_plane.Telemetry.Memory.{InMemoryStore, append, in_memory}
use aegis_llm_control_plane.Telemetry.Collector.{
  Calls, group_of, workloads_by_worker, worker_record, workload_record, append_record,
  record_workloads, record_worker, record_workers, record_snapshot,
}

append_assoc : {A : Type 0} (xs ys zs : List A) → (xs ++ ys) ++ zs ≡ xs ++ (ys ++ zs)
append_assoc [] ys zs = refl
append_assoc (x ∷ xs) ys zs = ap (λ l. x ∷ l) (append_assoc xs ys zs)

append_nil : {A : Type 0} (xs : List A) → xs ++ [] ≡ xs
append_nil [] = refl
append_nil (x ∷ xs) = ap (λ l. x ∷ l) (append_nil xs)

module _ {F : Type 0} where
  -- The workloads of a worker, in the order of the snapshot.
  abbrev pub assigned : String → List (Workload F) → List (Workload F)
  assigned id = filter (λ w. not (w.assigned_worker_id == "") && (w.assigned_worker_id == id))

  group_of-insert :
      (own id : String) (w : Workload F) (d : Dict (List (Workload F)))
      → (own == id) ≡ true
      → group_of (lookup id (insert own (group_of (lookup own d) ++ (w ∷ [])) d))
        ≡ group_of (lookup id d) ++ (w ∷ [])
  group_of-insert own id w d same =
      rw
        (lookup-insert own id (group_of (lookup own d) ++ (w ∷ [])) d, same, (eq_iff own id).0 same)
        refl

  group_of-other :
      (own id : String) (ws : List (Workload F)) (d : Dict (List (Workload F)))
      → (own == id) ≡ false
      → group_of (lookup id (insert own ws d)) ≡ group_of (lookup id d)
  group_of-other own id ws d other = rw (lookup-insert own id ws d, other) refl

  workloads_by_worker_lem :
      (id : String) (ws : List (Workload F)) (d : Dict (List (Workload F)))
      → group_of (lookup id (workloads_by_worker ws d)) ≡ group_of (lookup id d) ++ assigned id ws
  unfolding workloads_by_worker
  workloads_by_worker_lem id [] d = sym (append_nil _)
  workloads_by_worker_lem id (w ∷ ws) d = elim (Bool-cases (w.assigned_worker_id == "")) [
    | inl nobody ↦ rw nobody (workloads_by_worker_lem id ws d)
    | inr somebody ↦ rw somebody (elim (Bool-cases (w.assigned_worker_id == id)) [
      | inl same ↦ rw same (
          workloads_by_worker_lem id ws _
          ∙ ap (λ g. g ++ assigned id ws) (group_of-insert w.assigned_worker_id id w d same)
          ∙ append_assoc (group_of (lookup id d)) (w ∷ []) (assigned id ws))
      | inr other ↦ rw other (
          workloads_by_worker_lem id ws _
          ∙ ap (λ g. g ++ assigned id ws) (group_of-other w.assigned_worker_id id _ d other))
    ])
  ]

module _ {F : Type 0} ⦃fl : Float64 F⦄ where
  -- The records of a worker: one for each of its workloads, or one for the worker alone.
  abbrev pub rows : Time → Worker F → List (Workload F) → List (Record F)
  rows timestamp worker [] = worker_record timestamp worker ∷ []
  rows timestamp worker (w ∷ ws) = map (workload_record timestamp worker) (w ∷ ws)

  abbrev pub all_rows : Time → List (Workload F) → List (Worker F) → List (Record F)
  all_rows timestamp workloads [] = []
  all_rows timestamp workloads (worker ∷ workers) =
      rows timestamp worker (assigned worker.id workloads) ++ all_rows timestamp workloads workers

  append_all : List (Record F) → M (Calls (InMemoryStore F)) Error (Unit {0})
  append_all [] = pure tt
  append_all (r ∷ rs) = append_record in_memory r >> append_all rs

  proceed_assoc :
      (r : Result Error (Unit {0})) (s : Calls (InMemoryStore F)) (xs ys : List (Record F))
      → proceed
          (proceed r (λ _. append_all xs) s).0
          (λ _. append_all ys)
          (proceed r (λ _. append_all xs) s).1
        ≡ proceed r (λ _. append_all xs >> append_all ys) s
  proceed_assoc (ok u) s xs ys = refl
  proceed_assoc (err e) s xs ys = refl

  -- A run of appends that go on with equal runs.
  proceed_cong :
      (r : Result Error (Unit {0})) (k l : M (Calls (InMemoryStore F)) Error (Unit {0}))
      (s : Calls (InMemoryStore F))
      → ((t : Calls (InMemoryStore F)) → k t ≡ l t)
      → proceed r (λ _. k) s ≡ proceed r (λ _. l) s
  proceed_cong (ok u) k l s h = h s
  proceed_cong (err e) k l s h = refl

  append_all-append :
      (xs ys : List (Record F)) (s : Calls (InMemoryStore F))
      → append_all (xs ++ ys) s ≡ (append_all xs >> append_all ys) s
  unfolding append_all
  append_all-append [] ys s = refl
  append_all-append (x ∷ xs) ys s =
      let p = append_record in_memory x s in
      proceed_cong p.0 (append_all (xs ++ ys)) (append_all xs >> append_all ys) p.1
        (append_all-append xs ys)
      ∙ sym (proceed_assoc p.0 p.1 xs ys)

  record_workloads_lem :
      (t : Time) (worker : Worker F) (ws : List (Workload F)) (s : Calls (InMemoryStore F))
      → record_workloads in_memory t worker ws s ≡ append_all (map (workload_record t worker) ws) s
  unfolding record_workloads append_all
  record_workloads_lem t worker [] s = refl
  record_workloads_lem t worker (w ∷ ws) s =
      let p = append_record in_memory (workload_record t worker w) s in
      proceed_cong p.0 (record_workloads in_memory t worker ws)
        (append_all (map (workload_record t worker) ws)) p.1 (record_workloads_lem t worker ws)

  alone :
      (r : Result Error (Unit {0})) (s : Calls (InMemoryStore F))
      → (r, s) ≡ proceed r (λ _. append_all []) s
  unfolding append_all
  alone (ok tt) s = refl
  alone (err e) s = refl

  record_worker_lem :
      (t : Time) (worker : Worker F) (ws : List (Workload F)) (s : Calls (InMemoryStore F))
      → record_worker in_memory t worker ws s ≡ append_all (rows t worker ws) s
  unfolding record_worker append_all
  record_worker_lem t worker [] s =
      let p = append_record in_memory (worker_record t worker) s in alone p.0 p.1
  record_worker_lem t worker (w ∷ ws) s = record_workloads_lem t worker (w ∷ ws) s

  record_workers_lem :
      (t : Time) (ws : List (Workload F)) (workers : List (Worker F)) (s : Calls (InMemoryStore F))
      → record_workers in_memory t (workloads_by_worker ws []) workers s
        ≡ append_all (all_rows t ws workers) s
  unfolding record_workers append_all lookup
  record_workers_lem t ws [] s = refl
  record_workers_lem t ws (worker ∷ workers) s =
      let first = rows t worker (assigned worker.id ws) in
      let same : record_worker in_memory t worker
            (group_of (lookup worker.id (workloads_by_worker ws []))) s
          ≡ append_all first s =
        ap (λ g. record_worker in_memory t worker g s) (workloads_by_worker_lem worker.id ws [])
        ∙ record_worker_lem t worker (assigned worker.id ws) s in
      ap
        (λ p. proceed p.0 (λ _. record_workers in_memory t (workloads_by_worker ws []) workers) p.1)
        same
      ∙ proceed_cong (append_all first s).0 _ (append_all (all_rows t ws workers)) _
          (record_workers_lem t ws workers)
      ∙ sym (append_all-append first (all_rows t ws workers) s)

  -- The contexts of the appends of these records are live: each call has the next context, and none
  -- is done when no more are given.
  abbrev pub Live : List (Record F) → List (Option Error) → Type 0
  Live [] cs = Unit {0}
  Live (r ∷ rs) [] = Unit {0}
  Live (r ∷ rs) (c ∷ cs) = (c ≡ none) × Live rs cs

  -- The context of the call after the appends of these records.
  abbrev pub context_after : List (Record F) → List (Option Error) → Option Error
  context_after [] [] = none
  context_after [] (c ∷ cs) = c
  context_after (r ∷ rs) [] = none
  context_after (r ∷ rs) (c ∷ cs) = context_after rs cs

  -- What a run of appends has done: all of them, each with a live context, or those before the
  -- first whose context is done, and that context's error is the result.
  abbrev pub Appends :
      List (Record F)
      → Calls (InMemoryStore F)
      → Result Error (Unit {0}) × Calls (InMemoryStore F)
      → Type 0
  Appends rs s p =
      ((p.0 ≡ ok tt) × (p.1.store ≡ s.store ++ rs) × Live rs s.contexts)
      ⊎ ((e : Error) × (done : List (Record F)) × (next : Record F) × (rest : List (Record F))
          × ((p.0 ≡ err e)
              × (rs ≡ done ++ (next ∷ rest))
              × (p.1.store ≡ s.store ++ done)
              × Live done s.contexts
              × (context_after done s.contexts ≡ some e)))

  never_done : (done : List (Record F)) → context_after done [] ≡ none
  never_done [] = refl
  never_done (r ∷ rs) = refl

  append_all-Appends :
      (rs : List (Record F)) (store : InMemoryStore F) (cs : List (Option Error))
      → Appends rs
          (record { store = store; contexts = cs })
          (append_all rs (record { store = store; contexts = cs }))
  unfolding append_all append
  append_all-Appends [] store cs = inl (refl, sym (append_nil store), tt)
  append_all-Appends (r ∷ rs) store (some e ∷ cs) =
      inr (e, [], r, rs, (refl, refl, sym (append_nil store), tt, refl))
  append_all-Appends (r ∷ rs) store (none ∷ cs) =
      elim (append_all-Appends rs (store ++ (r ∷ [])) cs) [
        | inl (good, e, live) ↦ inl (good, e ∙ append_assoc store (r ∷ []) rs, (refl, live))
        | inr (e, done, next, rest, (bad, split, kept, live, dead)) ↦ inr (
          e,
          r ∷ done,
          next,
          rest,
          (bad, ap (λ l. r ∷ l) split, kept ∙ append_assoc store (r ∷ []) done, (refl, live), dead),
        )
      ]
  append_all-Appends (r ∷ rs) store [] = elim (append_all-Appends rs (store ++ (r ∷ [])) []) [
    | inl (good, e, live) ↦ inl (good, e ∙ append_assoc store (r ∷ []) rs, tt)
    | inr (e, done, next, rest, (bad, split, kept, live, dead)) ↦
        absurd (cc (never_done done, dead))
  ]

  -- Collecting a snapshot into the memory store goes, worker by worker in the snapshot's order,
  -- through one record for each workload assigned to the worker in the snapshot's order, or one
  -- record for the worker alone when there is none. Either it succeeds, the contexts of all these
  -- appends were live, and all the records are appended; or it returns the error of the first done
  -- context among them, with the records before that call appended and no other.
  pub record_snapshot-Appends :
      (snapshot : Snapshot F) (timestamp : Time) (s : Calls (InMemoryStore F))
      → Appends
          (all_rows timestamp snapshot.workloads snapshot.workers)
          s
          (record_snapshot in_memory snapshot timestamp s)
  unfolding record_snapshot
  record_snapshot-Appends snapshot timestamp s =
      subst (Appends (all_rows timestamp snapshot.workloads snapshot.workers) s)
        (sym (record_workers_lem timestamp snapshot.workloads snapshot.workers s))
        (append_all-Appends (all_rows timestamp snapshot.workloads snapshot.workers) s.store
          s.contexts)
