-- ===== src/Predictor/History/Laws.antt =====
-- internal/predictor/history.go: the size of a history and its newest entry.
use aegis_llm_control_plane.Base.{
  ℕ, zero, suc, ◌-◌, ◌≤◌, ◌<◌, ◌≡◌, ◌≢◌, refl, sym, subst, false, ◌==◌, eq_iff, List, [], ◌∷◌, ◌++◌,
  if◌then◌else◌, ltb, length, length-append, length-drop, drop, take_last, arith, Bool-cases, inl,
  inr, Option-cases, All, All-append, All-drop, String,
}
use aegis_llm_control_plane.Base.Dict.{lookup, Holds, Holds-insert, lookup-insert_own}
use aegis_llm_control_plane.Base.Int.{ℤ, pos, pos_part, le_int}
use aegis_llm_control_plane.Telemetry.Types.{Record}
use aegis_llm_control_plane.Predictor.History.{
  HistoryStore, history_of, repeats, extend, add, recent,
}

drop-append :
    {A : Type 0} (n : ℕ) (xs ys : List A) → n ≤ length xs → drop n (xs ++ ys) ≡ drop n xs ++ ys
drop-append zero xs ys h = refl
drop-append (suc n) [] ys h = absurd (omega arith)
drop-append (suc n) (x ∷ xs) ys h = drop-append n xs ys (omega arith)

drop_all : {A : Type 0} (xs : List A) → drop (length xs) xs ≡ []
drop_all [] = refl
drop_all (x ∷ xs) = drop_all xs

module _ {F : Type 0} where
  -- No worker has more observations than the capacity.
  abbrev pub IsBounded : HistoryStore F → Type 0
  IsBounded s = Holds (λ id history. length history ≤ s.capacity) s.records

  length-extend :
      (capacity : ℕ) (history : List (Record F)) (r : Record F)
      → length (extend capacity history r) ≤ capacity
  length-extend capacity history r =
      elim (Bool-cases (ltb capacity (length (history ++ (r ∷ []))))) [
        | inl t ↦ rw t (
            omega
              (arith, length-drop (length (history ++ (r ∷ [])) - capacity) (history ++ (r ∷ []))))
        | inr t ↦ rw t (ground arith)
      ]

  -- An observation added keeps every history within the capacity.
  pub add-IsBounded : (r : Record F) (s : HistoryStore F) → IsBounded s → IsBounded (add r s)
  unfolding add
  add-IsBounded r s h =
      let history = history_of (lookup r.worker_id s.records) in
      elim (Bool-cases (r.worker_id == "")) [
        | inl t ↦ rw t h
        | inr t ↦ rw t (elim (Bool-cases (repeats r history)) [
          | inl u ↦ rw u h
          | inr u ↦ rw u (
              Holds-insert (λ id hs. length hs ≤ s.capacity) r.worker_id
                (extend s.capacity history r) s.records h (length-extend s.capacity history r))
        ])
      ]

  extend_last :
      (capacity : ℕ) (history : List (Record F)) (r : Record F)
      → 0 < capacity
      → (older : List (Record F)) × (extend capacity history r ≡ older ++ (r ∷ []))
  extend_last capacity history r h =
      elim (Bool-cases (ltb capacity (length (history ++ (r ∷ []))))) [
        | inl t ↦ rw t (
          drop (length (history ++ (r ∷ [])) - capacity) history,
          drop-append (length (history ++ (r ∷ [])) - capacity) history (r ∷ [])
              (omega (arith, length-append history (r ∷ []))),
        )
        | inr t ↦ rw t (history, refl)
      ]

  last_one :
      (older : List (Record F)) (r : Record F)
      → (if ltb (length (older ++ (r ∷ []))) 1
          then older ++ (r ∷ [])
          else take_last 1 (older ++ (r ∷ [])))
        ≡ r ∷ []
  last_one older r =
      let size = length-append older (r ∷ []) in
      let one : length (older ++ (r ∷ [])) - 1 ≡ length older = omega (arith, size) in
      let no : ltb (length (older ++ (r ∷ []))) 1 ≡ false = ground (arith, size) in
      rw (no, one, drop-append (length older) older (r ∷ []) (omega arith), drop_all older)

  -- An observation of a named worker, with a time other than that of the worker's last one, is the
  -- most recent one after it is added.
  pub recent-add :
      (r : Record F) (s : HistoryStore F)
      → r.worker_id ≢ ""
      → repeats r (history_of (lookup r.worker_id s.records)) ≡ false
      → 0 < s.capacity
      → recent r.worker_id (pos 1) (add r s) ≡ r ∷ []
  unfolding add recent
  recent-add r s named fresh room =
      let history = history_of (lookup r.worker_id s.records) in
      let (older, e) = extend_last s.capacity history r room in
      let name : (r.worker_id == "") ≡ false = ground (arith, eq_iff r.worker_id "") in
      rw
        (
          name,
          fresh,
          lookup-insert_own r.worker_id r.worker_id (extend s.capacity history r) s.records refl,
        )
        (subst (λ l. (if ltb (length l) 1 then l else take_last 1 l) ≡ r ∷ []) (sym e)
          (last_one older r))

  -- Each observation stands under the worker that it names, and no worker is nameless.
  abbrev pub IsFiled : HistoryStore F → Type 0
  IsFiled s = Holds (λ id history. (id ≢ "") × All (λ r. r.worker_id ≡ id) history) s.records

  history_of-All :
      (id : String) (s : HistoryStore F)
      → IsFiled s
      → All (λ r. r.worker_id ≡ id) (history_of (lookup id s.records))
  history_of-All id s h = elim (Option-cases (lookup id s.records)) [
    | inl e ↦ rw e tt
    | inr (rs, e) ↦ rw e (h id rs e).1
  ]

  extend-All :
      (P : Record F → Type 0) (capacity : ℕ) (history : List (Record F)) (r : Record F)
      → All P history
      → P r
      → All P (extend capacity history r)
  extend-All P capacity history r h p =
      let longer = All-append P history (r ∷ []) h (p, tt) in
      elim (Bool-cases (ltb capacity (length (history ++ (r ∷ []))))) [
        | inl t ↦
            rw t (All-drop P (length (history ++ (r ∷ [])) - capacity) (history ++ (r ∷ [])) longer)
        | inr t ↦ rw t longer
      ]

  pub add-IsFiled : (r : Record F) (s : HistoryStore F) → IsFiled s → IsFiled (add r s)
  unfolding add
  add-IsFiled r s h =
      let history = history_of (lookup r.worker_id s.records) in
      elim (Bool-cases (r.worker_id == "")) [
        | inl t ↦ rw t h
        | inr t ↦ rw t (elim (Bool-cases (repeats r history)) [
          | inl u ↦ rw u h
          | inr u ↦ rw u (
              Holds-insert (λ id hs. (id ≢ "") × All (λ x. x.worker_id ≡ id) hs) r.worker_id
                (extend s.capacity history r) s.records h
                (
                  ground (arith, eq_iff r.worker_id ""),
                  extend-All (λ x. x.worker_id ≡ r.worker_id) s.capacity history r
                      (history_of-All r.worker_id s h) refl,
                ))
        ])
      ]

  pub recent-All :
      (id : String) (count : ℤ) (s : HistoryStore F)
      → IsFiled s
      → All (λ r. r.worker_id ≡ id) (recent id count s)
  unfolding recent
  recent-All id count s h =
      let history = history_of (lookup id s.records) in
      let whole = history_of-All id s h in
      elim (Bool-cases (le_int count (pos 0))) [
        | inl t ↦ rw t tt
        | inr t ↦ rw t (elim (Bool-cases (ltb (length history) (pos_part count))) [
          | inl u ↦ rw u whole
          | inr u ↦
              rw u
                (All-drop (λ r. r.worker_id ≡ id) (length history - pos_part count) history whole)
        ])
      ]
