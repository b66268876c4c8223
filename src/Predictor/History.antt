-- ===== src/Predictor/History.antt =====
-- internal/predictor/history.go: the last observations of each worker. Each method holds the lock
-- throughout, so it is one step on the state.
pub mod Laws
pub mod Examples
use aegis_llm_control_plane.Base.{
  ℕ, String, Bool, true, false, ◌==◌, List, [], ◌∷◌, ◌++◌, Option, none, some, if◌then◌else◌, ltb,
  length, take_last, map,
}
use aegis_llm_control_plane.Base.Dict.{Dict, lookup, insert}
use aegis_llm_control_plane.Base.Int.{ℤ, pos, pos_part, lt_int, le_int, eq_int}
use aegis_llm_control_plane.Telemetry.Types.{Record}

pub record HistoryStore (F : Type 0) : Type 0 where
  pub capacity : ℕ
  pub records : Dict (List (Record F))

unfoldable pub new_history_store : {F : Type 0} → ℤ → HistoryStore F
new_history_store capacity = record {
  capacity = if lt_int capacity (pos 3) then 3 else pos_part capacity;
  records = [];
}

module _ {F : Type 0} where
  -- A missing key reads as an empty slice.
  abbrev pub history_of : Option (List (Record F)) → List (Record F)
  history_of none = []
  history_of (some rs) = rs

  -- `history[len(history)-1]`, if there is one, has the same time.
  abbrev pub repeats : Record F → List (Record F) → Bool
  repeats r [] = false
  repeats r (x ∷ []) = eq_int x.timestamp r.timestamp
  repeats r (x ∷ y ∷ rest) = repeats r (y ∷ rest)

  -- The append and the cut to the capacity.
  abbrev pub extend : ℕ → List (Record F) → Record F → List (Record F)
  extend capacity history r =
      let longer = history ++ (r ∷ []) in
      if ltb capacity (length longer) then take_last capacity longer else longer

  unfoldable pub add : Record F → HistoryStore F → HistoryStore F
  add r s =
      let history = history_of (lookup r.worker_id s.records) in
      if r.worker_id == ""
      then s
      else if repeats r history
      then s
      else record s { records = insert r.worker_id (extend s.capacity history r) s.records }

  -- `count` is an int; nil and an empty slice are both [].
  unfoldable pub recent : String → ℤ → HistoryStore F → List (Record F)
  recent worker_id count s =
      let history = history_of (lookup worker_id s.records) in
      if le_int count (pos 0)
      then []
      else if ltb (length history) (pos_part count)
      then history
      else take_last (pos_part count) history

  -- The keys of the map.
  abbrev pub worker_ids : HistoryStore F → List String
  worker_ids s = map (λ e. e.0) s.records
