-- ===== src/Telemetry/Memory.antt =====
-- internal/telemetry: store.go, memory_store.go. The store's lock is held for one call. A run of
-- calls is given what `ctx.Err()` is at each of them, and nil once these are used up.
use aegis_llm_control_plane.Base.{List, [], ◌∷◌, ◌++◌, Option, none, some, ok, err, M}
use aegis_llm_control_plane.Errors.{Error}
use aegis_llm_control_plane.Telemetry.Types.{Record}

-- `Store`, with the state that the methods act on.
pub record Store (F S : Type 0) : Type 0 where
  pub append : Option Error → Record F → M S Error (Unit {0})
  pub list : Option Error → M S Error (List (Record F))

-- The records of an `InMemoryStore`.
abbrev pub InMemoryStore : Type 0 → Type 0
InMemoryStore F = List (Record F)

module _ {F : Type 0} where
  abbrev pub new_in_memory_store : InMemoryStore F
  new_in_memory_store = []

  unfoldable pub append : Option Error → Record F → M (InMemoryStore F) Error (Unit {0})
  append none r s = (ok tt, s ++ (r ∷ []))
  append (some e) r s = (err e, s)

  unfoldable pub list : Option Error → M (InMemoryStore F) Error (List (Record F))
  list none s = (ok s, s)
  list (some e) s = (err e, s)

  abbrev pub in_memory : Store F (InMemoryStore F)
  in_memory = record { append = append; list = list }
