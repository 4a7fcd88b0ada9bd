-- ===== src/Middleware/Evict.antt =====
-- pkg/middleware/middleware.go: one of the goroutines that registerMappingKeysEviction starts, from tick
-- to tick. The ticker and the end of the context give the list of the ticks.
use souin.Prelude.{String, Option, List, [], ◌∷◌, if◌then◌else◌}
use souin.Prelude.Int.{ℤ}
use souin.Storage.{Storer}
use souin.Middleware.Lock.{try_acquire_eviction_lock}
use souin.Api.{ApiLibrary}
use souin.Api.Eviction.{evict_mapping}

-- A tick: its time, the time after the sleep, and what other instances do in between.
pub record Tick (S : Type 0) : Type 0 where
  pub now : ℤ
  pub later : ℤ
  pub others : S → S

module _ {S : Type 0} (current : Storer S) (lib : ApiLibrary) (parse : String → Option ℤ)
    (format : ℤ → String) (me : String) where
  unfoldable pub evict_on_tick : Tick S → S → S
  unfolding try_acquire_eviction_lock evict_mapping
  evict_on_tick tick s =
      let (acquired, s') =
        try_acquire_eviction_lock current parse format tick.now tick.later tick.others me s in
      if acquired then evict_mapping current lib tick.later s' else s'

  unfoldable pub evict_on_ticks : List (Tick S) → S → S
  unfolding evict_on_tick
  evict_on_ticks [] s = s
  evict_on_ticks (tick ∷ ticks) s = evict_on_ticks ticks (evict_on_tick tick s)
