-- ===== src/Pipeline/Replay/Atomic.antt =====
-- internal/pipeline/pipeline.go: the ways in which `Replay` ends.
use worm.Base.{ℕ, ◌≡◌, true, List, Bytes}
use worm.Library.{Library}
use worm.Model.{NormalizedEvent}
use worm.Store.Action.{ok}
use worm.Store.Normal.{resolve_tx, store_normalized_tx}
use worm.Pipeline.World.{World, Stages}
use worm.Pipeline.Child.Balance.{imbalance}
use worm.Pipeline.Replay.{Replayed, rejected, undelivered, replayed, is_positive}

-- Nothing but the source of randomness and the schedule of failures has moved.
pub record Untouched {S : Type 0} (w v : World S) : Type 0 where
  pub tables : v.db.tables ≡ w.db.tables
  pub counters : v.counters ≡ w.counters
  pub sink : v.sink ≡ w.sink

module _ ⦃lib : Library⦄ {P S : Type 0} (stages : Stages P S) (now : ℕ) (id : Bytes)
    (w₀ : World S) where
  -- An event was stored, its delivery intents with it, and the entry deleted, in one transaction;
  -- the child that was counted as quarantined is counted as normalized.
  pub record Resolved (w : World S) : Type 0 where
    pub event : NormalizedEvent
    pub dests : List Bytes
    pub stored : NormalizedEvent
    pub committed :
        resolve_tx id (store_normalized_tx event now dests w₀.db.tables) ≡ ok (stored, w.db.tables)
    pub balanced :
        is_positive w₀.counters.quarantined ≡ true → imbalance w.counters ≡ imbalance w₀.counters

  abbrev pub Ends : Replayed × World S → Type 0
  Ends (rejected e, w) = Untouched w₀ w
  Ends (undelivered e, w) = Resolved w
  Ends (replayed event, w) = Resolved w
