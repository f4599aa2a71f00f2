-- ===== src/Outbox/Deliver.antt =====
-- `deliverPending` of internal/pipeline/pipeline.go. `emit_to` is `EmitTo` of the durable sink.
pub mod Promise
use worm.Base.{ℕ, ◌*◌, ◌^◌, List, [], ◌∷◌, Option, none, some, leb, if◌then◌else◌, Bytes, codes}
use worm.Library.{Library, Error}
use worm.Model.{NormalizedEvent}
use worm.Store.Action.{Result, ok, err, OutboxEntry}
use worm.Outbox.Queue.{fetch_pending, mark_delivered, mark_failed}
use worm.Pipeline.World.{World, run, run_, count_delivered}

-- Durations are in milliseconds, as the times are.
abbrev pub second : ℕ
second = 1000

abbrev pub hour : ℕ
hour = 3600 * second

-- `time.Second << min(attempts, 6)`
unfoldable pub backoff_of : ℕ → ℕ
backoff_of attempts = second * 2 ^ (if leb attempts 6 then attempts else 6)

module _ ⦃lib : Library⦄ {S : Type 0}
    (emit_to : Bytes → NormalizedEvent → S → Result (Unit {0}) × S) (now : ℕ) where
  -- `if p.outbox.MarkDelivered(…) == nil { p.delivered.Add(1) }`
  count_marked : Result (Unit {0}) → World S → World S
  count_marked (ok _) w = count_delivered w
  count_marked (err _) w = w

  unfoldable pub after_emit_to : OutboxEntry → Result (Unit {0}) → World S → World S
  unfolding count_marked run run_ backoff_of
  after_emit_to e (err x) w =
      run_ (mark_failed e.id (lib.error_text x) (backoff_of e.attempts) 0 now) w
  after_emit_to e (ok _) w = let (r, w') = run (mark_delivered e.id now) w in count_marked r w'

  emitted : OutboxEntry → Option NormalizedEvent → World S → World S
  unfolding after_emit_to run_
  emitted e none w = run_ (mark_failed e.id (codes "invalid event payload") hour 1 now) w
  emitted e (some event) w =
      let (r, s) = emit_to e.destination event w.sink in after_emit_to e r (record w { sink = s })

  -- The body of the loop.
  unfoldable pub deliver_entry : OutboxEntry → World S → World S
  unfolding emitted
  deliver_entry e w = emitted e (lib.unmarshal e.payload) w

  unfoldable pub deliver_entries : List OutboxEntry → World S → World S
  unfolding deliver_entry
  deliver_entries [] w = w
  deliver_entries (e ∷ es) w = deliver_entries es (deliver_entry e w)

  deliver_fetched : Result (List OutboxEntry) → World S → World S
  unfolding deliver_entries
  deliver_fetched (err _) w = w
  deliver_fetched (ok es) w = deliver_entries es w

  unfoldable pub deliver_pending : World S → World S
  unfolding deliver_fetched run
  deliver_pending w = let (r, w') = run (fetch_pending 100 now) w in deliver_fetched r w'
