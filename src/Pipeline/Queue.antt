-- ===== src/Pipeline/Queue.antt =====
-- The queue of internal/pipeline/pipeline.go: `beginSubmit`, `Submit`, `SubmitWait`, `Stop`, the
-- loops of the workers, and the resending at the end of `Start`, as steps that any goroutine may
-- take. The channel `inbound` has a buffer of `capacity` records; a send on it or a close of it
-- panics where it is closed.
pub mod Order
use worm.Base.{ℕ, ◌+◌, ◌<◌, ◌≡◌, Bool, true, false, List, [], ◌∷◌, ◌++◌, length}

-- `submitters` is the count of submitWG, `stopping` the call of Stop that waits for it, `waiting` the
-- one that waits for the workers, and `cancelled` one that has; `workers` are the loops that run, of
-- the count wg, and `ended` those that are left; `sent` and `taken` are the records in the order of the sends and of the workers' receives, and `resending`
-- the accepted records that Start has yet to send.
pub record Queue (Rec : Type 0) : Type 0 where
  pub submit_closed : Bool
  pub submitters : ℕ
  pub stopping : Bool
  pub inbound : List Rec
  pub inbound_closed : Bool
  pub resending : List Rec
  pub sent : List Rec
  pub taken : List Rec
  pub panicked : Bool
  pub started : Bool
  pub workers : ℕ
  pub ended : ℕ
  pub waiting : Bool
  pub cancelled : Bool

-- `NewPipeline`, with the records that the store still has as accepted.
abbrev pub new_queue : {Rec : Type 0} → List Rec → Queue Rec
new_queue accepted = record {
  submit_closed = false;
  submitters = 0;
  stopping = false;
  inbound = [];
  inbound_closed = false;
  resending = accepted;
  sent = [];
  taken = [];
  panicked = false;
  started = false;
  workers = 0;
  ended = 0;
  waiting = false;
  cancelled = false;
}

-- `Stop`, up to the wait for the submitters
abbrev pub stop_submits : {Rec : Type 0} → Queue Rec → Queue Rec
stop_submits q = record q { submit_closed = true; stopping = true }

-- and behind it, up to the wait for the workers
abbrev pub close_channel : {Rec : Type 0} → Queue Rec → Queue Rec
close_channel q = record q { stopping = false; inbound_closed = true; waiting = true }

-- `Start`, with one worker and as many more: New sees to it that there is one.
abbrev pub start_workers : {Rec : Type 0} → ℕ → Queue Rec → Queue Rec
start_workers n q = record q { started = true; workers = n + 1 }

-- The end of `workerLoop`: the channel is closed and empty. The loop asks no context.
abbrev pub end_worker : {Rec : Type 0} → ℕ → Queue Rec → Queue Rec
end_worker k q = record q { workers = k; ended = q.ended + 1 }

-- The end of `Stop`
abbrev pub cancel_all : {Rec : Type 0} → Queue Rec → Queue Rec
cancel_all q = record q { waiting = false; cancelled = true }

-- A turn of `workerLoop`
abbrev pub work_on : {Rec : Type 0} → Queue Rec → Rec → List Rec → Queue Rec
work_on q r rs = record q { inbound = rs; taken = q.taken ++ (r ∷ []) }

pub data Step {Rec : Type 0} (capacity : ℕ) : Queue Rec → Queue Rec → Type 0 where
  begin_submit :
      (q : Queue Rec)
      → q.submit_closed ≡ false
      → Step capacity q (record q { submitters = q.submitters + 1 })
  submit :
      (q : Queue Rec) (r : Rec) (n : ℕ)
      → q.submitters ≡ n + 1
      → q.inbound_closed ≡ false
      → length q.inbound < capacity
      → Step capacity q
          (record q { submitters = n; inbound = q.inbound ++ (r ∷ []); sent = q.sent ++ (r ∷ []) })
  submit_panics :
      (q : Queue Rec) (n : ℕ)
      → q.submitters ≡ n + 1
      → q.inbound_closed ≡ true
      → Step capacity q (record q { panicked = true })
  submit_refused :
      (q : Queue Rec) (n : ℕ) → q.submitters ≡ n + 1 → Step capacity q (record q { submitters = n })
  stop : (q : Queue Rec) → q.submit_closed ≡ false → Step capacity q (stop_submits q)
  close_inbound :
      (q : Queue Rec)
      → q.stopping ≡ true
      → q.submitters ≡ 0
      → q.inbound_closed ≡ false
      → Step capacity q (close_channel q)
  close_panics :
      (q : Queue Rec)
      → q.stopping ≡ true
      → q.submitters ≡ 0
      → q.inbound_closed ≡ true
      → Step capacity q (record q { panicked = true })
  start : (q : Queue Rec) (n : ℕ) → q.started ≡ false → Step capacity q (start_workers n q)
  take :
      (q : Queue Rec) (k : ℕ) (r : Rec) (rs : List Rec)
      → q.workers ≡ k + 1
      → q.inbound ≡ r ∷ rs
      → Step capacity q (work_on q r rs)
  leave :
      (q : Queue Rec) (k : ℕ)
      → q.workers ≡ k + 1
      → q.inbound ≡ []
      → q.inbound_closed ≡ true
      → Step capacity q (end_worker k q)
  cancel : (q : Queue Rec) → q.waiting ≡ true → q.workers ≡ 0 → Step capacity q (cancel_all q)
  resend :
      (q : Queue Rec) (r : Rec) (rs : List Rec)
      → q.started ≡ true
      → q.resending ≡ r ∷ rs
      → q.inbound_closed ≡ false
      → length q.inbound < capacity
      → Step capacity q
          (record q { resending = rs; inbound = q.inbound ++ (r ∷ []); sent = q.sent ++ (r ∷ []) })
  resend_panics :
      (q : Queue Rec) (r : Rec) (rs : List Rec)
      → q.started ≡ true
      → q.resending ≡ r ∷ rs
      → q.inbound_closed ≡ true
      → Step capacity q (record q { panicked = true })

pub data Steps {Rec : Type 0} (capacity : ℕ) : Queue Rec → Queue Rec → Type 0 where
  done : (q : Queue Rec) → Steps capacity q q
  step : (q q' q'' : Queue Rec) → Step capacity q q' → Steps capacity q' q'' → Steps capacity q q''
