-- ===== src/Ingest/Manager.antt =====
-- The life cycle of internal/ingest/adapter.go: `Start`, `Reconcile`, `Stop`, `launchLocked` and the
-- adapters that these start, as steps that any goroutine may take. A call is cut where it lets go of
-- the mutex: a step is what it does while it holds it, or a wait that ends. A send on the channel
-- `out`, or a close of it, panics where it is closed.
pub mod Closing
use worm.Base.{ℕ, ◌+◌, ◌≡◌, Bool, true, false}

-- `live` is the count of the wait group, the adapters whose `Start` has not returned. A `Reconcile`
-- of a running manager waits for them in `restarting` and goes on in `waited`, one of an idle manager
-- is in `swapping`; a `Stop` waits for them in `stopping` and goes on in `closing`. `told` says that the
-- adapters' context is cancelled and their `Stop` called, and `outside` counts the senders that no wait
-- group counts: the users of `Inbound`, and handlers of an HTTP listener behind its `Shutdown`.
pub record Lifecycle : Type 0 where
  pub running : Bool
  pub stopped : Bool
  pub live : ℕ
  pub restarting : ℕ
  pub waited : ℕ
  pub swapping : ℕ
  pub stopping : ℕ
  pub closing : ℕ
  pub out_closed : Bool
  pub panicked : Bool
  pub told : Bool
  pub outside : ℕ

-- `NewManager`
abbrev pub new_manager : Lifecycle
new_manager = record {
  running = false;
  stopped = false;
  live = 0;
  restarting = 0;
  waited = 0;
  swapping = 0;
  stopping = 0;
  closing = 0;
  out_closed = false;
  panicked = false;
  told = false;
  outside = 0;
}

-- No `Reconcile` is under way.
abbrev pub NoneReconciles : Lifecycle → Type 0
NoneReconciles m = (m.restarting ≡ 0) × (m.waited ≡ 0) × (m.swapping ≡ 0)

-- `launchLocked` with as many adapters.
abbrev pub launch : ℕ → Lifecycle → Lifecycle
launch n m = record m { running = true; live = m.live + n; told = false }

abbrev pub begin_stop : Lifecycle → Lifecycle
begin_stop m = record m { running = false; stopped = true; stopping = m.stopping + 1; told = true }

-- Where `apart` is true, the callers see to it that no `Stop` begins while a `Reconcile` is under
-- way or a sender outside the wait group is at work, and that none of these begins behind it. Where
-- `fails` is false, no adapter returns from its `Start` before it is told to.
pub data LifecycleStep (apart fails : Bool) : Lifecycle → Lifecycle → Type 0 where
  start :
      (m : Lifecycle) (n : ℕ)
      → m.running ≡ false
      → m.stopped ≡ false
      → LifecycleStep apart fails m (launch n m)
  adapter_ends :
      (m : Lifecycle) (k : ℕ)
      → m.live ≡ k + 1
      → m.told ≡ true
      → LifecycleStep apart fails m (record m { live = k })
  adapter_fails :
      (m : Lifecycle) (k : ℕ)
      → fails ≡ true
      → m.live ≡ k + 1
      → LifecycleStep apart fails m (record m { live = k })
  adapter_sends :
      (m : Lifecycle) (k : ℕ)
      → m.live ≡ k + 1
      → m.out_closed ≡ false
      → LifecycleStep apart fails m m
  send_panics :
      (m : Lifecycle) (k : ℕ)
      → m.live ≡ k + 1
      → m.out_closed ≡ true
      → LifecycleStep apart fails m (record m { panicked = true })
  outside_begins :
      (m : Lifecycle)
      → (apart ≡ true → m.stopped ≡ false)
      → LifecycleStep apart fails m (record m { outside = m.outside + 1 })
  outside_ends :
      (m : Lifecycle) (k : ℕ)
      → m.outside ≡ k + 1
      → LifecycleStep apart fails m (record m { outside = k })
  outside_sends :
      (m : Lifecycle) (k : ℕ)
      → m.outside ≡ k + 1
      → m.out_closed ≡ false
      → LifecycleStep apart fails m m
  outside_panics :
      (m : Lifecycle) (k : ℕ)
      → m.outside ≡ k + 1
      → m.out_closed ≡ true
      → LifecycleStep apart fails m (record m { panicked = true })
  reconcile_running :
      (m : Lifecycle)
      → m.stopped ≡ false
      → m.running ≡ true
      → LifecycleStep apart fails m
          (record m { running = false; restarting = m.restarting + 1; told = true })
  reconcile_idle :
      (m : Lifecycle)
      → m.stopped ≡ false
      → m.running ≡ false
      → LifecycleStep apart fails m (record m { swapping = m.swapping + 1 })
  reconcile_waited :
      (m : Lifecycle) (k : ℕ)
      → m.restarting ≡ k + 1
      → m.live ≡ 0
      → LifecycleStep apart fails m (record m { restarting = k; waited = m.waited + 1 })
  restart :
      (m : Lifecycle) (k n : ℕ)
      → m.waited ≡ k + 1
      → LifecycleStep apart fails m (launch n (record m { waited = k }))
  swap :
      (m : Lifecycle) (k : ℕ)
      → m.swapping ≡ k + 1
      → LifecycleStep apart fails m (record m { swapping = k })
  stop :
      (m : Lifecycle)
      → m.stopped ≡ false
      → (apart ≡ true → NoneReconciles m × (m.outside ≡ 0))
      → LifecycleStep apart fails m (begin_stop m)
  stop_waited :
      (m : Lifecycle) (k : ℕ)
      → m.stopping ≡ k + 1
      → m.live ≡ 0
      → LifecycleStep apart fails m (record m { stopping = k; closing = m.closing + 1 })
  close_out :
      (m : Lifecycle) (k : ℕ)
      → m.closing ≡ k + 1
      → m.out_closed ≡ false
      → LifecycleStep apart fails m (record m { closing = k; out_closed = true })
  close_panics :
      (m : Lifecycle) (k : ℕ)
      → m.closing ≡ k + 1
      → m.out_closed ≡ true
      → LifecycleStep apart fails m (record m { panicked = true })

pub data LifecycleSteps (apart fails : Bool) : Lifecycle → Lifecycle → Type 0 where
  done : (m : Lifecycle) → LifecycleSteps apart fails m m
  step :
      (m m' m'' : Lifecycle)
      → LifecycleStep apart fails m m'
      → LifecycleSteps apart fails m' m''
      → LifecycleSteps apart fails m m''
