-- ===== src/Ingest/Manager/Closing.antt =====
-- The life cycle of internal/ingest/adapter.go: what the channel `out` goes through.
use worm.Base.{ℕ, ◌+◌, ◌≤◌, ◌≡◌, refl, ap, Bool, true, false, ◌⊎◌, inl, inr, arith}
use worm.Ingest.Manager.{
  Lifecycle, new_manager, NoneReconciles, LifecycleStep, start, adapter_ends, adapter_fails,
  outside_begins, outside_ends, outside_sends, outside_panics, adapter_sends, send_panics,
  reconcile_running, reconcile_idle, reconcile_waited, restart, swap, stop, stop_waited, close_out,
  close_panics, LifecycleSteps, done, step,
}

-- What a `Stop` changes: `stopped`, `stopping`, `closing`, `out_closed`, `panicked`.
abbrev Status : Type 0
Status = Bool × ℕ × ℕ × Bool × Bool

abbrev status : Lifecycle → Status
status m = (m.stopped, m.stopping, m.closing, m.out_closed, m.panicked)

-- What holds before a `Stop`.
abbrev IsOpen : Lifecycle → Type 0
IsOpen m = status m ≡ (false, 0, 0, false, false)

-- What holds behind the beginning of one: no adapter is started any more, and the channel is closed
-- once, when none is live.
record IsClosing (m : Lifecycle) : Type 0 where
  pub is_stopped : m.stopped ≡ true
  pub at_rest : NoneReconciles m
  pub once : m.stopping + m.closing ≤ 1
  pub pending : m.out_closed ≡ false → m.stopping + m.closing ≡ 1
  pub closed_once : m.out_closed ≡ true → (m.stopping ≡ 0) × (m.closing ≡ 0) × (m.live ≡ 0)
  pub closing_alone : 1 ≤ m.closing → m.live ≡ 0
  pub calm : m.panicked ≡ false
  pub is_told : m.told ≡ true
  pub none_outside : m.outside ≡ 0

abbrev IsSafe : Lifecycle → Type 0
IsSafe m = IsOpen m ⊎ IsClosing m

open_step-IsSafe :
    {fails : Bool} (m m' : Lifecycle) → LifecycleStep true fails m m' → IsOpen m → IsSafe m'
open_step-IsSafe _ _ (start m n idle fresh) i = inl i
open_step-IsSafe _ _ (adapter_ends m k h t) i = inl i
open_step-IsSafe _ _ (adapter_fails m k f h) i = inl i
open_step-IsSafe _ _ (outside_begins m fresh) i = inl i
open_step-IsSafe _ _ (outside_ends m k h) i = inl i
open_step-IsSafe _ _ (outside_sends m k h o) i = inl i
open_step-IsSafe _ _ (outside_panics m k h c) i = let o = ap (λ (s : Status). s.3) i in cc
open_step-IsSafe _ _ (adapter_sends m k h o) i = inl i
open_step-IsSafe _ _ (send_panics m k h c) i = let o = ap (λ (s : Status). s.3) i in cc
open_step-IsSafe _ _ (reconcile_running m fresh r) i = inl i
open_step-IsSafe _ _ (reconcile_idle m fresh r) i = inl i
open_step-IsSafe _ _ (reconcile_waited m k h l) i = inl i
open_step-IsSafe _ _ (restart m k n h) i = inl i
open_step-IsSafe _ _ (swap m k h) i = inl i
open_step-IsSafe _ _ (stop m fresh apart) i = inr (record {
  is_stopped = refl;
  at_rest = (apart refl).0;
  once = omega (arith, ap (λ (s : Status). s.1) i, ap (λ (s : Status). s.2) i);
  pending = λ o. omega (arith, ap (λ (s : Status). s.1) i, ap (λ (s : Status). s.2) i);
  closed_once = λ c. let o = ap (λ (s : Status). s.3) i in cc;
  closing_alone = λ c. absurd (omega (arith, c, ap (λ (s : Status). s.2) i));
  calm = ap (λ (s : Status). s.4) i;
  is_told = refl;
  none_outside = (apart refl).1;
})
open_step-IsSafe _ _ (stop_waited m k h l) i = absurd (omega (arith, h, ap (λ (s : Status). s.1) i))
open_step-IsSafe _ _ (close_out m k h o) i = absurd (omega (arith, h, ap (λ (s : Status). s.2) i))
open_step-IsSafe _ _ (close_panics m k h o) i =
    absurd (omega (arith, h, ap (λ (s : Status). s.2) i))

-- What a step behind a `Stop` leaves.
stopped_step-IsClosing :
    {fails : Bool} (m m' : Lifecycle) → LifecycleStep true fails m m' → IsClosing m → IsClosing m'
stopped_step-IsClosing _ _ (start m n idle fresh) i = let s = i.is_stopped in cc
stopped_step-IsClosing _ _ (adapter_ends m k h t) i = record {
  is_stopped = i.is_stopped;
  at_rest = i.at_rest;
  once = i.once;
  pending = i.pending;
  closed_once = λ c. let (s, t', l) = i.closed_once c in absurd (omega (arith, h, l));
  closing_alone = λ c. let l = i.closing_alone c in absurd (omega (arith, h, l));
  calm = i.calm;
  is_told = i.is_told;
  none_outside = i.none_outside;
}
stopped_step-IsClosing _ _ (adapter_fails m k f h) i = record {
  is_stopped = i.is_stopped;
  at_rest = i.at_rest;
  once = i.once;
  pending = i.pending;
  closed_once = λ c. let (s, t, l) = i.closed_once c in absurd (omega (arith, h, l));
  closing_alone = λ c. let l = i.closing_alone c in absurd (omega (arith, h, l));
  calm = i.calm;
  is_told = i.is_told;
  none_outside = i.none_outside;
}
stopped_step-IsClosing _ _ (outside_begins m fresh) i =
    let s = i.is_stopped in let f = fresh refl in cc
stopped_step-IsClosing _ _ (outside_ends m k h) i = absurd (omega (arith, h, i.none_outside))
stopped_step-IsClosing _ _ (outside_sends m k h o) i = i
stopped_step-IsClosing _ _ (outside_panics m k h c) i = absurd (omega (arith, h, i.none_outside))
stopped_step-IsClosing _ _ (adapter_sends m k h o) i = i
stopped_step-IsClosing _ _ (send_panics m k h c) i =
    let (s, t, l) = i.closed_once c in absurd (omega (arith, h, l))
stopped_step-IsClosing _ _ (reconcile_running m fresh r) i = let s = i.is_stopped in cc
stopped_step-IsClosing _ _ (reconcile_idle m fresh r) i = let s = i.is_stopped in cc
stopped_step-IsClosing _ _ (reconcile_waited m k h l) i = absurd (omega (arith, h, i.at_rest.0))
stopped_step-IsClosing _ _ (restart m k n h) i = absurd (omega (arith, h, i.at_rest.1))
stopped_step-IsClosing _ _ (swap m k h) i = absurd (omega (arith, h, i.at_rest.2))
stopped_step-IsClosing _ _ (stop m fresh apart) i = let s = i.is_stopped in cc
stopped_step-IsClosing _ _ (stop_waited m k h l) i = record {
  is_stopped = i.is_stopped;
  at_rest = i.at_rest;
  once = omega (arith, i.once, h);
  pending = λ o. let p = i.pending o in omega (arith, p, h);
  closed_once = λ c. let (s, t, l') = i.closed_once c in absurd (omega (arith, h, s));
  closing_alone = λ c. l;
  calm = i.calm;
  is_told = i.is_told;
  none_outside = i.none_outside;
}
stopped_step-IsClosing _ _ (close_out m k h o) i = record {
  is_stopped = i.is_stopped;
  at_rest = i.at_rest;
  once = omega (arith, i.once, h);
  pending = λ o'. cc;
  closed_once =
      λ c. (omega (arith, i.once, h), omega (arith, i.once, h), i.closing_alone (omega (arith, h)));
  closing_alone = λ c. i.closing_alone (omega (arith, h));
  calm = i.calm;
  is_told = i.is_told;
  none_outside = i.none_outside;
}
stopped_step-IsClosing _ _ (close_panics m k h o) i =
    let (s, t, l) = i.closed_once o in absurd (omega (arith, h, t))

steps-IsSafe :
    {fails : Bool} (m m' : Lifecycle) → LifecycleSteps true fails m m' → IsSafe m → IsSafe m'
steps-IsSafe _ _ (done m) i = i
steps-IsSafe _ _ (step m m' m'' s ss) (inl i) = steps-IsSafe m' m'' ss (open_step-IsSafe m m' s i)
steps-IsSafe _ _ (step m m' m'' s ss) (inr i) =
    steps-IsSafe m' m'' ss (inr (stopped_step-IsClosing m m' s i))

reachable-IsSafe :
    {fails : Bool} (m : Lifecycle) → LifecycleSteps true fails new_manager m → IsSafe m
reachable-IsSafe m ss = steps-IsSafe new_manager m ss (inl refl)

-- Where no Stop begins while a Reconcile is under way or a sender outside the wait group is at work,
-- and no such sender begins behind it, then in every order of the steps of the callers, the adapters
-- and these senders nothing is sent on the closed channel and it is closed once; when it is closed,
-- no adapter is live.
pub steps_new-calm :
    (fails : Bool) (m : Lifecycle)
    → LifecycleSteps true fails new_manager m
    → (m.panicked ≡ false) × (m.out_closed ≡ true → m.live ≡ 0)
steps_new-calm fails m ss = elim (reachable-IsSafe m ss) [
  | inl i ↦ (ap (λ (s : Status). s.4) i, λ c. let o = ap (λ (s : Status). s.3) i in cc)
  | inr i ↦ (i.calm, λ c. (i.closed_once c).2)
]

-- Steps that lead to a closed channel, none of them an adapter that returns before it is told to.
abbrev pub Closes : Lifecycle → Type 0
Closes m = (m' : Lifecycle) × LifecycleSteps true false m m' × (m'.out_closed ≡ true)
