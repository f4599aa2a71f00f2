-- ===== src/Pipeline/Child/Balance.antt =====
-- internal/pipeline/pipeline.go: the counters of the loss accounting over one child.
use worm.Base.{ℕ, ◌≡◌, refl, ◌∙◌, int_laws, ℤ, ◌+ℤ◌, ◌-ℤ◌}
use worm.Library.{Library}
use worm.Model.{QuarantineEntry}
use worm.Store.Action.{Result, ok, err}
use worm.Pipeline.World.{
  World, Counters, Stages, count_quarantined, count_normalized, count_delivered, admit, run,
}
use worm.Pipeline.Child.{settle, persist_quarantine}
use worm.Pipeline.Child.Frame.{ChildFrame}

-- By how much `accepted` passes the sum of what it should equal.
abbrev pub imbalance : Counters → ℤ
imbalance c = c.accepted -ℤ (c.normalized +ℤ c.quarantined +ℤ c.pending)

abbrev pub balance_of : {S : Type 0} → World S → ℤ
balance_of w = imbalance w.counters

module _ {S : Type 0} (w : World S) where
  pub balance-count_quarantined : balance_of (count_quarantined w) ≡ balance_of w
  unfolding count_quarantined
  balance-count_quarantined = omega int_laws

  pub balance-count_normalized : balance_of (count_normalized w) ≡ balance_of w
  unfolding count_normalized
  balance-count_normalized = omega int_laws

  pub balance-count_delivered : balance_of (count_delivered w) ≡ balance_of w
  unfolding count_delivered
  balance-count_delivered = refl

  pub balance-admit : (d : ℤ) → balance_of (admit d w) ≡ balance_of w
  unfolding admit
  balance-admit d = omega int_laws

module _ ⦃lib : Library⦄ {P S : Type 0} (stages : Stages P S) (now : ℕ) where
  settle-balance :
      (r : Result Unit) (w : World S) → balance_of (settle stages now r w).1 ≡ balance_of w
  unfolding settle
  settle-balance (ok _) w = balance-count_quarantined w
  settle-balance (err _) w = refl

  persist_quarantine-balance :
      (e : QuarantineEntry) (w : World S)
      → balance_of (persist_quarantine stages now e w).1 ≡ balance_of w
  unfolding persist_quarantine
  persist_quarantine-balance e w = settle-balance _ _

  -- Each primitive of a child keeps the balance.
  pub balance-ChildFrame : ChildFrame stages now (λ u v. balance_of v ≡ balance_of u)
  unfolding run
  balance-ChildFrame = record {
    here = λ w. refl;
    trans = λ u v w p q. q ∙ p;
    outside = λ w s drawn seq. refl;
    normalized = balance-count_normalized;
    delivered = balance-count_delivered;
    persisted = persist_quarantine-balance;
    looked = λ id n w. refl;
    deleted = λ id n w. refl;
    stored = λ e dests w. refl;
  }
