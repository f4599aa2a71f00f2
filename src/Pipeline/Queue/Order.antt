-- ===== src/Pipeline/Queue/Order.antt =====
-- The queue of internal/pipeline/pipeline.go: what holds of it in every order of the steps.
use worm.Base.{
  ℕ, ◌≤◌, ◌≡◌, refl, sym, ◌∙◌, ap, true, false, List, [], ◌∷◌, ◌++◌, length, length-append,
  append_assoc, arith, Bool-cases, inl, inr, ◌⊎◌,
}
use worm.Pipeline.Queue.{
  Queue, new_queue, Step, begin_submit, submit, submit_panics, submit_refused, stop, close_inbound,
  close_panics, take, resend, start, leave, cancel, start_workers, stop_submits, close_channel,
  resend_panics, Steps, done, step,
}

module _ {Rec : Type 0} (capacity : ℕ) where
  -- What every step keeps.
  record Invariant (q : Queue Rec) : Type 0 where
    pub no_panic : q.panicked ≡ false
    pub bounded : length q.inbound ≤ capacity
    pub in_order : q.taken ++ q.inbound ≡ q.sent
    pub none_resent : q.resending ≡ []
    pub closed_last :
        q.inbound_closed ≡ true
        → (q.submit_closed ≡ true) × (q.submitters ≡ 0) × (q.stopping ≡ false)
    pub stop_waits : q.stopping ≡ true → (q.submit_closed ≡ true) × (q.inbound_closed ≡ false)
    pub left_last : 1 ≤ q.ended → (q.inbound_closed ≡ true) × (q.inbound ≡ [])
    pub stop_goes_on : q.inbound_closed ≡ true → (q.waiting ≡ true) ⊎ (q.cancelled ≡ true)

  new_queue-Invariant : Invariant (new_queue [])
  new_queue-Invariant = record {
    no_panic = refl;
    bounded = omega arith;
    in_order = refl;
    none_resent = refl;
    closed_last = λ h. cc;
    stop_waits = λ h. cc;
    left_last = λ h. absurd (omega (arith, h));
    stop_goes_on = λ h. cc;
  }

  sent_on :
      (taken inbound sent : List Rec) (r : Rec)
      → taken ++ inbound ≡ sent
      → taken ++ (inbound ++ (r ∷ [])) ≡ sent ++ (r ∷ [])
  sent_on taken inbound sent r h =
      sym (append_assoc taken inbound (r ∷ [])) ∙ ap (λ x. x ++ (r ∷ [])) h

  still_open : (q : Queue Rec) → q.submit_closed ≡ false → Invariant q → q.inbound_closed ≡ false
  still_open q h i = elim (Bool-cases q.inbound_closed) [
    | inl e ↦ let c = (i.closed_last e).0 in cc
    | inr e ↦ e
  ]

  step-Invariant : (q q' : Queue Rec) → Step capacity q q' → Invariant q → Invariant q'
  step-Invariant _ _ (begin_submit q open_) i = record {
    no_panic = i.no_panic;
    bounded = i.bounded;
    in_order = i.in_order;
    none_resent = i.none_resent;
    closed_last = λ h. let c = (i.closed_last h).0 in cc;
    stop_waits = i.stop_waits;
    left_last = i.left_last;
    stop_goes_on = i.stop_goes_on;
  }
  step-Invariant _ _ (submit q r n k open_ room) i = record {
    no_panic = i.no_panic;
    bounded = omega (arith, room, length-append q.inbound (r ∷ []));
    in_order = sent_on q.taken q.inbound q.sent r i.in_order;
    none_resent = i.none_resent;
    closed_last = λ h. cc;
    stop_waits = i.stop_waits;
    left_last = λ h. let c = (i.left_last h).0 in cc;
    stop_goes_on = i.stop_goes_on;
  }
  step-Invariant _ _ (submit_panics q n k closed) i =
      let z = (i.closed_last closed).1 in absurd (omega (arith, z, k))
  step-Invariant _ _ (submit_refused q n k) i = record {
    no_panic = i.no_panic;
    bounded = i.bounded;
    in_order = i.in_order;
    none_resent = i.none_resent;
    closed_last = λ h. let z = (i.closed_last h).1 in absurd (omega (arith, z, k));
    stop_waits = i.stop_waits;
    left_last = i.left_last;
    stop_goes_on = i.stop_goes_on;
  }
  step-Invariant _ _ (stop q open_) i = record {
    no_panic = i.no_panic;
    bounded = i.bounded;
    in_order = i.in_order;
    none_resent = i.none_resent;
    closed_last = λ h. let c = (i.closed_last h).0 in cc;
    stop_waits = λ h. (refl, still_open q open_ i);
    left_last = i.left_last;
    stop_goes_on = i.stop_goes_on;
  }
  step-Invariant _ _ (close_inbound q waits none open_) i = record {
    no_panic = i.no_panic;
    bounded = i.bounded;
    in_order = i.in_order;
    none_resent = i.none_resent;
    closed_last = λ h. ((i.stop_waits waits).0, none, refl);
    stop_waits = λ h. cc;
    left_last = λ h. (refl, (i.left_last h).1);
    stop_goes_on = λ h. inl refl;
  }
  step-Invariant _ _ (close_panics q waits none closed) i = let c = (i.stop_waits waits).1 in cc
  step-Invariant _ _ (take q k r rs w h) i = record {
    no_panic = i.no_panic;
    bounded = omega (arith, i.bounded, ap length h);
    in_order = append_assoc q.taken (r ∷ []) rs ∙ ap (λ x. q.taken ++ x) (sym h) ∙ i.in_order;
    none_resent = i.none_resent;
    closed_last = i.closed_last;
    stop_waits = i.stop_waits;
    left_last = λ b. let e = (i.left_last b).1 in cc;
    stop_goes_on = i.stop_goes_on;
  }
  step-Invariant _ _ (start q n fresh) i = record {
    no_panic = i.no_panic;
    bounded = i.bounded;
    in_order = i.in_order;
    none_resent = i.none_resent;
    closed_last = i.closed_last;
    stop_waits = i.stop_waits;
    left_last = i.left_last;
    stop_goes_on = i.stop_goes_on;
  }
  step-Invariant _ _ (leave q k w empty closed) i = record {
    no_panic = i.no_panic;
    bounded = i.bounded;
    in_order = i.in_order;
    none_resent = i.none_resent;
    closed_last = i.closed_last;
    stop_waits = i.stop_waits;
    left_last = λ h. (closed, empty);
    stop_goes_on = i.stop_goes_on;
  }
  step-Invariant _ _ (cancel q waits none) i = record {
    no_panic = i.no_panic;
    bounded = i.bounded;
    in_order = i.in_order;
    none_resent = i.none_resent;
    closed_last = i.closed_last;
    stop_waits = i.stop_waits;
    left_last = i.left_last;
    stop_goes_on = λ h. inr refl;
  }
  step-Invariant _ _ (resend q r rs st h open_ room) i = let e = i.none_resent in cc
  step-Invariant _ _ (resend_panics q r rs st h closed) i = let e = i.none_resent in cc

  steps-Invariant : (q q' : Queue Rec) → Steps capacity q q' → Invariant q → Invariant q'
  steps-Invariant _ _ (done q) i = i
  steps-Invariant _ _ (step q q' q'' s ss) i = steps-Invariant q' q'' ss (step-Invariant q q' s i)

  steps_new-Invariant : (q : Queue Rec) → Steps capacity (new_queue []) q → Invariant q
  steps_new-Invariant q ss = steps-Invariant (new_queue []) q ss new_queue-Invariant

  -- Where the store holds no accepted record at the start, then in every order in which submitters,
  -- workers and callers of Stop take their steps: nothing is sent on the closed channel and it is
  -- closed once, its buffer holds no more than its capacity, and what the workers have taken with
  -- what the buffer holds is what was sent, in the order of the sends.
  pub steps_new_ordered :
      (q : Queue Rec)
      → Steps capacity (new_queue []) q
      → (q.panicked ≡ false) × (length q.inbound ≤ capacity) × (q.taken ++ q.inbound ≡ q.sent)
  steps_new_ordered q ss = let i = steps_new-Invariant q ss in (i.no_panic, i.bounded, i.in_order)

  -- Steps that lead to the end of Stop, where all that was sent is taken.
  abbrev pub Ends : Queue Rec → Type 0
  Ends q = (q' : Queue Rec) × Steps capacity q q' × (q'.cancelled ≡ true) × (q'.taken ≡ q.sent)

  -- Start sends the accepted records of the store without the guard of the submitters: where there
  -- is one, a Stop before it is sent leads to a send on the closed channel, which panics.
  pub resend_panicked :
      (r : Rec) (rs : List Rec)
      → (q : Queue Rec) × Steps capacity (new_queue (r ∷ rs)) q × (q.panicked ≡ true)
  resend_panicked r rs =
      let q₀ = new_queue (r ∷ rs) in
      let q₁ = start_workers 0 q₀ in
      let q₂ = stop_submits q₁ in
      let q₃ = close_channel q₂ in
      let q₄ = record q₃ { panicked = true } in
      (
        q₄,
        step q₀ q₁ q₄ (start q₀ 0 refl) (
            step q₁ q₂ q₄ (stop q₁ refl) (
              step q₂ q₃ q₄ (close_inbound q₂ refl refl refl)
                (step q₃ q₄ q₄ (resend_panics q₃ r rs refl refl refl) (done q₄)))),
        refl,
      )
