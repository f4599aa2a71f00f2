-- ===== src/Tests/Queue.antt =====
-- A queue for one record that is used and stopped.
use worm.Base.{ℕ, ◌≤◌, ◌≡◌, refl, true, false, [], ◌∷◌, ◌++◌, length, arith}
use worm.Pipeline.Queue.{
  Queue, new_queue, begin_submit, submit, stop, close_inbound, Steps, done, step, start,
  start_workers, close_channel,
}
use worm.Pipeline.Queue.Order.{steps_new_ordered, resend_panicked}

abbrev fresh : Queue ℕ
fresh = new_queue []

abbrev running : Queue ℕ
running = start_workers 1 fresh

abbrev submitting : Queue ℕ
submitting = record running { submitters = 1 }

abbrev stopping : Queue ℕ
stopping = record submitting { submit_closed = true; stopping = true }

abbrev filled : Queue ℕ
filled = record stopping { submitters = 0; inbound = 7 ∷ []; sent = 7 ∷ [] }

abbrev closed : Queue ℕ
closed = close_channel filled

to_closed : Steps 1 fresh closed
to_closed = step fresh running closed (start fresh 1 refl) (
    step running submitting closed (begin_submit running refl) (
      step submitting stopping closed (stop submitting refl) (
        step stopping filled closed (submit stopping 7 0 refl refl (omega arith))
          (step filled closed closed (close_inbound filled refl refl refl) (done closed)))))

steps_new_ordered_example :
    (closed.panicked ≡ false)
    × (length closed.inbound ≤ 1)
    × (closed.taken ++ closed.inbound ≡ closed.sent)
steps_new_ordered_example = steps_new_ordered 1 closed to_closed

resend_panicked_example : (q : Queue ℕ) × Steps 1 (new_queue (7 ∷ [])) q × (q.panicked ≡ true)
resend_panicked_example = resend_panicked 1 7 []
