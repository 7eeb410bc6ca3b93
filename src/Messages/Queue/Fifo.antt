-- ===== src/Messages/Queue/Fifo.antt =====
-- `MessageQueue` is a bounded first-in first-out queue.
use mathlib.Core.List.{append-nil, append_assoc}
use net_conduit.Base.{
  ◌+◌, ◌≤◌, ◌≡◌, refl, ap, sym, ◌∙◌, ◌≢◌, Bool, Option, none, some, List, [], ◌∷◌, ◌++◌, arith,
  length, length-append, if◌then◌else◌, Bool-cases,
}
use net_conduit.Messages.Queue.{
  MessageQueue, Wait, asleep, timed_out, Got, answer, timeout, waiting, put_nowait, get_nowait, put,
  get, resume_put, got_from, task_done, pause, resume, clear,
}

-- The turns of the tasks. A call of `put` or `get` that cannot go on at once runs out of time, where
-- the flag says so, or sleeps; a sleeping call takes its next turn when it is woken.
pub data Op {ℓ} (T : Type ℓ) : Type ℓ where
  offer : T → Op T
  put_call : T → Bool → Op T
  put_woken : T → Op T
  get_call : Bool → Op T
  get_woken take done stop go wipe : Op T

module _ {ℓ} {T : Type ℓ} where
  abbrev settle : MessageQueue T → Option (MessageQueue T) → MessageQueue T
  settle q none = q
  settle q (some q') = q'

  abbrev pub wait_of : Bool → MessageQueue T → Wait T
  wait_of expires q = if expires then timed_out q else asleep

  unfoldable pub apply : Op T → MessageQueue T → MessageQueue T
  unfolding put_nowait get_nowait put get task_done pause resume clear
  apply (offer x) q = (put_nowait x q).0
  apply (put_call x expires) q = (put x (wait_of expires q) q).0
  apply (put_woken x) q = (resume_put x q).0
  apply (get_call expires) q = (get (wait_of expires q) q).0
  apply get_woken q = (got_from q).0
  apply take q = (get_nowait q).0
  apply done q = settle q (task_done q)
  apply stop q = pause q
  apply go q = resume q
  apply wipe q = (clear q).0

  -- The items whose put was answered by True in a turn, and those that a turn gave out or cleared.
  abbrev accepted : T → Option Bool → List T
  accepted x none = []
  accepted x (some ok) = if ok then x ∷ [] else []

  abbrev of_option : Option T → List T
  of_option none = []
  of_option (some x) = x ∷ []

  abbrev of_got : Got T → List T
  of_got (answer x) = x ∷ []
  of_got timeout = []
  of_got waiting = []

  abbrev entered : Op T → MessageQueue T → List T
  entered (offer x) q = accepted x (some (put_nowait x q).1)
  entered (put_call x expires) q = accepted x (put x (wait_of expires q) q).1
  entered (put_woken x) q = accepted x (resume_put x q).1
  entered _ q = []

  abbrev left : Op T → MessageQueue T → List T
  left (get_call expires) q = of_got (get (wait_of expires q) q).1
  left get_woken q = of_got (got_from q).1
  left take q = of_option (get_nowait q).1
  left wipe q = q.items
  left _ q = []

  unfoldable pub run : List (Op T) → MessageQueue T → MessageQueue T
  run [] q = q
  run (op ∷ ops) q = run ops (apply op q)

  unfoldable pub inputs : List (Op T) → MessageQueue T → List T
  inputs [] q = []
  inputs (op ∷ ops) q = entered op q ++ inputs ops (apply op q)

  unfoldable pub outputs : List (Op T) → MessageQueue T → List T
  outputs [] q = []
  outputs (op ∷ ops) q = left op q ++ outputs ops (apply op q)

  one_step :
      (op : Op T) (q : MessageQueue T) → q.items ++ entered op q ≡ left op q ++ (apply op q).items
  unfolding apply
  one_step (offer x) q = ground (arith, append-nil q.items)
  one_step (put_call x expires) q = ground (arith, append-nil q.items, Bool-cases expires)
  one_step (put_woken x) q = ground (arith, append-nil q.items)
  one_step (get_call expires) q = ground (arith, append-nil q.items, Bool-cases expires)
  one_step get_woken q = ground (arith, append-nil q.items)
  one_step take q = ground (arith, append-nil q.items)
  one_step done q = ground (arith, append-nil q.items)
  one_step stop q = append-nil q.items
  one_step go q = append-nil q.items
  one_step wipe q = refl

  -- Through any turns of the tasks that call put, get, put_nowait, get_nowait, task_done, pause,
  -- resume and clear, where a put or get that cannot go on at once runs out of time or sleeps, and
  -- sleeping calls are woken in any order, in a queue that has room or not: the items that the queue
  -- held and those whose put was answered by True, at once or after a wait, are those that were
  -- given out or cleared and those that it still holds, in the same order. First in, first out; a
  -- call that runs out of time neither leaves an item in the queue nor takes one.
  pub run-fifo :
      (ops : List (Op T)) (q : MessageQueue T)
      → q.items ++ inputs ops q ≡ outputs ops q ++ (run ops q).items
  unfolding run inputs outputs
  run-fifo [] q = append-nil q.items
  run-fifo (op ∷ ops) q =
      sym (append_assoc q.items (entered op q) (inputs ops (apply op q)))
      ∙ ap (λ l. l ++ inputs ops (apply op q)) (one_step op q)
      ∙ append_assoc (left op q) (apply op q).items (inputs ops (apply op q))
      ∙ ap (λ l. left op q ++ l) (run-fifo ops (apply op q))
      ∙ sym (append_assoc (left op q) (outputs ops (apply op q)) (run ops (apply op q)).items)

  -- A bounded queue holds at most `maxsize` items, and the counters account for what it holds.
  pub record IsBounded (q : MessageQueue T) : Type 0 where
    pub fits : q.maxsize ≢ 0 → length q.items ≤ q.maxsize
    pub counted : length q.items + q.total_dequeued ≤ q.total_enqueued

  apply-IsBounded : (op : Op T) (q : MessageQueue T) → IsBounded q → IsBounded (apply op q)
  unfolding apply
  apply-IsBounded (offer x) q h = ground (arith, length-append q.items (x ∷ []))
  apply-IsBounded (put_call x expires) q h =
      ground (arith, length-append q.items (x ∷ []), Bool-cases expires)
  apply-IsBounded (put_woken x) q h = ground (arith, length-append q.items (x ∷ []))
  apply-IsBounded (get_call expires) q h = ground (arith, Bool-cases expires)
  apply-IsBounded get_woken q h = ground arith
  apply-IsBounded take q h = ground arith
  apply-IsBounded done q h = ground arith
  apply-IsBounded stop q h = ground arith
  apply-IsBounded go q h = ground arith
  apply-IsBounded wipe q h = ground arith

  -- Through any such turns, a bounded queue never holds more than `maxsize` items, and it has enqueued
  -- at least what it holds and what it has dequeued.
  run-IsBounded : (ops : List (Op T)) (q : MessageQueue T) → IsBounded q → IsBounded (run ops q)
  unfolding run
  run-IsBounded [] q h = h
  run-IsBounded (op ∷ ops) q h = run-IsBounded ops (apply op q) (apply-IsBounded op q h)
