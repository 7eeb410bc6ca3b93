-- ===== src/Messages/Queue.antt =====
-- conduit/messages/queue.py: `MessageQueue` over `asyncio.Queue`. The inner queue is the list of its
-- items, the oldest first, and the number of tasks that `join` waits for. A call that has to wait
-- takes what happens while it waits as an argument: other tasks run then, and change the queue.
pub mod Fifo
pub mod Pause
pub mod Priority
pub mod ByPriority
pub mod Examples
use net_conduit.Base.{
  ℕ, zero, suc, ◌+◌, ◌-◌, ◌≡◌, Bool, true, false, not, ◌&&◌, Option, none, some, List, [], ◌∷◌,
  ◌++◌, ltb, leb, ◌==◌, if◌then◌else◌, length,
}

pub record MessageQueue {ℓ} (T : Type ℓ) : Type ℓ where
  pub items : List T
  pub unfinished : ℕ
  pub maxsize : ℕ
  pub total_enqueued : ℕ
  pub total_dequeued : ℕ
  pub is_paused : Bool

-- What a waiting call sees: nothing yet, a wake-up in a changed queue, or the end of its timeout.
pub data Wait {ℓ} (T : Type ℓ) : Type ℓ where
  asleep : Wait T
  woken timed_out : MessageQueue T → Wait T

-- What `get` gives: an item, None at the end of the timeout, or no answer yet.
pub data Got {ℓ} (T : Type ℓ) : Type ℓ where
  answer : T → Got T
  timeout waiting : Got T

module _ {ℓ} {T : Type ℓ} where
  -- `MessageQueue(maxsize)`; 0 is unlimited
  unfoldable pub new_queue : ℕ → MessageQueue T
  new_queue maxsize = record {
    items = [];
    unfinished = 0;
    maxsize = maxsize;
    total_enqueued = 0;
    total_dequeued = 0;
    is_paused = false;
  }

  -- Queue.full, qsize and empty
  abbrev pub is_full : MessageQueue T → Bool
  is_full q = not (q.maxsize == 0) && leb q.maxsize (length q.items)

  abbrev pub size : MessageQueue T → ℕ
  size q = length q.items

  abbrev pub is_empty : MessageQueue T → Bool
  is_empty q = length q.items == 0

  -- the inner queue takes an item, and the count goes up
  abbrev pub accept : T → MessageQueue T → MessageQueue T
  accept item q = record q {
    items = q.items ++ item ∷ [];
    unfinished = q.unfinished + 1;
    total_enqueued = q.total_enqueued + 1;
  }

  unfoldable pub put_nowait : T → MessageQueue T → MessageQueue T × Bool
  put_nowait item q =
      if q.is_paused then (q, false) else if is_full q then (q, false) else (accept item q, true)

  -- a `put` that waited, once it is woken: it sleeps again where the queue is full
  abbrev pub resume_put : T → MessageQueue T → MessageQueue T × Option Bool
  resume_put item q = if is_full q then (q, none) else (accept item q, some true)

  -- `put`: the answer is `none` while the call waits. The pause is tested before the wait only.
  unfoldable pub put : T → Wait T → MessageQueue T → MessageQueue T × Option Bool
  put item w q =
      if q.is_paused
      then (q, some false)
      else if is_full q
      then elim w as (λ _. MessageQueue T × Option Bool) [
        | asleep ↦ (q, none)
        | woken q' ↦ resume_put item q'
        | timed_out q' ↦ (q', some false)
      ]
      else (accept item q, some true)

  -- the oldest item leaves
  abbrev pub pop : MessageQueue T → List T → MessageQueue T
  pop q rest = record q { items = rest; total_dequeued = q.total_dequeued + 1 }

  unfoldable pub get_nowait : MessageQueue T → MessageQueue T × Option T
  get_nowait q = elim q.items [ [] ↦ (q, none) | x ∷ rest ↦ (pop q rest, some x) ]

  -- a `get` that waited, once it is woken
  abbrev pub got_from : MessageQueue T → MessageQueue T × Got T
  got_from q = elim q.items [ [] ↦ (q, waiting) | x ∷ rest ↦ (pop q rest, answer x) ]

  unfoldable pub get : Wait T → MessageQueue T → MessageQueue T × Got T
  get w q = elim q.items [
    | x ∷ rest ↦ (pop q rest, answer x)
    | [] ↦ elim w as (λ _. MessageQueue T × Got T) [
      | asleep ↦ (q, waiting)
      | woken q' ↦ got_from q'
      | timed_out q' ↦ (q', timeout)
    ]
  ]

  -- `task_done` raises ValueError when it is called more often than items were put.
  unfoldable pub task_done : MessageQueue T → Option (MessageQueue T)
  task_done q =
      if q.unfinished == 0 then none else some (record q { unfinished = q.unfinished - 1 })

  -- `join` returns at once, or waits.
  unfoldable pub join_returns : MessageQueue T → Bool
  join_returns q = q.unfinished == 0

  unfoldable pub pause : MessageQueue T → MessageQueue T
  pause q = record q { is_paused = true }

  unfoldable pub resume : MessageQueue T → MessageQueue T
  resume q = record q { is_paused = false }

  -- The loop of `clear` takes items from the inner queue until it is empty.
  abbrev pub drain : List T → ℕ → ℕ
  drain [] count = count
  drain (x ∷ rest) count = drain rest (count + 1)

  unfoldable pub clear : MessageQueue T → MessageQueue T × ℕ
  clear q = (record q { items = [] }, drain q.items 0)
