-- ===== src/Messages/Queue/Priority.antt =====
-- conduit/messages/queue.py: `PriorityMessageQueue` over `asyncio.PriorityQueue`, whose `get` takes
-- the lowest of the entries, compared as tuples. The entries are a list, the latest put first; the
-- order in it does not matter to `get`, since the counters of two entries differ.
use net_conduit.Base.{
  ℕ, ◌+◌, ◌==◌, Bool, true, false, not, ◌&&◌, Option, none, some, List, [], ◌∷◌, ltb, leb,
  if◌then◌else◌, length,
}
use net_conduit.Base.Int.{ℤ, leb_ℤ, eq_ℤ}

-- (priority, counter, item)
pub record Entry {ℓ} (T : Type ℓ) : Type ℓ where
  pub priority : ℤ
  pub counter : ℕ
  pub item : T

pub record PriorityMessageQueue {ℓ} (T : Type ℓ) : Type ℓ where
  pub entries : List (Entry T)
  pub maxsize : ℕ
  pub counter : ℕ

module _ {ℓ} {T : Type ℓ} where
  -- a < b on the tuples; the counters of a queue differ
  abbrev pub is_before : Entry T → Entry T → Bool
  is_before a b =
      if eq_ℤ a.priority b.priority then ltb a.counter b.counter else leb_ℤ a.priority b.priority

  unfoldable pub new_priority_queue : ℕ → PriorityMessageQueue T
  new_priority_queue maxsize = record { entries = []; maxsize = maxsize; counter = 0 }

  abbrev pub is_full : PriorityMessageQueue T → Bool
  is_full q = not (q.maxsize == 0) && leb q.maxsize (length q.entries)

  -- `put` counts, and then waits where the queue is full; none is a put that is done, and some is the
  -- entry of a put that waits
  unfoldable pub put : T → ℤ → PriorityMessageQueue T → PriorityMessageQueue T × Option (Entry T)
  put item priority q =
      let e : Entry T = record { priority = priority; counter = q.counter + 1; item = item } in
      let q' = record q { counter = q.counter + 1 } in
      if is_full q then (q', some e) else (record q' { entries = e ∷ q.entries }, none)

  -- a put that has waited, once there is room
  unfoldable pub finish_put : Entry T → PriorityMessageQueue T → PriorityMessageQueue T × Bool
  finish_put e q = if is_full q then (q, false) else (record q { entries = e ∷ q.entries }, true)

  -- the lowest entry, and the others
  unfoldable pub take_least : Entry T → List (Entry T) → Entry T × List (Entry T)
  take_least e [] = (e, [])
  take_least e (f ∷ fs) =
      let (g, rest) = take_least f fs in if is_before g e then (g, e ∷ rest) else (e, f ∷ fs)

  abbrev pub taken : PriorityMessageQueue T → Entry T × List (Entry T) → PriorityMessageQueue T
  taken q (e, rest) = record q { entries = rest }

  abbrev pub got :
      PriorityMessageQueue T → List (Entry T) → PriorityMessageQueue T × Option (Entry T)
  got q [] = (q, none)
  got q (e ∷ es) = (taken q (take_least e es), some (take_least e es).0)

  -- `get`; none is that the call waits
  unfoldable pub get : PriorityMessageQueue T → PriorityMessageQueue T × Option (Entry T)
  unfolding take_least
  get q = got q q.entries

  abbrev pub size : PriorityMessageQueue T → ℕ
  size q = length q.entries
