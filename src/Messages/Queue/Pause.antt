-- ===== src/Messages/Queue/Pause.antt =====
-- What `pause` and `clear` of `MessageQueue` do to calls that wait.
use net_conduit.Base.{ℕ, ◌+◌, ◌≡◌, refl, ◌≢◌, true, false, some, List, [], ◌∷◌, arith, length}
use net_conduit.Messages.Queue.{
  MessageQueue, Wait, woken, is_full, put_nowait, put, accept, pause, drain, clear, join_returns,
}

module _ {ℓ} {T : Type ℓ} where
  -- A paused queue refuses every call of `put` and `put_nowait` that begins then, and stays as it
  -- is; but a `put` that began before the pause, on a full queue, is accepted when the paused queue
  -- has room.
  pause-put :
      (x : T) (w : Wait T) (q q' : MessageQueue T)
      → q.is_paused ≡ false
      → is_full q ≡ true
      → is_full q' ≡ false
      → (put_nowait x (pause q) ≡ (pause q, false))
        × (put x w (pause q) ≡ (pause q, some false))
        × (put x (woken (pause q')) q ≡ (accept x (pause q'), some true))
  unfolding put_nowait put pause
  pause-put x w q q' run full room = (refl, refl, ground arith)

  drain-eq : (xs : List T) (n : ℕ) → drain xs n ≡ n + length xs
  drain-eq [] n = omega arith
  drain-eq (x ∷ xs) n = omega (arith, drain-eq xs (n + 1))

  -- `clear` returns the number of items that it removed and leaves none, but it marks none of them
  -- as done: where each item still stood for an unfinished task, `join` waits after it, until as
  -- many calls of `task_done` have been made.
  clear-join :
      (q : MessageQueue T)
      → q.items ≢ []
      → q.unfinished ≡ length q.items
      → ((clear q).1 ≡ length q.items)
        × ((clear q).0.items ≡ [])
        × ((clear q).0.unfinished ≡ (clear q).1)
        × (join_returns (clear q).0 ≡ false)
  unfolding clear join_returns
  clear-join q some_items u = ground (arith, drain-eq q.items 0)
