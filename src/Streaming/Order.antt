-- ===== src/Streaming/Order.antt =====
-- The order and the bound of the subscribers' queues of a `BidirectionalStream`.
use net_conduit.Base.{
  ℕ, ◌+◌, ◌≤◌, ◌≡◌, refl, Bool, true, false, ◌&&◌, ◌||◌, List, [], ◌∷◌, ◌++◌, String, arith, ltb,
  leb, ◌==◌, if◌then◌else◌, length, length-append, str_eq,
}
use net_conduit.Base.Dict.{Dict, insert, erase}
use net_conduit.Streaming.{
  Item, pushed, posted, closed, BidirectionalStream, Callbacks, new_stream, subscribe, unsubscribe,
  push, post, close, receive, offer, offer_all,
}

-- The calls of a stream's owner and of its subscribers; a subscriber takes the oldest item of its
-- queue.
pub data Action {ℓ} (T : Type ℓ) : Type ℓ where
  join leave take_one : String → Action T
  send deliver : T → ℕ → Action T
  next stop : Action T

module _ {ℓ} {T : Type ℓ} where
  abbrev tail : List (Item T) → List (Item T)
  tail [] = []
  tail (x ∷ rest) = rest

  unfoldable pub take_from : String → Dict (List (Item T)) → Dict (List (Item T))
  take_from id [] = []
  take_from id ((j, q) ∷ rest) =
      if str_eq j id then (j, tail q) ∷ rest else (j, q) ∷ take_from id rest

  unfoldable pub apply : Action T → BidirectionalStream T → BidirectionalStream T
  apply (join id) s = subscribe id s
  apply (leave id) s = unsubscribe id s
  apply (take_one id) s = record s { subscribers = take_from id s.subscribers }
  apply (send content now) s = (push content now s).0
  apply (deliver content now) s = (post content now s).0
  apply next s = (receive s).0
  apply stop s = close s

  unfoldable pub run : List (Action T) → BidirectionalStream T → BidirectionalStream T
  run [] s = s
  run (a ∷ rest) s = run rest (apply a s)

  -- Pushed messages alone, their sequence numbers from `low` on, ascending and below `high`.
  abbrev pub ascending : ℕ → ℕ → List (Item T) → Bool
  ascending low high [] = true
  ascending low high (pushed stream stream_id content timestamp sequence ∷ rest) =
      leb low sequence && ltb sequence high && ascending (sequence + 1) high rest
  ascending low high (posted stream content timestamp ∷ rest) = false
  ascending low high (closed stream ∷ rest) = false

  abbrev pub fits : ℕ → List (Item T) → Bool
  fits maxsize q = maxsize == 0 || leb (length q) maxsize

  -- What holds of every subscriber's queue.
  abbrev pub good_queues : ℕ → ℕ → Dict (List (Item T)) → Bool
  good_queues maxsize high [] = true
  good_queues maxsize high ((id, q) ∷ d) =
      ascending 0 high q && fits maxsize q && good_queues maxsize high d

  ascending-low :
      (low low' high : ℕ) (q : List (Item T))
      → low' ≤ low
      → ascending low high q ≡ true
      → ascending low' high q ≡ true
  ascending-low low low' high [] h g = refl
  ascending-low low low' high (pushed a b c d e ∷ q) h g = ground arith
  ascending-low low low' high (posted a b c ∷ q) h g = ground arith
  ascending-low low low' high (closed a ∷ q) h g = ground arith

  ascending-high :
      (low high : ℕ) (q : List (Item T))
      → ascending low high q ≡ true
      → ascending low (high + 1) q ≡ true
  ascending-high low high [] g = refl
  ascending-high low high (pushed a b c d e ∷ q) g = ground (arith, ascending-high (e + 1) high q)
  ascending-high low high (posted a b c ∷ q) g = ground arith
  ascending-high low high (closed a ∷ q) g = ground arith

  ascending-append :
      (low high : ℕ) (q : List (Item T)) (a b : String) (content : T) (now : ℕ)
      → low ≤ high
      → ascending low high q ≡ true
      → ascending low (high + 1) (q ++ pushed a b content now high ∷ []) ≡ true
  ascending-append low high [] a b content now l g = ground arith
  ascending-append low high (pushed x y z w e ∷ q) a b content now l g =
      ground (arith, ascending-append (e + 1) high q a b content now)
  ascending-append low high (posted x y z ∷ q) a b content now l g = ground arith
  ascending-append low high (closed x ∷ q) a b content now l g = ground arith

  offer-good :
      (maxsize high : ℕ) (q : List (Item T)) (a b : String) (content : T) (now : ℕ)
      → (ascending 0 high q && fits maxsize q) ≡ true
      → (ascending 0 (high + 1) (offer maxsize (pushed a b content now high) q)
          && fits maxsize (offer maxsize (pushed a b content now high) q))
        ≡ true
  offer-good maxsize high q a b content now g = ground (
    arith,
    ascending-append 0 high q a b content now,
    ascending-high 0 high q,
    length-append q (pushed a b content now high ∷ []),
  )

  offer_all-good :
      (maxsize high : ℕ) (d : Dict (List (Item T))) (a b : String) (content : T) (now : ℕ)
      → good_queues maxsize high d ≡ true
      → good_queues maxsize (high + 1) (offer_all maxsize (pushed a b content now high) d) ≡ true
  unfolding offer_all
  offer_all-good maxsize high [] a b content now g = refl
  offer_all-good maxsize high ((id, q) ∷ d) a b content now g = ground (
    arith,
    offer-good maxsize high q a b content now,
    offer_all-good maxsize high d a b content now,
  )

  insert-good :
      (maxsize high : ℕ) (id : String) (d : Dict (List (Item T)))
      → good_queues maxsize high d ≡ true
      → good_queues maxsize high (insert id [] d) ≡ true
  unfolding insert
  insert-good maxsize high id [] g = ground arith
  insert-good maxsize high id ((j, q) ∷ d) g = ground (arith, insert-good maxsize high id d)

  erase-good :
      (maxsize high : ℕ) (id : String) (d : Dict (List (Item T)))
      → good_queues maxsize high d ≡ true
      → good_queues maxsize high (erase id d) ≡ true
  unfolding erase
  erase-good maxsize high id [] g = refl
  erase-good maxsize high id ((j, q) ∷ d) g = ground (arith, erase-good maxsize high id d)

  tail-good :
      (maxsize high : ℕ) (q : List (Item T))
      → (ascending 0 high q && fits maxsize q) ≡ true
      → (ascending 0 high (tail q) && fits maxsize (tail q)) ≡ true
  tail-good maxsize high [] g = g
  tail-good maxsize high (pushed a b c d e ∷ q) g = ground (arith, ascending-low (e + 1) 0 high q)
  tail-good maxsize high (posted a b c ∷ q) g = ground arith
  tail-good maxsize high (closed a ∷ q) g = ground arith

  take_from-good :
      (maxsize high : ℕ) (id : String) (d : Dict (List (Item T)))
      → good_queues maxsize high d ≡ true
      → good_queues maxsize high (take_from id d) ≡ true
  unfolding take_from
  take_from-good maxsize high id [] g = refl
  take_from-good maxsize high id ((j, q) ∷ d) g =
      ground (arith, tail-good maxsize high q, take_from-good maxsize high id d)

  -- The queues of the subscribers hold messages in the order of their sequence numbers, and no more
  -- than the buffer size.
  abbrev pub IsOrdered : BidirectionalStream T → Type 0
  IsOrdered s = good_queues s.buffer_size s.message_count s.subscribers ≡ true

  apply-IsOrdered : (a : Action T) (s : BidirectionalStream T) → IsOrdered s → IsOrdered (apply a s)
  unfolding apply subscribe unsubscribe push post receive close
  apply-IsOrdered (join id) s h =
      ground (arith, insert-good s.buffer_size s.message_count id s.subscribers)
  apply-IsOrdered (leave id) s h =
      ground (arith, erase-good s.buffer_size s.message_count id s.subscribers)
  apply-IsOrdered (take_one id) s h =
      take_from-good s.buffer_size s.message_count id s.subscribers h
  apply-IsOrdered (send content now) s h = ground (
    arith,
    offer_all-good s.buffer_size s.message_count s.subscribers s.name s.stream_id content now,
  )
  apply-IsOrdered (deliver content now) s h = ground arith
  apply-IsOrdered next s h = ground arith
  apply-IsOrdered stop s h = refl

  run-preserved :
      (actions : List (Action T)) (s : BidirectionalStream T)
      → IsOrdered s
      → IsOrdered (run actions s)
  unfolding run
  run-preserved [] s h = h
  run-preserved (a ∷ rest) s h = run-preserved rest (apply a s) (apply-IsOrdered a s h)

  -- After any calls on a new stream, whoever subscribes, leaves, takes, pushes or closes, the queue
  -- of each subscriber holds pushed messages alone, their sequence numbers ascending and below the
  -- number of the next message, and at most `buffer_size` of them where that is not 0.
  pub run-IsOrdered :
      (name owner id : String) (buffer_size : ℕ) (callbacks : Callbacks) (actions : List (Action T))
      → IsOrdered (run actions (new_stream name owner id buffer_size callbacks))
  unfolding new_stream
  run-IsOrdered name owner id buffer_size callbacks actions =
      run-preserved actions (new_stream name owner id buffer_size callbacks) refl
