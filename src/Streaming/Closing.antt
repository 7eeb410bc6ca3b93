-- ===== src/Streaming/Closing.antt =====
-- What a consumer of a stream sees of its end.
use net_conduit.Base.{ℕ, ◌≡◌, refl, Bool, true, false, List, [], ◌∷◌, ◌++◌, String, arith}
use net_conduit.Streaming.{
  Item, pushed, posted, closed, BidirectionalStream, post, close, has_room, iterate,
}

module _ {ℓ} {T : Type ℓ} where
  -- No end is on the queue yet.
  abbrev pub is_open : List (Item T) → Bool
  is_open [] = true
  is_open (pushed a b c d e ∷ q) = is_open q
  is_open (posted a b c ∷ q) = is_open q
  is_open (closed a ∷ q) = false

  abbrev pub contents : List (Item T) → List T
  contents [] = []
  contents (pushed a b c d e ∷ q) = c ∷ contents q
  contents (posted a b c ∷ q) = b ∷ contents q
  contents (closed a ∷ q) = contents q

  iterate-open : (q : List (Item T)) → is_open q ≡ true → iterate q ≡ (contents q, false)
  unfolding iterate
  iterate-open [] h = refl
  iterate-open (pushed a b c d e ∷ q) h = rw (iterate-open q h) refl
  iterate-open (posted a b c ∷ q) h = rw (iterate-open q h) refl
  iterate-open (closed a ∷ q) h = ground arith

  iterate-ended :
      (q : List (Item T)) (stream : String)
      → is_open q ≡ true
      → iterate (q ++ closed stream ∷ []) ≡ (contents q, true)
  unfolding iterate
  iterate-ended [] stream h = refl
  iterate-ended (pushed a b c d e ∷ q) stream h = rw (iterate-ended q stream h) refl
  iterate-ended (posted a b c ∷ q) stream h = rw (iterate-ended q stream h) refl
  iterate-ended (closed a ∷ q) stream h = ground arith

  -- On a stream whose own queue holds no end yet, `close` leaves an iteration that yields all the
  -- data on the queue and then ends where the queue had room; where the queue was full, the
  -- iteration yields the data and then waits. A later `post` is refused in both cases and leaves
  -- that queue as it is.
  close-iterate :
      (s : BidirectionalStream T) (content : T) (now : ℕ)
      → is_open s.data_queue ≡ true
      → (iterate (close s).data_queue
          ≡ (contents s.data_queue, has_room s.buffer_size s.data_queue))
        × ((post content now (close s)).1 ≡ false)
        × ((post content now (close s)).0.data_queue ≡ (close s).data_queue)
  unfolding close post
  close-iterate s content now h =
      (ground (arith, iterate-ended s.data_queue s.name h, iterate-open s.data_queue h), refl, refl)
