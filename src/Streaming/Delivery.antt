-- ===== src/Streaming/Delivery.antt =====
-- What the subscribers of a `BidirectionalStream` are given by `push`.
use net_conduit.Base.{
  ℕ, ◌+◌, ◌<◌, ◌≡◌, refl, true, Option, none, some, List, [], ◌∷◌, String, arith, length,
  length-append,
}
use net_conduit.Base.Dict.{Dict, lookup}
use net_conduit.Streaming.{
  Item, pushed, BidirectionalStream, push, offer, offer_all, count_room, message_of,
  subscriber_count,
}

module _ {ℓ} {T : Type ℓ} where
  abbrev pub offered : ℕ → Item T → Option (List (Item T)) → Option (List (Item T))
  offered maxsize x none = none
  offered maxsize x (some q) = some (offer maxsize x q)

  lookup-offer_all :
      (maxsize : ℕ) (x : Item T) (id : String) (d : Dict (List (Item T)))
      → lookup id (offer_all maxsize x d) ≡ offered maxsize x (lookup id d)
  unfolding lookup offer_all
  lookup-offer_all maxsize x id [] = refl
  lookup-offer_all maxsize x id ((j, q) ∷ d) = ground (arith, lookup-offer_all maxsize x id d)

  -- The items on all the queues of a dict.
  abbrev pub held : Dict (List (Item T)) → ℕ
  held [] = 0
  held ((id, q) ∷ d) = length q + held d

  held-offer_all :
      (maxsize : ℕ) (x : Item T) (d : Dict (List (Item T)))
      → held (offer_all maxsize x d) ≡ held d + count_room maxsize d
  unfolding offer_all count_room
  held-offer_all maxsize x [] = omega arith
  held-offer_all maxsize x ((j, q) ∷ d) =
      ground (arith, held-offer_all maxsize x d, length-append q (x ∷ []))

  -- A push on a running stream that has subscribers puts the same message, with the next sequence
  -- number, at the end of the queue of each subscriber that has room and leaves the other queues as
  -- they are; the number that it returns is that of the messages put on queues.
  push-delivers :
      (content : T) (now : ℕ) (id : String) (s : BidirectionalStream T)
      → s.is_running ≡ true
      → 0 < subscriber_count s
      → (lookup id (push content now s).0.subscribers
          ≡ offered s.buffer_size
              (pushed s.name s.stream_id content now s.message_count)
              (lookup id s.subscribers))
        × (held (push content now s).0.subscribers ≡ held s.subscribers + (push content now s).1)
        × ((push content now s).0.message_count ≡ s.message_count + 1)
  unfolding push
  push-delivers content now id s running some_one =
      let looked = lookup-offer_all s.buffer_size (message_of content now s) id s.subscribers in
      let counted = held-offer_all s.buffer_size (message_of content now s) s.subscribers in
      (ground (arith, looked), ground (arith, counted), ground arith)
