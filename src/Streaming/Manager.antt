-- ===== src/Streaming/Manager.antt =====
-- conduit/streaming/stream.py: `StreamManager`, and the RPCs that it registers on a server. Each RPC
-- makes a new random id for the caller, an argument here.
use net_conduit.Base.{
  ℕ, ◌+◌, ◌≡◌, ◌≢◌, Bool, false, Option, none, some, List, [], String, arith, eq_iff, if◌then◌else◌,
  map,
}
use net_conduit.Base.Dict.{
  Dict, lookup, contains, insert, values, lookup-insert_self, contains-insert, length-insert,
}
use net_conduit.Streaming.{
  BidirectionalStream, Callbacks, new_stream, subscribe, unsubscribe, post, close, subscriber_count,
}

pub record StreamManager {ℓ} (T : Type ℓ) : Type ℓ where
  pub owner : String
  pub streams : Dict (BidirectionalStream T)
  pub client_stream_handlers : Dict ℕ

pub record StreamEntry : Type 0 where
  pub name : String
  pub owner : String
  pub subscribers : ℕ
  pub active : Bool

abbrev no_callbacks : Callbacks
no_callbacks = record { on_subscribe = false; on_unsubscribe = false; on_data = false }

-- What the RPCs answer.
pub data Answer : Type 0 where
  not_found already_exists subscribed unsubscribed created : Answer

module _ {ℓ} {T : Type ℓ} where
  abbrev pub new_manager : String → StreamManager T
  new_manager owner = record { owner = owner; streams = []; client_stream_handlers = [] }

  -- an existing stream is returned as it is
  unfoldable pub create : String → ℕ → String → StreamManager T → StreamManager T
  create name buffer_size stream_id m = if contains name m.streams then m else record m {
    streams = insert name (new_stream name m.owner stream_id buffer_size no_callbacks) m.streams;
  }

  abbrev pub get : String → StreamManager T → Option (BidirectionalStream T)
  get name m = lookup name m.streams

  abbrev entry_of : BidirectionalStream T → StreamEntry
  entry_of s = record {
    name = s.name;
    owner = s.owner;
    subscribers = subscriber_count s;
    active = s.is_running;
  }

  abbrev pub list_streams : StreamManager T → List StreamEntry
  list_streams m = map entry_of (values m.streams)

  unfoldable pub on_client_stream : String → ℕ → StreamManager T → StreamManager T
  on_client_stream name handler m = record m {
    client_stream_handlers = insert name handler m.client_stream_handlers;
  }

  -- a stream of the manager is changed in its place
  abbrev pub write : String → BidirectionalStream T → StreamManager T → StreamManager T
  write name s m = record m { streams = insert name s m.streams }

  unfoldable pub stream_subscribe : String → String → StreamManager T → StreamManager T × Answer
  stream_subscribe name id m = elim (lookup name m.streams) [
    | none ↦ (m, not_found)
    | some s ↦ (write name (subscribe id s) m, subscribed)
  ]

  unfoldable pub stream_unsubscribe : String → String → StreamManager T → StreamManager T × Answer
  stream_unsubscribe name id m = elim (lookup name m.streams) [
    | none ↦ (m, unsubscribed)
    | some s ↦ (write name (unsubscribe id s) m, unsubscribed)
  ]

  -- a client makes a stream of the default size, 100
  unfoldable pub stream_create :
      String → String → String → StreamManager T → StreamManager T × Answer
  stream_create name client_id stream_id m =
      if contains name m.streams
      then (m, already_exists)
      else (write name (new_stream name client_id stream_id 100 no_callbacks) m, created)

  -- `handle_stream_data` on a server: the handler that is called with the data, if there is one
  unfoldable pub handle_stream_data : String → T → ℕ → StreamManager T → StreamManager T × Option ℕ
  handle_stream_data name payload now m =
      let handler = lookup name m.client_stream_handlers in
      elim (lookup name m.streams) [
        | none ↦ (m, handler)
        | some s ↦ (write name (post payload now s).0 m, handler)
      ]

  -- the streams, closed, that the dict held, and the manager without them
  unfoldable pub close_all : StreamManager T → StreamManager T × List (BidirectionalStream T)
  close_all m = (record m { streams = [] }, map close (values m.streams))

  abbrev pub subscribers_of : Option (BidirectionalStream T) → ℕ
  subscribers_of none = 0
  subscribers_of (some s) = subscriber_count s

  subscribe_fresh :
      (id : String) (s : BidirectionalStream T)
      → contains id s.subscribers ≡ false
      → subscriber_count (subscribe id s) ≡ subscriber_count s + 1
  unfolding subscribe
  subscribe_fresh id s h = ground (arith, h, length-insert id [] s.subscribers)

  unsubscribe_other :
      (id id' : String) (s : BidirectionalStream T)
      → id ≢ id'
      → contains id' s.subscribers ≡ false
      → unsubscribe id' (subscribe id s) ≡ subscribe id s
  unfolding subscribe unsubscribe
  unsubscribe_other id id' s ne h =
      ground (arith, h, contains-insert id id' [] s.subscribers, eq_iff id id')

  -- A client that subscribes by RPC and then unsubscribes by RPC stays subscribed: where neither of
  -- the ids that the two calls make is that of a subscriber and they differ, both calls report
  -- success and the stream has one subscriber more than before.
  unsubscribe_leaks :
      (name id id' : String) (s : BidirectionalStream T) (m : StreamManager T)
      → lookup name m.streams ≡ some s
      → id ≢ id'
      → contains id s.subscribers ≡ false
      → contains id' s.subscribers ≡ false
      → ((stream_subscribe name id m).1 ≡ subscribed)
        × ((stream_unsubscribe name id' (stream_subscribe name id m).0).1 ≡ unsubscribed)
        × (subscribers_of (get name (stream_unsubscribe name id' (stream_subscribe name id m).0).0)
            ≡ subscriber_count s + 1)
  unfolding stream_subscribe stream_unsubscribe
  unsubscribe_leaks name id id' s m e ne h h' =
      let first = lookup-insert_self name (subscribe id s) m.streams in
      let second =
        lookup-insert_self name (unsubscribe id' (subscribe id s))
          (insert name (subscribe id s) m.streams) in
      ground (arith, e, first, second, unsubscribe_other id id' s ne h', subscribe_fresh id s h)
