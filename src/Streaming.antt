-- ===== src/Streaming.antt =====
-- conduit/streaming/stream.py: `BidirectionalStream` over queues of asyncio. A subscriber's queue
-- stands in the dict of subscribers; once the stream drops it, only its consumer holds it, and it
-- stands in `detached`. Calls of the callbacks are recorded (what they raise is caught and logged);
-- random ids and the clock's readings are arguments.
pub mod Manager
pub mod Delivery
pub mod Order
pub mod Closing
pub mod Examples
use net_conduit.Base.{
  ℕ, ◌+◌, Bool, true, false, not, ◌||◌, Option, none, some, List, [], ◌∷◌, ◌++◌, String, leb, ◌==◌,
  if◌then◌else◌, length,
}
use net_conduit.Base.Dict.{Dict, lookup, contains, insert, erase}

-- What is put on a queue: a pushed message, a posted one, or the end of the stream.
pub data Item {ℓ} (T : Type ℓ) : Type ℓ where
  pushed : (stream stream_id : String) (content : T) (timestamp sequence : ℕ) → Item T
  posted : (stream : String) (content : T) (timestamp : ℕ) → Item T
  closed : (stream : String) → Item T

pub data Notice {ℓ} (T : Type ℓ) : Type ℓ where
  subscribed unsubscribed : String → Notice T
  received : T → Notice T

-- Which callbacks are given.
pub record Callbacks : Type 0 where
  pub on_subscribe : Bool
  pub on_unsubscribe : Bool
  pub on_data : Bool

pub record BidirectionalStream {ℓ} (T : Type ℓ) : Type ℓ where
  pub name : String
  pub owner : String
  pub stream_id : String
  pub buffer_size : ℕ
  pub subscribers : Dict (List (Item T))
  pub detached : Dict (List (Item T))
  pub data_queue : List (Item T)
  pub is_running : Bool
  pub message_count : ℕ
  pub callbacks : Callbacks
  pub notices : List (Notice T)

module _ {ℓ} {T : Type ℓ} where
  unfoldable pub new_stream : String → String → String → ℕ → Callbacks → BidirectionalStream T
  new_stream name owner stream_id buffer_size callbacks = record {
    name = name;
    owner = owner;
    stream_id = stream_id;
    buffer_size = buffer_size;
    subscribers = [];
    detached = [];
    data_queue = [];
    is_running = true;
    message_count = 0;
    callbacks = callbacks;
    notices = [];
  }

  abbrev pub subscriber_count : BidirectionalStream T → ℕ
  subscriber_count s = length s.subscribers

  -- asyncio.Queue: a maxsize of 0 is no limit
  abbrev pub has_room : ℕ → List (Item T) → Bool
  has_room maxsize q = maxsize == 0 || not (leb maxsize (length q))

  -- `put_nowait` with QueueFull caught
  abbrev pub offer : ℕ → Item T → List (Item T) → List (Item T)
  offer maxsize x q = if has_room maxsize q then q ++ x ∷ [] else q

  abbrev pub told : Bool → Notice T → List (Notice T) → List (Notice T)
  told callback n ns = if callback then ns ++ n ∷ [] else ns

  unfoldable pub subscribe : String → BidirectionalStream T → BidirectionalStream T
  subscribe id s = if contains id s.subscribers then s else record s {
    subscribers = insert id [] s.subscribers;
    notices = told s.callbacks.on_subscribe (subscribed id) s.notices;
  }

  -- the entry of the dict, as its consumer keeps it
  abbrev pub kept : String → Option (List (Item T)) → Dict (List (Item T))
  kept id none = []
  kept id (some q) = (id, q) ∷ []

  unfoldable pub unsubscribe : String → BidirectionalStream T → BidirectionalStream T
  unsubscribe id s =
      if contains id s.subscribers
      then record s {
        subscribers = erase id s.subscribers;
        detached = s.detached ++ kept id (lookup id s.subscribers);
        notices = told s.callbacks.on_unsubscribe (unsubscribed id) s.notices;
      }
      else s

  -- The loop over the subscribers: each queue is offered the item.
  unfoldable pub offer_all : ℕ → Item T → Dict (List (Item T)) → Dict (List (Item T))
  offer_all maxsize x [] = []
  offer_all maxsize x ((id, q) ∷ rest) = (id, offer maxsize x q) ∷ offer_all maxsize x rest

  -- how many take it
  unfoldable pub count_room : ℕ → Dict (List (Item T)) → ℕ
  count_room maxsize [] = 0
  count_room maxsize ((id, q) ∷ rest) =
      (if has_room maxsize q then 1 else 0) + count_room maxsize rest

  abbrev pub message_of : T → ℕ → BidirectionalStream T → Item T
  message_of content now s = pushed s.name s.stream_id content now s.message_count

  unfoldable pub push : T → ℕ → BidirectionalStream T → BidirectionalStream T × ℕ
  unfolding offer_all count_room
  push content now s =
      if not s.is_running then (s, 0) else if subscriber_count s == 0 then (s, 0) else (
        record s {
          subscribers = offer_all s.buffer_size (message_of content now s) s.subscribers;
          message_count = s.message_count + 1;
        },
        count_room s.buffer_size s.subscribers,
      )

  unfoldable pub post : T → ℕ → BidirectionalStream T → BidirectionalStream T × Bool
  post content now s =
      if not s.is_running
      then (s, false)
      else if has_room s.buffer_size s.data_queue
      then (
        record s {
          data_queue = s.data_queue ++ posted s.name content now ∷ [];
          notices = told s.callbacks.on_data (received content) s.notices;
        },
        true,
      )
      else (s, false)

  -- `receive` where an item is there; none where it waits
  unfoldable pub receive : BidirectionalStream T → BidirectionalStream T × Option (Item T)
  receive s = elim s.data_queue [
    | [] ↦ (s, none)
    | x ∷ rest ↦ (record s { data_queue = rest }, some x)
  ]

  unfoldable pub close : BidirectionalStream T → BidirectionalStream T
  unfolding offer_all
  close s = record s {
    is_running = false;
    detached = s.detached ++ offer_all s.buffer_size (closed s.name) s.subscribers;
    data_queue = offer s.buffer_size (closed s.name) s.data_queue;
    subscribers = [];
  }

  -- `__aiter__` over a queue that nobody adds to: the data that it yields, and whether it ends (true)
  -- or waits for another item (false).
  unfoldable pub iterate : List (Item T) → List T × Bool
  iterate [] = ([], false)
  iterate (x ∷ rest) =
      let (contents, ended) = iterate rest in
      elim x as (λ _. List T × Bool) [
        | pushed stream stream_id content timestamp sequence ↦ (content ∷ contents, ended)
        | posted stream content timestamp ↦ (content ∷ contents, ended)
        | closed stream ↦ ([], true)
      ]
