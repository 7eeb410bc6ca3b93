-- ===== src/Protocol/Encoder/Counter.antt =====
-- The correlation ids that `ProtocolEncoder` draws.
use net_conduit.Base.{ℕ, ◌+◌, ◌≡◌, refl, none, List, [], ◌∷◌, String, arith}
use net_conduit.Protocol.Runtime.{Runtime, Value}
use net_conduit.Protocol.Encoder.{ProtocolEncoder, encode, encode_rpc_request, next_correlation_id}

module _ (r : Runtime) (now : ℕ) where
  -- The ids of RPC requests made one after the other with no id given; the payload of a request
  -- may fail to be written.
  unfoldable pub rpc_ids : List (String × Value r.Json) → ProtocolEncoder → List ℕ
  rpc_ids [] e = []
  rpc_ids ((method, params) ∷ cs) e =
      let ((e', sent), c) = encode_rpc_request r method params none now e in c ∷ rpc_ids cs e'

  abbrev pub count_from : ℕ → List (String × Value r.Json) → List ℕ
  count_from n [] = []
  count_from n (c ∷ cs) = (n + 1) ∷ count_from (n + 1) cs

  one_id :
      (method : String) (params : Value r.Json) (e : ProtocolEncoder)
      → ((encode_rpc_request r method params none now e).1 ≡ e.correlation_counter + 1)
        × ((encode_rpc_request r method params none now e).0.0.correlation_counter
            ≡ e.correlation_counter + 1)
  unfolding encode_rpc_request next_correlation_id encode
  one_id method params e = ground arith

  -- Requests with no id of their own get the numbers that follow the counter, in order,
  -- whether or not their bytes could be made.
  rpc_ids-count :
      (cs : List (String × Value r.Json)) (e : ProtocolEncoder)
      → rpc_ids cs e ≡ count_from e.correlation_counter cs
  unfolding rpc_ids
  rpc_ids-count [] e = refl
  rpc_ids-count ((method, params) ∷ cs) e = ground (
    arith,
    one_id method params e,
    rpc_ids-count cs (encode_rpc_request r method params none now e).0.0,
  )
