-- ===== src/Transfer/Upload.antt =====
-- conduit/transfer/file_transfer.py: `send_to_server`, against a server whose answers come back by
-- RPC.
use net_conduit.Base.{
  ℕ, ◌+◌, ◌≡◌, refl, ap, Bool, true, false, Option, none, some, List, [], ◌∷◌, String, arith,
}
use net_conduit.Protocol.Bytes.{Bytes}
use net_conduit.Response.{
  PyValue, null, boolean, number, string, raw_bytes, object, Fields, empty, field, get, get_or,
  is_truthy, internal,
}
use net_conduit.Rpc.Path.{Called, returned, rpc_error, rpc_result, rpc_result-plain}
use net_conduit.Transfer.{
  Os, FileTransferHandler, Answer, started, received, completed, download, chunk, checksum_mismatch,
  transfer_not_found, file_not_found, raised, start_receive, receive_chunk, complete_receive,
  chunk_count,
}

-- The dict of an answer; an exception in a handler is the dispatcher's internal error.
unfoldable pub answer_dict : Answer → Fields
unfolding internal
answer_dict (started id chunk_size total) =
    field "transfer_id" (string id)
      (field "chunk_size" (number chunk_size) (field "total_chunks" (number total) empty))
answer_dict (received ix count total) = field "received" (boolean true) (
    field "chunk_index" (number ix)
      (field "chunks_received" (number count) (field "total_chunks" (number total) empty)))
answer_dict (completed filename size path elapsed) = field "success" (boolean true) (
    field "filename" (string filename) (
      field "size" (number size)
        (field "path" (string path) (field "elapsed" (number elapsed) empty))))
answer_dict (download id size total chunk_size) = field "transfer_id" (string id) (
    field "size" (number size)
      (field "total_chunks" (number total) (field "chunk_size" (number chunk_size) empty)))
answer_dict (chunk ix bytes size) =
    field "chunk_index" (number ix)
      (field "chunk_data" (raw_bytes bytes) (field "size" (number size) empty))
answer_dict (checksum_mismatch expected got) =
    field "error" (string "Checksum mismatch")
      (field "expected" (string expected) (field "got" (string got) empty))
answer_dict transfer_not_found = field "error" (string "Transfer not found") empty
answer_dict file_not_found = field "error" (string "File not found") empty
answer_dict raised = internal "Error in the handler"

-- The RPCs of an upload.
pub data Request : Type 0 where
  upload_start : (filename : String) (size : ℕ) (checksum : String) → Request
  upload_chunk : (transfer_id : PyValue) (chunk_index : ℕ) (bytes : Bytes) → Request
  upload_complete : (transfer_id : PyValue) → Request

-- What `send_to_server` comes to: its result or an exception, the state that its calls left, and the
-- calls that it made.
pub record Upload {ℓ} (S : Type ℓ) : Type ℓ where
  pub result : Option PyValue
  pub state : S
  pub requests : List Request

-- result.get("success"); none where the result is no dict
abbrev pub success_of : PyValue → Option Bool
success_of (object d) = some (is_truthy (get_or "success" null d))
success_of _ = none

-- result.get("data", {}).get("transfer_id")
abbrev pub id_in : PyValue → Option PyValue
id_in (object d) = some (get_or "transfer_id" null d)
id_in _ = none

abbrev pub transfer_id_of : PyValue → Option PyValue
transfer_id_of (object d) = id_in (get_or "data" (object empty) d)
transfer_id_of _ = none

module _ {ℓ} {S : Type ℓ} (call : Request → S → S × Option Called) where
  -- An awaited call, and what is done with a result whose "success" is true; any other dict is what
  -- the whole upload returns.
  abbrev pub checked : Request → S × Option Called → (PyValue → S → Upload S) → Upload S
  checked q (s, none) next = record { result = none; state = s; requests = q ∷ [] }
  checked q (s, some (rpc_error m c d)) next = record {
    result = none;
    state = s;
    requests = q ∷ [];
  }
  checked q (s, some (returned v)) next =
      let go = next v s in
      elim (success_of v) [
        | none ↦ record { result = none; state = s; requests = q ∷ [] }
        | some false ↦ record { result = some v; state = s; requests = q ∷ [] }
        | some true ↦ record { result = go.result; state = go.state; requests = q ∷ go.requests }
      ]

  abbrev pub final : Request → S × Option Called → Upload S
  final q (s, some (returned v)) = record { result = some v; state = s; requests = q ∷ [] }
  final q (s, _) = record { result = none; state = s; requests = q ∷ [] }

  unfoldable pub send_chunks : PyValue → ℕ → List Bytes → S → Upload S
  send_chunks id ix [] s = final (upload_complete id) (call (upload_complete id) s)
  send_chunks id ix (c ∷ cs) s =
      checked (upload_chunk id ix c) (call (upload_chunk id ix c) s)
        (λ v s'. send_chunks id (ix + 1) cs s')

  abbrev pub with_id : List Bytes → Option PyValue → S → Upload S
  with_id cs none s = record { result = none; state = s; requests = [] }
  with_id cs (some id) s = send_chunks id 0 cs s

  -- `chunks` is what the loop reads of the file
  unfoldable pub send_to_server : String → ℕ → String → List Bytes → S → Upload S
  send_to_server filename size checksum chunks s =
      checked (upload_start filename size checksum) (call (upload_start filename size checksum) s)
        (λ v s'. with_id chunks (transfer_id_of v) s')

module _ (os : Os) (str_of : PyValue → String) (wire : PyValue → Option PyValue) where
  abbrev id_text : PyValue → String
  id_text (string s) = s
  id_text v = str_of v

  abbrev answered : FileTransferHandler × Answer → FileTransferHandler × Option Called
  answered (h, a) = (h, rpc_result str_of wire (object (answer_dict a)))

  -- The server with its handlers `file_upload_start`, `file_upload_chunk` and `file_upload_complete`;
  -- `id` is the random id of the next transfer.
  unfoldable pub serve :
      String → ℕ → Request → FileTransferHandler → FileTransferHandler × Option Called
  unfolding answer_dict
  serve id now (upload_start filename size checksum) h =
      answered (start_receive os filename size checksum id now h)
  serve id now (upload_chunk transfer_id ix bytes) h =
      answered (receive_chunk os (id_text transfer_id) ix bytes h)
  serve id now (upload_complete transfer_id) h =
      answered (complete_receive os (id_text transfer_id) now h)

  serve-started :
      (filename checksum id : String) (size now total : ℕ) (h : FileTransferHandler)
      → chunk_count size h.chunk_size ≡ some total
      → os.opens (os.join h.storage_dir (os.temp_name id)) ≡ true
      → wire (object (answer_dict (started id h.chunk_size total)))
        ≡ some (object (answer_dict (started id h.chunk_size total)))
      → serve id now (upload_start filename size checksum) h ≡ (
        (start_receive os filename size checksum id now h).0,
        some (returned (object (answer_dict (started id h.chunk_size total)))),
      )
  unfolding serve start_receive chunk_count get
  serve-started filename checksum id size now total h e can w =
      let plain =
        rpc_result-plain str_of wire (object (answer_dict (started id h.chunk_size total))) refl
          w in
      ground (arith, e, can, plain)

  -- An upload to a server that accepts it and can open the temporary file, and whose answer the wire
  -- carries, makes one call,
  -- `file_upload_start`: the caller gets the handler's dict, which has no "success", so that
  -- `send_to_server` returns it and sends no chunk, whatever the file holds.
  pub send_to_server-stops :
      (filename checksum id : String) (size now total : ℕ) (chunks : List Bytes)
      (h : FileTransferHandler)
      → chunk_count size h.chunk_size ≡ some total
      → os.opens (os.join h.storage_dir (os.temp_name id)) ≡ true
      → wire (object (answer_dict (started id h.chunk_size total)))
        ≡ some (object (answer_dict (started id h.chunk_size total)))
      → ((send_to_server (serve id now) filename size checksum chunks h).requests
          ≡ upload_start filename size checksum ∷ [])
        × ((send_to_server (serve id now) filename size checksum chunks h).result
            ≡ some (object (answer_dict (started id h.chunk_size total))))
        × ((send_to_server (serve id now) filename size checksum chunks h).state
            ≡ (start_receive os filename size checksum id now h).0)
  unfolding send_to_server answer_dict get
  send_to_server-stops filename checksum id size now total chunks h e can w =
      let back = serve-started filename checksum id size now total h e can w in
      let q = upload_start filename size checksum in
      let run : FileTransferHandler × Option Called → Upload FileTransferHandler = λ r.
        checked (serve id now) q r (λ v s. with_id (serve id now) chunks (transfer_id_of v) s) in
      (ap (λ r. (run r).requests) back, ap (λ r. (run r).result) back, ap (λ r. (run r).state) back)
