-- ===== src/Transfer/Examples.antt =====
-- The theorems on file transfer at concrete inputs, with a digest that tells only the first byte.
use Prim.Native.String.{◌++◌ as append_text}
use text.Mathlib.TextLemmas.{append_cancel_left}
use net_conduit.Base.{
  true, if◌then◌else◌, str_eq, ◌+◌, ◌-◌, ◌≡◌, refl, Option, some, List, [], ◌∷◌, String, arith,
  length, All,
}
use net_conduit.Base.Dict.{lookup}
use net_conduit.Protocol.Bytes.{Bytes}
use net_conduit.Response.{PyValue, object}
use net_conduit.Transfer.{
  Os, FileTransferHandler, new_handler, start_receive, complete_receive, completed, chunk_count,
  started,
}
use net_conduit.Transfer.Chunks.{
  read_chunks, joined, IsChunk, read_chunks-total, download_from, download_from-file,
}
use net_conduit.Transfer.Receive.{Arrival, receive_all, HasOwnPaths, IsTidy}
use net_conduit.Transfer.Receive.Complete.{receive_all-file}
use net_conduit.Transfer.Upload.{
  send_to_server, serve, upload_start, answer_dict, send_to_server-stops,
}

abbrev five_bytes : Bytes
five_bytes = 10 ∷ 20 ∷ 30 ∷ 40 ∷ 50 ∷ []

read_chunks-total_example :
    (cs : List Bytes) × (read_chunks (length five_bytes + 1) 2 five_bytes ≡ some cs)
    × (joined cs ≡ five_bytes)
    × (some (length cs) ≡ chunk_count (length five_bytes) 2)
    × All (IsChunk 2) cs
read_chunks-total_example = read_chunks-total 2 five_bytes (omega arith)

download_from-file_example : download_from 3 0 2 five_bytes ≡ five_bytes
unfolding chunk_count
download_from-file_example = download_from-file 2 3 five_bytes (omega arith) refl

abbrev plain_os : Os
plain_os = record {
  join = λ dir name. append_text dir name;
  temp_name = λ id. append_text "." id;
  stamped = λ path now. append_text path "_1";
  sha256_hex = λ bytes. "00ff";
  opens = λ path. true;
  renames = λ path to. true;
}

-- A system with one absolute name.
abbrev rooted_os : Os
rooted_os = record {
  join = λ dir name. if str_eq name "/x" then name else append_text dir name;
  temp_name = λ id. append_text "." (append_text id ".tmp");
  stamped = λ path now. append_text path "_1";
  sha256_hex = λ bytes. "00ff";
  opens = λ path. true;
  renames = λ path to. true;
}

abbrev store : FileTransferHandler
store = new_handler plain_os "store/" 2 []

abbrev rooted : FileTransferHandler
rooted = new_handler rooted_os "store/" 2 []

plain_os-HasOwnPaths : HasOwnPaths plain_os "store/"
plain_os-HasOwnPaths i j h =
    append_cancel_left "." i j
      (append_cancel_left "store/" (append_text "." i) (append_text "." j) h)

no_transfers-IsTidy : IsTidy plain_os store
unfolding lookup
no_transfers-IsTidy i r h = ground (arith, h)

-- The chunks of a transfer, with one of another between them.
abbrev some_calls : List Arrival
some_calls =
    record { transfer_id = "t1"; chunk_index = 0; bytes = 10 ∷ 20 ∷ [] }
    ∷ record { transfer_id = "t2"; chunk_index = 0; bytes = 99 ∷ [] }
    ∷ record { transfer_id = "t1"; chunk_index = 1; bytes = 30 ∷ 40 ∷ 50 ∷ [] }
    ∷ []

receive_all-file_example :
    (path : String) × ((complete_receive plain_os "t1" 70 (
        receive_all plain_os some_calls
          (start_receive plain_os "a.txt" 5 "00ff" "t1" 60 store).0)).1
      ≡ completed "a.txt" 5 path (70 - 60))
    × (lookup path
          (complete_receive plain_os "t1" 70 (
            receive_all plain_os some_calls
              (start_receive plain_os "a.txt" 5 "00ff" "t1" 60 store).0)).0.files
        ≡ some five_bytes)
receive_all-file_example =
    receive_all-file plain_os "a.txt" "t1" 5 60 70 five_bytes some_calls store (omega arith)
      plain_os-HasOwnPaths no_transfers-IsTidy refl refl refl

-- A wire that carries every value, and one way to print values.
abbrev direct : PyValue → Option PyValue
direct v = some v

abbrev shown : PyValue → String
shown v = "?"

send_to_server-stops_example :
    ((send_to_server
        (serve plain_os shown direct "t1" 60)
        "a.txt"
        5
        "00ff"
        ((10 ∷ []) ∷ (20 ∷ []) ∷ [])
        store).requests
      ≡ upload_start "a.txt" 5 "00ff" ∷ [])
    × ((send_to_server
          (serve plain_os shown direct "t1" 60)
          "a.txt"
          5
          "00ff"
          ((10 ∷ []) ∷ (20 ∷ []) ∷ [])
          store).result
        ≡ some (object (answer_dict (started "t1" 2 3))))
    × ((send_to_server
          (serve plain_os shown direct "t1" 60)
          "a.txt"
          5
          "00ff"
          ((10 ∷ []) ∷ (20 ∷ []) ∷ [])
          store).state
        ≡ (start_receive plain_os "a.txt" 5 "00ff" "t1" 60 store).0)
unfolding chunk_count
send_to_server-stops_example =
    send_to_server-stops plain_os shown direct "a.txt" "00ff" "t1" 5 60 3
      ((10 ∷ []) ∷ (20 ∷ []) ∷ []) store refl refl refl
