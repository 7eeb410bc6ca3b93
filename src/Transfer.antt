-- ===== src/Transfer.antt =====
-- conduit/transfer/file_transfer.py: `FileTransferHandler`, the side that receives a file and the
-- side that serves a download. The files are a dict from paths to contents; a file that is open for
-- writing is its path, and what is written is there at once.
pub mod Chunks
pub mod Receive
pub mod Escape
pub mod Upload
pub mod Examples
use net_conduit.Base.{
  ℕ, ◌+◌, ◌-◌, ◌*◌, ◌/◌, Bool, true, false, Option, none, some, List, [], ◌∷◌, ◌++◌, String, str_eq,
  ◌==◌, if◌then◌else◌, length, take, drop,
}
use net_conduit.Base.Dict.{Dict, lookup, contains, insert, erase}
use net_conduit.Protocol.Bytes.{Bytes}

-- What the module uses of os.path and hashlib: os.path.join, the name of a temporary file, the path
-- with a timestamp before its extension, and the hex digest of SHA-256; and whether open(path, "wb")
-- and os.rename succeed, or raise.
pub record Os : Type 0 where
  pub join : String → String → String
  pub temp_name : String → String
  pub stamped : String → ℕ → String
  pub sha256_hex : Bytes → String
  pub opens : String → Bool
  pub renames : String → String → Bool

-- `is_closed` is that of the temporary file.
pub record Receiving : Type 0 where
  pub filename : String
  pub size : ℕ
  pub checksum : String
  pub total_chunks : ℕ
  pub received_chunks : ℕ
  pub temp_path : String
  pub final_path : String
  pub is_closed : Bool
  pub start_time : ℕ

pub record Serving : Type 0 where
  pub filepath : String
  pub size : ℕ
  pub total_chunks : ℕ

-- An entry of `_active_transfers`.
pub data Transfer : Type 0 where
  receiving : Receiving → Transfer
  serving : Serving → Transfer

pub record FileTransferHandler : Type 0 where
  pub storage_dir : String
  pub chunk_size : ℕ
  pub active_transfers : Dict Transfer
  pub files : Dict Bytes

-- The dicts that the methods return, without the key "success" but in `completed`; and an exception.
pub data Answer : Type 0 where
  started : (transfer_id : String) (chunk_size total_chunks : ℕ) → Answer
  received : (chunk_index chunks_received total_chunks : ℕ) → Answer
  completed : (filename : String) (size : ℕ) (path : String) (elapsed : ℕ) → Answer
  download : (transfer_id : String) (size total_chunks chunk_size : ℕ) → Answer
  chunk : (chunk_index : ℕ) (chunk_data : Bytes) (size : ℕ) → Answer
  checksum_mismatch : (expected got : String) → Answer
  transfer_not_found file_not_found raised : Answer

-- (size + chunk_size - 1) // chunk_size; none is ZeroDivisionError
unfoldable pub chunk_count : ℕ → ℕ → Option ℕ
chunk_count size chunk_size =
    if chunk_size == 0 then none else some ((size + chunk_size - 1) / chunk_size)

-- seek and read
abbrev pub chunk_at : ℕ → ℕ → Bytes → Bytes
chunk_at chunk_index chunk_size bytes = take chunk_size (drop (chunk_index * chunk_size) bytes)

module _ (os : Os) where
  abbrev pub new_handler : String → ℕ → Dict Bytes → FileTransferHandler
  new_handler storage_dir chunk_size files = record {
    storage_dir = storage_dir;
    chunk_size = chunk_size;
    active_transfers = [];
    files = files;
  }

  abbrev pub opened :
      String → ℕ → String → String → ℕ → ℕ → FileTransferHandler → FileTransferHandler × Answer
  opened filename size checksum transfer_id now total_chunks h =
      let temp_path = os.join h.storage_dir (os.temp_name transfer_id) in
      let r : Receiving = record {
        filename = filename;
        size = size;
        checksum = checksum;
        total_chunks = total_chunks;
        received_chunks = 0;
        temp_path = temp_path;
        final_path = os.join h.storage_dir filename;
        is_closed = false;
        start_time = now;
      } in
      (
        record h {
          active_transfers = insert transfer_id (receiving r) h.active_transfers;
          files = insert temp_path [] h.files;
        },
        started transfer_id h.chunk_size total_chunks,
      )

  -- `transfer_id` is the one given, or the random one. Where the temporary file cannot be opened, the
  -- exception comes before the transfer is stored.
  unfoldable pub start_receive :
      String → ℕ → String → String → ℕ → FileTransferHandler → FileTransferHandler × Answer
  unfolding chunk_count
  start_receive filename size checksum transfer_id now h =
      elim (chunk_count size h.chunk_size) as (λ _. FileTransferHandler × Answer) [
        | none ↦ (h, raised)
        | some total_chunks ↦
            if os.opens (os.join h.storage_dir (os.temp_name transfer_id))
            then opened filename size checksum transfer_id now total_chunks h
            else (h, raised)
      ]

  -- the contents of an open file
  abbrev pub contents : Option Bytes → Bytes
  contents none = []
  contents (some bytes) = bytes

  abbrev pub wrote :
      String → ℕ → Bytes → Receiving → FileTransferHandler → FileTransferHandler × Answer
  wrote transfer_id chunk_index bytes r h =
      let r' = record r { received_chunks = r.received_chunks + 1 } in
      (
        record h {
          active_transfers = insert transfer_id (receiving r') h.active_transfers;
          files = insert r.temp_path (contents (lookup r.temp_path h.files) ++ bytes) h.files;
        },
        received chunk_index r'.received_chunks r.total_chunks,
      )

  -- `receive_chunk`; base64 is decoded by the caller. The index is not looked at. To write
  -- to a closed file raises.
  unfoldable pub receive_chunk :
      String → ℕ → Bytes → FileTransferHandler → FileTransferHandler × Answer
  receive_chunk transfer_id chunk_index bytes h =
      elim (lookup transfer_id h.active_transfers) as (λ _. FileTransferHandler × Answer) [
        | none ↦ (h, transfer_not_found)
        | some (serving s) ↦ (h, raised)
        | some (receiving r) ↦
            if r.is_closed then (h, raised) else wrote transfer_id chunk_index bytes r h
      ]

  -- the path that is free, as far as one look tells
  abbrev pub free_path : String → ℕ → Dict Bytes → String
  free_path path now files = if contains path files then os.stamped path now else path

  -- Where the rename raises, the transfer and its temporary file, which is closed, stay.
  abbrev pub finished : String → ℕ → Receiving → FileTransferHandler → FileTransferHandler × Answer
  finished transfer_id now r h =
      let bytes = contents (lookup r.temp_path h.files) in
      let active = erase transfer_id h.active_transfers in
      let path = free_path r.final_path now h.files in
      if str_eq (os.sha256_hex bytes) r.checksum
      then if os.renames r.temp_path path
        then (
          record h {
            active_transfers = active;
            files = insert path bytes (erase r.temp_path h.files);
          },
          completed r.filename r.size path (now - r.start_time),
        )
        else (
          record h {
            active_transfers =
                insert transfer_id (receiving (record r { is_closed = true })) h.active_transfers;
          },
          raised,
        )
      else (
        record h { active_transfers = active; files = erase r.temp_path h.files },
        checksum_mismatch r.checksum (os.sha256_hex bytes),
      )

  unfoldable pub complete_receive : String → ℕ → FileTransferHandler → FileTransferHandler × Answer
  complete_receive transfer_id now h =
      elim (lookup transfer_id h.active_transfers) as (λ _. FileTransferHandler × Answer) [
        | none ↦ (h, transfer_not_found)
        | some (serving s) ↦ (h, raised)
        | some (receiving r) ↦ finished transfer_id now r h
      ]

  abbrev pub served :
      String → String → Bytes → ℕ → FileTransferHandler → FileTransferHandler × Answer
  served transfer_id filepath bytes total_chunks h = (
    record h {
      active_transfers =
          insert transfer_id
            (serving
              (record { filepath = filepath; size = length bytes; total_chunks = total_chunks }))
            h.active_transfers;
    },
    download transfer_id (length bytes) total_chunks h.chunk_size,
  )

  unfoldable pub start_download :
      String → String → FileTransferHandler → FileTransferHandler × Answer
  unfolding chunk_count
  start_download filename transfer_id h =
      let filepath = os.join h.storage_dir filename in
      elim (lookup filepath h.files) as (λ _. FileTransferHandler × Answer) [
        | none ↦ (h, file_not_found)
        | some bytes ↦ elim (chunk_count (length bytes) h.chunk_size) [
          | none ↦ (h, raised)
          | some total_chunks ↦ served transfer_id filepath bytes total_chunks h
        ]
      ]

  unfoldable pub get_download_chunk : String → ℕ → FileTransferHandler → Answer
  get_download_chunk transfer_id chunk_index h = elim (lookup transfer_id h.active_transfers) [
    | none ↦ transfer_not_found
    | some (receiving r) ↦ raised
    | some (serving s) ↦
        let bytes = chunk_at chunk_index h.chunk_size (contents (lookup s.filepath h.files)) in
        chunk chunk_index bytes (length bytes)
  ]
