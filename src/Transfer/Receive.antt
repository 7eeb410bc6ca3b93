-- ===== src/Transfer/Receive.antt =====
-- A file that is received chunk by chunk, among the chunks of other transfers.
pub mod Complete
use mathlib.Core.Path.{subst}
use mathlib.Core.List.{append-nil, append_assoc}
use net_conduit.Base.{
  ℕ, ◌+◌, ◌-◌, ◌/◌, ◌<◌, ◌≡◌, refl, ap, sym, ◌∙◌, true, false, some, List, [], ◌∷◌, ◌++◌, String,
  arith, if◌then◌else◌, str_eq, eq_iff, Bool-cases, Option-cases, inl, inr,
}
use net_conduit.Base.Dict.{lookup, erase, lookup-insert, lookup-insert_self}
use net_conduit.Protocol.Bytes.{Bytes}
use net_conduit.Transfer.{
  Os, Receiving, receiving, serving, FileTransferHandler, completed, contents, start_receive,
  receive_chunk, complete_receive, chunk_count, free_path, opened, wrote, finished,
}

-- A call of receive_chunk.
pub record Arrival : Type 0 where
  pub transfer_id : String
  pub chunk_index : ℕ
  pub bytes : Bytes

-- The bytes that arrive for one transfer, in order.
abbrev pub arrived : String → List Arrival → Bytes
arrived id [] = []
arrived id (a ∷ rest) =
    if str_eq a.transfer_id id then a.bytes ++ arrived id rest else arrived id rest

module _ (os : Os) where
  unfoldable pub receive_all : List Arrival → FileTransferHandler → FileTransferHandler
  receive_all [] h = h
  receive_all (a ∷ rest) h =
      receive_all rest (receive_chunk os a.transfer_id a.chunk_index a.bytes h).0

  abbrev pub temp_path : String → String → String
  temp_path dir id = os.join dir (os.temp_name id)

  -- Temporary files of different transfers have different paths.
  abbrev pub HasOwnPaths : String → Type 0
  HasOwnPaths dir = (i j : String) → temp_path dir i ≡ temp_path dir j → i ≡ j

  -- Each transfer that is being received writes to its own temporary file.
  abbrev pub IsTidy : FileTransferHandler → Type 0
  IsTidy h =
      (i : String) (r : Receiving)
      → lookup i h.active_transfers ≡ some (receiving r)
      → r.temp_path ≡ temp_path h.storage_dir i

  -- What is known of the transfer `id` while it is received.
  record IsOpen (id : String) (r : Receiving) (acc : Bytes) (h : FileTransferHandler) : Type 0 where
    count : ℕ
    entry : lookup id h.active_transfers ≡ some (receiving (record r { received_chunks = count }))
    file : lookup r.temp_path h.files ≡ some acc
    writable : r.is_closed ≡ false
    tidy : IsTidy h

  receive_chunk-wrote :
      (id : String) (ix : ℕ) (bytes : Bytes) (r : Receiving) (h : FileTransferHandler)
      → lookup id h.active_transfers ≡ some (receiving r)
      → r.is_closed ≡ false
      → receive_chunk os id ix bytes h ≡ wrote os id ix bytes r h
  unfolding receive_chunk
  receive_chunk-wrote id ix bytes r h e c = ground (arith, e, c)

  wrote-IsTidy :
      (id : String) (ix : ℕ) (bytes : Bytes) (r : Receiving) (h : FileTransferHandler)
      → lookup id h.active_transfers ≡ some (receiving r)
      → IsTidy h
      → IsTidy (wrote os id ix bytes r h).0
  wrote-IsTidy id ix bytes r h e t i r' e' =
      let r1 = record r { received_chunks = r.received_chunks + 1 } in
      ground (
        arith,
        lookup-insert id i (receiving r1) h.active_transfers,
        t id r e,
        t i r',
        eq_iff id i,
        e',
      )

  own_chunk :
      (id : String) (ix : ℕ) (bytes acc : Bytes) (r : Receiving) (h : FileTransferHandler)
      → IsOpen id r acc h
      → IsOpen id r (acc ++ bytes) (receive_chunk os id ix bytes h).0
  own_chunk id ix bytes acc r h o =
      let r1 = record r { received_chunks = o.count } in
      let r2 = record r { received_chunks = o.count + 1 } in
      let e = receive_chunk-wrote id ix bytes r1 h o.entry o.writable in
      rw e (record {
        count = o.count + 1;
        entry = lookup-insert_self id (receiving r2) h.active_transfers;
        writable = o.writable;
        file = rw o.file (lookup-insert_self r.temp_path (acc ++ bytes) h.files);
        tidy = wrote-IsTidy id ix bytes r1 h o.entry o.tidy;
      })

  -- A chunk of another transfer goes to another file.
  other_wrote :
      (id j : String) (ix : ℕ) (bytes acc : Bytes) (r r' : Receiving) (h : FileTransferHandler)
      → HasOwnPaths h.storage_dir
      → str_eq j id ≡ false
      → lookup j h.active_transfers ≡ some (receiving r')
      → IsOpen id r acc h
      → IsOpen id r acc (wrote os j ix bytes r' h).0
  other_wrote id j ix bytes acc r r' h own ne e o =
      let r1 = record r { received_chunks = o.count } in
      let r2 = record r' { received_chunks = r'.received_chunks + 1 } in
      let mine = o.tidy id r1 o.entry in
      let its = o.tidy j r' e in
      let apart : str_eq r'.temp_path r.temp_path ≡ false =
        ground (arith, eq_iff r'.temp_path r.temp_path, own j id, mine, its, eq_iff j id, ne) in
      record {
        count = o.count;
        writable = o.writable;
        entry = lookup-insert j id (receiving r2) h.active_transfers ∙ rw ne o.entry;
        file =
            lookup-insert r'.temp_path r.temp_path
              (contents os (lookup r'.temp_path h.files) ++ bytes) h.files
            ∙ rw apart o.file;
        tidy = wrote-IsTidy j ix bytes r' h e o.tidy;
      }

  other_chunk :
      (id j : String) (ix : ℕ) (bytes acc : Bytes) (r : Receiving) (h : FileTransferHandler)
      → HasOwnPaths h.storage_dir
      → str_eq j id ≡ false
      → IsOpen id r acc h
      → IsOpen id r acc (receive_chunk os j ix bytes h).0
  unfolding receive_chunk
  other_chunk id j ix bytes acc r h own ne o = elim (Option-cases (lookup j h.active_transfers)) [
    | inl e ↦ rw (receive_chunk, e) o
    | inr (serving s, e) ↦ rw (receive_chunk, e) o
    | inr (receiving r', e) ↦ elim (Bool-cases r'.is_closed) [
      | inl c ↦ rw (receive_chunk, e, c) o
      | inr c ↦
          rw (receive_chunk-wrote j ix bytes r' h e c)
            (other_wrote id j ix bytes acc r r' h own ne e o)
    ]
  ]

  receive_chunk-storage_dir :
      (j : String) (ix : ℕ) (bytes : Bytes) (h : FileTransferHandler)
      → (receive_chunk os j ix bytes h).0.storage_dir ≡ h.storage_dir
  unfolding receive_chunk
  receive_chunk-storage_dir j ix bytes h = ground arith

  receive_all-IsOpen :
      (id : String) (r : Receiving) (acc : Bytes) (calls : List Arrival) (h : FileTransferHandler)
      → HasOwnPaths h.storage_dir
      → IsOpen id r acc h
      → IsOpen id r (acc ++ arrived id calls) (receive_all calls h)
  unfolding receive_all
  receive_all-IsOpen id r acc [] h own o = rw (append-nil acc) o
  receive_all-IsOpen id r acc (a ∷ rest) h own o =
      let h' = (receive_chunk os a.transfer_id a.chunk_index a.bytes h).0 in
      let own' : HasOwnPaths h'.storage_dir =
        rw (receive_chunk-storage_dir a.transfer_id a.chunk_index a.bytes h) own in
      elim (Bool-cases (str_eq a.transfer_id id)) [
        | inl e ↦
            let same : a.transfer_id ≡ id = (eq_iff a.transfer_id id).0 e in
            let mine : IsOpen id r (acc ++ a.bytes) h' =
              subst
                (λ t. IsOpen id r (acc ++ a.bytes) (receive_chunk os t a.chunk_index a.bytes h).0)
                (sym same) (own_chunk id a.chunk_index a.bytes acc r h o) in
            rw e (
              subst (λ l. IsOpen id r l (receive_all rest h'))
                (append_assoc acc a.bytes (arrived id rest))
                (receive_all-IsOpen id r (acc ++ a.bytes) rest h' own' mine))
        | inr ne ↦
            let its = other_chunk id a.transfer_id a.chunk_index a.bytes acc r h own ne o in
            rw ne (receive_all-IsOpen id r acc rest h' own' its)
      ]

  started-IsOpen :
      (filename id checksum : String) (size now : ℕ) (h : FileTransferHandler)
      → 0 < h.chunk_size
      → os.opens (temp_path h.storage_dir id) ≡ true
      → IsTidy h
      → (r : Receiving) × IsOpen id r [] (start_receive os filename size checksum id now h).0
        × ((start_receive os filename size checksum id now h).0.storage_dir ≡ h.storage_dir)
        × (r.filename ≡ filename)
        × (r.size ≡ size)
        × (r.checksum ≡ checksum)
        × (r.start_time ≡ now)
        × (r.final_path ≡ os.join h.storage_dir filename)
        × (r.temp_path ≡ temp_path h.storage_dir id)
  unfolding start_receive chunk_count
  started-IsOpen filename id checksum size now h hs can tidy =
      let total = (size + h.chunk_size - 1) / h.chunk_size in
      let r : Receiving = record {
        filename = filename;
        size = size;
        checksum = checksum;
        total_chunks = total;
        received_chunks = 0;
        temp_path = temp_path h.storage_dir id;
        final_path = os.join h.storage_dir filename;
        is_closed = false;
        start_time = now;
      } in
      let e : start_receive os filename size checksum id now h
          ≡ opened os filename size checksum id now total h =
        ground (arith, hs, can) in
      (
        r,
        rw e (record {
          count = 0;
          writable = refl;
          entry = lookup-insert_self id (receiving r) h.active_transfers;
          file = lookup-insert_self r.temp_path [] h.files;
          tidy = λ i r' e'. ground (
            arith,
            lookup-insert id i (receiving r) h.active_transfers,
            tidy i r',
            eq_iff id i,
            e',
          );
        }),
        rw e refl,
        refl,
        refl,
        refl,
        refl,
        refl,
        refl,
      )
