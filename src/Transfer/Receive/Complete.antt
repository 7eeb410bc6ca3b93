-- ===== src/Transfer/Receive/Complete.antt =====
-- A file that is received is complete, and stands at the path that is reported.
use mathlib.Core.Path.{subst}
use net_conduit.Base.{
  ℕ, ◌-◌, ◌<◌, ◌≡◌, refl, ap, sym, ◌∙◌, true, some, List, [], String, arith, eq_iff,
}
use net_conduit.Base.Dict.{lookup, erase, lookup-insert_self}
use net_conduit.Protocol.Bytes.{Bytes}
use net_conduit.Transfer.{
  Os, Receiving, FileTransferHandler, completed, start_receive, complete_receive, free_path,
  finished,
}
use net_conduit.Transfer.Receive.{
  Arrival, arrived, receive_all, HasOwnPaths, IsTidy, temp_path, IsOpen, receive_all-IsOpen,
  started-IsOpen,
}

module _ (os : Os) where
  completed-finished :
      (id : String) (now : ℕ) (acc : Bytes) (r : Receiving) (h : FileTransferHandler)
      (o : IsOpen os id r acc h)
      → complete_receive os id now h ≡ finished os id now (record r { received_chunks = o.count }) h
  unfolding complete_receive
  completed-finished id now acc r h o = ground (arith, o.entry)

  finished-file :
      (id : String) (now : ℕ) (acc : Bytes) (r : Receiving) (h : FileTransferHandler)
      → lookup r.temp_path h.files ≡ some acc
      → os.sha256_hex acc ≡ r.checksum
      → os.renames r.temp_path (free_path os r.final_path now h.files) ≡ true
      → ((finished os id now r h).1
          ≡ completed r.filename r.size
              (free_path os r.final_path now h.files)
              (now - r.start_time))
        × (lookup (free_path os r.final_path now h.files) (finished os id now r h).0.files
            ≡ some acc)
  finished-file id now acc r h e same moves =
      let stored =
        lookup-insert_self (free_path os r.final_path now h.files) acc
          (erase r.temp_path h.files) in
      ground (arith, e, same, moves, stored, eq_iff (os.sha256_hex acc) r.checksum)

  -- A whole receive, with the path that it stores the file at.
  pub receive_all-path :
      (filename id : String) (size now end : ℕ) (bytes : Bytes) (calls : List Arrival)
      (h : FileTransferHandler)
      → 0 < h.chunk_size
      → HasOwnPaths os h.storage_dir
      → IsTidy os h
      → arrived id calls ≡ bytes
      → os.opens (temp_path os h.storage_dir id) ≡ true
      → os.renames (temp_path os h.storage_dir id) (
          free_path os
            (os.join h.storage_dir filename)
            end
            (receive_all os calls
              (start_receive os filename size (os.sha256_hex bytes) id now h).0).files)
        ≡ true
      → ((complete_receive os id end (
            receive_all os calls
              (start_receive os filename size (os.sha256_hex bytes) id now h).0)).1
          ≡ completed filename size
              (free_path os
                (os.join h.storage_dir filename)
                end
                (receive_all os calls
                  (start_receive os filename size (os.sha256_hex bytes) id now h).0).files)
              (end - now))
        × (lookup
              (free_path os
                (os.join h.storage_dir filename)
                end
                (receive_all os calls
                  (start_receive os filename size (os.sha256_hex bytes) id now h).0).files)
              (complete_receive os id end (
                receive_all os calls
                  (start_receive os filename size (os.sha256_hex bytes) id now h).0)).0.files
            ≡ some bytes)
  receive_all-path filename id size now end bytes calls h hs own tidy same can moves =
      let checksum = os.sha256_hex bytes in
      let h1 = (start_receive os filename size checksum id now h).0 in
      let (r, o, dir, name, sz, digest, time, final, temp) =
        started-IsOpen os filename id checksum size now h hs can tidy in
      let o' = receive_all-IsOpen os id r [] calls h1 (rw dir own) o in
      let h2 = receive_all os calls h1 in
      let e = completed-finished id end (arrived id calls) r h2 o' in
      let r' = record r { received_chunks = o'.count } in
      let f =
        finished-file id end (arrived id calls) r' h2 o'.file (ap os.sha256_hex same ∙ sym digest)
          (rw (temp, final) moves) in
      let at = ap (λ p. free_path os p end h2.files) final in
      (
        ap (λ x. x.1) e ∙ f.0 ∙ rw (name, sz, time, at) refl,
        subst (λ p. lookup p (complete_receive os id end h2).0.files ≡ some bytes) at
            (ap (λ x. lookup (free_path os r.final_path end h2.files) x.0.files) e
              ∙ f.1
              ∙ ap some same),
      )

  -- Where temporary files have different paths for different transfers, the transfers that are
  -- already received write to their own, chunk_size is not 0, and the temporary file can be opened
  -- and, in the end, renamed: a file that is announced with its digest, and whose bytes
  -- arrive in order in chunks of any sizes and with any indices, among any chunks of other
  -- transfers, is reported as completed, and its bytes stand at the path that is reported.
  pub receive_all-file :
      (filename id : String) (size now end : ℕ) (bytes : Bytes) (calls : List Arrival)
      (h : FileTransferHandler)
      → 0 < h.chunk_size
      → HasOwnPaths os h.storage_dir
      → IsTidy os h
      → arrived id calls ≡ bytes
      → os.opens (temp_path os h.storage_dir id) ≡ true
      → os.renames (temp_path os h.storage_dir id) (
          free_path os
            (os.join h.storage_dir filename)
            end
            (receive_all os calls
              (start_receive os filename size (os.sha256_hex bytes) id now h).0).files)
        ≡ true
      → (path : String) × ((complete_receive os id end (
            receive_all os calls
              (start_receive os filename size (os.sha256_hex bytes) id now h).0)).1
          ≡ completed filename size path (end - now))
        × (lookup path
              (complete_receive os id end (
                receive_all os calls
                  (start_receive os filename size (os.sha256_hex bytes) id now h).0)).0.files
            ≡ some bytes)
  receive_all-file filename id size now end bytes calls h hs own tidy same can moves =
      let f = receive_all-path filename id size now end bytes calls h hs own tidy same can moves in
      (
        free_path os (os.join h.storage_dir filename) end
            (receive_all os calls
              (start_receive os filename size (os.sha256_hex bytes) id now h).0).files,
        f.0,
        f.1,
      )
