-- ===== src/Builder/Build.antt =====
-- MachOCoreDumpBuilder::Build, over a stream and the memory of the task.
use mac_mini_dump.Prelude.{
  ℕ, zero, suc, ◌*◌, ◌/◌, ◌%◌, min, List, [], ◌∷◌, ◌++◌, Option, none, some, ◌==◌, if◌then◌else◌,
}
use mac_mini_dump.Prelude.Words.{add64}
use mac_mini_dump.Bytes.{le_bytes, padded}
use mac_mini_dump.DataAccess.{Memory, DataPtr, get, get_at}
use mac_mini_dump.Stream.{OStream}
use mac_mini_dump.Builder.{
  fault, returns, header_size, note_command_size, segment_command_size, Header, NoteCommand,
  ThreadCommand, SegmentCommand, Note, Segment, Builder, finalize_load_commands,
}
use mac_mini_dump.Builder.Offsets.{
  owner_string, get_offset_for_note_command_payload, get_offset_for_segment_command_payload,
}

-- The structures as they stand in memory: MH_MAGIC_64, MH_CORE, LC_NOTE and LC_SEGMENT_64.
unfoldable pub encode_header : Header → List ℕ
encode_header h =
    le_bytes 4 0xfeed_facf
    ++ (le_bytes 4 h.cputype
        ++ (le_bytes 4 h.cpusubtype
            ++ (le_bytes 4 4
                ++ (le_bytes 4 h.ncmds
                    ++ (le_bytes 4 h.sizeofcmds ++ (le_bytes 4 0 ++ le_bytes 4 0))))))

unfoldable pub encode_note : NoteCommand → List ℕ
encode_note nc =
    le_bytes 4 0x31
    ++ (le_bytes 4 nc.cmdsize ++ (nc.data_owner ++ (le_bytes 8 nc.offset ++ le_bytes 8 nc.size)))

unfoldable pub encode_segment : SegmentCommand → List ℕ
encode_segment sc =
    le_bytes 4 0x19
    ++ (le_bytes 4 sc.cmdsize
        ++ (padded 16 []
            ++ (le_bytes 8 sc.vmaddr
                ++ (le_bytes 8 sc.vmsize
                    ++ (le_bytes 8 sc.fileoff
                        ++ (le_bytes 8 sc.filesize
                            ++ (le_bytes 4 sc.maxprot
                                ++ (le_bytes 4 sc.initprot ++ (le_bytes 4 0 ++ le_bytes 4 0)))))))))

-- Where `Build` stands: it goes on, or has returned false.
pub data Flow (X : Type 0) : Type 0 where
  crashes : Flow X
  stops : X → Flow X
  goes_on : X → Flow X

infixl 5 ◌>>=◌
abbrev pub ◌>>=◌ : {X : Type 0} → Flow X → (X → Flow X) → Flow X
crashes >>= f = crashes
stops x >>= f = stops x
goes_on x >>= f = f x

-- What `GetOffset…` leaves in its out-parameter.
abbrev pub found_or : ℕ → Option ℕ → ℕ
found_or old none = old
found_or old (some n) = n

abbrev pub max_chunk_size : ℕ
max_chunk_size = 4096 * 1024

module _ {S : Type 0} (stream : OStream S) (memory : Memory) where
  -- `if (!WriteToOStream (pData, size, pOStream)) return false;`
  unfoldable pub write_to_ostream : Option (List ℕ) → ℕ → Builder × S → Flow (Builder × S)
  write_to_ostream data' size (b, s) =
      let (s', written) = stream.write data' size s in
      if written then goes_on (b, s') else stops (b, s')

  -- The notes that the loop has passed, and those it has still to visit.
  unfoldable pub write_notes : List Note → List Note → Builder × S → Flow (Builder × S)
  write_notes done [] (b, s) = goes_on (record b { note_cmds = done }, s)
  write_notes done ((nc, provider) ∷ rest) (b, s) =
      elim (get_offset_for_note_command_payload (owner_string nc)
        (record b { note_cmds = done ++ (nc, provider) ∷ rest })) [
          | fault ↦ crashes
          | returns found ↦
              let nc' = record nc { offset = found_or nc.offset found } in
              write_to_ostream (some (encode_note nc')) note_command_size
                (record b { note_cmds = done ++ (nc', provider) ∷ rest }, s)
              >>= write_notes (done ++ (nc', provider) ∷ []) rest
        ]

  unfoldable pub write_threads : List ThreadCommand → Builder × S → Flow (Builder × S)
  write_threads [] x = goes_on x
  write_threads (tc ∷ rest) x = write_to_ostream (some tc.bytes) tc.cmdsize x >>= write_threads rest

  unfoldable pub write_segments : List Segment → List Segment → Builder × S → Flow (Builder × S)
  write_segments done [] (b, s) = goes_on (record b { segment_cmds = done }, s)
  write_segments done ((sc, provider) ∷ rest) (b, s) =
      elim (get_offset_for_segment_command_payload sc.vmaddr
        (record b { segment_cmds = done ++ (sc, provider) ∷ rest })) [
          | fault ↦ crashes
          | returns found ↦
              let sc' = record sc { fileoff = found_or sc.fileoff found } in
              write_to_ostream (some (encode_segment sc')) segment_command_size
                (record b { segment_cmds = done ++ (sc', provider) ∷ rest }, s)
              >>= write_segments (done ++ (sc', provider) ∷ []) rest
        ]

  -- One round of the loop over the payloads of the notes. A variable that was not set is read.
  unfoldable pub write_note_payload : Note → Builder × S → Flow (Builder × S)
  write_note_payload (nc, none) x = crashes
  write_note_payload (nc, some provider) (b, s) =
      elim (get_offset_for_note_command_payload (owner_string nc) b) [
        | fault ↦ crashes
        | returns none ↦ crashes
        | returns (some offset) ↦
            write_to_ostream (get memory provider.data_ptr) nc.size
              (b, stream.set_position offset s)
      ]

  unfoldable pub write_note_payloads : List Note → Builder × S → Flow (Builder × S)
  write_note_payloads [] x = goes_on x
  write_note_payloads (nc ∷ rest) x = write_note_payload nc x >>= write_note_payloads rest

  -- The loop over `iters` chunks, and what follows it: a chunk that cannot be read ends the loop,
  -- and the left-over bytes are read and written in any case, since `nLeftOverBytes >= 0` always
  -- holds.
  unfoldable pub write_chunks :
      DataPtr → (chunk_size left_over iters offset : ℕ) → Builder × S → Flow (Builder × S)
  write_chunks ptr chunk_size left_over zero offset x =
      write_to_ostream (get_at memory ptr offset left_over) left_over x
  write_chunks ptr chunk_size left_over (suc iters) offset x =
      elim (get_at memory ptr offset chunk_size) [
        | none ↦ write_to_ostream (get_at memory ptr offset left_over) left_over x
        | some chunk ↦
            write_to_ostream (some chunk) chunk_size x
            >>= write_chunks ptr chunk_size left_over iters (add64 offset chunk_size)
      ]

  -- One round of the loop over the payloads of the segments. `%` and `/` trap on 0.
  unfoldable pub write_segment_payload : Segment → Builder × S → Flow (Builder × S)
  write_segment_payload (sc, none) x = crashes
  write_segment_payload (sc, some provider) (b, s) =
      elim (get_offset_for_segment_command_payload sc.vmaddr b) [
        | fault ↦ crashes
        | returns none ↦ crashes
        | returns (some start_offset) ↦
            let chunk_size = min provider.size max_chunk_size in
            if chunk_size == 0
            then crashes
            else write_chunks provider.data_ptr chunk_size (provider.size % chunk_size)
                (provider.size / chunk_size) 0 (b, stream.set_position start_offset s)
      ]

  unfoldable pub write_segment_payloads : List Segment → Builder × S → Flow (Builder × S)
  write_segment_payloads [] x = goes_on x
  write_segment_payloads (sc ∷ rest) x = write_segment_payload sc x >>= write_segment_payloads rest

  -- The loops that follow the load commands see the builder with its offsets set.
  unfoldable pub write_payloads : Builder × S → Flow (Builder × S)
  write_payloads (b, s) =
      write_note_payloads b.note_cmds (b, s) >>= λ x. write_segment_payloads x.0.segment_cmds x

  unfoldable pub build : Builder → S → Flow (Builder × S)
  build b s =
      let b' = finalize_load_commands b in
      write_to_ostream (some (encode_header b'.header)) header_size (b', s)
      >>= (λ x. write_notes [] x.0.note_cmds x)
      >>= (λ x. write_threads x.0.thread_cmds x)
      >>= (λ x. write_segments [] x.0.segment_cmds x)
      >>= write_payloads
