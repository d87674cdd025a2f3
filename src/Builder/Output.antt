-- ===== src/Builder/Output.antt =====
-- MachOCoreDumpBuilder::Build on a builder that is ready: what its loops over the load commands
-- write.
use mac_mini_dump.Prelude.{
  ℕ, ◌+◌, ◌≡◌, refl, sym, ◌∙◌, ap, true, List, [], ◌∷◌, ◌++◌, Option, some, arith, length,
  length-append,
}
use mathlib.Core.List.{append_assoc, append-nil}
use mac_mini_dump.Bytes.{le_bytes, padded, length-padded}
use mac_mini_dump.DataAccess.{Memory, DataProvider}
use mac_mini_dump.Builder.{
  returns, header_size, note_command_size, segment_command_size, Header, ThreadCommand, NoteCommand,
  SegmentCommand, Note, Builder,
}
use mac_mini_dump.Builder.Names.{HaveNames}
use mac_mini_dump.Builder.Offsets.{owner_string, get_offset_for_note_command_payload}
use mac_mini_dump.Builder.Build.{
  Flow, goes_on, encode_header, encode_note, encode_segment, write_to_ostream, write_notes,
  write_threads,
}
use mac_mini_dump.Builder.Layout.{
  payload_total, WellNamed, FileFits, notes_start, note_payload_offset, payload_total-append,
}
use mac_mini_dump.Builder.Disk.{Disk, emit, disk_stream, take_all}
use mac_mini_dump.Builder.Plan.{perform, place_notes, put_notes, put_threads, ThreadsReady}

pub length-encode_header : (h : Header) → length (encode_header h) ≡ header_size
unfolding encode_header le_bytes
length-encode_header h = refl

pub length-encode_note :
    (nc : NoteCommand) → length nc.data_owner ≡ 16 → length (encode_note nc) ≡ note_command_size
unfolding encode_note le_bytes
length-encode_note nc e =
    omega (arith, length-append nc.data_owner (le_bytes 8 nc.offset ++ le_bytes 8 nc.size))

pub length-encode_segment :
    (sc : SegmentCommand) → length (encode_segment sc) ≡ segment_command_size
unfolding encode_segment le_bytes padded
length-encode_segment sc = refl

pub named_length :
    (names : List (List ℕ)) (before after : List Note) (nc : NoteCommand) (p : Option DataProvider)
    → HaveNames names (before ++ (nc, p) ∷ after)
    → length nc.data_owner ≡ 16
named_length [] [] after nc p h = absurd h
named_length (s ∷ ss) [] after nc p h = rw h.1 (length-padded 16 s)
named_length [] (x ∷ before) after nc p h = absurd h
named_length (s ∷ ss) (x ∷ before) after nc p h = named_length ss before after nc p h.2

HaveNames-set_offset :
    (names : List (List ℕ)) (before after : List Note) (nc : NoteCommand) (p : Option DataProvider)
    (a : ℕ)
    → HaveNames names (before ++ (nc, p) ∷ after)
    → HaveNames names (before ++ (record nc { offset = a }, p) ∷ after)
HaveNames-set_offset [] [] after nc p a h = absurd h
HaveNames-set_offset (s ∷ ss) [] after nc p a h = h
HaveNames-set_offset [] (x ∷ before) after nc p a h = absurd h
HaveNames-set_offset (s ∷ ss) (x ∷ before) after nc p a h =
    (h.0, h.1, HaveNames-set_offset ss before after nc p a h.2)

abbrev CmdSizes : List Note → Type 0
CmdSizes [] = Unit {0}
CmdSizes ((nc, p) ∷ rest) = (nc.cmdsize ≡ note_command_size) × CmdSizes rest

module _ (memory : Memory) where
  abbrev pub writes : Option (List ℕ) → ℕ → Builder × Disk → Flow (Builder × Disk)
  writes = write_to_ostream disk_stream memory

  pub writes_all :
      (bytes : List ℕ) (size : ℕ) (b : Builder) (d : Disk)
      → length bytes ≡ size
      → writes (some bytes) size (b, d) ≡ goes_on (b, emit bytes d)
  unfolding write_to_ostream
  writes_all bytes size b d e = ap (λ xs. goes_on (b, emit xs d)) (take_all size bytes e)

  pub write_threads-perform :
      (threads : List ThreadCommand) (b : Builder) (d : Disk)
      → ThreadsReady threads
      → write_threads disk_stream memory threads (b, d)
        ≡ goes_on (b, perform (put_threads threads) d)
  unfolding write_threads
  write_threads-perform [] b d r = refl
  write_threads-perform (tc ∷ threads) b d r =
      rw (writes_all tc.bytes tc.cmdsize b d r.0)
        (write_threads-perform threads b (emit tc.bytes d) r.1)

  abbrev with_notes : Builder → List Note → Builder
  with_notes b notes = record b { note_cmds = notes }

  write_notes_step :
      (done todo : List Note) (nc : NoteCommand) (p : Option DataProvider) (a : ℕ) (b : Builder)
      (d : Disk)
      → get_offset_for_note_command_payload
          (owner_string nc)
          (with_notes b (done ++ (nc, p) ∷ todo))
        ≡ returns (some a)
      → length nc.data_owner ≡ 16
      → let nc' = record nc { offset = a } in
        write_notes disk_stream memory done ((nc, p) ∷ todo) (b, d)
        ≡ write_notes disk_stream memory
            (done ++ (nc', p) ∷ [])
            todo
            (with_notes b (done ++ (nc', p) ∷ todo), emit (encode_note nc') d)
  unfolding write_notes
  write_notes_step done todo nc p a b d e l = rw (
    e,
    write_notes,
    writes_all (encode_note (record nc { offset = a })) note_command_size
        (with_notes b (done ++ (record nc { offset = a }, p) ∷ todo)) d
        (length-encode_note (record nc { offset = a }) l),
  )

  -- The loop over the notes gives each its offset, and writes it.
  pub write_notes-perform :
      (done todo : List Note) (b : Builder) (d : Disk)
      → b.load_commands_finalized ≡ true
      → WellNamed (done ++ todo)
      → FileFits (with_notes b (done ++ todo))
      → let placed = place_notes (notes_start b + payload_total done) todo in
        write_notes disk_stream memory done todo (b, d)
        ≡ goes_on (with_notes b (done ++ placed), perform (put_notes placed) d)
  write_notes-perform done [] b d fin n f =
      unfold write_notes in ap (λ l. goes_on (with_notes b l, d)) (sym (append-nil done))
  write_notes-perform done ((nc, p) ∷ todo) b d fin n f =
      write_notes_step done todo nc p (notes_start b + payload_total done) b d
        (note_payload_offset (with_notes b (done ++ (nc, p) ∷ todo)) done todo nc p fin refl n f)
        (named_length n.0 done todo nc p n.1)
      ∙ write_notes-perform (done ++ (nc', p) ∷ []) todo (with_notes b (done ++ (nc', p) ∷ todo))
          (emit (encode_note nc') d) fin
          (n.0, rw regroup (HaveNames-set_offset n.0 done todo nc p a n.1), n.2) (rw same_total f)
      ∙ rw (moved, append_assoc done ((nc', p) ∷ []) (place_notes (a + nc.size) todo))
    where
      a : ℕ
      a = notes_start b + payload_total done

      nc' : NoteCommand
      nc' = record nc { offset = a }

      regroup : (done ++ (nc', p) ∷ []) ++ todo ≡ done ++ (nc', p) ∷ todo
      regroup = append_assoc done ((nc', p) ∷ []) todo

      moved : notes_start b + payload_total (done ++ (nc', p) ∷ []) ≡ a + nc.size
      moved = omega (arith, payload_total-append done ((nc', p) ∷ []))

      same_total :
          payload_total ((done ++ (nc', p) ∷ []) ++ todo) ≡ payload_total (done ++ (nc, p) ∷ todo)
      same_total = omega (
        arith,
        payload_total-append (done ++ (nc', p) ∷ []) todo,
        payload_total-append done ((nc', p) ∷ []),
        payload_total-append done ((nc, p) ∷ todo),
      )
