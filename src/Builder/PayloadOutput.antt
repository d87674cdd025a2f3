-- ===== src/Builder/PayloadOutput.antt =====
-- MachOCoreDumpBuilder::Build on a builder that is ready: the loops over the payloads.
use mac_mini_dump.Prelude.{
  ℕ, zero, suc, ◌+◌, ◌*◌, ◌/◌, ◌%◌, ◌<◌, ◌≡◌, refl, sym, ◌∙◌, ap, min, true, false, List, [], ◌∷◌,
  ◌++◌, none, some, arith, length, ◌==◌,
}
use mathlib.Core.List.{append_assoc}
use native.Mathlib.Nat.{div-add-mod'}
use mac_mini_dump.Prelude.Words.{u64_mod, add64}
use mac_mini_dump.DataAccess.{Memory, DataPtr, DataProvider, get}
use mac_mini_dump.Builder.{returns, NoteCommand, SegmentCommand, Note, Segment, Builder}
use mac_mini_dump.Builder.Offsets.{
  owner_string, get_offset_for_note_command_payload, get_offset_for_segment_command_payload,
}
use mac_mini_dump.Builder.Build.{
  goes_on, max_chunk_size, write_chunks, write_note_payload, write_note_payloads,
  write_segment_payload, write_segment_payloads,
}
use mac_mini_dump.Builder.Layout.{
  payload_total, file_total, WellNamed, FileFits, notes_start, segments_start, note_payload_offset,
  payload_total-append, file_total-append,
}
use mac_mini_dump.Builder.Segments.{DistinctStarts, segment_payload_offset}
use mac_mini_dump.Builder.Disk.{Disk, emit, seek, emit-emit, disk_stream}
use mac_mini_dump.Builder.Plan.{
  perform, cells, Reads, NotesReady, SegmentsReady, note_payloads, segment_payloads,
}
use mac_mini_dump.Builder.Output.{writes_all}

pub length-cells : (content : ℕ → ℕ) (o n : ℕ) → length (cells content o n) ≡ n
length-cells content o zero = refl
length-cells content o (suc n) = ap suc (length-cells content (o + 1) n)

cells-append :
    (content : ℕ → ℕ) (o m n : ℕ)
    → cells content o m ++ cells content (o + m) n ≡ cells content o (m + n)
cells-append content o zero n = ground arith
cells-append content o (suc m) n =
    ap (◌∷◌ (content o)) (
      ap (λ q. cells content (o + 1) m ++ cells content q n) (omega arith)
      ∙ cells-append content (o + 1) m n)
    ∙ (let e : suc (m + n) ≡ suc m + n = omega arith in ap (cells content o) e)

module _ (memory : Memory) where
  -- The chunks of a segment, one after the other, are the segment.
  write_chunks-perform :
      (ptr : DataPtr) (size : ℕ) (content : ℕ → ℕ) (chunk left_over iters offset : ℕ) (b : Builder)
      (d : Disk)
      → Reads memory ptr size content
      → size < u64_mod
      → offset + (iters * chunk + left_over) ≡ size
      → write_chunks disk_stream memory ptr chunk left_over iters offset (b, d)
        ≡ goes_on (b, emit (cells content offset (iters * chunk + left_over)) d)
  unfolding write_chunks
  write_chunks-perform ptr size content chunk left_over zero offset b d r w e =
      rw (r offset left_over (omega arith), write_chunks)
        (writes_all memory (cells content offset left_over) left_over b d
            (length-cells content offset left_over)
          ∙ ap (λ n. goes_on (b, emit (cells content offset n) d)) (omega arith))
  write_chunks-perform ptr size content chunk left_over (suc iters) offset b d r w e =
      rw
        (
          r offset chunk (omega arith),
          write_chunks,
          writes_all memory (cells content offset chunk) chunk b d
              (length-cells content offset chunk),
          moved,
        )
        (write_chunks-perform ptr size content chunk left_over iters (offset + chunk) b
            (emit (cells content offset chunk) d) r w (omega arith)
          ∙ ap (λ d'. goes_on (b, d'))
              (emit-emit (cells content offset chunk)
                  (cells content (offset + chunk) (iters * chunk + left_over)) d
                ∙ ap (λ xs. emit xs d)
                    (cells-append content offset chunk (iters * chunk + left_over)
                      ∙ ap (cells content offset) (omega arith))))
    where
      moved : add64 offset chunk ≡ offset + chunk
      moved = omega arith

  write_segment_payload-perform :
      (sc : SegmentCommand) (pr : DataProvider) (content : ℕ → ℕ) (a : ℕ) (b : Builder) (d : Disk)
      → get_offset_for_segment_command_payload sc.vmaddr b ≡ returns (some a)
      → Reads memory pr.data_ptr pr.size content
      → 0 < pr.size
      → pr.size < u64_mod
      → write_segment_payload disk_stream memory (sc, some pr) (b, d)
        ≡ goes_on (b, emit (cells content 0 pr.size) (seek a d))
  unfolding write_segment_payload
  write_segment_payload-perform sc pr content a b d e r p w =
      rw (e, write_segment_payload, positive)
        (write_chunks-perform pr.data_ptr pr.size content chunk (pr.size % chunk) (pr.size / chunk)
            0 b (seek a d) r w (omega (arith, split))
          ∙ ap (λ n. goes_on (b, emit (cells content 0 n) (seek a d))) split)
    where
      chunk : ℕ
      chunk = min pr.size max_chunk_size

      positive : (chunk == 0) ≡ false
      positive = ground arith

      split : pr.size / chunk * chunk + pr.size % chunk ≡ pr.size
      split = div-add-mod' pr.size chunk

  write_note_payload-perform :
      (nc : NoteCommand) (pr : DataProvider) (bytes : List ℕ) (a : ℕ) (b : Builder) (d : Disk)
      → get_offset_for_note_command_payload (owner_string nc) b ≡ returns (some a)
      → get memory pr.data_ptr ≡ some bytes
      → length bytes ≡ nc.size
      → write_note_payload disk_stream memory (nc, some pr) (b, d)
        ≡ goes_on (b, emit bytes (seek a d))
  unfolding write_note_payload
  write_note_payload-perform nc pr bytes a b d e g l =
      rw (e, write_note_payload, g) (writes_all memory bytes nc.size b (seek a d) l)

  -- The loop over the payloads of the notes.
  pub write_note_payloads-perform :
      (before todo : List Note) (b : Builder) (d : Disk) (r : NotesReady memory todo)
      → b.load_commands_finalized ≡ true
      → b.note_cmds ≡ before ++ todo
      → WellNamed b.note_cmds
      → FileFits b
      → write_note_payloads disk_stream memory todo (b, d)
        ≡ goes_on
            (b, perform (note_payloads memory (notes_start b + payload_total before) todo r) d)
  unfolding write_note_payloads
  write_note_payloads-perform before [] b d r fin e n f = refl
  write_note_payloads-perform before ((nc, none) ∷ todo) b d r fin e n f = absurd r
  write_note_payloads-perform before ((nc, some pr) ∷ todo) b d r fin e n f =
      rw
        (write_note_payload-perform nc pr r.0.0 a b d
          (note_payload_offset b before todo nc (some pr) fin e n f) r.0.1 r.0.2)
        (write_note_payloads-perform (before ++ (nc, some pr) ∷ []) todo b (emit r.0.0 (seek a d))
            r.2 fin (e ∙ sym (append_assoc before ((nc, some pr) ∷ []) todo)) n f
          ∙ ap (λ q. goes_on (b, perform (note_payloads memory q todo r.2) (emit r.0.0 (seek a d))))
              moved)
    where
      a : ℕ
      a = notes_start b + payload_total before

      moved : notes_start b + payload_total (before ++ (nc, some pr) ∷ []) ≡ a + nc.size
      moved = omega (arith, payload_total-append before ((nc, some pr) ∷ []))

  -- The loop over the payloads of the segments.
  pub write_segment_payloads-perform :
      (before todo : List Segment) (first : Note) (others : List Note) (b : Builder) (d : Disk)
      (r : SegmentsReady memory todo)
      → b.load_commands_finalized ≡ true
      → b.note_cmds ≡ first ∷ others
      → WellNamed b.note_cmds
      → b.segment_cmds ≡ before ++ todo
      → DistinctStarts b.segment_cmds
      → FileFits b
      → write_segment_payloads disk_stream memory todo (b, d)
        ≡ goes_on
            (b, perform (segment_payloads memory (segments_start b + file_total before) todo r) d)
  unfolding write_segment_payloads
  write_segment_payloads-perform before [] first others b d r fin ns n e s f = refl
  write_segment_payloads-perform before ((sc, none) ∷ todo) first others b d r fin ns n e s f =
      absurd r
  write_segment_payloads-perform before ((sc, some pr) ∷ todo) first others b d r fin ns n e s f =
      rw
        (
          write_segment_payload-perform sc pr r.0.0 a b d
              (segment_payload_offset b first others before todo sc (some pr) fin ns n e s f) r.0.1
              r.1 small,
          r.2,
        )
        (write_segment_payloads-perform (before ++ (sc, some pr) ∷ []) todo first others b
            (emit (cells r.0.0 0 sc.filesize) (seek a d)) r.4 fin ns n
            (e ∙ sym (append_assoc before ((sc, some pr) ∷ []) todo)) s f
          ∙ ap
              (λ q. goes_on (
                b,
                perform (segment_payloads memory q todo r.4)
                    (emit (cells r.0.0 0 sc.filesize) (seek a d)),
              ))
              moved)
    where
      a : ℕ
      a = segments_start b + file_total before

      moved : segments_start b + file_total (before ++ (sc, some pr) ∷ []) ≡ a + sc.filesize
      moved = omega (arith, file_total-append before ((sc, some pr) ∷ []))

      small : pr.size < u64_mod
      small = omega (arith, r.2, ap file_total e, file_total-append before ((sc, some pr) ∷ todo))
