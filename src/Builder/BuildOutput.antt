-- ===== src/Builder/BuildOutput.antt =====
-- MachOCoreDumpBuilder::Build as a whole, on a builder that is ready.
use mac_mini_dump.Prelude.{◌+◌, ◌≡◌, refl, sym, ◌∙◌, ap, List, [], ◌∷◌, ◌++◌}
use native.Mathlib.Nat.{add-zero}
use mac_mini_dump.DataAccess.{Memory}
use mac_mini_dump.Builder.{header_size, Note, Builder, finalize_load_commands}
use mac_mini_dump.Builder.Build.{
  goes_on, ◌>>=◌, write_note_payloads, write_segment_payloads, encode_header, write_payloads,
  write_notes, write_threads, write_segments, build,
}
use mac_mini_dump.Builder.Layout.{WellNamed, FileFits, notes_start, segments_start}
use mac_mini_dump.Builder.Disk.{Disk, emit, disk_stream, empty_disk}
use mac_mini_dump.Builder.Plan.{
  perform, place_notes, place_segments, put_notes, put_threads, put_segments, note_payloads,
  segment_payloads, Ready, plan,
}
use mac_mini_dump.Builder.Output.{
  writes_all, length-encode_header, write_notes-perform, write_threads-perform,
}
use mac_mini_dump.Builder.SegmentOutput.{write_segments-perform}
use mac_mini_dump.Builder.PayloadOutput.{
  write_note_payloads-perform, write_segment_payloads-perform,
}
use mac_mini_dump.Builder.Placed.{
  perform-append, payload_total-place, file_total-place, HaveNames-place, DistinctStarts-place,
  NotesReady-place, note_payloads-place, SegmentsReady-place, segment_payloads-place,
}

module _ (memory : Memory) where
  -- The builder with the offsets of all its payloads.
  abbrev pub placed : Builder → Builder
  placed b = record b {
    note_cmds = place_notes (notes_start b) b.note_cmds;
    segment_cmds = place_segments (segments_start b) b.segment_cmds;
  }

  module _ (b : Builder) (first : Note) (others : List Note) (ns : b.note_cmds ≡ first ∷ others)
      (r : Ready memory b) where
    placed-names : WellNamed (placed b).note_cmds
    placed-names =
        (r.names.0, HaveNames-place r.names.0 (notes_start b) b.note_cmds r.names.1, r.names.2)

    placed-segments_start : segments_start (placed b) ≡ segments_start b
    placed-segments_start = rw (payload_total-place (notes_start b) b.note_cmds)

    placed-FileFits : FileFits (placed b)
    placed-FileFits =
        rw
          (
            payload_total-place (notes_start b) b.note_cmds,
            file_total-place (segments_start b) b.segment_cmds,
          )
          r.file_fits

    notes_phase :
        (d : Disk)
        → write_note_payloads disk_stream memory (placed b).note_cmds (placed b, d)
          ≡ goes_on (placed b, perform (note_payloads memory (notes_start b) b.note_cmds r.notes) d)
    notes_phase d =
        write_note_payloads-perform memory [] (placed b).note_cmds (placed b) d
          (NotesReady-place memory (notes_start b) b.note_cmds r.notes) r.finalized refl
          placed-names placed-FileFits
        ∙ ap
            (λ q. goes_on (
              placed b,
              perform
                  (note_payloads memory q (placed b).note_cmds
                    (NotesReady-place memory (notes_start b) b.note_cmds r.notes))
                  d,
            ))
            (add-zero (notes_start b))
        ∙ ap (λ l. goes_on (placed b, perform l d))
            (note_payloads-place memory (notes_start b) (notes_start b) b.note_cmds r.notes)

    segments_phase :
        (d : Disk)
        → write_segment_payloads disk_stream memory (placed b).segment_cmds (placed b, d)
          ≡ goes_on (
            placed b,
            perform (segment_payloads memory (segments_start b) b.segment_cmds r.segments) d,
          )
    segments_phase d =
        write_segment_payloads-perform memory [] (placed b).segment_cmds
          (record first.0 { offset = notes_start b }, first.1)
          (place_notes (notes_start b + first.0.size) others) (placed b) d
          (SegmentsReady-place memory (segments_start b) b.segment_cmds r.segments) r.finalized
          (ap (place_notes (notes_start b)) ns) placed-names refl
          (DistinctStarts-place (segments_start b) b.segment_cmds r.starts) placed-FileFits
        ∙ ap
            (λ q. goes_on (
              placed b,
              perform
                  (segment_payloads memory q (placed b).segment_cmds
                    (SegmentsReady-place memory (segments_start b) b.segment_cmds r.segments))
                  d,
            ))
            (add-zero (segments_start (placed b)) ∙ placed-segments_start)
        ∙ ap (λ l. goes_on (placed b, perform l d))
            (segment_payloads-place memory (segments_start b) (segments_start b) b.segment_cmds
              r.segments)

    payloads-perform :
        (d : Disk)
        → write_payloads disk_stream memory (placed b, d)
          ≡ goes_on (
            placed b,
            perform
                (note_payloads memory (notes_start b) b.note_cmds r.notes
                  ++ segment_payloads memory (segments_start b) b.segment_cmds r.segments)
                d,
          )
    unfolding write_payloads
    payloads-perform d =
        ap (λ f. f >>= λ x. write_segment_payloads disk_stream memory x.0.segment_cmds x)
          (notes_phase d)
        ∙ segments_phase (perform (note_payloads memory (notes_start b) b.note_cmds r.notes) d)
        ∙ ap (λ d'. goes_on (placed b, d'))
            (sym (perform-append (note_payloads memory (notes_start b) b.note_cmds r.notes) _ d))

    abbrev after_header : Disk
    after_header = emit (encode_header b.header) empty_disk

    abbrev after_notes : Disk
    after_notes = perform (put_notes (place_notes (notes_start b) b.note_cmds)) after_header

    abbrev after_threads : Disk
    after_threads = perform (put_threads b.thread_cmds) after_notes

    abbrev after_segments : Disk
    after_segments =
        perform (put_segments (place_segments (segments_start b) b.segment_cmds)) after_threads

    abbrev noted : Builder
    noted = record b { note_cmds = place_notes (notes_start b) b.note_cmds }

    notes_command_phase :
        write_notes disk_stream memory [] b.note_cmds (b, after_header)
        ≡ goes_on (noted, after_notes)
    notes_command_phase =
        write_notes-perform memory [] b.note_cmds b after_header r.finalized r.names r.file_fits
        ∙ ap
            (λ q. goes_on (
              record b { note_cmds = place_notes q b.note_cmds },
              perform (put_notes (place_notes q b.note_cmds)) after_header,
            ))
            (add-zero (notes_start b))

    segments_command_phase :
        write_segments disk_stream memory [] b.segment_cmds (noted, after_threads)
        ≡ goes_on (placed b, after_segments)
    segments_command_phase =
        write_segments-perform memory [] b.segment_cmds
          (record first.0 { offset = notes_start b }, first.1)
          (place_notes (notes_start b + first.0.size) others) noted after_threads r.finalized
          (ap (place_notes (notes_start b)) ns) placed-names r.starts
          (rw (payload_total-place (notes_start b) b.note_cmds) r.file_fits)
        ∙ ap
            (λ q. goes_on (
              record noted { segment_cmds = place_segments q b.segment_cmds },
              perform (put_segments (place_segments q b.segment_cmds)) after_threads,
            ))
            (add-zero (segments_start noted) ∙ placed-segments_start)

    already_final : finalize_load_commands b ≡ b
    unfolding finalize_load_commands
    already_final = rw (r.finalized, finalize_load_commands)

    plan_phases :
        perform
          (note_payloads memory (notes_start b) b.note_cmds r.notes
            ++ segment_payloads memory (segments_start b) b.segment_cmds r.segments)
          after_segments
        ≡ perform (plan memory b r) empty_disk
    plan_phases = simp perform-append

    -- For a builder that is ready and has a note, `Build` returns true, gives every load command
    -- its offset, and writes exactly the planned file: the header, the load commands in their order
    -- with their offsets, each note's payload at its offset, and at each segment's offset the
    -- memory of the segment as a whole, however it was read in chunks.
    pub build-plan :
        build disk_stream memory b empty_disk
        ≡ goes_on (placed b, perform (plan memory b r) empty_disk)
    unfolding build
    build-plan = rw already_final (
        ap
          (λ m.
            m
            >>= (λ x. write_notes disk_stream memory [] x.0.note_cmds x)
            >>= (λ x. write_threads disk_stream memory x.0.thread_cmds x)
            >>= (λ x. write_segments disk_stream memory [] x.0.segment_cmds x)
            >>= write_payloads disk_stream memory)
          (writes_all memory (encode_header b.header) header_size b empty_disk
            (length-encode_header b.header))
        ∙ ap
            (λ m.
              m
              >>= (λ x. write_threads disk_stream memory x.0.thread_cmds x)
              >>= (λ x. write_segments disk_stream memory [] x.0.segment_cmds x)
              >>= write_payloads disk_stream memory)
            notes_command_phase
        ∙ ap
            (λ m.
              m
              >>= (λ x. write_segments disk_stream memory [] x.0.segment_cmds x)
              >>= write_payloads disk_stream memory)
            (write_threads-perform memory b.thread_cmds noted after_notes r.threads)
        ∙ ap (λ m. m >>= write_payloads disk_stream memory) segments_command_phase
        ∙ payloads-perform after_segments
        ∙ ap (λ d. goes_on (placed b, d)) plan_phases)
