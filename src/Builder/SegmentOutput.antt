-- ===== src/Builder/SegmentOutput.antt =====
-- MachOCoreDumpBuilder::Build on a builder that is ready: the loop over the segment commands.
use mac_mini_dump.Prelude.{
  ℕ, ◌+◌, ◌≡◌, refl, sym, ◌∙◌, ap, true, List, [], ◌∷◌, ◌++◌, Option, some, arith,
}
use mathlib.Core.List.{append_assoc, append-nil}
use mac_mini_dump.DataAccess.{Memory, DataProvider}
use mac_mini_dump.Builder.{returns, segment_command_size, SegmentCommand, Note, Segment, Builder}
use mac_mini_dump.Builder.Offsets.{get_offset_for_segment_command_payload}
use mac_mini_dump.Builder.Build.{goes_on, encode_segment, write_segments}
use mac_mini_dump.Builder.Layout.{
  file_total, WellNamed, FileFits, segments_start, file_total-append,
}
use mac_mini_dump.Builder.Segments.{OtherStarts, DistinctStarts, segment_payload_offset}
use mac_mini_dump.Builder.Disk.{Disk, emit, disk_stream}
use mac_mini_dump.Builder.Plan.{perform, place_segments, put_segments}
use mac_mini_dump.Builder.Output.{writes_all, length-encode_segment}

OtherStarts-set_fileoff :
    (v : ℕ) (before after : List Segment) (sc : SegmentCommand) (p : Option DataProvider) (a : ℕ)
    → OtherStarts v (before ++ (sc, p) ∷ after)
    → OtherStarts v (before ++ (record sc { fileoff = a }, p) ∷ after)
OtherStarts-set_fileoff v [] after sc p a o = o
OtherStarts-set_fileoff v (x ∷ before) after sc p a o =
    (o.0, OtherStarts-set_fileoff v before after sc p a o.1)

pub DistinctStarts-set_fileoff :
    (before after : List Segment) (sc : SegmentCommand) (p : Option DataProvider) (a : ℕ)
    → DistinctStarts (before ++ (sc, p) ∷ after)
    → DistinctStarts (before ++ (record sc { fileoff = a }, p) ∷ after)
DistinctStarts-set_fileoff [] after sc p a d = d
DistinctStarts-set_fileoff ((mc, q) ∷ before) after sc p a d = (
  OtherStarts-set_fileoff mc.vmaddr before after sc p a d.0,
  DistinctStarts-set_fileoff before after sc p a d.1,
)

module _ (memory : Memory) where
  abbrev with_segments : Builder → List Segment → Builder
  with_segments b segments = record b { segment_cmds = segments }

  write_segments_step :
      (done todo : List Segment) (sc : SegmentCommand) (p : Option DataProvider) (a : ℕ)
      (b : Builder) (d : Disk)
      → get_offset_for_segment_command_payload sc.vmaddr (with_segments b (done ++ (sc, p) ∷ todo))
        ≡ returns (some a)
      → let sc' = record sc { fileoff = a } in
        write_segments disk_stream memory done ((sc, p) ∷ todo) (b, d)
        ≡ write_segments disk_stream memory
            (done ++ (sc', p) ∷ [])
            todo
            (with_segments b (done ++ (sc', p) ∷ todo), emit (encode_segment sc') d)
  unfolding write_segments
  write_segments_step done todo sc p a b d e = rw (
    e,
    write_segments,
    writes_all memory (encode_segment (record sc { fileoff = a })) segment_command_size
        (with_segments b (done ++ (record sc { fileoff = a }, p) ∷ todo)) d
        (length-encode_segment (record sc { fileoff = a })),
  )

  -- The loop over the segments gives each its offset, and writes it.
  pub write_segments-perform :
      (done todo : List Segment) (first : Note) (others : List Note) (b : Builder) (d : Disk)
      → b.load_commands_finalized ≡ true
      → b.note_cmds ≡ first ∷ others
      → WellNamed b.note_cmds
      → DistinctStarts (done ++ todo)
      → FileFits (with_segments b (done ++ todo))
      → let placed = place_segments (segments_start b + file_total done) todo in
        write_segments disk_stream memory done todo (b, d)
        ≡ goes_on (with_segments b (done ++ placed), perform (put_segments placed) d)
  write_segments-perform done [] first others b d fin e n s f =
      unfold write_segments in ap (λ l. goes_on (with_segments b l, d)) (sym (append-nil done))
  write_segments-perform done ((sc, p) ∷ todo) first others b d fin e n s f =
      write_segments_step done todo sc p a b d (
        segment_payload_offset (with_segments b (done ++ (sc, p) ∷ todo)) first others done todo sc
          p fin e n refl s f)
      ∙ write_segments-perform (done ++ (sc', p) ∷ []) todo first others
          (with_segments b (done ++ (sc', p) ∷ todo)) (emit (encode_segment sc') d) fin e n
          (rw regroup (DistinctStarts-set_fileoff done todo sc p a s)) (rw same_total f)
      ∙ rw (moved, append_assoc done ((sc', p) ∷ []) (place_segments (a + sc.filesize) todo))
    where
      a : ℕ
      a = segments_start b + file_total done

      sc' : SegmentCommand
      sc' = record sc { fileoff = a }

      regroup : (done ++ (sc', p) ∷ []) ++ todo ≡ done ++ (sc', p) ∷ todo
      regroup = append_assoc done ((sc', p) ∷ []) todo

      moved : segments_start b + file_total (done ++ (sc', p) ∷ []) ≡ a + sc.filesize
      moved = omega (arith, file_total-append done ((sc', p) ∷ []))

      same_total :
          file_total ((done ++ (sc', p) ∷ []) ++ todo) ≡ file_total (done ++ (sc, p) ∷ todo)
      same_total = omega (
        arith,
        file_total-append (done ++ (sc', p) ∷ []) todo,
        file_total-append done ((sc', p) ∷ []),
        file_total-append done ((sc, p) ∷ todo),
      )
