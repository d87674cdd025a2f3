-- ===== src/WriteDump/Offsets.antt =====
-- AddPayloadsAndWrite (MacMiniDump.cpp): its loop that sets the file offsets of the segments.
use mac_mini_dump.Prelude.{ℕ, ◌+◌, ◌≡◌, refl, sym, ◌∙◌, ap, true, List, [], ◌∷◌, ◌++◌, arith}
use mathlib.Core.List.{append_assoc, append-nil}
use mac_mini_dump.Builder.{returns, SegmentCommand, Note, Segment, Builder}
use mac_mini_dump.Builder.Layout.{
  file_total, WellNamed, FileFits, segments_start, file_total-append,
}
use mac_mini_dump.Builder.Segments.{DistinctStarts, segment_payload_offset}
use mac_mini_dump.Builder.SegmentOutput.{DistinctStarts-set_fileoff}
use mac_mini_dump.Builder.Plan.{place_segments}
use mac_mini_dump.WriteDump.{set_file_offsets}

abbrev with_segments : Builder → List Segment → Builder
with_segments b segments = record b { segment_cmds = segments }

-- The loop gives every segment the place of its payload.
pub set_file_offsets-place :
    (done todo : List Segment) (first : Note) (others : List Note) (b : Builder)
    → b.load_commands_finalized ≡ true
    → b.note_cmds ≡ first ∷ others
    → WellNamed b.note_cmds
    → DistinctStarts (done ++ todo)
    → FileFits (with_segments b (done ++ todo))
    → set_file_offsets done todo b
      ≡ returns (with_segments b (done ++ place_segments (segments_start b + file_total done) todo))
unfolding set_file_offsets
set_file_offsets-place done [] first others b fin e n s f =
    ap (λ l. returns (with_segments b l)) (sym (append-nil done))
set_file_offsets-place done ((sc, p) ∷ todo) first others b fin e n s f =
    rw
      (
        segment_payload_offset (with_segments b (done ++ (sc, p) ∷ todo)) first others done todo sc
            p fin e n refl s f,
        set_file_offsets,
      )
      (set_file_offsets-place (done ++ (sc', p) ∷ []) todo first others b fin e n
          (rw regroup (DistinctStarts-set_fileoff done todo sc p a s)) (rw same_total f)
        ∙ rw (moved, append_assoc done ((sc', p) ∷ []) (place_segments (a + sc.filesize) todo)))
  where
    a : ℕ
    a = segments_start b + file_total done

    sc' : SegmentCommand
    sc' = record sc { fileoff = a }

    regroup : (done ++ (sc', p) ∷ []) ++ todo ≡ done ++ (sc', p) ∷ todo
    regroup = append_assoc done ((sc', p) ∷ []) todo

    moved : segments_start b + file_total (done ++ (sc', p) ∷ []) ≡ a + sc.filesize
    moved = omega (arith, file_total-append done ((sc', p) ∷ []))

    same_total : file_total ((done ++ (sc', p) ∷ []) ++ todo) ≡ file_total (done ++ (sc, p) ∷ todo)
    same_total = omega (
      arith,
      file_total-append (done ++ (sc', p) ∷ []) todo,
      file_total-append done ((sc', p) ∷ []),
      file_total-append done ((sc, p) ∷ todo),
    )
