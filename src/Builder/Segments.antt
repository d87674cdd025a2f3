-- ===== src/Builder/Segments.antt =====
-- MachOCoreDumpBuilder.cpp: where the payloads of the segments go.
use mac_mini_dump.Prelude.{
  ℕ, ◌+◌, ◌<◌, ◌≡◌, ◌≢◌, refl, sym, ◌∙◌, ap, true, List, [], ◌∷◌, ◌++◌, Option, some, arith,
}
use mac_mini_dump.Prelude.Words.{u64_mod, add64}
use mac_mini_dump.DataAccess.{DataProvider}
use mac_mini_dump.Builder.{returns, NoteCommand, SegmentCommand, Note, Segment, Builder}
use mac_mini_dump.Builder.Offsets.{
  segment_offset_from, get_offset_for_segment_command_payload, last_note, round_up,
}
use mac_mini_dump.Builder.Layout.{
  payload_total, file_total, WellNamed, FileFits, notes_start, segments_start, note_payload_offset,
  notes_fit, round_up-align_up, payload_total-append, file_total-append,
}

-- The vmaddr of the segments differ from `v`.
abbrev pub OtherStarts : ℕ → List Segment → Type 0
OtherStarts v [] = Unit {0}
OtherStarts v ((sc, p) ∷ rest) = (sc.vmaddr ≢ v) × OtherStarts v rest

segment_offset-walk :
    (a : ℕ) (sc : SegmentCommand) (p : Option DataProvider) (before after : List Segment)
    → OtherStarts sc.vmaddr before
    → a + file_total before < u64_mod
    → segment_offset_from sc.vmaddr a (before ++ (sc, p) ∷ after) ≡ some (a + file_total before)
unfolding segment_offset_from
segment_offset-walk a sc p [] after o w = ground arith
segment_offset-walk a sc p ((mc, q) ∷ before) after o w =
    ground (arith, segment_offset-walk (a + mc.filesize) sc p before after o.1 (omega arith))

abbrev pub DistinctStarts : List Segment → Type 0
DistinctStarts [] = Unit {0}
DistinctStarts ((sc, p) ∷ rest) = OtherStarts sc.vmaddr rest × DistinctStarts rest

last_note-append :
    (before : List Note) (nc : NoteCommand) (p : Option DataProvider)
    → last_note (before ++ (nc, p) ∷ []) ≡ some nc
last_note-append [] nc p = refl
last_note-append (x ∷ []) nc p = refl
last_note-append (x ∷ y ∷ before) nc p = last_note-append (y ∷ before) nc p

split_last :
    (x : Note) (notes : List Note)
    → (before : List Note) × (nc : NoteCommand) × (p : Option DataProvider) × (x ∷ notes
        ≡ before ++ (nc, p) ∷ [])
split_last (nc, p) [] = ([], nc, p, refl)
split_last x (y ∷ notes) =
    let (before, nc, p, e) = split_last y notes in (x ∷ before, nc, p, ap (◌∷◌ x) e)

start_at :
    (v : ℕ) (before after : List Segment) (sc : SegmentCommand) (p : Option DataProvider)
    → OtherStarts v (before ++ (sc, p) ∷ after)
    → sc.vmaddr ≢ v
start_at v [] after sc p o = o.0
start_at v (x ∷ before) after sc p o = start_at v before after sc p o.1

starts-OtherStarts :
    (before after : List Segment) (sc : SegmentCommand) (p : Option DataProvider)
    → DistinctStarts (before ++ (sc, p) ∷ after)
    → OtherStarts sc.vmaddr before
starts-OtherStarts [] after sc p d = tt
starts-OtherStarts ((mc, q) ∷ before) after sc p d = (
  λ e. start_at mc.vmaddr before after sc p d.0 (sym e),
  starts-OtherStarts before after sc p d.1,
)

module _ (b : Builder) (others : List Note) (nc : NoteCommand) (q : Option DataProvider)
    (all : b.note_cmds ≡ others ++ (nc, q) ∷ []) (f : FileFits b) where
  last_end :
      add64 (notes_start b + payload_total others) nc.size
      ≡ notes_start b + payload_total b.note_cmds
  last_end =
      omega (arith, notes_fit b f, ap payload_total all, payload_total-append others ((nc, q) ∷ []))

  last_round :
      round_up (add64 (notes_start b + payload_total others) nc.size) 0x1000
      ≡ returns (segments_start b)
  last_round =
      rw last_end
        (round_up-align_up (notes_start b + payload_total b.note_cmds) 0xfff (omega arith))

-- In a finalized builder with notes of distinct names and segments of distinct addresses, whose
-- file fits in 64 bits, the payload of a segment begins behind the payloads of the segments before
-- it, the first at the next multiple of 4096 behind the payloads of the notes.
pub segment_payload_offset :
    (b : Builder) (first : Note) (rest : List Note) (before after : List Segment)
    (sc : SegmentCommand) (p : Option DataProvider)
    → b.load_commands_finalized ≡ true
    → b.note_cmds ≡ first ∷ rest
    → WellNamed b.note_cmds
    → b.segment_cmds ≡ before ++ (sc, p) ∷ after
    → DistinctStarts b.segment_cmds
    → FileFits b
    → get_offset_for_segment_command_payload sc.vmaddr b
      ≡ returns (some (segments_start b + file_total before))
unfolding get_offset_for_segment_command_payload
segment_payload_offset b first rest before after sc p fin notes names e d f =
    let (others, nc, q, split) = split_last first rest in
    let all : b.note_cmds ≡ others ++ (nc, q) ∷ [] = notes ∙ split in
    ground (
      arith,
      fin,
      ap last_note all ∙ last_note-append others nc q,
      note_payload_offset b others [] nc q fin all names f,
      last_round b others nc q all f,
      ap (segment_offset_from sc.vmaddr (segments_start b)) e
          ∙ segment_offset-walk (segments_start b) sc p before after
              (starts-OtherStarts before after sc p (rw e at d))
              (omega (arith, ap file_total e, file_total-append before ((sc, p) ∷ after))),
    )
