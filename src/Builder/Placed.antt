-- ===== src/Builder/Placed.antt =====
-- MachOCoreDumpBuilder::Build: load commands whose offsets are set are as ready as before.
use mac_mini_dump.Prelude.{length, suc, ℕ, ◌+◌, ◌≡◌, refl, ap, List, [], ◌∷◌, ◌++◌, none, some}
use mac_mini_dump.DataAccess.{Memory}
use mac_mini_dump.Builder.{Note, Segment}
use mac_mini_dump.Builder.Names.{HaveNames}
use mac_mini_dump.Builder.Layout.{payload_total, file_total}
use mac_mini_dump.Builder.Segments.{OtherStarts, DistinctStarts}
use mac_mini_dump.Builder.Disk.{Disk, emit}
use mac_mini_dump.Builder.Plan.{
  Action, perform, place_notes, place_segments, NotesReady, SegmentsReady, note_payloads,
  segment_payloads, cells,
}

pub perform-append :
    (xs ys : List Action) (d : Disk) → perform (xs ++ ys) d ≡ perform ys (perform xs d)
perform-append [] ys d = refl
perform-append (Action.puts bytes ∷ xs) ys d = perform-append xs ys (emit bytes d)
perform-append (Action.seeks p ∷ xs) ys d = perform-append xs ys _

pub payload_total-place :
    (a : ℕ) (notes : List Note) → payload_total (place_notes a notes) ≡ payload_total notes
payload_total-place a [] = refl
payload_total-place a ((nc, p) ∷ notes) =
    ap (λ n. nc.size + n) (payload_total-place (a + nc.size) notes)

pub file_total-place :
    (a : ℕ) (segments : List Segment) → file_total (place_segments a segments) ≡ file_total segments
file_total-place a [] = refl
file_total-place a ((sc, p) ∷ segments) =
    ap (λ n. sc.filesize + n) (file_total-place (a + sc.filesize) segments)

pub length-place_segments :
    (a : ℕ) (segments : List Segment) → length (place_segments a segments) ≡ length segments
length-place_segments a [] = refl
length-place_segments a ((sc, p) ∷ segments) =
    ap suc (length-place_segments (a + sc.filesize) segments)

pub HaveNames-place :
    (names : List (List ℕ)) (a : ℕ) (notes : List Note)
    → HaveNames names notes
    → HaveNames names (place_notes a notes)
HaveNames-place [] a [] h = h
HaveNames-place [] a ((nc, p) ∷ notes) h = absurd h
HaveNames-place (s ∷ ss) a [] h = absurd h
HaveNames-place (s ∷ ss) a ((nc, p) ∷ notes) h =
    (h.0, h.1, HaveNames-place ss (a + nc.size) notes h.2)

OtherStarts-place :
    (v a : ℕ) (segments : List Segment)
    → OtherStarts v segments
    → OtherStarts v (place_segments a segments)
OtherStarts-place v a [] o = tt
OtherStarts-place v a ((sc, p) ∷ segments) o =
    (o.0, OtherStarts-place v (a + sc.filesize) segments o.1)

pub DistinctStarts-place :
    (a : ℕ) (segments : List Segment)
    → DistinctStarts segments
    → DistinctStarts (place_segments a segments)
DistinctStarts-place a [] d = tt
DistinctStarts-place a ((sc, p) ∷ segments) d = (
  OtherStarts-place sc.vmaddr (a + sc.filesize) segments d.0,
  DistinctStarts-place (a + sc.filesize) segments d.1,
)

module _ (memory : Memory) where
  pub NotesReady-place :
      (a : ℕ) (notes : List Note)
      → NotesReady memory notes
      → NotesReady memory (place_notes a notes)
  NotesReady-place a [] r = tt
  NotesReady-place a ((nc, none) ∷ notes) r = absurd r
  NotesReady-place a ((nc, some pr) ∷ notes) r =
      (r.0, r.1, NotesReady-place (a + nc.size) notes r.2)

  pub note_payloads-place :
      (a o : ℕ) (notes : List Note) (r : NotesReady memory notes)
      → note_payloads memory o (place_notes a notes) (NotesReady-place a notes r)
        ≡ note_payloads memory o notes r
  unfolding NotesReady-place
  note_payloads-place a o [] r = refl
  note_payloads-place a o ((nc, none) ∷ notes) r = absurd r
  note_payloads-place a o ((nc, some pr) ∷ notes) r =
      ap (λ l. Action.seeks o ∷ Action.puts r.0.0 ∷ l)
        (note_payloads-place (a + nc.size) (o + nc.size) notes r.2)

  pub SegmentsReady-place :
      (a : ℕ) (segments : List Segment)
      → SegmentsReady memory segments
      → SegmentsReady memory (place_segments a segments)
  SegmentsReady-place a [] r = tt
  SegmentsReady-place a ((sc, none) ∷ segments) r = absurd r
  SegmentsReady-place a ((sc, some pr) ∷ segments) r =
      (r.0, r.1, r.2, r.3, SegmentsReady-place (a + sc.filesize) segments r.4)

  pub segment_payloads-place :
      (a o : ℕ) (segments : List Segment) (r : SegmentsReady memory segments)
      → segment_payloads memory o (place_segments a segments) (SegmentsReady-place a segments r)
        ≡ segment_payloads memory o segments r
  unfolding SegmentsReady-place
  segment_payloads-place a o [] r = refl
  segment_payloads-place a o ((sc, none) ∷ segments) r = absurd r
  segment_payloads-place a o ((sc, some pr) ∷ segments) r =
      ap (λ l. Action.seeks o ∷ Action.puts (cells r.0.0 0 sc.filesize) ∷ l)
        (segment_payloads-place (a + sc.filesize) (o + sc.filesize) segments r.4)
