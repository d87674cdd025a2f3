-- ===== src/Builder/Plan.antt =====
-- What `Build` is to write: the file as a sequence of seeks and writes, described without its
-- loops.
use mac_mini_dump.Prelude.{
  true, ℕ, zero, suc, ◌+◌, ◌*◌, ◌≤◌, ◌<◌, ◌≡◌, List, [], ◌∷◌, ◌++◌, none, some, length,
}
use mac_mini_dump.DataAccess.{Memory, DataPtr, get, get_at}
use mac_mini_dump.Builder.{
  note_command_size, segment_command_size, ThreadCommand, Note, Segment, Builder, thread_sizes,
}
use mac_mini_dump.Builder.Build.{encode_header, encode_note, encode_segment}
use mac_mini_dump.Builder.Layout.{WellNamed, FileFits, notes_start, segments_start}
use mac_mini_dump.Builder.Segments.{DistinctStarts}
use mac_mini_dump.Builder.Disk.{Disk, emit, seek}

pub data Action : Type 0 where
  puts : List ℕ → Action
  seeks : ℕ → Action

abbrev pub perform : List Action → Disk → Disk
perform [] d = d
perform (puts bytes ∷ rest) d = perform rest (emit bytes d)
perform (seeks p ∷ rest) d = perform rest (seek p d)

-- The load commands with their offsets, for payloads that begin at `a`.
abbrev pub place_notes : ℕ → List Note → List Note
place_notes a [] = []
place_notes a ((nc, p) ∷ rest) = (record nc { offset = a }, p) ∷ place_notes (a + nc.size) rest

abbrev pub place_segments : ℕ → List Segment → List Segment
place_segments a [] = []
place_segments a ((sc, p) ∷ rest) =
    (record sc { fileoff = a }, p) ∷ place_segments (a + sc.filesize) rest

abbrev pub put_notes : List Note → List Action
put_notes [] = []
put_notes ((nc, p) ∷ rest) = puts (encode_note nc) ∷ put_notes rest

abbrev pub put_threads : List ThreadCommand → List Action
put_threads [] = []
put_threads (tc ∷ rest) = puts tc.bytes ∷ put_threads rest

abbrev pub put_segments : List Segment → List Action
put_segments [] = []
put_segments ((sc, p) ∷ rest) = puts (encode_segment sc) ∷ put_segments rest

-- The bytes `content o`, …, `content (o + n - 1)`.
abbrev pub cells : (ℕ → ℕ) → ℕ → ℕ → List ℕ
cells content o zero = []
cells content o (suc n) = content o ∷ cells content (o + 1) n

abbrev pub ThreadsReady : List ThreadCommand → Type 0
ThreadsReady [] = Unit {0}
ThreadsReady (tc ∷ rest) = (length tc.bytes ≡ tc.cmdsize) × ThreadsReady rest

-- The header and the load commands with their offsets.
abbrev pub plan_commands : Builder → List Action
plan_commands b =
    puts (encode_header b.header)
    ∷ (put_notes (place_notes (notes_start b) b.note_cmds)
        ++ (put_threads b.thread_cmds
            ++ put_segments (place_segments (segments_start b) b.segment_cmds)))

module _ (memory : Memory) where
  -- The provider of a note gives as many bytes as the note says.
  abbrev pub NotesReady : List Note → Type 0
  NotesReady [] = Unit {0}
  NotesReady ((nc, none) ∷ rest) = ⊥
  NotesReady ((nc, some pr) ∷ rest) =
      ((bytes : List ℕ) × (get memory pr.data_ptr ≡ some bytes) × (length bytes ≡ nc.size))
      × (nc.cmdsize ≡ note_command_size)
      × NotesReady rest

  -- The provider of a segment reads any part of `content`.
  abbrev pub Reads : DataPtr → ℕ → (ℕ → ℕ) → Type 0
  Reads ptr size content =
      (o n : ℕ) → o + n ≤ size → get_at memory ptr o n ≡ some (cells content o n)

  abbrev pub SegmentsReady : List Segment → Type 0
  SegmentsReady [] = Unit {0}
  SegmentsReady ((sc, none) ∷ rest) = ⊥
  SegmentsReady ((sc, some pr) ∷ rest) =
      ((content : ℕ → ℕ) × Reads pr.data_ptr pr.size content)
      × (0 < pr.size)
      × (pr.size ≡ sc.filesize)
      × (sc.cmdsize ≡ segment_command_size)
      × SegmentsReady rest

  abbrev pub note_payloads : (a : ℕ) (notes : List Note) → NotesReady notes → List Action
  note_payloads a [] r = []
  note_payloads a ((nc, none) ∷ rest) r = absurd r
  note_payloads a ((nc, some pr) ∷ rest) r =
      seeks a ∷ puts r.0.0 ∷ note_payloads (a + nc.size) rest r.2

  abbrev pub segment_payloads :
      (a : ℕ) (segments : List Segment) → SegmentsReady segments → List Action
  segment_payloads a [] r = []
  segment_payloads a ((sc, none) ∷ rest) r = absurd r
  segment_payloads a ((sc, some pr) ∷ rest) r =
      seeks a ∷ puts (cells r.0.0 0 sc.filesize) ∷ segment_payloads (a + sc.filesize) rest r.4

  -- A builder that `Build` can write: finalized, with the header's size of the load commands, with
  -- distinct names and addresses, and with its payloads at hand.
  pub record Ready (b : Builder) : Type 0 where
    pub finalized : b.load_commands_finalized ≡ true
    pub sizeofcmds :
        b.header.sizeofcmds
        ≡ note_command_size * length b.note_cmds
          + thread_sizes b.thread_cmds
          + segment_command_size * length b.segment_cmds
    pub names : WellNamed b.note_cmds
    pub starts : DistinctStarts b.segment_cmds
    pub file_fits : FileFits b
    pub threads : ThreadsReady b.thread_cmds
    pub notes : NotesReady b.note_cmds
    pub segments : SegmentsReady b.segment_cmds

  abbrev pub plan : (b : Builder) → Ready b → List Action
  plan b r =
      plan_commands b
      ++ (note_payloads (notes_start b) b.note_cmds r.notes
          ++ segment_payloads (segments_start b) b.segment_cmds r.segments)
