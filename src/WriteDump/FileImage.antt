-- ===== src/WriteDump/FileImage.antt =====
-- MiniDumpWriteDumpImpl (MacMiniDump.cpp): the file that a dump is to be, described from the
-- threads, the four payloads and the memory of the task alone.
use mac_mini_dump.Prelude.{ℕ, ◌+◌, ◌≡◌, refl, ◌∙◌, ap, List, [], ◌∷◌, ◌++◌, none, some, length}
use native.Mathlib.Nat.{add-zero}
use mac_mini_dump.DataAccess.{Memory}
use mac_mini_dump.Builder.{Segment, Builder}
use mac_mini_dump.Builder.Layout.{notes_start, segments_start}
use mac_mini_dump.Builder.Plan.{Action, puts, seeks, cells, plan_commands, plan, segment_payloads}
use mac_mini_dump.Builder.Placed.{segment_payloads-place}
use mac_mini_dump.Builder.Reader.{cells_shift}
use mac_mini_dump.Builder.Segments.{DistinctStarts}
use mac_mini_dump.Dump.Ranges.{Ordered}
use mac_mini_dump.Dump.CoreBuilder.{CoreBuilder, FromMemory, Readable, Readable-SegmentsReady}
use mac_mini_dump.WriteDump.Provided.{all_notes-NotesReady}
use mac_mini_dump.WriteDump.Prepared.{provided, prepared, DumpFits, prepared-Ready}

-- Payloads one behind the other, from `a` on.
abbrev pub payload_actions : ℕ → List (List ℕ) → List Action
payload_actions a [] = []
payload_actions a (bytes ∷ rest) = seeks a ∷ puts bytes ∷ payload_actions (a + length bytes) rest

-- The memory of each segment, one behind the other.
abbrev pub memory_actions : (ℕ → ℕ) → ℕ → List Segment → List Action
memory_actions content a [] = []
memory_actions content a ((sc, p) ∷ rest) =
    seeks a
    ∷ puts (cells content sc.vmaddr sc.filesize)
    ∷ memory_actions content (a + sc.filesize) rest

-- The header and the load commands, then the payloads of the notes, then the memory.
abbrev pub dump_actions : Builder → (bits metadata images spec : List ℕ) → (ℕ → ℕ) → List Action
dump_actions b bits metadata images spec content =
    let whole = prepared b bits metadata images spec in
    plan_commands whole
    ++ (payload_actions (notes_start whole) (bits ∷ images ∷ spec ∷ metadata ∷ [])
        ++ memory_actions content (segments_start whole) b.segment_cmds)

segment_payloads-memory :
    (memory : Memory) (content : ℕ → ℕ) (lo a : ℕ) (segments : List Segment)
    (f : FromMemory segments) (o : Ordered lo segments) (r : Readable memory content segments)
    → segment_payloads memory a segments (Readable-SegmentsReady memory content lo segments f o r)
      ≡ memory_actions content a segments
unfolding Readable-SegmentsReady
segment_payloads-memory memory content lo a [] f o r = refl
segment_payloads-memory memory content lo a ((sc, none) ∷ rest) f o r = absurd f
segment_payloads-memory memory content lo a ((sc, some p) ∷ rest) f o r = rw (
  segment_payloads-memory memory content (sc.vmaddr + sc.filesize) (a + sc.filesize) rest f.2 o.2
      r.2,
  ← cells_shift content sc.vmaddr 0 sc.filesize,
  add-zero sc.vmaddr,
)

pub plan-actions :
    (memory : Memory) (content : ℕ → ℕ) (lo : ℕ) (b : Builder) (core : CoreBuilder b)
    (bits metadata images spec : List ℕ) (fits : DumpFits b bits metadata images spec)
    (s : DistinctStarts b.segment_cmds) (o : Ordered lo b.segment_cmds)
    (r : Readable memory content b.segment_cmds)
    → plan memory (prepared b bits metadata images spec) (
        prepared-Ready b core bits metadata images spec fits memory s
          (Readable-SegmentsReady memory content lo b.segment_cmds core.from_memory o r))
      ≡ dump_actions b bits metadata images spec content
unfolding prepared-Ready all_notes-NotesReady
plan-actions memory content lo b core bits metadata images spec fits s o r =
    let whole = prepared b bits metadata images spec in
    ap
      (λ l.
        plan_commands whole
        ++ (payload_actions (notes_start whole) (bits ∷ images ∷ spec ∷ metadata ∷ []) ++ l))
      (segment_payloads-place memory (segments_start (provided b bits metadata images spec))
          (segments_start whole) b.segment_cmds
          (Readable-SegmentsReady memory content lo b.segment_cmds core.from_memory o r)
        ∙ segment_payloads-memory memory content lo (segments_start whole) b.segment_cmds
            core.from_memory o r)
