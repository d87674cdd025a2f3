-- ===== src/Builder/Commands.antt =====
-- MachOCoreDumpBuilder: sequences of its operations, and what stays true of the builder.
use mac_mini_dump.Prelude.{
  ℕ, ◌+◌, ◌*◌, ◌%◌, ◌<◌, ◌≡◌, refl, true, false, List, [], ◌∷◌, ◌++◌, Option, some, arith, length,
  length-append, Option-cases, inl, inr,
}
use mac_mini_dump.Prelude.Words.{u32_mod}
use mac_mini_dump.Bytes.{le_bytes}
use mac_mini_dump.DataAccess.{DataProvider}
use mac_mini_dump.Builder.{
  note_command_size, segment_command_size, note_sizes, thread_sizes, segment_sizes, ThreadCommand,
  Note, Segment, Builder, Arch, new_builder, finalize_load_commands, add_note_command,
  add_thread_command, add_segment_command, thread_command_size, new_note, new_segment,
}
use mac_mini_dump.Builder.Offsets.{set_provider, add_data_provider_for_note_command}
use mac_mini_dump.Builder.Plan.{ThreadsReady}

-- One call of a method. A thread is added only before the load commands are finalized.
pub data Step (b c : Builder) : Type 0 where
  adds_note :
      (owner : List ℕ) (provider : Option DataProvider)
      → c ≡ (add_note_command owner provider b).0
      → Step b c
  adds_thread :
      (gpr exc : List ℕ)
      → b.load_commands_finalized ≡ false
      → c ≡ (add_thread_command gpr exc b).0
      → Step b c
  adds_segment :
      (vmaddr prot : ℕ) (provider : Option DataProvider)
      → c ≡ (add_segment_command vmaddr prot provider b).0
      → Step b c
  provides :
      (owner : List ℕ) (provider : DataProvider)
      → c ≡ (add_data_provider_for_note_command owner provider b).0
      → Step b c
  finalizes : c ≡ finalize_load_commands b → Step b c

pub data Reach (b : Builder) : Builder → Type 0 where
  here : Reach b b
  next : {c d : Builder} → Reach b c → Step c d → Reach b d

abbrev pub NoteSizes : List Note → Type 0
NoteSizes [] = Unit {0}
NoteSizes ((nc, p) ∷ rest) = (nc.cmdsize ≡ note_command_size) × NoteSizes rest

abbrev pub SegmentSizes : List Segment → Type 0
SegmentSizes [] = Unit {0}
SegmentSizes ((sc, p) ∷ rest) =
    (sc.cmdsize ≡ segment_command_size) × (sc.vmsize ≡ sc.filesize) × SegmentSizes rest

abbrev pub commands_size : Builder → ℕ
commands_size b =
    note_command_size * length b.note_cmds
    + thread_sizes b.thread_cmds
    + segment_command_size * length b.segment_cmds

abbrev pub commands_count : Builder → ℕ
commands_count b = length b.note_cmds + length b.thread_cmds + length b.segment_cmds

-- The commands have the sizes that they are written with, and the header of a finalized builder
-- counts them, in 32 bits.
pub record Consistent (b : Builder) : Type 0 where
  pub notes : NoteSizes b.note_cmds
  pub threads : ThreadsReady b.thread_cmds
  pub segments : SegmentSizes b.segment_cmds
  pub sizes : b.load_commands_finalized ≡ true → b.header.sizeofcmds ≡ commands_size b % u32_mod
  pub counts : b.load_commands_finalized ≡ true → b.header.ncmds ≡ commands_count b % u32_mod

NoteSizes-append : (xs ys : List Note) → NoteSizes xs → NoteSizes ys → NoteSizes (xs ++ ys)
NoteSizes-append [] ys p q = q
NoteSizes-append (x ∷ xs) ys p q = (p.0, NoteSizes-append xs ys p.1 q)

ThreadsReady-append :
    (xs ys : List ThreadCommand) → ThreadsReady xs → ThreadsReady ys → ThreadsReady (xs ++ ys)
ThreadsReady-append [] ys p q = q
ThreadsReady-append (x ∷ xs) ys p q = (p.0, ThreadsReady-append xs ys p.1 q)

SegmentSizes-append :
    (xs ys : List Segment) → SegmentSizes xs → SegmentSizes ys → SegmentSizes (xs ++ ys)
SegmentSizes-append [] ys p q = q
SegmentSizes-append (x ∷ xs) ys p q = (p.0, p.1, SegmentSizes-append xs ys p.2 q)

note_sizes-length :
    (notes : List Note) → NoteSizes notes → note_sizes notes ≡ note_command_size * length notes
note_sizes-length [] p = omega arith
note_sizes-length (x ∷ notes) p = omega (arith, note_sizes-length notes p.1)

segment_sizes-length :
    (segments : List Segment)
    → SegmentSizes segments
    → segment_sizes segments ≡ segment_command_size * length segments
segment_sizes-length [] p = omega arith
segment_sizes-length (x ∷ segments) p = omega (arith, segment_sizes-length segments p.2)

-- Setting a provider changes no command's own size, and no count.
set_provider-sizes :
    (owner : List ℕ) (provider : DataProvider) (notes notes' : List Note)
    → set_provider owner provider notes ≡ some notes'
    → NoteSizes notes
    → NoteSizes notes' × (length notes' ≡ length notes)
unfolding set_provider
set_provider-sizes owner provider [] notes' e n = cc
set_provider-sizes owner provider ((nc, old) ∷ notes) notes' e n =
    elim (Option-cases (set_provider owner provider notes)) [
      | inl missing ↦ ground arith
      | inr (rest, found) ↦ ground (arith, set_provider-sizes owner provider notes rest found n.1)
    ]

pub provide-Consistent :
    (owner : List ℕ) (provider : DataProvider) (b : Builder)
    → Consistent b
    → Consistent (add_data_provider_for_note_command owner provider b).0
unfolding add_data_provider_for_note_command
provide-Consistent owner provider b c =
    elim (Option-cases (set_provider owner provider b.note_cmds)) [
      | inl missing ↦ ground arith
      | inr (rest, found) ↦
          ground (arith, set_provider-sizes owner provider b.note_cmds rest found c.notes)
    ]

pub add_note-Consistent :
    (owner : List ℕ) (provider : Option DataProvider) (b : Builder)
    → Consistent b
    → Consistent (add_note_command owner provider b).0
unfolding add_note_command
add_note-Consistent owner provider b c =
    ground (arith, NoteSizes-append b.note_cmds (new_note owner provider ∷ []) c.notes)

pub add_segment-Consistent :
    (vmaddr prot : ℕ) (provider : Option DataProvider) (b : Builder)
    → Consistent b
    → Consistent (add_segment_command vmaddr prot provider b).0
unfolding add_segment_command
add_segment-Consistent vmaddr prot provider b c =
    ground
      (arith, SegmentSizes-append b.segment_cmds (new_segment vmaddr prot provider ∷ []) c.segments)

pub add_thread-Consistent :
    (gpr exc : List ℕ) (b : Builder)
    → b.load_commands_finalized ≡ false
    → Consistent b
    → Consistent (add_thread_command gpr exc b).0
unfolding add_thread_command le_bytes
add_thread-Consistent gpr exc b f c = record {
  notes = c.notes;
  threads =
      ThreadsReady-append b.thread_cmds _ c.threads (omega (arith, length-append gpr exc), tt);
  segments = c.segments;
  sizes = λ e. ground arith;
  counts = λ e. ground arith;
}

pub finalize-Consistent : (b : Builder) → Consistent b → Consistent (finalize_load_commands b)
unfolding finalize_load_commands
finalize-Consistent b c = ground (
  arith,
  note_sizes-length b.note_cmds c.notes,
  segment_sizes-length b.segment_cmds c.segments,
  c.sizes,
  c.counts,
)

Step-Consistent : {b c : Builder} → Step b c → Consistent b → Consistent c
Step-Consistent {b} (adds_note owner provider e) i = rw e (add_note-Consistent owner provider b i)
Step-Consistent {b} (adds_thread gpr exc f e) i = rw e (add_thread-Consistent gpr exc b f i)
Step-Consistent {b} (adds_segment vmaddr prot provider e) i =
    rw e (add_segment-Consistent vmaddr prot provider b i)
Step-Consistent {b} (provides owner provider e) i = rw e (provide-Consistent owner provider b i)
Step-Consistent {b} (finalizes e) i = rw e (finalize-Consistent b i)

pub new-Consistent : (arch : Arch) → Consistent (new_builder arch)
unfolding new_builder
new-Consistent arch = record {
  notes = tt;
  threads = tt;
  segments = tt;
  sizes = λ e. cc;
  counts = λ e. cc;
}

pub Reach-Consistent : (arch : Arch) {b : Builder} → Reach (new_builder arch) b → Consistent b
Reach-Consistent arch here = new-Consistent arch
Reach-Consistent arch (next r s) = Step-Consistent s (Reach-Consistent arch r)

thread_sizes_last :
    (threads : List ThreadCommand) (tc : ThreadCommand)
    → thread_sizes (threads ++ tc ∷ []) ≡ thread_sizes threads + tc.cmdsize
thread_sizes_last [] tc = omega arith
thread_sizes_last (x ∷ threads) tc = omega (arith, thread_sizes_last threads tc)

-- AddThreadCommand has no such guard: on a finalized builder it succeeds, and when the sizes fit in
-- 32 bits the header no longer holds the size of the commands.
pub add_thread_late :
    (gpr exc : List ℕ) (b : Builder)
    → Consistent b
    → b.load_commands_finalized ≡ true
    → commands_size b + thread_command_size gpr exc < u32_mod
    → ((add_thread_command gpr exc b).1 ≡ true) × ¬ Consistent (add_thread_command gpr exc b).0
unfolding add_thread_command
add_thread_late gpr exc b c f w =
    (refl, λ d. omega (arith, d.sizes f, c.sizes f, thread_sizes_last b.thread_cmds))
