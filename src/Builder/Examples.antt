-- ===== src/Builder/Examples.antt =====
-- MachOCoreDumpBuilder: each theorem at an input.
use mac_mini_dump.Prelude.{ℕ, ◌+◌, ◌<◌, ◌≡◌, refl, true, inl, [], ◌∷◌, none, some, arith, replicate}
use mac_mini_dump.Bytes.{padded}
use mac_mini_dump.DataAccess.{Memory, copied, process_memory, DataProvider, get, get_at}
use mac_mini_dump.Builder.{
  x86_64, returns, cpu_header, NoteCommand, ThreadCommand, Note, Segment, Builder, new_builder,
  add_thread_command, finalize_load_commands,
}
use mac_mini_dump.Builder.Offsets.{
  owner_string, add_data_provider_for_note_command, get_offset_for_note_command_payload,
  get_offset_for_segment_command_payload,
}
use mac_mini_dump.Builder.Build.{build, goes_on}
use mac_mini_dump.Builder.Names.{provide-found}
use mac_mini_dump.Builder.Layout.{align_up, WellNamed, FileFits, note_payload_offset}
use mac_mini_dump.Builder.Segments.{segment_payload_offset}
use mac_mini_dump.Builder.Disk.{disk_stream, empty_disk}
use mac_mini_dump.Builder.Plan.{perform, cells, Reads, Ready, plan}
use mac_mini_dump.Builder.BuildOutput.{placed, build-plan}
use mac_mini_dump.Builder.Commands.{here, next, Step, Consistent, Reach-Consistent, add_thread_late}
use mac_mini_dump.Builder.Reader.{process_memory-Reads}

abbrev content : ℕ → ℕ
content address = address

-- The memory of a task, readable everywhere.
abbrev memory : Memory
memory address size = some (cells content address size)

abbrev note : Note
note = (
  record { cmdsize = 40; data_owner = padded 16 (97 ∷ 98 ∷ []); offset = 0; size = 3 },
  some (record { size = 3; data_ptr = copied (1 ∷ 2 ∷ 3 ∷ []) }),
)

abbrev thread : ThreadCommand
thread = record { cmdsize = 4; bytes = 7 ∷ 7 ∷ 7 ∷ 7 ∷ [] }

abbrev segment : Segment
segment = (
  record {
    cmdsize = 72;
    vmaddr = 0x5000;
    vmsize = 9;
    fileoff = 0;
    filesize = 9;
    maxprot = 3;
    initprot = 3;
  },
  some (record { size = 9; data_ptr = process_memory 0x5000 9 }),
)

-- Finalized, with a note, a thread and a segment: 40 + 4 + 72 bytes of load commands.
abbrev small : Builder
small = record {
  load_commands_finalized = true;
  header = record { cputype = 7; cpusubtype = 3; ncmds = 3; sizeofcmds = 116 };
  note_cmds = note ∷ [];
  thread_cmds = thread ∷ [];
  segment_cmds = segment ∷ [];
}

process_memory-Reads_example :
    Reads memory (process_memory 0x5000 9) 9 (λ o. content (0x5000 + o))
    × ((o n : ℕ)
        → o + n < 0x1_0000_0000_0000_0000
        → 9 < o + n
        → get_at memory (process_memory 0x5000 9) o n ≡ none)
process_memory-Reads_example =
    process_memory-Reads memory 0x5000 9 content (omega arith) (λ a n h k. refl)

names : WellNamed (note ∷ [])
names = ((97 ∷ 98 ∷ []) ∷ [], (((omega arith, (omega arith, tt)), omega arith), refl, tt), (tt, tt))

fits : FileFits small
unfolding align_up
fits = omega arith

ready : Ready memory small
unfolding get
ready = record {
  finalized = refl;
  sizeofcmds = refl;
  names = names;
  starts = (tt, tt);
  file_fits = fits;
  threads = (refl, tt);
  notes = ((1 ∷ 2 ∷ 3 ∷ [], refl, refl), refl, tt);
  segments =
      ((λ o. content (0x5000 + o), process_memory-Reads_example.0), omega arith, refl, refl, tt);
}

build-plan_example :
    build disk_stream memory small empty_disk
    ≡ goes_on (placed memory small, perform (plan memory small ready) empty_disk)
build-plan_example = build-plan memory small note [] refl ready

note_payload_offset_example :
    get_offset_for_note_command_payload (owner_string note.0) small ≡ returns (some 160)
unfolding align_up
note_payload_offset_example = note_payload_offset small [] [] note.0 note.1 refl refl names fits

segment_payload_offset_example :
    get_offset_for_segment_command_payload 0x5000 small ≡ returns (some 4096)
unfolding align_up
segment_payload_offset_example =
    segment_payload_offset small note [] [] [] segment.0 segment.1 refl refl names refl (tt, tt)
      fits

add_thread_late_example :
    ((add_thread_command (1 ∷ []) (2 ∷ []) (finalize_load_commands (new_builder x86_64))).1 ≡ true)
    × ¬ Consistent
        (add_thread_command (1 ∷ []) (2 ∷ []) (finalize_load_commands (new_builder x86_64))).0
unfolding new_builder finalize_load_commands cpu_header
add_thread_late_example =
    add_thread_late (1 ∷ []) (2 ∷ []) (finalize_load_commands (new_builder x86_64))
      (Reach-Consistent x86_64 (next here (Step.finalizes refl))) refl (omega arith)

abbrev provider : DataProvider
provider = record { size = 2; data_ptr = copied (5 ∷ 6 ∷ []) }

provide-found_example :
    add_data_provider_for_note_command (97 ∷ 98 ∷ []) provider small
    ≡ (record small { note_cmds = (record (note.0) { size = 2 }, some provider) ∷ [] }, true)
provide-found_example =
    provide-found (97 ∷ 98 ∷ []) [] provider small [] [] note.0 note.1 refl
      ((omega arith, (omega arith, tt)), omega arith) refl (inl (omega arith)) tt tt

-- A name of 16 chars, with the offset of its payload set.
abbrev long_note : NoteCommand
long_note = record { cmdsize = 40; data_owner = replicate 16 97; offset = 5; size = 0 }

abbrev long_named : Builder
long_named = record small { note_cmds = (long_note, none) ∷ [] }
