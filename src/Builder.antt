-- ===== src/Builder.antt =====
-- Sources/macMiniDump/Private/MachOCoreDumpBuilder.hpp, .inl and .cpp: the load commands, their
-- finalization and the offsets of their payloads. `Build` is in Builder/Build. The sizes and the
-- fields of the structures are those of Misc/core.hsl.
-- `_DEBUG` and assertions are off. A call on a null provider, and `back ()` of an empty vector, are
-- a `fault`.
pub mod Offsets
pub mod Build
pub mod Names
pub mod Layout
pub mod Segments
pub mod Disk
pub mod Plan
pub mod Output
pub mod SegmentOutput
pub mod PayloadOutput
pub mod Placed
pub mod BuildOutput
pub mod Order
pub mod Commands
pub mod Reader
pub mod Simulation
pub mod OffsetBounds
pub mod PayloadSimulation
mod Examples
pub use mac_mini_dump.Outcome.{Outcome, fault, returns}
use mac_mini_dump.Prelude.{
  ℕ, zero, suc, ◌+◌, ◌-◌, ◌*◌, ◌/◌, ◌%◌, Bool, true, false, List, [], ◌∷◌, ◌++◌, Option, none, some,
  ltb, ◌==◌, if◌then◌else◌, length, get_elem?,
}
use mac_mini_dump.Prelude.Words.{u32_mod, u64_mod, add64}
use mac_mini_dump.Bytes.{le_bytes, until_nul, same_string, padded}
use mac_mini_dump.DataAccess.{DataProvider}

abbrev pub header_size : ℕ
header_size = 32

abbrev pub note_command_size : ℕ
note_command_size = 40

abbrev pub segment_command_size : ℕ
segment_command_size = 72

-- `mach_header_64`, with the fields that change.
pub record Header : Type 0 where
  pub cputype : ℕ
  pub cpusubtype : ℕ
  pub ncmds : ℕ
  pub sizeofcmds : ℕ

pub record NoteCommand : Type 0 where
  pub cmdsize : ℕ
  pub data_owner : List ℕ
  pub offset : ℕ
  pub size : ℕ

-- A `thread_command` with the bytes of its states behind it.
pub record ThreadCommand : Type 0 where
  pub cmdsize : ℕ
  pub bytes : List ℕ

pub record SegmentCommand : Type 0 where
  pub cmdsize : ℕ
  pub vmaddr : ℕ
  pub vmsize : ℕ
  pub fileoff : ℕ
  pub filesize : ℕ
  pub maxprot : ℕ
  pub initprot : ℕ

abbrev pub Note : Type 0
Note = NoteCommand × Option DataProvider

abbrev pub Segment : Type 0
Segment = SegmentCommand × Option DataProvider

pub record Builder : Type 0 where
  pub load_commands_finalized : Bool
  pub header : Header
  pub note_cmds : List Note
  pub thread_cmds : List ThreadCommand
  pub segment_cmds : List Segment

-- The two sides of `#ifdef __x86_64__`.
pub data Arch : Type 0 where
  x86_64 arm64 : Arch

unfoldable pub cpu_header : Arch → Header
cpu_header x86_64 = record { cputype = 0x100_0007; cpusubtype = 3; ncmds = 0; sizeofcmds = 0 }
cpu_header arm64 = record { cputype = 0x100_000c; cpusubtype = 0; ncmds = 0; sizeofcmds = 0 }

unfoldable pub new_builder : Arch → Builder
new_builder arch = record {
  load_commands_finalized = false;
  header = cpu_header arch;
  note_cmds = [];
  thread_cmds = [];
  segment_cmds = [];
}

abbrev pub note_sizes : List Note → ℕ
note_sizes [] = 0
note_sizes (nc ∷ rest) = nc.0.cmdsize + note_sizes rest

abbrev pub thread_sizes : List ThreadCommand → ℕ
thread_sizes [] = 0
thread_sizes (tc ∷ rest) = tc.cmdsize + thread_sizes rest

abbrev pub segment_sizes : List Segment → ℕ
segment_sizes [] = 0
segment_sizes (sc ∷ rest) = sc.0.cmdsize + segment_sizes rest

-- The header's fields are uint32_t.
unfoldable pub finalize_load_commands : Builder → Builder
finalize_load_commands b = if b.load_commands_finalized then b else record b {
  load_commands_finalized = true;
  header = record (b.header) {
    ncmds = (length b.note_cmds + length b.thread_cmds + length b.segment_cmds) % u32_mod;
    sizeofcmds =
        (note_sizes b.note_cmds + thread_sizes b.thread_cmds + segment_sizes b.segment_cmds)
        % u32_mod;
  };
}

abbrev pub provider_size : Option DataProvider → ℕ
provider_size none = 0
provider_size (some p) = p.size

abbrev pub new_note : List ℕ → Option DataProvider → Note
new_note owner provider = (
  record {
    cmdsize = note_command_size;
    data_owner = padded 16 owner;
    offset = 0;
    size = provider_size provider;
  },
  provider,
)

-- `owner` is the C string without its NUL. A method returns the builder and its result.
unfoldable pub add_note_command : List ℕ → Option DataProvider → Builder → Builder × Bool
add_note_command owner provider b =
    if b.load_commands_finalized
    then (b, false)
    else if ltb 16 (length owner)
    then (b, false)
    else (record b { note_cmds = b.note_cmds ++ new_note owner provider ∷ [] }, true)

-- AddThreadCommand (gpr, exc), given the bytes of the two states. `sizeof rawData` has 8 bytes of
-- padding for the empty end of the pack, which the `- 8` takes off; LC_THREAD is 4.
abbrev pub thread_command_size : List ℕ → List ℕ → ℕ
thread_command_size gpr exc = 8 + length gpr + length exc + 8 - 8

unfoldable pub add_thread_command : List ℕ → List ℕ → Builder → Builder × Bool
add_thread_command gpr exc b = (
  record b {
    thread_cmds =
        b.thread_cmds
        ++ (record {
          cmdsize = thread_command_size gpr exc;
          bytes = le_bytes 4 4 ++ (le_bytes 4 (thread_command_size gpr exc) ++ (gpr ++ exc));
        })
          ∷ [];
  },
  true,
)

abbrev pub new_segment : ℕ → ℕ → Option DataProvider → Segment
new_segment vmaddr prot provider = (
  record {
    cmdsize = segment_command_size;
    vmaddr = vmaddr;
    vmsize = provider_size provider;
    fileoff = 0;
    filesize = provider_size provider;
    maxprot = prot;
    initprot = prot;
  },
  provider,
)

unfoldable pub add_segment_command : ℕ → ℕ → Option DataProvider → Builder → Builder × Bool
add_segment_command vmaddr prot provider b =
    if b.load_commands_finalized
    then (b, false)
    else (record b { segment_cmds = b.segment_cmds ++ new_segment vmaddr prot provider ∷ [] }, true)

unfoldable pub get_number_of_segment_commands : Builder → ℕ
get_number_of_segment_commands b = length b.segment_cmds

unfoldable pub get_segment_command : ℕ → Builder → Outcome SegmentCommand
get_segment_command index b = elim (get_elem? b.segment_cmds index) [
  | none ↦ fault
  | some sc ↦ returns sc.0
]
