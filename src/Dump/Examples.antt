-- ===== src/Dump/Examples.antt =====
-- AddThreadsToCore and AddNotesToCore: each theorem at an input.
use mac_mini_dump.Prelude.{◌≡◌, refl, true, List, [], ◌∷◌, none, some, replicate, ◌++◌}
use mac_mini_dump.Bytes.{le_bytes}
use mac_mini_dump.Outcome.{returns}
use mac_mini_dump.Regions.{MemoryRegionInfo, MemoryRegions, stack}
use mac_mini_dump.Builder.{Note, x86_64, new_builder}
use mac_mini_dump.Builder.Names.{HaveNames}
use mac_mini_dump.Builder.Layout.{DistinctNames}
use mac_mini_dump.StackWalk.{Walker, unknown}
use mac_mini_dump.Dump.{ThreadState, TaskThread, add_notes_to_core}
use mac_mini_dump.Dump.Notes.{owners, add_notes_to_core-owners}

add_notes_to_core-owners_example :
    (notes : List Note) × (add_notes_to_core (new_builder x86_64)
      ≡ (record (new_builder x86_64) { note_cmds = notes }, true))
    × HaveNames owners notes
    × DistinctNames owners
unfolding new_builder
add_notes_to_core-owners_example = add_notes_to_core-owners (new_builder x86_64) refl refl

-- No memory can be read; the stack has a region.
abbrev stack_region : MemoryRegionInfo
stack_region = record { vmaddr = 0x6000; vmsize = 0x2000; prot = 3; type = stack }

abbrev regions : MemoryRegions
regions = (0x6000, stack_region) ∷ []

abbrev walker : Walker
walker = record {
  arch = x86_64;
  memory = λ address size. none;
  xpaci = λ ip. ip;
  lookup_stack_frame_for_pc = λ pc. returns unknown;
}

abbrev state : ThreadState
state = record {
  ts =
      replicate 48 0
      ++ (le_bytes 8 0x7000
          ++ (le_bytes 8 0x7000 ++ (replicate 64 0 ++ (le_bytes 8 5000 ++ replicate 32 0))));
  es = replicate 16 0;
}

abbrev thread : TaskThread
thread = record { port = 11; tid = 700; state = some state }
