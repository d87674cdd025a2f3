-- ===== src/ThreadStates.antt =====
-- Sources/macMiniDump/Private/MachOCoreInternal.cpp and .hpp: the states of a thread as they stand
-- in a thread command, the registers that are read from them, and ThreadInfo. The flavors, sizes
-- and offsets are those of the system's headers for the two architectures.
pub mod Info
pub mod Command
mod Examples
use mac_mini_dump.Prelude.{ℕ, ◌/◌, List, ◌++◌, take, drop}
use mac_mini_dump.Bytes.{le_bytes, from_le}
use mac_mini_dump.Builder.{Arch, x86_64, arm64}
use mac_mini_dump.StackWalk.{Registers}

-- enum class RegSetKind
unfoldable pub gpr_kind : Arch → ℕ
gpr_kind x86_64 = 4
gpr_kind arm64 = 6

unfoldable pub exc_kind : Arch → ℕ
exc_kind x86_64 = 6
exc_kind arm64 = 7

-- `sizeof` of the thread states and of the exception states.
unfoldable pub gpr_size : Arch → ℕ
gpr_size x86_64 = 168
gpr_size arm64 = 272

unfoldable pub exc_size : Arch → ℕ
exc_size x86_64 = 16
exc_size arm64 = 16

-- GPR and EXC: `state` is what is copied to `gpr` or `exc`.
pub record RegisterSet : Type 0 where
  pub kind : ℕ
  pub n_word_count : ℕ
  pub state : List ℕ

unfoldable pub make_gpr : Arch → List ℕ → RegisterSet
make_gpr arch ts = record { kind = gpr_kind arch; n_word_count = gpr_size arch / 4; state = ts }

unfoldable pub make_exc : Arch → List ℕ → RegisterSet
make_exc arch es = record { kind = exc_kind arch; n_word_count = exc_size arch / 4; state = es }

-- The structure in memory.
unfoldable pub set_bytes : RegisterSet → List ℕ
set_bytes s = le_bytes 4 s.kind ++ (le_bytes 4 s.n_word_count ++ s.state)

-- Pointer
pub record Pointer : Type 0 where
  pub bytes : List ℕ
  pub width_in_bytes : ℕ

unfoldable pub pointer_of_bytes : ℕ → List ℕ → Pointer
pointer_of_bytes width_in_bytes bytes = record {
  bytes = take width_in_bytes bytes;
  width_in_bytes = width_in_bytes;
}

unfoldable pub pointer_of_uint : ℕ → Pointer
pointer_of_uint value = record { bytes = le_bytes 8 value; width_in_bytes = 8 }

-- AsUIntPtr, for the width of 8 that GPRPointers makes.
unfoldable pub as_uint_ptr : Pointer → ℕ
as_uint_ptr p = from_le (take p.width_in_bytes p.bytes)

-- A register of 8 bytes of the thread state.
abbrev pub register : ℕ → RegisterSet → ℕ
register offset gpr = from_le (take 8 (drop offset gpr.state))

-- GPRPointers: rbp and fp, rip and pc, rsp and sp.
unfoldable pub base_pointer : Arch → RegisterSet → Pointer
base_pointer x86_64 gpr = pointer_of_uint (register 48 gpr)
base_pointer arm64 gpr = pointer_of_uint (register 232 gpr)

unfoldable pub instruction_pointer : Arch → RegisterSet → Pointer
instruction_pointer x86_64 gpr = pointer_of_uint (register 128 gpr)
instruction_pointer arm64 gpr = pointer_of_uint (register 256 gpr)

unfoldable pub stack_pointer : Arch → RegisterSet → Pointer
stack_pointer x86_64 gpr = pointer_of_uint (register 56 gpr)
stack_pointer arm64 gpr = pointer_of_uint (register 248 gpr)

unfoldable pub address_width_in_bytes : Arch → ℕ
address_width_in_bytes x86_64 = 8
address_width_in_bytes arm64 = 8

-- What is read of the states: `lr` and the syndrome on arm64 only.
unfoldable pub link_register : Arch → RegisterSet → ℕ
link_register x86_64 gpr = 0
link_register arm64 gpr = register 240 gpr

unfoldable pub syndrome : Arch → RegisterSet → ℕ
syndrome x86_64 exc = 0
syndrome arm64 exc = from_le (take 4 (drop 8 exc.state))

unfoldable pub registers_of : Arch → RegisterSet → RegisterSet → Registers
registers_of arch gpr exc = record {
  base_pointer = as_uint_ptr (base_pointer arch gpr);
  instruction_pointer = as_uint_ptr (instruction_pointer arch gpr);
  stack_pointer = as_uint_ptr (stack_pointer arch gpr);
  lr = link_register arch gpr;
  esr = syndrome arch exc;
}
