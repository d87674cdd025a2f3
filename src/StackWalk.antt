-- ===== src/StackWalk.antt =====
-- Sources/macMiniDump/Private/StackWalk.cpp, and the registers that it reads (GPRPointers of
-- MachOCoreInternal.cpp). Parameters: the memory of the task; `xpaci`, which clears the
-- authentication bits of a pointer (the identity on x86-64, where there are none). The lookup of
-- the unwind information is an interface, which Unwind fills.
pub mod Chain
mod Examples
use Prim.Native.Nat.{bit_and}
use mac_mini_dump.Prelude.{
  ℕ, zero, suc, ◌+◌, ◌-◌, ◌*◌, ◌/◌, ◌%◌, ◌^◌, Bool, true, false, ◌&&◌, ◌||◌, not, List, [], ◌∷◌,
  Option, none, some, ◌==◌, if◌then◌else◌,
}
use mac_mini_dump.Prelude.Words.{u64_mod, add64, sub64}
use mac_mini_dump.Bytes.{from_le}
use mac_mini_dump.Outcome.{Outcome, fault, returns}
use mac_mini_dump.DataAccess.{Memory, read_process_memory_into}
use mac_mini_dump.Regions.{MemoryRegions, MemoryRegionInfo, get_region_info_for_address}
use mac_mini_dump.Builder.{Arch, x86_64, arm64}

-- enum class StackFrameLookupResult (StackFrame.hpp)
pub data StackFrameLookupResult : Type 0 where
  has_frame frameless unknown : StackFrameLookupResult

-- The registers that the walk reads: the frame pointer (rbp or fp), the program counter (rip or
-- pc), the stack pointer, the link register and the exception syndrome of arm64.
pub record Registers : Type 0 where
  pub base_pointer : ℕ
  pub instruction_pointer : ℕ
  pub stack_pointer : ℕ
  pub lr : ℕ
  pub esr : ℕ

-- `(esr >> 26) & 0x3F` is an instruction abort or a data abort.
unfoldable pub exception_might_be_control_transfer_related : ℕ → Bool
exception_might_be_control_transfer_related esr =
    let exception_class = esr / 2 ^ 26 % 64 in exception_class == 0x20 || exception_class == 0x24

-- The masks and the opcodes of BL, BLR and BLRA*.
unfoldable pub is_bl_kind : ℕ → Bool
is_bl_kind instruction =
    bit_and (instruction / 2 ^ 26) 0b111111 == 0b100101
    || (bit_and (instruction / 2 ^ 10) 0b1111111111111111111111 == 0b1101011000111111000000
        || bit_and (instruction / 2 ^ 11) 0b111111101111111111111 == 0b110101100011111100001)

module _ (memory : Memory) where
  -- The 8 bytes at the pointer, and 0 where they cannot be read.
  unfoldable pub deref_ptr : ℕ → ℕ
  deref_ptr ptr = elim (read_process_memory_into memory ptr 8) [
    | none ↦ 0
    | some bytes ↦ from_le bytes
  ]

  -- The instruction word 4 bytes before the pointer.
  abbrev previous_instruction : ℕ → Option ℕ
  previous_instruction instruction_pointer =
      elim (read_process_memory_into memory (sub64 instruction_pointer 4) 4) [
        | none ↦ none
        | some bytes ↦ some (from_le bytes)
      ]

  unfoldable pub is_previous_instruction_bl_kind : ℕ → Bool
  is_previous_instruction_bl_kind instruction_pointer =
      elim (previous_instruction instruction_pointer) [
        | none ↦ false
        | some instruction ↦ is_bl_kind instruction
      ]

  unfoldable pub is_previous_instruction_svc : ℕ → Bool
  is_previous_instruction_svc instruction_pointer =
      elim (previous_instruction instruction_pointer) [
        | none ↦ false
        | some instruction ↦ bit_and (instruction / 2 ^ 21) 0x7FF == 0b11010100000
      ]

-- What the walk uses: the architecture, the memory, `xpaci`, and the interface of the lookup of the
-- unwind information.
pub record Walker : Type 0 where
  pub arch : Arch
  pub memory : Memory
  pub xpaci : ℕ → ℕ
  pub lookup_stack_frame_for_pc : ℕ → Outcome StackFrameLookupResult

-- `regionInfo.prot & MemProtExecute`, with MemProtExecute = 0b100.
abbrev pub is_executable : MemoryRegionInfo → Bool
is_executable ri = ri.prot / 4 % 2 == 1

module _ (w : Walker) where
  -- The test of the exception: the program counter is not in executable memory, and `lr` follows a
  -- call.
  abbrev pub is_partial_frame : MemoryRegions → Registers → Bool
  is_partial_frame regions r =
      if exception_might_be_control_transfer_related r.esr
      then elim (get_region_info_for_address regions r.instruction_pointer) [
        | none ↦ is_previous_instruction_bl_kind w.memory r.lr
        | some ri ↦
            if is_executable ri then false else is_previous_instruction_bl_kind w.memory r.lr
      ]
      else false

  abbrev pub is_frameless : ℕ → StackFrameLookupResult → Bool
  is_frameless instruction_pointer frameless = true
  is_frameless instruction_pointer has_frame = false
  is_frameless instruction_pointer unknown =
      is_previous_instruction_svc w.memory instruction_pointer

  abbrev pub lookup_frameless : ℕ → Outcome Bool
  lookup_frameless instruction_pointer = elim (w.lookup_stack_frame_for_pc instruction_pointer) [
    | fault ↦ fault
    | returns found ↦ returns (is_frameless instruction_pointer found)
  ]

  -- `topPCNoStackFrame`
  unfoldable pub top_pc_no_stack_frame : MemoryRegions → Registers → Outcome Bool
  top_pc_no_stack_frame regions r = elim w.arch [
    | x86_64 ↦ returns false
    | arm64 ↦
        if is_partial_frame regions r then returns true else lookup_frameless r.instruction_pointer
  ]

  abbrev push : ℕ → Option (List ℕ) → Option (List ℕ)
  push ip none = none
  push ip (some ips) = some (ip ∷ ips)

  -- The `while (true)` loop: the addresses that it adds. `top` is `topPCNoStackFrame`. `none` is
  -- that the fuel ran out.
  unfoldable pub walk_loop : ℕ → Bool → ℕ → ℕ → ℕ → Option (List ℕ)
  walk_loop zero top lr frame_index prev_base_pointer = none
  walk_loop (suc fuel) top lr frame_index prev_base_pointer =
      let in_top = top && frame_index == 0 in
      let next_instruction_pointer =
        if in_top then lr else deref_ptr w.memory (add64 prev_base_pointer 8) in
      let next_base_pointer =
        if in_top then prev_base_pointer else deref_ptr w.memory prev_base_pointer in
      let rest = walk_loop fuel top lr (frame_index + 1) next_base_pointer in
      if next_base_pointer == 0 then some [] else push (w.xpaci next_instruction_pointer) rest

  -- From the lookup of the top function on; `none` also when it is a fault.
  unfoldable pub walk_from : ℕ → Registers → Outcome Bool → Option (List ℕ)
  walk_from fuel r fault = none
  walk_from fuel r (returns top) =
      push (w.xpaci r.instruction_pointer) (walk_loop fuel top r.lr 0 r.base_pointer)

  unfoldable pub walk_stack : ℕ → MemoryRegions → Registers → Option (List ℕ)
  walk_stack fuel regions r =
      let walked = walk_from fuel r (top_pc_no_stack_frame regions r) in
      if r.base_pointer == 0 then some [] else walked
