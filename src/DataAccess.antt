-- ===== src/DataAccess.antt =====
-- Sources/macMiniDump/Private/DataAccess.hpp and .cpp, ProcessMemoryReaderDataPtr.cpp, and the two
-- readers of ReadProcessMemory.cpp that they call.
-- The memory of the task is a parameter: `vm_read_overwrite` takes an address and a size, and gives
-- the bytes, or `none` for a result other than KERN_SUCCESS. Allocation does not fail here.
use mac_mini_dump.Prelude.{ℕ, List, Option, none, some, ltb, if◌then◌else◌, drop}
use mac_mini_dump.Prelude.Words.{add64}

abbrev pub Memory : Type 0
Memory = ℕ → ℕ → Option (List ℕ)

-- The buffer after the call, or `none` for `false`.
unfoldable pub read_process_memory_into : Memory → ℕ → ℕ → Option (List ℕ)
read_process_memory_into vm_read_overwrite address size = vm_read_overwrite address size

-- `none` is nullptr.
unfoldable pub read_process_memory : Memory → ℕ → ℕ → Option (List ℕ)
read_process_memory vm_read_overwrite address size =
    elim (read_process_memory_into vm_read_overwrite address size) [
      | none ↦ none
      | some bytes ↦ some bytes
    ]

-- The classes that derive from IDataPtr, with their fields.
pub data DataPtr : Type 0 where
  plain : List ℕ → DataPtr
  copied : List ℕ → DataPtr
  process_memory : (start_address max_size : ℕ) → DataPtr

-- `Get (offset, size)`: the bytes that stand at the pointer, or `none` for nullptr.
unfoldable pub get_at : Memory → DataPtr → ℕ → ℕ → Option (List ℕ)
get_at memory (plain bytes) offset size = some (drop offset bytes)
get_at memory (copied bytes) offset size = some (drop offset bytes)
get_at memory (process_memory start_address max_size) offset size =
    if ltb max_size (add64 offset size)
    then none
    else read_process_memory memory (add64 start_address offset) size

-- `Get ()`
unfoldable pub get : Memory → DataPtr → Option (List ℕ)
get memory (plain bytes) = some bytes
get memory (copied bytes) = some bytes
get memory (process_memory start_address max_size) = none

pub record DataProvider : Type 0 where
  pub size : ℕ
  pub data_ptr : DataPtr
