-- ===== src/Lib.antt =====
-- macMiniDump: a library that writes Mach-O core dumps of a running task that are a fraction of
-- its memory. This development models the parts of Sources/macMiniDump and proves what makes them
-- correct.
--
-- The program. MiniDumpWriteDump (Sources/macMiniDump/Private/MacMiniDump.cpp) suspends the task,
-- walks the stack of each thread (StackWalk.cpp, over the regions of MemoryRegionList.cpp),
-- collects the memory to keep in a DisjointIntervalSet, and hands threads, notes and segments to a
-- MachOCoreDumpBuilder, which computes the offsets of all payloads and writes the file to an
-- IRandomAccessBinaryOStream. Segments are read from the task through the data sources of
-- DataAccess.hpp and ProcessMemoryReaderDataPtr.cpp.
--
-- The files. Intervals: DisjointIntervalSet (MacMiniDump.cpp). Regions: MemoryRegionList.
-- DataAccess: the data sources and the two readers of ReadProcessMemory.cpp; ProcessStrings: its
-- reading of C strings. Stream: the interface of the output; FileStream: FileOStream.cpp, over the
-- calls of POSIX. PortRefs: MachPortSendRightRef.cpp. ThreadStates: the register sets, pointers
-- and ThreadInfo of MachOCoreInternal.cpp. ZoneAllocator: ZoneAllocator.cpp and .hpp, over the
-- calls of malloc. Builder: the fields and the adding methods of MachOCoreDumpBuilder;
-- Builder/Offsets: its search by name and its offsets; Builder/Build: Build. Modules: ModuleList.
-- StackWalk: StackWalk.cpp, over an interface for the lookup that Unwind (StackFrame.cpp) fills.
-- Suspension, Dump, Payloads and WriteDump: the functions of MacMiniDump.cpp, in this order
-- SuspendAllThreadsExceptCurrentOne and ResumeThreads; AddThreadsToCore and AddNotesToCore; the
-- payloads of the notes; AddPayloadsAndWrite and MiniDumpWriteDumpImpl; WriteDump/Entry: the two
-- overloads of MiniDumpWriteDump. SortedMap is std::map as these components use it, Bytes the
-- encoding of integers and C strings, Outcome undefined behaviour and the fields of structures,
-- Prelude the shared names. The other files below a component hold its theorems, and its Examples
-- each theorem at an input.
--
-- State. A method that changes an object takes it and returns it with the method's result. A null
-- pointer, a false result with an out-parameter, and an empty vector are options; undefined
-- behaviour (a division by zero, a call on a null provider, back () of an empty vector) is a value
-- of its own. A uint64_t is a native number, its additions reduced modulo 2 ^ 64. The calls of the
-- system are parameters: vm_read_overwrite is a function from an address and a size to bytes or
-- failure, and vm_region_recurse_64 one from an address and a depth to a region or failure; a
-- record holds what the other calls answer. Payloads/Reader reads the payload of the images, and
-- ThreadStates/Command a thread command, as a debugger does. The calls on a file descriptor are a
-- record of functions on a state of the kernel. The output of Build is specified on a disk that
-- records each byte with its place (Builder/Disk); Builder/Simulation and
-- Builder/PayloadSimulation carry it over to any stream that behaves alike, such as FileOStream on
-- a regular file.
--
-- Fuel. The loop of WalkStack and the constructor loop of MemoryRegionList have no bound in the
-- code. They run on fuel here, and the theorems on their results say how much is enough: one unit
-- more than the frames of the chain, and one more than the regions of the task. The binary search
-- of StackFrame.cpp takes as many units as there are entries, which are enough, and std::to_string
-- 20, the digits of 2 ^ 64. All other loops are by recursion on the data.
--
-- Not modelled: the debug-only check of overwritten ranges, allocation failure outside the
-- allocator itself, logging, and the examples and tests.
pub mod Prelude
pub mod SortedMap
pub mod Intervals
pub mod Regions
pub mod Bytes
pub mod Outcome
pub mod Modules
pub mod ProcessStrings
pub mod DataAccess
pub mod Stream
pub mod Builder
pub mod FileStream
pub mod PortRefs
pub mod ZoneAllocator
pub mod StackWalk
pub mod Unwind
pub mod Suspension
pub mod ThreadStates
pub mod Dump
pub mod Payloads
pub mod WriteDump
