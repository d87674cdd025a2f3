-- ===== src/WriteDump/Entry.antt =====
-- The two overloads of MiniDumpWriteDump (MacMiniDump.cpp): over a stream, and over a file
-- descriptor.
use mac_mini_dump.Prelude.{ℕ, Option}
use mac_mini_dump.DataAccess.{Memory}
use mac_mini_dump.Stream.{OStream}
use mac_mini_dump.FileStream.{Posix, FileOStream, of_fd, file_stream, destroy}
use mac_mini_dump.Dump.{CrashContext}
use mac_mini_dump.WriteDump.{System, Kernel, Run, ends_abruptly, result, mini_dump_write_dump_impl}

-- The handler of `std::bad_alloc` is not reached, since allocation does not fail here.
unfoldable pub mini_dump_write_dump :
    {S : Type 0} → OStream S → Memory → System → Option CrashContext → S → Kernel → Run S
mini_dump_write_dump stream memory system crash_context s k =
    mini_dump_write_dump_impl stream memory system crash_context s k

-- The stream on the stack is destroyed when the function returns.
abbrev pub destroyed : {K : Type 0} → Posix K → Run (FileOStream K) → Run K
destroyed posix ends_abruptly = ends_abruptly
destroyed posix (result ok s k) = result ok (destroy posix s).kernel k

-- `extern "C"`, with the bool as it is returned.
unfoldable pub mini_dump_write_dump_fd :
    {K : Type 0} → Posix K → Memory → System → Option ℕ → Option CrashContext → K → Kernel → Run K
mini_dump_write_dump_fd posix memory system fd crash_context files k =
    destroyed posix (
      mini_dump_write_dump (file_stream posix) memory system crash_context (of_fd posix fd files) k)
