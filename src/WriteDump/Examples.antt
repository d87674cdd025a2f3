-- ===== src/WriteDump/Examples.antt =====
-- MiniDumpWriteDumpImpl: the theorem at an input.
use mac_mini_dump.Prelude.{true, not, [], ◌∷◌, none, some, ◌==◌}
use mac_mini_dump.DataAccess.{Memory}
use mac_mini_dump.Outcome.{returns}
use mac_mini_dump.Builder.{x86_64}
use mac_mini_dump.Builder.Disk.{disk_stream, empty_disk}
use mac_mini_dump.WriteDump.{System, Kernel, dump_body, mini_dump_write_dump_impl}
use mac_mini_dump.WriteDump.Resumed.{AtEnd, Restored, write_dump-Restored}

abbrev memory : Memory
memory address size = none

-- A dump of the own task, with two other threads, of which one ends.
abbrev system : System
system = record {
  arch = x86_64;
  pid_for_task = true;
  self_dump = true;
  task_suspend = true;
  this_thread = 5;
  threads = some (4 ∷ 5 ∷ 6 ∷ []);
  answers = λ p. true;
  answers_later = λ p. not (p == 6);
  task_threads = some [];
  regions = [];
  modules = returns [];
  region_protection = λ address size. none;
  xpaci = λ ip. ip;
  fuel = 1;
  address_bits = some 47;
}

abbrev kernel : Kernel
kernel = record { thread_counts = λ p. 0; task_count = 0 }

write_dump-Restored_example :
    AtEnd
      (dump_body disk_stream memory system none)
      (mini_dump_write_dump_impl disk_stream memory system none empty_disk kernel)
      (Restored system kernel)
write_dump-Restored_example = write_dump-Restored disk_stream memory system none empty_disk kernel
