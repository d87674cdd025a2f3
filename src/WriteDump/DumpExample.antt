-- ===== src/WriteDump/DumpExample.antt =====
-- MiniDumpWriteDumpImpl (MacMiniDump.cpp): a dump of a task with one thread and one module.
use mac_mini_dump.Prelude.{
  ℕ, ◌+◌, ◌<◌, ◌≡◌, refl, sym, ◌∙◌, ap, inl, true, false, List, [], ◌∷◌, none, some, arith,
  replicate, ◌++◌,
}
use mac_mini_dump.Bytes.{le_bytes, from_le, padded}
use mac_mini_dump.Prelude.Words.{u64_mod}
use mac_mini_dump.Outcome.{returns, bytes_at}
use mac_mini_dump.DataAccess.{Memory, process_memory, read_process_memory_into}
use mac_mini_dump.Regions.{
  MemoryRegionInfo, MemoryRegions, stack, is_in_region, get_region_info_for_address,
}
use mac_mini_dump.Builder.{
  x86_64, new_builder, new_segment, add_segment_command, add_thread_command,
}
use mac_mini_dump.Builder.Plan.{cells, perform}
use mac_mini_dump.Builder.Disk.{disk_stream, empty_disk}
use mac_mini_dump.Modules.{
  ModuleInfo, ModuleInfos, mark_as_executing, get_module_info_for_address_impl, is_code_in_module,
  get_text_segment_of_module,
}
use mac_mini_dump.Payloads.{
  main_bin_spec_bytes, create_all_image_infos_payload, create_main_bin_spec_payload,
  create_process_metadata_payload, is_main_executable, get_preferred_text_address,
  text_address_from, digits, other_modules, store, store_image_entries, store_segment_lists,
  store_paths,
}
use mac_mini_dump.StackWalk.{walk_stack, walk_from, walk_loop, deref_ptr, top_pc_no_stack_frame}
use mac_mini_dump.Unwind.{walker_of}
use mac_mini_dump.ThreadStates.{
  registers_of, as_uint_ptr, base_pointer, instruction_pointer, stack_pointer, link_register,
  syndrome, pointer_of_uint, make_gpr, make_exc, set_bytes, gpr_kind, gpr_size, exc_kind, exc_size,
}
use mac_mini_dump.Dump.{
  ThreadState, registers, TaskThread, Collected, add_threads_to_core, add_threads, add_thread,
  state_of, add_ranges, add_call_stack, add_segment_command_from_process_memory,
  get_memory_protection,
}
use mac_mini_dump.Intervals.{for_each, insert_and_merge_if_needed, merge_loop}
use mac_mini_dump.Dump.Ranges.{SafeIps}
use mac_mini_dump.Builder.Layout.{notes_start, align_up}
use mac_mini_dump.WriteDump.Prepared.{half_prepared, DumpFits}
use mac_mini_dump.WriteDump.Resumed.{Restored}
use mac_mini_dump.WriteDump.FileImage.{dump_actions}
use mac_mini_dump.WriteDump.{System, Kernel, result, mini_dump_write_dump_impl, addrable_bits_bytes}
use mac_mini_dump.WriteDump.Gathered.{Gathered}
use mac_mini_dump.WriteDump.Dumped.{write_dump-image}
use mac_mini_dump.WriteDump.Entry.{mini_dump_write_dump_fd}
use mac_mini_dump.WriteDump.ToFile.{SmallFile, log, fd_dump-file}
use mac_mini_dump.FileStream.File.{File, replay}
use mac_mini_dump.FileStream.Ram.{ram, ram-RegularFile}

-- All memory can be read, and is 0.
abbrev zeros : ℕ → ℕ
zeros a = 0

abbrev memory : Memory
memory address size = some (cells zeros address size)

abbrev stack_region : MemoryRegionInfo
stack_region = record { vmaddr = 0x6000; vmsize = 0x1010; prot = 3; type = stack }

abbrev regions : MemoryRegions
regions = (0x6000, stack_region) ∷ []

abbrev state : ThreadState
state = record {
  ts =
      replicate 48 0
      ++ (le_bytes 8 0x7000
          ++ (le_bytes 8 0x7000 ++ (replicate 64 0 ++ (le_bytes 8 5000 ++ replicate 32 0))));
  es = replicate 16 0;
}

abbrev threads : List TaskThread
threads = record { port = 11; tid = 700; state = some state } ∷ []

-- The main executable, with no load commands.
abbrev main_module : ModuleInfo
main_module = record {
  load_address = 0x9000;
  uuid = replicate 16 7;
  file_path = 47 ∷ [];
  segments = [];
  executing = false;
  header_and_load_command_bytes = replicate 12 0 ++ (le_bytes 4 2 ++ replicate 16 0);
}

abbrev modules : ModuleInfos
modules = (0x9000, main_module) ∷ []

abbrev system : System
system = record {
  arch = x86_64;
  pid_for_task = true;
  self_dump = false;
  task_suspend = true;
  this_thread = 5;
  threads = none;
  answers = λ p. true;
  answers_later = λ p. true;
  task_threads = some threads;
  regions = regions;
  modules = returns modules;
  region_protection = λ address size. some 5;
  xpaci = λ ip. ip;
  fuel = 1;
  address_bits = some 47;
}

abbrev kernel : Kernel
kernel = record { thread_counts = λ p. 0; task_count = 0 }

-- One thread, the surroundings of its program counter, and its stack.
abbrev collected : Collected
collected = record {
  builder = record (new_builder x86_64) {
    thread_cmds =
        record {
          cmdsize = 208;
          bytes =
              le_bytes 4 4
              ++ (le_bytes 4 208
                  ++ (set_bytes (make_gpr x86_64 state.ts)
                      ++ set_bytes (make_exc x86_64 state.es)));
        }
        ∷ [];
    segment_cmds =
        new_segment 4744 5 (some (record { size = 513; data_ptr = process_memory 4744 513 }))
        ∷ new_segment 0x7000 5 (some (record { size = 16; data_ptr = process_memory 0x7000 16 }))
        ∷ [];
  };
  modules = modules;
  thread_ids = 700 ∷ [];
  memory_ranges_to_add = (4744, 5257) ∷ (0x7000, 0x7010) ∷ [];
}

abbrev spec : List ℕ
spec = main_bin_spec_bytes 0x9000 (replicate 16 7)

-- The header of the images' payload; there is no other module.
abbrev header_rest : List ℕ
header_rest =
    0 ∷ 0 ∷ 0 ∷ 0 ∷ 0 ∷ 0 ∷ 0 ∷ 72 ∷ 2 ∷ 0 ∷ 0 ∷ 0 ∷ 0 ∷ 0 ∷ 0 ∷ 48 ∷ 0 ∷ 0 ∷ 0 ∷ 0 ∷ 0 ∷ 0 ∷ 0 ∷ []

collected-at :
    add_threads_to_core system.region_protection
      (walker_of x86_64 memory system.xpaci modules)
      regions
      none
      5
      1
      (some threads)
      (new_builder x86_64)
      modules
    ≡ some (collected, true)
unfolding add_threads_to_core add_threads add_thread state_of walk_stack walk_from
    top_pc_no_stack_frame walk_loop deref_ptr read_process_memory_into from_le add_ranges
    get_region_info_for_address for_each add_call_stack insert_and_merge_if_needed mark_as_executing
    get_module_info_for_address_impl is_code_in_module get_text_segment_of_module new_builder
    merge_loop add_segment_command_from_process_memory get_memory_protection add_segment_command
    add_thread_command registers_of as_uint_ptr base_pointer instruction_pointer stack_pointer
    link_register syndrome pointer_of_uint make_gpr make_exc le_bytes set_bytes gpr_kind gpr_size
    exc_kind exc_size
collected-at = refl

images-at :
    create_all_image_infos_payload
      (notes_start (
          half_prepared collected.builder
            (addrable_bits_bytes 47)
            (create_process_metadata_payload (700 ∷ [])))
        + 16)
      modules
    ≡ returns (1 ∷ header_rest)
unfolding create_all_image_infos_payload is_main_executable bytes_at le_bytes from_le other_modules
    store store_image_entries store_segment_lists store_paths align_up
images-at = refl

spec-at : create_main_bin_spec_payload modules ≡ returns spec
unfolding create_main_bin_spec_payload is_main_executable bytes_at le_bytes from_le
    get_preferred_text_address text_address_from
spec-at = refl

walk-at :
    walk_stack (walker_of x86_64 memory system.xpaci modules) 1 regions (registers x86_64 state)
    ≡ some (5000 ∷ [])
unfolding walk_stack walk_from walk_loop deref_ptr read_process_memory_into top_pc_no_stack_frame
    from_le registers_of as_uint_ptr base_pointer instruction_pointer stack_pointer link_register
    syndrome pointer_of_uint make_gpr make_exc le_bytes
walk-at = refl

some_state : (s : ThreadState) → some state ≡ some s → state ≡ s
some_state s e = ap (λ o. elim o [ none ↦ state | some x ↦ x ]) e

walk_ends :
    (s : ThreadState)
    → state_of none (record { port = 11; tid = 700; state = some state }) ≡ some s
    → (ips : List ℕ) × (walk_stack
          (walker_of x86_64 memory system.xpaci modules)
          1
          regions
          (registers x86_64 s)
        ≡ some ips)
      × SafeIps ips
unfolding state_of
walk_ends s e = (
  5000 ∷ [],
  ap
        (λ (q : ThreadState).
          walk_stack (walker_of x86_64 memory system.xpaci modules) 1 regions (registers x86_64 q))
        (sym (some_state s e))
      ∙ walk-at,
  (λ f. omega (arith, f), tt),
)

regions_fit :
    (sp : ℕ) (ri : MemoryRegionInfo)
    → get_region_info_for_address regions sp ≡ some ri
    → ri.vmaddr + ri.vmsize < u64_mod
unfolding get_region_info_for_address is_in_region
regions_fit sp ri e = ground arith

fits :
    DumpFits collected.builder
      (addrable_bits_bytes 47)
      (create_process_metadata_payload (700 ∷ []))
      (1 ∷ header_rest)
      spec
unfolding create_process_metadata_payload align_up le_bytes digits padded
fits = (omega arith, omega arith)

gathered : Gathered memory system none modules threads 47 collected zeros 1 header_rest spec
unfolding new_builder le_bytes
gathered = record {
  modules_known = refl;
  threads_known = refl;
  bits_known = refl;
  collected = collected-at;
  images_known = images-at;
  spec_known = spec-at;
  readable = (omega arith, λ a n h k. refl, (omega arith, λ a n h k. refl, tt));
  fits = fits;
}

write_dump-image_example :
    (k' : Kernel) × (mini_dump_write_dump_impl disk_stream memory system none empty_disk kernel
      ≡ result true
          (perform
            (dump_actions collected.builder
              (addrable_bits_bytes 47)
              (create_process_metadata_payload (700 ∷ []))
              (1 ∷ header_rest)
              spec
              zeros)
            empty_disk)
          k')
    × Restored system kernel k'
write_dump-image_example =
    write_dump-image memory system none modules threads 47 collected zeros 1 header_rest spec
      regions_fit (walk_ends, tt) gathered (refl, inl (refl, refl)) empty_disk kernel refl

-- A file with content of its own, opened for writing.
abbrev sevens : File
sevens = record { position = 0; size = 9; content = λ a. 7 }

small : SmallFile memory system none modules threads 47 collected zeros 1 header_rest spec
unfolding create_process_metadata_payload align_up le_bytes digits padded
small = omega arith

fd_dump-file_example :
    (k' : Kernel) × (files' : File) × (mini_dump_write_dump_fd ram memory system
        (some 3)
        none
        sevens
        kernel
      ≡ result true files' k')
    × (files'.content
        ≡ replay
            (log memory system none modules threads 47 collected zeros 1 header_rest spec)
            (λ a. 0))
    × Restored system kernel k'
fd_dump-file_example =
    fd_dump-file memory system none modules threads 47 collected zeros 1 header_rest spec
      regions_fit (walk_ends, tt) gathered ram 3 (λ f. f) ram-RegularFile sevens refl small
      (refl, inl (refl, refl)) kernel
