-- ===== src/WriteDump.antt =====
-- Sources/macMiniDump/Private/MacMiniDump.cpp: AddPayloadsAndWrite and MiniDumpWriteDumpImpl. The
-- system is a record of what its calls answer. The state is that of the output stream, the suspend
-- counts of the threads and that of the task. Undefined behaviour, and a stack walk that runs out
-- of fuel, end the run without the `defer` block.
pub mod Resumed
pub mod Provided
pub mod Offsets
pub mod Prepared
pub mod Written
pub mod FileImage
pub mod Started
pub mod Gathered
pub mod Dumped
pub mod Entry
pub mod ToFile
mod Examples
mod DumpExample
use mac_mini_dump.Prelude.{
  ℕ, zero, suc, ◌+◌, ◌-◌, Bool, true, false, List, [], ◌∷◌, ◌++◌, Option, none, some, ◌==◌,
  if◌then◌else◌, length,
}
use mac_mini_dump.Bytes.{le_bytes}
use mac_mini_dump.DataAccess.{Memory, copied, DataProvider}
use mac_mini_dump.Stream.{OStream}
use mac_mini_dump.Regions.{MemoryRegions}
use mac_mini_dump.Builder.{
  Outcome, fault, returns, Arch, SegmentCommand, Segment, Builder, new_builder,
  finalize_load_commands,
}
use mac_mini_dump.Builder.Offsets.{
  add_data_provider_for_note_command, get_offset_for_note_command_payload,
  get_offset_for_segment_command_payload,
}
use mac_mini_dump.Builder.Build.{Flow, crashes, stops, goes_on, ◌>>=◌, found_or, build}
use mac_mini_dump.Modules.{ModuleInfos}
use mac_mini_dump.Unwind.{walker_of}
use mac_mini_dump.Suspension.{Counts, suspend_all_threads_except_current_one, resume_threads}
use mac_mini_dump.Payloads.{
  create_process_metadata_payload, create_all_image_infos_payload, create_main_bin_spec_payload,
}
use mac_mini_dump.Dump.{
  TaskThread, CrashContext, Collected, addrable_bits_owner, all_image_infos_owner,
  main_bin_spec_owner, process_metadata_owner, add_threads_to_core, add_notes_to_core,
}

-- A note's payload as a CopiedDataPtr.
abbrev pub provide : List ℕ → List ℕ → Builder → Builder
provide owner bytes b =
    (add_data_provider_for_note_command owner
      (record { size = length bytes; data_ptr = copied bytes }) b).0

-- AddrableBitsInfo
abbrev pub addrable_bits_bytes : ℕ → List ℕ
addrable_bits_bytes n_bits = le_bytes 4 3 ++ (le_bytes 4 n_bits ++ le_bytes 8 0)

-- The loop that sets `fileoff`, over the segments that it has passed and those it has still to
-- visit.
unfoldable pub set_file_offsets : List Segment → List Segment → Builder → Outcome Builder
set_file_offsets done [] b = returns (record b { segment_cmds = done })
set_file_offsets done ((sc, provider) ∷ rest) b =
    elim (get_offset_for_segment_command_payload sc.vmaddr
      (record b { segment_cmds = done ++ (sc, provider) ∷ rest })) [
        | fault ↦ fault
        | returns found ↦
            set_file_offsets
              (done ++ (record sc { fileoff = found_or sc.fileoff found }, provider) ∷ []) rest b
      ]

abbrev pub run : {A X : Type 0} → Outcome A → (A → Flow X) → Flow X
run fault f = crashes
run (returns a) f = f a

module _ {S : Type 0} (stream : OStream S) (memory : Memory) where
  -- What follows the payload of the images.
  abbrev pub finish_and_build : ModuleInfos → List ℕ → Builder → S → Flow (Builder × S)
  finish_and_build modules image_infos b s =
      run (create_main_bin_spec_payload modules) λ main_bin_spec.
        let b' =
          provide main_bin_spec_owner main_bin_spec (provide all_image_infos_owner image_infos b) in
        run (set_file_offsets [] b'.segment_cmds b') λ b''. build stream memory b'' s

  abbrev pub build_with_images : ModuleInfos → Builder → S → List ℕ → Flow (Builder × S)
  build_with_images modules b s [] = stops (b, s)
  build_with_images modules b s (byte ∷ bytes) = finish_and_build modules (byte ∷ bytes) b s

  -- `address_bits` is what `sysctlbyname` gives under one name or the other.
  unfoldable pub add_payloads_and_write :
      Option ℕ → ModuleInfos → List ℕ → Builder → S → Flow (Builder × S)
  add_payloads_and_write none modules thread_ids b s = stops (b, s)
  add_payloads_and_write (some n_bits) modules thread_ids b s =
      let b' = finalize_load_commands (
        provide process_metadata_owner (create_process_metadata_payload thread_ids)
          (provide addrable_bits_owner (addrable_bits_bytes n_bits) b)) in
      run (get_offset_for_note_command_payload all_image_infos_owner b') λ offset.
        run (create_all_image_infos_payload (found_or 0 offset) modules)
          λ image_infos. build_with_images modules b' s image_infos

-- What the calls of the system answer; `xpaci` clears the authentication bits of a pointer.
-- `threads` are the ports for SuspendAllThreadsExceptCurrentOne, `task_threads` the threads with
-- their states for AddThreadsToCore, which each ask `task_threads`. `answers_later` is for the
-- calls of `thread_resume`.
pub record System : Type 0 where
  pub arch : Arch
  pub pid_for_task : Bool
  pub self_dump : Bool
  pub task_suspend : Bool
  pub this_thread : ℕ
  pub threads : Option (List ℕ)
  pub answers : ℕ → Bool
  pub answers_later : ℕ → Bool
  pub task_threads : Option (List TaskThread)
  pub regions : MemoryRegions
  pub modules : Outcome ModuleInfos
  pub region_protection : ℕ → ℕ → Option ℕ
  pub xpaci : ℕ → ℕ
  pub fuel : ℕ
  pub address_bits : Option ℕ

-- The suspend counts of the threads, and of the task.
pub record Kernel : Type 0 where
  pub thread_counts : Counts
  pub task_count : ℕ

-- The end of a run: its result, with the stream and the kernel, or that it did not return.
pub data Run (S : Type 0) : Type 0 where
  ends_abruptly : Run S
  result : Bool → S → Kernel → Run S

module _ {S : Type 0} (stream : OStream S) (memory : Memory) (system : System) where
  abbrev pub write_collected : Collected × Bool → S → Flow (Builder × S)
  write_collected (c, false) s = stops (c.builder, s)
  write_collected (c, true) s =
      add_payloads_and_write stream memory system.address_bits c.modules c.thread_ids
        (add_notes_to_core c.builder).0 s

  -- From the construction of the builder to the end.
  unfoldable pub dump_body : Option CrashContext → S → Flow (Builder × S)
  dump_body crash_context s = run system.modules λ modules.
      elim (add_threads_to_core system.region_protection
        (walker_of system.arch memory system.xpaci modules) system.regions crash_context
        system.this_thread system.fuel system.task_threads (new_builder system.arch) modules) [
          | none ↦ crashes
          | some collected ↦ write_collected collected s
        ]

  -- The body, and the `defer` block at its end.
  abbrev pub with_deferred : Flow (Builder × S) → Kernel → Run S
  with_deferred crashes k = ends_abruptly
  with_deferred (stops (b, s)) k = result false s k
  with_deferred (goes_on (b, s)) k = result true s k

  abbrev pub dump_suspended : Option CrashContext → S → Kernel → Kernel × Option (List ℕ) → Run S
  dump_suspended crash_context s k (k', none) = result false s k'
  dump_suspended crash_context s k (k', some suspended) =
      with_deferred (dump_body crash_context s) (record k' {
        thread_counts = resume_threads system.answers_later suspended k'.thread_counts;
      })

  abbrev pub dump_self : Option CrashContext → S → Kernel → Run S
  dump_self crash_context s k =
      let (counts, suspended) =
        suspend_all_threads_except_current_one system.answers system.this_thread system.threads
          k.thread_counts in
      dump_suspended crash_context s k (record k { thread_counts = counts }, suspended)

  -- task_suspend and task_resume count up and down.
  abbrev pub dump_other : Option CrashContext → S → Kernel → Run S
  dump_other crash_context s k =
      let k' = record k { task_count = k.task_count + 1 } in
      if system.task_suspend
      then with_deferred (dump_body crash_context s) (record k' { task_count = k'.task_count - 1 })
      else result false s k

  unfoldable pub mini_dump_write_dump_impl : Option CrashContext → S → Kernel → Run S
  mini_dump_write_dump_impl crash_context s k =
      let (s', emptied) = stream.set_size 0 s in
      if system.pid_for_task
      then (if emptied
          then (if system.self_dump
              then dump_self crash_context s' k
              else dump_other crash_context s' k)
          else result false s' k)
      else result false s k
