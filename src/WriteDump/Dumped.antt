-- ===== src/WriteDump/Dumped.antt =====
-- MiniDumpWriteDumpImpl (MacMiniDump.cpp) from the call to the bytes of the file, on the recording
-- disk.
use mac_mini_dump.Prelude.{ℕ, ◌+◌, ◌<◌, ◌≡◌, refl, ◌∙◌, ap, true, List, [], ◌∷◌, Option, some}
use mac_mini_dump.Prelude.Words.{u64_mod}
use mac_mini_dump.DataAccess.{Memory}
use mac_mini_dump.Regions.{MemoryRegionInfo, get_region_info_for_address}
use mac_mini_dump.Builder.{Builder}
use mac_mini_dump.Builder.Build.{goes_on, build}
use mac_mini_dump.Builder.BuildOutput.{placed, build-plan}
use mac_mini_dump.Builder.Disk.{Disk, disk_stream, empty_disk}
use mac_mini_dump.Builder.Plan.{perform, plan, Ready}
use mac_mini_dump.Modules.{ModuleInfos}
use mac_mini_dump.Payloads.{create_process_metadata_payload}
use mac_mini_dump.Unwind.{walker_of}
use mac_mini_dump.Dump.{TaskThread, CrashContext, Collected, addrable_bits_owner}
use mac_mini_dump.Dump.Growth.{AllWalksEnd}
use mac_mini_dump.Dump.Ranges.{Ordered-DistinctStarts}
use mac_mini_dump.WriteDump.{System, Kernel, result, addrable_bits_bytes, mini_dump_write_dump_impl}
use mac_mini_dump.WriteDump.Resumed.{Restored}
use mac_mini_dump.WriteDump.Provided.{note_with}
use mac_mini_dump.WriteDump.FileImage.{dump_actions, plan-actions}
use mac_mini_dump.WriteDump.Gathered.{
  Suspends, Gathered, whole, core, in_order, whole-Ready, segments-Ready, run_result,
}

module _ (memory : Memory) (system : System) (crash_context : Option CrashContext)
    (modules : ModuleInfos) (threads : List TaskThread) (n_bits : ℕ) (c : Collected)
    (content : ℕ → ℕ) (first : ℕ) (others : List ℕ) (spec : List ℕ)
    (regions_fit : (sp : ℕ) (ri : MemoryRegionInfo)
      → get_region_info_for_address system.regions sp ≡ some ri
      → ri.vmaddr + ri.vmsize < u64_mod)
    (ends : AllWalksEnd
      (walker_of system.arch memory system.xpaci modules)
      system.regions
      crash_context
      system.this_thread
      system.fuel
      regions_fit
      threads)
    (g : Gathered memory system crash_context modules threads n_bits c content first others
      spec) where
  abbrev built : Builder
  built = whole memory system crash_context modules threads n_bits c content first others spec

  -- The builder can be written.
  pub built-Ready : Ready memory built
  built-Ready =
      whole-Ready memory system crash_context modules threads n_bits c content first others spec
        regions_fit ends g

  -- What `Build` writes for it.
  pub plan-image :
      perform (plan memory built built-Ready) empty_disk
      ≡ perform
          (dump_actions c.builder
            (addrable_bits_bytes n_bits)
            (create_process_metadata_payload c.thread_ids)
            (first ∷ others)
            spec
            content)
          empty_disk
  unfolding built-Ready whole-Ready segments-Ready
  plan-image =
      let o =
        in_order memory system crash_context modules threads n_bits c content first others spec
          regions_fit ends g in
      ap (λ l. perform l empty_disk)
        (plan-actions memory content 0 c.builder
          (core memory system crash_context modules threads n_bits c content first others spec
            regions_fit ends g)
          (addrable_bits_bytes n_bits) (create_process_metadata_payload c.thread_ids)
          (first ∷ others) spec g.fits (Ordered-DistinctStarts 0 c.builder.segment_cmds o) o
          g.readable)

  pub build-image :
      build disk_stream memory built empty_disk
      ≡ goes_on (
        placed memory built,
        perform
            (dump_actions c.builder
              (addrable_bits_bytes n_bits)
              (create_process_metadata_payload c.thread_ids)
              (first ∷ others)
              spec
              content)
            empty_disk,
      )
  build-image =
      build-plan memory built (note_with addrable_bits_owner (addrable_bits_bytes n_bits)) _ refl
        built-Ready
      ∙ ap (λ d. goes_on (placed memory built, d)) plan-image

  -- When the own task's other threads, or the other task, can be suspended, the regions do not
  -- reach the end of the address space, every stack walk ends at addresses whose surroundings do
  -- not wrap around, the payloads of the notes can be made and the one of the images is not empty,
  -- the memory of all the collected ranges can be read, the load commands fit in 32 bits and the
  -- file with one page more in 64, and the stream stands at its start: MiniDumpWriteDumpImpl
  -- returns true, and what it has written is the header, the load commands with their offsets, the
  -- four payloads of the notes, and the memory of each collected range, each at its offset. The
  -- suspend counts of the task, and of every thread that still answers, are what they were.
  pub write_dump-image :
      Suspends system
      → (d : Disk) (k : Kernel) → d.position ≡ 0
      → (k' : Kernel) × (mini_dump_write_dump_impl disk_stream memory system crash_context d k
          ≡ result true
              (perform
                (dump_actions c.builder
                  (addrable_bits_bytes n_bits)
                  (create_process_metadata_payload c.thread_ids)
                  (first ∷ others)
                  spec
                  content)
                empty_disk)
              k')
        × Restored system k k'
  write_dump-image u d k p =
      run_result memory system crash_context modules threads n_bits c content first others spec
        regions_fit ends g disk_stream u d _ (placed memory built) k refl
        (ap (λ q. build disk_stream memory built (record { position = q; log = [] })) p
          ∙ build-image)
