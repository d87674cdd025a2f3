-- ===== src/Dump/Threads.antt =====
-- AddThreadsToCore (MacMiniDump.cpp) as a whole.
use mac_mini_dump.Prelude.{
  ℕ, ◌+◌, ◌<◌, ◌≡◌, refl, ◌∙◌, ap, true, false, List, [], ◌++◌, Option, some, arith, length,
}
use mac_mini_dump.Prelude.Words.{u64_mod}
use mac_mini_dump.Intervals.{for_each}
use mac_mini_dump.Regions.{MemoryRegionInfo, MemoryRegions, get_region_info_for_address}
use mac_mini_dump.Builder.{Builder}
use mac_mini_dump.Builder.Segments.{DistinctStarts}
use mac_mini_dump.Modules.{ModuleInfos}
use mac_mini_dump.StackWalk.{Walker}
use mac_mini_dump.Dump.{TaskThread, CrashContext, Collected, add_ranges, add_threads_to_core}
use mac_mini_dump.Dump.Ranges.{Ordered, Ordered-DistinctStarts}
use mac_mini_dump.Dump.Growth.{
  AllWalksEnd, add_threads-Grown, for_each-RangesFrom, add_ranges-Ordered,
}

pub add_threads_to_core-Ordered :
    (walker : Walker) (regions : MemoryRegions) (crash_context : Option CrashContext)
    (this_thread fuel : ℕ) (protection : ℕ → ℕ → Option ℕ) (threads : List TaskThread) (b : Builder)
    (modules : ModuleInfos)
    → (regions_fit : (sp : ℕ) (ri : MemoryRegionInfo)
        → get_region_info_for_address regions sp ≡ some ri
        → ri.vmaddr + ri.vmsize < u64_mod)
    → AllWalksEnd walker regions crash_context this_thread fuel regions_fit threads
    → b.load_commands_finalized ≡ false
    → b.segment_cmds ≡ []
    → b.thread_cmds ≡ []
    → (c : Collected) × (add_threads_to_core protection walker regions crash_context this_thread
          fuel
          (some threads)
          b
          modules
        ≡ some (c, true))
      × Ordered 0 c.builder.segment_cmds
      × DistinctStarts c.builder.segment_cmds
      × (length c.builder.thread_cmds ≡ length c.thread_ids)
unfolding add_threads_to_core
add_threads_to_core-Ordered walker regions crash_context this_thread fuel protection threads b
      modules regions_fit ends f none_yet no_threads =
    let start : Collected = record {
      builder = b;
      modules = modules;
      thread_ids = [];
      memory_ranges_to_add = [];
    } in
    let (c, walked, g) =
      add_threads-Grown walker regions crash_context this_thread fuel regions_fit b threads start
        ends
        (record { kept = (tt, tt); segments = refl; open_still = refl; threads = omega arith }) in
    let (added, e, o) =
      add_ranges-Ordered protection 0 (for_each c.memory_ranges_to_add) c.builder
        (for_each-RangesFrom 0 c.memory_ranges_to_add g.kept.0 g.kept.1) (g.open_still ∙ f) in
    let all_added : c.builder.segment_cmds ++ added ≡ added =
      ap (λ l. l ++ added) (g.segments ∙ none_yet) in
    let same : (add_ranges protection (for_each c.memory_ranges_to_add) c.builder)
        ≡ record (c.builder) { segment_cmds = added } =
      e ∙ ap (λ l. record (c.builder) { segment_cmds = l }) all_added in
    (
      record c { builder = record (c.builder) { segment_cmds = added } },
      rw (add_threads_to_core, walked) (ap (λ d. some (record c { builder = d }, true)) same),
      o,
      Ordered-DistinctStarts 0 added o,
      omega (arith, g.threads, ap length no_threads),
    )
