-- ===== src/WriteDump/Gathered.antt =====
-- MiniDumpWriteDumpImpl (MacMiniDump.cpp), with any stream: from the call to the call of `Build`.
use mac_mini_dump.Prelude.{
  ℕ, ◌+◌, ◌-◌, ◌<◌, ◌≡◌, refl, sym, ◌∙◌, ap, ◌⊎◌, inl, inr, Bool, true, false, List, ◌∷◌, Option,
  some, none, length,
}
use mac_mini_dump.Prelude.Words.{u64_mod}
use mac_mini_dump.Outcome.{returns}
use mac_mini_dump.DataAccess.{Memory}
use mac_mini_dump.Stream.{OStream}
use mac_mini_dump.Regions.{MemoryRegionInfo, get_region_info_for_address}
use mac_mini_dump.Builder.{Builder, new_builder}
use mac_mini_dump.Builder.Build.{goes_on, build}
use mac_mini_dump.Builder.Layout.{notes_start}
use mac_mini_dump.Builder.Plan.{Ready, SegmentsReady}
use mac_mini_dump.Modules.{ModuleInfos}
use mac_mini_dump.Payloads.{
  create_process_metadata_payload, create_all_image_infos_payload, create_main_bin_spec_payload,
}
use mac_mini_dump.Suspension.{suspend_all_threads_except_current_one, resume_threads}
use mac_mini_dump.Suspension.Balance.{resume-suspend}
use mac_mini_dump.StackWalk.{Walker}
use mac_mini_dump.Unwind.{walker_of}
use mac_mini_dump.Dump.{TaskThread, CrashContext, Collected, add_notes_to_core, add_threads_to_core}
use mac_mini_dump.Dump.CoreBuilder.{
  CoreBuilder, new-CoreBuilder, add_threads_to_core-CoreBuilder, Readable, Readable-SegmentsReady,
}
use mac_mini_dump.Dump.Growth.{AllWalksEnd}
use mac_mini_dump.Dump.Notes.{add_notes_to_core-four}
use mac_mini_dump.Dump.Ranges.{Ordered, Ordered-DistinctStarts}
use mac_mini_dump.Dump.Threads.{add_threads_to_core-Ordered}
use mac_mini_dump.WriteDump.{
  System, Kernel, result, addrable_bits_bytes, add_payloads_and_write, run, dump_body,
  with_deferred, dump_suspended, mini_dump_write_dump_impl,
}
use mac_mini_dump.WriteDump.Resumed.{Restored, write_dump-Restored}
use mac_mini_dump.WriteDump.Prepared.{half_prepared, prepared, DumpFits, prepared-Ready}
use mac_mini_dump.WriteDump.Started.{foreign_run, own_run}
use mac_mini_dump.WriteDump.Written.{add_payloads_and_write-build}

-- The task can be suspended: as a whole, or for the own task, its other threads, one by one.
abbrev pub Suspends : System → Type 0
Suspends system =
    (system.pid_for_task ≡ true)
    × (((system.self_dump ≡ false) × (system.task_suspend ≡ true))
        ⊎ ((system.self_dump ≡ true) × (ports : List ℕ) × (system.threads ≡ some ports)))

collected_path :
    (c d : Collected)
    → ◌≡◌ {A = Option (Collected × Bool)} (some (c, true)) (some (d, true))
    → c ≡ d
collected_path c d e = ap (λ o. elim o [ none ↦ c | some x ↦ x.0 ]) e

module _ (memory : Memory) (system : System) (crash_context : Option CrashContext)
    (modules : ModuleInfos) (threads : List TaskThread) (n_bits : ℕ) (c : Collected)
    (content : ℕ → ℕ) (first : ℕ) (others : List ℕ) (spec : List ℕ) where
  abbrev pub bits : List ℕ
  bits = addrable_bits_bytes n_bits

  abbrev pub metadata : List ℕ
  metadata = create_process_metadata_payload c.thread_ids

  abbrev pub whole : Builder
  whole = prepared c.builder bits metadata (first ∷ others) spec

  abbrev pub walker : Walker
  walker = walker_of system.arch memory system.xpaci modules

  -- What the calls of the system gave for this dump.
  pub record Gathered : Type 0 where
    pub modules_known : system.modules ≡ returns modules
    pub threads_known : system.task_threads ≡ some threads
    pub bits_known : system.address_bits ≡ some n_bits
    pub collected :
        add_threads_to_core system.region_protection walker system.regions crash_context
          system.this_thread system.fuel
          (some threads)
          (new_builder system.arch)
          modules
        ≡ some (c, true)
    pub images_known :
        create_all_image_infos_payload
          (notes_start (half_prepared c.builder bits metadata) + length bits)
          c.modules
        ≡ returns (first ∷ others)
    pub spec_known : create_main_bin_spec_payload c.modules ≡ returns spec
    pub readable : Readable memory content c.builder.segment_cmds
    pub fits : DumpFits c.builder bits metadata (first ∷ others) spec

  module _
      (regions_fit : (sp : ℕ) (ri : MemoryRegionInfo)
        → get_region_info_for_address system.regions sp ≡ some ri
        → ri.vmaddr + ri.vmsize < u64_mod)
      (ends : AllWalksEnd walker system.regions crash_context system.this_thread system.fuel
        regions_fit threads)
      (g : Gathered) where
    pub core : CoreBuilder c.builder
    core =
        add_threads_to_core-CoreBuilder system.region_protection walker system.regions crash_context
          system.this_thread system.fuel threads (new_builder system.arch) modules c g.collected
          (new-CoreBuilder system.arch)

    pub in_order : Ordered 0 c.builder.segment_cmds
    unfolding new_builder
    in_order =
        let (d, e, o, starts, ids) =
          add_threads_to_core-Ordered walker system.regions crash_context system.this_thread
            system.fuel system.region_protection threads (new_builder system.arch) modules
            regions_fit ends refl refl refl in
        rw (collected_path c d (sym g.collected ∙ e)) o

    unfoldable pub segments-Ready : SegmentsReady memory c.builder.segment_cmds
    segments-Ready =
        Readable-SegmentsReady memory content 0 c.builder.segment_cmds core.from_memory in_order
          g.readable

    -- The builder can be written.
    unfoldable pub whole-Ready : Ready memory whole
    whole-Ready =
        prepared-Ready c.builder core bits metadata (first ∷ others) spec g.fits memory
          (Ordered-DistinctStarts 0 c.builder.segment_cmds in_order) segments-Ready

    module _ {S : Type 0} (stream : OStream S) where
      body-build :
          (s : S) → dump_body stream memory system crash_context s ≡ build stream memory whole s
      unfolding dump_body
      body-build s =
          rw (g.modules_known, dump_body, run, g.threads_known, g.collected)
            (ap
                (λ q.
                  add_payloads_and_write stream memory q c.modules c.thread_ids
                    (add_notes_to_core c.builder).0 s)
                g.bits_known
              ∙ ap
                  (λ x.
                    add_payloads_and_write stream memory (some n_bits) c.modules c.thread_ids x.0 s)
                  (add_notes_to_core-four c.builder core.open_still core.no_notes)
              ∙ add_payloads_and_write-build stream s memory c.builder core n_bits c.modules
                  c.thread_ids first others spec g.fits
                  (Ordered-DistinctStarts 0 c.builder.segment_cmds in_order) g.images_known
                  g.spec_known)

      deferred_result :
          (s t : S) (b : Builder) (k : Kernel)
          → build stream memory whole s ≡ goes_on (b, t)
          → with_deferred stream memory system (dump_body stream memory system crash_context s) k
            ≡ result true t k
      deferred_result s t b k e =
          ap (λ q. with_deferred stream memory system q k) (body-build s ∙ e)

      self_result :
          (s t : S) (b : Builder) (k : Kernel) (ports : List ℕ)
          → build stream memory whole s ≡ goes_on (b, t)
          → (k' : Kernel) × (dump_suspended stream memory system crash_context s k (
            record k {
              thread_counts =
                  (suspend_all_threads_except_current_one system.answers system.this_thread
                    (some ports)
                    k.thread_counts).0;
            },
            (suspend_all_threads_except_current_one system.answers system.this_thread
                (some ports)
                k.thread_counts).1,
          )
              ≡ result true t k')
      self_result s t b k ports built =
          let (counts', suspended, e, counted, this, back) =
            resume-suspend system.answers system.answers_later system.this_thread ports
              k.thread_counts in
          let k' = record k {
            thread_counts = resume_threads system.answers_later suspended counts';
          } in
          (k', rw e (deferred_result s t b k' built))

      -- When `Build` succeeds on the emptied stream, so does the whole, with what `Build` has
      -- written, and the suspend counts are restored.
      pub run_result :
          Suspends system
          → (s t : S) (b : Builder) (k : Kernel) → (stream.set_size 0 s).1 ≡ true
          → build stream memory whole (stream.set_size 0 s).0 ≡ goes_on (b, t)
          → (k' : Kernel) × (mini_dump_write_dump_impl stream memory system crash_context s k
              ≡ result true t k')
            × Restored system k k'
      run_result u s t b k emptied built =
          let (k', e) = ended u in
          (k', e, rw e at (write_dump-Restored stream memory system crash_context s k))
        where
          s' : S
          s' = (stream.set_size 0 s).0

          ended :
              Suspends system
              → (k' : Kernel) × (mini_dump_write_dump_impl stream memory system crash_context s k
                  ≡ result true t k')
          ended (known, inl (foreign, suspends)) =
              let k' = record k { task_count = k.task_count + 1 - 1 } in
              (
                k',
                foreign_run stream memory system crash_context s k emptied known foreign suspends
                    ∙ deferred_result s' t b k' built,
              )
          ended (known, inr (own, ports, listed)) =
              let (k', e) = self_result s' t b k ports built in
              (
                k',
                own_run stream memory system crash_context s k emptied ports known own listed ∙ e,
              )
