-- ===== src/WriteDump/ToFile.antt =====
-- MiniDumpWriteDump (MacMiniDump.cpp) over the descriptor of a regular file: what the file holds at
-- the end.
use mac_mini_dump.Prelude.{ℕ, arith, ◌+◌, ◌<◌, ◌≡◌, refl, ◌∙◌, ap, true, List, ◌∷◌, Option, some}
use mac_mini_dump.Prelude.Words.{u64_mod}
use mac_mini_dump.DataAccess.{Memory}
use mac_mini_dump.Stream.{OStream}
use mac_mini_dump.Regions.{MemoryRegionInfo, get_region_info_for_address}
use mac_mini_dump.Builder.{Builder, finalize_load_commands}
use mac_mini_dump.Builder.Build.{Flow, crashes, stops, goes_on, build}
use mac_mini_dump.Builder.BuildOutput.{placed}
use mac_mini_dump.Builder.Disk.{Disk, disk_stream, empty_disk}
use mac_mini_dump.Builder.Plan.{perform}
use mac_mini_dump.Modules.{ModuleInfos}
use mac_mini_dump.Payloads.{create_process_metadata_payload}
use mac_mini_dump.Unwind.{walker_of}
use mac_mini_dump.Dump.{TaskThread, CrashContext, Collected}
use mac_mini_dump.Dump.Growth.{AllWalksEnd}
use mac_mini_dump.WriteDump.{System, Kernel, result, addrable_bits_bytes}
use mac_mini_dump.WriteDump.Resumed.{Restored}
use mac_mini_dump.WriteDump.FileImage.{dump_actions}
use mac_mini_dump.WriteDump.Gathered.{Suspends, Gathered, whole, run_result}
use mac_mini_dump.Builder.{Header}
use mac_mini_dump.Builder.Layout.{payload_total, file_total}
use mac_mini_dump.Builder.Simulation.{Same, both_crash, both_stop, both_go, Alike}
use mac_mini_dump.Builder.PayloadSimulation.{end_bound, build-Same}
use mac_mini_dump.FileStream.{
  Posix, FileOStream, of_fd, file_stream, destroy, cleanup, is_valid, set_size,
}
use mac_mini_dump.FileStream.File.{File, RegularFile, replay, off_limit, emptied_content}
use mac_mini_dump.FileStream.Laws.{Reflects, file-Alike}
use mac_mini_dump.WriteDump.Entry.{destroyed, mini_dump_write_dump, mini_dump_write_dump_fd}
use mac_mini_dump.WriteDump.Dumped.{build-image}

-- A run that is like one that goes on goes on, and ends with the same builder and a related stream.
goes_on-Same :
    {S T : Type 0} (stream : OStream S) (other : OStream T) (memory : Memory) (R : S → T → Type 0)
    (limit : ℕ) (alike : Alike stream other R limit) (h : Header) (n f : ℕ) {p : Flow (Builder × S)}
    {q : Flow (Builder × T)} (b : Builder) (t : T)
    → Same stream other memory R limit alike h n f p q
    → q ≡ goes_on (b, t)
    → (s : S) × (p ≡ goes_on (b, s)) × R s t
goes_on-Same stream other memory R limit alike h n f b t both_crash e = absurd (cc)
goes_on-Same stream other memory R limit alike h n f b t (both_stop m r) e = absurd (cc)
goes_on-Same {S} {T} stream other memory R limit alike h n f b t (both_go {b = c} {s} {t = u} m r)
      e =
    (s, ap (λ x. goes_on (x.0, s)) pair, rw (ap (λ (x : Builder × T). x.1) pair) at r)
  where
    pair : ◌≡◌ {A = Builder × T} (c, u) (b, t)
    pair =
        ap (λ (x : Flow (Builder × T)). elim x [ crashes ↦ (c, u) | stops y ↦ y | goes_on y ↦ y ]) e

module _ (memory : Memory) (system : System) (crash_context : Option CrashContext)
    (modules : ModuleInfos) (threads : List TaskThread) (n_bits : ℕ) (c : Collected)
    (content : ℕ → ℕ) (first : ℕ) (others : List ℕ) (spec : List ℕ) where
  abbrev pub built : Builder
  built = whole memory system crash_context modules threads n_bits c content first others spec

  -- The end of the file is below 2 ^ 63.
  abbrev pub SmallFile : Type 0
  SmallFile =
      end_bound built.header (payload_total built.note_cmds) (file_total built.segment_cmds)
      < off_limit

  -- The bytes that the dump is to have written, with the places that they are written to.
  abbrev pub log : List (ℕ × ℕ)
  log =
      (perform
        (dump_actions c.builder (addrable_bits_bytes n_bits)
          (create_process_metadata_payload c.thread_ids) (first ∷ others) spec content)
        empty_disk).log

module _ (memory : Memory) (system : System) (crash_context : Option CrashContext)
    (modules : ModuleInfos) (threads : List TaskThread) (n_bits : ℕ) (c : Collected)
    (content : ℕ → ℕ) (first : ℕ) (others : List ℕ) (spec : List ℕ)
    (regions_fit : (sp : ℕ) (ri : MemoryRegionInfo)
      → get_region_info_for_address system.regions sp ≡ some ri
      → ri.vmaddr + ri.vmsize < u64_mod)
    (ends : AllWalksEnd
      (walker_of system.arch memory system.xpaci modules)
      system.regions
      crash_context
      system.this_thread
      system.fuel
      regions_fit
      threads)
    (g : Gathered memory system crash_context modules threads n_bits c content first others
      spec) where
  abbrev dumped : Builder
  dumped = built memory system crash_context modules threads n_bits c content first others spec

  module _ {K : Type 0} (posix : Posix K) (fd : ℕ) (view : K → File)
      (regular : RegularFile posix fd view) (files : K) (start : (view files).position ≡ 0)
      (small : SmallFile memory system crash_context modules threads n_bits c content first others
        spec) where
    initial : ℕ → ℕ
    initial = λ a. 0

    abbrev opened : FileOStream K
    opened = of_fd posix (some fd) files

    emptied : ((file_stream posix).set_size 0 opened).1 ≡ true
    unfolding file_stream set_size of_fd
    emptied = (regular.truncate 0 files (omega arith)).0

    emptied-Reflects :
        Reflects posix fd view regular initial ((file_stream posix).set_size 0 opened).0 empty_disk
    unfolding file_stream set_size of_fd initial
    emptied-Reflects =
        let (done, after) = regular.truncate 0 files (omega arith) in
        record {
          descriptor = refl;
          position = ap (λ (f : File). f.position) after ∙ start;
          content = ap (λ (f : File). f.content) after ∙ emptied_content (view files);
        }

    written :
        (t : FileOStream K) × (build
            (file_stream posix)
            memory
            dumped
            ((file_stream posix).set_size 0 opened).0
          ≡ goes_on (placed memory dumped, t))
        × Reflects posix fd view regular initial t (
            perform
              (dump_actions c.builder
                (addrable_bits_bytes n_bits)
                (create_process_metadata_payload c.thread_ids)
                (first ∷ others)
                spec
                content)
              empty_disk)
    unfolding finalize_load_commands
    written =
        let alike = file-Alike posix fd view regular initial in
        goes_on-Same (file_stream posix) disk_stream memory (Reflects posix fd view regular initial)
          off_limit alike dumped.header (payload_total dumped.note_cmds)
          (file_total dumped.segment_cmds) (placed memory dumped) _
          (build-Same (file_stream posix) disk_stream memory
            (Reflects posix fd view regular initial) off_limit alike dumped.header
            (payload_total dumped.note_cmds) (file_total dumped.segment_cmds) small (omega arith)
            dumped ((file_stream posix).set_size 0 opened).0 empty_disk (refl, refl, refl)
            emptied-Reflects)
          (build-image memory system crash_context modules threads n_bits c content first others
            spec regions_fit ends g)

    closed-content :
        (t : FileOStream K) (d : Disk)
        → Reflects posix fd view regular initial t d
        → (view (destroy posix t).kernel).content ≡ replay d.log initial
    unfolding destroy cleanup is_valid
    closed-content t d r =
        ap (λ o. (view (destroy posix (record { fd = o; kernel = t.kernel })).kernel).content)
          r.descriptor
        ∙ regular.close_keeps t.kernel
        ∙ r.content

    -- Under the conditions of `write_dump-image`, over the descriptor of a regular file on a volume
    -- with space, which stands at its start, and for a file that ends below 2 ^ 63:
    -- MiniDumpWriteDump returns true, and after the descriptor is closed the file holds, over
    -- zeros, the bytes of the dump at their places and nothing of what it held before. The suspend
    -- counts are restored.
    pub fd_dump-file :
        Suspends system
        → (k : Kernel)
        → (k' : Kernel) × (files' : K) × (mini_dump_write_dump_fd posix memory system
              (some fd)
              crash_context
              files
              k
            ≡ result true files' k')
          × ((view files').content
              ≡ replay
                  (log memory system crash_context modules threads n_bits c content first others
                    spec)
                  (λ a. 0))
          × Restored system k k'
    unfolding mini_dump_write_dump_fd mini_dump_write_dump initial
    fd_dump-file u k =
        let (t, e, r) = written in
        let (k', ran, restored) =
          run_result memory system crash_context modules threads n_bits c content first others spec
            regions_fit ends g (file_stream posix) u opened t (placed memory dumped) k emptied e in
        (k', (destroy posix t).kernel, ap (destroyed posix) ran, closed-content t _ r, restored)
