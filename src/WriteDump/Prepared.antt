-- ===== src/WriteDump/Prepared.antt =====
-- AddPayloadsAndWrite (MacMiniDump.cpp): the builder that it prepares is one that `Build` can
-- write.
use mac_mini_dump.Prelude.{
  ℕ, ◌+◌, ◌%◌, ◌<◌, ◌≡◌, refl, sym, ◌∙◌, ap, inl, true, false, List, [], ◌∷◌, none, some, arith,
  length,
}
use native.Mathlib.Nat.{mod-eq_of_lt, add-zero}
use mac_mini_dump.Prelude.Words.{u32_mod, u64_mod}
use mac_mini_dump.DataAccess.{Memory}
use mac_mini_dump.Builder.{
  returns, new_note, Builder, finalize_load_commands, note_sizes, thread_sizes, segment_sizes,
}
use mac_mini_dump.Builder.Commands.{Consistent, commands_size, finalize-Consistent}
use mac_mini_dump.Builder.Layout.{
  WellNamed, FileFits, notes_start, segments_start, file_total, payload_total, align_up_bounds,
  note_payload_offset,
}
use mac_mini_dump.Builder.Names.{owner_string_exact}
use mac_mini_dump.Builder.Offsets.{get_offset_for_note_command_payload}
use mac_mini_dump.Builder.Segments.{DistinctStarts}
use mac_mini_dump.Builder.Plan.{place_segments, SegmentsReady, Ready}
use mac_mini_dump.Builder.Placed.{
  length-place_segments, file_total-place, DistinctStarts-place, SegmentsReady-place,
}
use mac_mini_dump.Dump.{all_image_infos_owner, addrable_bits_owner}
use mac_mini_dump.Dump.CoreBuilder.{CoreBuilder}
use mac_mini_dump.Dump.Notes.{owners, owners-DistinctNames, four_notes-HaveNames}
use mac_mini_dump.WriteDump.{set_file_offsets}
use mac_mini_dump.WriteDump.Provided.{
  note_with, notes_with_metadata, all_notes, all_notes-HaveNames, metadata-HaveNames,
  all_notes-NotesReady,
}
use mac_mini_dump.WriteDump.Offsets.{set_file_offsets-place}

-- The result of FinalizeLoadCommands on a builder that is open.
abbrev pub finalized : Builder → Builder
finalized b = record b {
  load_commands_finalized = true;
  header = record (b.header) {
    ncmds = (length b.note_cmds + length b.thread_cmds + length b.segment_cmds) % u32_mod;
    sizeofcmds =
        (note_sizes b.note_cmds + thread_sizes b.thread_cmds + segment_sizes b.segment_cmds)
        % u32_mod;
  };
}

pub finalize-open :
    (b : Builder) → b.load_commands_finalized ≡ false → finalize_load_commands b ≡ finalized b
unfolding finalize_load_commands
finalize-open b e = rw (e, finalize_load_commands)

-- With the payloads that do not depend on offsets; with all; and with the offsets of the segments.
abbrev pub half_prepared : Builder → (bits metadata : List ℕ) → Builder
half_prepared b bits metadata =
    finalized (record b { note_cmds = notes_with_metadata bits metadata })

abbrev pub provided : Builder → (bits metadata images spec : List ℕ) → Builder
provided b bits metadata images spec = record (half_prepared b bits metadata) {
  note_cmds = all_notes bits metadata images spec;
}

abbrev pub prepared : Builder → (bits metadata images spec : List ℕ) → Builder
prepared b bits metadata images spec = record (provided b bits metadata images spec) {
  segment_cmds =
      place_segments (segments_start (provided b bits metadata images spec)) b.segment_cmds;
}

-- The load commands fit in 32 bits, and the file, and one page more, in 64.
abbrev pub DumpFits : Builder → (bits metadata images spec : List ℕ) → Type 0
DumpFits b bits metadata images spec =
    (commands_size (half_prepared b bits metadata) < u32_mod)
    × (segments_start (provided b bits metadata images spec) + file_total b.segment_cmds + 0x1000
        < u64_mod)

module _ (b : Builder) (core : CoreBuilder b) (bits metadata images spec : List ℕ)
    (fits : DumpFits b bits metadata images spec) where
  half_prepared-Consistent : Consistent (half_prepared b bits metadata)
  half_prepared-Consistent =
      rw
        (← finalize-open (record b { note_cmds = notes_with_metadata bits metadata })
          core.open_still)
        (finalize-Consistent (record b { note_cmds = notes_with_metadata bits metadata })
          (record {
            notes = (refl, (refl, (refl, (refl, tt))));
            threads = core.consistent.threads;
            segments = core.consistent.segments;
            sizes = λ e. cc;
            counts = λ e. cc;
          }))

  half_prepared-FileFits : FileFits (half_prepared b bits metadata)
  half_prepared-FileFits = omega (
    arith,
    fits.1,
    align_up_bounds
        (notes_start (half_prepared b bits metadata)
          + payload_total (notes_with_metadata bits metadata))
        0xfff,
    align_up_bounds
        (notes_start (half_prepared b bits metadata)
          + payload_total (all_notes bits metadata images spec))
        0xfff,
  )

  -- The payload of the images is laid out for the place that it will have.
  pub images_offset :
      get_offset_for_note_command_payload all_image_infos_owner (half_prepared b bits metadata)
      ≡ returns (some (notes_start (half_prepared b bits metadata) + length bits))
  images_offset =
      let waiting = (new_note all_image_infos_owner none).0 in
      ap (λ s. get_offset_for_note_command_payload s (half_prepared b bits metadata))
        (sym (
          owner_string_exact all_image_infos_owner waiting four_notes-HaveNames.2.0 refl
            (inl (omega arith))))
      ∙ note_payload_offset (half_prepared b bits metadata)
          (note_with addrable_bits_owner bits ∷ []) _ waiting none refl refl
          (owners, metadata-HaveNames bits metadata, owners-DistinctNames) half_prepared-FileFits
      ∙ ap (λ l. returns (some (notes_start (half_prepared b bits metadata) + l)))
          (add-zero (length bits))

  pub names : WellNamed (all_notes bits metadata images spec)
  names = (owners, all_notes-HaveNames bits metadata images spec, owners-DistinctNames)

  pub offsets_set :
      DistinctStarts b.segment_cmds
      → set_file_offsets [] b.segment_cmds (provided b bits metadata images spec)
        ≡ returns (prepared b bits metadata images spec)
  offsets_set s =
      set_file_offsets-place [] b.segment_cmds (note_with addrable_bits_owner bits) _
        (provided b bits metadata images spec) refl refl names s (omega (arith, fits.1))
      ∙ ap
          (λ q. returns (record (provided b bits metadata images spec) {
            segment_cmds = place_segments q b.segment_cmds;
          }))
          (add-zero (segments_start (provided b bits metadata images spec)))

  pub header_size-prepared :
      (prepared b bits metadata images spec).header.sizeofcmds
      ≡ commands_size (prepared b bits metadata images spec)
  header_size-prepared = omega (
    arith,
    half_prepared-Consistent.sizes refl,
    mod-eq_of_lt fits.0,
    length-place_segments (segments_start (provided b bits metadata images spec)) b.segment_cmds,
  )

  pub prepared-FileFits : FileFits (prepared b bits metadata images spec)
  prepared-FileFits =
      rw (file_total-place (segments_start (provided b bits metadata images spec)) b.segment_cmds)
        (omega (arith, fits.1))

  unfoldable pub prepared-Ready :
      (memory : Memory)
      → DistinctStarts b.segment_cmds
      → SegmentsReady memory b.segment_cmds
      → Ready memory (prepared b bits metadata images spec)
  prepared-Ready memory s r = record {
    finalized = refl;
    sizeofcmds = header_size-prepared;
    names = names;
    starts =
        DistinctStarts-place (segments_start (provided b bits metadata images spec)) b.segment_cmds
          s;
    file_fits = prepared-FileFits;
    threads = core.consistent.threads;
    notes = all_notes-NotesReady memory bits metadata images spec;
    segments =
        SegmentsReady-place memory (segments_start (provided b bits metadata images spec))
          b.segment_cmds r;
  }
