-- ===== src/WriteDump/Written.antt =====
-- AddPayloadsAndWrite and MiniDumpWriteDumpImpl (MacMiniDump.cpp): the builder that `Build` is
-- called on, with any stream.
use mac_mini_dump.Prelude.{ℕ, ◌+◌, ◌≡◌, ◌∙◌, ap, List, [], ◌∷◌, some, length}
use mac_mini_dump.Outcome.{returns}
use mac_mini_dump.DataAccess.{Memory}
use mac_mini_dump.Stream.{OStream}
use mac_mini_dump.Builder.{Builder, finalize_load_commands}
use mac_mini_dump.Builder.Build.{build, found_or}
use mac_mini_dump.Builder.Layout.{notes_start}
use mac_mini_dump.Builder.Offsets.{get_offset_for_note_command_payload}
use mac_mini_dump.Builder.Segments.{DistinctStarts}
use mac_mini_dump.Modules.{ModuleInfos}
use mac_mini_dump.Payloads.{
  create_process_metadata_payload, create_all_image_infos_payload, create_main_bin_spec_payload,
}
use mac_mini_dump.Dump.{
  addrable_bits_owner, all_image_infos_owner, main_bin_spec_owner, process_metadata_owner,
}
use mac_mini_dump.Dump.CoreBuilder.{CoreBuilder}
use mac_mini_dump.Dump.Notes.{four_notes}
use mac_mini_dump.WriteDump.{
  provide, addrable_bits_bytes, set_file_offsets, run, finish_and_build, build_with_images,
  add_payloads_and_write,
}
use mac_mini_dump.WriteDump.Provided.{
  notes_with_metadata, provide_bits, provide_metadata, provide_images, provide_spec,
}
use mac_mini_dump.WriteDump.Prepared.{
  finalize-open, half_prepared, provided, prepared, DumpFits, images_offset, offsets_set,
}

module _ {S : Type 0} (stream : OStream S) (s : S) (memory : Memory) (b : Builder)
    (core : CoreBuilder b) (n_bits : ℕ) (modules : ModuleInfos) (thread_ids : List ℕ) (first : ℕ)
    (others : List ℕ) (spec : List ℕ)
    (fits : DumpFits b
      (addrable_bits_bytes n_bits)
      (create_process_metadata_payload thread_ids)
      (first ∷ others)
      spec) where
  abbrev bits : List ℕ
  bits = addrable_bits_bytes n_bits

  abbrev metadata : List ℕ
  metadata = create_process_metadata_payload thread_ids

  abbrev images : List ℕ
  images = first ∷ others

  abbrev half : Builder
  half = half_prepared b bits metadata

  abbrev whole : Builder
  whole = prepared b bits metadata images spec

  half_reached :
      finalize_load_commands (
        provide process_metadata_owner metadata
          (provide addrable_bits_owner bits (record b { note_cmds = four_notes })))
      ≡ half
  half_reached =
      ap (λ x. finalize_load_commands (provide process_metadata_owner metadata x))
        (provide_bits bits b)
      ∙ ap finalize_load_commands (provide_metadata bits metadata b)
      ∙ finalize-open (record b { note_cmds = notes_with_metadata bits metadata }) core.open_still

  provided_reached :
      provide main_bin_spec_owner spec (provide all_image_infos_owner images half)
      ≡ provided b bits metadata images spec
  provided_reached =
      ap (provide main_bin_spec_owner spec) (provide_images bits metadata images half)
      ∙ provide_spec bits metadata images spec half

  finish-build :
      DistinctStarts b.segment_cmds
      → create_main_bin_spec_payload modules ≡ returns spec
      → finish_and_build stream memory modules images half s ≡ build stream memory whole s
  finish-build d e =
      ap
        (λ o. run o λ main_bin_spec.
          let b' =
            provide main_bin_spec_owner main_bin_spec (provide all_image_infos_owner images half) in
          run (set_file_offsets [] b'.segment_cmds b') λ b''. build stream memory b'' s)
        e
      ∙ ap
          (λ (x : Builder).
            run (set_file_offsets [] x.segment_cmds x) λ b''. build stream memory b'' s)
          provided_reached
      ∙ ap (λ o. run o λ b''. build stream memory b'' s)
          (offsets_set b core bits metadata images spec fits d)

  pub add_payloads_and_write-build :
      DistinctStarts b.segment_cmds
      → create_all_image_infos_payload (notes_start half + length bits) modules ≡ returns images
      → create_main_bin_spec_payload modules ≡ returns spec
      → add_payloads_and_write stream memory
          (some n_bits)
          modules
          thread_ids
          (record b { note_cmds = four_notes })
          s
        ≡ build stream memory whole s
  unfolding add_payloads_and_write
  add_payloads_and_write-build d i e =
      ap
        (λ (x : Builder).
          run (get_offset_for_note_command_payload all_image_infos_owner x) λ offset.
            run (create_all_image_infos_payload (found_or 0 offset) modules)
              λ image_infos. build_with_images stream memory modules x s image_infos)
        half_reached
      ∙ ap
          (λ o. run o λ offset.
            run (create_all_image_infos_payload (found_or 0 offset) modules)
              λ image_infos. build_with_images stream memory modules half s image_infos)
          (images_offset b core bits metadata images spec fits)
      ∙ ap (λ o. run o λ image_infos. build_with_images stream memory modules half s image_infos) i
      ∙ finish-build d e
