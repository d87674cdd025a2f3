-- ===== src/Payloads/ReadBack.antt =====
-- CreateAllImageInfosPayload (MacMiniDump.cpp): a debugger reads every module back from the
-- payload.
use mac_mini_dump.Prelude.{
  ℕ, suc, ◌+◌, ◌-◌, ◌*◌, ◌≤◌, ◌<◌, ◌≡◌, refl, sym, ◌∙◌, ap, List, [], ◌∷◌, ◌++◌, map, arith, length,
  length-append, drop,
}
use mathlib.Core.List.{append_assoc, append-nil}
use mac_mini_dump.Prelude.Words.{u64_mod, u32_mod, add64}
use mac_mini_dump.Bytes.{le_bytes, from_le}
use mac_mini_dump.Outcome.{returns, from_le-le_bytes, drop_past}
use mac_mini_dump.Modules.{ModuleInfo, ModuleInfos}
use mac_mini_dump.Payloads.{
  other_modules, header_bytes, image_entry_bytes, module_paths_size, segment_count, payload_size,
  create_all_image_infos_payload,
}
use mac_mini_dump.Payloads.Store.{
  image_entries, segment_addresses, all_segment_addresses, paths, drop_more,
  length-segment_addresses,
}
use mac_mini_dump.Payloads.Layout.{
  length-header, length-image_entries, length-all_segment_addresses, image_infos-parts,
}
use mac_mini_dump.Payloads.Reader.{
  at_offset, read_images, read_image_infos, image_of, AllStorable, entry_read,
}

-- What stands behind a part that is `n` bytes long.
past_part :
    (payload part after : List ℕ) (k n : ℕ)
    → drop k payload ≡ part ++ after
    → length part ≡ n
    → drop (k + n) payload ≡ after
past_part payload part after k n e h =
    sym (drop_more k n (k + n) payload refl) ∙ ap (drop n) e ∙ drop_past part after n h

module _ (payload_offset : ℕ) (payload : List ℕ) where
  -- The offset of the next part.
  next_part :
      (offset n : ℕ) (part after : List ℕ)
      → payload_offset ≤ offset
      → at_offset payload_offset payload offset ≡ part ++ after
      → length part ≡ n
      → at_offset payload_offset payload (offset + n) ≡ after
  next_part offset n part after h e l =
      ap (λ k. drop k payload) (omega arith)
      ∙ past_part payload part after (offset - payload_offset) n e l

  images_read :
      (others : List ModuleInfo) (p s : ℕ) (rest after_paths after_segments : List ℕ)
      → AllStorable others
      → payload_offset ≤ p
      → payload_offset ≤ s
      → p + module_paths_size others < u64_mod
      → s + segment_count others * 32 < u64_mod
      → at_offset payload_offset payload p ≡ paths others ++ after_paths
      → at_offset payload_offset payload s ≡ all_segment_addresses others ++ after_segments
      → read_images payload_offset payload (length others) (image_entries others p s ++ rest)
        ≡ map image_of others
  unfolding read_images
  images_read [] p s rest after_paths after_segments w hp hs bp bs ep es = refl
  images_read (mi ∷ others) p s rest after_paths after_segments w hp hs bp bs ep es =
      let p' : ℕ = p + (length mi.file_path + 1) in
      let s' : ℕ = s + length mi.segments * 32 in
      let path = ep ∙ append_assoc (mi.file_path ++ 0 ∷ []) (paths others) after_paths in
      let segments =
        es
        ∙ append_assoc (segment_addresses mi.segments) (all_segment_addresses others)
            after_segments in
      ap (read_images payload_offset payload (suc (length others)))
        (append_assoc (image_entry_bytes mi p s) (image_entries others p' s') rest)
      ∙ entry_read payload_offset payload mi p s (length others)
          (image_entries others p' s' ++ rest) (paths others ++ after_paths)
          (all_segment_addresses others ++ after_segments) w.0 (omega arith) (omega arith)
          (path ∙ append_assoc mi.file_path (0 ∷ []) (paths others ++ after_paths)) segments
      ∙ ap (◌∷◌ (image_of mi)) (
          images_read others p' s' rest after_paths after_segments w.1 (omega arith) (omega arith)
            (omega arith) (omega arith)
            (next_part p (length mi.file_path + 1) (mi.file_path ++ 0 ∷ [])
              (paths others ++ after_paths) hp path (length-append mi.file_path (0 ∷ [])))
            (next_part s (length mi.segments * 32) (segment_addresses mi.segments)
              (all_segment_addresses others ++ after_segments) hs segments
              (length-segment_addresses mi.segments)))

module _ (payload_offset : ℕ) (others : List ModuleInfo) (few : length others < u32_mod)
    (fits : payload_offset + payload_size (length others) others < u64_mod) where
  abbrev segments_at : ℕ
  segments_at = payload_offset + (24 + length others * 48)

  abbrev paths_at : ℕ
  paths_at = segments_at + segment_count others * 32

  abbrev header : List ℕ
  header = header_bytes payload_offset (length others)

  abbrev entries : List ℕ
  entries = image_entries others paths_at segments_at

  abbrev payload : List ℕ
  payload = ((header ++ entries) ++ all_segment_addresses others) ++ paths others

  front_length : length (header ++ entries) ≡ 24 + length others * 48
  front_length = omega (
    arith,
    length-append header entries,
    length-header payload_offset (length others),
    length-image_entries others paths_at segments_at,
  )

  segments_there :
      at_offset payload_offset payload segments_at ≡ all_segment_addresses others ++ paths others
  segments_there =
      ap (drop (segments_at - payload_offset))
        (append_assoc (header ++ entries) (all_segment_addresses others) (paths others))
      ∙ drop_past (header ++ entries) (all_segment_addresses others ++ paths others)
          (segments_at - payload_offset) (omega (arith, front_length))

  paths_there : at_offset payload_offset payload paths_at ≡ paths others ++ []
  paths_there =
      next_part payload_offset payload segments_at (segment_count others * 32)
        (all_segment_addresses others) (paths others) (omega arith) segments_there
        (length-all_segment_addresses others)
      ∙ sym (append-nil (paths others))

  behind_header : add64 payload_offset 24 - payload_offset ≡ 24
  behind_header = omega arith

  read_header :
      read_image_infos payload_offset payload
      ≡ read_images payload_offset payload
          (length others)
          (entries ++ (all_segment_addresses others ++ paths others))
  unfolding le_bytes
  read_header =
      ap
        (λ n.
          read_images payload_offset payload n
            (at_offset payload_offset payload (from_le (le_bytes 8 (add64 payload_offset 24)))))
        (from_le-le_bytes 4 (length others) few)
      ∙ ap
          (λ offset.
            read_images payload_offset payload (length others)
              (at_offset payload_offset payload offset))
          (from_le-le_bytes 8 (add64 payload_offset 24) (omega arith))
      ∙ ap (λ k. read_images payload_offset payload (length others) (drop k payload)) behind_header
      ∙ ap (read_images payload_offset payload (length others))
          (append_assoc entries (all_segment_addresses others) (paths others))

  payload_read : AllStorable others → read_image_infos payload_offset payload ≡ map image_of others
  payload_read storable =
      read_header
      ∙ images_read payload_offset payload others paths_at segments_at
          (all_segment_addresses others ++ paths others) [] (paths others) storable (omega arith)
          (omega arith) (omega arith) (omega arith) paths_there segments_there

-- When exactly one module is the main executable, the payload ends below 2 ^ 64 in the file, and
-- the other modules fit the fields of the structures, CreateAllImageInfosPayload gives a payload
-- from which a reader that follows the offsets of the header and of the entries gets for each other
-- module, in order, its path, its UUID, its load address, the names and addresses of its segments,
-- and whether it was executing.
pub image_infos-read :
    (payload_offset : ℕ) (first : ℕ × ModuleInfo) (rest : ModuleInfos) (others : List ModuleInfo)
    → other_modules (first ∷ rest) ≡ returns others
    → length others ≡ length rest
    → length others < u32_mod
    → payload_offset + payload_size (length others) others < u64_mod
    → AllStorable others
    → (bytes : List ℕ) × (create_all_image_infos_payload payload_offset (first ∷ rest)
        ≡ returns bytes)
      × (read_image_infos payload_offset bytes ≡ map image_of others)
image_infos-read payload_offset first rest others found one few fits storable = (
  payload payload_offset others few fits,
  image_infos-parts payload_offset first rest others found one fits,
  payload_read payload_offset others few fits storable,
)
