-- ===== src/Payloads/Layout.antt =====
-- CreateAllImageInfosPayload (MacMiniDump.cpp): the `memcpy`s lay the parts out one behind the
-- other.
use mac_mini_dump.Prelude.{
  ℕ, zero, suc, ◌+◌, ◌-◌, ◌*◌, ◌<◌, ◌≡◌, refl, sym, ◌∙◌, ap, List, [], ◌∷◌, ◌++◌, arith, length,
  length-append, drop, replicate, length-replicate, length-drop,
}
use mathlib.Core.List.{append-nil}
use mac_mini_dump.Prelude.Words.{u64_mod, sub64}
use mac_mini_dump.Bytes.{le_bytes}
use mac_mini_dump.Outcome.{returns, ◌>>=◌}
use mac_mini_dump.Modules.{ModuleInfo, ModuleInfos}
use mac_mini_dump.Payloads.{
  other_modules, header_bytes, image_entry_bytes, module_paths_size, segment_count, store,
  store_image_entries, store_segment_lists, store_paths, payload_size, paths_start, lay_out,
  create_all_image_infos_payload,
}
use mac_mini_dump.Payloads.Store.{
  store_front, image_entries, segment_addresses, all_segment_addresses, paths, length-image_entry,
  store_image_entries-front, length-segment_addresses, store_segment_lists-front, store_paths-front,
}

pub length-header : (payload_offset n : ℕ) → length (header_bytes payload_offset n) ≡ 24
unfolding le_bytes
length-header payload_offset n = refl

pub length-image_entries :
    (others : List ModuleInfo) (p s : ℕ) → length (image_entries others p s) ≡ length others * 48
length-image_entries [] p s = omega arith
length-image_entries (mi ∷ others) p s = omega (
  arith,
  length-append (image_entry_bytes mi p s)
      (image_entries others (p + (length mi.file_path + 1)) (s + length mi.segments * 32)),
  length-image_entry mi p s,
  length-image_entries others (p + (length mi.file_path + 1)) (s + length mi.segments * 32),
)

pub length-all_segment_addresses :
    (others : List ModuleInfo) → length (all_segment_addresses others) ≡ segment_count others * 32
length-all_segment_addresses [] = omega arith
length-all_segment_addresses (mi ∷ others) = omega (
  arith,
  length-append (segment_addresses mi.segments) (all_segment_addresses others),
  length-segment_addresses mi.segments,
  length-all_segment_addresses others,
)

drop_all : (n : ℕ) (xs : List ℕ) → length xs ≡ n → drop n xs ≡ []
drop_all zero [] h = refl
drop_all (suc n) [] h = refl
drop_all zero (x ∷ xs) h = absurd (omega arith)
drop_all (suc n) (x ∷ xs) h = drop_all n xs (omega arith)

module _ (payload_offset : ℕ) (others : List ModuleInfo)
    (fits : payload_offset + payload_size (length others) others < u64_mod) where
  abbrev segments_at : ℕ
  segments_at = payload_offset + (24 + length others * 48)

  abbrev paths_at : ℕ
  paths_at = segments_at + segment_count others * 32

  -- The four parts of the payload.
  abbrev header : List ℕ
  header = header_bytes payload_offset (length others)

  abbrev entries : List ℕ
  entries = image_entries others paths_at segments_at

  blank : List ℕ
  blank = replicate (payload_size (length others) others) 0

  blank-length : length blank ≡ payload_size (length others) others
  unfolding blank
  blank-length = length-replicate (payload_size (length others) others) 0

  paths_start-at : paths_start payload_offset (length others) others ≡ paths_at
  paths_start-at = omega arith

  segments_start-at : sub64 paths_at (segment_count others * 32) ≡ segments_at
  segments_start-at = omega arith

  paths_behind :
      payload_size (length others) others - module_paths_size others
      ≡ 24 + length others * 48 + segment_count others * 32
  paths_behind = omega arith

  left_1 : List ℕ
  left_1 = drop 24 blank

  left_2 : List ℕ
  left_2 = drop (length others * 48) left_1

  left_3 : List ℕ
  left_3 = drop (segment_count others * 32) left_2

  left_lengths :
      (length left_1 ≡ length others * 48 + segment_count others * 32 + module_paths_size others)
      × (length left_2 ≡ segment_count others * 32 + module_paths_size others)
      × (length left_3 ≡ module_paths_size others)
  unfolding left_1 left_2 left_3
  left_lengths =
      let l1 : length (drop 24 blank)
          ≡ length others * 48 + segment_count others * 32 + module_paths_size others =
        omega (arith, length-drop 24 blank, blank-length) in
      let l2 : length (drop (length others * 48) (drop 24 blank))
          ≡ segment_count others * 32 + module_paths_size others =
        omega (arith, length-drop (length others * 48) (drop 24 blank), l1) in
      (
        l1,
        l2,
        omega (
          arith,
          length-drop (segment_count others * 32) (drop (length others * 48) (drop 24 blank)),
          l2,
        ),
      )

  header_step : store 0 header blank ≡ returns (header ++ left_1)
  unfolding left_1
  header_step =
      store_front [] header blank 0 24 refl (length-header payload_offset (length others))
        (omega (arith, blank-length))

  entries_step :
      store_image_entries others paths_at segments_at 24 (header ++ left_1)
      ≡ returns ((header ++ entries) ++ left_2)
  unfolding left_2
  entries_step =
      store_image_entries-front others paths_at segments_at 24 header left_1
        (length-header payload_offset (length others)) (omega (arith, left_lengths.0)) (omega arith)
        (omega arith)

  segments_step :
      store_segment_lists others (24 + length others * 48) ((header ++ entries) ++ left_2)
      ≡ returns (((header ++ entries) ++ all_segment_addresses others) ++ left_3)
  unfolding left_3
  segments_step =
      store_segment_lists-front others (24 + length others * 48) (header ++ entries) left_2
        (omega (
          arith,
          length-append header entries,
          length-header payload_offset (length others),
          length-image_entries others paths_at segments_at,
        ))
        (omega (arith, left_lengths.1))

  paths_step :
      store_paths others
        (24 + length others * 48 + segment_count others * 32)
        (((header ++ entries) ++ all_segment_addresses others) ++ left_3)
      ≡ returns (((header ++ entries) ++ all_segment_addresses others) ++ paths others)
  paths_step =
      store_paths-front others (24 + length others * 48 + segment_count others * 32)
        ((header ++ entries) ++ all_segment_addresses others) left_3
        (omega (
          arith,
          length-append (header ++ entries) (all_segment_addresses others),
          length-append header entries,
          length-header payload_offset (length others),
          length-image_entries others paths_at segments_at,
          length-all_segment_addresses others,
        ))
        (omega (arith, left_lengths.2))
      ∙ ap
          (λ l.
            returns ((((header ++ entries) ++ all_segment_addresses others) ++ paths others) ++ l))
          (drop_all (module_paths_size others) left_3 left_lengths.2)
      ∙ ap returns
          (append-nil (((header ++ entries) ++ all_segment_addresses others) ++ paths others))

  lay_out-parts :
      lay_out payload_offset (length others) others
      ≡ returns (((header ++ entries) ++ all_segment_addresses others) ++ paths others)
  unfolding blank
  lay_out-parts =
      rw
        (
          lay_out, paths_start-at, segments_start-at, header_step, ◌>>=◌, entries_step,
          segments_step, paths_behind,
        )
        paths_step

-- When exactly one module is the main executable, and the payload ends below 2 ^ 64 in the file,
-- CreateAllImageInfosPayload gives the header, the image entries, the addresses of all segments and
-- the paths of the other modules, one behind the other; the offsets in the entry of a module are
-- the places in the file of its own path and of its own segment addresses.
pub image_infos-parts :
    (payload_offset : ℕ) (first : ℕ × ModuleInfo) (rest : ModuleInfos) (others : List ModuleInfo)
    → other_modules (first ∷ rest) ≡ returns others
    → length others ≡ length rest
    → payload_offset + payload_size (length others) others < u64_mod
    → create_all_image_infos_payload payload_offset (first ∷ rest)
      ≡ returns (
          ((header_bytes payload_offset (length others)
              ++ image_entries others
                  (payload_offset + (24 + length others * 48) + segment_count others * 32)
                  (payload_offset + (24 + length others * 48)))
            ++ all_segment_addresses others)
          ++ paths others)
unfolding create_all_image_infos_payload
image_infos-parts payload_offset first rest others found one fits =
    rw (create_all_image_infos_payload, found)
      (ap (λ n. lay_out payload_offset n others) (sym one)
        ∙ lay_out-parts payload_offset others fits)
