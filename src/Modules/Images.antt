-- ===== src/Modules/Images.antt =====
-- ModuleList.cpp: the slide of a module, and the constructor.
use mac_mini_dump.Prelude.{
  ℕ, ◌+◌, ◌<◌, ◌≡◌, sym, ◌∙◌, ap, inl, inr, true, false, List, [], ◌∷◌, map, Option, none, some,
  arith, Bool-cases,
}
use mac_mini_dump.Prelude.Words.{u64_mod}
use mac_mini_dump.Bytes.{same_string, same_string-eq, until_nul}
use mac_mini_dump.Outcome.{returns, ◌>>=◌, field}
use mac_mini_dump.DataAccess.{Memory, read_process_memory_into, read_process_memory}
use mac_mini_dump.Regions.{RegionReply}
use mac_mini_dump.SortedMap.Laws.{HasKey}
use mac_mini_dump.Modules.{
  SegmentInfo, ModuleInfo, ModuleInfos, text_name, page_zero_name, has_name, segment_named,
  get_text_segment_of_module, slide_of, slide_segment, module_of, get_segments_of_module,
  get_uuid_of_module, create_module_info, create_module_info_at, DyldImageInfo,
}

some_injective : {A : Type 0} {a b : A} → some a ≡ some b → a ≡ b
some_injective {a = a} e = ap (λ o. elim o [ none ↦ a | some x ↦ x ]) e

abbrev pub InWord : List SegmentInfo → Type 0
InWord [] = Unit {0}
InWord (si ∷ rest) = (si.address < u64_mod) × InWord rest

not_page_zero :
    (si : SegmentInfo) → has_name text_name si ≡ true → has_name page_zero_name si ≡ false
unfolding same_string
not_page_zero si h =
    ap (λ s. same_string s page_zero_name) (same_string-eq (until_nul si.segment_name) text_name h)

slide-has_name :
    (name : List ℕ) (slide : ℕ) (si : SegmentInfo)
    → has_name name (slide_segment slide si) ≡ has_name name si
slide-has_name name slide si = elim (Bool-cases (has_name page_zero_name si)) [
  | inl zero_page ↦ rw zero_page
  | inr moved ↦ rw moved
]

slide-named :
    (name : List ℕ) (slide : ℕ) (segments : List SegmentInfo) (si : SegmentInfo)
    → segment_named name segments ≡ some si
    → segment_named name (map (slide_segment slide) segments) ≡ some (slide_segment slide si)
slide-named name slide [] si h = cc
slide-named name slide (s ∷ segments) si h = elim (Bool-cases (has_name name s)) [
  | inl here ↦
      rw (slide-has_name name slide s, here)
        (ap (λ (t : SegmentInfo). some (slide_segment slide t)) (some_injective (rw here at h)))
  | inr further ↦
      rw (slide-has_name name slide s, further)
        (slide-named name slide segments si (rw further at h))
]

named_test :
    (name : List ℕ) (segments : List SegmentInfo) (si : SegmentInfo)
    → segment_named name segments ≡ some si
    → InWord segments
    → (has_name name si ≡ true) × (si.address < u64_mod)
named_test name [] si h w = cc
named_test name (s ∷ segments) si h w = elim (Bool-cases (has_name name s)) [
  | inl here ↦ ap_found here (rw here at h) w.0
  | inr further ↦ named_test name segments si (rw further at h) w.1
]
  where
    ap_found :
        has_name name s ≡ true
        → some s ≡ some si
        → s.address < u64_mod
        → (has_name name si ≡ true) × (si.address < u64_mod)
    ap_found here e small =
        let same : s ≡ si = some_injective e in
        (
          sym (ap (has_name name) same) ∙ here,
          omega (arith, ap (λ (t : SegmentInfo). t.address) same),
        )

-- The segments of a created module. When both reads of the task succeed, the load commands can be
-- parsed, and all addresses are below 2 ^ 64, CreateModuleInfo succeeds: the __TEXT segment, if
-- there is one, begins at the load address, and __PAGEZERO stays where it is.
pub create-slide :
    (memory : Memory) (load_address sizeofcmds : ℕ) (path header raw uuid : List ℕ)
    (segments : List SegmentInfo)
    → memory load_address 32 ≡ some header
    → field 20 4 header ≡ returns sizeofcmds
    → memory load_address (32 + sizeofcmds) ≡ some raw
    → get_segments_of_module raw ≡ returns segments
    → get_uuid_of_module raw ≡ returns uuid
    → load_address < u64_mod
    → InWord segments
    → (mi : ModuleInfo) × (create_module_info memory load_address path ≡ returns (some mi))
      × ((si : SegmentInfo)
          → segment_named text_name segments ≡ some si
          → get_text_segment_of_module mi ≡ some (record si { address = load_address }))
      × ((si : SegmentInfo)
          → segment_named page_zero_name segments ≡ some si
          → segment_named page_zero_name mi.segments ≡ some si)
unfolding create_module_info get_text_segment_of_module read_process_memory read_process_memory_into
create-slide memory load_address sizeofcmds path header raw uuid segments h f r s u l w = (
  record {
    load_address = load_address;
    uuid = uuid;
    file_path = path;
    segments = map (slide_segment (slide_of load_address segments)) segments;
    executing = false;
    header_and_load_command_bytes = raw;
  },
  rw (
    create_module_info, read_process_memory_into, ◌>>=◌, read_process_memory, module_of, h, f, r, s,
    u,
  ),
  λ si named. text_moved si named (named_test text_name segments si named w),
  λ si named.
      let (test, small) = named_test page_zero_name segments si named w in
      slide-named page_zero_name (slide_of load_address segments) segments si named ∙ rw test,
)
  where
    text_moved :
        (si : SegmentInfo)
        → segment_named text_name segments ≡ some si
        → (has_name text_name si ≡ true) × (si.address < u64_mod)
        → segment_named text_name (map (slide_segment (slide_of load_address segments)) segments)
          ≡ some (record si { address = load_address })
    text_moved si named (test, small) =
        slide-named text_name (slide_of load_address segments) segments si named
        ∙ rw (not_page_zero si test, slide_of, named)
            (ap (λ a. some (record si { address = a })) (omega arith))

-- What the creation of each image gives, in order: it is no fault.
module _ (memory : Memory) (region_recurse : ℕ → ℕ → Option RegionReply) where
  abbrev pub Creates : List DyldImageInfo → List (Option ModuleInfo) → Type 0
  Creates [] [] = Unit {0}
  Creates [] (o ∷ os) = ⊥
  Creates (image ∷ images) [] = ⊥
  Creates (image ∷ images) (o ∷ os) =
      (create_module_info_at memory region_recurse image.image_load_address image.image_file_path
        ≡ returns o)
      × Creates images os

  -- Every creation succeeded.
  abbrev pub AllMade : List (Option ModuleInfo) → Type 0
  AllMade [] = Unit {0}
  AllMade (none ∷ os) = ⊥
  AllMade (some mi ∷ os) = AllMade os

  abbrev pub HasImages : List (Option ModuleInfo) → ModuleInfos → Type 0
  HasImages [] modules = Unit {0}
  HasImages (none ∷ os) modules = HasImages os modules
  HasImages (some mi ∷ os) modules = HasKey mi.load_address modules × HasImages os modules
