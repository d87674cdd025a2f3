-- ===== src/Payloads/Reader.antt =====
-- CreateAllImageInfosPayload (MacMiniDump.cpp), as a debugger reads it: the header leads to the
-- entries, and an entry to the path and the segments of its image.
use mac_mini_dump.Prelude.{
  ℕ, zero, suc, ◌-◌, ◌≤◌, ◌<◌, ◌≡◌, refl, ◌∙◌, ap, Bool, true, false, List, [], ◌∷◌, ◌++◌, map,
  arith, ◌==◌, length, take, drop,
}
use mathlib.Core.List.{append_assoc}
use mac_mini_dump.Prelude.Words.{u64_mod, u32_mod}
use mac_mini_dump.Bytes.{le_bytes, from_le, padded, until_nul, length-padded, NoNul, name_back}
use mac_mini_dump.Outcome.{from_le-le_bytes, take_past, drop_past}
use mac_mini_dump.Modules.{SegmentInfo, ModuleInfo}
use mac_mini_dump.Payloads.{image_entry_bytes, segment_vmaddr_bytes, executing_flag}
use mac_mini_dump.Payloads.Store.{segment_addresses}

pub record Image : Type 0 where
  pub path : List ℕ
  pub uuid : List ℕ
  pub load_address : ℕ
  pub segments : List (List ℕ × ℕ)
  pub executing : Bool

-- Names and addresses of so many segments.
abbrev pub read_segments : ℕ → List ℕ → List (List ℕ × ℕ)
read_segments zero bytes = []
read_segments (suc n) bytes =
    let numbers = drop 16 bytes in
    (until_nul (take 16 bytes), from_le (take 8 numbers)) ∷ read_segments n (drop 16 numbers)

module _ (payload_offset : ℕ) (payload : List ℕ) where
  -- What stands at an offset of the file.
  abbrev pub at_offset : ℕ → List ℕ
  at_offset offset = drop (offset - payload_offset) payload

  -- The numbers of an entry stand behind its UUID.
  abbrev image_from : ℕ → List ℕ → List ℕ → Image
  image_from path_offset uuid numbers = record {
    path = until_nul (at_offset path_offset);
    uuid = uuid;
    load_address = from_le (take 8 numbers);
    segments =
        read_segments (from_le (take 4 (drop 16 numbers)))
          (at_offset (from_le (take 8 (drop 8 numbers))));
    executing = from_le (take 4 (drop 20 numbers)) == 1;
  }

  unfoldable pub read_images : ℕ → List ℕ → List Image
  read_images zero entries = []
  read_images (suc n) entries =
      let behind_path = drop 8 entries in
      let numbers = drop 16 behind_path in
      image_from (from_le (take 8 entries)) (take 16 behind_path) numbers
      ∷ read_images n (drop 24 numbers)

  -- The number of the images stands at 4, the offset of their entries at 8.
  abbrev pub read_image_infos : List Image
  read_image_infos =
      read_images (from_le (take 4 (drop 4 payload)))
        (at_offset (from_le (take 8 (drop 8 payload))))

-- What is to be read.
abbrev pub image_of : ModuleInfo → Image
image_of mi = record {
  path = mi.file_path;
  uuid = mi.uuid;
  load_address = mi.load_address;
  segments = map (λ (si : SegmentInfo). (until_nul si.segment_name, si.address)) mi.segments;
  executing = mi.executing;
}

abbrev pub Segments16 : List SegmentInfo → Type 0
Segments16 [] = Unit {0}
Segments16 (si ∷ rest) = (length si.segment_name ≤ 16) × (si.address < u64_mod) × Segments16 rest

-- The widths of the structures' fields.
abbrev pub Storable : ModuleInfo → Type 0
Storable mi =
    NoNul mi.file_path
    × (length mi.uuid ≡ 16)
    × (mi.load_address < u64_mod)
    × (length mi.segments < u32_mod)
    × Segments16 mi.segments

abbrev pub AllStorable : List ModuleInfo → Type 0
AllStorable [] = Unit {0}
AllStorable (mi ∷ rest) = Storable mi × AllStorable rest

-- A path is read up to its NUL.
until_nul-path : (path rest : List ℕ) → NoNul path → until_nul (path ++ 0 ∷ rest) ≡ path
unfolding until_nul
until_nul-path [] rest u = refl
until_nul-path (c ∷ path) rest u = ground (arith, until_nul-path path rest u.1)

padded_whole : (n : ℕ) (s : List ℕ) → length s ≡ n → padded n s ≡ s
unfolding padded
padded_whole zero [] h = refl
padded_whole zero (c ∷ s) h = absurd (omega arith)
padded_whole (suc n) [] h = absurd (omega arith)
padded_whole (suc n) (c ∷ s) h = ap (◌∷◌ c) (padded_whole n s (omega arith))

flag_back : (b : Bool) → (executing_flag b == 1) ≡ b
flag_back true = refl
flag_back false = refl

segment_read :
    (si : SegmentInfo) (rest : List ℕ) (n : ℕ)
    → length si.segment_name ≤ 16
    → si.address < u64_mod
    → read_segments (suc n) (segment_vmaddr_bytes si ++ rest)
      ≡ (until_nul si.segment_name, si.address) ∷ read_segments n rest
unfolding le_bytes
segment_read si rest n h k =
    let name : List ℕ = padded 16 (until_nul si.segment_name) in
    let numbers : List ℕ = le_bytes 8 si.address ++ le_bytes 8 0 in
    let whole = length-padded 16 (until_nul si.segment_name) in
    ap (read_segments (suc n)) (append_assoc name numbers rest)
    ∙ rw (take_past name (numbers ++ rest) 16 whole, drop_past name (numbers ++ rest) 16 whole)
        (ap (λ x. (x, from_le (le_bytes 8 si.address)) ∷ read_segments n rest)
            (name_back 16 si.segment_name h)
          ∙ ap (λ x. (until_nul si.segment_name, x) ∷ read_segments n rest)
              (from_le-le_bytes 8 si.address k))

segments_read :
    (segments : List SegmentInfo) (rest : List ℕ)
    → Segments16 segments
    → read_segments (length segments) (segment_addresses segments ++ rest)
      ≡ map (λ (si : SegmentInfo). (until_nul si.segment_name, si.address)) segments
segments_read [] rest f = refl
segments_read (si ∷ segments) rest (h, k, f) =
    ap (read_segments (suc (length segments)))
      (append_assoc (segment_vmaddr_bytes si) (segment_addresses segments) rest)
    ∙ segment_read si (segment_addresses segments ++ rest) (length segments) h k
    ∙ ap (◌∷◌ (until_nul si.segment_name, si.address)) (segments_read segments rest f)

module _ (payload_offset : ℕ) (payload : List ℕ) where
  abbrev image_at :
      (path_offset : ℕ) (uuid : List ℕ) (load_address seg_addrs_offset count flag : ℕ) → Image
  image_at path_offset uuid load_address seg_addrs_offset count flag = record {
    path = until_nul (at_offset payload_offset payload path_offset);
    uuid = uuid;
    load_address = load_address;
    segments = read_segments count (at_offset payload_offset payload seg_addrs_offset);
    executing = flag == 1;
  }

  image_same :
      {p q : ℕ} {u v : List ℕ} {a b s t c d f g : ℕ}
      → p ≡ q
      → u ≡ v
      → a ≡ b
      → s ≡ t
      → c ≡ d
      → f ≡ g
      → image_at p u a s c f ≡ image_at q v b t d g
  image_same h₁ h₂ h₃ h₄ h₅ h₆ = cc

  -- The module whose path and segments stand at the offsets.
  image_at-image_of :
      (mi : ModuleInfo) (p s : ℕ) (after_path after_segments : List ℕ)
      → Storable mi
      → at_offset payload_offset payload p ≡ mi.file_path ++ 0 ∷ after_path
      → at_offset payload_offset payload s ≡ segment_addresses mi.segments ++ after_segments
      → image_at p mi.uuid mi.load_address s (length mi.segments) (executing_flag mi.executing)
        ≡ image_of mi
  image_at-image_of mi p s after_path after_segments (u, l, a, c, f) there segments =
      ap
        (λ x. record {
          path = x;
          uuid = mi.uuid;
          load_address = mi.load_address;
          segments = read_segments (length mi.segments) (at_offset payload_offset payload s);
          executing = executing_flag mi.executing == 1;
        })
        (ap until_nul there ∙ until_nul-path mi.file_path after_path u)
      ∙ ap
          (λ x. record {
            path = mi.file_path;
            uuid = mi.uuid;
            load_address = mi.load_address;
            segments = x;
            executing = executing_flag mi.executing == 1;
          })
          (ap (read_segments (length mi.segments)) segments
            ∙ segments_read mi.segments after_segments f)
      ∙ ap (λ x. record (image_of mi) { executing = x }) (flag_back mi.executing)

  flag_small : (b : Bool) → executing_flag b < u32_mod
  flag_small true = omega arith
  flag_small false = omega arith

  pub entry_read :
      (mi : ModuleInfo) (p s n : ℕ) (rest after_path after_segments : List ℕ)
      → Storable mi
      → p < u64_mod
      → s < u64_mod
      → at_offset payload_offset payload p ≡ mi.file_path ++ 0 ∷ after_path
      → at_offset payload_offset payload s ≡ segment_addresses mi.segments ++ after_segments
      → read_images payload_offset payload (suc n) (image_entry_bytes mi p s ++ rest)
        ≡ image_of mi ∷ read_images payload_offset payload n rest
  unfolding read_images le_bytes
  entry_read mi p s n rest after_path after_segments (u, l, a, c, f) hp hs there segments =
      let uuid : List ℕ = padded 16 mi.uuid in
      let numbers : List ℕ =
        le_bytes 8 mi.load_address
        ++ (le_bytes 8 s
            ++ (le_bytes 4 (length mi.segments) ++ le_bytes 4 (executing_flag mi.executing))) in
      let whole = length-padded 16 mi.uuid in
      ap
        (λ l.
          image_from payload_offset payload (from_le (le_bytes 8 p)) (take 16 l) (drop 16 l)
          ∷ read_images payload_offset payload n (drop 24 (drop 16 l)))
        (append_assoc uuid numbers rest)
      ∙ rw (take_past uuid (numbers ++ rest) 16 whole, drop_past uuid (numbers ++ rest) 16 whole)
          (ap (λ x. x ∷ read_images payload_offset payload n rest)
            (image_same (from_le-le_bytes 8 p hp) (padded_whole 16 mi.uuid l)
                (from_le-le_bytes 8 mi.load_address a) (from_le-le_bytes 8 s hs)
                (from_le-le_bytes 4 (length mi.segments) c)
                (from_le-le_bytes 4 (executing_flag mi.executing) (flag_small mi.executing))
              ∙ image_at-image_of mi p s after_path after_segments (u, l, a, c, f) there segments))
