-- ===== src/Payloads/MainBinary.antt =====
-- CreateMainBinSpecPayload and GetPreferredTextAddress (MacMiniDump.cpp), against the slide of
-- ModuleList.cpp.
use mac_mini_dump.Prelude.{
  ℕ, zero, suc, ◌≤◌, ◌≡◌, refl, sym, ap, ◌∙◌, Bool, true, false, List, [], ◌∷◌, ◌++◌, Option, none,
  some, arith, inl, inr, Bool-cases, ◌==◌, length, drop, map, leb, length-take,
}
use mac_mini_dump.Prelude.Words.{sub64}
use mac_mini_dump.Bytes.{until_nul, same_string, name_back}
use mac_mini_dump.Outcome.{Outcome, fault, returns, ◌>>=◌, bytes_at, field}
use mac_mini_dump.Modules.{
  SegmentInfo, ModuleInfo, ModuleInfos, text_name, segment_info, segments_from,
  get_segments_of_module, get_uuid_of_module, has_name, segment_named, slide_of, slide_segment,
  module_of,
}
use mac_mini_dump.Payloads.{
  is_main_executable, text_address_from, get_preferred_text_address, main_bin_spec_bytes,
  create_main_bin_spec_payload,
}

-- A sequence that returns has returned at its first part.
bind-returns :
    {A B : Type 0} (o : Outcome A) (f : A → Outcome B) (b : B)
    → (o >>= f) ≡ returns b
    → (a : A) × (o ≡ returns a) × (f a ≡ returns b)
bind-returns fault f b h = cc
bind-returns (returns a) f b h = (a, refl, h)

returns_injective : {A : Type 0} {a b : A} → returns a ≡ returns b → a ≡ b
returns_injective {a = a} e = ap (λ o. elim o [ fault ↦ a | returns x ↦ x ]) e

read_length : (commands name : List ℕ) → bytes_at 8 16 commands ≡ returns name → length name ≤ 16
unfolding bytes_at
read_length commands name h = elim (Bool-cases (leb 24 (length commands))) [
  | inl there ↦
      omega (arith, ap length (returns_injective (rw there at h)), length-take 16 (drop 8 commands))
  | inr past ↦ let bad : fault ≡ returns name = rw past at h in cc
]

-- The address of the segment that was found, or 0.
abbrev pub address_or_zero : Option SegmentInfo → ℕ
address_or_zero none = 0
address_or_zero (some si) = si.address

abbrev Agrees : ℕ → List ℕ → List SegmentInfo → Type 0
Agrees n commands segments =
    text_address_from n commands ≡ returns (address_or_zero (segment_named text_name segments))

other_round :
    (n : ℕ) (commands : List ℕ) (cmd : ℕ) (segments : List SegmentInfo)
    → field 0 4 commands ≡ returns cmd
    → (cmd == 0x19) ≡ false
    → segments_from (suc n) commands ≡ returns segments
    → (size : ℕ) × (field 4 4 commands ≡ returns size)
      × (segments_from n (drop size commands) ≡ returns segments)
unfolding segments_from
other_round n commands cmd segments c other h =
    let (size, z, h') = bind-returns (field 4 4 commands) _ segments (rw (c, other) at h) in
    let (rest, r, e) = bind-returns (segments_from n (drop size commands)) _ segments h' in
    (size, z, r ∙ e)

-- What a round keeps of a segment command.
segment_round :
    (n : ℕ) (commands : List ℕ) (cmd : ℕ) (segments : List SegmentInfo)
    → field 0 4 commands ≡ returns cmd
    → (cmd == 0x19) ≡ true
    → segments_from (suc n) commands ≡ returns segments
    → (new : SegmentInfo) × (size : ℕ) × (rest : List SegmentInfo) × (segment_info commands
        ≡ returns new)
      × (field 4 4 commands ≡ returns size)
      × (segments_from n (drop size commands) ≡ returns rest)
      × (new ∷ rest ≡ segments)
unfolding segments_from
segment_round n commands cmd segments c segment h =
    let (found, f, h') =
      bind-returns (segment_info commands >>= λ new. returns (new ∷ [])) _ segments
        (rw (c, segment) at h) in
    let (new, s, g) = bind-returns (segment_info commands) _ found f in
    let (size, z, h'') = bind-returns (field 4 4 commands) _ segments h' in
    let (rest, r, e) = bind-returns (segments_from n (drop size commands)) _ segments h'' in
    (new, size, rest, s, z, r, ap (◌++ rest) (returns_injective g) ∙ returns_injective e)

-- The fields of a segment command that was read.
segment_fields :
    (commands : List ℕ) (new : SegmentInfo)
    → segment_info commands ≡ returns new
    → (name : List ℕ) × (bytes_at 8 16 commands ≡ returns name)
      × (until_nul new.segment_name ≡ until_nul name)
      × (field 24 8 commands ≡ returns new.address)
unfolding segment_info
segment_fields commands new h =
    let (name, b, h') = bind-returns (bytes_at 8 16 commands) _ new h in
    let (address, a, h'') = bind-returns (field 24 8 commands) _ new h' in
    let (size, z, e) = bind-returns (field 32 8 commands) _ new h'' in
    let same = returns_injective e in
    (
      name,
      b,
      ap (λ (si : SegmentInfo). until_nul si.segment_name) (sym same)
          ∙ name_back 16 name (read_length commands name b),
      a ∙ ap (λ (si : SegmentInfo). returns si.address) same,
    )

named_first :
    (new : SegmentInfo) (rest : List SegmentInfo)
    → has_name text_name new ≡ true
    → address_or_zero (segment_named text_name (new ∷ rest)) ≡ new.address
named_first new rest t = rw t

named_later :
    (new : SegmentInfo) (rest : List SegmentInfo)
    → has_name text_name new ≡ false
    → address_or_zero (segment_named text_name (new ∷ rest))
      ≡ address_or_zero (segment_named text_name rest)
named_later new rest t = rw t

abbrev address_in : List SegmentInfo → Outcome ℕ
address_in segments = returns (address_or_zero (segment_named text_name segments))

-- Both loops over the load commands find the same segment.
text_address_from-segments :
    (n : ℕ) (commands : List ℕ) (segments : List SegmentInfo)
    → segments_from n commands ≡ returns segments
    → text_address_from n commands ≡ address_in segments
unfolding text_address_from segments_from
text_address_from-segments zero commands segments h = ap address_in (returns_injective h)
text_address_from-segments (suc n) commands segments h =
    let (cmd, c, h') = bind-returns (field 0 4 commands) _ segments h in
    elim (Bool-cases (cmd == 0x19)) [
      | inr other ↦
          let (size, z, r) = other_round n commands cmd segments c other h in
          rw (text_address_from, c, other, z)
            (text_address_from-segments n (drop size commands) segments r)
      | inl segment ↦
          let (new, size, rest, s, z, r, e) = segment_round n commands cmd segments c segment h in
          let (name, b, u, a) = segment_fields commands new s in
          let as_read = ap (λ chars. same_string chars text_name) u in
          elim (Bool-cases (same_string (until_nul name) text_name)) [
            | inl named ↦
                rw (text_address_from, c, segment, b, named, a)
                  (ap returns (sym (named_first new rest (as_read ∙ named))) ∙ ap address_in e)
            | inr differs ↦
                rw (text_address_from, c, segment, b, differs, z)
                  (text_address_from-segments n (drop size commands) rest r
                    ∙ ap returns (sym (named_later new rest (as_read ∙ differs)))
                    ∙ ap address_in e)
          ]
    ]

-- No main executable.
abbrev pub AllOthers : ModuleInfos → Type 0
AllOthers [] = Unit {0}
AllOthers ((load_addr, mi) ∷ rest) = (is_main_executable mi ≡ returns false) × AllOthers rest

main_found :
    (before : ModuleInfos) (load_addr text : ℕ) (mi : ModuleInfo) (after : ModuleInfos)
    → AllOthers before
    → is_main_executable mi ≡ returns true
    → get_preferred_text_address mi ≡ returns text
    → create_main_bin_spec_payload (before ++ (load_addr, mi) ∷ after)
      ≡ returns (main_bin_spec_bytes (sub64 load_addr text) mi.uuid)
unfolding create_main_bin_spec_payload
main_found [] load_addr text mi after o m t = rw (create_main_bin_spec_payload, m, t)
main_found ((k, other) ∷ before) load_addr text mi after o m t =
    rw (create_main_bin_spec_payload, o.0) (main_found before load_addr text mi after o.1 m t)

-- What CreateModuleInfo makes of the bytes of a module.
made :
    (load_addr : ℕ) (path raw : List ℕ) (segments : List SegmentInfo) (mi : ModuleInfo)
    → get_segments_of_module raw ≡ returns segments
    → module_of load_addr path raw ≡ returns mi
    → (mi.header_and_load_command_bytes ≡ raw)
      × (mi.segments ≡ map (slide_segment (slide_of load_addr segments)) segments)
made load_addr path raw segments mi s m =
    let (uuid, u, e) = bind-returns (get_uuid_of_module raw) _ mi (rw s at m) in
    let same = sym (returns_injective e) in
    (
      ap (λ (x : ModuleInfo). x.header_and_load_command_bytes) same,
      ap (λ (x : ModuleInfo). x.segments) same,
    )

preferred-segments :
    (mi : ModuleInfo) (raw : List ℕ) (segments : List SegmentInfo)
    → mi.header_and_load_command_bytes ≡ raw
    → get_segments_of_module raw ≡ returns segments
    → get_preferred_text_address mi ≡ address_in segments
unfolding get_preferred_text_address get_segments_of_module
preferred-segments mi raw segments e h =
    let (ncmds, c, h') = bind-returns (field 16 4 raw) _ segments h in
    ap (λ bytes. field 16 4 bytes >>= λ n. text_address_from n (drop 32 bytes)) e
    ∙ rw c (text_address_from-segments ncmds (drop 32 raw) segments h')

slide_found :
    (load_addr : ℕ) (segments : List SegmentInfo) (text : SegmentInfo)
    → segment_named text_name segments ≡ some text
    → slide_of load_addr segments ≡ sub64 load_addr text.address
slide_found load_addr segments text named = rw (slide_of, named)

-- When a list holds the main executable behind other modules, as CreateModuleInfo made it of its
-- bytes and whether it was marked as executing since or not, and it has a __TEXT segment, the slide
-- in the payload of CreateMainBinSpecPayload is the one by which CreateModuleInfo moved its
-- segments.
pub main_bin_spec-slide :
    (before after : ModuleInfos) (load_addr : ℕ) (path raw : List ℕ) (segments : List SegmentInfo)
    (text : SegmentInfo) (mi : ModuleInfo) (executing : Bool)
    → AllOthers before
    → get_segments_of_module raw ≡ returns segments
    → segment_named text_name segments ≡ some text
    → module_of load_addr path raw ≡ returns mi
    → is_main_executable mi ≡ returns true
    → (slide : ℕ) × (create_main_bin_spec_payload
          (before ++ (load_addr, record mi { executing = executing }) ∷ after)
        ≡ returns (main_bin_spec_bytes slide mi.uuid))
      × (mi.segments ≡ map (slide_segment slide) segments)
unfolding is_main_executable
main_bin_spec-slide before after load_addr path raw segments text mi executing o s named m main =
    let (bytes, moved) = made load_addr path raw segments mi s m in
    (
      slide_of load_addr segments,
      main_found before load_addr text.address (record mi { executing = executing }) after o main
            (preferred-segments (record mi { executing = executing }) raw segments bytes s
              ∙ ap (λ found. returns (address_or_zero found)) named)
          ∙ ap (λ d. returns (main_bin_spec_bytes d mi.uuid))
              (sym (slide_found load_addr segments text named)),
      moved,
    )
