-- ===== src/Payloads/Store.antt =====
-- CreateAllImageInfosPayload (MacMiniDump.cpp): the `memcpy`s of its loops.
use mac_mini_dump.Prelude.{
  ℕ, zero, suc, ◌+◌, ◌*◌, ◌≤◌, ◌<◌, ◌≡◌, refl, sym, ◌∙◌, ap, true, List, [], ◌∷◌, ◌++◌, arith, leb,
  length, length-append, drop, length-drop,
}
use mathlib.Core.List.{append_assoc, append-nil}
use mac_mini_dump.Prelude.Words.{u64_mod, add64}
use mac_mini_dump.Bytes.{le_bytes, padded, length-padded, until_nul}
use mac_mini_dump.Outcome.{returns, ◌>>=◌, take_past, drop_past}
use mac_mini_dump.Modules.{SegmentInfo, ModuleInfo}
use mac_mini_dump.Payloads.{
  executing_flag, image_entry_bytes, segment_vmaddr_bytes, module_paths_size, segment_count, store,
  store_image_entries, store_segments, store_segment_lists, store_paths,
}

drop-nil : (k : ℕ) → drop {A = ℕ} k [] ≡ []
drop-nil zero = refl
drop-nil (suc k) = refl

pub drop_more : (n k m : ℕ) (xs : List ℕ) → n + k ≡ m → drop k (drop n xs) ≡ drop m xs
drop_more zero k m xs e = ap (λ j. drop j xs) (omega arith)
drop_more (suc n) k zero xs e = absurd (omega arith)
drop_more (suc n) k (suc m) [] e = drop-nil k
drop_more (suc n) k (suc m) (x ∷ xs) e = drop_more n k m xs (omega arith)

-- A `memcpy` right behind what is done.
pub store_front :
    (done bytes rest : List ℕ) (offset n : ℕ)
    → length done ≡ offset
    → length bytes ≡ n
    → n ≤ length rest
    → store offset bytes (done ++ rest) ≡ returns ((done ++ bytes) ++ drop n rest)
unfolding store
store_front done bytes rest offset n h k w =
    rw (fits, take_past done rest offset h, behind)
      (ap returns (sym (append_assoc done bytes (drop n rest))))
  where
    fits : leb (offset + length bytes) (length (done ++ rest)) ≡ true
    fits = ground (arith, length-append done rest)

    behind : drop (offset + length bytes) (done ++ rest) ≡ drop n rest
    behind =
        sym (drop_more offset n (offset + length bytes) (done ++ rest) (omega arith))
        ∙ ap (drop n) (drop_past done rest offset h)

-- One step of a loop that stores `bytes` and goes on with `later`.
then_more :
    (done bytes later rest : List ℕ) (n k m : ℕ)
    → n + k ≡ m
    → ((done ++ bytes) ++ later) ++ drop k (drop n rest) ≡ (done ++ (bytes ++ later)) ++ drop m rest
then_more done bytes later rest n k m e =
    ap (λ l. ((done ++ bytes) ++ later) ++ l) (drop_more n k m rest e)
    ∙ ap (λ l. l ++ drop m rest) (append_assoc done bytes later)

-- The image entries, when the paths begin at `p` and the segment addresses at `s`.
abbrev pub image_entries : List ModuleInfo → ℕ → ℕ → List ℕ
image_entries [] p s = []
image_entries (mi ∷ rest) p s =
    image_entry_bytes mi p s
    ++ image_entries rest (p + (length mi.file_path + 1)) (s + length mi.segments * 32)

abbrev pub segment_addresses : List SegmentInfo → List ℕ
segment_addresses [] = []
segment_addresses (si ∷ rest) = segment_vmaddr_bytes si ++ segment_addresses rest

abbrev pub all_segment_addresses : List ModuleInfo → List ℕ
all_segment_addresses [] = []
all_segment_addresses (mi ∷ rest) = segment_addresses mi.segments ++ all_segment_addresses rest

abbrev pub paths : List ModuleInfo → List ℕ
paths [] = []
paths (mi ∷ rest) = (mi.file_path ++ 0 ∷ []) ++ paths rest

pub length-image_entry : (mi : ModuleInfo) (p s : ℕ) → length (image_entry_bytes mi p s) ≡ 48
unfolding le_bytes
length-image_entry mi p s = omega (
  arith,
  length-append (padded 16 mi.uuid) (
      le_bytes 8 mi.load_address
      ++ (le_bytes 8 s
          ++ (le_bytes 4 (length mi.segments) ++ le_bytes 4 (executing_flag mi.executing)))),
  length-padded 16 mi.uuid,
)

length-segment_vmaddr : (si : SegmentInfo) → length (segment_vmaddr_bytes si) ≡ 32
unfolding le_bytes
length-segment_vmaddr si = omega (
  arith,
  length-append (padded 16 (until_nul si.segment_name)) (le_bytes 8 si.address ++ le_bytes 8 0),
  length-padded 16 (until_nul si.segment_name),
)

pub store_image_entries-front :
    (others : List ModuleInfo) (p s offset : ℕ) (done rest : List ℕ)
    → length done ≡ offset
    → length others * 48 ≤ length rest
    → p + module_paths_size others < u64_mod
    → s + segment_count others * 32 < u64_mod
    → store_image_entries others p s offset (done ++ rest)
      ≡ returns ((done ++ image_entries others p s) ++ drop (length others * 48) rest)
unfolding store_image_entries
store_image_entries-front [] p s offset done rest h k w v =
    ap returns (ap (λ l. l ++ rest) (sym (append-nil done)))
store_image_entries-front (mi ∷ others) p s offset done rest h k w v =
    ap
      (λ m.
        m
        >>= store_image_entries others (add64 p (length mi.file_path + 1))
            (add64 s (length mi.segments * 32)) (offset + 48))
      (store_front done (image_entry_bytes mi p s) rest offset 48 h (length-image_entry mi p s)
        (omega arith))
    ∙ ap
        (λ q.
          store_image_entries others q (add64 s (length mi.segments * 32)) (offset + 48)
            ((done ++ image_entry_bytes mi p s) ++ drop 48 rest))
        next_path
    ∙ ap
        (λ q.
          store_image_entries others (p + (length mi.file_path + 1)) q (offset + 48)
            ((done ++ image_entry_bytes mi p s) ++ drop 48 rest))
        next_segments
    ∙ store_image_entries-front others (p + (length mi.file_path + 1)) (s + length mi.segments * 32)
        (offset + 48) (done ++ image_entry_bytes mi p s) (drop 48 rest)
        (omega (arith, length-append done (image_entry_bytes mi p s), length-image_entry mi p s))
        (omega (arith, length-drop 48 rest)) (omega arith) (omega arith)
    ∙ ap returns (
        then_more done (image_entry_bytes mi p s) _ rest 48 (length others * 48)
          (suc (length others) * 48) (omega arith))
  where
    next_path : add64 p (length mi.file_path + 1) ≡ p + (length mi.file_path + 1)
    next_path = omega arith

    next_segments : add64 s (length mi.segments * 32) ≡ s + length mi.segments * 32
    next_segments = omega arith

store_segments-front :
    (segments : List SegmentInfo) (offset : ℕ) (done rest : List ℕ)
    → length done ≡ offset
    → length segments * 32 ≤ length rest
    → store_segments segments offset (done ++ rest)
      ≡ returns ((done ++ segment_addresses segments) ++ drop (length segments * 32) rest)
unfolding store_segments
store_segments-front [] offset done rest h k =
    ap returns (ap (λ l. l ++ rest) (sym (append-nil done)))
store_segments-front (si ∷ segments) offset done rest h k =
    ap (λ m. m >>= store_segments segments (offset + 32))
      (store_front done (segment_vmaddr_bytes si) rest offset 32 h (length-segment_vmaddr si)
        (omega arith))
    ∙ store_segments-front segments (offset + 32) (done ++ segment_vmaddr_bytes si) (drop 32 rest)
        (omega (arith, length-append done (segment_vmaddr_bytes si), length-segment_vmaddr si))
        (omega (arith, length-drop 32 rest))
    ∙ ap returns (
        then_more done (segment_vmaddr_bytes si) _ rest 32 (length segments * 32)
          (suc (length segments) * 32) (omega arith))

pub length-segment_addresses :
    (segments : List SegmentInfo) → length (segment_addresses segments) ≡ length segments * 32
length-segment_addresses [] = omega arith
length-segment_addresses (si ∷ segments) = omega (
  arith,
  length-append (segment_vmaddr_bytes si) (segment_addresses segments),
  length-segment_vmaddr si,
  length-segment_addresses segments,
)

pub store_segment_lists-front :
    (others : List ModuleInfo) (offset : ℕ) (done rest : List ℕ)
    → length done ≡ offset
    → segment_count others * 32 ≤ length rest
    → store_segment_lists others offset (done ++ rest)
      ≡ returns ((done ++ all_segment_addresses others) ++ drop (segment_count others * 32) rest)
unfolding store_segment_lists
store_segment_lists-front [] offset done rest h k =
    ap returns (ap (λ l. l ++ rest) (sym (append-nil done)))
store_segment_lists-front (mi ∷ others) offset done rest h k =
    ap (λ m. m >>= store_segment_lists others (offset + length mi.segments * 32))
      (store_segments-front mi.segments offset done rest h (omega arith))
    ∙ store_segment_lists-front others (offset + length mi.segments * 32)
        (done ++ segment_addresses mi.segments) (drop (length mi.segments * 32) rest)
        (omega (
          arith,
          length-append done (segment_addresses mi.segments),
          length-segment_addresses mi.segments,
        ))
        (omega (arith, length-drop (length mi.segments * 32) rest))
    ∙ ap returns (
        then_more done (segment_addresses mi.segments) _ rest (length mi.segments * 32)
          (segment_count others * 32) ((length mi.segments + segment_count others) * 32)
          (omega arith))

pub store_paths-front :
    (others : List ModuleInfo) (offset : ℕ) (done rest : List ℕ)
    → length done ≡ offset
    → module_paths_size others ≤ length rest
    → store_paths others offset (done ++ rest)
      ≡ returns ((done ++ paths others) ++ drop (module_paths_size others) rest)
unfolding store_paths
store_paths-front [] offset done rest h k = ap returns (ap (λ l. l ++ rest) (sym (append-nil done)))
store_paths-front (mi ∷ others) offset done rest h k =
    ap (λ m. m >>= store_paths others (offset + (length mi.file_path + 1)))
      (store_front done (mi.file_path ++ 0 ∷ []) rest offset (length mi.file_path + 1) h
        (length-append mi.file_path (0 ∷ [])) (omega arith))
    ∙ store_paths-front others (offset + (length mi.file_path + 1))
        (done ++ (mi.file_path ++ 0 ∷ [])) (drop (length mi.file_path + 1) rest)
        (omega
          (arith, length-append done (mi.file_path ++ 0 ∷ []), length-append mi.file_path (0 ∷ [])))
        (omega (arith, length-drop (length mi.file_path + 1) rest))
    ∙ ap returns (
        then_more done (mi.file_path ++ 0 ∷ []) _ rest (length mi.file_path + 1)
          (module_paths_size others) (length mi.file_path + 1 + module_paths_size others)
          (omega arith))
