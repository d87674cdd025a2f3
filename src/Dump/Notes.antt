-- ===== src/Dump/Notes.antt =====
-- AddNotesToCore (MacMiniDump.cpp): the notes that it adds to the builder.
use mac_mini_dump.Prelude.{
  ℕ, ◌≡◌, ◌≢◌, refl, sym, ◌∙◌, ap, Bool, true, false, List, [], ◌∷◌, ◌++◌, Option, none, arith, ltb,
  length, if◌then◌else◌,
}
use mac_mini_dump.Bytes.{same_string, same_string_refl, NoNul}
use mac_mini_dump.ProcessStrings.{has_nul}
use mac_mini_dump.DataAccess.{DataProvider}
use mac_mini_dump.Builder.{Builder, Note, new_note, add_note_command}
use mac_mini_dump.Builder.Names.{HaveNames}
use mac_mini_dump.Builder.Layout.{DistinctNames}
use mac_mini_dump.Dump.{
  addrable_bits_owner, all_image_infos_owner, main_bin_spec_owner, process_metadata_owner,
  add_notes_to_core,
}

add_note_open :
    (owner : List ℕ) (provider : Option DataProvider) (b : Builder)
    → b.load_commands_finalized ≡ false
    → ltb 16 (length owner) ≡ false
    → (add_note_command owner provider b).0
      ≡ record b { note_cmds = b.note_cmds ++ new_note owner provider ∷ [] }
unfolding add_note_command
add_note_open owner provider b f h = ap (λ r. (result r).0) f ∙ ap (λ r. (short r).0) h
  where
    short : Bool → Builder × Bool
    short r =
        if r
        then (b, false)
        else (record b { note_cmds = b.note_cmds ++ new_note owner provider ∷ [] }, true)

    result : Bool → Builder × Bool
    result r = if r then (b, false) else short (ltb 16 (length owner))

abbrev pub owners : List (List ℕ)
owners =
    addrable_bits_owner ∷ all_image_infos_owner ∷ main_bin_spec_owner ∷ process_metadata_owner ∷ []

abbrev pub four_notes : List Note
four_notes =
    new_note addrable_bits_owner none
    ∷ new_note all_image_infos_owner none
    ∷ new_note main_bin_spec_owner none
    ∷ new_note process_metadata_owner none
    ∷ []

differ : (s t : List ℕ) → same_string t s ≡ false → t ≢ s
differ s t h e = apart (sym h ∙ same)
  where
    apart : false ≡ true → ⊥
    apart q = cc

    same : same_string t s ≡ true
    same = ap (λ l. same_string l s) e ∙ same_string_refl s

pub owners-DistinctNames : DistinctNames owners
unfolding same_string
owners-DistinctNames = (
  (
    differ addrable_bits_owner all_image_infos_owner refl,
    (
      differ addrable_bits_owner main_bin_spec_owner refl,
      (differ addrable_bits_owner process_metadata_owner refl, tt),
    ),
  ),
  (
    (
      differ all_image_infos_owner main_bin_spec_owner refl,
      (differ all_image_infos_owner process_metadata_owner refl, tt),
    ),
    ((differ main_bin_spec_owner process_metadata_owner refl, tt), (tt, tt)),
  ),
)

has_nul-NoNul : (s : List ℕ) → has_nul s ≡ false → NoNul s
has_nul-NoNul [] h = tt
has_nul-NoNul (c ∷ s) h = (ground arith, has_nul-NoNul s (ground arith))

pub four_notes-HaveNames : HaveNames owners four_notes
four_notes-HaveNames = (
  (has_nul-NoNul addrable_bits_owner refl, omega arith),
  refl,
  (
    (has_nul-NoNul all_image_infos_owner refl, omega arith),
    refl,
    (
      (has_nul-NoNul main_bin_spec_owner refl, omega arith),
      refl,
      ((has_nul-NoNul process_metadata_owner refl, omega arith), refl, tt),
    ),
  ),
)

pub add_notes_to_core-four :
    (b : Builder)
    → b.load_commands_finalized ≡ false
    → b.note_cmds ≡ []
    → add_notes_to_core b ≡ (record b { note_cmds = four_notes }, true)
unfolding add_notes_to_core
add_notes_to_core-four b f n =
    ap (λ x. (x, true)) (steps ∙ ap (λ l. record b { note_cmds = l }) at_end)
  where
    adds : List ℕ → Builder → Builder
    adds owner x = (add_note_command owner none x).0

    b1 : Builder
    b1 = record b { note_cmds = b.note_cmds ++ new_note addrable_bits_owner none ∷ [] }

    b2 : Builder
    b2 = record b { note_cmds = b1.note_cmds ++ new_note all_image_infos_owner none ∷ [] }

    b3 : Builder
    b3 = record b { note_cmds = b2.note_cmds ++ new_note main_bin_spec_owner none ∷ [] }

    steps :
        adds process_metadata_owner
          (adds main_bin_spec_owner (adds all_image_infos_owner (adds addrable_bits_owner b)))
        ≡ record b { note_cmds = b3.note_cmds ++ new_note process_metadata_owner none ∷ [] }
    steps =
        ap
          (λ x.
            adds process_metadata_owner (adds main_bin_spec_owner (adds all_image_infos_owner x)))
          (add_note_open addrable_bits_owner none b f refl)
        ∙ ap (λ x. adds process_metadata_owner (adds main_bin_spec_owner x))
            (add_note_open all_image_infos_owner none b1 f refl)
        ∙ ap (adds process_metadata_owner) (add_note_open main_bin_spec_owner none b2 f refl)
        ∙ add_note_open process_metadata_owner none b3 f refl

    at_end : b3.note_cmds ++ new_note process_metadata_owner none ∷ [] ≡ four_notes
    at_end =
        ap
          (λ l.
            (((l ++ new_note addrable_bits_owner none ∷ [])
                ++ new_note all_image_infos_owner none ∷ [])
              ++ new_note main_bin_spec_owner none ∷ [])
            ++ new_note process_metadata_owner none ∷ [])
          n

-- On a builder that is not finalized and has no notes, AddNotesToCore adds four notes that wait for
-- their payloads, whose names are distinct and have at most 16 chars, in order, and changes nothing
-- else.
pub add_notes_to_core-owners :
    (b : Builder)
    → b.load_commands_finalized ≡ false
    → b.note_cmds ≡ []
    → (notes : List Note) × (add_notes_to_core b ≡ (record b { note_cmds = notes }, true))
      × HaveNames owners notes
      × DistinctNames owners
add_notes_to_core-owners b f n =
    (four_notes, add_notes_to_core-four b f n, four_notes-HaveNames, owners-DistinctNames)
