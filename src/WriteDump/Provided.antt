-- ===== src/WriteDump/Provided.antt =====
-- AddPayloadsAndWrite (MacMiniDump.cpp): the notes of AddNotesToCore get their payloads.
use mac_mini_dump.Prelude.{ℕ, ◌≡◌, refl, sym, ap, inr, List, [], ◌∷◌, ◌++◌, none, some, length}
use mac_mini_dump.Bytes.{padded}
use mac_mini_dump.DataAccess.{Memory, copied, get}
use mac_mini_dump.Builder.{Note, Builder, note_command_size, new_note}
use mac_mini_dump.Builder.Names.{IsName, HaveNames, Differs, provide-found}
use mac_mini_dump.Builder.Plan.{NotesReady}
use mac_mini_dump.Dump.{
  addrable_bits_owner, all_image_infos_owner, main_bin_spec_owner, process_metadata_owner,
}
use mac_mini_dump.Dump.Notes.{owners, four_notes, four_notes-HaveNames, owners-DistinctNames}
use mac_mini_dump.WriteDump.{provide}

-- A note with a payload that was copied.
abbrev pub note_with : List ℕ → List ℕ → Note
note_with owner bytes = (
  record {
    cmdsize = note_command_size;
    data_owner = padded 16 owner;
    offset = 0;
    size = length bytes;
  },
  some (record { size = length bytes; data_ptr = copied bytes }),
)

abbrev waiting : List ℕ → Note
waiting owner = new_note owner none

provide-waiting :
    (owner : List ℕ) (names : List (List ℕ)) (bytes : List ℕ) (b : Builder)
    (before after : List Note)
    → IsName owner
    → HaveNames names before
    → Differs owner names
    → provide owner bytes (record b { note_cmds = before ++ waiting owner ∷ after })
      ≡ record b { note_cmds = before ++ note_with owner bytes ∷ after }
provide-waiting owner names bytes b before after u h d =
    ap (λ r. r.0)
      (provide-found owner names (record { size = length bytes; data_ptr = copied bytes })
        (record b { note_cmds = before ++ waiting owner ∷ after }) before after (waiting owner).0
        none refl u refl (inr refl) h d)

-- The notes after each of the four calls.
abbrev pub notes_with_bits : List ℕ → List Note
notes_with_bits bits =
    note_with addrable_bits_owner bits
    ∷ waiting all_image_infos_owner
    ∷ waiting main_bin_spec_owner
    ∷ waiting process_metadata_owner
    ∷ []

abbrev pub notes_with_metadata : List ℕ → List ℕ → List Note
notes_with_metadata bits metadata =
    note_with addrable_bits_owner bits
    ∷ waiting all_image_infos_owner
    ∷ waiting main_bin_spec_owner
    ∷ note_with process_metadata_owner metadata
    ∷ []

abbrev pub notes_with_images : List ℕ → List ℕ → List ℕ → List Note
notes_with_images bits metadata images =
    note_with addrable_bits_owner bits
    ∷ note_with all_image_infos_owner images
    ∷ waiting main_bin_spec_owner
    ∷ note_with process_metadata_owner metadata
    ∷ []

abbrev pub all_notes : List ℕ → List ℕ → List ℕ → List ℕ → List Note
all_notes bits metadata images spec =
    note_with addrable_bits_owner bits
    ∷ note_with all_image_infos_owner images
    ∷ note_with main_bin_spec_owner spec
    ∷ note_with process_metadata_owner metadata
    ∷ []

pub provide_bits :
    (bits : List ℕ) (b : Builder)
    → provide addrable_bits_owner bits (record b { note_cmds = four_notes })
      ≡ record b { note_cmds = notes_with_bits bits }
provide_bits bits b =
    provide-waiting addrable_bits_owner [] bits b [] _ four_notes-HaveNames.0 tt tt

pub provide_metadata :
    (bits metadata : List ℕ) (b : Builder)
    → provide process_metadata_owner metadata (record b { note_cmds = notes_with_bits bits })
      ≡ record b { note_cmds = notes_with_metadata bits metadata }
provide_metadata bits metadata b =
    let n = four_notes-HaveNames in
    let d = owners-DistinctNames in
    provide-waiting process_metadata_owner
      (addrable_bits_owner ∷ all_image_infos_owner ∷ main_bin_spec_owner ∷ []) metadata b
      (note_with addrable_bits_owner bits
        ∷ waiting all_image_infos_owner
        ∷ waiting main_bin_spec_owner
        ∷ [])
      [] n.2.2.2.0 (n.0, refl, (n.2.0, refl, (n.2.2.0, refl, tt)))
      (λ e. d.0.1.1.0 (sym e), (λ e. d.1.0.1.0 (sym e), (λ e. d.1.1.0.0 (sym e), tt)))

pub provide_images :
    (bits metadata images : List ℕ) (b : Builder)
    → provide all_image_infos_owner images
        (record b { note_cmds = notes_with_metadata bits metadata })
      ≡ record b { note_cmds = notes_with_images bits metadata images }
provide_images bits metadata images b =
    let n = four_notes-HaveNames in
    provide-waiting all_image_infos_owner (addrable_bits_owner ∷ []) images b
      (note_with addrable_bits_owner bits ∷ []) _ n.2.0 (n.0, refl, tt)
      (λ e. owners-DistinctNames.0.0 (sym e), tt)

pub provide_spec :
    (bits metadata images spec : List ℕ) (b : Builder)
    → provide main_bin_spec_owner spec
        (record b { note_cmds = notes_with_images bits metadata images })
      ≡ record b { note_cmds = all_notes bits metadata images spec }
provide_spec bits metadata images spec b =
    let n = four_notes-HaveNames in
    provide-waiting main_bin_spec_owner (addrable_bits_owner ∷ all_image_infos_owner ∷ []) spec b
      (note_with addrable_bits_owner bits ∷ note_with all_image_infos_owner images ∷ []) _ n.2.2.0
      (n.0, refl, (n.2.0, refl, tt))
      (λ e. owners-DistinctNames.0.1.0 (sym e), (λ e. owners-DistinctNames.1.0.0 (sym e), tt))

pub all_notes-HaveNames :
    (bits metadata images spec : List ℕ) → HaveNames owners (all_notes bits metadata images spec)
all_notes-HaveNames bits metadata images spec =
    let n = four_notes-HaveNames in
    (n.0, refl, (n.2.0, refl, (n.2.2.0, refl, (n.2.2.2.0, refl, tt))))

pub metadata-HaveNames :
    (bits metadata : List ℕ) → HaveNames owners (notes_with_metadata bits metadata)
metadata-HaveNames bits metadata =
    let n = four_notes-HaveNames in
    (n.0, refl, (n.2.0, refl, (n.2.2.0, refl, (n.2.2.2.0, refl, tt))))

unfoldable pub all_notes-NotesReady :
    (memory : Memory) (bits metadata images spec : List ℕ)
    → NotesReady memory (all_notes bits metadata images spec)
unfolding get
all_notes-NotesReady memory bits metadata images spec = (
  (bits, refl, refl),
  refl,
  ((images, refl, refl), refl, ((spec, refl, refl), refl, ((metadata, refl, refl), refl, tt))),
)
