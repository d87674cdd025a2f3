-- ===== src/Builder/OffsetBounds.antt =====
-- MachOCoreDumpBuilder.cpp: no offset that is found, under any name or address, lies behind the
-- payloads.
use mac_mini_dump.Prelude.{
  ℕ, ◌+◌, ◌≤◌, ◌<◌, ◌≡◌, refl, ap, List, [], ◌∷◌, Option, none, some, arith, inl, inr, Bool-cases,
  Option-cases,
}
use mac_mini_dump.Prelude.Words.{u64_mod, add64}
use mac_mini_dump.Builder.{
  Outcome, fault, returns, header_size, NoteCommand, Note, Segment, Builder,
}
use mac_mini_dump.Builder.Layout.{
  payload_total, file_total, notes_start, align_up, align_up_bounds, round_up-align_up,
}
use mac_mini_dump.Builder.Offsets.{
  round_up, owner_string, note_offset_from, segment_offset_from, last_note, or_zero, bind_offset,
  get_offset_for_note_command_payload, get_offset_for_segment_command_payload,
}

note_offset_from-le :
    (name : List ℕ) (a : ℕ) (notes : List Note) (p : ℕ)
    → a + payload_total notes < u64_mod
    → note_offset_from name a notes ≡ some p
    → p ≤ a + payload_total notes
unfolding note_offset_from
note_offset_from-le name a [] p w e = absurd (cc)
note_offset_from-le name a ((nc, q) ∷ notes) p w e =
    ground (arith, note_offset_from-le name (a + nc.size) notes p)

segment_offset_from-le :
    (v a : ℕ) (segments : List Segment) (p : ℕ)
    → a + file_total segments < u64_mod
    → segment_offset_from v a segments ≡ some p
    → p ≤ a + file_total segments
unfolding segment_offset_from
segment_offset_from-le v a [] p w e = absurd (cc)
segment_offset_from-le v a ((sc, q) ∷ segments) p w e =
    ground (arith, segment_offset_from-le v (a + sc.filesize) segments p)

last_note-size :
    (notes : List Note) (nc : NoteCommand)
    → last_note notes ≡ some nc
    → nc.size ≤ payload_total notes
last_note-size [] nc e = absurd (cc)
last_note-size ((mc, p) ∷ []) nc e = ground arith
last_note-size ((mc, p) ∷ y ∷ notes) nc e = omega (arith, last_note-size (y ∷ notes) nc e)

pub note_offset-le :
    (b : Builder) (name : List ℕ) (p : ℕ)
    → header_size + b.header.sizeofcmds + 16 + payload_total b.note_cmds < u64_mod
    → get_offset_for_note_command_payload name b ≡ returns (some p)
    → p ≤ notes_start b + payload_total b.note_cmds
unfolding get_offset_for_note_command_payload
note_offset-le b name p w e = elim (Bool-cases b.load_commands_finalized) [
  | inr open_still ↦ absurd (ground arith)
  | inl fin ↦
      let above = align_up_bounds (header_size + b.header.sizeofcmds) 15 in
      note_offset_from-le name (notes_start b) b.note_cmds p (omega (arith, above.1)) (
        ground (
          arith,
          round_up-align_up (header_size + b.header.sizeofcmds) 15 (omega (arith, above.1)),
        ))
]

-- What stands behind the last note's payload, whatever note its name leads to.
abbrev behind : Outcome (Option ℕ) → ℕ → (ℕ → Outcome (Option ℕ)) → Outcome (Option ℕ)
behind o size k = elim o [
  | fault ↦ fault
  | returns last_offset ↦ bind_offset (round_up (add64 (or_zero last_offset) size) 0x1000) k
]

found-le :
    (bound : ℕ) (found : Option ℕ) → ((q : ℕ) → found ≡ some q → q ≤ bound) → or_zero found ≤ bound
found-le bound none k = omega arith
found-le bound (some q) k = k q refl

found_bound :
    (o : Outcome (Option ℕ)) (size v bound p : ℕ) (segments : List Segment)
    → ((q : ℕ) → o ≡ returns (some q) → q ≤ bound)
    → bound + size + 0x1000 + file_total segments < u64_mod
    → behind o size (λ a. returns (segment_offset_from v a segments)) ≡ returns (some p)
    → p ≤ bound + size + 0x1000 + file_total segments
found_bound fault size v bound p segments k w e = absurd (cc)
found_bound (returns found) size v bound p segments k w e =
    let start = add64 (or_zero found) size in
    let above = align_up_bounds start 0xfff in
    let below = found-le bound found (λ q same. k q (ap returns same)) in
    let found_p =
      segment_offset_from-le v (align_up start 0x1000) segments p (omega (arith, below, above.1))
        (ground (arith, round_up-align_up start 0xfff (omega (arith, below, above.1)), e)) in
    omega (arith, below, above.1, found_p)

pub segment_offset-le :
    (b : Builder) (v p : ℕ)
    → header_size
        + b.header.sizeofcmds
        + 16
        + (payload_total b.note_cmds + payload_total b.note_cmds)
        + 0x1000
        + file_total b.segment_cmds
      < u64_mod
    → get_offset_for_segment_command_payload v b ≡ returns (some p)
    → p
      ≤ notes_start b
        + (payload_total b.note_cmds + payload_total b.note_cmds)
        + 0x1000
        + file_total b.segment_cmds
unfolding get_offset_for_segment_command_payload
segment_offset-le b v p w e = elim (Bool-cases b.load_commands_finalized) [
  | inr open_still ↦ absurd (ground arith)
  | inl fin ↦ elim (Option-cases (last_note b.note_cmds)) [
    | inl empty ↦ absurd (ground arith)
    | inr (nc, last) ↦
        let above = align_up_bounds (header_size + b.header.sizeofcmds) 15 in
        let size = last_note-size b.note_cmds nc last in
        let p-le =
          found_bound (get_offset_for_note_command_payload (owner_string nc) b) nc.size v
            (notes_start b + payload_total b.note_cmds) p b.segment_cmds
            (λ q. note_offset-le b (owner_string nc) q (omega arith)) (omega (arith, above.1, size))
            (rw (fin, get_offset_for_segment_command_payload, last) at e) in
        omega (arith, p-le, size)
  ]
]
