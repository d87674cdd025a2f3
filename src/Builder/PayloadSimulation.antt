-- ===== src/Builder/PayloadSimulation.antt =====
-- MachOCoreDumpBuilder::Build over two streams that behave alike: the loops over the payloads, and
-- the whole.
use mac_mini_dump.Prelude.{
  ℕ, zero, suc, ◌+◌, ◌≤◌, ◌<◌, ◌≡◌, refl, ap, Bool, true, false, List, [], ◌∷◌, Option, none, some,
  arith, ◌==◌, ◌%◌, ◌/◌, min, if◌then◌else◌,
}
use mac_mini_dump.Prelude.Words.{u64_mod, add64}
use mac_mini_dump.DataAccess.{Memory, DataPtr, get, get_at}
use mac_mini_dump.Stream.{OStream}
use mac_mini_dump.Builder.{
  Outcome, fault, returns, header_size, Note, Segment, Header, Builder, finalize_load_commands,
}
use mac_mini_dump.Builder.Layout.{payload_total, file_total, align_up_bounds}
use mac_mini_dump.Builder.Offsets.{
  owner_string, get_offset_for_note_command_payload, get_offset_for_segment_command_payload,
}
use mac_mini_dump.Builder.OffsetBounds.{note_offset-le, segment_offset-le}
use mac_mini_dump.Builder.Build.{
  Flow, crashes, ◌>>=◌, max_chunk_size, write_to_ostream, write_note_payload, write_note_payloads,
  write_chunks, write_segment_payload, write_segment_payloads, write_payloads, build,
}
use mac_mini_dump.Builder.Simulation.{
  Alike, Measured, Same, both_crash, both_go, >>=-Same, write-Same, header-Same, write_notes-Same,
  write_threads-Same, write_segments-Same,
}

-- A bound on the end of the file.
abbrev pub end_bound : Header → ℕ → ℕ → ℕ
end_bound h n f = header_size + h.sizeofcmds + 16 + (n + n) + 0x1000 + f

module _ {S T : Type 0} (stream : OStream S) (other : OStream T) (memory : Memory)
    (R : S → T → Type 0) (limit : ℕ) (alike : Alike stream other R limit) (h : Header) (n f : ℕ)
    (small : end_bound h n f < limit) (narrow : limit ≤ u64_mod) where
  abbrev SameRuns : Flow (Builder × S) → Flow (Builder × T) → Type 0
  SameRuns p q = Same stream other memory R limit alike h n f p q

  bound-at :
      (b : Builder)
      → Measured h n f b
      → end_bound b.header (payload_total b.note_cmds) (file_total b.segment_cmds) < limit
  bound-at b m = omega (arith, small, ap (λ (x : Header). x.sizeofcmds) m.0, m.1, m.2)

  note_payload_at :
      (b : Builder) (bytes : Option (List ℕ)) (size : ℕ) (name : List ℕ) (s : S) (t : T)
      (o : Outcome (Option ℕ))
      → get_offset_for_note_command_payload name b ≡ o
      → Measured h n f b
      → R s t
      → SameRuns
          (elim o [
            | fault ↦ crashes
            | returns none ↦ crashes
            | returns (some offset) ↦
                write_to_ostream stream memory bytes size (b, stream.set_position offset s)
          ])
          (elim o [
            | fault ↦ crashes
            | returns none ↦ crashes
            | returns (some offset) ↦
                write_to_ostream other memory bytes size (b, other.set_position offset t)
          ])
  note_payload_at b bytes size name s t fault e m r = both_crash
  note_payload_at b bytes size name s t (returns none) e m r = both_crash
  note_payload_at b bytes size name s t (returns (some offset)) e m r =
      let w = bound-at b m in
      let at_most = note_offset-le b name offset (omega arith) e in
      let above = align_up_bounds (header_size + b.header.sizeofcmds) 15 in
      write-Same stream other memory R limit alike h n f bytes size b _ _ m
        (alike.seeks offset s t (omega (arith, at_most, above.1)) r)

  note_payload-Same :
      (note : Note) (b : Builder) (s : S) (t : T)
      → Measured h n f b
      → R s t
      → SameRuns
          (write_note_payload stream memory note (b, s))
          (write_note_payload other memory note (b, t))
  unfolding write_note_payload
  note_payload-Same (nc, none) b s t m r = both_crash
  note_payload-Same (nc, some provider) b s t m r =
      note_payload_at b (get memory provider.data_ptr) nc.size (owner_string nc) s t
        (get_offset_for_note_command_payload (owner_string nc) b) refl m r

  note_payloads-Same :
      (notes : List Note) (b : Builder) (s : S) (t : T)
      → Measured h n f b
      → R s t
      → SameRuns
          (write_note_payloads stream memory notes (b, s))
          (write_note_payloads other memory notes (b, t))
  unfolding write_note_payloads
  note_payloads-Same [] b s t m r = both_go m r
  note_payloads-Same (note ∷ notes) b s t m r =
      >>=-Same stream other memory R limit alike h n f _ _ (note_payload-Same note b s t m r)
        (note_payloads-Same notes)

  chunk-Same :
      (chunk : Option (List ℕ)) (bytes : Option (List ℕ)) (chunk_size left_over : ℕ) (b : Builder)
      (s : S) (t : T) (u : Builder × S → Flow (Builder × S)) (v : Builder × T → Flow (Builder × T))
      → Measured h n f b
      → R s t
      → ((c : Builder) (s' : S) (t' : T)
          → Measured h n f c
          → R s' t'
          → SameRuns (u (c, s')) (v (c, t')))
      → SameRuns
          (elim chunk [
            | none ↦ write_to_ostream stream memory bytes left_over (b, s)
            | some c ↦ write_to_ostream stream memory (some c) chunk_size (b, s) >>= u
          ])
          (elim chunk [
            | none ↦ write_to_ostream other memory bytes left_over (b, t)
            | some c ↦ write_to_ostream other memory (some c) chunk_size (b, t) >>= v
          ])
  chunk-Same none bytes chunk_size left_over b s t u v m r k =
      write-Same stream other memory R limit alike h n f bytes left_over b s t m r
  chunk-Same (some c) bytes chunk_size left_over b s t u v m r k =
      >>=-Same stream other memory R limit alike h n f u v
        (write-Same stream other memory R limit alike h n f (some c) chunk_size b s t m r) k

  chunks-Same :
      (ptr : DataPtr) (chunk_size left_over iters offset : ℕ) (b : Builder) (s : S) (t : T)
      → Measured h n f b
      → R s t
      → SameRuns
          (write_chunks stream memory ptr chunk_size left_over iters offset (b, s))
          (write_chunks other memory ptr chunk_size left_over iters offset (b, t))
  unfolding write_chunks
  chunks-Same ptr chunk_size left_over zero offset b s t m r =
      write-Same stream other memory R limit alike h n f (get_at memory ptr offset left_over)
        left_over b s t m r
  chunks-Same ptr chunk_size left_over (suc iters) offset b s t m r =
      chunk-Same (get_at memory ptr offset chunk_size) (get_at memory ptr offset left_over)
        chunk_size left_over b s t _ _ m r
        (chunks-Same ptr chunk_size left_over iters (add64 offset chunk_size))

  unless_empty :
      (empty : Bool) {p : Flow (Builder × S)} {q : Flow (Builder × T)}
      → SameRuns p q
      → SameRuns (if empty then crashes else p) (if empty then crashes else q)
  unless_empty true k = both_crash
  unless_empty false k = k

  segment_payload_at :
      (b : Builder) (v : ℕ) (s : S) (t : T) (o : Outcome (Option ℕ)) (u : ℕ → Flow (Builder × S))
      (w : ℕ → Flow (Builder × T))
      → get_offset_for_segment_command_payload v b ≡ o
      → Measured h n f b
      → ((offset : ℕ) → offset < limit → SameRuns (u offset) (w offset))
      → SameRuns
          (elim o [ fault ↦ crashes | returns none ↦ crashes | returns (some offset) ↦ u offset ])
          (elim o [ fault ↦ crashes | returns none ↦ crashes | returns (some offset) ↦ w offset ])
  segment_payload_at b v s t fault u w e m k = both_crash
  segment_payload_at b v s t (returns none) u w e m k = both_crash
  segment_payload_at b v s t (returns (some offset)) u w e m k =
      let bound = bound-at b m in
      let at_most = segment_offset-le b v offset (omega arith) e in
      let above = align_up_bounds (header_size + b.header.sizeofcmds) 15 in
      k offset (omega (arith, at_most, above.1))

  segment_payload-Same :
      (segment : Segment) (b : Builder) (s : S) (t : T)
      → Measured h n f b
      → R s t
      → SameRuns
          (write_segment_payload stream memory segment (b, s))
          (write_segment_payload other memory segment (b, t))
  unfolding write_segment_payload
  segment_payload-Same (sc, none) b s t m r = both_crash
  segment_payload-Same (sc, some provider) b s t m r =
      let chunk_size = min provider.size max_chunk_size in
      segment_payload_at b sc.vmaddr s t (get_offset_for_segment_command_payload sc.vmaddr b) _ _
        refl m
        λ offset w. unless_empty (chunk_size == 0) (
          chunks-Same provider.data_ptr chunk_size (provider.size % chunk_size)
            (provider.size / chunk_size) 0 b _ _ m (alike.seeks offset s t w r))

  segment_payloads-Same :
      (segments : List Segment) (b : Builder) (s : S) (t : T)
      → Measured h n f b
      → R s t
      → SameRuns
          (write_segment_payloads stream memory segments (b, s))
          (write_segment_payloads other memory segments (b, t))
  unfolding write_segment_payloads
  segment_payloads-Same [] b s t m r = both_go m r
  segment_payloads-Same (segment ∷ segments) b s t m r =
      >>=-Same stream other memory R limit alike h n f _ _ (segment_payload-Same segment b s t m r)
        (segment_payloads-Same segments)

  payloads-Same :
      (b : Builder) (s : S) (t : T)
      → Measured h n f b
      → R s t
      → SameRuns (write_payloads stream memory (b, s)) (write_payloads other memory (b, t))
  unfolding write_payloads
  payloads-Same b s t m r =
      >>=-Same stream other memory R limit alike h n f _ _
        (note_payloads-Same b.note_cmds b s t m r) (λ c. segment_payloads-Same c.segment_cmds c)

  pub build-Same :
      (b : Builder) (s : S) (t : T)
      → Measured h n f (finalize_load_commands b)
      → R s t
      → SameRuns (build stream memory b s) (build other memory b t)
  unfolding build
  build-Same b s t m r =
      >>=-Same stream other memory R limit alike h n f _ _
        (>>=-Same stream other memory R limit alike h n f _ _
          (>>=-Same stream other memory R limit alike h n f _ _
            (>>=-Same stream other memory R limit alike h n f _ _
              (header-Same stream other memory R limit alike h n f (finalize_load_commands b) s t m
                r)
              (λ c s' t' m'.
                write_notes-Same stream other memory R limit alike h n f [] c.note_cmds c s' t' m'.1
                  m'))
            (λ c. write_threads-Same stream other memory R limit alike h n f c.thread_cmds c))
          (λ c s' t' m'.
            write_segments-Same stream other memory R limit alike h n f [] c.segment_cmds c s' t'
              m'.2 m'))
        payloads-Same
