-- ===== src/Builder/Simulation.antt =====
-- MachOCoreDumpBuilder::Build over two streams: where the streams behave alike, so do the runs.
use mac_mini_dump.Prelude.{
  ℕ, ◌<◌, ◌≡◌, Bool, true, false, List, [], ◌∷◌, ◌++◌, Option, some, arith, if◌then◌else◌,
}
use mathlib.Core.List.{append_assoc, append-nil}
use mac_mini_dump.DataAccess.{Memory, DataProvider}
use mac_mini_dump.Stream.{OStream}
use mac_mini_dump.Builder.{
  Outcome, fault, returns, header_size, note_command_size, segment_command_size, Note, Segment,
  ThreadCommand, Header, NoteCommand, SegmentCommand, Builder,
}
use mac_mini_dump.Builder.Layout.{
  payload_total, file_total, payload_total-append, file_total-append,
}
use mac_mini_dump.Builder.Offsets.{
  owner_string, get_offset_for_note_command_payload, get_offset_for_segment_command_payload,
}
use mac_mini_dump.Builder.Build.{
  Flow, crashes, stops, goes_on, ◌>>=◌, found_or, encode_header, encode_note, encode_segment,
  write_to_ostream, write_notes, write_threads, write_segments,
}

-- Two streams behave alike up to `R`: they give the same results of writes, and `R` stays true;
-- they can be set to any position below the limit.
pub record Alike {S T : Type 0} (stream : OStream S) (other : OStream T) (R : S → T → Type 0)
    (limit : ℕ) : Type 0 where
  pub writes :
      (bytes : Option (List ℕ)) (size : ℕ) (s : S) (t : T)
      → R s t
      → ((stream.write bytes size s).1 ≡ (other.write bytes size t).1)
        × R (stream.write bytes size s).0 (other.write bytes size t).0
  pub seeks :
      (p : ℕ) (s : S) (t : T)
      → p < limit
      → R s t
      → R (stream.set_position p s) (other.set_position p t)

-- What the loops over the load commands leave as it is: the header, and the sizes of the payloads.
abbrev pub Measured : Header → (notes segments : ℕ) → Builder → Type 0
Measured h notes segments b =
    (b.header ≡ h) × (payload_total b.note_cmds ≡ notes) × (file_total b.segment_cmds ≡ segments)

module _ {S T : Type 0} (stream : OStream S) (other : OStream T) (memory : Memory)
    (R : S → T → Type 0) (limit : ℕ) (alike : Alike stream other R limit) (h : Header)
    (n f : ℕ) where
  -- The runs end in the same way, with the same builder, and with related streams.
  pub data Same : Flow (Builder × S) → Flow (Builder × T) → Type 0 where
    both_crash : Same crashes crashes
    both_stop :
        {b : Builder} {s : S} {t : T}
        → Measured h n f b
        → R s t
        → Same (stops (b, s)) (stops (b, t))
    both_go :
        {b : Builder} {s : S} {t : T}
        → Measured h n f b
        → R s t
        → Same (goes_on (b, s)) (goes_on (b, t))

  pub >>=-Same :
      {p : Flow (Builder × S)} {q : Flow (Builder × T)} (u : Builder × S → Flow (Builder × S))
      (v : Builder × T → Flow (Builder × T))
      → Same p q
      → ((b : Builder) (s : S) (t : T) → Measured h n f b → R s t → Same (u (b, s)) (v (b, t)))
      → Same (p >>= u) (q >>= v)
  >>=-Same u v both_crash k = both_crash
  >>=-Same u v (both_stop m r) k = both_stop m r
  >>=-Same u v (both_go {b} {s} {t} m r) k = k b s t m r

  written-Same :
      (b : Builder) (s : S) (t : T) (x y : Bool)
      → x ≡ y
      → Measured h n f b
      → R s t
      → Same
          (if x then goes_on (b, s) else stops (b, s))
          (if y then goes_on (b, t) else stops (b, t))
  written-Same b s t true true e m r = both_go m r
  written-Same b s t false false e m r = both_stop m r
  written-Same b s t true false e m r = absurd (cc)
  written-Same b s t false true e m r = absurd (cc)

  pub write-Same :
      (bytes : Option (List ℕ)) (size : ℕ) (b : Builder) (s : S) (t : T)
      → Measured h n f b
      → R s t
      → Same
          (write_to_ostream stream memory bytes size (b, s))
          (write_to_ostream other memory bytes size (b, t))
  unfolding write_to_ostream
  write-Same bytes size b s t m r =
      let (e, r') = alike.writes bytes size s t r in written-Same b _ _ _ _ e m r'

  pub offset-Same :
      {X : Type 0} (o : Outcome X) (u : X → Flow (Builder × S)) (v : X → Flow (Builder × T))
      → ((x : X) → Same (u x) (v x))
      → Same
          (elim o [ fault ↦ crashes | returns x ↦ u x ])
          (elim o [ fault ↦ crashes | returns x ↦ v x ])
  offset-Same fault u v k = both_crash
  offset-Same (returns x) u v k = k x

  -- An offset that is set changes no size.
  with_offset :
      (done rest : List Note) (nc : NoteCommand) (p : Option DataProvider) (a : ℕ)
      → payload_total (done ++ (nc, p) ∷ rest) ≡ n
      → payload_total ((done ++ (record nc { offset = a }, p) ∷ []) ++ rest) ≡ n
  with_offset done rest nc p a e = omega (
    arith,
    e,
    payload_total-append done ((nc, p) ∷ rest),
    payload_total-append (done ++ (record nc { offset = a }, p) ∷ []) rest,
    payload_total-append done ((record nc { offset = a }, p) ∷ []),
  )

  with_fileoff :
      (done rest : List Segment) (sc : SegmentCommand) (p : Option DataProvider) (a : ℕ)
      → file_total (done ++ (sc, p) ∷ rest) ≡ f
      → file_total ((done ++ (record sc { fileoff = a }, p) ∷ []) ++ rest) ≡ f
  with_fileoff done rest sc p a e = omega (
    arith,
    e,
    file_total-append done ((sc, p) ∷ rest),
    file_total-append (done ++ (record sc { fileoff = a }, p) ∷ []) rest,
    file_total-append done ((record sc { fileoff = a }, p) ∷ []),
  )

  pub write_notes-Same :
      (done rest : List Note) (b : Builder) (s : S) (t : T)
      → payload_total (done ++ rest) ≡ n
      → Measured h n f b
      → R s t
      → Same
          (write_notes stream memory done rest (b, s))
          (write_notes other memory done rest (b, t))
  unfolding write_notes
  write_notes-Same done [] b s t e m r = both_go (m.0, rw append-nil at e, m.2) r
  write_notes-Same done ((nc, provider) ∷ rest) b s t e m r =
      offset-Same
        (get_offset_for_note_command_payload (owner_string nc)
          (record b { note_cmds = done ++ (nc, provider) ∷ rest }))
        _ _
        λ found.
          let nc' = record nc { offset = found_or nc.offset found } in
          let e' = with_offset done rest nc provider (found_or nc.offset found) e in
          >>=-Same _ _
            (write-Same (some (encode_note nc')) note_command_size
              (record b { note_cmds = done ++ (nc', provider) ∷ rest }) s t
              (m.0, rw append_assoc at e', m.2) r)
            (λ c s' t'. write_notes-Same (done ++ (nc', provider) ∷ []) rest c s' t' e')

  pub write_threads-Same :
      (threads : List ThreadCommand) (b : Builder) (s : S) (t : T)
      → Measured h n f b
      → R s t
      → Same
          (write_threads stream memory threads (b, s))
          (write_threads other memory threads (b, t))
  unfolding write_threads
  write_threads-Same [] b s t m r = both_go m r
  write_threads-Same (tc ∷ rest) b s t m r =
      >>=-Same _ _ (write-Same (some tc.bytes) tc.cmdsize b s t m r) (write_threads-Same rest)

  pub write_segments-Same :
      (done rest : List Segment) (b : Builder) (s : S) (t : T)
      → file_total (done ++ rest) ≡ f
      → Measured h n f b
      → R s t
      → Same
          (write_segments stream memory done rest (b, s))
          (write_segments other memory done rest (b, t))
  unfolding write_segments
  write_segments-Same done [] b s t e m r = both_go (m.0, m.1, rw append-nil at e) r
  write_segments-Same done ((sc, provider) ∷ rest) b s t e m r =
      offset-Same
        (get_offset_for_segment_command_payload sc.vmaddr
          (record b { segment_cmds = done ++ (sc, provider) ∷ rest }))
        _ _
        λ found.
          let sc' = record sc { fileoff = found_or sc.fileoff found } in
          let e' = with_fileoff done rest sc provider (found_or sc.fileoff found) e in
          >>=-Same _ _
            (write-Same (some (encode_segment sc')) segment_command_size
              (record b { segment_cmds = done ++ (sc', provider) ∷ rest }) s t
              (m.0, m.1, rw append_assoc at e') r)
            (λ c s' t'. write_segments-Same (done ++ (sc', provider) ∷ []) rest c s' t' e')

  pub header-Same :
      (b : Builder) (s : S) (t : T)
      → Measured h n f b
      → R s t
      → Same
          (write_to_ostream stream memory (some (encode_header b.header)) header_size (b, s))
          (write_to_ostream other memory (some (encode_header b.header)) header_size (b, t))
  header-Same b s t m r = write-Same (some (encode_header b.header)) header_size b s t m r
