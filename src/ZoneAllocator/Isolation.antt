-- ===== src/ZoneAllocator/Isolation.antt =====
-- ZoneAllocator.cpp: the blocks of the library stand in its own zone, and no other block is
-- touched.
use mac_mini_dump.Prelude.{
  ℕ, ◌*◌, ◌%◌, ◌≡◌, ◌≢◌, refl, sym, ap, ◌∙◌, Bool, true, false, List, [], ◌∷◌, Option, none, some,
  arith, ◌==◌, Bool-cases, inl, inr,
}
use mathlib.Core.Path.{subst}
use mac_mini_dump.Prelude.Words.{u64_mod}
use mac_mini_dump.Outcome.{Outcome, returns}
use mac_mini_dump.ZoneAllocator.{
  MallocCalls, Library, or_throw, placed, chosen, init_zone, free_zone, malloc, malloc_aligned,
  free, allocate, deallocate, delete_unique, delete_unique_array, make_unique, make_unique_array,
  make_unique_array_aligned, new_object, new_aligned, delete_object, delete_aligned, new_array,
  delete_array,
}
use mac_mini_dump.ZoneAllocator.Calls.{
  Request, allocates, Release, Call, obtains, releases, Block, left, set_owned, with_block, Client,
  block_of, in_zone, perform, give_back, step, run, program,
}

differ_test : (a b : ℕ) → a ≢ b → (a == b) ≡ false
differ_test a b d = ground arith

module _ {S : Type 0} (blocks : S → ℕ → Option Block) where
  -- What a call of malloc or memalign in a zone does.
  abbrev pub Granted : (zone size : ℕ) (s : S) → S × Option ℕ → Type 0
  Granted zone size s (s', none) = (q : ℕ) → blocks s' q ≡ blocks s q
  Granted zone size s (s', some p) =
      (blocks s p ≡ none)
      × (blocks s' p ≡ some (zone, size))
      × ((q : ℕ) → q ≢ p → blocks s' q ≡ blocks s q)

  abbrev pub Created : (default_zone : ℕ) (s : S) → S × Option ℕ → Type 0
  Created default_zone s (s', none) = (q : ℕ) → blocks s' q ≡ blocks s q
  Created default_zone s (s', some zone) =
      (zone ≢ default_zone)
      × ((q : ℕ) → blocks s' q ≡ blocks s q)
      × ((q : ℕ) → left zone (blocks s q) ≡ blocks s q)

-- The documented behaviour of the calls: `blocks` says which blocks there are.
pub record MallocLaws {S : Type 0} (calls : MallocCalls S) (blocks : S → ℕ → Option Block)
    : Type 0 where
  pub create_zone_law : (s : S) → Created blocks calls.default_zone s (calls.create_zone s)
  pub destroy_zone_law :
      (zone q : ℕ) (s : S) → blocks (calls.destroy_zone zone s) q ≡ left zone (blocks s q)
  pub zone_malloc_law :
      (zone size : ℕ) (s : S) → Granted blocks zone size s (calls.zone_malloc zone size s)
  pub zone_memalign_law :
      (zone alignment size : ℕ) (s : S)
      → Granted blocks zone size s (calls.zone_memalign zone alignment size s)
  pub zone_free_law :
      (zone p size : ℕ) (s : S)
      → blocks s p ≡ some (zone, size)
      → (blocks (calls.zone_free zone p s) p ≡ none)
        × ((q : ℕ) → q ≢ p → blocks (calls.zone_free zone p s) q ≡ blocks s q)

module _ {S : Type 0} (calls : MallocCalls S) (blocks : S → ℕ → Option Block)
    (laws : MallocLaws calls blocks) where
  -- A request is a call of malloc or of memalign in the zone.
  as_call :
      (zone : ℕ) (s : S) (t : S × Option ℕ)
      → block_of (or_throw (placed (in_zone zone s) t)) ≡ (in_zone zone t.0, t.1)
  as_call zone s (s', none) = refl
  as_call zone s (s', some p) = refl

  perform-Granted :
      (r : Request) (zone : ℕ) (s : S)
      → (t : S × Option ℕ) × (perform calls r (in_zone zone s) ≡ returns (in_zone zone t.0, t.1))
        × (size : ℕ) × Granted blocks zone size s t
  unfolding perform allocate make_unique make_unique_array make_unique_array_aligned malloc
      malloc_aligned new_object new_aligned new_array
  perform-Granted (allocates size n) zone s =
      (_, ap returns (as_call zone s _), _, laws.zone_malloc_law zone (n * size % u64_mod) s)
  perform-Granted (Request.unique size) zone s =
      (_, ap returns (as_call zone s _), _, laws.zone_malloc_law zone size s)
  perform-Granted (Request.unique_array size count) zone s =
      (_, ap returns (as_call zone s _), _, laws.zone_malloc_law zone (count * size % u64_mod) s)
  perform-Granted (Request.unique_array_aligned size count alignment) zone s = (
    _,
    ap returns (as_call zone s _),
    _,
    laws.zone_memalign_law zone alignment (count * size % u64_mod) s,
  )
  perform-Granted (Request.object size) zone s = (_, refl, _, laws.zone_malloc_law zone size s)
  perform-Granted (Request.aligned size alignment) zone s =
      (_, refl, _, laws.zone_memalign_law zone alignment size s)
  perform-Granted (Request.array size) zone s = (_, refl, _, laws.zone_malloc_law zone size s)

  give_back-freed :
      (r : Release) (p zone : ℕ) (s : S)
      → give_back calls r p (in_zone zone s) ≡ returns (in_zone zone (calls.zone_free zone p s))
  unfolding give_back deallocate delete_unique delete_unique_array delete_object delete_aligned
      delete_array free
  give_back-freed Release.deallocates p zone s = refl
  give_back-freed Release.unique p zone s = refl
  give_back-freed Release.unique_array p zone s = refl
  give_back-freed Release.object p zone s = refl
  give_back-freed Release.aligned p zone s = refl
  give_back-freed Release.array p zone s = refl

  module _ (zone : ℕ) (start : S) where
    -- A block that the client owns is new and stands in the zone; any other is as it was at the
    -- start.
    abbrev pub BlockAt : S → ℕ → Bool → Type 0
    BlockAt s q true = (blocks start q ≡ none) × (size : ℕ) × (blocks s q ≡ some (zone, size))
    BlockAt s q false = blocks s q ≡ blocks start q

    abbrev pub Isolated : S → (ℕ → Bool) → Type 0
    Isolated s owned = (q : ℕ) → BlockAt s q (owned q)

    moved-BlockAt :
        (s s' : S) (q : ℕ) (owns : Bool)
        → blocks s' q ≡ blocks s q
        → BlockAt s q owns
        → BlockAt s' q owns
    moved-BlockAt s s' q true e (new, size, b) = (new, size, e ∙ b)
    moved-BlockAt s s' q false e b = e ∙ b

    not_owned :
        (s : S) (q : ℕ) (owns : Bool) → blocks s q ≡ none → BlockAt s q owns → blocks start q ≡ none
    not_owned s q true e b = b.0
    not_owned s q false e b = sym b ∙ e

    set_owned-BlockAt :
        (s : S) (q p : ℕ) (owns : Bool) (owned : ℕ → Bool)
        → (q ≡ p → BlockAt s p owns)
        → (q ≢ p → BlockAt s q (owned q))
        → BlockAt s q (set_owned p owns owned q)
    set_owned-BlockAt s q p owns owned at elsewhere = elim (Bool-cases (q == p)) [
      | inl same ↦ let e : q ≡ p = ground arith in rw same (rw e (at e))
      | inr differ ↦ rw differ (elsewhere (ground arith))
    ]

    with_block-Isolated :
        (size : ℕ) (s s' : S) (o : Option ℕ) (owned : ℕ → Bool)
        → Granted blocks zone size s (s', o)
        → Isolated s owned
        → Isolated s' (with_block o owned)
    with_block-Isolated size s s' none owned g i q = moved-BlockAt s s' q (owned q) (g q) (i q)
    with_block-Isolated size s s' (some p) owned (new, there, others) i q =
        set_owned-BlockAt s' q p true owned (λ e. (not_owned s p (owned p) new (i p), size, there))
          (λ d. moved-BlockAt s s' q (owned q) (others q d) (i q))

    released :
        (s : S) (p : ℕ) (owned : ℕ → Bool)
        → owned p ≡ true
        → Isolated s owned
        → Isolated (calls.zone_free zone p s) (set_owned p false owned)
    released s p owned mine i q =
        let (new, size, b) : BlockAt s p true = subst (λ x. BlockAt s p x) mine (i p) in
        let (gone, others) = laws.zone_free_law zone p size s b in
        set_owned-BlockAt (calls.zone_free zone p s) q p false owned (λ e. gone ∙ sym new)
          (λ d. moved-BlockAt s (calls.zone_free zone p s) q (owned q) (others q d) (i q))

    -- What a client in the zone is.
    abbrev pub client : S → (ℕ → Bool) → Client S
    client s owned = record { library = in_zone zone s; owned = owned }

    abbrev pub Continues : Outcome (Client S) → Type 0
    Continues r = (s : S) × (owned : ℕ → Bool) × (r ≡ returns (client s owned)) × Isolated s owned

    step-Continues :
        (call : Call) (s : S) (owned : ℕ → Bool)
        → Isolated s owned
        → Continues (step calls call (client s owned))
    unfolding step
    step-Continues (obtains r) s owned i =
        let ((s', o), e, size, g) = perform-Granted r zone s in
        (s', with_block o owned, rw (step, e), with_block-Isolated size s s' o owned g i)
    step-Continues (releases r p) s owned i = elim (Bool-cases (owned p)) [
      | inl mine ↦ (
        calls.zone_free zone p s,
        set_owned p false owned,
        rw (step, mine, give_back-freed r p zone s),
        released s p owned mine i,
      )
      | inr other ↦ (s, owned, rw (step, other), i)
    ]

    run_on :
        (cs : List Call) (s : S) (owned : ℕ → Bool)
        → Isolated s owned
        → Continues (run calls cs (client s owned))
    unfolding run
    run_on [] s owned i = (s, owned, refl, i)
    run_on (call ∷ rest) s owned i =
        let (s', owned', e, i') = step-Continues call s owned i in
        rw (run, e) (run_on rest s' owned' i')

  -- Whatever sequence of requests and releases the library makes of its zone, none of them faults;
  -- the blocks that it owns at the end are new and stand in the zone, and every other block is as
  -- it was at the start.
  pub run-Isolated :
      (zone : ℕ) (start : S) (cs : List Call)
      → Continues zone start (run calls cs (client zone start start (λ q. false)))
  run-Isolated zone start cs = run_on zone start cs start (λ q. false) (λ q. refl)

  left_after :
      (zone : ℕ) (start s : S) (q : ℕ) (owns : Bool)
      → left zone (blocks start q) ≡ blocks start q
      → BlockAt zone start s q owns
      → left zone (blocks s q) ≡ blocks start q
  left_after zone start s q true e (new, size, b) = rw (b, new) (ground arith)
  left_after zone start s q false e b = ap (left zone) b ∙ e

  init_zone-created :
      (l : Library S) (s : S) (zone : ℕ)
      → calls.create_zone l.system ≡ (s, some zone)
      → init_zone calls l ≡ in_zone zone s
  unfolding init_zone
  init_zone-created l s zone created = ap (chosen calls) created

  free_zone-destroys :
      (zone : ℕ) (s : S)
      → zone ≢ calls.default_zone
      → free_zone calls (in_zone zone s)
        ≡ returns (record { g_zone = none; system = calls.destroy_zone zone s })
  unfolding free_zone
  free_zone-destroys zone s own = rw (free_zone, differ_test zone calls.default_zone own)

  -- When the zone was created, the program ends, from InitZone to FreeZone, whatever it requests
  -- and releases in between, and it leaves all blocks as they were, also where it has given back
  -- nothing.
  pub program_restores :
      (cs : List Call) (l : Library S) (s : S) (zone : ℕ)
      → calls.create_zone l.system ≡ (s, some zone)
      → (end : S) × (program calls cs l ≡ returns (record { g_zone = none; system = end }))
        × ((q : ℕ) → blocks end q ≡ blocks l.system q)
  unfolding program
  program_restores cs l s zone created =
      let (own, same, outside) =
        subst (Created blocks calls.default_zone l.system) created
          (laws.create_zone_law l.system) in
      let (s', owned, e, i) = run-Isolated zone s cs in
      (
        calls.destroy_zone zone s',
        rw (program, init_zone-created l s zone created, e) (free_zone-destroys zone s' own),
        λ q.
            laws.destroy_zone_law zone q s'
            ∙ left_after zone s s' q (owned q) (ap (left zone) (same q) ∙ outside q ∙ sym (same q))
                (i q)
            ∙ same q,
      )
