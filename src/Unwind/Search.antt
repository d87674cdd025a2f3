-- ===== src/Unwind/Search.antt =====
-- StackFrame.cpp: the binary searches.
use mac_mini_dump.Prelude.{
  ℕ, zero, suc, ◌+◌, ◌-◌, ◌*◌, ◌/◌, ◌≤◌, ◌<◌, ◌≡◌, refl, ◌∙◌, ap, inl, inr, true, false, List,
  Option, none, some, arith, ltb, leb, ◌==◌, if◌then◌else◌, Bool-cases, ltb→lt, leb→le,
}
use mac_mini_dump.Prelude.Words.{u32_mod, add64, add32, sub32}
use mac_mini_dump.DataAccess.{Memory, read_process_memory_into}
use mac_mini_dump.Unwind.{Found, found, read_failed, search_loop, read_key, find_entry}

-- The place of the target among `n` keys: those before it are at most the target, the others above.
pub record Place (f : ℕ → ℕ) (target low high r : ℕ) : Type 0 where
  pub at_least : low ≤ r
  pub at_most : r ≤ high
  pub before : (i : ℕ) → low ≤ i → i < r → f i ≤ target
  pub after : (i : ℕ) → r ≤ i → i < high → target < f i

-- The middle, without wrap-around.
middle :
    (low high : ℕ)
    → low < high
    → high < u32_mod
    → (m : ℕ) × (add32 low (sub32 high low / 2) ≡ m) × (low ≤ m) × (m < high) × (add32 m 1 ≡ m + 1)
middle low high h w = (low + (high - low) / 2, omega arith, omega arith, omega arith, omega arith)

-- One round that reads a key.
round :
    (read : ℕ → Option ℕ) (target fuel low high m key : ℕ)
    → ltb low high ≡ true
    → add32 low (sub32 high low / 2) ≡ m
    → add32 m 1 ≡ m + 1
    → read m ≡ some key
    → search_loop read target (suc fuel) low high ≡ (
        if leb key target
        then search_loop read target fuel (m + 1) high
        else search_loop read target fuel low m)
unfolding search_loop
round read target fuel low high m key more is_mid next e =
    ap at_middle is_mid
    ∙ rw (more, e)
        (ap
          (λ q.
            if leb key target
            then search_loop read target fuel q high
            else search_loop read target fuel low m)
          next)
  where
    at_middle : ℕ → Found
    at_middle q =
        let chosen : Found = elim (read q) [
          | none ↦ read_failed
          | some found_key ↦
              if leb found_key target
              then search_loop read target fuel (add32 q 1) high
              else search_loop read target fuel low q
        ] in
        if ltb low high then chosen else found low

module _ (read : ℕ → Option ℕ) (f : ℕ → ℕ) (target n : ℕ) (small : n < u32_mod)
    (reads : (i : ℕ) → i < n → read i ≡ some (f i))
    (sorted : (i j : ℕ) → i ≤ j → j < n → f i ≤ f j) where
  -- On sorted keys that can all be read, the search ends within as many rounds as there are keys,
  -- at the place of the target.
  pub search_loop-Place :
      (fuel low high : ℕ)
      → low ≤ high
      → high ≤ n
      → high ≤ low + fuel
      → (r : ℕ) × (search_loop read target fuel low high ≡ found r) × Place f target low high r
  unfolding search_loop
  search_loop-Place zero low high h k e = (
    low,
    ground arith,
    record {
      at_least = omega arith;
      at_most = h;
      before = λ i p q. absurd (omega arith);
      after = λ i p q. absurd (omega arith);
    },
  )
  search_loop-Place (suc fuel) low high h k e = elim (Bool-cases (ltb low high)) [
    | inr done ↦ (
      low,
      rw done,
      record {
        at_least = omega arith;
        at_most = h;
        before = λ i p q. absurd (omega arith);
        after = λ i p q. absurd (ground arith);
      },
    )
    | inl more ↦
        let (m, is_mid, above_low, below_high, next) =
          middle low high (ltb→lt low high more) (omega arith) in
        elim (Bool-cases (leb (f m) target)) [
          | inl up ↦
              let (r, ends, place) =
                search_loop-Place fuel (m + 1) high (omega arith) k (omega arith) in
              (
                r,
                round read target fuel low high m (f m) more is_mid next (reads m (omega arith))
                    ∙ rw up ends,
                record {
                  at_least = omega (arith, place.at_least);
                  at_most = place.at_most;
                  before = λ i p q. elim (Bool-cases (leb i m)) [
                    | inl old ↦
                        omega
                          (arith, sorted i m (leb→le i m old) (omega arith), leb→le (f m) target up)
                    | inr new ↦ place.before i (ground arith) q
                  ];
                  after = place.after;
                },
              )
          | inr down ↦
              let (r, ends, place) =
                search_loop-Place fuel low m above_low (omega arith) (omega arith) in
              (
                r,
                round read target fuel low high m (f m) more is_mid next (reads m (omega arith))
                    ∙ rw down ends,
                record {
                  at_least = place.at_least;
                  at_most = omega (arith, place.at_most);
                  before = place.before;
                  after = λ i p q. elim (Bool-cases (leb m i)) [
                    | inl old ↦ ground (arith, sorted m i (leb→le m i old) (omega arith))
                    | inr new ↦ place.after i p (ground arith)
                  ];
                },
              )
        ]
  ]

last-Place :
    (f : ℕ → ℕ) (target count r k : ℕ)
    → Place f target 0 count r
    → k < count
    → f k ≤ target
    → ((i : ℕ) → k < i → i < count → target < f i)
    → r ≡ k + 1
last-Place f target count r k place h low above = elim (Bool-cases (ltb k r)) [
  | inr early ↦ absurd (omega (arith, place.after k (ground arith) h))
  | inl late ↦ elim (Bool-cases (ltb (k + 1) r)) [
    | inl later ↦ absurd (
        omega (
          arith,
          place.at_most,
          ltb→lt (k + 1) r later,
          place.before (k + 1) (omega arith) (ltb→lt (k + 1) r later),
          above (k + 1) (omega arith) (omega (arith, place.at_most, ltb→lt (k + 1) r later)),
        ))
    | inr exact ↦ ground arith
  ]
]

no-Place :
    (f : ℕ → ℕ) (target count r : ℕ)
    → Place f target 0 count r
    → ((i : ℕ) → i < count → target < f i)
    → r ≡ 0
no-Place f target count zero place above = refl
no-Place f target count (suc r) place above = absurd (
    omega
      (arith, place.before 0 (omega arith) (omega arith), above 0 (omega (arith, place.at_most))))

last_read :
    (memory : Memory) (entries_addr entry_size k : ℕ) (bytes : List ℕ)
    → memory (add64 entries_addr (k * entry_size)) entry_size ≡ some bytes
    → (if k + 1 == 0
        then none
        else read_process_memory_into memory
            (add64 entries_addr ((k + 1 - 1) * entry_size))
            entry_size)
      ≡ some bytes
unfolding read_process_memory_into
last_read memory entries_addr entry_size k bytes e =
    let same : k + 1 - 1 ≡ k = omega arith in
    let nonzero : (k + 1 == 0) ≡ false = ground arith in
    rw nonzero (ap (λ j. memory (add64 entries_addr (j * entry_size)) entry_size) same ∙ e)

-- On a table of `count` entries of the task with sorted keys, the search with what follows it gives
-- the last entry whose key is at most the target; it gives none when the first key is above the
-- target.
pub find_entry_last :
    (memory : Memory) (entries_addr entry_size target count : ℕ) (key_of : List ℕ → ℕ)
    (entry : ℕ → List ℕ)
    → count < u32_mod
    → ((i : ℕ)
        → i < count
        → memory (add64 entries_addr (i * entry_size)) entry_size ≡ some (entry i))
    → ((i j : ℕ) → i ≤ j → j < count → key_of (entry i) ≤ key_of (entry j))
    → ((k : ℕ)
        → k < count
        → key_of (entry k) ≤ target
        → ((i : ℕ) → k < i → i < count → target < key_of (entry i))
        → find_entry memory entries_addr entry_size key_of target count ≡ some (entry k))
      × (((i : ℕ) → i < count → target < key_of (entry i))
          → find_entry memory entries_addr entry_size key_of target count ≡ none)
unfolding find_entry read_process_memory_into
find_entry_last memory entries_addr entry_size target count key_of entry small reads sorted =
    let (r, ends, place) =
      search_loop-Place (read_key memory entries_addr entry_size key_of) (λ i. key_of (entry i))
        target count small (λ i h. rw (read_process_memory_into, reads i h)) sorted count 0 count
        (omega arith) (omega arith) (omega arith) in
    (
      λ k h low above.
          let here : r ≡ k + 1 =
            last-Place (λ i. key_of (entry i)) target count r k place h low above in
          rw (find_entry, ends, here)
            (last_read memory entries_addr entry_size k (entry k) (reads k h)),
      λ above.
          let nowhere : r ≡ 0 = no-Place (λ i. key_of (entry i)) target count r place above in
          rw (find_entry, ends, nowhere),
    )
