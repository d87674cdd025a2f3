-- ===== src/Payloads/Json.antt =====
-- CreateProcessMetadataPayload (MacMiniDump.cpp): the ids can be read back from the text.
use mac_mini_dump.Prelude.{
  ℕ, zero, suc, ◌+◌, ◌-◌, ◌*◌, ◌/◌, ◌%◌, ◌^◌, ◌<◌, ◌≡◌, refl, ◌∙◌, ap, inl, inr, ◌&&◌, List, [],
  ◌∷◌, ◌++◌, Option, none, some, arith, ltb, leb, if◌then◌else◌, Bool-cases, ltb→lt, lt→ltb,
}
use mathlib.Core.List.{append_assoc, append-nil}
use mac_mini_dump.Prelude.Words.{u64_mod}
use mac_mini_dump.Payloads.{
  digits, to_string, json_thread, json_more, create_process_metadata_payload,
}

abbrev emit_number : Option ℕ → List ℕ → List ℕ
emit_number none ns = ns
emit_number (some n) ns = n ∷ ns

abbrev or_nothing : Option ℕ → ℕ
or_nothing none = 0
or_nothing (some n) = n

-- The decimal numbers of a text, each a longest run of digits; `o` is the number read so far.
abbrev pub numbers : Option ℕ → List ℕ → List ℕ
numbers o [] = emit_number o []
numbers o (c ∷ cs) =
    let within = numbers (some (10 * or_nothing o + (c - 48))) cs in
    let outside = numbers none cs in if leb 48 c && ltb c 58 then within else emit_number o outside

digit_read :
    (o : Option ℕ) (d : ℕ) (tail : List ℕ)
    → d < 10
    → numbers o ((48 + d) ∷ tail) ≡ numbers (some (10 * or_nothing o + d)) tail
digit_read o d tail h = ground (arith, ap (λ k. numbers (some (10 * or_nothing o + k)) tail) back)
  where
    back : 48 + d - 48 ≡ d
    back = omega arith

one_digit :
    (n : ℕ) (tail : List ℕ) → n < 10 → numbers none ((48 + n) ∷ tail) ≡ numbers (some n) tail
one_digit n tail h = digit_read none n tail h ∙ ap (λ k. numbers (some k) tail) (omega arith)

numbers-digits :
    (fuel n : ℕ) (tail : List ℕ)
    → n < 10 ^ suc fuel
    → numbers none (digits (suc fuel) n ++ tail) ≡ numbers (some n) tail
unfolding digits
numbers-digits zero n tail h = rw (lt→ltb n 10 (omega arith)) (one_digit n tail (omega arith))
numbers-digits (suc fuel) n tail h = elim (Bool-cases (ltb n 10)) [
  | inl small ↦ rw small (one_digit n tail (ltb→lt n 10 small))
  | inr large ↦ rw large (
      ap (numbers none) (append_assoc (digits (suc fuel) (n / 10)) ((48 + n % 10) ∷ []) tail)
      ∙ numbers-digits fuel (n / 10) ((48 + n % 10) ∷ tail) (omega arith)
      ∙ digit_read (some (n / 10)) (n % 10) tail (omega arith)
      ∙ ap (λ k. numbers (some k) tail) (omega arith))
]

numbers-to_string :
    (n : ℕ) (tail : List ℕ)
    → n < u64_mod
    → numbers none (to_string n ++ tail) ≡ numbers (some n) tail
numbers-to_string n tail h = numbers-digits 19 n tail (omega arith)

-- The ids are uint64_t.
abbrev pub AllWords : List ℕ → Type 0
AllWords [] = Unit {0}
AllWords (id ∷ ids) = (id < u64_mod) × AllWords ids

numbers-json_thread :
    (id : ℕ) (tail : List ℕ)
    → id < u64_mod
    → numbers none (json_thread id ++ tail) ≡ id ∷ numbers none tail
numbers-json_thread id tail h =
    ap (numbers none) (append_assoc (to_string id) (125 ∷ []) tail)
    ∙ numbers-to_string id (125 ∷ tail) h

numbers-json_more :
    (ids tail : List ℕ)
    → AllWords ids
    → numbers none (json_more ids ++ tail) ≡ ids ++ numbers none tail
numbers-json_more [] tail w = refl
numbers-json_more (id ∷ ids) tail w =
    ap (numbers none) (append_assoc (json_thread id) (json_more ids) tail)
    ∙ numbers-json_thread id (json_more ids ++ tail) w.0
    ∙ ap (λ l. id ∷ l) (numbers-json_more ids tail w.1)

-- The decimal numbers in the text of CreateProcessMetadataPayload are exactly the ids of the
-- threads, in order, when these are below 2 ^ 64.
pub payload-numbers :
    (thread_ids : List ℕ)
    → AllWords thread_ids
    → numbers none (create_process_metadata_payload thread_ids) ≡ thread_ids
unfolding create_process_metadata_payload
payload-numbers [] w = refl
payload-numbers (id ∷ ids) w =
    ap (numbers none) (append_assoc (json_thread id) (json_more ids) (93 ∷ 125 ∷ []))
    ∙ numbers-json_thread id (json_more ids ++ 93 ∷ 125 ∷ []) w.0
    ∙ ap (λ l. id ∷ l) (numbers-json_more ids (93 ∷ 125 ∷ []) w.1 ∙ append-nil ids)
