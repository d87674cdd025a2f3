-- ===== src/Builder/Disk.antt =====
-- A stream that records every byte with the position at which it is written, and whose writes
-- succeed. It is the specification of the output of `Build`.
use mac_mini_dump.Prelude.{
  ℕ, zero, suc, ◌+◌, ◌≡◌, refl, ◌∙◌, ap, Bool, true, List, [], ◌∷◌, ◌++◌, Option, none, some, arith,
  ◌==◌, length, length-append, take,
}
use mathlib.Core.List.{append_assoc}
use mac_mini_dump.Stream.{OStream}

-- The position, and the bytes written so far, in the order of the writes.
pub record Disk : Type 0 where
  pub position : ℕ
  pub log : List (ℕ × ℕ)

abbrev pub bytes_at : ℕ → List ℕ → List (ℕ × ℕ)
bytes_at p [] = []
bytes_at p (b ∷ bs) = (p, b) ∷ bytes_at (p + 1) bs

unfoldable pub emit : List ℕ → Disk → Disk
emit bytes d = record {
  position = d.position + length bytes;
  log = d.log ++ bytes_at d.position bytes;
}

unfoldable pub seek : ℕ → Disk → Disk
seek p d = record d { position = p }

abbrev pub empty_disk : Disk
empty_disk = record { position = 0; log = [] }

-- A null pointer is refused unless there is nothing to write.
abbrev pub disk_write : Option (List ℕ) → ℕ → Disk → Disk × Bool
disk_write none size d = (d, size == 0)
disk_write (some bytes) size d = (emit (take size bytes) d, true)

abbrev pub disk_stream : OStream Disk
disk_stream = record {
  write = disk_write;
  flush = λ d. (d, true);
  get_position = λ d. (d, d.position);
  set_position = seek;
  get_size = λ d. (d, length d.log);
  set_size = λ n d. (record d { log = [] }, true);
}

bytes_at-append :
    (p : ℕ) (xs ys : List ℕ) → bytes_at p (xs ++ ys) ≡ bytes_at p xs ++ bytes_at (p + length xs) ys
bytes_at-append p [] ys = ap (λ q. bytes_at q ys) (omega arith)
bytes_at-append p (x ∷ xs) ys =
    ap (◌∷◌ (p, x))
      (bytes_at-append (p + 1) xs ys ∙ ap (λ q. bytes_at (p + 1) xs ++ bytes_at q ys) (omega arith))

-- Two writes, one after the other, are one write.
pub emit-emit : (xs ys : List ℕ) (d : Disk) → emit ys (emit xs d) ≡ emit (xs ++ ys) d
unfolding emit
emit-emit xs ys d = ground (
  arith,
  length-append xs ys,
  bytes_at-append d.position xs ys,
  append_assoc d.log (bytes_at d.position xs) (bytes_at (d.position + length xs) ys),
)

pub take_all : {A : Type 0} (n : ℕ) (xs : List A) → length xs ≡ n → take n xs ≡ xs
take_all zero [] e = refl
take_all zero (x ∷ xs) e = absurd (omega arith)
take_all (suc n) [] e = refl
take_all (suc n) (x ∷ xs) e = ap (◌∷◌ x) (take_all n xs (omega arith))
