-- ===== src/Builder/Reader.antt =====
-- ProcessMemoryReaderDataPtr (ProcessMemoryReaderDataPtr.cpp) as the source of a segment.
use mac_mini_dump.Prelude.{ℕ, zero, suc, ◌+◌, ◌≤◌, ◌<◌, ◌≡◌, refl, ◌∙◌, ap, ◌∷◌, none, some, arith}
use mac_mini_dump.Prelude.Words.{u64_mod}
use mac_mini_dump.DataAccess.{
  Memory, process_memory, get_at, read_process_memory, read_process_memory_into,
}
use mac_mini_dump.Builder.Plan.{cells, Reads}

pub cells_shift :
    (f : ℕ → ℕ) (start o n : ℕ) → cells f (start + o) n ≡ cells (λ k. f (start + k)) o n
cells_shift f start o zero = refl
cells_shift f start o (suc n) = ap (◌∷◌ (f (start + o))) (
    let e : start + o + 1 ≡ start + (o + 1) = omega arith in
    ap (λ q. cells f q n) e ∙ cells_shift f start (o + 1) n)

pub process_memory-Reads :
    (memory : Memory) (start size : ℕ) (f : ℕ → ℕ)
    → start + size < u64_mod
    → ((a n : ℕ) → start ≤ a → a + n ≤ start + size → memory a n ≡ some (cells f a n))
    → Reads memory (process_memory start size) size (λ o. f (start + o))
      × ((o n : ℕ)
          → o + n < u64_mod
          → size < o + n
          → get_at memory (process_memory start size) o n ≡ none)
unfolding get_at read_process_memory read_process_memory_into
process_memory-Reads memory start size f w readable = (
  λ o n h.
      ground (arith, readable (start + o) n (omega arith) (omega arith), cells_shift f start o n),
  λ o n h k. ground arith,
)
