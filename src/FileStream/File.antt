-- ===== src/FileStream/File.antt =====
-- FileOStream.cpp: a regular file as POSIX describes it, and what its calls do on one. Writes store
-- all their bytes, as on a volume with space.
use mac_mini_dump.Prelude.{
  ℕ, suc, ◌+◌, ◌<◌, ◌≡◌, refl, true, List, [], ◌∷◌, ◌++◌, none, some, arith, ltb, ◌==◌,
  if◌then◌else◌, length, max,
}
use mathlib.Core.Path.{fun_ext}
use mac_mini_dump.FileStream.{Posix, seek_set, seek_cur, seek_end}
use mac_mini_dump.Builder.Disk.{bytes_at}

pub record File : Type 0 where
  pub position : ℕ
  pub size : ℕ
  pub content : ℕ → ℕ

abbrev pub stored : ℕ → ℕ → (ℕ → ℕ) → ℕ → ℕ
stored p byte content a = if a == p then byte else content a

-- A write at the position.
abbrev pub put_bytes : List ℕ → File → File
put_bytes [] f = f
put_bytes (byte ∷ bytes) f = put_bytes bytes (record {
  position = f.position + 1;
  size = max f.size (f.position + 1);
  content = stored f.position byte f.content;
})

-- A file that is cut, or extended by zeros.
abbrev pub resized : ℕ → File → File
resized n f = record f {
  size = n;
  content = λ a. if ltb a n then (if ltb a f.size then f.content a else 0) else 0;
}

-- 2 ^ 63: an off_t is signed.
abbrev pub off_limit : ℕ
off_limit = 0x8000_0000_0000_0000

-- The descriptor is that of a regular file, open for writing, of which `view` is the state.
pub record RegularFile {K : Type 0} (posix : Posix K) (fd : ℕ) (view : K → File) : Type 0 where
  pub write_all :
      (bytes : List ℕ) (k : K)
      → ((posix.write (some fd) bytes k).1 ≡ some (length bytes))
        × (view (posix.write (some fd) bytes k).0 ≡ put_bytes bytes (view k))
  pub write_nothing :
      (k : K)
      → ((posix.write_null (some fd) 0 k).1 ≡ some 0)
        × (view (posix.write_null (some fd) 0 k).0 ≡ view k)
  pub write_fault :
      (n : ℕ) (k : K)
      → ((posix.write_null (some fd) (suc n) k).1 ≡ none)
        × (view (posix.write_null (some fd) (suc n) k).0 ≡ view k)
  pub seek_to :
      (p : ℕ) (k : K)
      → p < off_limit
      → ((posix.lseek (some fd) p seek_set k).1 ≡ some p)
        × (view (posix.lseek (some fd) p seek_set k).0 ≡ record (view k) { position = p })
  pub seek_here :
      (k : K)
      → ((posix.lseek (some fd) 0 seek_cur k).1 ≡ some (view k).position)
        × (view (posix.lseek (some fd) 0 seek_cur k).0 ≡ view k)
  pub seek_to_end :
      (k : K)
      → ((posix.lseek (some fd) 0 seek_end k).1 ≡ some (view k).size)
        × (view (posix.lseek (some fd) 0 seek_end k).0
            ≡ record (view k) { position = (view k).size })
  pub truncate :
      (n : ℕ) (k : K)
      → n < off_limit
      → ((posix.ftruncate (some fd) n k).1 ≡ true)
        × (view (posix.ftruncate (some fd) n k).0 ≡ resized n (view k))
  pub close_keeps : (k : K) → (view (posix.close (some fd) k)).content ≡ (view k).content

-- The content of a file after the writes of a log, the first of them first.
abbrev pub replay : List (ℕ × ℕ) → (ℕ → ℕ) → ℕ → ℕ
replay [] content = content
replay ((p, byte) ∷ log) content = replay log (stored p byte content)

pub replay-append :
    (xs ys : List (ℕ × ℕ)) (content : ℕ → ℕ)
    → replay (xs ++ ys) content ≡ replay ys (replay xs content)
replay-append [] ys content = refl
replay-append ((p, byte) ∷ xs) ys content = replay-append xs ys (stored p byte content)

pub put_bytes-content :
    (bytes : List ℕ) (f : File)
    → (put_bytes bytes f).content ≡ replay (bytes_at f.position bytes) f.content
put_bytes-content [] f = refl
put_bytes-content (byte ∷ bytes) f = put_bytes-content bytes _

pub put_bytes-position :
    (bytes : List ℕ) (f : File) → (put_bytes bytes f).position ≡ f.position + length bytes
put_bytes-position [] f = omega arith
put_bytes-position (byte ∷ bytes) f = omega (
  arith,
  put_bytes-position bytes (record {
    position = f.position + 1;
    size = max f.size (f.position + 1);
    content = stored f.position byte f.content;
  }),
)

-- A file that is emptied holds nothing.
pub emptied_content : (f : File) → (resized 0 f).content ≡ λ a. 0
emptied_content f = fun_ext (λ a. ground arith)
