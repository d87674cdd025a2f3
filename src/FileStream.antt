-- ===== src/FileStream.antt =====
-- Sources/macMiniDump/Private/FileOStream.cpp and Includes/MMD/FileOStream.hpp: the output stream
-- over a file descriptor. The calls of POSIX are a parameter, over a state `K` of the kernel; a
-- descriptor is `none` for -1, and so is a result.
pub mod File
pub mod Laws
pub mod Ram
mod Examples
use mac_mini_dump.Prelude.{ℕ, Bool, true, false, not, List, Option, none, some, take, if◌then◌else◌}
use mac_mini_dump.Prelude.Words.{uint64_max}
use mac_mini_dump.Stream.{OStream}

-- SEEK_SET, SEEK_CUR and SEEK_END
pub data Whence : Type 0 where
  seek_set seek_cur seek_end : Whence

-- `write` gets the bytes at its pointer, `write_null` a null pointer. `fsync` and `ftruncate` tell
-- whether they gave 0.
pub record Posix (K : Type 0) : Type 0 where
  pub open_write_only : List ℕ → K → K × Option ℕ
  pub fileno : ℕ → Option ℕ
  pub write : Option ℕ → List ℕ → K → K × Option ℕ
  pub write_null : Option ℕ → ℕ → K → K × Option ℕ
  pub fsync : Option ℕ → K → K × Bool
  pub lseek : Option ℕ → ℕ → Whence → K → K × Option ℕ
  pub ftruncate : Option ℕ → ℕ → K → K × Bool
  pub close : Option ℕ → K → K

-- The stream, and the kernel that its methods change.
pub record FileOStream (K : Type 0) : Type 0 where
  pub fd : Option ℕ
  pub kernel : K

-- A result of `lseek` as a size_t: -1 is the greatest.
abbrev pub as_size : Option ℕ → ℕ
as_size none = uint64_max
as_size (some n) = n

-- `!= -1`
abbrev pub succeeds : Option ℕ → Bool
succeeds none = false
succeeds (some n) = true

module _ {K : Type 0} (posix : Posix K) where
  -- The three constructors.
  unfoldable pub of_file : ℕ → K → FileOStream K
  of_file file k = record { fd = posix.fileno file; kernel = k }

  unfoldable pub of_fd : Option ℕ → K → FileOStream K
  of_fd fd k = record { fd = fd; kernel = k }

  unfoldable pub of_path : List ℕ → K → FileOStream K
  of_path path k = let (k', fd) = posix.open_write_only path k in record { fd = fd; kernel = k' }

  unfoldable pub write : Option (List ℕ) → ℕ → FileOStream K → FileOStream K × Bool
  write none size s =
      let (k, written) = posix.write_null s.fd size s.kernel in
      (record s { kernel = k }, succeeds written)
  write (some bytes) size s =
      let (k, written) = posix.write s.fd (take size bytes) s.kernel in
      (record s { kernel = k }, succeeds written)

  -- `return fsync (m_fd)`, as a bool: 0 is false.
  unfoldable pub flush : FileOStream K → FileOStream K × Bool
  flush s = let (k, ok) = posix.fsync s.fd s.kernel in (record s { kernel = k }, not ok)

  unfoldable pub get_position : FileOStream K → FileOStream K × ℕ
  get_position s =
      let (k, position) = posix.lseek s.fd 0 seek_cur s.kernel in
      (record s { kernel = k }, as_size position)

  unfoldable pub set_position : ℕ → FileOStream K → FileOStream K
  set_position new_pos s = record s { kernel = (posix.lseek s.fd new_pos seek_set s.kernel).0 }

  unfoldable pub get_size : FileOStream K → FileOStream K × ℕ
  get_size s =
      let (s', prev_pos) = get_position s in
      let (k, size) = posix.lseek s'.fd 0 seek_end s'.kernel in
      (record s' { kernel = (posix.lseek s'.fd prev_pos seek_set k).0 }, as_size size)

  unfoldable pub set_size : ℕ → FileOStream K → FileOStream K × Bool
  set_size new_size s =
      let (k, ok) = posix.ftruncate s.fd new_size s.kernel in (record s { kernel = k }, ok)

  unfoldable pub is_valid : FileOStream K → Bool
  is_valid s = succeeds s.fd

  unfoldable pub cleanup : FileOStream K → FileOStream K
  cleanup s = if is_valid s then record { fd = none; kernel = posix.close s.fd s.kernel } else s

  -- The destructor.
  unfoldable pub destroy : FileOStream K → FileOStream K
  destroy s = cleanup s

  unfoldable pub file_stream : OStream (FileOStream K)
  file_stream = record {
    write = write;
    flush = flush;
    get_position = get_position;
    set_position = set_position;
    get_size = get_size;
    set_size = set_size;
  }
