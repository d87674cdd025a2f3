-- ===== src/FileStream/Laws.antt =====
-- FileOStream.cpp on a regular file: the stream behaves as the recording disk does.
use mac_mini_dump.Prelude.{
  ℕ, suc, zero, ◌+◌, ◌<◌, ◌≡◌, refl, ◌∙◌, ap, sym, true, false, List, Option, none, some, arith,
  ◌==◌, length, take,
}
use mac_mini_dump.Builder.Disk.{Disk, bytes_at, emit, seek, disk_stream}
use mac_mini_dump.Builder.Simulation.{Alike}
use mac_mini_dump.FileStream.{
  Posix, seek_set, seek_cur, seek_end, FileOStream, succeeds, as_size, write, get_position,
  set_position, get_size, set_size, file_stream,
}
use mac_mini_dump.FileStream.File.{
  File, RegularFile, put_bytes, resized, off_limit, replay, replay-append, put_bytes-content,
  put_bytes-position,
}

module _ {K : Type 0} (posix : Posix K) (fd : ℕ) (view : K → File)
    (regular : RegularFile posix fd view) (initial : ℕ → ℕ) where
  -- The file has the content that the log of the disk gives, and stands at the same position.
  pub record Reflects (s : FileOStream K) (d : Disk) : Type 0 where
    pub descriptor : s.fd ≡ some fd
    pub position : (view s.kernel).position ≡ d.position
    pub content : (view s.kernel).content ≡ replay d.log initial

  abbrev pub at_fd : K → FileOStream K
  at_fd k = record { fd = some fd; kernel = k }

  moved : (s : FileOStream K) (d : Disk) → Reflects s d → s ≡ at_fd s.kernel
  moved s d r = ap (λ o. record { fd = o; kernel = s.kernel }) r.descriptor

  put-Reflects :
      (bytes : List ℕ) (k k' : K) (d : Disk)
      → view k' ≡ put_bytes bytes (view k)
      → Reflects (at_fd k) d
      → Reflects (at_fd k') (emit bytes d)
  unfolding emit
  put-Reflects bytes k k' d e r = record {
    descriptor = refl;
    position =
        ap (λ (f : File). f.position) e
        ∙ put_bytes-position bytes (view k)
        ∙ ap (λ p. p + length bytes) r.position;
    content =
        ap (λ (f : File). f.content) e
        ∙ put_bytes-content bytes (view k)
        ∙ ap (λ p. replay (bytes_at p bytes) (view k).content) r.position
        ∙ ap (replay (bytes_at d.position bytes)) r.content
        ∙ sym (replay-append d.log (bytes_at d.position bytes) initial);
  }

  kept-Reflects :
      (k k' : K) (d : Disk) → view k' ≡ view k → Reflects (at_fd k) d → Reflects (at_fd k') d
  kept-Reflects k k' d e r = record {
    descriptor = refl;
    position = ap (λ (f : File). f.position) e ∙ r.position;
    content = ap (λ (f : File). f.content) e ∙ r.content;
  }

  fault_result : (n : ℕ) → false ≡ suc n == 0
  fault_result n = ground arith

  abbrev WriteAgrees : Option (List ℕ) → ℕ → FileOStream K → Disk → Type 0
  WriteAgrees bytes size s d =
      ((write posix bytes size s).1 ≡ (disk_stream.write bytes size d).1)
      × Reflects (write posix bytes size s).0 (disk_stream.write bytes size d).0

  write_at-Reflects :
      (bytes : Option (List ℕ)) (size : ℕ) (k : K) (d : Disk)
      → Reflects (at_fd k) d
      → WriteAgrees bytes size (at_fd k) d
  unfolding write
  write_at-Reflects (some bytes) size k d r =
      let (all, after) = regular.write_all (take size bytes) k in
      (ap succeeds all, put-Reflects (take size bytes) k _ d after r)
  write_at-Reflects none zero k d r =
      let (nothing, after) = regular.write_nothing k in
      (ap succeeds nothing, kept-Reflects k _ d after r)
  write_at-Reflects none (suc n) k d r =
      let (fails, after) = regular.write_fault n k in
      (ap succeeds fails ∙ fault_result n, kept-Reflects k _ d after r)

  write-Reflects :
      (bytes : Option (List ℕ)) (size : ℕ) (s : FileOStream K) (d : Disk)
      → Reflects s d
      → WriteAgrees bytes size s d
  write-Reflects bytes size s d r = rw (moved s d r) (
      write_at-Reflects bytes size s.kernel d
        (record { descriptor = refl; position = r.position; content = r.content }))

  seek_at-Reflects :
      (p : ℕ) (k : K) (d : Disk)
      → p < off_limit
      → Reflects (at_fd k) d
      → Reflects (set_position posix p (at_fd k)) (seek p d)
  unfolding set_position seek
  seek_at-Reflects p k d w r =
      let (there, after) = regular.seek_to p k w in
      record {
        descriptor = refl;
        position = ap (λ (f : File). f.position) after;
        content = ap (λ (f : File). f.content) after ∙ r.content;
      }

  seek-Reflects :
      (p : ℕ) (s : FileOStream K) (d : Disk)
      → p < off_limit
      → Reflects s d
      → Reflects (set_position posix p s) (seek p d)
  seek-Reflects p s d w r = rw (moved s d r) (
      seek_at-Reflects p s.kernel d w
        (record { descriptor = refl; position = r.position; content = r.content }))

  -- Reads and writes of `Build` cannot tell the file from the disk.
  pub file-Alike : Alike (file_stream posix) disk_stream Reflects off_limit
  unfolding file_stream
  file-Alike = record { writes = write-Reflects; seeks = seek-Reflects }

  -- On a regular file that stands at a position below 2 ^ 63, GetPosition and GetSize give the
  -- position and the size, and leave the file as it was, its position included; SetSize to a size
  -- below 2 ^ 63 succeeds, and cuts the file or fills it with zeros, but does not move the
  -- position.
  pub file-methods :
      (k : K) (n : ℕ)
      → (view k).position < off_limit
      → n < off_limit
      → ((get_position posix (at_fd k)).1 ≡ (view k).position)
        × (view (get_position posix (at_fd k)).0.kernel ≡ view k)
        × ((get_size posix (at_fd k)).1 ≡ (view k).size)
        × (view (get_size posix (at_fd k)).0.kernel ≡ view k)
        × ((set_size posix n (at_fd k)).1 ≡ true)
        × (view (set_size posix n (at_fd k)).0.kernel ≡ resized n (view k))
  unfolding get_position get_size set_size
  file-methods k n w u =
      let (here, same) = regular.seek_here k in
      let k1 = (posix.lseek (some fd) 0 seek_cur k).0 in
      let (end, at_end) = regular.seek_to_end k1 in
      let k2 = (posix.lseek (some fd) 0 seek_end k1).0 in
      let (there, back) = regular.seek_to (view k).position k2 w in
      (
        ap as_size here,
        same,
        ap as_size end ∙ ap (λ (f : File). f.size) same,
        ap (λ q. view (posix.lseek (some fd) (as_size q) seek_set k2).0) here
            ∙ back
            ∙ ap (λ (f : File). record f { position = (view k).position })
                (at_end ∙ ap (λ (f : File). record f { position = f.size }) same),
        (regular.truncate n k u).0,
        (regular.truncate n k u).1,
      )
