-- ===== src/FileStream/Ram.antt =====
-- FileOStream.cpp: a kernel with one regular file, which every descriptor stands for.
use mac_mini_dump.Prelude.{ℕ, zero, suc, ◌+◌, refl, ap, true, Option, some, none, length}
use native.Mathlib.Nat.{add-zero}
use mac_mini_dump.FileStream.{Posix, Whence, seek_set, seek_cur, seek_end}
use mac_mini_dump.FileStream.File.{File, RegularFile, put_bytes, resized}

abbrev null_result : ℕ → Option ℕ
null_result zero = some 0
null_result (suc n) = none

abbrev target : ℕ → Whence → File → ℕ
target offset seek_set f = offset
target offset seek_cur f = f.position + offset
target offset seek_end f = f.size + offset

abbrev pub ram : Posix File
ram = record {
  open_write_only = λ path f. (f, some 3);
  fileno = λ file. some 3;
  write = λ fd bytes f. (put_bytes bytes f, some (length bytes));
  write_null = λ fd size f. (f, null_result size);
  fsync = λ fd f. (f, true);
  lseek = λ fd offset whence f.
      (record f { position = target offset whence f }, some (target offset whence f));
  ftruncate = λ fd n f. (resized n f, true);
  close = λ fd f. f;
}

pub ram-RegularFile : RegularFile ram 3 (λ f. f)
ram-RegularFile = record {
  write_all = λ bytes k. (refl, refl);
  write_nothing = λ k. (refl, refl);
  write_fault = λ n k. (refl, refl);
  seek_to = λ p k w. (refl, refl);
  seek_here = λ k.
      (ap some (add-zero k.position), ap (λ p. record k { position = p }) (add-zero k.position));
  seek_to_end =
      λ k. (ap some (add-zero k.size), ap (λ p. record k { position = p }) (add-zero k.size));
  truncate = λ n k w. (refl, refl);
  close_keeps = λ k. refl;
}
