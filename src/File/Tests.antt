-- ===== src/File/Tests.antt =====
-- The calls on a filesystem that opens every path.
use liebe_os.Prelude.{
  ℕ, ◌+◌, ◌≡◌, ◌⊎◌, refl, arith, ok, some, none, Option, update, pos, ◌==◌, if◌then◌else◌, [], ◌∷◌,
}
use liebe_os.Text.{Text}
use liebe_os.File.{Filesystem, Descriptor, Files, fopen, fclose}
use liebe_os.File.Open.{IsOpened, fopen_lem, fclose-fopen}

abbrev fs : Filesystem (Unit {0})
fs = record {
  resolve = λ w disk. (ok tt, w);
  open_fn = λ w disk path mode. (ok 0x5000, w);
  read_fn = λ w disk pvt size nmemb out. (ok nmemb, w);
  seek_fn = λ w pvt offset whence. (ok 0, w);
  stat_fn = λ w disk pvt. (ok (record { flags = 0; filesize = 3 }), w);
  close_fn = λ w pvt. (ok tt, w);
}

abbrev files_with : (ℕ → Option (Descriptor (Unit {0}))) → Files (Unit {0})
files_with table = record {
  filesystems = λ i. if i == 0 then some fs else none;
  descriptors = table;
  disk_filesystem = some fs;
  world = tt;
}

abbrev desc : ℕ → Descriptor (Unit {0})
desc n = record { index = n; filesystem = fs; pvt = 0x5000; disk = 0 }

abbrev empty : Files (Unit {0})
empty = files_with (λ i. none)

abbrev one : Files (Unit {0})
one = files_with (update (λ i. none) 0 (some (desc 1)))

abbrev one-IsOpened : IsOpened empty one 1
one-IsOpened = record {
  slot = 0;
  desc = desc 1;
  number = refl;
  index = refl;
  in_table = omega arith;
  was_free = refl;
  table = refl;
}

abbrev letter : ℕ → Text
letter c i = if i == 0 then c else 0

fopen_example :
    (((fopen empty (b'0' ∷ b':' ∷ b'/' ∷ b'a' ∷ []) (letter b'r')).0 ≡ 0)
      × ((fopen empty (b'0' ∷ b':' ∷ b'/' ∷ b'a' ∷ []) (letter b'r')).1.descriptors
          ≡ empty.descriptors))
    ⊎ IsOpened empty
        (fopen empty (b'0' ∷ b':' ∷ b'/' ∷ b'a' ∷ []) (letter b'r')).1
        (fopen empty (b'0' ∷ b':' ∷ b'/' ∷ b'a' ∷ []) (letter b'r')).0
fopen_example = fopen_lem empty (b'0' ∷ b':' ∷ b'/' ∷ b'a' ∷ []) (letter b'r')

fclose-fopen_example :
    ((fclose one (pos 1)).0 ≡ ok tt) × ((fclose one (pos 1)).1.descriptors ≡ empty.descriptors)
fclose-fopen_example = fclose-fopen empty one 1 one-IsOpened tt (λ e. omega arith) refl

-- Every slot but the last is taken.
abbrev nearly : ℕ → Option (Descriptor (Unit {0}))
nearly i = if i == 511 then none else some (desc (i + 1))

abbrev filled : Files (Unit {0})
filled = files_with (update nearly 511 (some (desc 512)))

abbrev filled-IsOpened : IsOpened (files_with nearly) filled 512
filled-IsOpened = record {
  slot = 511;
  desc = desc 512;
  number = refl;
  index = refl;
  in_table = omega arith;
  was_free = refl;
  table = refl;
}
