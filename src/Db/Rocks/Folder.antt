-- ===== src/Db/Rocks/Folder.antt =====
-- `rocks::get_folder_size`: src/quitsies/db/rocks.cpp. The file system is a tree. A file or a
-- folder that cannot be read makes the library throw.
use quitsies.Prelude.{ℕ, ◌+◌, ◌%◌, ◌^◌, Bool, true, false, ◌≡◌, refl, Result, ok, err, M, arith}
use quitsies.Text.{Bytes}

mutual
  pub data Entry : Type 0 where
    file : ℕ → Entry
    -- Its status or its size cannot be read.
    unreadable : Bytes → Entry
    folder : Folder → Entry

  -- What the iterator gives: it may be at the end, or throw, when it is made or when it goes on.
  pub data Folder : Type 0 where
    ends : Folder
    breaks : Bytes → Folder
    entry : Entry → Folder → Folder

-- An exception of the body is logged.
abbrev pub caught : Result (Unit {0}) × ℕ → ℕ
caught (r, size) = size

unfoldable mutual
  pub add_entry : Entry → ℕ → ℕ
  add_entry (file n) size = (size + n) % 2 ^ 64
  add_entry (unreadable what) size = size
  add_entry (folder f) size = caught (get_folder_size f size)

  pub get_folder_size : Folder → M ℕ (Unit {0})
  get_folder_size ends size = (ok tt, size)
  get_folder_size (breaks what) size = (err what, size)
  get_folder_size (entry e f) size = get_folder_size f (add_entry e size)

-- The sizes of the files that can be read, in all: those of a folder up to where its iterator
-- breaks.
abbrev mutual
  pub entry_bytes : Entry → ℕ
  entry_bytes (file n) = n
  entry_bytes (unreadable what) = 0
  entry_bytes (folder f) = folder_bytes f

  pub folder_bytes : Folder → ℕ
  folder_bytes ends = 0
  folder_bytes (breaks what) = 0
  folder_bytes (entry e f) = entry_bytes e + folder_bytes f

-- The iterator of the folder itself comes to its end.
abbrev pub is_whole : Folder → Bool
is_whole ends = true
is_whole (breaks what) = false
is_whole (entry e f) = is_whole f

mutual
  unfolding add_entry

  add_entry-sum :
      (e : Entry) (size : ℕ) → add_entry e size % 2 ^ 64 ≡ (size + entry_bytes e) % 2 ^ 64
  add_entry-sum (file n) size = omega arith
  add_entry-sum (unreadable what) size = omega arith
  add_entry-sum (folder f) size = get_folder_size-sum f size

  get_folder_size-sum :
      (f : Folder) (size : ℕ)
      → (get_folder_size f size).1 % 2 ^ 64 ≡ (size + folder_bytes f) % 2 ^ 64
  get_folder_size-sum ends size = omega arith
  get_folder_size-sum (breaks what) size = omega arith
  get_folder_size-sum (entry e f) size =
      omega (arith, get_folder_size-sum f (add_entry e size), add_entry-sum e size)

abbrev pub returned : Result (Unit {0}) → Bool
returned (ok tt) = true
returned (err what) = false

get_folder_size-returned :
    (f : Folder) (size : ℕ) → returned (get_folder_size f size).0 ≡ is_whole f
unfolding get_folder_size
get_folder_size-returned ends size = refl
get_folder_size-returned (breaks what) size = refl
get_folder_size-returned (entry e f) size = get_folder_size-returned f (add_entry e size)

-- The size of a folder grows by the sizes of all files below it that can be read, modulo 2 ^ 64,
-- whatever else is below it; and an exception leaves the function only if the folder itself cannot
-- be listed to its end.
pub get_folder_size-adds :
    (f : Folder) (size : ℕ)
    → ((get_folder_size f size).1 % 2 ^ 64 ≡ (size + folder_bytes f) % 2 ^ 64)
      × (returned (get_folder_size f size).0 ≡ is_whole f)
get_folder_size-adds f size = (get_folder_size-sum f size, get_folder_size-returned f size)
