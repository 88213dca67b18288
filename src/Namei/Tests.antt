-- ===== src/Namei/Tests.antt =====
-- A directory of three entries, ".", ".." and "ab", and one with a hole.
use hack_linux.Base.{
  ◌==◌, if◌then◌else◌, ℕ, ◌/◌, ◌<◌, ◌≡◌, refl, true, false, Option, none, some, [], ◌∷◌, arith,
}
use hack_linux.Base.Chars.{chars_of}
use hack_linux.Namei.{
  Inode, Caller, DirEntry, permission, same_bytes, match_entry, null, wild_read, find_from, special,
  find_entry,
}
use hack_linux.Namei.Entry.{Start, plain, Searched, find_entry-Searched}

abbrev entries : ℕ → DirEntry
entries i =
    if i == 0
    then record { inode = 5; name = chars_of (b'.' ∷ []) }
    else if i == 1
    then record { inode = 1; name = chars_of (b'.' ∷ b'.' ∷ []) }
    else if i == 2
    then record { inode = 9; name = chars_of (b'a' ∷ b'b' ∷ []) }
    else record { inode = 0; name = chars_of [] }

abbrev one_block : Inode → ℕ → Option (ℕ → DirEntry)
one_block dir k = if k == 0 then some entries else none

abbrev home : Inode
home = record {
  i_num = 5;
  i_dev = 3;
  i_mode = 0x1ed;
  i_uid = 7;
  i_gid = 7;
  i_nlinks = 2;
  i_size = 48;
}

abbrev user : Caller
user = record { euid = 8; egid = 8; root = record home { i_num = 1 } }

-- Mode 0755: another user may search the directory and not write to it.
may_search : permission user home 1 ≡ true
unfolding permission
may_search = refl

may_not_write : permission user home 2 ≡ false
unfolding permission
may_not_write = refl

-- A directory of 129 entries whose second block is missing.
reads_null :
    (find_entry one_block
      (λ d. none)
      user
      (record home { i_size = 2064 })
      (chars_of (b'z' ∷ []))
      1).1
    ≡ wild_read
unfolding find_entry special find_from match_entry same_bytes
reads_null = refl

is_home : Start (λ d. none) user.root home 2 (chars_of (b'a' ∷ b'b' ∷ [])) home 2
is_home = plain (λ dots. omega (arith, dots.1.0))

-- `..` in the root of a device that has one entry, while `..` is the second entry of the directory it
-- is mounted on: the search ends before it.
misses_last :
    (find_entry one_block
      (λ d. some home)
      user
      (record home { i_num = 1; i_dev = 4; i_size = 16 })
      (chars_of (b'.' ∷ b'.' ∷ []))
      2).1
    ≡ null
unfolding find_entry special find_from match_entry same_bytes
misses_last = refl

first_block : (k : ℕ) → k < 3 → (b : ℕ → DirEntry) × (one_block home (k / 64) ≡ some b)
first_block k h = let block : k / 64 ≡ 0 = omega arith in (entries, rw block refl)

find_entry-Searched_example :
    ((find_entry one_block (λ d. none) user home (chars_of (b'a' ∷ b'b' ∷ [])) 2).0 ≡ home)
    × Searched
        (one_block home)
        2
        (chars_of (b'a' ∷ b'b' ∷ []))
        0
        3
        (find_entry one_block (λ d. none) user home (chars_of (b'a' ∷ b'b' ∷ [])) 2).1
find_entry-Searched_example =
    find_entry-Searched one_block (λ d. none) user home (chars_of (b'a' ∷ b'b' ∷ [])) 2 home 2
      (omega arith) is_home first_block
