-- ===== src/Namei.antt =====
-- Permissions and the search in a directory: permission, match and find_entry of fs/namei.c
-- (Lab 8). Inodes and the buffer cache are not in the repository: reading a block of a directory and
-- the mounted file systems are arguments.
pub mod Entry
mod Tests
use hack_linux.Base.{
  ltb, leb, ◌==◌, if◌then◌else◌, ltb→lt, ltb_false→le, lt→ltb, le→ltb_false, leb→le, le→leb,
  lt→leb_false, ==_iff, ne→==_false, ==_false→ne, ==_refl, tests, Bool-cases, Option-cases, update,
  length, get_elem?, set, length-append, length-set, get_elem?-set_self, get_elem?-set_ne, get_or,
  take, drop, replicate, take-append-drop, length-take, length-drop, length-replicate, length-map,
  ℕ, zero, suc, ◌+◌, ◌-◌, ◌*◌, ◌/◌, ◌%◌, ◌^◌, ◌≤◌, ◌<◌, ◌≡◌, refl, sym, ap, ◌∙◌, subst, ◌≢◌, ◌↔◌,
  ◌⊎◌, inl, inr, Bool, true, false, not, ◌&&◌, ◌||◌, Option, none, some, List, [], ◌∷◌, ◌++◌, map,
  ap₂, fun_ext, add-zero, arith, ℕ_discrete, dec_lt,
}
use hack_linux.Base.Chars.{Chars, chars_of, str_len, IsString, str_len-from}

abbrev pub name_len : ℕ
name_len = 14

abbrev pub entries_per_block : ℕ
entries_per_block = 64

abbrev pub root_ino : ℕ
root_ino = 1

-- The fields of `struct m_inode` that the functions read.
pub record Inode : Type 0 where
  pub i_num : ℕ
  pub i_dev : ℕ
  pub i_mode : ℕ
  pub i_uid : ℕ
  pub i_gid : ℕ
  pub i_nlinks : ℕ
  pub i_size : ℕ

-- `current`; `root` is the inode of its root directory.
pub record Caller : Type 0 where
  pub euid : ℕ
  pub egid : ℕ
  pub root : Inode

pub record DirEntry : Type 0 where
  pub inode : ℕ
  pub name : Chars

-- `mode` shifted to the bits of the caller's class.
abbrev pub class_bits : Caller → Inode → ℕ
class_bits me i =
    if me.euid == i.i_uid
    then i.i_mode / 64
    else if me.egid == i.i_gid
    then i.i_mode / 8
    else i.i_mode

-- Bit k of `mask` is in `mode` too.
abbrev pub has_bit : ℕ → ℕ → ℕ → Bool
has_bit k mode mask = not (mask / 2 ^ k % 2 == 1) || mode / 2 ^ k % 2 == 1

-- `(mode & mask & 0007) == mask`
abbrev pub covers : ℕ → ℕ → Bool
covers mode mask =
    ltb mask 8 && (has_bit 0 mode mask && (has_bit 1 mode mask && has_bit 2 mode mask))

unfoldable pub permission : Caller → Inode → ℕ → Bool
permission me i mask =
    if not (i.i_dev == 0) && i.i_nlinks == 0
    then false
    else covers (class_bits me i) mask || me.euid == 0

-- `repe ; cmpsb` over n bytes, for n not 0.
unfoldable pub same_bytes : ℕ → Chars → Chars → Bool
same_bytes zero name other = true
same_bytes (suc n) name other = let rest = same_bytes n name other in rest && name n == other n

-- match, for a length that is not 0.
unfoldable pub match_entry : ℕ → Chars → DirEntry → Bool
unfolding same_bytes
match_entry len name de =
    if de.inode == 0 || ltb name_len len
    then false
    else if ltb len name_len && not (de.name len == 0)
    then false
    else same_bytes len name de.name

-- find_entry returns the number of the entry with the entry, or NULL, or it reads through the NULL
-- pointer `bh`.
pub data Search : Type 0 where
  at : ℕ → DirEntry → Search
  null : Search
  wild_read : Search

-- What the loop does at entry i with its block, `left` entries before the end: a block that is
-- missing is skipped, and the code then reads through `bh` before it reads the next block.
abbrev pub step_at : Option (ℕ → DirEntry) → ℕ → ℕ → ℕ → Chars → Search → Search
step_at none i left len name rest = if ltb entries_per_block left then wild_read else null
step_at (some block) i left len name rest =
    let de = block (i % entries_per_block) in if match_entry len name de then at i de else rest

-- The loop for n entries from number i on; `read` gives the blocks of the directory.
unfoldable pub find_from : ℕ → ℕ → (ℕ → Option (ℕ → DirEntry)) → ℕ → Chars → Search
unfolding match_entry
find_from zero i read len name = null
find_from (suc n) i read len name =
    step_at (read (i / entries_per_block)) i (suc n) len name (find_from n (i + 1) read len name)

abbrev pub is_dot_dot : ℕ → Chars → Bool
is_dot_dot len name = len == 2 && (name 0 == b'.' && name 1 == b'.')

abbrev pub same_inode : Inode → Inode → Bool
same_inode i j = i.i_num == j.i_num && i.i_dev == j.i_dev

abbrev pub or_mounted : Option Inode → Inode → Inode
or_mounted none dir = dir
or_mounted (some i) dir = i

-- The directory and the length of the name after the special cases of `..`; `mounted` gives the
-- inode that a device is mounted on.
unfoldable pub special : (ℕ → Option Inode) → Inode → Inode → ℕ → Chars → Inode × ℕ
special mounted root dir len name =
    if not (is_dot_dot len name)
    then (dir, len)
    else if same_inode dir root
    then (dir, 1)
    else if dir.i_num == root_ino
    then (or_mounted (mounted dir.i_dev) dir, len)
    else (dir, len)

abbrev pub if_read : Option (ℕ → DirEntry) → Search → Search
if_read none found = null
if_read (some block) found = found

-- find_entry: the directory that was searched and the result. The number of entries is that of the
-- directory it was called for, also where `..` exchanges it. `bread` gives a block of a directory.
unfoldable pub find_entry :
    (Inode → ℕ → Option (ℕ → DirEntry))
    → (ℕ → Option Inode)
    → Caller
    → Inode
    → Chars
    → ℕ
    → Inode × Search
unfolding find_from special
find_entry bread mounted me dir name namelen =
    let len : ℕ = if ltb name_len namelen then name_len else namelen in
    if len == 0
    then (dir, null)
    else (let (d, l) = special mounted me.root dir len name in
        (d, if_read (bread d 0) (find_from (dir.i_size / 16) 0 (bread d) l name)))
