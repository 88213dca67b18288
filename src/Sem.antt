-- ===== src/Sem.antt =====
-- Named semaphores: kernel/sem.c with include/semaphore.h and include/string_fix.h (Lab 6; Labs 5
-- and 6.Ext have the same files). The semaphores stand on an explicit heap, as the code links them
-- by pointers. `malloc` and `get_fs_byte` are not in the repository: what `malloc` returns is the
-- argument `fresh` (0 for NULL) of the block's stale contents, and the user's bytes are `user`.
pub mod Names
pub mod Chain
pub mod Find
pub mod Open
pub mod Unlink
pub mod Again
pub mod Wait
mod Tests
use hack_linux.Base.{
  ltb, leb, ◌==◌, if◌then◌else◌, ltb→lt, ltb_false→le, lt→ltb, le→ltb_false, leb→le, le→leb,
  lt→leb_false, ==_iff, ne→==_false, ==_false→ne, ==_refl, tests, Bool-cases, Option-cases, update,
  length, get_elem?, set, length-append, length-set, get_elem?-set_self, get_elem?-set_ne, get_or,
  take, drop, replicate, take-append-drop, length-take, length-drop, length-replicate, length-map,
  ℕ, zero, suc, ◌+◌, ◌-◌, ◌*◌, ◌/◌, ◌%◌, ◌^◌, ◌≤◌, ◌<◌, ◌≡◌, refl, sym, ap, ◌∙◌, subst, ◌≢◌, ◌↔◌,
  ◌⊎◌, inl, inr, Bool, true, false, not, ◌&&◌, ◌||◌, Option, none, some, List, [], ◌∷◌, ◌++◌, map,
  ap₂, fun_ext, add-zero, arith, ℕ_discrete, dec_lt,
}
pub use hack_linux.Base.Chars.{Chars, chars_of}
unfoldable pub use hack_linux.Base.Chars.{str_len}
use hack_linux.Base.Int.{
  ℤ, pos, negsuc, sub_ℕ, pos_part, neg_part, ◌+ℤ◌, ◌-ℤ◌, ◌*ℤ◌, ◌≤ℤ◌, ltb_ℤ, +ℤ_parts, -ℤ_parts,
  eq_of_parts, int_laws,
}

abbrev pub max_sem_name : ℕ
max_sem_name = 128

-- `struct sem_t`. Pointers are addresses, 0 is NULL.
pub record Semaphore : Type 0 where
  pub m_name : Chars
  pub m_value : ℕ
  pub m_prev : ℕ
  pub m_next : ℕ
  pub m_wait : ℕ

abbrev pub Heap : Type 0
Heap = ℕ → Semaphore

-- `&_semHead`
abbrev pub sem_head : ℕ
sem_head = 1

-- "_semHead"
abbrev pub head_name : Chars
head_name = chars_of (b'_' ∷ b's' ∷ b'e' ∷ b'm' ∷ b'H' ∷ b'e' ∷ b'a' ∷ b'd' ∷ [])

-- strCmp from index `i` on, for `n` rounds.
unfoldable pub str_cmp : ℕ → Chars → Chars → ℕ → ℤ
str_cmp zero s1 s2 i = sub_ℕ (s1 i) (s2 i)
str_cmp (suc n) s1 s2 i =
    let rest = str_cmp n s1 s2 (i + 1) in
    if not (s1 i == 0) && s1 i == s2 i then rest else sub_ℕ (s1 i) (s2 i)

abbrev pub is_zero : ℤ → Bool
is_zero (pos n) = n == 0
is_zero (negsuc n) = false

-- `strCmp(s1, s2) == 0`. A name has its NUL at index MAXSEMNAME at the latest, so the rounds suffice.
unfoldable pub same_name : Chars → Chars → Bool
unfolding str_cmp
same_name s1 s2 = is_zero (str_cmp max_sem_name s1 s2 0)

-- The loop of find_sem.
unfoldable pub find_sem : ℕ → Heap → Chars → ℕ → ℕ
find_sem zero h name p = p
find_sem (suc n) h name p =
    let rest = find_sem n h name (h p).m_next in
    if (h p).m_next == 0 then p else if same_name (h p).m_name name then p else rest

-- The loop that reads the name: `n` rounds left at index `i`, `c` the last byte read. It ends with
-- the buffer and the last byte.
unfoldable pub read_name : ℕ → Chars → ℕ → Chars → ℕ → Chars × ℕ
read_name zero user i tmp c = (tmp, c)
read_name (suc n) user i tmp c =
    let rest = read_name n user (i + 1) (update tmp i (user i)) (user i) in
    if user i == 0 then (tmp, 0) else rest

-- `tmpName` and `c` after the loop.
unfoldable pub name_from_user : Chars → Chars × ℕ
unfolding read_name
name_from_user user = read_name (max_sem_name + 1) user 0 (λ i. 0) 0

abbrev pub einval : ℤ
einval = negsuc 21

abbrev pub enospc : ℤ
enospc = negsuc 27

-- `strncpy(dest, src, strlen(src))`: no byte behind the string is written.
abbrev pub copy_name : Chars → Chars → Chars
copy_name dest src i = if ltb i (str_len max_sem_name src 0) then src i else dest i

-- The fields that sys_sem_open writes into the new block, and the link to it.
abbrev pub link_new : Heap → ℕ → ℕ → Chars → ℕ → Heap
link_new h last fresh name value =
    let filled = update h fresh (record {
      m_name = copy_name (h fresh).m_name name;
      m_value = value;
      m_prev = last;
      m_next = 0;
      m_wait = 0;
    }) in
    update filled last (record (filled last) { m_next = fresh })

-- `rounds` bounds the walk along the list.
unfoldable pub sys_sem_open : ℕ → Chars → ℕ → ℕ → Heap → ℤ × Heap
sys_sem_open rounds user value fresh h =
    let (name, c) = name_from_user user in
    if not (c == 0)
    then (einval, h)
    else if same_name head_name name
    then (einval, h)
    else (let p = find_sem rounds h name sem_head in
        if same_name (h p).m_name name
        then (pos p, h)
        else if fresh == 0
        then (enospc, h)
        else (pos fresh, link_new h p fresh name value))

-- The two stores that take `p` out of the list.
unfoldable pub unlink_node : Heap → ℕ → Heap
unlink_node h p =
    let before = update h (h p).m_prev (record (h (h p).m_prev) { m_next = (h p).m_next }) in
    if (before p).m_next == 0
    then before
    else update before (before p).m_next
        (record (before (before p).m_next) { m_prev = (before p).m_prev })

-- `free_s` gives the block back: its contents stay, as `malloc` does not clear a block.
unfoldable pub sys_sem_unlink : ℕ → Chars → Heap → ℤ × Heap
sys_sem_unlink rounds user h =
    let (name, c) = name_from_user user in
    if not (c == 0)
    then (einval, h)
    else if same_name head_name name
    then (einval, h)
    else (let p = find_sem rounds h name sem_head in
        if not (same_name (h p).m_name name) then (einval, h) else (pos 0, unlink_node h p))
