-- ===== src/Who.antt =====
-- The name of the machine's user: kernel/who.c (Lab 2). The user's bytes are functions of the
-- offset from `name`.
pub mod RoundTrip
mod Tests
use hack_linux.Base.{
  ltb, leb, ◌==◌, if◌then◌else◌, ltb→lt, ltb_false→le, lt→ltb, le→ltb_false, leb→le, le→leb,
  lt→leb_false, ==_iff, ne→==_false, ==_false→ne, ==_refl, tests, Bool-cases, Option-cases, update,
  length, get_elem?, set, length-append, length-set, get_elem?-set_self, get_elem?-set_ne, get_or,
  take, drop, replicate, take-append-drop, length-take, length-drop, length-replicate, length-map,
  ℕ, zero, suc, ◌+◌, ◌-◌, ◌*◌, ◌/◌, ◌%◌, ◌^◌, ◌≤◌, ◌<◌, ◌≡◌, refl, sym, ap, ◌∙◌, subst, ◌≢◌, ◌↔◌,
  ◌⊎◌, inl, inr, Bool, true, false, not, ◌&&◌, ◌||◌, Option, none, some, List, [], ◌∷◌, ◌++◌, map,
  ap₂, fun_ext, add-zero, arith, ℕ_discrete, dec_lt,
}
use hack_linux.Base.Int.{
  ℤ, pos, negsuc, pos_part, neg_part, sub_ℕ, ◌+ℤ◌, ◌-ℤ◌, ◌*ℤ◌, ◌≤ℤ◌, ltb_ℤ, +ℤ_parts, -ℤ_parts,
  eq_of_parts, int_laws,
}
use hack_linux.Base.Chars.{Chars, chars_of, str_len, IsString, str_len-from}

abbrev pub max_name_length : ℕ
max_name_length = 24

-- The loop of sys_iam, with `n` rounds left at index `i`: the buffer and `i` at its end.
unfoldable pub read_iam : ℕ → Chars → ℕ → Chars → Chars × ℕ
read_iam zero user i tmp = (tmp, i)
read_iam (suc n) user i tmp =
    let rest = read_iam n user (i + 1) (update tmp i (user i)) in
    if user i == 0 then (tmp, i) else rest

-- `strncpy(dest, src, n)`, which pads with NUL.
unfoldable pub strncpy : Chars → Chars → ℕ → Chars
unfolding str_len
strncpy dest src n i = if ltb i n then (if ltb i (str_len n src 0) then src i else 0) else dest i

abbrev pub invalid : ℤ
invalid = negsuc 21

-- sys_iam on the name in the kernel.
unfoldable pub sys_iam : Chars → Chars → ℤ × Chars
unfolding read_iam strncpy
sys_iam user name_in_kernel =
    let (tmp, i) = read_iam max_name_length user 0 (λ j. 0) in
    if not (tmp (max_name_length - 1) == 0)
    then (invalid, name_in_kernel)
    else (pos i, strncpy name_in_kernel tmp max_name_length)

-- The loop of sys_whoami, for `n` rounds from index `i` on.
unfoldable pub copy_out : ℕ → Chars → ℕ → Chars → Chars
copy_out zero name i user = user
copy_out (suc n) name i user = copy_out n name (i + 1) (update user i (name i))

-- sys_whoami: the result and the user's memory.
unfoldable pub sys_whoami : Chars → ℕ → Chars → ℤ × Chars
unfolding copy_out str_len
sys_whoami user size name_in_kernel =
    let need_length = str_len max_name_length name_in_kernel 0 + 1 in
    if ltb size need_length
    then (invalid, user)
    else (pos (need_length - 1), copy_out need_length name_in_kernel 0 user)
