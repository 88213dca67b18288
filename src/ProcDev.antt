-- ===== src/ProcDev.antt =====
-- The proc device: fs/proc_dev.c (Lab 8). vsprintf and the super block are not in the repository, so
-- the texts that refresh_psinfo and refresh_hdinfo write are the argument `fresh`. The bytes behind
-- the buffers of 1024 bytes are those of the same function.
pub mod Read
pub mod Chunks
mod Tests
use hack_linux.Base.{
  ltb, leb, ◌==◌, if◌then◌else◌, ltb→lt, ltb_false→le, lt→ltb, le→ltb_false, leb→le, le→leb,
  lt→leb_false, ==_iff, ne→==_false, ==_false→ne, ==_refl, tests, Bool-cases, Option-cases, update,
  length, get_elem?, set, length-append, length-set, get_elem?-set_self, get_elem?-set_ne, get_or,
  take, drop, replicate, take-append-drop, length-take, length-drop, length-replicate, length-map,
  ℕ, zero, suc, ◌+◌, ◌-◌, ◌*◌, ◌/◌, ◌%◌, ◌^◌, ◌≤◌, ◌<◌, ◌≡◌, refl, sym, ap, ◌∙◌, subst, ◌≢◌, ◌↔◌,
  ◌⊎◌, inl, inr, Bool, true, false, not, ◌&&◌, ◌||◌, Option, none, some, List, [], ◌∷◌, ◌++◌, map,
  ap₂, fun_ext, add-zero, arith, ℕ_discrete, dec_lt,
}
use hack_linux.Base.Int.{
  ℤ, pos, negsuc, pos_part, neg_part, sub_ℕ, ◌+ℤ◌, ◌-ℤ◌, ◌*ℤ◌, ◌≤ℤ◌, ltb_ℤ, +ℤ_parts, -ℤ_parts,
  eq_of_parts, int_laws,
}
use hack_linux.Base.Chars.{Chars, chars_of, str_len, IsString, str_len-from}

-- A buffer and the pid that reads it, which is -1 at first.
pub record Info : Type 0 where
  pub buf : Chars
  pub pid : ℤ

pub record Proc : Type 0 where
  pub psinfo : Info
  pub hdinfo : Info

-- `*pos`, `read` and the user's memory from `buf` on.
pub record Reading : Type 0 where
  pub at : ℕ
  pub done : ℕ
  pub memory : Chars

-- The loop of proc_read, for `count` rounds; the second part tells if it met the end of the text.
unfoldable pub read_bytes : ℕ → Chars → Reading → Reading × Bool
read_bytes zero text r = (r, false)
read_bytes (suc count) text r =
    let rest =
      read_bytes count text (record {
        at = r.at + 1;
        done = r.done + 1;
        memory = update r.memory r.done (text r.at);
      }) in
    if text r.at == 0 then (r, true) else rest

abbrev pub refused : ℤ
refused = negsuc 21

abbrev pub is_minus_one : ℤ → Bool
is_minus_one (pos n) = false
is_minus_one (negsuc n) = n == 0

abbrev pub is_pid : ℤ → ℕ → Bool
is_pid (pos n) p = n == p
is_pid (negsuc n) p = false

-- One branch of proc_read: the result, `*pos`, the user's memory and the device's state.
unfoldable pub read_info : ℕ → Chars → ℕ → ℕ → Chars → Info → ℤ × (ℕ × (Chars × Info))
unfolding read_bytes
read_info current fresh at count memory i =
    let text = if at == 0 then fresh else i.buf in
    let (r, ended) = read_bytes count text (record { at = at; done = 0; memory = memory }) in
    if not (is_minus_one i.pid) && not (is_pid i.pid current)
    then (refused, (at, (memory, i)))
    else (
      pos r.done,
      (r.at, (r.memory, record { buf = text; pid = if ended then negsuc 0 else i.pid })),
    )

-- proc_read for the task with pid `current`, on a device number.
unfoldable pub proc_read : ℕ → Chars → ℕ → ℕ → ℕ → Chars → Proc → ℤ × (ℕ × (Chars × Proc))
unfolding read_info
proc_read current fresh dev at count memory p =
    if dev == 0
    then (let (n, (at', (memory', i))) = read_info current fresh at count memory p.psinfo in
        (n, (at', (memory', record p { psinfo = i }))))
    else if dev == 1
    then (let (n, (at', (memory', i))) = read_info current fresh at count memory p.hdinfo in
        (n, (at', (memory', record p { hdinfo = i }))))
    else (pos 0, (at, (memory, p)))
