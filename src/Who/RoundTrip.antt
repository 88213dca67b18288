-- ===== src/Who/RoundTrip.antt =====
-- What sys_iam stores and sys_whoami gives back.
use hack_linux.Base.{
  ltb, if◌then◌else◌, ltb→lt, ltb_false→le, lt→ltb, le→ltb_false, ne→==_false, ==_refl, Bool-cases,
  update, ℕ, zero, suc, ◌+◌, ◌-◌, ◌≤◌, ◌<◌, ◌≡◌, refl, sym, ap, ◌∙◌, subst, ◌≢◌, ◌⊎◌, inl, inr, not,
  ◌&&◌, arith, ℕ_discrete, dec_lt,
}
use hack_linux.Base.Int.{ℤ, pos}
use hack_linux.Base.Chars.{Chars, IsString, str_len-from}
use hack_linux.Who.{max_name_length, read_iam, strncpy, invalid, sys_iam, copy_out, sys_whoami}

-- The bytes of a user's string of `len` bytes, with NULs behind.
abbrev pub padded : Chars → ℕ → Chars
padded user len i = if ltb i len then user i else 0

-- The loop ends at the NUL, or after 24 bytes.
module _ (user : Chars) where
  read_short :
      (n i len : ℕ) (tmp : Chars)
      → IsString (max_name_length - 1) user len
      → i + n ≡ max_name_length
      → i ≤ len
      → ((j : ℕ) → tmp j ≡ padded user i j)
      → ((read_iam n user i tmp).1 ≡ len)
        × ((j : ℕ) → (read_iam n user i tmp).0 j ≡ padded user len j)
  unfolding read_iam
  read_short zero i len tmp s e p read = absurd (omega (arith, s.short))
  read_short (suc n) i len tmp s e p read = elim (ℕ_discrete i len) [
    | yes at ↦ rw (ap user at, s.ends) (at, λ j. read j ∙ ap (λ l. padded user l j) at)
    | no ne ↦ rw (ne→==_false (user i) 0 (s.before i (omega arith))) (
        read_short n (i + 1) len (update tmp i (user i)) s (omega arith) (omega arith) (λ j.
          elim (ℕ_discrete j i) [
            | yes at ↦ rw (at, ==_refl i, lt→ltb i (i + 1) (omega arith)) refl
            | no off ↦ rw (ne→==_false j i off) (read j ∙ same_test j i off)
          ]))
  ]
    where
      same_test : (j i : ℕ) → j ≢ i → padded user i j ≡ padded user (i + 1) j
      same_test j i ne = ground arith

  read_long :
      (n i : ℕ) (tmp : Chars)
      → ((j : ℕ) → j < max_name_length → user j ≢ 0)
      → i + n ≡ max_name_length
      → (0 < i → tmp (i - 1) ≢ 0)
      → (read_iam n user i tmp).0 (max_name_length - 1) ≢ 0
  unfolding read_iam
  read_long zero i tmp full e last =
      let at : i - 1 ≡ max_name_length - 1 = omega arith in
      subst (λ j. tmp j ≢ 0) at (last (omega arith))
  read_long (suc n) i tmp full e last = rw (ne→==_false (user i) 0 (full i (omega arith))) (
      read_long n (i + 1) (update tmp i (user i)) full (omega arith) (λ p.
        subst (λ j. update tmp i (user i) j ≢ 0) (same i) (rw (==_refl i) (full i (omega arith)))))
    where
      same : (i : ℕ) → i ≡ i + 1 - 1
      same i = omega arith

-- A string ends among its first n bytes, or none of them is NUL.
ends-cases : (n : ℕ) (s : Chars) → ((len : ℕ) × IsString n s len) ⊎ ((i : ℕ) → i < suc n → s i ≢ 0)
ends-cases zero s = elim (ℕ_discrete (s 0) 0) [
  | yes z ↦ inl (0, record { short = omega arith; ends = z; before = λ i p. absurd (omega arith) })
  | no nz ↦ inr (λ i p. subst (λ j. s j ≢ 0) (zero_only i p) nz)
]
  where
    zero_only : (i : ℕ) → i < 1 → 0 ≡ i
    zero_only i p = omega arith
ends-cases (suc n) s = elim (ends-cases n s) [
  | inl (len, l) ↦
      inl (len, record { short = omega (arith, l.short); ends = l.ends; before = l.before })
  | inr full ↦ elim (ℕ_discrete (s (suc n)) 0) [
    | yes z ↦
        inl (suc n, record { short = omega arith; ends = z; before = λ i p. full i (omega arith) })
    | no nz ↦ inr (λ i p. elim (ℕ_discrete i (suc n)) [
      | yes at ↦ subst (λ j. s j ≢ 0) (sym at) nz
      | no ne ↦ full i (omega arith)
    ])
  ]
]

-- What sys_iam returns and leaves in the kernel.
pub data Named (user old : Chars) : ℤ × Chars → Type 0 where
  accepted :
      {stored : Chars} (len : ℕ)
      → IsString (max_name_length - 1) user len
      → ((i : ℕ) → i < max_name_length → stored i ≡ padded user len i)
      → Named user old (pos len, stored)
  overlong : ((i : ℕ) → i < max_name_length → user i ≢ 0) → Named user old (invalid, old)

IsString-padded :
    (user : Chars) (len : ℕ) (s : Chars)
    → IsString (max_name_length - 1) user len
    → ((i : ℕ) → i < max_name_length → s i ≡ padded user len i)
    → IsString max_name_length s len
IsString-padded user len s l same = record {
  short = omega (arith, l.short);
  ends = same len (omega (arith, l.short)) ∙ rw (le→ltb_false len len (omega arith)) refl;
  before =
      λ i p e. l.before i p (rw (lt→ltb i len p) at (sym (same i (omega (arith, l.short))) ∙ e));
}

-- sys_iam takes a name of at most 23 bytes, which it stores with NULs behind and whose length it
-- returns; a longer name gives -EINVAL and leaves the stored name as it is.
pub sys_iam-Named : (user old : Chars) → Named user old (sys_iam user old)
unfolding sys_iam strncpy
sys_iam-Named user old = elim (ends-cases (max_name_length - 1) user) [
  | inl (len, l) ↦
      let (at_end, read) =
        read_short user max_name_length 0 len (λ j. 0) l refl (omega arith) (λ j. ground arith) in
      let tmp = (read_iam max_name_length user 0 (λ j. 0)).0 in
      let nul : tmp (max_name_length - 1) ≡ 0 =
        read (max_name_length - 1) ∙ rw (le→ltb_false 23 len l.short) refl in
      let size =
        str_len-from max_name_length max_name_length 0 len tmp
          (IsString-padded user len tmp l (λ i p. read i)) refl (omega arith) in
      rw (nul, at_end)
        (accepted len l (λ i p. rw (lt→ltb i max_name_length p, size) (within tmp len i (read i))))
  | inr full ↦
      let more = read_long user max_name_length 0 (λ j. 0) full refl (λ p. absurd (omega arith)) in
      rw (ne→==_false _ 0 more) (overlong full)
]
  where
    within :
        (tmp : Chars) (len i : ℕ)
        → tmp i ≡ padded user len i
        → (if ltb i len then tmp i else 0) ≡ padded user len i
    within tmp len i e = elim (Bool-cases (ltb i len)) [
      | inl below ↦ rw below (e ∙ rw below refl)
      | inr past ↦ rw past refl
    ]

copy_out-byte :
    (n i j : ℕ) (name user : Chars)
    → copy_out n name i user j ≡ (if not (ltb j i) && ltb j (i + n) then name j else user j)
unfolding copy_out
copy_out-byte zero i j name user = ground arith
copy_out-byte (suc n) i j name user = elim (ℕ_discrete j i) [
  | yes at ↦
      copy_out-byte n (i + 1) j name (update user i (name i))
      ∙ rw
          (
            at,
            lt→ltb i (i + 1) (omega arith),
            le→ltb_false i i (omega arith),
            lt→ltb i (i + suc n) (omega arith),
            ==_refl i,
          )
          refl
  | no ne ↦ copy_out-byte n (i + 1) j name (update user i (name i)) ∙ same ne
]
  where
    same :
        j ≢ i
        → (if not (ltb j (i + 1)) && ltb j (i + 1 + n) then name j else update user i (name i) j)
          ≡ (if not (ltb j i) && ltb j (i + suc n) then name j else user j)
    same ne = ground arith

-- What sys_whoami returns and writes, for a stored name of `len` bytes of the string `s`.
pub data Told (s user : Chars) (len size : ℕ) : ℤ × Chars → Type 0 where
  written :
      {memory : Chars}
      → len < size
      → ((i : ℕ) → memory i ≡ (if ltb i (len + 1) then s i else user i))
      → Told s user len size (pos len, memory)
  too_small : size ≤ len → Told s user len size (invalid, user)

length_unique :
    (s : Chars) (a b : ℕ)
    → IsString (max_name_length - 1) s a
    → IsString (max_name_length - 1) s b
    → a ≡ b
length_unique s a b l r = elim (dec_lt a b) [
  | yes p ↦ absurd (r.before a p l.ends)
  | no p ↦ elim (dec_lt b a) [ yes q ↦ absurd (l.before b q r.ends) | no q ↦ omega arith ]
]

told_byte :
    (name stored user : Chars) (len : ℕ)
    → IsString (max_name_length - 1) name len
    → ((i : ℕ) → i < max_name_length → stored i ≡ padded name len i)
    → (j : ℕ) → copy_out (len + 1) stored 0 user j ≡ (if ltb j (len + 1) then name j else user j)
told_byte name stored user len l same j = elim (Bool-cases (ltb j (len + 1))) [
  | inr past ↦
      let far = ltb_false→le j (len + 1) past in
      copy_out-byte (len + 1) 0 j stored user
      ∙ rw (le→ltb_false j 0 (omega arith), le→ltb_false j (0 + (len + 1)) (omega arith), past) refl
  | inl below ↦
      let near = ltb→lt j (len + 1) below in
      copy_out-byte (len + 1) 0 j stored user
      ∙ rw (le→ltb_false j 0 (omega arith), lt→ltb j (0 + (len + 1)) (omega arith), below)
          (copied near)
]
  where
    copied : j < len + 1 → stored j ≡ name j
    copied p = same j (omega (arith, l.short)) ∙ elim (ℕ_discrete j len) [
      | yes at ↦ rw (at, le→ltb_false len len (omega arith)) (sym l.ends)
      | no ne ↦ rw (lt→ltb j len (omega arith)) refl
    ]

stored-Told :
    (name old user : Chars) (len size : ℕ) (r : ℤ × Chars)
    → IsString (max_name_length - 1) name len
    → Named name old r
    → Told name user len size (sys_whoami user size r.1)
unfolding sys_whoami
stored-Told name old user len size _ l (overlong full) =
    absurd (full len (omega (arith, l.short)) l.ends)
stored-Told name old user len size _ l (accepted {stored} other k same) =
    let at = length_unique name other len k l in
    let named : (i : ℕ) → i < max_name_length → stored i ≡ padded name len i =
      λ i p. same i p ∙ ap (λ n. padded name n i) at in
    let length_eq =
      str_len-from max_name_length max_name_length 0 len stored
        (IsString-padded name len stored l named) refl (omega arith) in
    elim (Bool-cases (ltb size (len + 1))) [
      | inl small ↦
          let less = ltb→lt size (len + 1) small in rw (length_eq, small) (too_small (omega arith))
      | inr room ↦
          let less = ltb_false→le size (len + 1) room in
          let minus : len + 1 - 1 ≡ len = omega arith in
          rw (length_eq, room, minus)
            (written (omega arith) (told_byte name stored user len l named))
    ]

-- After sys_iam with a name of at most 23 bytes, sys_whoami returns the length of that name and
-- writes the name with its NUL into the user's buffer, and nothing behind it. A buffer without room
-- for the NUL gives -EINVAL and is not written.
pub sys_whoami-Told :
    (name old user : Chars) (len size : ℕ)
    → IsString (max_name_length - 1) name len
    → Told name user len size (sys_whoami user size (sys_iam name old).1)
sys_whoami-Told name old user len size l =
    stored-Told name old user len size (sys_iam name old) l (sys_iam-Named name old)
