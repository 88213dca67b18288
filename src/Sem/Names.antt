-- ===== src/Sem/Names.antt =====
-- Names: what strCmp decides, and what is read from user space.
use hack_linux.Base.Chars.{Chars, str_len, IsString, str_len-from}
use hack_linux.Base.{
  ltb, ◌==◌, if◌then◌else◌, lt→ltb, ne→==_false, ==_false→ne, ==_refl, Bool-cases, update, ℕ, zero,
  suc, ◌+◌, ◌≤◌, ◌<◌, ◌≡◌, refl, sym, ◌∙◌, ◌≢◌, ◌↔◌, inl, inr, true, arith, ℕ_discrete,
  le→ltb_false,
}
use hack_linux.Base.Int.{sub_ℕ}
use hack_linux.Sem.{
  max_sem_name, Chars, str_cmp, is_zero, same_name, read_name, name_from_user, str_len, copy_name,
}

-- From index `i` on, the two arrays agree up to a NUL that both have within `n` bytes.
pub data Agree (s1 s2 : Chars) : ℕ → ℕ → Type 0 where
  both_end : {n i : ℕ} → s1 i ≡ 0 → s2 i ≡ 0 → Agree s1 s2 n i
  next : {n i : ℕ} → s1 i ≢ 0 → s1 i ≡ s2 i → Agree s1 s2 n (i + 1) → Agree s1 s2 (suc n) i

-- The first array has a NUL within `n` bytes from `i` on.
pub data Ends (s : Chars) : ℕ → ℕ → Type 0 where
  stop : {n i : ℕ} → s i ≡ 0 → Ends s n i
  go_on : {n i : ℕ} → s i ≢ 0 → Ends s n (i + 1) → Ends s (suc n) i

zero-sub : (a b : ℕ) → is_zero (sub_ℕ a b) ≡ true → a ≡ b
zero-sub a b h = ground arith

sub-zero : (a b : ℕ) → a ≡ b → is_zero (sub_ℕ a b) ≡ true
sub-zero a b h = ground arith

Agree-cmp : (s1 s2 : Chars) (n i : ℕ) → Agree s1 s2 n i → is_zero (str_cmp n s1 s2 i) ≡ true
unfolding str_cmp
Agree-cmp s1 s2 zero i (both_end a b) = sub-zero (s1 i) (s2 i) (a ∙ sym b)
Agree-cmp s1 s2 (suc n) i (both_end a b) = rw (a, b)
Agree-cmp s1 s2 (suc n) i (next ne e r) =
    rw (ne→==_false (s1 i) 0 ne, e, ==_refl (s2 i)) (Agree-cmp s1 s2 n (i + 1) r)

cmp-Agree :
    (s1 s2 : Chars) (n i : ℕ) → Ends s1 n i → is_zero (str_cmp n s1 s2 i) ≡ true → Agree s1 s2 n i
unfolding str_cmp
cmp-Agree s1 s2 zero i (stop z) h = both_end z (sym (zero-sub (s1 i) (s2 i) h) ∙ z)
cmp-Agree s1 s2 (suc n) i (stop z) h = both_end z (sym (zero-sub 0 (s2 i) (rw z at h)))
cmp-Agree s1 s2 (suc n) i (go_on ne r) h = elim (Bool-cases (s1 i == s2 i)) [
  | inl e ↦
      next ne (ground arith) (cmp-Agree s1 s2 n (i + 1) r (rw (ne→==_false (s1 i) 0 ne, e) at h))
  | inr d ↦ absurd (ground (arith, h))
]

-- For a first name that ends within the buffer, strCmp gives 0 exactly if the two names are the
-- same string: equal byte for byte up to and with the NUL.
pub same_name-Agree :
    (s1 s2 : Chars) → Ends s1 max_sem_name 0 → (same_name s1 s2 ≡ true) ↔ Agree s1 s2 max_sem_name 0
unfolding same_name
same_name-Agree s1 s2 ends = (cmp-Agree s1 s2 max_sem_name 0 ends, Agree-cmp s1 s2 max_sem_name 0)

-- What the loop over the user's bytes ends with.
pub data NameRead (user : Chars) : Chars × ℕ → Type 0 where
  short :
      {tmp : Chars} (len : ℕ)
      → len ≤ max_sem_name
      → user len ≡ 0
      → ((i : ℕ) → i < len → user i ≢ 0)
      → ((i : ℕ) → tmp i ≡ (if ltb i len then user i else 0))
      → NameRead user (tmp, 0)
  long :
      {tmp : Chars} {c : ℕ}
      → ((i : ℕ) → i ≤ max_sem_name → user i ≢ 0)
      → c ≢ 0
      → NameRead user (tmp, c)

read_name-NameRead :
    (n i : ℕ) (user tmp : Chars) (c : ℕ)
    → i + n ≡ max_sem_name + 1
    → ((j : ℕ) → j < i → user j ≢ 0)
    → ((j : ℕ) → tmp j ≡ (if ltb j i then user j else 0))
    → (0 < i → c ≢ 0)
    → NameRead user (read_name n user i tmp c)
unfolding read_name
read_name-NameRead zero i user tmp c e before read last =
    long (λ j p. before j (omega arith)) (last (omega arith))
read_name-NameRead (suc n) i user tmp c e before read last = elim (Bool-cases (user i == 0)) [
  | inl stop_here ↦ rw stop_here (short i (omega arith) (ground arith) before read)
  | inr more ↦ rw more (
      read_name-NameRead n (i + 1) user (update tmp i (user i)) (user i) (omega arith)
        (λ j p. elim (ℕ_discrete j i) [
          | yes at ↦ rw at (==_false→ne (user i) 0 more)
          | no ne ↦ before j (omega arith)
        ])
        (λ j. elim (ℕ_discrete j i) [
          | yes at ↦ rw (at, ==_refl i, lt→ltb i (i + 1) (omega arith))
          | no ne ↦ rw (ne→==_false j i ne) (read j ∙ same_test j ne)
        ])
        (λ p. ==_false→ne (user i) 0 more))
]
  where
    same_test :
        (j : ℕ) → j ≢ i → (if ltb j i then user j else 0) ≡ (if ltb j (i + 1) then user j else 0)
    same_test j ne = ground arith

-- The loop reads the name up to its NUL, if it has at most MAXSEMNAME bytes, into a buffer that is
-- 0 behind it, and ends with a last byte of 0; a longer name leaves a last byte that is not 0.
pub name_from_user-NameRead : (user : Chars) → NameRead user (name_from_user user)
unfolding name_from_user
name_from_user-NameRead user =
    read_name-NameRead (max_sem_name + 1) 0 user (λ i. 0) 0 refl (λ j p. elim p [ ])
      (λ j. ground arith) (λ p. elim p [ ])

-- The string in `name` has `len` bytes.
abbrev pub Length : Chars → ℕ → Type 0
Length = IsString max_sem_name

module _ (name : Chars) (len : ℕ) (l : Length name len) where
  str_len-Length : str_len max_sem_name name 0 ≡ len
  str_len-Length = str_len-from max_sem_name max_sem_name 0 len name l refl (omega arith)

  copy_cmp :
      (old : Chars) (n i : ℕ)
      → i + n ≡ max_sem_name
      → i ≤ len
      → is_zero (str_cmp n (λ j. if ltb j len then name j else old j) name i) ≡ (old len == 0)
  unfolding str_cmp
  copy_cmp old zero i e p =
      let at : i ≡ len = omega (arith, l.short) in
      rw (at, le→ltb_false len len (omega arith), l.ends) (ground arith)
  copy_cmp old (suc n) i e p = elim (ℕ_discrete i len) [
    | yes at ↦ rw (at, le→ltb_false len len (omega arith), l.ends) (ground arith)
    | no ne ↦
        rw
          (
            lt→ltb i len (omega arith),
            ne→==_false (name i) 0 (l.before i (omega arith)),
            ==_refl (name i),
          )
          (copy_cmp old n (i + 1) (omega arith) (omega arith))
  ]

  -- The name copied by `strncpy(dest, name, strlen(name))` compares equal to the name exactly if
  -- the destination held a NUL right behind the copied bytes: the terminator is not copied.
  pub same_name-copy : (old : Chars) → same_name (copy_name old name) name ≡ (old len == 0)
  unfolding same_name
  same_name-copy old = rw str_len-Length (copy_cmp old max_sem_name 0 refl (omega arith))
