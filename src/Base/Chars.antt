-- ===== src/Base/Chars.antt =====
-- C strings as functions from the index to the byte.
use hack_linux.Base.{
  ◌==◌, if◌then◌else◌, ne→==_false, ℕ, zero, suc, ◌+◌, ◌≤◌, ◌<◌, ◌≡◌, ◌≢◌, List, [], ◌∷◌, arith,
  ℕ_discrete,
}

-- A `char` array: the byte at each index.
abbrev pub Chars : Type 0
Chars = ℕ → ℕ

abbrev pub chars_of : List ℕ → Chars
chars_of [] i = 0
chars_of (c ∷ cs) zero = c
chars_of (c ∷ cs) (suc i) = chars_of cs i

-- `strlen`, from index `i` on, for `n` rounds.
unfoldable pub str_len : ℕ → Chars → ℕ → ℕ
str_len zero s i = i
str_len (suc n) s i = let rest = str_len n s (i + 1) in if s i == 0 then i else rest

-- The string has `len` bytes, at most `bound`.
pub record IsString (bound : ℕ) (s : Chars) (len : ℕ) : Type 0 where
  pub short : len ≤ bound
  pub ends : s len ≡ 0
  pub before : (i : ℕ) → i < len → s i ≢ 0

pub str_len-from :
    (bound n i len : ℕ) (s : Chars)
    → IsString bound s len
    → i + n ≡ bound
    → i ≤ len
    → str_len n s i ≡ len
unfolding str_len
str_len-from bound zero i len s l e p = omega (arith, l.short)
str_len-from bound (suc n) i len s l e p = elim (ℕ_discrete i len) [
  | yes at ↦ rw (at, l.ends)
  | no ne ↦
      rw (ne→==_false (s i) 0 (l.before i (omega arith)))
        (str_len-from bound n (i + 1) len s l (omega arith) (omega arith))
]
