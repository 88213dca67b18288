-- ===== src/Sem/Again.antt =====
-- Opening a semaphore that was just created.
use hack_linux.Base.{
  Bool-cases, length, length-append, ℕ, ◌+◌, ◌<◌, ◌≡◌, refl, sym, ◌∙◌, subst, ◌≢◌, inl, inr, true,
  false, List, [], ◌∷◌, ◌++◌, arith,
}
use hack_linux.Base.Int.{ℤ, pos}
use mathlib.Core.Bool.{false≢true}
use hack_linux.Sem.{
  Chars, Heap, sem_head, head_name, same_name, find_sem, name_from_user, copy_name, sys_sem_open,
}
use hack_linux.Sem.Chain.{Absent, IsTable}
use hack_linux.Sem.Names.{Length, same_name-copy}
use hack_linux.Sem.Find.{NoMatch, first_match, find_sem-first_match}
use hack_linux.Sem.Open.{
  Fresh, SameNode, Opened, too_long, reserved, exists, no_space, created, sys_sem_open-Opened,
}

first_match-NoMatch :
    (h : Heap) (name : Chars) (p : ℕ) (xs : List ℕ)
    → same_name (h (first_match h name p xs)).m_name name ≡ false
    → NoMatch h name (p ∷ xs)
first_match-NoMatch h name p [] miss = (miss, tt)
first_match-NoMatch h name p (x ∷ xs) miss = elim (Bool-cases (same_name (h p).m_name name)) [
  | inl hit ↦ absurd (false≢true (sym (rw hit at miss) ∙ hit))
  | inr n ↦ (n, first_match-NoMatch h name x xs (rw n at miss))
]

first_match-snoc :
    (h g : Heap) (name : Chars) (p : ℕ) (xs : List ℕ) (fresh : ℕ)
    → ((a : ℕ) → a ≢ fresh → (g a).m_name ≡ (h a).m_name)
    → Absent fresh (p ∷ xs)
    → NoMatch h name (p ∷ xs)
    → first_match g name p (xs ++ (fresh ∷ [])) ≡ fresh
first_match-snoc h g name p [] fresh same (ne, u) (miss, n) = rw (same p (λ e. ne (sym e)), miss)
first_match-snoc h g name p (x ∷ xs) fresh same (ne, u) (miss, n) =
    rw (same p (λ e. ne (sym e)), miss) (first_match-snoc h g name x xs fresh same u n)

NoMatch-append :
    (h : Heap) (name : Chars) (before after : List ℕ) (q : ℕ)
    → NoMatch h name (before ++ (q ∷ after))
    → same_name (h q).m_name name ≡ false
NoMatch-append h name [] after q (miss, n) = miss
NoMatch-append h name (x ∷ before) after q (miss, n) = NoMatch-append h name before after q n

length-snoc : (xs : List ℕ) (a : ℕ) → length (xs ++ (a ∷ [])) ≡ length xs + 1
length-snoc xs a = length-append xs (a ∷ [])

module _ (rounds : ℕ) (h : Heap) (xs : List ℕ) (user : Chars) (value value' fresh fresh' len : ℕ)
    (nz : fresh ≢ 0) (fuel : length xs + 1 < rounds) (fits : (name_from_user user).1 ≡ 0)
    (open_name : same_name head_name (name_from_user user).0 ≡ false)
    (size : Length (name_from_user user).0 len) (clean : (h fresh).m_name len ≡ 0)
    (none_match : NoMatch h (name_from_user user).0 (sem_head ∷ xs)) (new : Fresh fresh xs) where
  second_open :
      (g : Heap)
      → IsTable g (xs ++ (fresh ∷ []))
      → (g fresh).m_name ≡ copy_name (h fresh).m_name (name_from_user user).0
      → ((a : ℕ) → a ≢ fresh → SameNode (g a) (h a))
      → sys_sem_open rounds user value' fresh' g ≡ (pos fresh, g)
  unfolding sys_sem_open
  second_open g table named same =
      let found : find_sem rounds g (name_from_user user).0 sem_head ≡ fresh =
        find_sem-first_match rounds g (name_from_user user).0 sem_head (xs ++ (fresh ∷ []))
          table.links (omega (arith, length-snoc xs fresh))
        ∙ first_match-snoc h g (name_from_user user).0 sem_head xs fresh (λ a ne. (same a ne).0) new
            none_match in
      let hit : same_name (g fresh).m_name (name_from_user user).0 ≡ true =
        rw named (same_name-copy (name_from_user user).0 len size (h fresh).m_name ∙ rw clean) in
      rw (fits, open_name, found, hit)

  after_open :
      {r : ℤ × Heap}
      → Opened h xs user value fresh r
      → (r.0 ≡ pos fresh) × (sys_sem_open rounds user value' fresh' r.1 ≡ (pos fresh, r.1))
  after_open (too_long n) = absurd (n fits)
  after_open (reserved n) = absurd (false≢true (sym open_name ∙ n))
  after_open (exists a {q} before after e hit b) = absurd (
      false≢true (
        sym (
          NoMatch-append h (name_from_user user).0 before after q
            (subst (NoMatch h (name_from_user user).0) e none_match.1))
        ∙ hit))
  after_open (no_space a n z) = absurd (nz z)
  after_open (created {g} a n z table v w named same) = (refl, second_open g table named same)

-- Where find_sem finds no such name on a well-formed list, and `malloc` gives a block that is none
-- of its nodes and has a NUL at the index of the name's length, a second sys_sem_open with the same
-- name returns the address of the semaphore that the first one created, and changes nothing.
pub sys_sem_open-twice :
    (rounds : ℕ) (h : Heap) (xs : List ℕ) (user : Chars) (value value' fresh fresh' len : ℕ)
    → IsTable h xs
    → Fresh fresh xs
    → fresh ≢ 0
    → length xs + 1 < rounds
    → (name_from_user user).1 ≡ 0
    → same_name head_name (name_from_user user).0 ≡ false
    → Length (name_from_user user).0 len
    → (h fresh).m_name len ≡ 0
    → same_name
        (h (find_sem rounds h (name_from_user user).0 sem_head)).m_name
        (name_from_user user).0
      ≡ false
    → let (p, g) = sys_sem_open rounds user value fresh h in
      (p ≡ pos fresh) × (sys_sem_open rounds user value' fresh' g ≡ (pos fresh, g))
sys_sem_open-twice rounds h xs user value value' fresh fresh' len table new nz fuel fits open_name
      size clean miss =
    after_open rounds h xs user value value' fresh fresh' len nz fuel fits open_name size clean
      (first_match-NoMatch h (name_from_user user).0 sem_head xs (
        subst (λ p. same_name (h p).m_name (name_from_user user).0 ≡ false)
          (find_sem-first_match rounds h (name_from_user user).0 sem_head xs table.links
            (omega arith))
          miss))
      new (sys_sem_open-Opened rounds h xs user value fresh table new (omega arith))
