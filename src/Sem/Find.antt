-- ===== src/Sem/Find.antt =====
-- find_sem: the first node of the list with the name, or the last node.
use hack_linux.Base.{
  if◌then◌else◌, ne→==_false, Bool-cases, length, ℕ, zero, suc, ◌<◌, ◌≡◌, refl, ap, inl, inr, true,
  false, List, [], ◌∷◌, ◌++◌, arith,
}
use hack_linux.Sem.{Chars, Heap, same_name, find_sem}
use hack_linux.Sem.Chain.{Links, last_of}

-- The node of `p ∷ xs` that find_sem is to return.
abbrev pub first_match : Heap → Chars → ℕ → List ℕ → ℕ
first_match h name p [] = p
first_match h name p (x ∷ xs) = if same_name (h p).m_name name then p else first_match h name x xs

pub find_sem-first_match :
    (n : ℕ) (h : Heap) (name : Chars) (p : ℕ) (xs : List ℕ)
    → Links h p xs
    → length xs < n
    → find_sem n h name p ≡ first_match h name p xs
unfolding find_sem
find_sem-first_match zero h name p xs l fuel = absurd (omega arith)
find_sem-first_match (suc n) h name p [] l fuel = rw l
find_sem-first_match (suc n) h name p (x ∷ xs) (next, nz, prev, l) fuel =
    rw (next, ne→==_false x 0 nz, find_sem-first_match n h name x xs l (omega arith))

-- No node of the list has the name.
abbrev pub NoMatch : Heap → Chars → List ℕ → Type 0
NoMatch h name [] = Unit {0}
NoMatch h name (x ∷ xs) = (same_name (h x).m_name name ≡ false) × NoMatch h name xs

-- Where the list is split by the node that was found.
pub data Split (h : Heap) (name : Chars) (p : ℕ) : List ℕ → ℕ → Type 0 where
  -- It is `p` itself.
  here : {xs : List ℕ} → same_name (h p).m_name name ≡ true → Split h name p xs p
  -- It is a node of the list behind `p`, the first one with the name.
  behind :
      {xs : List ℕ} {q : ℕ} (before after : List ℕ)
      → xs ≡ before ++ (q ∷ after)
      → same_name (h q).m_name name ≡ true
      → NoMatch h name (p ∷ before)
      → Split h name p xs q
  -- No node has the name, and the last one is returned.
  missing :
      {xs : List ℕ} {q : ℕ}
      → q ≡ last_of p xs
      → same_name (h q).m_name name ≡ false
      → NoMatch h name (p ∷ xs)
      → Split h name p xs q

pub first_match-Split :
    (h : Heap) (name : Chars) (p : ℕ) (xs : List ℕ) → Split h name p xs (first_match h name p xs)
first_match-Split h name p [] = elim (Bool-cases (same_name (h p).m_name name)) [
  | inl hit ↦ here hit
  | inr miss ↦ missing refl miss (miss, tt)
]
first_match-Split h name p (x ∷ xs) = elim (Bool-cases (same_name (h p).m_name name)) [
  | inl hit ↦ rw hit (here hit)
  | inr miss ↦ rw miss (shift miss (first_match-Split h name x xs))
]
  where
    shift :
        {q : ℕ}
        → same_name (h p).m_name name ≡ false
        → Split h name x xs q
        → Split h name p (x ∷ xs) q
    shift m (here hit) = behind [] xs refl hit (m, tt)
    shift m (behind before after e hit u) = behind (x ∷ before) after (ap (λ l. x ∷ l) e) hit (m, u)
    shift m (missing e miss u) = missing e miss (m, u)
