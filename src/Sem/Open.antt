-- ===== src/Sem/Open.antt =====
-- sys_sem_open: the list of semaphores after each outcome.
use mathlib.Core.Bool.{false≢true}
use hack_linux.Base.{
  ◌==◌, if◌then◌else◌, ne→==_false, ==_false→ne, ==_refl, ==_iff, Bool-cases, update, length, ℕ,
  ◌<◌, ◌≡◌, refl, sym, ap, ◌∙◌, ◌≢◌, inl, inr, true, false, List, [], ◌∷◌, ◌++◌, arith,
}
use hack_linux.Base.Int.{ℤ, pos}
use hack_linux.Sem.{
  Chars, Semaphore, Heap, sem_head, head_name, same_name, name_from_user, einval, enospc, copy_name,
  link_new, sys_sem_open,
}
use hack_linux.Sem.Chain.{Links, Absent, Distinct, IsTable, last_of}
use hack_linux.Sem.Find.{
  NoMatch, find_sem-first_match, Split, here, behind, missing, first_match-Split,
}

-- The block that `malloc` returns is none of the list.
abbrev pub Fresh : ℕ → List ℕ → Type 0
Fresh a xs = Absent a (sem_head ∷ xs)

-- A node whose next pointer is changed keeps everything else.
abbrev pub SameNode : Semaphore → Semaphore → Type 0
SameNode v w =
    (v.m_name ≡ w.m_name) × (v.m_value ≡ w.m_value) × (v.m_prev ≡ w.m_prev) × (v.m_wait ≡ w.m_wait)

-- The name is not too long and not the head's.
abbrev pub Allowed : Chars → Type 0
Allowed user = ((name_from_user user).1 ≡ 0) × (same_name head_name (name_from_user user).0 ≡ false)

pub data Opened (h : Heap) (xs : List ℕ) (user : Chars) (value fresh : ℕ) : ℤ × Heap → Type 0 where
  too_long : (name_from_user user).1 ≢ 0 → Opened h xs user value fresh (einval, h)
  reserved :
      same_name head_name (name_from_user user).0 ≡ true → Opened h xs user value fresh (einval, h)
  -- The semaphore exists: the address of the first one with the name is returned, and nothing
  -- changes.
  exists :
      Allowed user
      → {q : ℕ} (before after : List ℕ) → xs ≡ before ++ (q ∷ after)
      → same_name (h q).m_name (name_from_user user).0 ≡ true
      → NoMatch h (name_from_user user).0 before
      → Opened h xs user value fresh (pos q, h)
  no_space :
      Allowed user
      → NoMatch h (name_from_user user).0 xs
      → fresh ≡ 0
      → Opened h xs user value fresh (enospc, h)
  -- It is appended to the list.
  created :
      {g : Heap}
      → Allowed user
      → NoMatch h (name_from_user user).0 xs
      → fresh ≢ 0
      → IsTable g (xs ++ (fresh ∷ []))
      → (g fresh).m_value ≡ value
      → (g fresh).m_wait ≡ 0
      → (g fresh).m_name ≡ copy_name (h fresh).m_name (name_from_user user).0
      → ((a : ℕ) → a ≢ fresh → SameNode (g a) (h a))
      → Opened h xs user value fresh (pos fresh, g)

pub last-ne : (a x : ℕ) (xs : List ℕ) → Absent a (x ∷ xs) → a ≢ last_of x xs
last-ne a x [] (ne, u) = ne
last-ne a x (y ∷ ys) (ne, rest) = last-ne a y ys rest

-- The new block `fresh` is linked behind the last node.
module _ (h : Heap) (fresh : ℕ) (v : Semaphore) (nz : fresh ≢ 0) (next : v.m_next ≡ 0) where
  abbrev linked : ℕ → Heap
  linked last = update (update h fresh v) last (record (h last) { m_next = fresh })

  Links-snoc :
      (p : ℕ) (xs : List ℕ)
      → Links h p xs
      → Distinct (p ∷ xs)
      → Absent fresh (p ∷ xs)
      → v.m_prev ≡ last_of p xs
      → Links (linked (last_of p xs)) p (xs ++ (fresh ∷ []))
  Links-snoc p [] l d (ne, u) prev = (
    rw (==_refl p),
    nz,
    rw (ne→==_false fresh p ne, ==_refl fresh) prev,
    rw (ne→==_false fresh p ne, ==_refl fresh) next,
  )
  Links-snoc p (x ∷ xs) (nx, xz, px, l) (ps, d) (ne, rest) prev = (
    rw (ne→==_false p (last_of x xs) (last-ne p x xs ps), ne→==_false p fresh (λ e. ne (sym e))) nx,
    xz,
    keeps_prev,
    Links-snoc x xs l d rest prev,
  )
    where
      keeps_prev : (linked (last_of x xs) x).m_prev ≡ p
      keeps_prev = elim (Bool-cases (x == last_of x xs)) [
        | inl e ↦ let at : last_of x xs ≡ x = ground arith in rw (at, ==_refl x) px
        | inr n ↦ rw (n, ne→==_false x fresh (λ e. rest.0 (sym e))) px
      ]

Absent-snoc : (a b : ℕ) (xs : List ℕ) → b ≢ a → Absent b xs → Absent b (xs ++ (a ∷ []))
Absent-snoc a b [] ne u = (ne, tt)
Absent-snoc a b (x ∷ xs) ne (p, u) = (p, Absent-snoc a b xs ne u)

Distinct-snoc : (a : ℕ) (xs : List ℕ) → Distinct xs → Absent a xs → Distinct (xs ++ (a ∷ []))
Distinct-snoc a [] d u = (tt, tt)
Distinct-snoc a (x ∷ xs) (p, d) (ne, u) =
    (Absent-snoc a x xs (λ e. ne (sym e)) p, Distinct-snoc a xs d u)

module _ (h : Heap) (xs : List ℕ) (table : IsTable h xs) (user : Chars) (value fresh : ℕ)
    (new : Fresh fresh xs) where
  name : Chars
  name = (name_from_user user).0

  last : ℕ
  last = last_of sem_head xs

  block : Semaphore
  block = record {
    m_name = copy_name (h fresh).m_name (name_from_user user).0;
    m_value = value;
    m_prev = last_of sem_head xs;
    m_next = 0;
    m_wait = 0;
  }

  last_ne : fresh ≢ last_of sem_head xs
  last_ne = last-ne fresh sem_head xs new

  abbrev result : Heap
  result =
      update (update h fresh block) (last_of sem_head xs)
        (record (h (last_of sem_head xs)) { m_next = fresh })

  result_at : result fresh ≡ block
  result_at = rw (ne→==_false fresh (last_of sem_head xs) last_ne, ==_refl fresh)

  result_eq : link_new h (last_of sem_head xs) fresh (name_from_user user).0 value ≡ result
  unfolding block
  result_eq = rw (ne→==_false (last_of sem_head xs) fresh (λ e. last_ne (sym e)))

  others : (a : ℕ) → a ≢ fresh → SameNode (result a) (h a)
  others a ne = elim (Bool-cases (a == last_of sem_head xs)) [
    | inl e ↦
        let at : a ≡ last_of sem_head xs = ground arith in
        rw (at, ==_refl (last_of sem_head xs)) (refl, refl, refl, refl)
    | inr n ↦ rw (n, ne→==_false a fresh ne) (refl, refl, refl, refl)
  ]

  result-IsTable : fresh ≢ 0 → IsTable result (xs ++ (fresh ∷ []))
  unfolding block
  result-IsTable nz = record {
    links = Links-snoc h fresh block nz refl sem_head xs table.links table.distinct new refl;
    distinct = Distinct-snoc fresh (sem_head ∷ xs) table.distinct new;
    head = (others sem_head (λ e. new.0 (sym e))).0 ∙ table.head;
  }

  result-Opened :
      Allowed user
      → NoMatch h (name_from_user user).0 xs
      → fresh ≢ 0
      → Opened h xs user value fresh (pos fresh, result)
  unfolding block
  result-Opened allowed none_match nz =
      created allowed none_match nz (result-IsTable nz) (ap (λ n. n.m_value) result_at)
        (ap (λ n. n.m_wait) result_at) (ap (λ n. n.m_name) result_at) others

  -- The name is new or in the list; the head has another name.
  found-Opened :
      {q : ℕ}
      → Allowed user
      → Split h (name_from_user user).0 sem_head xs q
      → Opened h xs user value fresh (
          if same_name (h q).m_name (name_from_user user).0
          then (pos q, h)
          else if fresh == 0
          then (enospc, h)
          else (pos fresh, link_new h q fresh (name_from_user user).0 value))
  found-Opened (fits, open_name) (here hit) =
      absurd (false≢true (sym open_name ∙ rw table.head at hit))
  found-Opened allowed (behind before after e hit (m, u)) =
      rw hit (exists allowed before after e hit u)
  found-Opened allowed (missing e miss (m, u)) = elim (Bool-cases (fresh == 0)) [
    | inl null ↦ rw (miss, null) (no_space allowed u (ground arith))
    | inr some_block ↦
        rw (miss, some_block, e, result_eq)
          (result-Opened allowed u (==_false→ne fresh 0 some_block))
  ]

-- On a well-formed list, with a block from `malloc` that is none of its nodes and enough rounds for
-- its length, sys_sem_open always returns, as `Opened` lists. A name that is too long or reserved
-- gives -EINVAL with nothing changed. Any other name that some node has gives the address of the
-- first such node and changes nothing. If no node has it, NULL from `malloc` gives -ENOSPC with
-- nothing changed, and otherwise the block is appended to
-- the list, which stays well formed, with the value, no waiting task and the name copied over its
-- old bytes, its address is returned, and no other node's name, value, wait queue or back link
-- changes.
pub sys_sem_open-Opened :
    (rounds : ℕ) (h : Heap) (xs : List ℕ) (user : Chars) (value fresh : ℕ)
    → IsTable h xs
    → Fresh fresh xs
    → length xs < rounds
    → Opened h xs user value fresh (sys_sem_open rounds user value fresh h)
unfolding sys_sem_open
sys_sem_open-Opened rounds h xs user value fresh table new fuel =
    elim (Bool-cases ((name_from_user user).1 == 0)) [
      | inr long ↦ rw long (too_long (==_false→ne _ 0 long))
      | inl fits ↦ elim (Bool-cases (same_name head_name (name_from_user user).0)) [
        | inl taken ↦ rw (fits, taken) (reserved taken)
        | inr open_name ↦
            rw
              (
                fits,
                open_name,
                find_sem-first_match rounds h (name_from_user user).0 sem_head xs table.links fuel,
              )
              (found-Opened h xs table user value fresh new ((==_iff _ 0).0 fits, open_name)
                (first_match-Split h (name_from_user user).0 sem_head xs))
      ]
    ]
