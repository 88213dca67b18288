-- ===== src/Sem/Unlink.antt =====
-- sys_sem_unlink: the node is taken out of the list.
use hack_linux.Base.{
  ◌==◌, if◌then◌else◌, ne→==_false, ==_false→ne, ==_iff, Bool-cases, length, ℕ, ◌<◌, ◌≡◌, sym, ◌∙◌,
  subst, ◌≢◌, inl, inr, true, not, List, [], ◌∷◌, ◌++◌, arith,
}
use hack_linux.Base.Int.{ℤ, pos}
use mathlib.Core.Bool.{false≢true}
use hack_linux.Sem.{
  Chars, Heap, sem_head, head_name, same_name, name_from_user, einval, unlink_node, sys_sem_unlink,
}
use hack_linux.Sem.Chain.{Links, Absent, Distinct, IsTable, last_of}
use hack_linux.Sem.Find.{
  NoMatch, find_sem-first_match, Split, here, behind, missing, first_match-Split,
}
use hack_linux.Sem.Open.{last-ne, Allowed}

-- What the two stores change.
module _ (h : Heap) (q : ℕ) where
  next_kept : (a : ℕ) → a ≢ (h q).m_prev → (unlink_node h q a).m_next ≡ (h a).m_next
  unfolding unlink_node
  next_kept a ne = ground arith

  module _ (self : q ≢ (h q).m_prev) where
    prev_kept : (a : ℕ) → a ≢ (h q).m_next → (unlink_node h q a).m_prev ≡ (h a).m_prev
    unfolding unlink_node
    prev_kept a ne = rw (ne→==_false q (h q).m_prev self) (ground arith)

    next_new : (unlink_node h q (h q).m_prev).m_next ≡ (h q).m_next
    unfolding unlink_node
    next_new = rw (ne→==_false q (h q).m_prev self) (ground arith)

    prev_new : (h q).m_next ≢ 0 → (unlink_node h q (h q).m_next).m_prev ≡ (h q).m_prev
    unfolding unlink_node
    prev_new ne = rw (ne→==_false q (h q).m_prev self) (ground arith)

-- The stores behind neither touch the nodes of `p ∷ xs`.
Links-frame :
    (h g : Heap) (before_q after_q : ℕ)
    → ((a : ℕ) → a ≢ before_q → (g a).m_next ≡ (h a).m_next)
    → ((a : ℕ) → a ≢ after_q → (g a).m_prev ≡ (h a).m_prev)
    → (p : ℕ) (xs : List ℕ) → Absent before_q (p ∷ xs)
    → Absent after_q xs
    → Links h p xs
    → Links g p xs
Links-frame h g bq aq next prev p [] (ne, u) v l = next p (λ e. ne (sym e)) ∙ l
Links-frame h g bq aq next prev p (x ∷ xs) (ne, u) (ne', v) (nx, nz, px, l) = (
  next p (λ e. ne (sym e)) ∙ nx,
  nz,
  prev x (λ e. ne' (sym e)) ∙ px,
  Links-frame h g bq aq next prev x xs u v l,
)

Absent-append : (a : ℕ) (xs ys : List ℕ) → Absent a (xs ++ ys) → Absent a xs × Absent a ys
Absent-append a [] ys u = (tt, u)
Absent-append a (x ∷ xs) ys (ne, u) = let (l, r) = Absent-append a xs ys u in ((ne, l), r)

Absent-without : (a q : ℕ) (xs ys : List ℕ) → Absent a (xs ++ (q ∷ ys)) → Absent a (xs ++ ys)
Absent-without a q [] ys (ne, u) = u
Absent-without a q (x ∷ xs) ys (ne, u) = (ne, Absent-without a q xs ys u)

Distinct-without : (q : ℕ) (xs ys : List ℕ) → Distinct (xs ++ (q ∷ ys)) → Distinct (xs ++ ys)
Distinct-without q [] ys (u, d) = d
Distinct-without q (x ∷ xs) ys (u, d) = (Absent-without x q xs ys u, Distinct-without q xs ys d)

-- The node right behind `p` goes.
unlink-first :
    (h : Heap) (p q : ℕ) (ys : List ℕ)
    → Links h p (q ∷ ys)
    → Distinct (p ∷ q ∷ ys)
    → Links (unlink_node h q) p ys
unlink-first h p q [] (nx, nz, px, l) ((pq, u), d) =
    let self : q ≢ (h q).m_prev = λ e. pq (sym (e ∙ px)) in
    subst (λ a. (unlink_node h q a).m_next ≡ 0) px (next_new h q self ∙ l)
unlink-first h p q (y ∷ ys) (nx, nz, px, (ny, yz, py, l)) ((pq, (py', u)), ((qy, v), (w, d))) =
    let self : q ≢ (h q).m_prev = λ e. pq (sym (e ∙ px)) in
    (
      subst (λ a. (unlink_node h q a).m_next ≡ y) px (next_new h q self ∙ ny),
      yz,
      subst (λ a. (unlink_node h q a).m_prev ≡ p) ny
          (prev_new h q self (λ e. yz (sym ny ∙ e)) ∙ px),
      Links-frame h (unlink_node h q) (h q).m_prev (h q).m_next (next_kept h q) (prev_kept h q self)
          y ys (subst (λ a. Absent a (y ∷ ys)) (sym px) (py', u))
          (subst (λ a. Absent a ys) (sym ny) w) l,
    )

-- The node before `q` is the last of `x ∷ before`, and the nodes behind it are linked to it.
prev_of :
    (h : Heap) (x q : ℕ) (before after : List ℕ)
    → Links h x (before ++ (q ∷ after))
    → (h q).m_prev ≡ last_of x before
prev_of h x q [] after (nx, nz, px, l) = px
prev_of h x q (y ∷ before) after (nx, nz, px, l) = prev_of h y q before after l

Links-behind :
    (h : Heap) (x q : ℕ) (before after : List ℕ)
    → Links h x (before ++ (q ∷ after))
    → Links h q after
Links-behind h x q [] after (nx, nz, px, l) = l
Links-behind h x q (y ∷ before) after (nx, nz, px, l) = Links-behind h y q before after l

last-ne-later :
    (x q : ℕ) (before after : List ℕ)
    → Distinct (x ∷ (before ++ (q ∷ after)))
    → q ≢ last_of x before
last-ne-later x q [] after ((ne, u), d) = λ e. ne (sym e)
last-ne-later x q (y ∷ before) after (u, d) = last-ne-later y q before after d

next-ne :
    (h : Heap) (x q : ℕ) (after : List ℕ)
    → x ≢ 0
    → Absent x (q ∷ after)
    → Links h q after
    → x ≢ (h q).m_next
next-ne h x q [] nz u l = λ e. nz (e ∙ l)
next-ne h x q (y ∷ ys) nz (xq, (xy, u)) (ny, yz, py, l) = λ e. xy (e ∙ ny)

Links-unlink :
    (h : Heap) (q p : ℕ) (before after : List ℕ)
    → Links h p (before ++ (q ∷ after))
    → Distinct (p ∷ (before ++ (q ∷ after)))
    → Links (unlink_node h q) p (before ++ after)
Links-unlink h q p [] after l d = unlink-first h p q after l d
Links-unlink h q p (x ∷ before) after (nx, nz, px, l) (u, d) = (
  next_kept h q p (λ e.
        last-ne p x before (Absent-append p (x ∷ before) (q ∷ after) u).0
          (e ∙ prev_of h x q before after l))
      ∙ nx,
  nz,
  prev_kept h q (λ e. last-ne-later x q before after d (e ∙ prev_of h x q before after l)) x
        (next-ne h x q after nz (Absent-append x before (q ∷ after) d.0).1
          (Links-behind h x q before after l))
      ∙ px,
  Links-unlink h q x before after l d,
)

pub data Unlinked (h : Heap) (xs : List ℕ) (user : Chars) : ℤ × Heap → Type 0 where
  too_long : (name_from_user user).1 ≢ 0 → Unlinked h xs user (einval, h)
  reserved : same_name head_name (name_from_user user).0 ≡ true → Unlinked h xs user (einval, h)
  unknown : Allowed user → NoMatch h (name_from_user user).0 xs → Unlinked h xs user (einval, h)
  -- The node `q`, the first one with the name, is taken out.
  removed :
      Allowed user
      → {g : Heap} (q : ℕ) (before after : List ℕ) → xs ≡ before ++ (q ∷ after)
      → same_name (h q).m_name (name_from_user user).0 ≡ true
      → NoMatch h (name_from_user user).0 before
      → IsTable g (before ++ after)
      → ((a : ℕ)
          → ((g a).m_name ≡ (h a).m_name)
            × ((g a).m_value ≡ (h a).m_value)
            × ((g a).m_wait ≡ (h a).m_wait))
      → Unlinked h xs user (pos 0, g)

fields_kept :
    (h : Heap) (q a : ℕ)
    → ((unlink_node h q a).m_name ≡ (h a).m_name)
      × ((unlink_node h q a).m_value ≡ (h a).m_value)
      × ((unlink_node h q a).m_wait ≡ (h a).m_wait)
unfolding unlink_node
fields_kept h q a = (ground arith, ground arith, ground arith)

found-Unlinked :
    (h : Heap) (xs : List ℕ) (user : Chars) {q : ℕ}
    → IsTable h xs
    → Allowed user
    → Split h (name_from_user user).0 sem_head xs q
    → Unlinked h xs user (
        if not (same_name (h q).m_name (name_from_user user).0)
        then (einval, h)
        else (pos 0, unlink_node h q))
found-Unlinked h xs user table (fits, open_name) (here hit) =
    absurd (false≢true (sym open_name ∙ rw table.head at hit))
found-Unlinked h xs user {q} table allowed (behind before after e hit (m, u)) = rw hit (
    removed allowed q before after e hit u
      (record {
        links =
            Links-unlink h q sem_head before after (subst (Links h sem_head) e table.links)
              (subst (λ l. Distinct (sem_head ∷ l)) e table.distinct);
        distinct =
            Distinct-without q (sem_head ∷ before) after
              (subst (λ l. Distinct (sem_head ∷ l)) e table.distinct);
        head = (fields_kept h q sem_head).0 ∙ table.head;
      })
      (fields_kept h q))
found-Unlinked h xs user table allowed (missing e miss (m, u)) = rw miss (unknown allowed u)

-- On a well-formed list, with enough rounds for its length, sys_sem_unlink always returns, as
-- `Unlinked` lists. A name that is too long or reserved, or that no node
-- of the list has, gives -EINVAL with nothing changed. Otherwise the first node with the name is
-- taken out of the list, which stays well formed, the result is 0, and no node's name, value or wait
-- queue changes.
pub sys_sem_unlink-Unlinked :
    (rounds : ℕ) (h : Heap) (xs : List ℕ) (user : Chars)
    → IsTable h xs
    → length xs < rounds
    → Unlinked h xs user (sys_sem_unlink rounds user h)
unfolding sys_sem_unlink
sys_sem_unlink-Unlinked rounds h xs user table fuel =
    elim (Bool-cases ((name_from_user user).1 == 0)) [
      | inr long ↦ rw long (too_long (==_false→ne _ 0 long))
      | inl fits ↦ elim (Bool-cases (same_name head_name (name_from_user user).0)) [
        | inl taken ↦ rw (fits, taken) (reserved taken)
        | inr open_name ↦
            rw
              (
                fits,
                open_name,
                find_sem-first_match rounds h (name_from_user user).0 sem_head xs table.links fuel,
              )
              (found-Unlinked h xs user table ((==_iff _ 0).0 fits, open_name)
                (first_match-Split h (name_from_user user).0 sem_head xs))
      ]
    ]
