-- ===== src/Sem/Chain.antt =====
-- The doubly linked list of semaphores.
use hack_linux.Base.{◌==◌, ne→==_false, update, ℕ, ◌≡◌, sym, ◌≢◌, false, List, [], ◌∷◌, arith}
use hack_linux.Sem.{Semaphore, Heap, sem_head, head_name}

-- The nodes `xs` follow node `p`, linked both ways.
abbrev pub Links : Heap → ℕ → List ℕ → Type 0
Links h p [] = (h p).m_next ≡ 0
Links h p (x ∷ xs) = ((h p).m_next ≡ x) × (x ≢ 0) × ((h x).m_prev ≡ p) × Links h x xs

abbrev pub Absent : ℕ → List ℕ → Type 0
Absent a [] = Unit {0}
Absent a (x ∷ xs) = (a ≢ x) × Absent a xs

abbrev pub Distinct : List ℕ → Type 0
Distinct [] = Unit {0}
Distinct (x ∷ xs) = Absent x xs × Distinct xs

-- The semaphores of the heap, in the order of the list.
pub record IsTable (h : Heap) (xs : List ℕ) : Type 0 where
  pub links : Links h sem_head xs
  pub distinct : Distinct (sem_head ∷ xs)
  pub head : (h sem_head).m_name ≡ head_name

abbrev pub last_of : ℕ → List ℕ → ℕ
last_of p [] = p
last_of p (x ∷ xs) = last_of x xs

pub Links-update :
    (h : Heap) (a : ℕ) (v : Semaphore) (p : ℕ) (xs : List ℕ)
    → Absent a (p ∷ xs)
    → Links h p xs
    → Links (update h a v) p xs
Links-update h a v p [] (ne, u) l = rw (ne→==_false p a (λ e. ne (sym e))) l
Links-update h a v p (x ∷ xs) (ne, rest) (next, nz, prev, l) =
    let q : (p == a) ≡ false = ne→==_false p a (λ e. ne (sym e)) in
    let r : (x == a) ≡ false = ne→==_false x a (λ e. rest.0 (sym e)) in
    (rw q next, nz, rw r prev, Links-update h a v x xs rest l)

-- A change that keeps the two links of node `a` is not seen.
pub Links-keep :
    (h : Heap) (a : ℕ) (v : Semaphore) (p : ℕ) (xs : List ℕ)
    → v.m_next ≡ (h a).m_next
    → v.m_prev ≡ (h a).m_prev
    → Links h p xs
    → Links (update h a v) p xs
Links-keep h a v p [] n b l = ground (arith, l)
Links-keep h a v p (x ∷ xs) n b (next, nz, prev, l) =
    (ground (arith, next), nz, ground (arith, prev), Links-keep h a v x xs n b l)
