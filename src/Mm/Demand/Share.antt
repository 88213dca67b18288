-- ===== src/Mm/Demand/Share.antt =====
-- What share_page can end with: mm/memory.c (Lab 6).
use hack_linux.Base.{
  ltb, leb, ◌==◌, if◌then◌else◌, Bool-cases, ℕ, zero, suc, ◌+◌, ◌-◌, ◌/◌, ◌^◌, inl, inr, Bool, true,
  false, not, ◌||◌, Option, none, some,
}
use hack_linux.Mm.{
  low_mem, paging_pages, Mm, Panic, share_exists, Outcome, ok, panic, killed, wild, M, pure,
  and_then, present, frame, dir_entry, table_offset,
}
use hack_linux.Mm.Tables.{clean, target_table, share_entry, try_to_share}
use hack_linux.Mm.Demand.{Program, shares_file, start_of, share_slots, share_with, share_page}

-- The end of a search for a page to share: without one nothing has changed.
pub data Shared (s : Mm) : Outcome Bool → Type 0 where
  not_shared : Shared s (ok false s)
  shared : (t : Mm) → Shared s (ok true t)
  share_panics : (c : Panic) (t : Mm) → Shared s (panic c t)
  share_dies : (t : Mm) → Shared s (killed t)
  share_wild : Shared s wild

-- An outcome that is no answer `false`.
data Final : Outcome Bool → Type 0 where
  done : (t : Mm) → Final (ok true t)
  stops : (c : Panic) (t : Mm) → Final (panic c t)
  ends : (t : Mm) → Final (killed t)
  runs_wild : Final wild

Final-Shared : {s : Mm} {o : Outcome Bool} → Final o → Shared s o
Final-Shared (done t) = shared t
Final-Shared (stops c t) = share_panics c t
Final-Shared (ends t) = share_dies t
Final-Shared runs_wild = share_wild

and_then-Final :
    (o : Outcome ℕ) (k : ℕ → M Bool) → ((a : ℕ) (t : Mm) → Final (k a t)) → Final (and_then o k)
and_then-Final (ok a t) k f = f a t
and_then-Final (panic c t) k f = stops c t
and_then-Final (killed t) k f = ends t
and_then-Final wild k f = runs_wild

share_entry-Final :
    (from_page to_page phys_addr : ℕ) (s : Mm) → Final (share_entry from_page to_page phys_addr s)
share_entry-Final from_page to_page phys_addr s = elim (Bool-cases (present (s.word to_page))) [
  | inl there ↦ rw there (stops share_exists s)
  | inr free ↦ elim (Bool-cases (ltb ((phys_addr - low_mem) / 2 ^ 12) paging_pages)) [
    | inl covered ↦ rw (free, covered, covered) (done _)
    | inr out ↦ rw (free, out) runs_wild
  ]
]

try_to_share-Shared :
    (address start current_start : ℕ) (s : Mm)
    → Shared s (try_to_share address start current_start s)
unfolding try_to_share
try_to_share-Shared address start current_start s =
    let from = s.word (dir_entry address + dir_entry start) in
    let e = s.word (frame from + table_offset address) in
    elim (Bool-cases (present from)) [
      | inr absent ↦ rw absent not_shared
      | inl there ↦ elim (Bool-cases (clean e)) [
        | inr dirty ↦ rw (there, dirty) not_shared
        | inl untouched ↦ elim (Bool-cases (leb s.high_memory (frame e) || ltb (frame e) low_mem)) [
          | inl out ↦ rw (there, untouched, out) not_shared
          | inr inside ↦
              rw (there, untouched, inside)
                (Final-Shared (
                  and_then-Final (target_table (dir_entry address + dir_entry current_start) s)
                    (λ to.
                      share_entry (frame from + table_offset address) (to + table_offset address)
                        (frame e))
                    (λ to t.
                      share_entry-Final (frame from + table_offset address)
                        (to + table_offset address) (frame e) t)))
        ]
      ]
    ]

or_rest :
    (s : Mm) (o : Outcome Bool) (rest : M Bool)
    → Shared s o
    → Shared s (rest s)
    → Shared s (and_then o (λ found. if found then pure true else rest))
or_rest s _ rest not_shared h = h
or_rest s _ rest (shared t) h = shared t
or_rest s _ rest (share_panics c t) h = share_panics c t
or_rest s _ rest (share_dies t) h = share_dies t
or_rest s _ rest share_wild h = share_wild

share_slots-Shared :
    (n current inode : ℕ) (task : ℕ → Option Program) (address start : ℕ) (s : Mm)
    → Shared s (share_slots n current inode task address start s)
unfolding share_slots
share_slots-Shared zero current inode task address start s = not_shared
share_slots-Shared (suc n) current inode task address start s =
    let ih = share_slots-Shared n current inode task address start s in
    elim (Bool-cases (suc n == current || not (shares_file (task (suc n)) inode))) [
      | inl skip ↦ rw skip ih
      | inr other ↦
          rw other
            (or_rest s _ _ (try_to_share-Shared address (start_of (task (suc n))) start s) ih)
    ]

-- share_page gives `false` only with the state as it was.
pub share_page-Shared :
    (current : ℕ) (me : Program) (task : ℕ → Option Program) (i_count : ℕ → ℕ) (address : ℕ)
    (s : Mm)
    → Shared s (share_page current me task i_count address s)
unfolding share_page
share_page-Shared current me task i_count address s = by_file me.executable
  where
    by_file :
        (file : Option ℕ) → Shared s (share_with file current me.start_code task i_count address s)
    by_file none = not_shared
    by_file (some inode) = elim (Bool-cases (ltb (i_count inode) 2)) [
      | inl alone ↦ rw alone not_shared
      | inr more ↦ rw more (share_slots-Shared 63 current inode task address me.start_code s)
    ]
