-- ===== src/Namei/Entry.antt =====
-- What the search in a directory finds: fs/namei.c (Lab 8).
use hack_linux.Base.{
  ltb, ◌==◌, if◌then◌else◌, lt→ltb, le→ltb_false, ==_iff, ne→==_false, Bool-cases, Option-cases, ℕ,
  zero, suc, ◌+◌, ◌-◌, ◌/◌, ◌%◌, ◌≤◌, ◌<◌, ◌≡◌, refl, sym, ap, ◌∙◌, subst, ◌≢◌, ◌↔◌, inl, inr, Bool,
  true, false, ◌&&◌, Option, none, some, arith, ℕ_discrete, dec_lt,
}
use hack_linux.Base.Chars.{Chars}
use hack_linux.Namei.{
  name_len, entries_per_block, Inode, Caller, DirEntry, same_bytes, match_entry, Search, at, null,
  is_dot_dot, same_inode, root_ino, find_from, special, if_read, find_entry,
}

-- The entry is in use and its name is the first `len` bytes of `name`, with a NUL behind if there is
-- room for it.
pub record Matches (len : ℕ) (name : Chars) (de : DirEntry) : Type 0 where
  pub in_use : de.inode ≢ 0
  pub short : len ≤ name_len
  pub ends : len < name_len → de.name len ≡ 0
  pub same : (i : ℕ) → i < len → name i ≡ de.name i

same_bytes_iff :
    (n : ℕ) (name other : Chars)
    → (same_bytes n name other ≡ true) ↔ ((i : ℕ) → i < n → name i ≡ other i)
unfolding same_bytes
same_bytes_iff zero name other = (λ h i small. absurd (omega arith), λ h. refl)
same_bytes_iff (suc n) name other =
    let ih = same_bytes_iff n name other in
    (
      λ h i small. elim (ℕ_discrete i n) [
        | yes here ↦
            let last : name n ≡ other n = ground (arith, h) in
            ap name here ∙ (last ∙ ap other (sym here))
        | no before ↦ ih.0 (front (same_bytes n name other) (name n == other n) h) i (omega arith)
      ],
      λ h.
          let last = (==_iff (name n) (other n)).1 (h n (omega arith)) in
          rw (ih.1 (λ i small. h i (omega arith)), last) refl,
    )
  where
    front : (b c : Bool) → (b && c) ≡ true → b ≡ true
    front true c h = refl
    front false c h = h

-- match gives 1 exactly for an entry that is in use and has the name.
match_entry-Matches :
    (len : ℕ) (name : Chars) (de : DirEntry) → match_entry len name de ≡ true → Matches len name de
unfolding match_entry
match_entry-Matches len name de h = record {
  in_use = ground (arith, h);
  short = ground (arith, h);
  ends = λ room. ground (arith, h, room);
  same = (same_bytes_iff len name de.name).0 (ground (arith, h));
}

Matches-match_entry :
    (len : ℕ) (name : Chars) (de : DirEntry) → Matches len name de → match_entry len name de ≡ true
unfolding match_entry
Matches-match_entry len name de m =
    let bytes = (same_bytes_iff len name de.name).1 m.same in
    elim (dec_lt len name_len) [
      | yes room ↦
          let ends = m.ends room in
          rw
            (
              ne→==_false de.inode 0 m.in_use,
              le→ltb_false name_len len m.short,
              lt→ltb len name_len room,
              (==_iff (de.name len) 0).1 ends,
            )
            bytes
      | no whole ↦
          rw
            (
              ne→==_false de.inode 0 m.in_use,
              le→ltb_false name_len len m.short,
              le→ltb_false len name_len (omega arith),
            )
            bytes
    ]

abbrev pub entry_of : ℕ → Option (ℕ → DirEntry) → Option DirEntry
entry_of i none = none
entry_of i (some block) = some (block (i % entries_per_block))

-- The entry with a number, if its block can be read.
abbrev pub entry : (ℕ → Option (ℕ → DirEntry)) → ℕ → Option DirEntry
entry read i = entry_of i (read (i / entries_per_block))

-- No entry from i to i + n - 1 is there and has the name.
abbrev pub Without : (ℕ → Option (ℕ → DirEntry)) → ℕ → Chars → ℕ → ℕ → Type 0
Without read len name i n =
    (k : ℕ) (e : DirEntry) → i ≤ k → k < i + n → entry read k ≡ some e → ¬ Matches len name e

-- The end of the search from entry i on over n entries, with every block there.
pub data Searched (read : ℕ → Option (ℕ → DirEntry)) (len : ℕ) (name : Chars) (i n : ℕ)
    : Search → Type 0 where
  first_match :
      (j : ℕ) (e : DirEntry)
      → i ≤ j
      → j < i + n
      → entry read j ≡ some e
      → Matches len name e
      → Without read len name i (j - i)
      → Searched read len name i n (at j e)
  no_match : Without read len name i n → Searched read len name i n null

find_from-Searched :
    (n i : ℕ) (read : ℕ → Option (ℕ → DirEntry)) (len : ℕ) (name : Chars)
    → ((k : ℕ) → i ≤ k → k < i + n → (b : ℕ → DirEntry) × (read (k / entries_per_block) ≡ some b))
    → Searched read len name i n (find_from n i read len name)
unfolding find_from
find_from-Searched zero i read len name there = no_match (λ k e low high f m. omega arith)
find_from-Searched (suc n) i read len name there =
    let (b, here) = there i (omega arith) (omega arith) in
    let de = b (i % entries_per_block) in
    let mine : entry read i ≡ some de = ap (entry_of i) here in
    let ih =
      find_from-Searched n (i + 1) read len name
        (λ k low high. there k (omega arith) (omega arith)) in
    elim (Bool-cases (match_entry len name de)) [
      | inl yes_match ↦
          rw (here, yes_match)
            (first_match i de (omega arith) (omega arith) mine
              (match_entry-Matches len name de yes_match) (λ k e low high f m. omega arith))
      | inr no_here ↦ rw (here, no_here) (later (skips de mine no_here) ih)
    ]
  where
    injective : {x y : DirEntry} → some x ≡ some y → x ≡ y
    injective h = cc

    clash : true ≡ false → ⊥
    clash h = cc

    skips :
        (de : DirEntry)
        → entry read i ≡ some de
        → match_entry len name de ≡ false
        → (e : DirEntry) → entry read i ≡ some e
        → ¬ Matches len name e
    skips de mine h e f m = clash (
        sym (
          Matches-match_entry len name de
            (subst (λ (x : DirEntry). Matches len name x) (injective (sym f ∙ mine)) m))
        ∙ h)

    wider :
        (c : ℕ)
        → ((e : DirEntry) → entry read i ≡ some e → ¬ Matches len name e)
        → Without read len name (i + 1) c
        → Without read len name i (suc c)
    wider c skip rest k e low high f m = elim (ℕ_discrete k i) [
      | yes same ↦ skip e (ap (entry read) (sym same) ∙ f) m
      | no next ↦ rest k e (omega arith) (omega arith) f m
    ]

    later :
        {r : Search}
        → ((e : DirEntry) → entry read i ≡ some e → ¬ Matches len name e)
        → Searched read len name (i + 1) n r
        → Searched read len name i (suc n) r
    later skip (first_match j e low high f m before) =
        let count : suc (j - (i + 1)) ≡ j - i = omega arith in
        first_match j e (omega arith) (omega arith) f m
          (subst (λ (c : ℕ). Without read len name i c) count (wider (j - (i + 1)) skip before))
    later skip (no_match rest) = no_match (wider n skip rest)

if_read-Searched :
    (size : ℕ) (read : ℕ → Option (ℕ → DirEntry)) (len : ℕ) (name : Chars)
    → ((k : ℕ) → k < size → (b : ℕ → DirEntry) × (read (k / entries_per_block) ≡ some b))
    → Searched read len name 0 size (if_read (read 0) (find_from size 0 read len name))
if_read-Searched size read len name there =
    let found = find_from-Searched size 0 read len name (λ k low high. there k (omega arith)) in
    elim (Option-cases (read 0)) [
      | inr (b, first) ↦ rw first found
      | inl missing ↦ rw missing (
          no_match (λ k e low high f m.
            let (b, here) = there 0 (omega arith) in clash (sym missing ∙ here)))
    ]
  where
    clash : {b : ℕ → DirEntry} → none ≡ some b → ⊥
    clash h = cc

abbrev pub DotDot : ℕ → Chars → Type 0
DotDot len name = (len ≡ 2) × ((name 0 ≡ b'.') × (name 1 ≡ b'.'))

abbrev pub SameInode : Inode → Inode → Type 0
SameInode i j = (i.i_num ≡ j.i_num) × (i.i_dev ≡ j.i_dev)

-- The directory to search and the length of the name: `..` in the process's root is `.`, and `..` in
-- the root of a mounted device goes on in the directory it is mounted on.
pub data Start (mounted : ℕ → Option Inode) (root dir : Inode) (len : ℕ) (name : Chars)
    : Inode → ℕ → Type 0 where
  plain : ¬ DotDot len name → Start mounted root dir len name dir len
  at_root : DotDot len name → SameInode dir root → Start mounted root dir len name dir 1
  inside :
      DotDot len name
      → ¬ SameInode dir root
      → dir.i_num ≢ root_ino
      → Start mounted root dir len name dir len
  not_mounted :
      DotDot len name
      → ¬ SameInode dir root
      → dir.i_num ≡ root_ino
      → mounted dir.i_dev ≡ none
      → Start mounted root dir len name dir len
  crosses :
      (i : Inode)
      → DotDot len name
      → ¬ SameInode dir root
      → dir.i_num ≡ root_ino
      → mounted dir.i_dev ≡ some i
      → Start mounted root dir len name i len

DotDot-is_dot_dot : (len : ℕ) (name : Chars) → DotDot len name → is_dot_dot len name ≡ true
DotDot-is_dot_dot len name (two, (dot, dot')) =
    rw ((==_iff len 2).1 two, (==_iff (name 0) b'.').1 dot, (==_iff (name 1) b'.').1 dot') refl

not-is_dot_dot : (len : ℕ) (name : Chars) → ¬ DotDot len name → is_dot_dot len name ≡ false
not-is_dot_dot len name differs = elim (Bool-cases (is_dot_dot len name)) [
  | inr other ↦ other
  | inl dots ↦ absurd (differs (ground arith, (ground arith, ground arith)))
]

SameInode-same_inode : (i j : Inode) → SameInode i j → same_inode i j ≡ true
SameInode-same_inode i j (num, dev) =
    rw ((==_iff i.i_num j.i_num).1 num, (==_iff i.i_dev j.i_dev).1 dev) refl

not-same_inode : (i j : Inode) → ¬ SameInode i j → same_inode i j ≡ false
not-same_inode i j differs = elim (Bool-cases (same_inode i j)) [
  | inr other ↦ other
  | inl same ↦ absurd (differs (ground arith, ground arith))
]

Start-special :
    (mounted : ℕ → Option Inode) (root dir : Inode) (len : ℕ) (name : Chars) {d : Inode} {l : ℕ}
    → Start mounted root dir len name d l
    → special mounted root dir len name ≡ (d, l)
unfolding special
Start-special mounted root dir len name (plain differs) = rw (not-is_dot_dot len name differs) refl
Start-special mounted root dir len name (at_root dots same) =
    rw (DotDot-is_dot_dot len name dots, SameInode-same_inode dir root same) refl
Start-special mounted root dir len name (inside dots other ne) =
    rw
      (
        DotDot-is_dot_dot len name dots,
        not-same_inode dir root other,
        ne→==_false dir.i_num root_ino ne,
      )
      refl
Start-special mounted root dir len name (not_mounted dots other e m) =
    rw
      (
        DotDot-is_dot_dot len name dots,
        not-same_inode dir root other,
        (==_iff dir.i_num root_ino).1 e,
        m,
      )
      refl
Start-special mounted root dir len name (crosses i dots other e m) =
    rw
      (
        DotDot-is_dot_dot len name dots,
        not-same_inode dir root other,
        (==_iff dir.i_num root_ino).1 e,
        m,
      )
      refl

-- find_entry for a name that is not empty, cut to 14 bytes, in a directory whose blocks can all be
-- read: the directory searched is the one that `Start` describes, and the result is the first with
-- this name among its entries, as many as the directory of the call has by its size, with its
-- number, or NULL if none of them has it. An entry has the name
-- if it is in use, agrees with it on its length, and has a NUL behind if the name is shorter than
-- 14 bytes.
pub find_entry-Searched :
    (bread : Inode → ℕ → Option (ℕ → DirEntry)) (mounted : ℕ → Option Inode) (me : Caller)
    (dir : Inode) (name : Chars) (namelen : ℕ) (d : Inode) (l : ℕ)
    → 0 < namelen
    → Start mounted me.root dir (if ltb name_len namelen then name_len else namelen) name d l
    → ((k : ℕ)
        → k < dir.i_size / 16
        → (b : ℕ → DirEntry) × (bread d (k / entries_per_block) ≡ some b))
    → ((find_entry bread mounted me dir name namelen).0 ≡ d)
      × Searched
          (bread d)
          l
          name
          0
          (dir.i_size / 16)
          (find_entry bread mounted me dir name namelen).1
unfolding find_entry
find_entry-Searched bread mounted me dir name namelen d l some_name start there =
    let len : ℕ = if ltb name_len namelen then name_len else namelen in
    let not_empty : (len == 0) ≡ false = elim (dec_lt name_len namelen) [
      | yes cut ↦ rw (lt→ltb name_len namelen cut) refl
      | no whole ↦
          rw (le→ltb_false name_len namelen (omega arith)) (ne→==_false namelen 0 (omega arith))
    ] in
    rw (not_empty, Start-special mounted me.root dir len name start)
      (refl, if_read-Searched (dir.i_size / 16) (bread d) l name there)
