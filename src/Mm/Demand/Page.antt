-- ===== src/Mm/Demand/Page.antt =====
-- What do_no_page leaves on every branch: mm/memory.c (Lab 6).
use hack_linux.Base.{
  ltb, leb, if◌then◌else◌, leb→le, ne→==_false, Bool-cases, ℕ, zero, suc, ◌+◌, ◌-◌, ◌*◌, ◌/◌, ◌%◌,
  ◌^◌, ◌≤◌, ◌<◌, ◌≡◌, refl, ap, ◌∙◌, ◌≢◌, inl, inr, Bool, true, false, ◌&&◌, Option, none, some,
  List, [], ◌∷◌, arith,
}
use hack_linux.Mm.{Mm, Panic, Outcome, ok, panic, killed, wild, pure, and_then, frame, zero_page}
use hack_linux.Mm.Frames.{page_addr}
use hack_linux.Mm.Frames.Alloc.{get_free_page-total}
use hack_linux.Mm.Tables.Entry.{zero_page_outside}
use hack_linux.Mm.Tables.Put.{Sound, put_page-Put}
use hack_linux.Mm.Demand.{
  Program, share_page, clear_byte, clear_tail, blocks, read_in, from_file, with_file, do_no_page,
}
use hack_linux.Mm.Demand.Tail.{byte, read_in-bytes}
use hack_linux.Mm.Demand.Share.{
  Shared, not_shared, shared, share_panics, share_dies, share_wild, share_page-Shared,
}
use hack_linux.Mm.Demand.Fill.{filled-Sound, Loaded, no_page_left, after_put, get_empty_page-Loaded}

clear_tail-outside :
    (n end b : ℕ) (word : ℕ → ℕ)
    → ((a : ℕ) → end - n ≤ a → a < end → b ≢ a / 4 * 4)
    → n ≤ end
    → clear_tail n end word b ≡ word b
unfolding clear_tail
clear_tail-outside zero end b word off h = refl
clear_tail-outside (suc n) end b word off h =
    clear_tail-outside n (end - 1) b (clear_byte (end - 1) word)
      (λ a low high. off a (omega arith) (omega arith)) (omega arith)
    ∙ rw (ne→==_false b ((end - 1) / 4 * 4) (off (end - 1) (omega arith) (omega arith))) refl

-- `tmp`: the page's address relative to the code of the task.
abbrev pub offset : Program → ℕ → ℕ
offset me address = (frame address + 2 ^ 32 - me.start_code) % 2 ^ 32

module _ (bmap : ℕ → ℕ → ℕ) (bread_page : ℕ → ℕ → List ℕ → (ℕ → ℕ) → ℕ → ℕ) where
  -- The bytes of a page of the file: those that bread_page reads from the four blocks behind the
  -- header's, up to the end of the data, and zeros behind.
  abbrev pub file_bytes : ℕ → ℕ → ℕ → Mm → ℕ → ℕ → ℕ
  file_bytes inode tmp end_data s nr b =
      if leb (page_addr nr + (end_data - tmp)) b
      then 0
      else byte
          (bread_page (page_addr nr) inode
            (bmap inode (1 + tmp / 1024)
              ∷ bmap inode (1 + tmp / 1024 + 1)
              ∷ bmap inode (1 + tmp / 1024 + 2)
              ∷ bmap inode (1 + tmp / 1024 + 3)
              ∷ [])
            (zero_page s.word (page_addr nr)))
          b

  -- What do_no_page does, for `tmp` and the page's address.
  pub data Demanded (current : ℕ) (me : Program) (task : ℕ → Option Program) (i_count : ℕ → ℕ)
      (address : ℕ) (s : Mm) : Outcome (Unit {0}) → Type 0 where
    no_file :
        {o : Outcome (Unit {0})}
        → me.executable ≡ none
        → Loaded (λ nr b. 0) (frame address) s o
        → Demanded current me task i_count address s o
    behind_data :
        (inode : ℕ) {o : Outcome (Unit {0})}
        → me.executable ≡ some inode
        → me.end_data ≤ offset me address
        → Loaded (λ nr b. 0) (frame address) s o
        → Demanded current me task i_count address s o
    shares :
        (inode : ℕ) (t : Mm)
        → me.executable ≡ some inode
        → offset me address < me.end_data
        → share_page current me task i_count (offset me address) s ≡ ok true t
        → Demanded current me task i_count address s (ok tt t)
    panics :
        (inode : ℕ) (c : Panic) (t : Mm)
        → me.executable ≡ some inode
        → offset me address < me.end_data
        → share_page current me task i_count (offset me address) s ≡ panic c t
        → Demanded current me task i_count address s (panic c t)
    dies :
        (inode : ℕ) (t : Mm)
        → me.executable ≡ some inode
        → offset me address < me.end_data
        → share_page current me task i_count (offset me address) s ≡ killed t
        → Demanded current me task i_count address s (killed t)
    goes_wild :
        (inode : ℕ)
        → me.executable ≡ some inode
        → offset me address < me.end_data
        → share_page current me task i_count (offset me address) s ≡ wild
        → Demanded current me task i_count address s wild
    loads :
        (inode : ℕ) {o : Outcome (Unit {0})}
        → me.executable ≡ some inode
        → offset me address < me.end_data
        → share_page current me task i_count (offset me address) s ≡ ok false s
        → Loaded (file_bytes inode (offset me address) me.end_data s) (frame address) s o
        → Demanded current me task i_count address s o

  -- bread_page writes the page and no other word.
  abbrev pub ReadsPage : Type 0
  ReadsPage =
      (page inode : ℕ) (nr : List ℕ) (word : ℕ → ℕ) (b : ℕ)
      → frame page ≡ page
      → frame b ≢ page
      → bread_page page inode nr word b ≡ word b

  module _ (reads : ReadsPage) (inode tmp end_data address : ℕ) (inside : tmp < end_data) (s : Mm)
      (sound : Sound s) where
    module _ (nr : ℕ) where
      abbrev read : ℕ → ℕ
      read =
          read_in bmap bread_page inode tmp end_data (page_addr nr)
            (zero_page s.word (page_addr nr))

      read_outside : (b : ℕ) → frame b ≢ page_addr nr → read b ≡ s.word b
      read_outside b out =
          clear_tail-outside (tmp + 4096 - end_data) (page_addr nr + 4096) b
            (bread_page (page_addr nr) inode (blocks bmap bread_page inode tmp)
              (zero_page s.word (page_addr nr)))
            (λ a low high. omega arith) (omega arith)
          ∙ (reads (page_addr nr) inode (blocks bmap bread_page inode tmp)
                (zero_page s.word (page_addr nr)) b (omega arith) out
              ∙ zero_page_outside s.word (page_addr nr) b (omega arith) out)

      read-bytes :
          (b : ℕ) → frame b ≡ page_addr nr → byte read b ≡ file_bytes inode tmp end_data s nr b
      read-bytes b at =
          read_in-bytes bmap bread_page inode tmp end_data (page_addr nr) b
            (zero_page s.word (page_addr nr)) inside
          ∙ ap
              (λ (c : Bool).
                if c
                then 0
                else byte
                    (bread_page (page_addr nr) inode (blocks bmap bread_page inode tmp)
                      (zero_page s.word (page_addr nr)))
                    b)
              in_page
        where
          in_page :
              (leb (page_addr nr + (end_data - tmp)) b && ltb b (page_addr nr + 4096))
              ≡ leb (page_addr nr + (end_data - tmp)) b
          in_page = ground arith

    from_file-Loaded :
        Loaded
          (file_bytes inode tmp end_data s)
          address
          s
          (from_file bmap bread_page inode tmp end_data address s)
    unfolding from_file
    from_file-Loaded =
        let (a, s1, e, result) = get_free_page-total s in
        elim result [
          | inr none_left ↦ rw (e, none_left.null, none_left.same) (no_page_left none_left.all_used)
          | inl taken ↦
              let nr = taken.nr in
              let top = taken.highest in
              rw (e, taken.state, taken.at_page, ne→==_false (page_addr nr) 0 (omega arith))
                (after_put (file_bytes inode tmp end_data s) address s sound nr top (read nr)
                  (read_outside nr) _ (read-bytes nr)
                  (put_page-Put _ (page_addr nr) address
                    (filled-Sound s sound nr top (read nr) (read_outside nr))
                    (omega (arith, top.below))))
        ]

  -- When bread_page writes no word outside its page, do_no_page in a sound state ends in one of
  -- these ways. When share_page is called, which is for a page of the file, and shares a page, that is
  -- all; if it stops the kernel or the process, so does do_no_page; if it shares none, it has changed
  -- nothing. Without an executable, behind the data, or when nothing is shared, the highest free
  -- page is taken. Its bytes are zeros, or for a page of the file those of the four blocks behind
  -- the header's block up to the end of the data, and zeros behind. The entry of the address names
  -- it with the bits 7, every other entry is as before, it has one owner, no other word outside the
  -- table and its directory entry changes, and the state is sound. When no page is free the process
  -- is killed with nothing else changed; when there is no table and no second page for one, it is
  -- killed and every page has as many references as before.
  pub do_no_page-Demanded :
      ReadsPage
      → (current : ℕ) (me : Program) (task : ℕ → Option Program) (i_count : ℕ → ℕ) (address : ℕ)
        (s : Mm)
      → Sound s
      → Demanded current me task i_count address s
          (do_no_page bmap bread_page current me task i_count address s)
  unfolding do_no_page
  do_no_page-Demanded reads current me task i_count address s sound = by_file me.executable refl
    where
      after_share :
          (inode : ℕ) (o : Outcome Bool)
          → me.executable ≡ some inode
          → offset me address < me.end_data
          → share_page current me task i_count (offset me address) s ≡ o
          → Shared s o
          → Demanded current me task i_count address s (
              and_then o (λ found.
                if found
                then pure tt
                else from_file bmap bread_page inode
                    (offset me address)
                    me.end_data
                    (frame address)))
      after_share inode _ file inside e not_shared = loads inode file inside e (
          from_file-Loaded reads inode (offset me address) me.end_data (frame address) inside s
            sound)
      after_share inode _ file inside e (shared t) = shares inode t file inside e
      after_share inode _ file inside e (share_panics c t) = panics inode c t file inside e
      after_share inode _ file inside e (share_dies t) = dies inode t file inside e
      after_share inode _ file inside e share_wild = goes_wild inode file inside e

      by_file :
          (file : Option ℕ)
          → me.executable ≡ file
          → Demanded current me task i_count address s
              (with_file bmap bread_page file current me task i_count address s)
      by_file none e = no_file e (get_empty_page-Loaded (frame address) s sound)
      by_file (some inode) e = elim (Bool-cases (leb me.end_data (offset me address))) [
        | inl out ↦
            rw out
              (behind_data inode e (leb→le _ _ out) (get_empty_page-Loaded (frame address) s sound))
        | inr within ↦ rw within (
            after_share inode _ e (ground arith) refl
              (share_page-Shared current me task i_count (offset me address) s))
      ]
