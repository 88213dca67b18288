-- ===== src/Console/Valid.antt =====
-- What a write to the video memory keeps: the words outside of it, and that no word is a letter.
use hack_linux.Base.{
  ne→==_false, ==_refl, update, ℕ, zero, suc, ◌+◌, ◌-◌, ◌*◌, ◌%◌, ◌≤◌, ◌<◌, ◌≡◌, refl, ◌∙◌, ◌≢◌,
  ◌⊎◌, inl, inr, false, arith, ℕ_discrete,
}
use hack_linux.Console.{
  Video, erase, stosw, stosw_down, move_long, movsl, movsl_down, insert_words, delete_words,
  isalpha,
}

-- No character of a word is a letter.
abbrev pub NoLetters : (ℕ → ℕ) → Type 0
NoLetters mem = (b : ℕ) → isalpha (mem b % 256) ≡ false

-- The second memory has what the first one has outside the video memory, and no letter if the
-- first one has none.
pub record Tame (v : Video) (mem mem' : ℕ → ℕ) : Type 0 where
  pub frame : (b : ℕ) → (b < v.mem_start) ⊎ (v.mem_end ≤ b) → mem' b ≡ mem b
  pub clean : NoLetters mem → NoLetters mem'

pub Tame-refl : (v : Video) (mem : ℕ → ℕ) → Tame v mem mem
Tame-refl v mem = record { frame = λ b h. refl; clean = λ h. h }

pub Tame-trans : {v : Video} {a b c : ℕ → ℕ} → Tame v a b → Tame v b c → Tame v a c
Tame-trans p q = record {
  frame = λ i h. q.frame i h ∙ p.frame i h;
  clean = λ h. q.clean (p.clean h);
}

update-clean :
    (mem : ℕ → ℕ) (a w : ℕ) → isalpha (w % 256) ≡ false → NoLetters mem → NoLetters (update mem a w)
update-clean mem a w plain h b = elim (ℕ_discrete b a) [
  | yes at ↦ rw (at, ==_refl a) plain
  | no ne ↦ rw (ne→==_false b a ne) (h b)
]

pub update-frame :
    (v : Video) (mem : ℕ → ℕ) (a w b : ℕ)
    → v.mem_start ≤ a
    → a < v.mem_end
    → (b < v.mem_start) ⊎ (v.mem_end ≤ b)
    → update mem a w b ≡ mem b
update-frame v mem a w b low high h = rw (ne→==_false b a (off h))
  where
    off : (b < v.mem_start) ⊎ (v.mem_end ≤ b) → b ≢ a
    off (inl p) = omega arith
    off (inr p) = omega arith

pub update-Tame :
    (v : Video) (mem : ℕ → ℕ) (a w : ℕ)
    → v.mem_start ≤ a
    → a < v.mem_end
    → (NoLetters mem → isalpha (w % 256) ≡ false)
    → Tame v mem (update mem a w)
update-Tame v mem a w low high plain = record {
  frame = λ b h. update-frame v mem a w b low high h;
  clean = λ h. update-clean mem a w (plain h) h;
}

-- A word that was in the memory before.
pub copy-Tame :
    (v : Video) (mem : ℕ → ℕ) (a b : ℕ)
    → v.mem_start ≤ a
    → a < v.mem_end
    → Tame v mem (update mem a (mem b))
copy-Tame v mem a b low high = update-Tame v mem a (mem b) low high (λ h. h b)

pub erase-Tame :
    (v : Video) (mem : ℕ → ℕ) (a : ℕ)
    → v.mem_start ≤ a
    → a < v.mem_end
    → Tame v mem (update mem a erase)
erase-Tame v mem a low high = update-Tame v mem a erase low high (λ h. refl)

pub stosw-Tame :
    (v : Video) (n a : ℕ) (mem : ℕ → ℕ)
    → v.mem_start ≤ a
    → a + 2 * n ≤ v.mem_end
    → Tame v mem (stosw n a erase mem)
unfolding stosw
stosw-Tame v zero a mem low high = Tame-refl v mem
stosw-Tame v (suc n) a mem low high =
    Tame-trans (erase-Tame v mem a low (omega arith))
      (stosw-Tame v n (a + 2) (update mem a erase) (omega arith) (omega arith))

pub stosw_down-Tame :
    (v : Video) (n a end : ℕ) (mem : ℕ → ℕ)
    → v.mem_start ≤ a
    → a + 2 * n ≤ v.mem_end
    → (0 < n → end + 2 ≡ a + 2 * n)
    → Tame v mem (stosw_down n end erase mem)
unfolding stosw_down
stosw_down-Tame v zero a end mem low high e = Tame-refl v mem
stosw_down-Tame v (suc n) a end mem low high e =
    let at = e (omega arith) in
    Tame-trans (erase-Tame v mem end (omega arith) (omega arith))
      (stosw_down-Tame v n a (end - 2) (update mem end erase) low (omega arith) (λ p. omega arith))

move_long-Tame :
    (v : Video) (src dst : ℕ) (mem : ℕ → ℕ)
    → v.mem_start ≤ dst
    → dst + 4 ≤ v.mem_end
    → Tame v mem (move_long src dst mem)
move_long-Tame v src dst mem low high = record {
  frame = λ b h.
      update-frame v (update mem dst (mem src)) (dst + 2) (mem (src + 2)) b (omega arith)
        (omega arith) h
      ∙ update-frame v mem dst (mem src) b low (omega arith) h;
  clean = λ h.
      update-clean (update mem dst (mem src)) (dst + 2) (mem (src + 2)) (h (src + 2))
        (update-clean mem dst (mem src) (h src) h);
}

pub movsl-Tame :
    (v : Video) (n src dst : ℕ) (mem : ℕ → ℕ)
    → v.mem_start ≤ dst
    → dst + 4 * n ≤ v.mem_end
    → Tame v mem (movsl n src dst mem)
unfolding movsl
movsl-Tame v zero src dst mem low high = Tame-refl v mem
movsl-Tame v (suc n) src dst mem low high =
    Tame-trans (move_long-Tame v src dst mem low (omega arith))
      (movsl-Tame v n (src + 4) (dst + 4) (move_long src dst mem) (omega arith) (omega arith))

pub movsl_down-Tame :
    (v : Video) (n src dst low : ℕ) (mem : ℕ → ℕ)
    → v.mem_start ≤ low
    → low + 4 * n ≤ v.mem_end
    → (0 < n → dst + 4 ≡ low + 4 * n)
    → Tame v mem (movsl_down n src dst mem)
unfolding movsl_down
movsl_down-Tame v zero src dst low mem a b e = Tame-refl v mem
movsl_down-Tame v (suc n) src dst low mem a b e =
    let at = e (omega arith) in
    Tame-trans (move_long-Tame v src dst mem (omega arith) (omega arith)) (
      movsl_down-Tame v n (src - 4) (dst - 4) low (move_long src dst mem) a (omega arith)
        (λ p. omega arith))

insert_words-frame :
    (v : Video) (n p old : ℕ) (mem : ℕ → ℕ)
    → v.mem_start ≤ p
    → p + 2 * n ≤ v.mem_end
    → (b : ℕ) → (b < v.mem_start) ⊎ (v.mem_end ≤ b)
    → insert_words n p old mem b ≡ mem b
unfolding insert_words
insert_words-frame v zero p old mem low high b h = refl
insert_words-frame v (suc n) p old mem low high b h =
    insert_words-frame v n (p + 2) (mem p) (update mem p old) (omega arith) (omega arith) b h
    ∙ update-frame v mem p old b low (omega arith) h

insert_words-clean :
    (n p old : ℕ) (mem : ℕ → ℕ)
    → isalpha (old % 256) ≡ false
    → NoLetters mem
    → NoLetters (insert_words n p old mem)
unfolding insert_words
insert_words-clean zero p old mem plain h = h
insert_words-clean (suc n) p old mem plain h =
    insert_words-clean n (p + 2) (mem p) (update mem p old) (h p) (update-clean mem p old plain h)

pub insert_words-Tame :
    (v : Video) (n p : ℕ) (mem : ℕ → ℕ)
    → v.mem_start ≤ p
    → p + 2 * n ≤ v.mem_end
    → Tame v mem (insert_words n p erase mem)
insert_words-Tame v n p mem low high = record {
  frame = insert_words-frame v n p erase mem low high;
  clean = insert_words-clean n p erase mem refl;
}

pub delete_words-Tame :
    (v : Video) (n p : ℕ) (mem : ℕ → ℕ)
    → v.mem_start ≤ p
    → p + 2 * n < v.mem_end
    → Tame v mem (delete_words n p mem)
unfolding delete_words
delete_words-Tame v zero p mem low high = erase-Tame v mem p low (omega arith)
delete_words-Tame v (suc n) p mem low high =
    Tame-trans (copy-Tame v mem p (p + 2) low (omega arith))
      (delete_words-Tame v n (p + 2) (update mem p (mem (p + 2))) (omega arith) (omega arith))
