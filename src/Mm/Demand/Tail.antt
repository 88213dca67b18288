-- ===== src/Mm/Demand/Tail.antt =====
-- The bytes of a page that do_no_page reads: mm/memory.c (Lab 6).
use hack_linux.Base.{
  ltb, leb, if◌then◌else◌, lt→ltb, le→ltb_false, le→leb, ==_iff, ne→==_false, ==_refl, ℕ, zero, suc,
  ◌+◌, ◌-◌, ◌*◌, ◌/◌, ◌%◌, ◌^◌, ◌≤◌, ◌<◌, ◌≡◌, refl, sym, ap, ◌∙◌, subst, ◌≢◌, Bool, ◌&&◌, List,
  ap₂, arith, ℕ_discrete,
}
use hack_linux.Mm.Demand.{byte_at, clear_byte, clear_tail, blocks, read_in}

-- The byte at an address, in a memory of words.
abbrev pub byte : (ℕ → ℕ) → ℕ → ℕ
byte word a = word (a / 4 * 4) / byte_at a % 256

-- The place of a byte in its word.
data Place : ℕ → ℕ → Type 0 where
  first : (k : ℕ) → k ≡ 0 → Place k 1
  second : (k : ℕ) → k ≡ 1 → Place k 256
  third : (k : ℕ) → k ≡ 2 → Place k 65536
  fourth : (k : ℕ) → k ≡ 3 → Place k 16777216

place : (a : ℕ) → Place (a % 4) (byte_at a)
place a = elim (ℕ_discrete (a % 4) 0) [
  | yes e ↦ subst (λ (w : ℕ). Place (a % 4) w) (sym (ap (λ (k : ℕ). 256 ^ k) e)) (first (a % 4) e)
  | no e ↦ elim (ℕ_discrete (a % 4) 1) [
    | yes f ↦
        subst (λ (w : ℕ). Place (a % 4) w) (sym (ap (λ (k : ℕ). 256 ^ k) f)) (second (a % 4) f)
    | no f ↦ elim (ℕ_discrete (a % 4) 2) [
      | yes g ↦
          subst (λ (w : ℕ). Place (a % 4) w) (sym (ap (λ (k : ℕ). 256 ^ k) g)) (third (a % 4) g)
      | no g ↦
          let h : a % 4 ≡ 3 = omega arith in
          subst (λ (w : ℕ). Place (a % 4) w) (sym (ap (λ (k : ℕ). 256 ^ k) h)) (fourth (a % 4) h)
    ]
  ]
]

cleared : {k x : ℕ} (w : ℕ) → Place k x → (w - w / x % 256 * x) / x % 256 ≡ 0
cleared w (first k e) = omega arith
cleared w (second k e) = omega arith
cleared w (third k e) = omega arith
cleared w (fourth k e) = omega arith

kept :
    {k j x y : ℕ} (w : ℕ)
    → Place k x
    → Place j y
    → k ≢ j
    → (w - w / x % 256 * x) / y % 256 ≡ w / y % 256
kept w (first k e) (first j f) ne = absurd (omega arith)
kept w (first k e) (second j f) ne = omega arith
kept w (first k e) (third j f) ne = omega arith
kept w (first k e) (fourth j f) ne = omega arith
kept w (second k e) (first j f) ne = omega arith
kept w (second k e) (second j f) ne = absurd (omega arith)
kept w (second k e) (third j f) ne = omega arith
kept w (second k e) (fourth j f) ne = omega arith
kept w (third k e) (first j f) ne = omega arith
kept w (third k e) (second j f) ne = omega arith
kept w (third k e) (third j f) ne = absurd (omega arith)
kept w (third k e) (fourth j f) ne = omega arith
kept w (fourth k e) (first j f) ne = omega arith
kept w (fourth k e) (second j f) ne = omega arith
kept w (fourth k e) (third j f) ne = omega arith
kept w (fourth k e) (fourth j f) ne = absurd (omega arith)

-- A word that is 0 has four bytes that are.
pub byte-zero : (word : ℕ → ℕ) (b : ℕ) → word (b / 4 * 4) ≡ 0 → byte word b ≡ 0
byte-zero word b e = rw e (zero_byte (place b))
  where
    zero_byte : {k x : ℕ} → Place k x → 0 / x % 256 ≡ 0
    zero_byte (first k e) = refl
    zero_byte (second k e) = refl
    zero_byte (third k e) = refl
    zero_byte (fourth k e) = refl

clear_byte_self : (a : ℕ) (word : ℕ → ℕ) → byte (clear_byte a word) a ≡ 0
clear_byte_self a word = rw (==_refl (a / 4 * 4)) (cleared (word (a / 4 * 4)) (place a))

clear_byte_other : (a b : ℕ) (word : ℕ → ℕ) → b ≢ a → byte (clear_byte a word) b ≡ byte word b
clear_byte_other a b word ne = elim (ℕ_discrete (b / 4 * 4) (a / 4 * 4)) [
  | no apart ↦ rw (ne→==_false (b / 4 * 4) (a / 4 * 4) apart) refl
  | yes together ↦
      let differ : a % 4 ≢ b % 4 = omega arith in
      rw ((==_iff (b / 4 * 4) (a / 4 * 4)).1 together) (
        kept (word (a / 4 * 4)) (place a) (place b) differ
        ∙ ap (λ (w : ℕ). word w / byte_at b % 256) (sym together))
]

clear_tail-byte :
    (n end b : ℕ) (word : ℕ → ℕ)
    → n ≤ end
    → byte (clear_tail n end word) b ≡ (if leb (end - n) b && ltb b end then 0 else byte word b)
unfolding clear_tail
clear_tail-byte zero end b word h = ground arith
clear_tail-byte (suc n) end b word h =
    let ih = clear_tail-byte n (end - 1) b (clear_byte (end - 1) word) (omega arith) in
    let back : end - 1 - n ≡ end - suc n = omega arith in
    elim (ℕ_discrete b (end - 1)) [
      | yes here ↦
          let self =
            ap (λ (a : ℕ). byte (clear_byte (end - 1) word) a) here
            ∙ clear_byte_self (end - 1) word in
          rw (le→leb (end - suc n) b (omega arith), lt→ltb b end (omega arith))
            (ih
              ∙ rw (le→leb (end - 1 - n) b (omega arith), le→ltb_false b (end - 1) (omega arith))
                  self)
      | no other ↦
          let same : (leb (end - 1 - n) b && ltb b (end - 1)) ≡ (leb (end - suc n) b && ltb b end) =
            ground arith in
          ih
          ∙ ap₂ (λ (c : Bool) (w : ℕ). if c then 0 else w) same
              (clear_byte_other (end - 1) b word other)
    ]

module _ (bmap : ℕ → ℕ → ℕ) (bread_page : ℕ → ℕ → List ℕ → (ℕ → ℕ) → ℕ → ℕ) where
  -- The page that do_no_page reads for the data up to `end_data`: the bytes of the file up to there,
  -- as bread_page left them, and zeros behind. No byte outside the page is cleared.
  pub read_in-bytes :
      (inode tmp end_data page b : ℕ) (word : ℕ → ℕ)
      → tmp < end_data
      → byte (read_in bmap bread_page inode tmp end_data page word) b ≡ (
          if leb (page + (end_data - tmp)) b && ltb b (page + 4096)
          then 0
          else byte (bread_page page inode (blocks bmap bread_page inode tmp) word) b)
  read_in-bytes inode tmp end_data page b word inside =
      let read = bread_page page inode (blocks bmap bread_page inode tmp) word in
      let start = page + 4096 - (tmp + 4096 - end_data) in
      let same : (leb start b && ltb b (page + 4096))
          ≡ (leb (page + (end_data - tmp)) b && ltb b (page + 4096)) =
        ground arith in
      clear_tail-byte (tmp + 4096 - end_data) (page + 4096) b read (omega arith)
      ∙ ap (λ (c : Bool). if c then 0 else byte read b) same
