-- ===== src/Console/Memory.antt =====
-- What the string instructions of the console leave at each address.
use hack_linux.Base.{
  ne→==_false, ==_refl, update, ℕ, zero, suc, ◌+◌, ◌-◌, ◌*◌, ◌≤◌, ◌<◌, ◌≡◌, refl, ap, ◌∙◌, ◌≢◌, ◌⊎◌,
  inl, inr, arith, ℕ_discrete, dec_lt,
}
use hack_linux.Console.{stosw, stosw_down, move_long, movsl, movsl_down}

update-other : (f : ℕ → ℕ) (a b w : ℕ) → b ≢ a → update f a w b ≡ f b
update-other f a b w ne = rw (ne→==_false b a ne)

update_self : (f : ℕ → ℕ) (a b w : ℕ) → b ≡ a → update f a w b ≡ w
update_self f a b w e = rw (e, ==_refl a)

-- An address outside the words from `a` to `a + 2 * n`.
abbrev pub Outside : ℕ → ℕ → ℕ → Type 0
Outside b a n = (b < a) ⊎ (a + 2 * n ≤ b)

pub stosw-Outside : (n a w b : ℕ) (mem : ℕ → ℕ) → Outside b a n → stosw n a w mem b ≡ mem b
unfolding stosw
stosw-Outside zero a w b mem h = refl
stosw-Outside (suc n) a w b mem h =
    stosw-Outside n (a + 2) w b (update mem a w) (further h) ∙ update-other mem a b w (off h)
  where
    further : Outside b a (suc n) → Outside b (a + 2) n
    further (inl p) = inl (omega arith)
    further (inr p) = inr (omega arith)

    off : Outside b a (suc n) → b ≢ a
    off (inl p) = omega arith
    off (inr p) = omega arith

pub stosw-inside : (n a w k b : ℕ) (mem : ℕ → ℕ) → k < n → b ≡ a + 2 * k → stosw n a w mem b ≡ w
unfolding stosw
stosw-inside zero a w k b mem h e = absurd (omega arith)
stosw-inside (suc n) a w zero b mem h e =
    stosw-Outside n (a + 2) w b (update mem a w) (inl (omega arith))
    ∙ update_self mem a b w (omega arith)
stosw-inside (suc n) a w (suc k) b mem h e =
    stosw-inside n (a + 2) w k b (update mem a w) (omega arith) (omega arith)

-- The words from `a` to `a + 2 * n`, written from the last one down.
pub stosw_down-Outside :
    (n a end w b : ℕ) (mem : ℕ → ℕ)
    → (0 < n → end + 2 ≡ a + 2 * n)
    → Outside b a n
    → stosw_down n end w mem b ≡ mem b
unfolding stosw_down
stosw_down-Outside zero a end w b mem e h = refl
stosw_down-Outside (suc n) a end w b mem e h =
    let at = e (omega arith) in
    stosw_down-Outside n a (end - 2) w b (update mem end w) (λ p. omega arith) (nearer h)
    ∙ update-other mem end b w (off h at)
  where
    nearer : Outside b a (suc n) → Outside b a n
    nearer (inl p) = inl p
    nearer (inr p) = inr (omega arith)

    off : Outside b a (suc n) → end + 2 ≡ a + 2 * suc n → b ≢ end
    off (inl p) x = omega arith
    off (inr p) x = omega arith

pub stosw_down-inside :
    (n a end w k b : ℕ) (mem : ℕ → ℕ)
    → (0 < n → end + 2 ≡ a + 2 * n)
    → k < n
    → b ≡ a + 2 * k
    → stosw_down n end w mem b ≡ w
unfolding stosw_down
stosw_down-inside zero a end w k b mem e h at = absurd (omega arith)
stosw_down-inside (suc n) a end w k b mem e h at =
    let last = e (omega arith) in
    elim (ℕ_discrete k n) [
      | yes top ↦
          stosw_down-Outside n a (end - 2) w b (update mem end w) (λ p. omega arith)
            (inr (omega arith))
          ∙ update_self mem end b w (omega arith)
      | no ne ↦
          stosw_down-inside n a (end - 2) w k b (update mem end w) (λ p. omega arith) (omega arith)
            at
    ]

move_long-Outside :
    (src dst b : ℕ) (mem : ℕ → ℕ) → Outside b dst 2 → move_long src dst mem b ≡ mem b
move_long-Outside src dst b mem h =
    update-other (update mem dst (mem src)) (dst + 2) b (mem (src + 2)) (second h)
    ∙ update-other mem dst b (mem src) (off h)
  where
    second : Outside b dst 2 → b ≢ dst + 2
    second (inl p) = omega arith
    second (inr p) = omega arith

    off : Outside b dst 2 → b ≢ dst
    off (inl p) = omega arith
    off (inr p) = omega arith

-- The k-th of the two words.
move_long-inside :
    (src dst k b : ℕ) (mem : ℕ → ℕ)
    → k < 2
    → b ≡ dst + 2 * k
    → move_long src dst mem b ≡ mem (src + 2 * k)
move_long-inside src dst zero b mem h e =
    update-other (update mem dst (mem src)) (dst + 2) b (mem (src + 2)) (omega arith)
    ∙ (update_self mem dst b (mem src) (omega arith) ∙ ap mem (at src))
  where
    at : (a : ℕ) → a ≡ a + 2 * 0
    at a = omega arith
move_long-inside src dst (suc zero) b mem h e =
    update_self (update mem dst (mem src)) (dst + 2) b (mem (src + 2)) (omega arith)
move_long-inside src dst (suc (suc k)) b mem h e = absurd (omega arith)

pub movsl-Outside :
    (n src dst b : ℕ) (mem : ℕ → ℕ) → Outside b dst (2 * n) → movsl n src dst mem b ≡ mem b
unfolding movsl
movsl-Outside zero src dst b mem h = refl
movsl-Outside (suc n) src dst b mem h =
    movsl-Outside n (src + 4) (dst + 4) b (move_long src dst mem) (further h)
    ∙ move_long-Outside src dst b mem (here h)
  where
    further : Outside b dst (2 * suc n) → Outside b (dst + 4) (2 * n)
    further (inl p) = inl (omega arith)
    further (inr p) = inr (omega arith)

    here : Outside b dst (2 * suc n) → Outside b dst 2
    here (inl p) = inl (omega arith)
    here (inr p) = inr (omega arith)

-- A move down in memory reads every word before it is overwritten.
pub movsl-inside :
    (n src dst k b : ℕ) (mem : ℕ → ℕ)
    → dst ≤ src
    → k < 2 * n
    → b ≡ dst + 2 * k
    → movsl n src dst mem b ≡ mem (src + 2 * k)
unfolding movsl
movsl-inside zero src dst k b mem d h e = absurd (omega arith)
movsl-inside (suc n) src dst k b mem d h e = elim (dec_lt k 2) [
  | yes low ↦
      movsl-Outside n (src + 4) (dst + 4) b (move_long src dst mem) (inl (omega arith))
      ∙ move_long-inside src dst k b mem low e
  | no high ↦
      let at : src + 4 + 2 * (k - 2) ≡ src + 2 * k = omega arith in
      movsl-inside n (src + 4) (dst + 4) (k - 2) b (move_long src dst mem) (omega arith)
        (omega arith) (omega arith)
      ∙ (ap (move_long src dst mem) at
          ∙ move_long-Outside src dst (src + 2 * k) mem (inr (omega arith)))
]

-- The same upwards, from the last long word on; the words are those from `low` on.
pub movsl_down-Outside :
    (n src dst low b : ℕ) (mem : ℕ → ℕ)
    → (0 < n → dst + 4 ≡ low + 4 * n)
    → Outside b low (2 * n)
    → movsl_down n src dst mem b ≡ mem b
unfolding movsl_down
movsl_down-Outside zero src dst low b mem e h = refl
movsl_down-Outside (suc n) src dst low b mem e h =
    let at = e (omega arith) in
    movsl_down-Outside n (src - 4) (dst - 4) low b (move_long src dst mem) (λ p. omega arith)
      (nearer h)
    ∙ move_long-Outside src dst b mem (here at h)
  where
    nearer : Outside b low (2 * suc n) → Outside b low (2 * n)
    nearer (inl p) = inl p
    nearer (inr p) = inr (omega arith)

    here : dst + 4 ≡ low + 4 * suc n → Outside b low (2 * suc n) → Outside b dst 2
    here x (inl p) = inl (omega arith)
    here x (inr p) = inr (omega arith)

pub movsl_down-inside :
    (n src dst from low k b : ℕ) (mem : ℕ → ℕ)
    → (0 < n → dst + 4 ≡ low + 4 * n)
    → (0 < n → src + 4 ≡ from + 4 * n)
    → from ≤ low
    → k < 2 * n
    → b ≡ low + 2 * k
    → movsl_down n src dst mem b ≡ mem (from + 2 * k)
unfolding movsl_down
movsl_down-inside zero src dst from low k b mem e f d h at = absurd (omega arith)
movsl_down-inside (suc n) src dst from low k b mem e f d h at =
    let last = e (omega arith) in
    let first = f (omega arith) in
    elim (dec_lt k (2 * n)) [
      | no high ↦
          let word : src + 2 * (k - 2 * n) ≡ from + 2 * k = omega arith in
          movsl_down-Outside n (src - 4) (dst - 4) low b (move_long src dst mem) (λ p. omega arith)
            (inr (omega arith))
          ∙ (move_long-inside src dst (k - 2 * n) b mem (omega arith) (omega arith) ∙ ap mem word)
      | yes lower ↦
          movsl_down-inside n (src - 4) (dst - 4) from low k b (move_long src dst mem)
            (λ p. omega arith) (λ p. omega arith) d lower at
          ∙ move_long-Outside src dst (from + 2 * k) mem (inl (omega arith))
    ]
