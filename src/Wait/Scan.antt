-- ===== src/Wait/Scan.antt =====
-- Which child the loop of sys_waitpid finds.
use hack_linux.Base.{
  ℕ, zero, suc, ◌≤◌, ◌<◌, ◌≡◌, refl, sym, ap, ◌∙◌, subst, Bool, true, ◌||◌, arith, ℕ_discrete,
}
use hack_linux.Sched.{Task}
use hack_linux.Wait.{
  Look, skip, alive, stopped_child, zombie_child, sets_flag, Found, nothing, stopped, zombie,
  after_look, scan,
}

-- The loop goes on behind this slot.
pub data GoesOn : Look → Type 0 where
  skipped : GoesOn skip
  lives : GoesOn alive

-- Where the loop over the slots from n down to 1 ends.
pub data Scanned (look : ℕ → Look) (n : ℕ) (flag : Bool) : Found → Type 0 where
  no_living : ((i : ℕ) → 0 < i → i ≤ n → look i ≡ skip) → Scanned look n flag (nothing flag)
  living :
      (i : ℕ)
      → 0 < i
      → i ≤ n
      → look i ≡ alive
      → ((j : ℕ) → 0 < j → j ≤ n → GoesOn (look j))
      → Scanned look n flag (nothing true)
  stopped_at :
      (i : ℕ) (t : Task)
      → 0 < i
      → i ≤ n
      → look i ≡ stopped_child t
      → ((j : ℕ) → i < j → j ≤ n → GoesOn (look j))
      → Scanned look n flag (stopped i t)
  zombie_at :
      (i : ℕ) (t : Task)
      → 0 < i
      → i ≤ n
      → look i ≡ zombie_child t
      → ((j : ℕ) → i < j → j ≤ n → GoesOn (look j))
      → Scanned look n flag (zombie i t)

module _ (look : ℕ → Look) (n : ℕ) where
  all_go_on :
      {i : ℕ}
      → GoesOn (look (suc n))
      → ((j : ℕ) → i < j → j ≤ n → GoesOn (look j))
      → (j : ℕ) → i < j
      → j ≤ suc n
      → GoesOn (look j)
  all_go_on top f j p q = elim (ℕ_discrete j (suc n)) [
    | yes at ↦ subst (λ x. GoesOn (look x)) (sym at) top
    | no ne ↦ f j p (omega arith)
  ]

  GoesOn-skip : look (suc n) ≡ skip → GoesOn (look (suc n))
  GoesOn-skip e = subst GoesOn (sym e) skipped

  GoesOn-alive : look (suc n) ≡ alive → GoesOn (look (suc n))
  GoesOn-alive e = subst GoesOn (sym e) lives

  GoesOn-skips :
      ((i : ℕ) → 0 < i → i ≤ n → look i ≡ skip) → (i : ℕ) → 0 < i → i ≤ n → GoesOn (look i)
  GoesOn-skips f i p q = subst GoesOn (sym (f i p q)) skipped

  Scanned-skip :
      {flag : Bool} {r : Found}
      → look (suc n) ≡ skip
      → Scanned look n flag r
      → Scanned look (suc n) flag r
  Scanned-skip e (no_living f) = no_living (λ i p q. elim (ℕ_discrete i (suc n)) [
    | yes at ↦ ap look at ∙ e
    | no ne ↦ f i p (omega arith)
  ])
  Scanned-skip e (living i p q l f) = living i p (omega arith) l (all_go_on (GoesOn-skip e) f)
  Scanned-skip e (stopped_at i t p q l f) =
      stopped_at i t p (omega arith) l (all_go_on (GoesOn-skip e) f)
  Scanned-skip e (zombie_at i t p q l f) =
      zombie_at i t p (omega arith) l (all_go_on (GoesOn-skip e) f)

  Scanned-alive :
      {flag : Bool} {r : Found}
      → look (suc n) ≡ alive
      → Scanned look n true r
      → Scanned look (suc n) flag r
  Scanned-alive e (no_living f) =
      living (suc n) (omega arith) (omega arith) e (all_go_on (GoesOn-alive e) (GoesOn-skips f))
  Scanned-alive e (living i p q l f) = living i p (omega arith) l (all_go_on (GoesOn-alive e) f)
  Scanned-alive e (stopped_at i t p q l f) =
      stopped_at i t p (omega arith) l (all_go_on (GoesOn-alive e) f)
  Scanned-alive e (zombie_at i t p q l f) =
      zombie_at i t p (omega arith) l (all_go_on (GoesOn-alive e) f)

  Scanned-step :
      (l : Look) (flag : Bool) (r : Found)
      → look (suc n) ≡ l
      → Scanned look n (sets_flag l || flag) r
      → Scanned look (suc n) flag (after_look l (suc n) r)
  Scanned-step skip flag r e s = Scanned-skip e s
  Scanned-step alive flag r e s = Scanned-alive e s
  Scanned-step (stopped_child t) flag r e s =
      stopped_at (suc n) t (omega arith) (omega arith) e (λ j p q. absurd (omega arith))
  Scanned-step (zombie_child t) flag r e s =
      zombie_at (suc n) t (omega arith) (omega arith) e (λ j p q. absurd (omega arith))

pub scan-Scanned : (look : ℕ → Look) (n : ℕ) (flag : Bool) → Scanned look n flag (scan n look flag)
unfolding scan
scan-Scanned look zero flag = no_living (λ i p q. absurd (omega arith))
scan-Scanned look (suc n) flag =
    Scanned-step look n (look (suc n)) flag _ refl
      (scan-Scanned look n (sets_flag (look (suc n)) || flag))
