-- ===== src/ProcDev/Read.antt =====
-- What one call of proc_read gives.
use hack_linux.Base.{
  ltb, leb, ◌==◌, if◌then◌else◌, lt→ltb, le→ltb_false, ne→==_false, ==_refl, update, ℕ, zero, suc,
  ◌+◌, ◌-◌, ◌≤◌, ◌<◌, ◌≡◌, refl, sym, ap, ◌∙◌, subst, ◌≢◌, ◌⊎◌, inl, inr, Bool, true, false, not,
  ◌&&◌, arith, ℕ_discrete,
}
use hack_linux.Base.Int.{ℤ, pos, negsuc, pos_part, neg_part}
use hack_linux.Base.Chars.{Chars, IsString}
use hack_linux.ProcDev.{Info, Reading, read_bytes, refused, is_minus_one, is_pid, read_info}

-- The bytes that a read of `count` bytes takes from `at` on in a text of `len` bytes.
abbrev pub amount : ℕ → ℕ → ℕ → ℕ
amount len at count = if leb count (len - at) then count else len - at

-- A run of the loop of proc_read over `n` bytes.
pub record Taken (text : Chars) (n : ℕ) (r s : Reading) : Type 0 where
  pub moved : s.at ≡ r.at + n
  pub counted : s.done ≡ r.done + n
  pub bytes : (j : ℕ) → j < n → s.memory (r.done + j) ≡ text (r.at + j)
  pub same : (j : ℕ) → (j < r.done) ⊎ (r.done + n ≤ j) → s.memory j ≡ r.memory j

Taken-none : (text : Chars) (r : Reading) → Taken text 0 r r
Taken-none text r = record {
  moved = omega arith;
  counted = omega arith;
  bytes = λ j p. absurd (omega arith);
  same = λ j p. refl;
}

Taken-next :
    (text : Chars) (n : ℕ) (r s : Reading)
    → Taken text n
        (record { at = r.at + 1; done = r.done + 1; memory = update r.memory r.done (text r.at) })
        s
    → Taken text (suc n) r s
Taken-next text n r s t = record {
  moved = omega (arith, t.moved);
  counted = omega (arith, t.counted);
  bytes = λ j p. byte j p;
  same = λ j p. t.same j (shifted j p) ∙ rw (ne→==_false j r.done (off j p)) refl;
}
  where
    byte : (j : ℕ) → j < suc n → s.memory (r.done + j) ≡ text (r.at + j)
    byte zero p =
        ap s.memory (here r.done)
        ∙ (t.same r.done (inl (omega arith))
            ∙ (rw (==_refl r.done) refl ∙ ap text (sym (here r.at))))
      where
        here : (m : ℕ) → m + 0 ≡ m
        here m = omega arith
    byte (suc j) p =
        ap s.memory (next r.done) ∙ (t.bytes j (omega arith) ∙ ap text (sym (next r.at)))
      where
        next : (m : ℕ) → m + suc j ≡ m + 1 + j
        next m = omega arith

    shifted :
        (j : ℕ) → (j < r.done) ⊎ (r.done + suc n ≤ j) → (j < r.done + 1) ⊎ (r.done + 1 + n ≤ j)
    shifted j (inl p) = inl (omega arith)
    shifted j (inr p) = inr (omega arith)

    off : (j : ℕ) → (j < r.done) ⊎ (r.done + suc n ≤ j) → j ≢ r.done
    off j (inl p) e = omega arith
    off j (inr p) e = omega arith

amount_zero : (len at : ℕ) → amount len at 0 ≡ 0
amount_zero len at = ground arith

amount_end : (len at count : ℕ) → len ≤ at → amount len at count ≡ 0
amount_end len at count h = ground arith

amount-suc :
    (len at count : ℕ) → at < len → amount len at (suc count) ≡ suc (amount len (at + 1) count)
amount-suc len at count h = ground arith

ltb-suc : (len at count : ℕ) → at < len → ltb (len - (at + 1)) count ≡ ltb (len - at) (suc count)
ltb-suc len at count h = ground arith

pub read_bytes-Taken :
    (bound len count : ℕ) (text : Chars) (r : Reading)
    → IsString bound text len
    → r.at ≤ len
    → let (s, ended) = read_bytes count text r in
      Taken text (amount len r.at count) r s × (ended ≡ ltb (len - r.at) count)
unfolding read_bytes
read_bytes-Taken bound len zero text r l p = (
  subst (λ m. Taken text m r r) (sym (amount_zero len r.at)) (Taken-none text r),
  sym (le→ltb_false (len - r.at) 0 (omega arith)),
)
read_bytes-Taken bound len (suc count) text r l p = elim (ℕ_discrete r.at len) [
  | yes at ↦
      let nul : (text r.at == 0) ≡ true = ap (λ j. text j == 0) at ∙ rw l.ends refl in
      rw nul (
        subst (λ m. Taken text m r r) (sym (amount_end len r.at (suc count) (omega arith)))
            (Taken-none text r),
        sym (lt→ltb (len - r.at) (suc count) (omega arith)),
      )
  | no ne ↦
      let less : r.at < len = omega arith in
      let after : Reading = record {
        at = r.at + 1;
        done = r.done + 1;
        memory = update r.memory r.done (text r.at);
      } in
      let (t, e) = read_bytes-Taken bound len count text after l (omega arith) in
      rw (ne→==_false (text r.at) 0 (l.before r.at less)) (
        subst (λ m. Taken text m r (read_bytes count text after).0)
            (sym (amount-suc len r.at count less)) (Taken-next text _ r _ t),
        e ∙ ltb-suc len r.at count less,
      )
]

-- The buffers have 1024 bytes.
abbrev pub last_byte : ℕ
last_byte = 1023

-- The text that a read at `at` is of: at 0 it is refreshed first.
abbrev pub text_at : Chars → ℕ → Info → Chars
text_at fresh at i = if at == 0 then fresh else i.buf

-- What a read of a text of `len` bytes gives.
pub data Got (current : ℕ) (text : Chars) (len at count : ℕ) (memory : Chars) (i : Info)
    : ℤ × (ℕ × (Chars × Info)) → Type 0 where
  busy :
      i.pid ≢ negsuc 0
      → i.pid ≢ pos current
      → Got current text len at count memory i (refused, (at, (memory, i)))
  got :
      {at' : ℕ} {memory' : Chars} {pid : ℤ} (n : ℕ)
      → n ≡ amount len at count
      → at' ≡ at + n
      → ((j : ℕ) → j < n → memory' j ≡ text (at + j))
      → ((j : ℕ) → n ≤ j → memory' j ≡ memory j)
      → (pid ≡ i.pid) ⊎ (pid ≡ negsuc 0)
      → Got current text len at count memory i
          (pos n, (at', (memory', record { buf = text; pid = pid })))

pid-cases :
    (pid : ℤ) (current : ℕ)
    → ((not (is_minus_one pid) && not (is_pid pid current)) ≡ false)
      ⊎ (((not (is_minus_one pid) && not (is_pid pid current)) ≡ true)
          × ((pid ≢ negsuc 0) × (pid ≢ pos current)))
pid-cases (pos n) current = elim (ℕ_discrete n current) [
  | yes same ↦ inl (ap (λ m. not (m == current)) same ∙ rw (==_refl current) refl)
  | no ne ↦ inr (rw (ne→==_false n current ne) refl, (λ e. cc, λ e. ne (ap pos_part e)))
]
pid-cases (negsuc n) current = elim (ℕ_discrete n 0) [
  | yes free ↦ inl (ap (λ m. not (m == 0) && true) free)
  | no ne ↦ inr (rw (ne→==_false n 0 ne) refl, (λ e. ne (suc_out (ap neg_part e)), λ e. cc))
]
  where
    suc_out : suc n ≡ 1 → n ≡ 0
    suc_out e = omega arith

-- A read at a position within the text either is refused, as another process holds the device, or
-- gives the next bytes of the text, as many as were asked for and are left, at the start of the
-- user's buffer, and moves the position behind them. A read at position 0 is of the fresh text.
pub read_info-Got :
    (current : ℕ) (fresh : Chars) (len at count : ℕ) (memory : Chars) (i : Info)
    → IsString last_byte (text_at fresh at i) len
    → at ≤ len
    → Got current
        (text_at fresh at i)
        len
        at
        count
        memory
        i
        (read_info current fresh at count memory i)
unfolding read_info
read_info-Got current fresh len at count memory i l p = elim (pid-cases i.pid current) [
  | inr (taken, (a, b)) ↦ rw taken (busy a b)
  | inl free ↦
      let start : Reading = record { at = at; done = 0; memory = memory } in
      let (t, e) = read_bytes-Taken last_byte len count (text_at fresh at i) start l p in
      rw free (
        got _ (omega (arith, t.counted)) (omega (arith, t.counted, t.moved))
          (λ j q.
            ap (read_bytes count (text_at fresh at i) start).0.memory (from_zero j)
            ∙ t.bytes j (omega (arith, t.counted)))
          (λ j q. t.same j (inr (omega (arith, t.counted))))
          (new_pid (read_bytes count (text_at fresh at i) start).1))
]
  where
    from_zero : (j : ℕ) → j ≡ 0 + j
    from_zero j = omega arith

    new_pid :
        (ended : Bool)
        → ((if ended then negsuc 0 else i.pid) ≡ i.pid)
          ⊎ ((if ended then negsuc 0 else i.pid) ≡ negsuc 0)
    new_pid true = inr refl
    new_pid false = inl refl
