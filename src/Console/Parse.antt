-- ===== src/Console/Parse.antt =====
-- A whole control sequence, `ESC [ n ; m c`, and what con_write makes of it:
-- kernel/chr_drv/console.c (Lab 7).
use hack_linux.Base.{
  leb, lt→leb_false, ne→==_false, ==_refl, update, length, get_or, ℕ, zero, suc, ◌+◌, ◌-◌, ◌≤◌, ◌<◌,
  ◌≡◌, refl, ap, ◌∙◌, ◌≢◌, ◌⊎◌, inl, inr, false, ◌&&◌, List, [], ◌∷◌, ◌++◌, map, ap₂, fun_ext,
  arith,
}
use hack_linux.Console.{Video, set_cursor}
use hack_linux.Console.Write.{Console, on_screen, plain, escape}
use hack_linux.Console.Sequences.{csi_final, csi_param, csi_start, con_char, con_chars, con_write}
use hack_linux.Console.Params.{value, digit, csi_text, AllDigits, params, params_read}

params_below : (ps : List (List ℕ)) (n i : ℕ) (f : ℕ → ℕ) → i < n → params ps n f i ≡ f i
params_below [] n i f h = refl
params_below (ds ∷ ps) n i f h =
    params_below ps (n + 1) i (update f n (value ds (f n))) (omega arith)
    ∙ rw (ne→==_false i n (omega arith)) refl

params_at :
    (ps : List (List ℕ)) (n k i : ℕ) (f : ℕ → ℕ)
    → i ≡ n + k
    → params ps n f i ≡ value (get_or ps k []) (f i)
params_at [] n k i f e = refl
params_at (ds ∷ ps) n zero i f e =
    let at : i ≡ n = omega arith in
    params_below ps (n + 1) i (update f n (value ds (f n))) (omega arith)
    ∙ rw at (rw (==_refl n) refl)
params_at (ds ∷ ps) n (suc k) i f e =
    params_at ps (n + 1) k i (update f n (value ds (f n))) (omega arith)
    ∙ rw (ne→==_false i n (omega arith)) refl

-- The console that has read `ESC [` and the numbers.
abbrev pub read_numbers : List (List ℕ) → Console → Console
read_numbers ps con = record con {
  state = 3;
  ques = false;
  npar = length ps - 1;
  par = λ i. value (get_or ps i []) 0;
}

-- A character that ends the numbers.
abbrev pub Final : ℕ → Type 0
Final c = (c ≢ b';') × ((c ≢ b'?') × ((c < b'0') ⊎ (b'9' < c)))

start_read :
    (v : Video) (e c : ℕ) (con : Console)
    → con.state ≡ 2
    → c ≢ b'?'
    → con_char v e con c
      ≡ con_char v e (record con { par = λ i. 0; npar = 0; state = 3; ques = false }) c
unfolding con_char csi_start
start_read v e c con at other = rw (at, ne→==_false c 63 other) refl

numbers_read :
    (v : Video) (e c : ℕ) (ps : List (List ℕ)) (con : Console)
    → con.state ≡ 2
    → AllDigits ps
    → 0 < length ps
    → Final c
    → con_chars v e (csi_text ps ++ (c ∷ [])) con
      ≡ con_chars v e
          (csi_text ps ++ (c ∷ []))
          (record con { par = λ i. 0; npar = 0; state = 3; ques = false })
unfolding con_chars
numbers_read v e c [] con at small some_number final = absurd (omega arith)
numbers_read v e c ([] ∷ []) con at small some_number final = start_read v e c con at final.1.0
numbers_read v e c ([] ∷ es ∷ ps) con at small some_number final =
    ap (con_chars v e (csi_text (es ∷ ps) ++ (c ∷ []))) (start_read v e b';' con at (omega arith))
numbers_read v e c ((d ∷ ds) ∷ []) con at small some_number final =
    ap (con_chars v e (map digit ds ++ (c ∷ [])))
      (start_read v e (digit d) con at (omega (arith, small.0.0)))
numbers_read v e c ((d ∷ ds) ∷ es ∷ ps) con at small some_number final =
    ap (con_chars v e ((map digit ds ++ (b';' ∷ csi_text (es ∷ ps))) ++ (c ∷ [])))
      (start_read v e (digit d) con at (omega (arith, small.0.0)))

last_char :
    (v : Video) (e c : ℕ) (con : Console)
    → con.state ≡ 3
    → Final c
    → con_char v e con c ≡ csi_final v c con
unfolding con_char csi_param
last_char v e c con at (no_semicolon, (no_question, no_digit)) =
    rw (at, ne→==_false c 59 no_semicolon, not_digit no_digit) refl
  where
    not_digit : (c < b'0') ⊎ (b'9' < c) → (leb b'0' c && leb c b'9') ≡ false
    not_digit (inl low) = rw (lt→leb_false 48 c low) refl
    not_digit (inr high) = ground arith

escape_read :
    (v : Video) (e : ℕ) (con : Console)
    → con.state ≡ 0
    → con_char v e con 27 ≡ record con { state = 1 }
unfolding con_char plain
escape_read v e con at = rw at refl

bracket_read :
    (v : Video) (e : ℕ) (con : Console)
    → con.state ≡ 1
    → con_char v e con b'[' ≡ record con { state = 2 }
unfolding con_char escape
bracket_read v e con at = rw at refl

sequence_read :
    (v : Video) (e c : ℕ) (ps : List (List ℕ)) (con : Console)
    → con.state ≡ 0
    → AllDigits ps
    → 0 < length ps
    → length ps ≤ 16
    → Final c
    → con_chars v e (27 ∷ b'[' ∷ (csi_text ps ++ (c ∷ []))) con
      ≡ csi_final v c (read_numbers ps con)
unfolding con_chars
sequence_read v e c ps con at small some_number room final =
    let text = csi_text ps ++ (c ∷ []) in
    let opened = record con { state = 2 } in
    let cleared = record con { par = λ i. 0; npar = 0; state = 3; ques = false } in
    let read = λ (n : ℕ) (p : ℕ → ℕ). record cleared { npar = n; par = p } in
    let numbers : params ps 0 (λ i. 0) ≡ (λ i. value (get_or ps i []) 0) =
      fun_ext (λ i. params_at ps 0 i i (λ j. 0) (omega arith)) in
    let count : 0 + length ps - 1 ≡ length ps - 1 = omega arith in
    ap (con_chars v e (b'[' ∷ text)) (escape_read v e con at)
    ∙ (ap (con_chars v e text) (bracket_read v e (record con { state = 1 }) refl)
        ∙ (numbers_read v e c ps opened refl small some_number final
            ∙ (params_read v e ps (c ∷ []) cleared refl small some_number (omega arith)
                ∙ (last_char v e c (read (0 + length ps - 1) (params ps 0 (λ i. 0))) refl final
                    ∙ ap₂ (λ (n : ℕ) (p : ℕ → ℕ). csi_final v c (read n p)) count numbers))))

-- con_write of `ESC [`, up to 16 decimal numbers with `;` between them, and a final character: it
-- is the sequence of that character, `case 4`, with the numbers in 32 bits as its parameters and 0
-- for each parameter that is missing.
pub con_write-sequence :
    (v : Video) (erase_char c : ℕ) (ps : List (List ℕ)) (con : Console)
    → con.state ≡ 0
    → AllDigits ps
    → 0 < length ps
    → length ps ≤ 16
    → Final c
    → con_write v erase_char (27 ∷ b'[' ∷ (csi_text ps ++ (c ∷ []))) con
      ≡ on_screen (set_cursor v) (csi_final v c (read_numbers ps con))
unfolding con_write
con_write-sequence v erase_char c ps con at small some_number room final =
    ap (on_screen (set_cursor v))
      (sequence_read v erase_char c ps con at small some_number room final)
