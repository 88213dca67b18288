-- ===== src/Console/Params.antt =====
-- The numbers of a control sequence, as text and as con_write reads them:
-- kernel/chr_drv/console.c (Lab 7).
use hack_linux.Base.{
  lt→ltb, le→leb, ==_iff, ne→==_false, ==_refl, update, length, ℕ, ◌+◌, ◌-◌, ◌*◌, ◌%◌, ◌≤◌, ◌<◌,
  ◌≡◌, refl, sym, ap, ◌∙◌, List, [], ◌∷◌, ◌++◌, map, fun_ext, arith, ℕ_discrete,
}
use mathlib.Core.List.{append_assoc}
use hack_linux.Console.{Video}
use hack_linux.Console.Write.{Console, word}
use hack_linux.Console.Sequences.{csi_param, con_char, con_chars}

-- The decimal value in 32 bits, from `acc` on.
abbrev pub value : List ℕ → ℕ → ℕ
value [] acc = acc
value (d ∷ ds) acc = value ds ((10 * acc + d) % word)

abbrev pub digit : ℕ → ℕ
digit d = b'0' + d

-- The numbers, each a list of digits, with `;` between them.
abbrev pub csi_text : List (List ℕ) → List ℕ
csi_text [] = []
csi_text (ds ∷ []) = map digit ds
csi_text (ds ∷ es ∷ rest) = map digit ds ++ (b';' ∷ csi_text (es ∷ rest))

abbrev pub Digits : List ℕ → Type 0
Digits [] = Unit
Digits (d ∷ ds) = (d < 10) × Digits ds

abbrev pub AllDigits : List (List ℕ) → Type 0
AllDigits [] = Unit
AllDigits (ds ∷ rest) = Digits ds × AllDigits rest

-- The array of the parameters: the values in order, then `others`.
abbrev pub params : List (List ℕ) → ℕ → (ℕ → ℕ) → ℕ → ℕ
params [] n others = others
params (ds ∷ rest) n others = params rest (n + 1) (update others n (value ds (others n)))

digit_read :
    (v : Video) (e d : ℕ) (con : Console)
    → con.state ≡ 3
    → d < 10
    → con_char v e con (digit d)
      ≡ record con { par = update con.par con.npar ((10 * con.par con.npar + d) % word) }
unfolding con_char csi_param
digit_read v e d con at small =
    let cut : 10 * con.par con.npar + (48 + d) - 48 ≡ 10 * con.par con.npar + d = omega arith in
    rw
      (
        at,
        ne→==_false (48 + d) 59 (omega arith),
        le→leb 48 (48 + d) (omega arith),
        le→leb (48 + d) 57 (omega arith),
        cut,
      )
      refl

update_twice : (f : ℕ → ℕ) (i v w : ℕ) → update (update f i v) i w ≡ update f i w
update_twice f i v w = fun_ext (λ j. elim (ℕ_discrete j i) [
  | yes same ↦ rw ((==_iff j i).1 same) refl
  | no other ↦ rw (ne→==_false j i other) refl
])

update_again : (f : ℕ → ℕ) (i : ℕ) → update f i (f i) ≡ f
update_again f i = fun_ext (λ j. elim (ℕ_discrete j i) [
  | yes same ↦ rw same (rw (==_refl i) refl)
  | no other ↦ rw (ne→==_false j i other) refl
])

read_number :
    (v : Video) (e : ℕ) (ds rest : List ℕ) (con : Console)
    → con.state ≡ 3
    → Digits ds
    → con_chars v e (map digit ds ++ rest) con
      ≡ con_chars v e rest
          (record con { par = update con.par con.npar (value ds (con.par con.npar)) })
unfolding con_chars
read_number v e [] rest con at small =
    ap (λ (p : ℕ → ℕ). con_chars v e rest (record con { par = p }))
      (sym (update_again con.par con.npar))
read_number v e (d ∷ ds) rest con at (small, more) =
    let w = (10 * con.par con.npar + d) % word in
    let here : update con.par con.npar w con.npar ≡ w = rw (==_refl con.npar) refl in
    let next = record con { par = update con.par con.npar w } in
    ap (con_chars v e (map digit ds ++ rest)) (digit_read v e d con at small)
    ∙ (read_number v e ds rest next at more
        ∙ (ap (λ (a : ℕ). from (update (update con.par con.npar w) con.npar (value ds a))) here
            ∙ ap from (update_twice con.par con.npar w (value ds w))))
  where
    from : (ℕ → ℕ) → Console
    from p = con_chars v e rest (record con { par = p })

semicolon_read :
    (v : Video) (e : ℕ) (con : Console)
    → con.state ≡ 3
    → con.npar < 15
    → con_char v e con b';' ≡ record con { npar = con.npar + 1 }
unfolding con_char csi_param
semicolon_read v e con at room = rw (at, lt→ltb con.npar 15 room) refl

pub params_read :
    (v : Video) (e : ℕ) (ps : List (List ℕ)) (rest : List ℕ) (con : Console)
    → con.state ≡ 3
    → AllDigits ps
    → 0 < length ps
    → con.npar + length ps ≤ 16
    → con_chars v e (csi_text ps ++ rest) con
      ≡ con_chars v e rest
          (record con { npar = con.npar + length ps - 1; par = params ps con.npar con.par })
unfolding con_chars
params_read v e [] rest con at small more_than_none room = absurd (omega arith)
params_read v e (ds ∷ []) rest con at (small, done) more_than_none room =
    let same : con.npar + 1 - 1 ≡ con.npar = omega arith in
    rw same (read_number v e ds rest con at small)
params_read v e (ds ∷ es ∷ ps) rest con at (small, others) more_than_none room =
    let next = record con {
      npar = con.npar + 1;
      par = update con.par con.npar (value ds (con.par con.npar));
    } in
    let count : con.npar + 1 + length (es ∷ ps) - 1 ≡ con.npar + length (ds ∷ es ∷ ps) - 1 =
      omega arith in
    ap (λ (l : List ℕ). con_chars v e l con)
      (append_assoc (map digit ds) (b';' ∷ csi_text (es ∷ ps)) rest)
    ∙ (read_number v e ds (b';' ∷ (csi_text (es ∷ ps) ++ rest)) con at small
        ∙ (ap (con_chars v e (csi_text (es ∷ ps) ++ rest)) (
              semicolon_read v e
                (record con { par = update con.par con.npar (value ds (con.par con.npar)) }) at
                (omega arith))
            ∙ (params_read v e (es ∷ ps) rest next at others (omega arith) (omega arith)
                ∙ ap
                    (λ (n : ℕ). con_chars v e rest (record con {
                      npar = n;
                      par =
                          params ps (con.npar + 1 + 1)
                            (update next.par next.npar (value es (next.par next.npar)));
                    }))
                    count)))
