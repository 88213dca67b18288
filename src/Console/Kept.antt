-- ===== src/Console/Kept.antt =====
-- Every operation on the screen keeps its numbers valid and writes to the video memory only.
use hack_linux.Base.{
  ltb, leb, ◌==◌, if◌then◌else◌, ltb_false→le, Bool-cases, ℕ, ◌+◌, ◌-◌, ◌*◌, ◌/◌, ◌≤◌, ◌≡◌, refl,
  ap, inl, inr, Bool, true, false, ◌&&◌, List, arith,
}
use hack_linux.Console.{
  Video, size_row, is_ega, Screen, gotoxy, scroll_origin, move_up, scrup, scrdown,
}
use hack_linux.Console.Grid.{Fits, Valid, sub_mul, longs_lem}
use hack_linux.Console.Valid.{
  Tame, Tame-refl, Tame-trans, stosw-Tame, stosw_down-Tame, movsl-Tame, movsl_down-Tame,
}

pub record Kept (v : Video) (s s' : Screen) : Type 0 where
  pub valid : Valid v s'
  pub tame : Tame v s.mem s'.mem

pub Kept-refl : {v : Video} {s : Screen} → Valid v s → Kept v s s
Kept-refl {v} {s} ok = record { valid = ok; tame = Tame-refl v s.mem }

pub Kept-trans : {v : Video} {a b c : Screen} → Kept v a b → Kept v b c → Kept v a c
Kept-trans p q = record { valid = q.valid; tame = Tame-trans p.tame q.tame }

pub Kept-if :
    {v : Video} {s : Screen} (b : Bool) {p q : Screen}
    → Kept v s p
    → Kept v s q
    → Kept v s (if b then p else q)
Kept-if true k l = k
Kept-if false k l = l

-- Only the memory changes.
Valid-mem : (v : Video) (s : Screen) (mem : ℕ → ℕ) → Valid v s → Valid v (record s { mem = mem })
Valid-mem v s mem ok = record {
  in_x = ok.in_x;
  in_y = ok.in_y;
  at = ok.at;
  region = ok.region;
  low = ok.low;
  start = ok.start;
  size = ok.size;
  fits = ok.fits;
}

pub Kept-mem :
    (v : Video) (s : Screen) (mem : ℕ → ℕ)
    → Valid v s
    → Tame v s.mem mem
    → Kept v s (record s { mem = mem })
Kept-mem v s mem ok t = record { valid = Valid-mem v s mem ok; tame = t }

module _ (v : Video) (s : Screen) (f : Fits v) (ok : Valid v s) where
  pub gotoxy-Kept : (new_x new_y : ℕ) → Kept v s (gotoxy v new_x new_y s)
  unfolding gotoxy
  gotoxy-Kept new_x new_y = elim (Bool-cases (ltb v.columns new_x)) [
    | inl wide ↦ rw wide (Kept-refl ok)
    | inr in_x ↦ elim (Bool-cases (leb v.lines new_y)) [
      | inl tall ↦ rw (in_x, tall) (Kept-refl ok)
      | inr in_y ↦
          rw (in_x, in_y)
            (record {
              valid = record {
                in_x = ltb_false→le v.columns new_x in_x;
                in_y = ground arith;
                at = refl;
                region = ok.region;
                low = ok.low;
                start = ok.start;
                size = ok.size;
                fits = ok.fits;
              };
              tame = Tame-refl v s.mem;
            })
    ]
  ]

  rows_end : s.bottom * v.columns ≤ v.lines * v.columns
  rows_end = grind (arith, ok.low)

  move_up-Kept : Kept v s (move_up v s)
  unfolding move_up
  move_up-Kept =
      let rows = s.bottom - s.top - 1 in
      let m = rows * v.columns / 2 in
      let to = s.origin + size_row v * s.top in
      let even = longs_lem v rows f in
      let cut : rows ≡ s.bottom - (s.top + 1) = omega arith in
      let total = ap (λ (i : ℕ). i * v.columns) cut in
      let last = sub_mul (s.top + 1) s.bottom v.columns (omega (arith, ok.region)) in
      let most = rows_end in
      Kept-mem v s _ ok (
        Tame-trans
          (movsl-Tame v m (s.origin + size_row v * (s.top + 1)) to s.mem (omega (arith, ok.start))
            (omega (arith, ok.size, ok.fits)))
          (stosw-Tame v v.columns (to + 4 * m) _ (omega (arith, ok.start))
            (omega (arith, ok.size, ok.fits))))

  scroll_origin-Kept : Kept v s (scroll_origin v s)
  unfolding scroll_origin
  scroll_origin-Kept =
      let m = (v.lines - 1) * v.columns / 2 in
      let even = longs_lem v (v.lines - 1) f in
      let all = sub_mul 1 v.lines v.columns f.tall in
      elim (Bool-cases (ltb v.mem_end (s.scr_end + size_row v))) [
        | inl wraps ↦ rw wraps (record {
          valid = record {
            in_x = ok.in_x;
            in_y = ok.in_y;
            at = omega (arith, ok.at, ok.start);
            region = ok.region;
            low = ok.low;
            start = omega arith;
            size = omega (arith, ok.size, ok.start);
            fits = omega (arith, ok.size, ok.start, f.room);
          };
          tame =
              Tame-trans
                (movsl-Tame v m (s.origin + size_row v) v.mem_start s.mem (omega arith)
                  (omega (arith, f.room)))
                (stosw-Tame v v.columns (v.mem_start + 4 * m) _ (omega arith)
                  (omega (arith, f.room)));
        })
        | inr room ↦
            let inside = ltb_false→le v.mem_end (s.scr_end + size_row v) room in
            rw room (record {
              valid = record {
                in_x = ok.in_x;
                in_y = ok.in_y;
                at = omega (arith, ok.at);
                region = ok.region;
                low = ok.low;
                start = omega (arith, ok.start);
                size = omega (arith, ok.size);
                fits = inside;
              };
              tame =
                  stosw-Tame v v.columns (s.scr_end + size_row v - size_row v) s.mem
                    (omega (arith, ok.size, ok.start)) (omega arith);
            })
      ]

  pub scrup-Kept : Kept v s (scrup v s)
  unfolding scrup
  scrup-Kept = elim (Bool-cases (is_ega v.video_type && (s.top == 0 && s.bottom == v.lines))) [
    | inr slow ↦ rw slow move_up-Kept
    | inl fast ↦
        let k = scroll_origin-Kept in rw fast (record { valid = ports_only k.valid; tame = k.tame })
  ]
    where
      ports_only : {t : Screen} {p : List (ℕ × ℕ)} → Valid v t → Valid v (record t { ports = p })
      ports_only o = record {
        in_x = o.in_x;
        in_y = o.in_y;
        at = o.at;
        region = o.region;
        low = o.low;
        start = o.start;
        size = o.size;
        fits = o.fits;
      }

  pub scrdown-Kept : Kept v s (scrdown v s)
  unfolding scrdown
  scrdown-Kept =
      let rows = s.bottom - s.top - 1 in
      let m = rows * v.columns / 2 in
      let from = s.origin + size_row v * (s.bottom - 1) - 4 in
      let to = s.origin + size_row v * s.bottom - 4 in
      let even = longs_lem v rows f in
      let cut : rows ≡ s.bottom - (s.top + 1) = omega arith in
      let total = ap (λ (i : ℕ). i * v.columns) cut in
      let last = sub_mul (s.top + 1) s.bottom v.columns (omega (arith, ok.region)) in
      let low = s.origin + size_row v * (s.top + 1) in
      let first = s.origin + size_row v * s.top in
      let most = rows_end in
      Kept-mem v s _ ok (
        Tame-trans
          (movsl_down-Tame v m from to low s.mem (omega (arith, ok.start))
            (omega (arith, ok.size, ok.fits)) (λ p. omega (arith, f.wide)))
          (stosw_down-Tame v v.columns first (to - 4 * m + 2) _ (omega (arith, ok.start))
            (omega (arith, ok.size, ok.fits)) (λ p. omega (arith, f.wide))))

-- Scrolling leaves the column alone.
pub scrup_column : (v : Video) (s : Screen) → (scrup v s).x ≡ s.x
unfolding scrup scroll_origin move_up
scrup_column v s = elim (Bool-cases (is_ega v.video_type && (s.top == 0 && s.bottom == v.lines))) [
  | inr slow ↦ rw slow refl
  | inl fast ↦ elim (Bool-cases (ltb v.mem_end (s.scr_end + size_row v))) [
    | inl wraps ↦ rw (fast, wraps) refl
    | inr room ↦ rw (fast, room) refl
  ]
]
