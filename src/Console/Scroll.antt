-- ===== src/Console/Scroll.antt =====
-- scrup and scrdown on rows and columns: the fast scroll of EGA cards, with and without the copy
-- back to the start of the video memory, and the slow one do the same.
use hack_linux.Base.{
  lt→ltb, le→ltb_false, le→leb, lt→leb_false, ==_iff, ne→==_false, ℕ, ◌+◌, ◌-◌, ◌*◌, ◌/◌, ◌≤◌, ◌<◌,
  ◌≡◌, ap, ◌∙◌, inl, inr, arith, ℕ_discrete, dec_lt, ltb, ◌==◌, Bool-cases, true, ◌&&◌,
}
use hack_linux.Console.{
  Video, size_row, erase, Screen, stosw, movsl, move_up, is_ega, movsl_down, scroll_origin, scrup,
  scrdown,
}
use hack_linux.Console.Memory.{
  Outside, stosw-Outside, stosw-inside, movsl-Outside, movsl-inside, stosw_down-Outside,
  stosw_down-inside, movsl_down-Outside, movsl_down-inside,
}
use hack_linux.Console.Grid.{
  Fits, Valid, grid, scrolled_up, row_below, sub_mul, longs_lem, scrolled_down,
}

-- A move of `m` long words from `src` to `to`, and `n` words erased behind it.
module _ (m n src to : ℕ) (mem : ℕ → ℕ) where
  abbrev rolled : ℕ → ℕ
  rolled = stosw n (to + 4 * m) erase (movsl m src to mem)

  rolled-moved : (k b : ℕ) → to ≤ src → k < 2 * m → b ≡ to + 2 * k → rolled b ≡ mem (src + 2 * k)
  rolled-moved k b d h e =
      stosw-Outside n (to + 4 * m) erase b (movsl m src to mem) (inl (omega arith))
      ∙ movsl-inside m src to k b mem d h e

  rolled-erased : (k b : ℕ) → k < n → b ≡ to + 4 * m + 2 * k → rolled b ≡ erase
  rolled-erased k b h e = stosw-inside n (to + 4 * m) erase k b (movsl m src to mem) h e

  pub rolled-Outside : (b : ℕ) → Outside b to (2 * m + n) → rolled b ≡ mem b
  rolled-Outside b h =
      stosw-Outside n (to + 4 * m) erase b (movsl m src to mem) (behind h)
      ∙ movsl-Outside m src to b mem (before h)
    where
      behind : Outside b to (2 * m + n) → Outside b (to + 4 * m) n
      behind (inl p) = inl (omega arith)
      behind (inr p) = inr (omega arith)

      before : Outside b to (2 * m + n) → Outside b to (2 * m)
      before (inl p) = inl p
      before (inr p) = inr (omega arith)

module _ (v : Video) (s : Screen) (f : Fits v) (ok : Valid v s) (r c : ℕ) (in_r : r < v.lines)
    (in_c : c < v.columns) where
  move_up-grid : grid v (move_up v s) r c ≡ scrolled_up s.top s.bottom (grid v s) r c
  unfolding move_up
  move_up-grid =
      let rows = s.bottom - s.top - 1 in
      let m = rows * v.columns / 2 in
      let to = s.origin + size_row v * s.top in
      let src = s.origin + size_row v * (s.top + 1) in
      let b = s.origin + r * size_row v + c * 2 in
      let even = longs_lem v rows f in
      let cut : rows ≡ s.bottom - (s.top + 1) = omega arith in
      let total = ap (λ (i : ℕ). i * v.columns) cut in
      let last = sub_mul (s.top + 1) s.bottom v.columns (omega (arith, ok.region)) in
      elim (dec_lt r s.top) [
        | yes above ↦
            let before = row_below r s.top v.columns above in
            rw (lt→leb_false s.top r above, ne→==_false (r + 1) s.bottom (omega (arith, ok.region)))
              (rolled-Outside m v.columns src to s.mem b (inl (omega arith)))
        | no from_top ↦ elim (dec_lt (r + 1) s.bottom) [
          | yes inner ↦
              let row = sub_mul s.top r v.columns (omega arith) in
              let next = row_below (r - s.top) rows v.columns (omega arith) in
              let k = (r - s.top) * v.columns + c in
              let here : src + 2 * k ≡ s.origin + (r + 1) * size_row v + c * 2 = omega arith in
              rw (le→leb s.top r (omega arith), lt→ltb (r + 1) s.bottom inner)
                (rolled-moved m v.columns src to s.mem k b (omega arith) (omega arith) (omega arith)
                  ∙ ap s.mem here)
          | no beyond ↦ elim (ℕ_discrete (r + 1) s.bottom) [
            | yes at_last ↦
                let row = ap (λ (i : ℕ). i * v.columns) at_last in
                rw
                  (
                    le→leb s.top r (omega arith),
                    le→ltb_false (r + 1) s.bottom (omega arith),
                    (==_iff (r + 1) s.bottom).1 at_last,
                  )
                  (rolled-erased m v.columns src to s.mem c b in_c (omega arith))
            | no below ↦
                let behind = row_below s.bottom (r + 1) v.columns (omega arith) in
                rw
                  (
                    le→leb s.top r (omega arith),
                    le→ltb_false (r + 1) s.bottom (omega arith),
                    ne→==_false (r + 1) s.bottom below,
                  )
                  (rolled-Outside m v.columns src to s.mem b (inr (omega arith)))
          ]
        ]
      ]

  scroll_origin-grid :
      s.top ≡ 0
      → s.bottom ≡ v.lines
      → grid v (scroll_origin v s) r c ≡ scrolled_up s.top s.bottom (grid v s) r c
  unfolding scroll_origin
  scroll_origin-grid at_top at_bottom =
      let m = (v.lines - 1) * v.columns / 2 in
      let even = longs_lem v (v.lines - 1) f in
      let all = sub_mul 1 v.lines v.columns f.tall in
      let src = s.origin + size_row v in
      elim (dec_lt (r + 1) v.lines) [
        | yes inner ↦
            let next = row_below r (v.lines - 1) v.columns (omega arith) in
            let later = row_below (r + 1) v.lines v.columns inner in
            let word : s.origin + size_row v + r * size_row v + c * 2
                ≡ s.origin + (r + 1) * size_row v + c * 2 =
              omega arith in
            let moved : src + 2 * (r * v.columns + c) ≡ s.origin + (r + 1) * size_row v + c * 2 =
              omega arith in
            rw (le→leb s.top r (omega arith), lt→ltb (r + 1) s.bottom (omega arith))
              (elim (Bool-cases (ltb v.mem_end (s.scr_end + size_row v))) [
                | inl wraps ↦ rw wraps (
                    rolled-moved m v.columns src v.mem_start s.mem (r * v.columns + c)
                      (v.mem_start + r * size_row v + c * 2) (omega (arith, ok.start)) (omega arith)
                      (omega arith)
                    ∙ ap s.mem moved)
                | inr room ↦ rw room (
                    stosw-Outside v.columns (s.scr_end + size_row v - size_row v) erase
                      (s.origin + size_row v + r * size_row v + c * 2) s.mem
                      (inl (omega (arith, ok.size)))
                    ∙ ap s.mem word)
              ])
        | no outer ↦
            let row = ap (λ (i : ℕ). i * v.columns) (last_row outer) in
            rw
              (
                le→leb s.top r (omega arith),
                le→ltb_false (r + 1) s.bottom (omega arith),
                (==_iff (r + 1) s.bottom).1 (omega arith),
              )
              (elim (Bool-cases (ltb v.mem_end (s.scr_end + size_row v))) [
                | inl wraps ↦ rw wraps (
                    rolled-erased m v.columns src v.mem_start s.mem c
                      (v.mem_start + r * size_row v + c * 2) in_c (omega arith))
                | inr room ↦ rw room (
                    stosw-inside v.columns (s.scr_end + size_row v - size_row v) erase c
                      (s.origin + size_row v + r * size_row v + c * 2) s.mem in_c
                      (omega (arith, ok.size)))
              ])
      ]
    where
      last_row : ¬ (r + 1 < v.lines) → r ≡ v.lines - 1
      last_row h = omega arith

  -- On a valid screen of an even number of columns, scrup moves the rows of the scroll region up by
  -- one and erases the last one, for every type of video card and wherever the screen stands in the
  -- video memory; no other row of the screen changes.
  pub scrup-grid : grid v (scrup v s) r c ≡ scrolled_up s.top s.bottom (grid v s) r c
  unfolding scrup
  scrup-grid = elim (Bool-cases (is_ega v.video_type && (s.top == 0 && s.bottom == v.lines))) [
    | inr slow ↦ rw slow move_up-grid
    | inl fast ↦ rw fast (scroll_origin-grid (at_top fast) (at_bottom fast))
  ]
    where
      at_top : (is_ega v.video_type && (s.top == 0 && s.bottom == v.lines)) ≡ true → s.top ≡ 0
      at_top h = ground arith

      at_bottom :
          (is_ega v.video_type && (s.top == 0 && s.bottom == v.lines)) ≡ true → s.bottom ≡ v.lines
      at_bottom h = ground arith

  -- scrdown moves the rows of the scroll region down by one and erases the first one; no other row
  -- changes.
  pub scrdown-grid : grid v (scrdown v s) r c ≡ scrolled_down s.top s.bottom (grid v s) r c
  unfolding scrdown
  scrdown-grid =
      let rows = s.bottom - s.top - 1 in
      let m = rows * v.columns / 2 in
      let from = s.origin + size_row v * (s.bottom - 1) - 4 in
      let to = s.origin + size_row v * s.bottom - 4 in
      let b = s.origin + r * size_row v + c * 2 in
      let even = longs_lem v rows f in
      let cut : rows ≡ s.bottom - (s.top + 1) = omega arith in
      let total = ap (λ (i : ℕ). i * v.columns) cut in
      let last = sub_mul (s.top + 1) s.bottom v.columns (omega (arith, ok.region)) in
      let before_last = sub_mul 1 s.bottom v.columns (omega (arith, ok.region)) in
      let low = s.origin + size_row v * (s.top + 1) in
      let first = s.origin + size_row v * s.top in
      let moved = movsl_down m from to s.mem in
      let end_up : 0 < v.columns → to - 4 * m + 2 + 2 ≡ first + 2 * v.columns =
        λ p. omega (arith, f.wide) in
      let to_up : 0 < m → to + 4 ≡ low + 4 * m = λ p. omega (arith, f.wide) in
      let from_up : 0 < m → from + 4 ≡ first + 4 * m = λ p. omega (arith, f.wide) in
      elim (dec_lt r s.top) [
        | yes above ↦
            let before = row_below r s.top v.columns above in
            rw (le→ltb_false s.top r (omega arith), ne→==_false r s.top (omega arith))
              (stosw_down-Outside v.columns first (to - 4 * m + 2) erase b moved end_up
                  (inl (omega arith))
                ∙ movsl_down-Outside m from to low b s.mem to_up (inl (omega arith)))
        | no from_top ↦ elim (ℕ_discrete r s.top) [
          | yes at_top ↦
              let row = ap (λ (i : ℕ). i * v.columns) at_top in
              rw (le→ltb_false s.top r (omega arith), (==_iff r s.top).1 at_top)
                (stosw_down-inside v.columns first (to - 4 * m + 2) erase c b moved end_up in_c
                  (omega arith))
          | no below_top ↦ elim (dec_lt r s.bottom) [
            | yes inner ↦
                let row = sub_mul (s.top + 1) r v.columns (omega arith) in
                let next = row_below (r - (s.top + 1)) rows v.columns (omega arith) in
                let back = sub_mul 1 r v.columns (omega arith) in
                let k = (r - (s.top + 1)) * v.columns + c in
                let here : first + 2 * k ≡ s.origin + (r - 1) * size_row v + c * 2 = omega arith in
                rw (lt→ltb s.top r (omega arith), lt→ltb r s.bottom inner)
                  (stosw_down-Outside v.columns first (to - 4 * m + 2) erase b moved end_up
                      (inr (omega arith))
                    ∙ (movsl_down-inside m from to first low k b s.mem to_up from_up (omega arith)
                          (omega arith) (omega arith)
                        ∙ ap s.mem here))
            | no below ↦
                let behind = row_below (s.bottom - 1) r v.columns (omega arith) in
                rw
                  (
                    lt→ltb s.top r (omega arith),
                    le→ltb_false r s.bottom (omega arith),
                    ne→==_false r s.top below_top,
                  )
                  (stosw_down-Outside v.columns first (to - 4 * m + 2) erase b moved end_up
                      (inr (omega arith))
                    ∙ movsl_down-Outside m from to low b s.mem to_up (inr (omega arith)))
          ]
        ]
      ]
