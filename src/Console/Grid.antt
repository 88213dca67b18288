-- ===== src/Console/Grid.antt =====
-- The screen as rows and columns, and the invariant of its numbers.
use hack_linux.Base.{
  ltb, leb, ◌==◌, if◌then◌else◌, ℕ, ◌+◌, ◌-◌, ◌*◌, ◌/◌, ◌≤◌, ◌<◌, ◌≡◌, ap, ◌&&◌, arith,
}
use hack_linux.Console.{Video, size_row, erase, Screen}

-- What con_init makes sure of: the screen fits in the video memory.
pub record Fits (v : Video) : Type 0 where
  pub wide : 8 ≤ v.columns
  pub even : v.columns ≡ 2 * (v.columns / 2)
  pub tall : 0 < v.lines
  pub room : v.mem_start + v.lines * size_row v ≤ v.mem_end

-- The cursor is on the screen or right behind its row, `pos` is its address, the scroll region is
-- not empty, and the screen is a part of the video memory.
pub record Valid (v : Video) (s : Screen) : Type 0 where
  pub in_x : s.x ≤ v.columns
  pub in_y : s.y < v.lines
  pub at : s.pos ≡ s.origin + s.y * size_row v + s.x * 2
  pub region : s.top < s.bottom
  pub low : s.bottom ≤ v.lines
  pub start : v.mem_start ≤ s.origin
  pub size : s.scr_end ≡ s.origin + v.lines * size_row v
  pub fits : s.scr_end ≤ v.mem_end

-- The word in a row and a column.
abbrev pub grid : Video → Screen → ℕ → ℕ → ℕ
grid v s r c = s.mem (s.origin + r * size_row v + c * 2)

-- The rows from `top` to `bottom` with the first one dropped, and with one put before it.
abbrev pub scrolled_up : ℕ → ℕ → (ℕ → ℕ → ℕ) → ℕ → ℕ → ℕ
scrolled_up top bottom g r c =
    if leb top r && ltb (r + 1) bottom
    then g (r + 1) c
    else if r + 1 == bottom
    then erase
    else g r c

abbrev pub scrolled_down : ℕ → ℕ → (ℕ → ℕ → ℕ) → ℕ → ℕ → ℕ
scrolled_down top bottom g r c =
    if ltb top r && ltb r bottom then g (r - 1) c else if r == top then erase else g r c

pub row_below : (r n w : ℕ) → r < n → r * w + w ≤ n * w
row_below r n w h = grind arith

pub sub_mul : (t r w : ℕ) → t ≤ r → (r - t) * w + t * w ≡ r * w
sub_mul t r w h = let e : r - t + t ≡ r = omega arith in omega (arith, ap (λ (m : ℕ). m * w) e)

-- The words that `rep movsl` moves, for an even number of columns.
pub longs_lem : (v : Video) (rows : ℕ) → Fits v → 2 * (rows * v.columns / 2) ≡ rows * v.columns
longs_lem v rows f = omega (arith, ap (λ (m : ℕ). rows * m) f.even)
