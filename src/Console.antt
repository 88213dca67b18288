-- ===== src/Console.antt =====
-- The screen of the console: kernel/chr_drv/console.c (Lab 7). `mem` is the video memory, one word
-- (character and attribute) at each even address; a count, a line and an address are the numbers
-- that the code computes, which the invariant of Console.Valid keeps from passing below 0.
pub mod Memory
pub mod Grid
pub mod Scroll
pub mod Erase
pub mod Edit
pub mod Cells
pub mod CellCounts
pub mod Valid
pub mod Kept
pub mod Moves
pub mod Write
pub mod Sequences
pub mod Keys
pub mod Final
pub mod Params
pub mod Parse
pub mod Written
pub mod Safe
pub mod Text
pub mod Start
mod Tests
use hack_linux.Base.{
  ltb, leb, ◌==◌, if◌then◌else◌, ltb→lt, ltb_false→le, lt→ltb, le→ltb_false, leb→le, le→leb,
  lt→leb_false, ==_iff, ne→==_false, ==_false→ne, ==_refl, tests, Bool-cases, Option-cases, update,
  length, get_elem?, set, length-append, length-set, get_elem?-set_self, get_elem?-set_ne, get_or,
  take, drop, replicate, take-append-drop, length-take, length-drop, length-replicate, length-map,
  ℕ, zero, suc, ◌+◌, ◌-◌, ◌*◌, ◌/◌, ◌%◌, ◌^◌, ◌≤◌, ◌<◌, ◌≡◌, refl, sym, ap, ◌∙◌, subst, ◌≢◌, ◌↔◌,
  ◌⊎◌, inl, inr, Bool, true, false, not, ◌&&◌, ◌||◌, Option, none, some, List, [], ◌∷◌, ◌++◌, map,
  ap₂, fun_ext, add-zero, arith, ℕ_discrete, dec_lt,
}

pub data VideoType : Type 0 where
  video_type_mda : VideoType
  video_type_cga : VideoType
  video_type_egam : VideoType
  video_type_egac : VideoType

-- What con_init finds and nothing changes later.
pub record Video : Type 0 where
  pub video_type : VideoType
  pub columns : ℕ
  pub lines : ℕ
  pub mem_start : ℕ
  pub mem_end : ℕ

-- `video_size_row`
abbrev pub size_row : Video → ℕ
size_row v = v.columns * 2

-- `video_erase_char`
abbrev pub erase : ℕ
erase = 0x0720

abbrev pub is_ega : VideoType → Bool
is_ega video_type_mda = false
is_ega video_type_cga = false
is_ega video_type_egam = true
is_ega video_type_egac = true

abbrev pub isalpha : ℕ → Bool
isalpha c = leb b'A' c && leb c b'Z' || leb b'a' c && leb c b'z'

-- `ports` are the bytes sent to the registers of the video controller, the newest first.
pub record Screen : Type 0 where
  pub mem : ℕ → ℕ
  pub origin : ℕ
  pub scr_end : ℕ
  pub pos : ℕ
  pub x : ℕ
  pub y : ℕ
  pub top : ℕ
  pub bottom : ℕ
  pub ports : List (ℕ × ℕ)

-- `rep stosw` of n words from address `a` up, and, with the direction flag set, down.
unfoldable pub stosw : ℕ → ℕ → ℕ → (ℕ → ℕ) → ℕ → ℕ
stosw zero a w mem = mem
stosw (suc n) a w mem = stosw n (a + 2) w (update mem a w)

unfoldable pub stosw_down : ℕ → ℕ → ℕ → (ℕ → ℕ) → ℕ → ℕ
stosw_down zero a w mem = mem
stosw_down (suc n) a w mem = stosw_down n (a - 2) w (update mem a w)

-- One `movsl`: two words are read, then written.
abbrev pub move_long : ℕ → ℕ → (ℕ → ℕ) → ℕ → ℕ
move_long src dst mem = update (update mem dst (mem src)) (dst + 2) (mem (src + 2))

unfoldable pub movsl : ℕ → ℕ → ℕ → (ℕ → ℕ) → ℕ → ℕ
movsl zero src dst mem = mem
movsl (suc n) src dst mem = movsl n (src + 4) (dst + 4) (move_long src dst mem)

unfoldable pub movsl_down : ℕ → ℕ → ℕ → (ℕ → ℕ) → ℕ → ℕ
movsl_down zero src dst mem = mem
movsl_down (suc n) src dst mem = movsl_down n (src - 4) (dst - 4) (move_long src dst mem)

unfoldable pub gotoxy : Video → ℕ → ℕ → Screen → Screen
gotoxy v new_x new_y s =
    if ltb v.columns new_x || leb v.lines new_y
    then s
    else record s { x = new_x; y = new_y; pos = s.origin + new_y * size_row v + new_x * 2 }

-- The two registers from number `reg` on take the word offset of an address.
abbrev pub set_address : ℕ → ℕ → List (ℕ × ℕ) → List (ℕ × ℕ)
set_address reg offset ports = (reg + 1, offset / 2 % 256) ∷ (reg, offset / 512 % 256) ∷ ports

abbrev pub set_origin : Video → Screen → Screen
set_origin v s = record s { ports = set_address 12 (s.origin - v.mem_start) s.ports }

abbrev pub set_cursor : Video → Screen → Screen
set_cursor v s = record s { ports = set_address 14 (s.pos - v.mem_start) s.ports }

-- The fast scroll of scrup, before set_origin.
unfoldable pub scroll_origin : Video → Screen → Screen
unfolding stosw movsl
scroll_origin v s =
    let origin = s.origin + size_row v in
    let pos = s.pos + size_row v in
    let scr_end = s.scr_end + size_row v in
    let longs = (v.lines - 1) * v.columns / 2 in
    if ltb v.mem_end scr_end
    then record s {
      mem = stosw v.columns (v.mem_start + 4 * longs) erase (movsl longs origin v.mem_start s.mem);
      scr_end = scr_end - (origin - v.mem_start);
      pos = pos - (origin - v.mem_start);
      origin = v.mem_start;
    }
    else record s {
      mem = stosw v.columns (scr_end - size_row v) erase s.mem;
      scr_end = scr_end;
      pos = pos;
      origin = origin;
    }

-- The rows below `top` move up, and the last one is erased.
unfoldable pub move_up : Video → Screen → Screen
unfolding stosw movsl
move_up v s =
    let longs = (s.bottom - s.top - 1) * v.columns / 2 in
    let to = s.origin + size_row v * s.top in
    record s {
      mem =
          stosw v.columns (to + 4 * longs) erase
            (movsl longs (s.origin + size_row v * (s.top + 1)) to s.mem);
    }

unfoldable pub scrup : Video → Screen → Screen
unfolding scroll_origin move_up
scrup v s =
    if is_ega v.video_type && (s.top == 0 && s.bottom == v.lines)
    then set_origin v (scroll_origin v s)
    else move_up v s

-- Both branches of scrdown are the same code.
unfoldable pub scrdown : Video → Screen → Screen
unfolding stosw_down movsl_down
scrdown v s =
    let longs = (s.bottom - s.top - 1) * v.columns / 2 in
    let from = s.origin + size_row v * (s.bottom - 1) - 4 in
    let to = s.origin + size_row v * s.bottom - 4 in
    record s {
      mem = stosw_down v.columns (to - 4 * longs + 2) erase (movsl_down longs from to s.mem);
    }

unfoldable pub lf : Video → Screen → Screen
unfolding scrup
lf v s =
    if ltb (s.y + 1) s.bottom then record s { y = s.y + 1; pos = s.pos + size_row v } else scrup v s

unfoldable pub ri : Video → Screen → Screen
unfolding scrdown
ri v s = if ltb s.top s.y then record s { y = s.y - 1; pos = s.pos - size_row v } else scrdown v s

unfoldable pub cr : Screen → Screen
cr s = record s { pos = s.pos - s.x * 2; x = 0 }

unfoldable pub del : Screen → Screen
del s =
    if s.x == 0
    then s
    else record s { pos = s.pos - 2; x = s.x - 1; mem = update s.mem (s.pos - 2) erase }

unfoldable pub csi_J : Video → ℕ → Screen → Screen
unfolding stosw
csi_J v par s =
    if par == 0
    then record s { mem = stosw ((s.scr_end - s.pos) / 2) s.pos erase s.mem }
    else if par == 1
    then record s { mem = stosw ((s.pos - s.origin) / 2) s.origin erase s.mem }
    else if par == 2
    then record s { mem = stosw (v.columns * v.lines) s.origin erase s.mem }
    else s

unfoldable pub csi_K : Video → ℕ → Screen → Screen
unfolding stosw
csi_K v par s =
    if par == 0
    then if leb v.columns s.x
      then s
      else record s { mem = stosw (v.columns - s.x) s.pos erase s.mem }
    else if par == 1
    then record s {
      mem = stosw (if ltb s.x v.columns then s.x else v.columns) (s.pos - s.x * 2) erase s.mem;
    }
    else if par == 2
    then record s { mem = stosw v.columns (s.pos - s.x * 2) erase s.mem }
    else s

-- The loop of insert_char: `n` rounds at address `p`, with the word `old` to put there.
unfoldable pub insert_words : ℕ → ℕ → ℕ → (ℕ → ℕ) → ℕ → ℕ
insert_words zero p old mem = mem
insert_words (suc n) p old mem = insert_words n (p + 2) (mem p) (update mem p old)

unfoldable pub insert_char : Video → Screen → Screen
unfolding insert_words
insert_char v s = record s { mem = insert_words (v.columns - s.x) s.pos erase s.mem }

-- The loop of delete_char, and the write behind it.
unfoldable pub delete_words : ℕ → ℕ → (ℕ → ℕ) → ℕ → ℕ
delete_words zero p mem = update mem p erase
delete_words (suc n) p mem = delete_words n (p + 2) (update mem p (mem (p + 2)))

unfoldable pub delete_char : Video → Screen → Screen
unfolding delete_words
delete_char v s =
    if leb v.columns s.x
    then s
    else record s { mem = delete_words (v.columns - s.x - 1) s.pos s.mem }

-- insert_line and delete_line scroll the part of the screen from the cursor's row on.
abbrev pub with_region : ℕ → ℕ → (Screen → Screen) → Screen → Screen
with_region top bottom f s = record (f (record s { top = top; bottom = bottom })) {
  top = s.top;
  bottom = s.bottom;
}

unfoldable pub insert_line : Video → Screen → Screen
unfolding scrdown
insert_line v s = with_region s.y v.lines (scrdown v) s

unfoldable pub delete_line : Video → Screen → Screen
unfolding scrup
delete_line v s = with_region s.y v.lines (scrup v) s

-- `while (nr--)`
unfoldable pub repeat : ℕ → (Screen → Screen) → Screen → Screen
repeat zero f s = s
repeat (suc n) f s = repeat n f (f s)

-- The count of a csi sequence: at most `most`, and 1 for none.
abbrev pub clamp_count : ℕ → ℕ → ℕ
clamp_count most nr = if ltb most nr then most else if nr == 0 then 1 else nr

abbrev pub csi_at : Video → ℕ → Screen → Screen
csi_at v nr = repeat (clamp_count v.columns nr) (insert_char v)

abbrev pub csi_L : Video → ℕ → Screen → Screen
csi_L v nr = repeat (clamp_count v.lines nr) (insert_line v)

abbrev pub csi_P : Video → ℕ → Screen → Screen
csi_P v nr = repeat (clamp_count v.columns nr) (delete_char v)

abbrev pub csi_M : Video → ℕ → Screen → Screen
csi_M v nr = repeat (clamp_count v.lines nr) (delete_line v)
