-- ===== src/Mm.antt =====
-- The memory manager's state: mm/memory.c and mm/shm.c (Lab 6), with include/linux/mm.h.
pub mod Copy
pub mod Demand
pub mod Frames
pub mod Shm
pub mod Tables
mod Tests
use hack_linux.Base.{
  ℕ, ◌+◌, ◌-◌, ◌*◌, ◌/◌, ◌%◌, ◌^◌, Bool, List, ◌∷◌, ltb, leb, ◌==◌, ◌&&◌, if◌then◌else◌, update,
}

abbrev pub low_mem : ℕ
low_mem = 0x100000

-- `PAGING_MEMORY >> 12`
abbrev pub paging_pages : ℕ
paging_pages = 15 * 1024 * 1024 / 4096

abbrev pub used : ℕ
used = 100

abbrev pub page_size : ℕ
page_size = 4096

abbrev pub max_shared_pages_num : ℕ
max_shared_pages_num = 64

-- One slot of `sharedPages`.
pub record SharedPage : Type 0 where
  pub count : ℕ
  pub physical_address : ℕ

-- What `printk` is called with.
pub data Message : Type 0 where
  out_of_memory : Message
  trying_to_put : ℕ → ℕ → Message
  mem_map_disagrees : ℕ → ℕ → Message
  shmget_size : Message
  shmget_key : Message
  shmget_no_page : Message
  shmat_refused : ℕ → Message
  shmat_no_put : Message
  freeing_tables : Message
  pages_free : ℕ → ℕ → Message
  dir_uses : ℕ → ℕ → Message

-- `mem_map` is indexed by page number, `word` by the physical address of an aligned 32-bit word
-- (the page directory stands at address 0). `current` is seen through the fields that the code uses.
pub record Mm : Type 0 where
  pub mem_map : ℕ → ℕ
  pub word : ℕ → ℕ
  pub high_memory : ℕ
  pub shared_pages : ℕ → SharedPage
  pub brk : ℕ
  pub ldt_base : ℕ
  pub log : List Message

pub data Panic : Type 0 where
  nonexistent_page : Panic
  free_page_twice : Panic
  free_alignment : Panic
  free_swapper : Panic
  copy_alignment : Panic
  copy_exists : Panic
  share_exists : Panic
  separate_i_and_d : Panic
  bad_data_limit : Panic

-- `panic` and `do_exit` do not return, and `wild` is an access outside an array.
pub data Outcome (A : Type 0) : Type 0 where
  ok : A → Mm → Outcome A
  panic : Panic → Mm → Outcome A
  killed : Mm → Outcome A
  wild : Outcome A

abbrev pub M : Type 0 → Type 0
M A = Mm → Outcome A

abbrev pub pure : {A : Type 0} → A → M A
pure = ok

module _ {A B : Type 0} where
  abbrev pub and_then : Outcome A → (A → M B) → Outcome B
  and_then (ok a s) k = k a s
  and_then (panic p s) k = panic p s
  and_then (killed s) k = killed s
  and_then wild k = wild

  infixl 5 ◌>>=◌ ◌>>◌
  abbrev pub ◌>>=◌ : M A → (A → M B) → M B
  m >>= k = λ s. and_then (m s) k

  abbrev pub ◌>>◌ : M A → M B → M B
  m >> n = m >>= λ _. n

abbrev pub stop_panic : {A : Type 0} → Panic → M A
stop_panic p s = panic p s

abbrev pub printk : Message → M (Unit {0})
printk m s = ok tt (record s { log = m ∷ s.log })

-- `oom()`: print, then `do_exit(SIGSEGV)`.
abbrev pub oom : {A : Type 0} → M A
oom s = killed (record s { log = out_of_memory ∷ s.log })

-- `mem_map[i]`, an unsigned char.
abbrev pub map_get : ℕ → M ℕ
map_get i s = if ltb i paging_pages then ok (s.mem_map i) s else wild

abbrev pub map_set : ℕ → ℕ → M (Unit {0})
map_set i v s =
    if ltb i paging_pages then ok tt (record s { mem_map = update s.mem_map i (v % 256) }) else wild

abbrev pub load : ℕ → M ℕ
load a s = ok (s.word a) s

abbrev pub store : ℕ → ℕ → M (Unit {0})
store a v s = ok tt (record s { word = update s.word a v })

-- Bit operations on 32-bit words, by arithmetic.

-- `1 & e`
abbrev pub present : ℕ → Bool
present e = e % 2 == 1

-- `0xfffff000 & e`
abbrev pub frame : ℕ → ℕ
frame e = e / 4096 * 4096

-- `e | 7`
abbrev pub or_seven : ℕ → ℕ
or_seven e = e / 8 * 8 + 7

-- `e & ~2`
abbrev pub clear_rw : ℕ → ℕ
clear_rw e = e / 4 * 4 + e % 2

-- `e | 2`
abbrev pub set_rw : ℕ → ℕ
set_rw e = e / 4 * 4 + 2 + e % 2

-- `(a >> 20) & 0xffc`: the address of the directory entry, since the directory is at 0.
abbrev pub dir_entry : ℕ → ℕ
dir_entry a = a / 2 ^ 22 % 1024 * 4

-- `(a >> 10) & 0xffc`
abbrev pub table_offset : ℕ → ℕ
table_offset a = a / 2 ^ 12 % 1024 * 4

-- `MAP_NR(addr)`, and the page number to physical address
abbrev pub map_nr : ℕ → ℕ
map_nr a = (a + 2 ^ 32 - low_mem) % 2 ^ 32 / 2 ^ 12

-- `rep ; stosl`: 1024 zero words from `p`
abbrev pub zero_page : (ℕ → ℕ) → ℕ → ℕ → ℕ
zero_page w p a = if leb p a && ltb a (p + 4096) then 0 else w a

-- `copy_page(from, to)`: 1024 words
abbrev pub copy_words : (ℕ → ℕ) → ℕ → ℕ → ℕ → ℕ
copy_words w from to a = if leb to a && ltb a (to + 4096) then w (a - to + from) else w a
