-- ===== src/Fork/Verify.antt =====
-- The pages that a system call writes to: verify_area of kernel/fork.c (Lab 3). `size` is not
-- negative.
use hack_linux.Base.{
  ◌==◌, if◌then◌else◌, ==_iff, ne→==_false, ℕ, zero, suc, ◌+◌, ◌-◌, ◌*◌, ◌/◌, ◌%◌, ◌^◌, ◌≤◌, ◌≡◌,
  refl, ap, arith, ℕ_discrete,
}
use hack_linux.Mm.{M, pure, ◌>>=◌, ◌>>◌}
use hack_linux.Mm.Tables.{write_verify}

-- The loop, for a number of rounds.
unfoldable pub verify_pages : ℕ → ℕ → ℕ → M (Unit {0})
unfolding write_verify
verify_pages zero size start = pure tt
verify_pages (suc rounds) size start =
    let rest = verify_pages rounds (size - 4096) ((start + 4096) % 2 ^ 32) in
    if size == 0 then pure tt else do write_verify start; rest

-- verify_area for the data segment at `base`; a round takes something off the size, so that the size
-- is enough for the rounds.
unfoldable pub verify_area : ℕ → ℕ → ℕ → M (Unit {0})
unfolding verify_pages
verify_area base addr size =
    let whole = size + addr % 4096 in
    verify_pages whole whole ((addr / 4096 * 4096 + base) % 2 ^ 32)

-- write_verify for a number of pages in order.
abbrev pub verify_each : ℕ → ℕ → M (Unit {0})
verify_each zero start = pure tt
verify_each (suc n) start = do write_verify start; verify_each n ((start + 4096) % 2 ^ 32)

verify_pages-each :
    (rounds size start : ℕ)
    → size ≤ rounds
    → verify_pages rounds size start ≡ verify_each ((size + 4095) / 4096) start
unfolding verify_pages
verify_pages-each zero size start h =
    let none_left : (size + 4095) / 4096 ≡ 0 = omega arith in rw none_left refl
verify_pages-each (suc rounds) size start h = elim (ℕ_discrete size 0) [
  | yes done ↦
      let none_left : (size + 4095) / 4096 ≡ 0 = omega arith in
      rw ((==_iff size 0).1 done, none_left) refl
  | no more ↦
      let one_more : (size + 4095) / 4096 ≡ suc ((size - 4096 + 4095) / 4096) = omega arith in
      let rest = verify_pages-each rounds (size - 4096) ((start + 4096) % 2 ^ 32) (omega arith) in
      rw (ne→==_false size 0 more, one_more)
        (ap (λ (m : M (Unit {0})). write_verify start >>= (λ u. m)) rest)
]

-- verify_area ends: it calls write_verify exactly for the pages from the one of the address to the
-- one of the last byte, in order.
pub verify_area-each :
    (base addr size : ℕ)
    → verify_area base addr size
      ≡ verify_each ((size + addr % 4096 + 4095) / 4096) ((addr / 4096 * 4096 + base) % 2 ^ 32)
unfolding verify_area
verify_area-each base addr size =
    verify_pages-each (size + addr % 4096) (size + addr % 4096)
      ((addr / 4096 * 4096 + base) % 2 ^ 32) (omega arith)
