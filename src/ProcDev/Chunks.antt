-- ===== src/ProcDev/Chunks.antt =====
-- proc_read by device, over several calls, and its guard.
use hack_linux.Base.{
  ◌==◌, if◌then◌else◌, ne→==_false, Bool-cases, ℕ, ◌≤◌, ◌≡◌, refl, ap, subst, ◌≢◌, inl, inr, Bool,
  true, false, ℕ_discrete,
}
use hack_linux.Base.Int.{ℤ, pos, negsuc}
use hack_linux.Base.Chars.{Chars, IsString}
use hack_linux.ProcDev.{Info, Proc, read_bytes, read_info, proc_read}
use hack_linux.ProcDev.Read.{last_byte, text_at, Got, read_info-Got}

abbrev pub info_of : ℕ → Proc → Info
info_of dev p = if dev == 0 then p.psinfo else p.hdinfo

-- What proc_read does with a device number.
pub data DeviceGot (current : ℕ) (fresh : Chars) (len dev at count : ℕ) (memory : Chars) (p : Proc)
    : ℤ × (ℕ × (Chars × Proc)) → Type 0 where
  of_psinfo :
      {n : ℤ} {at' : ℕ} {memory' : Chars} {i : Info}
      → dev ≡ 0
      → Got current
          (text_at fresh at p.psinfo)
          len
          at
          count
          memory
          p.psinfo
          (n, (at', (memory', i)))
      → DeviceGot current fresh len dev at count memory p
          (n, (at', (memory', record p { psinfo = i })))
  of_hdinfo :
      {n : ℤ} {at' : ℕ} {memory' : Chars} {i : Info}
      → dev ≡ 1
      → Got current
          (text_at fresh at p.hdinfo)
          len
          at
          count
          memory
          p.hdinfo
          (n, (at', (memory', i)))
      → DeviceGot current fresh len dev at count memory p
          (n, (at', (memory', record p { hdinfo = i })))
  no_device :
      dev ≢ 0
      → dev ≢ 1
      → DeviceGot current fresh len dev at count memory p (pos 0, (at, (memory, p)))

-- proc_read at a position within the text of its device does what `Got` says with that device and
-- leaves the other alone; on any other device number it reads nothing.
pub proc_read-DeviceGot :
    (current : ℕ) (fresh : Chars) (len dev at count : ℕ) (memory : Chars) (p : Proc)
    → IsString last_byte (text_at fresh at (info_of dev p)) len
    → at ≤ len
    → DeviceGot current fresh len dev at count memory p
        (proc_read current fresh dev at count memory p)
unfolding proc_read
proc_read-DeviceGot current fresh len dev at count memory p l q = elim (ℕ_discrete dev 0) [
  | yes zero_dev ↦
      let l' : IsString last_byte (text_at fresh at p.psinfo) len =
        subst (λ d. IsString last_byte (text_at fresh at (info_of d p)) len) zero_dev l in
      rw (ap (λ d. d == 0) zero_dev)
        (of_psinfo zero_dev (read_info-Got current fresh len at count memory p.psinfo l' q))
  | no ne ↦ elim (ℕ_discrete dev 1) [
    | yes one_dev ↦
        let l' : IsString last_byte (text_at fresh at p.hdinfo) len =
          subst (λ d. IsString last_byte (text_at fresh at (info_of d p)) len) one_dev l in
        rw (ne→==_false dev 0 ne, ap (λ d. d == 1) one_dev)
          (of_hdinfo one_dev (read_info-Got current fresh len at count memory p.hdinfo l' q))
    | no ne' ↦ rw (ne→==_false dev 0 ne, ne→==_false dev 1 ne') (no_device ne ne')
  ]
]

-- Nobody reads.
abbrev pub Free : Proc → Type 0
Free p = (p.psinfo.pid ≡ negsuc 0) × (p.hdinfo.pid ≡ negsuc 0)

read_info-free :
    (current : ℕ) (fresh : Chars) (at count : ℕ) (memory : Chars) (i : Info)
    → i.pid ≡ negsuc 0
    → (n : ℕ) × (((read_info current fresh at count memory i).0 ≡ pos n)
        × ((read_info current fresh at count memory i).1.1.1.pid ≡ negsuc 0))
unfolding read_info
read_info-free current fresh at count memory i h =
    let (r, ended) =
      read_bytes count (text_at fresh at i) (record { at = at; done = 0; memory = memory }) in
    rw h (r.done, (refl, stays ended))
  where
    stays : (b : Bool) → (if b then negsuc 0 else negsuc 0) ≡ negsuc 0
    stays true = refl
    stays false = refl

-- When nobody holds a device, proc_read is not refused and nobody holds one afterwards: the pids,
-- which are -1 at first, are never set, so no reader ever keeps another one out.
pub proc_read-Free :
    (current : ℕ) (fresh : Chars) (dev at count : ℕ) (memory : Chars) (p : Proc)
    → Free p
    → (n : ℕ) × (((proc_read current fresh dev at count memory p).0 ≡ pos n)
        × Free (proc_read current fresh dev at count memory p).1.1.1)
unfolding proc_read
proc_read-Free current fresh dev at count memory p (a, b) = elim (Bool-cases (dev == 0)) [
  | inl zero_dev ↦
      let (n, (e, f)) = read_info-free current fresh at count memory p.psinfo a in
      rw zero_dev (n, (e, (f, b)))
  | inr ne ↦ elim (Bool-cases (dev == 1)) [
    | inl one_dev ↦
        let (n, (e, f)) = read_info-free current fresh at count memory p.hdinfo b in
        rw (ne, one_dev) (n, (e, (a, f)))
    | inr ne' ↦ rw (ne, ne') (0, (refl, (a, b)))
  ]
]
