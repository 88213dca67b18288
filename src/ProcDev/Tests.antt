-- ===== src/ProcDev/Tests.antt =====
-- Reads of a text "abc", and of "xyz" by another process in between.
use hack_linux.Base.{ℕ, zero, suc, ◌<◌, ◌≡◌, refl, ◌≢◌, [], ◌∷◌, arith}
use hack_linux.Base.Int.{pos, negsuc}
use hack_linux.Base.Chars.{Chars, chars_of, IsString}
use hack_linux.ProcDev.{Proc, read_bytes, read_info, proc_read}
use hack_linux.ProcDev.Read.{Got, read_info-Got}
use hack_linux.ProcDev.Chunks.{DeviceGot, proc_read-DeviceGot, Free, proc_read-Free}

abbrev abc : Chars
abc = chars_of (b'a' ∷ b'b' ∷ b'c' ∷ [])

abbrev xyz : Chars
xyz = chars_of (b'x' ∷ b'y' ∷ b'z' ∷ [])

abbrev clear : Chars
clear i = 0

abbrev unused : Proc
unused = record {
  psinfo = record { buf = clear; pid = negsuc 0 };
  hdinfo = record { buf = clear; pid = negsuc 0 };
}

-- Process 1 reads "ab", process 2 starts a read, and process 1 goes on with "z".
abbrev after_two : Proc
after_two = (proc_read 2 xyz 0 0 1 clear (proc_read 1 abc 0 0 2 clear unused).1.1.1).1.1.1

mixes_texts : (proc_read 1 abc 0 2 1 clear after_two).1.1.0 0 ≡ b'z'
unfolding proc_read read_info read_bytes
mixes_texts = refl

abc-IsString : IsString 1023 abc 3
abc-IsString = record { short = omega arith; ends = refl; before = λ i p. abc_full i p }
  where
    abc_full : (i : ℕ) → i < 3 → abc i ≢ 0
    abc_full zero p = omega arith
    abc_full (suc zero) p = omega arith
    abc_full (suc (suc zero)) p = omega arith
    abc_full (suc (suc (suc i))) p = absurd (omega arith)

read_info-Got_example :
    Got 1 abc 3 0 2 clear unused.psinfo (read_info 1 abc 0 2 clear unused.psinfo)
read_info-Got_example = read_info-Got 1 abc 3 0 2 clear unused.psinfo abc-IsString (omega arith)

proc_read-DeviceGot_example :
    DeviceGot 1 abc 3 1 0 9 clear unused (proc_read 1 abc 1 0 9 clear unused)
proc_read-DeviceGot_example =
    proc_read-DeviceGot 1 abc 3 1 0 9 clear unused abc-IsString (omega arith)

proc_read-Free_example :
    (n : ℕ) × (((proc_read 1 abc 0 0 2 clear unused).0 ≡ pos n)
      × Free (proc_read 1 abc 0 0 2 clear unused).1.1.1)
proc_read-Free_example = proc_read-Free 1 abc 0 0 2 clear unused (refl, refl)
