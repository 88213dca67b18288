-- ===== src/Who/Tests.antt =====
-- The name "ab", and one of 24 bytes.
use hack_linux.Base.{◌≡◌, refl, [], ◌∷◌, arith}
use hack_linux.Base.Int.{pos}
use hack_linux.Base.Chars.{Chars, chars_of, str_len}
use hack_linux.Who.{read_iam, strncpy, invalid, sys_iam, sys_whoami}
use hack_linux.Who.RoundTrip.{Told, sys_whoami-Told}

abbrev ab : Chars
ab = chars_of (b'a' ∷ b'b' ∷ [])

abbrev long_name : Chars
long_name i = b'x'

abbrev empty : Chars
empty i = 0

refuses : sys_iam long_name empty ≡ (invalid, empty)
unfolding sys_iam read_iam
refuses = refl

tells : (sys_whoami long_name 3 (sys_iam ab empty).1).0 ≡ pos 2
unfolding sys_whoami sys_iam read_iam strncpy str_len
tells = refl

sys_whoami-Told_example : Told ab long_name 2 3 (sys_whoami long_name 3 (sys_iam ab empty).1)
sys_whoami-Told_example =
    sys_whoami-Told ab empty long_name 2 3
      (record { short = omega arith; ends = refl; before = λ i p. ground arith })
