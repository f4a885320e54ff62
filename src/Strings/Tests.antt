-- ===== src/Strings/Tests.antt =====
-- Runs of lib.c.
use linux_os.Base.{ℕ, ◌≡◌, refl, some, List, [], ◌∷◌, ◌++◌, codes}
use linux_os.Strings.{strncmp, itoa}
use linux_os.Base.Int.{pos, ◌-ℤ◌}

abbrev c_str : List ℕ → List ℕ
c_str s = s ++ 0 ∷ []

itoa_hex : itoa 0xbeef 16 ≡ some (c_str (codes "BEEF"))
unfolding itoa
itoa_hex = refl

strncmp_shell : strncmp (c_str (codes "shell")) (c_str (codes "shelf")) 32 ≡ some (pos 6)
unfolding strncmp ◌-ℤ◌
strncmp_shell = refl
