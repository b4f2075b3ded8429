-- ===== src/Base/Utf8.antt =====
-- UTF-8, as Unicode defines it for code points below 2^21.
use Prim.Native.Nat.{ℕ, ◌+◌, ◌/◌, ◌%◌}
use mathlib.Core.Bool.{Bool, true, false}
use mathlib.Core.List.{List, [], ◌∷◌, ◌++◌}
use libcore.Base.Tests.{ltb, if◌then◌else◌}

unfoldable pub utf8 : ℕ → List ℕ
utf8 cp =
    if ltb cp 0x80
    then cp ∷ []
    else if ltb cp 0x800
    then (0xC0 + cp / 64) ∷ (0x80 + cp % 64) ∷ []
    else if ltb cp 0x10000
    then (0xE0 + cp / 4096) ∷ (0x80 + cp / 64 % 64) ∷ (0x80 + cp % 64) ∷ []
    else (0xF0 + cp / 262144)
      ∷ (0x80 + cp / 4096 % 64)
      ∷ (0x80 + cp / 64 % 64)
      ∷ (0x80 + cp % 64)
      ∷ []

unfoldable pub utf8_all : List ℕ → List ℕ
utf8_all [] = []
utf8_all (cp ∷ cps) = utf8 cp ++ utf8_all cps

unfoldable pub all_below : ℕ → List ℕ → Bool
all_below bound [] = true
all_below bound (cp ∷ cps) = let rest = all_below bound cps in if ltb cp bound then rest else false
