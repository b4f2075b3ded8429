-- ===== src/CronScheduler/Text.antt =====
-- What src/cron_scheduler.c uses of the C library's strings: `atoi`, `strtok_r`, `strchr`, `strcmp`.
use libcore.Base.{ℕ, zero, suc, ◌+◌, ◌-◌, ◌*◌, Bool, true, false, ◌&&◌, ◌||◌}
use libcore.Base.{Option, none, some, List, [], ◌∷◌, ◌++◌, leb, ◌==◌, if◌then◌else◌}
use libcore.Base.Int.{ℤ, pos, negsuc}

unfoldable pub is_digit : ℕ → Bool
is_digit c = leb b'0' c && leb c b'9'

-- The decimal digits that a string starts with.
unfoldable pub digits_value : List ℕ → ℕ → ℕ
digits_value [] value = value
digits_value (c ∷ cs) value =
    let rest = digits_value cs (value * 10 + (c - b'0')) in if is_digit c then rest else value

pub negate : ℕ → ℤ
negate zero = pos 0
negate (suc n) = negsuc n

unfoldable pub is_space : ℕ → Bool
is_space c = c == b' ' || (leb 9 c && leb c 13)

-- `atoi` of a number that an `int` can hold: white space, a sign, digits.
unfoldable pub atoi : List ℕ → ℤ
atoi [] = pos 0
atoi (c ∷ cs) =
    let rest = atoi cs in
    if is_space c
    then rest
    else if c == b'-'
    then negate (digits_value cs 0)
    else if c == b'+'
    then pos (digits_value cs 0)
    else pos (digits_value (c ∷ cs) 0)

unfoldable pub is_in : ℕ → List ℕ → Bool
is_in c [] = false
is_in c (d ∷ ds) = let rest = is_in c ds in if c == d then true else rest

abbrev cons_nonempty : List ℕ → List (List ℕ) → List (List ℕ)
cons_nonempty [] ts = ts
cons_nonempty (c ∷ cs) ts = (c ∷ cs) ∷ ts

-- The tokens that `strtok_r` gives one after another, with the bytes of the one begun.
unfoldable pub tokens_from : List ℕ → List ℕ → List ℕ → List (List ℕ)
tokens_from delims begun [] = cons_nonempty begun []
tokens_from delims begun (c ∷ cs) = elim (is_in c delims) [
  | true ↦ cons_nonempty begun (tokens_from delims [] cs)
  | false ↦ tokens_from delims (begun ++ c ∷ []) cs
]

unfoldable pub tokens : List ℕ → List ℕ → List (List ℕ)
tokens delims s = tokens_from delims [] s

-- What stands behind the first such byte.
unfoldable pub after_byte : ℕ → List ℕ → Option (List ℕ)
after_byte b [] = none
after_byte b (c ∷ cs) = let rest = after_byte b cs in if c == b then some cs else rest

unfoldable pub same_text : List ℕ → List ℕ → Bool
same_text [] [] = true
same_text (a ∷ more) (b ∷ bs) = let rest = same_text more bs in if a == b then rest else false
same_text _ _ = false
