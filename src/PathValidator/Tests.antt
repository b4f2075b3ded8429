-- ===== src/PathValidator/Tests.antt =====
-- Tests of src/path_validator.c, and its theorems at concrete inputs.
use libcore.Base.{ℕ, ◌<◌, ◌≤◌, length, true, List, none, some, ◌∷◌, [], ◌≡◌, refl}
use libcore.PathValidator.{
  validate, check_utf8, check_from, advance, scan, accept, is_allowed, close_segment, put_slash,
  ends_in, put, is_xdigit, xdigit_value, finish, restore_root, trim_slash,
}
use libcore.PathValidator.Print.{IsCanonical}
use libcore.PathValidator.Canonical.{validate-IsCanonical}
use libcore.PathValidator.Idempotent.{validate_idempotent}
use libcore.PathValidator.Utf8.{check_utf8_iff, IsUtf8}
use libcore.Base.{◌↔◌}

-- "/.//a%62/."
abbrev noisy : List ℕ
noisy = b'/' ∷ b'.' ∷ b'/' ∷ b'/' ∷ b'a' ∷ b'%' ∷ b'6' ∷ b'2' ∷ b'/' ∷ b'.' ∷ []

abbrev plain : List ℕ
plain = b'/' ∷ b'a' ∷ b'b' ∷ []

noisy-validate : validate (some noisy) 9 ≡ some plain
unfolding validate check_utf8 check_from advance scan accept is_allowed close_segment put_slash
    ends_in put is_xdigit xdigit_value finish restore_root trim_slash
noisy-validate = refl

-- "/%2e."
dots-validate : validate (some (b'/' ∷ b'%' ∷ b'2' ∷ b'e' ∷ b'.' ∷ [])) 9 ≡ none
unfolding validate check_utf8 check_from advance scan accept is_allowed close_segment put_slash
    ends_in put is_xdigit xdigit_value finish restore_root trim_slash
dots-validate = refl

-- A lead byte F5, beyond the last code point of Unicode.
beyond-check_utf8 : check_utf8 (0xF5 ∷ 0x80 ∷ 0x80 ∷ 0x80 ∷ []) ≡ true
unfolding check_utf8 check_from advance
beyond-check_utf8 = refl

validate-IsCanonical_example :
    IsCanonical plain × IsUtf8 plain × (length plain < 9) × (length plain ≤ length noisy)
validate-IsCanonical_example = validate-IsCanonical noisy plain 9 noisy-validate

validate_idempotent_example : validate (some plain) 9 ≡ some plain
validate_idempotent_example = validate_idempotent noisy plain 9 noisy-validate

check_utf8_iff_example : (check_utf8 (0xC3 ∷ 0xA9 ∷ []) ≡ true) ↔ IsUtf8 (0xC3 ∷ 0xA9 ∷ [])
check_utf8_iff_example = check_utf8_iff (0xC3 ∷ 0xA9 ∷ [])
