-- ===== src/PathValidator.antt =====
-- src/path_validator.c: the validation of a path, which decodes, checks and normalises it in one loop.
-- `out_canonical` is not NULL; `raw_path` is the list of its bytes, none of which is 0; the failing
-- result, `false` with a reason, is `none`.
pub mod Utf8
pub mod Shape
pub mod Steps
pub mod Rounds
pub mod Print
pub mod Canonical
pub mod Replay
pub mod Idempotent
mod Tests
use libcore.Base.{ℕ, zero, suc, ◌+◌, ◌-◌, ◌*◌, ◌/◌, Bool, true, false, not, ◌&&◌, ◌||◌}
use libcore.Base.{Option, none, some, List, [], ◌∷◌, ◌++◌}
use libcore.Base.{ltb, leb, ◌==◌, if◌then◌else◌, length, get_or, drop}

abbrev pub max_path_len : ℕ
max_path_len = 2048

abbrev pub max_segment_len : ℕ
max_segment_len = 255

abbrev pub max_segments : ℕ
max_segments = 100

abbrev pub slash : ℕ
slash = b'/'

abbrev pub dot : ℕ
dot = b'.'

abbrev pub percent : ℕ
percent = b'%'

abbrev pub is_continuation : ℕ → Bool
is_continuation b = b / 64 == 2

-- One round of the loop of `rule_02_check_utf8` at a byte that is not NUL: by how much `s` moves, or
-- `none` where it returns false. What is read behind the text is its NUL.
pub advance : List ℕ → Option ℕ
advance s =
    let b = get_or s 0 0 in
    let c = get_or s 1 0 in
    let d = get_or s 2 0 in
    let e = get_or s 3 0 in
    if ltb b 0x80
    then some 1
    else if b / 32 == 6
    then (if ltb b 0xC2 || not (is_continuation c) then none else some 2)
    else if b / 16 == 14
    then (if not (is_continuation c) || not (is_continuation d)
        then none
        else if b == 0xE0 && ltb c 0xA0
        then none
        else if b == 0xED && leb 0xA0 c
        then none
        else some 3)
    else if b / 8 == 30
    then (if not (is_continuation c) || not (is_continuation d) || not (is_continuation e)
        then none
        else if b == 0xF0 && ltb c 0x90
        then none
        else if b == 0xF4 && leb 0x90 c
        then none
        else some 4)
    else none

-- The loop, on as many rounds as there are bytes at most.
pub check_from : ℕ → List ℕ → Bool
check_from fuel [] = true
check_from zero (b ∷ s) = false
check_from (suc fuel) (b ∷ s) = elim (advance (b ∷ s)) [
  | none ↦ false
  | some k ↦ check_from fuel (drop k (b ∷ s))
]

pub check_utf8 : List ℕ → Bool
check_utf8 s = check_from (length s) s

-- The state of the loop of `PathValidator_validate`: the `out_idx` bytes of `out_canonical`, the last
-- one first, and its two counters.
pub record Scan : Type 0 where
  pub out : List ℕ
  pub seg_count : ℕ
  pub seg_len : ℕ

pub is_xdigit : ℕ → Bool
is_xdigit c = (leb b'0' c && leb c b'9') || (leb b'A' c && leb c b'F') || (leb b'a' c && leb c b'f')

pub xdigit_value : ℕ → ℕ
xdigit_value c =
    if leb c b'9' then c - b'0' else if leb c b'F' then c - b'A' + 10 else c - b'a' + 10

-- The rules on a decoded byte alone: NUL, backslash and control bytes, reserved ones, an encoded slash,
-- and the list of those allowed.
pub is_allowed : Bool → ℕ → Bool
is_allowed was_encoded c =
    let is_alnum =
      (leb b'A' c && leb c b'Z') || (leb b'a' c && leb c b'z') || (leb b'0' c && leb c b'9') in
    let is_safe_punct = c == b'-' || c == b'_' || c == dot || c == b'~' || c == slash in
    if c == 0 || c == b'\\' || ltb c 32 || c == 127
    then false
    else if c == b'?' || c == b'#' || c == b'&' || c == b'='
    then false
    else if was_encoded && c == slash
    then false
    else if not is_alnum && not is_safe_punct && ltb c 0x80
    then false
    else true

pub ends_in : ℕ → List ℕ → Bool
ends_in c [] = false
ends_in c (d ∷ ds) = d == c

-- `out_idx--`
abbrev pub step_back : List ℕ → List ℕ
step_back ds = drop 1 ds

-- What the code does with the segment that ends: at a slash, and once more behind the loop.
pub close_segment : Scan → Option Scan
close_segment s =
    if s.seg_len == 1 && ends_in dot s.out
    then some (record s { out = step_back s.out })
    else if s.seg_len == 2 && ends_in dot s.out && ends_in dot (step_back s.out)
    then none
    else if ltb 0 s.seg_len
    then (if ltb max_segments (s.seg_count + 1)
        then none
        else some (record s { seg_count = s.seg_count + 1 }))
    else some s

-- A byte written, where there is room for it and a NUL.
pub put : ℕ → ℕ → Scan → Option Scan
put out_size c s =
    if leb (out_size - 1) (length s.out) then none else some (record s { out = c ∷ s.out })

pub put_slash : ℕ → Scan → Option Scan
put_slash out_size s =
    if ends_in slash s.out
    then some (record s { seg_len = 0 })
    else put out_size slash (record s { seg_len = 0 })

pub accept : ℕ → Bool → ℕ → Scan → Option Scan
accept out_size was_encoded c s =
    if not (is_allowed was_encoded c)
    then none
    else if c == slash
    then elim (close_segment s) [ none ↦ none | some t ↦ put_slash out_size t ]
    else if ltb max_segment_len (s.seg_len + 1)
    then none
    else put out_size c (record s { seg_len = s.seg_len + 1 })

-- The loop over `raw_path`.
pub scan : ℕ → List ℕ → Scan → Option Scan
scan out_size [] s = some s
scan out_size (c ∷ []) s = if c == percent then none else accept out_size false c s
scan out_size (c ∷ h ∷ []) s = elim (c == percent) [
  | true ↦ none
  | false ↦ elim (accept out_size false c s) [ none ↦ none | some t ↦ scan out_size (h ∷ []) t ]
]
scan out_size (c ∷ h ∷ l ∷ rest) s = elim (c == percent) [
  | true ↦ elim (is_xdigit h && is_xdigit l) [
    | false ↦ none
    | true ↦ elim (accept out_size true (xdigit_value h * 16 + xdigit_value l) s) [
      | none ↦ none
      | some t ↦ scan out_size rest t
    ]
  ]
  | false ↦ elim (accept out_size false c s) [
    | none ↦ none
    | some t ↦ scan out_size (h ∷ l ∷ rest) t
  ]
]

-- A slash at the end goes, but for the root's.
pub trim_slash : List ℕ → List ℕ
trim_slash out = if ltb 1 (length out) && ends_in slash out then step_back out else out

-- The empty path becomes the root.
pub restore_root : ℕ → List ℕ → Option (List ℕ)
restore_root out_size [] = if ltb out_size 2 then none else some (slash ∷ [])
restore_root out_size (c ∷ out) = some (c ∷ out)

abbrev pub reverse_onto : List ℕ → List ℕ → List ℕ
reverse_onto [] ys = ys
reverse_onto (x ∷ xs) ys = reverse_onto xs (x ∷ ys)

-- The text that `out_canonical` holds.
abbrev pub text_of : List ℕ → List ℕ
text_of out = reverse_onto out []

-- What comes behind the loop.
pub finish : ℕ → Scan → Option (List ℕ)
finish out_size s = elim (close_segment s) [
  | none ↦ none
  | some t ↦ elim (restore_root out_size (trim_slash t.out)) [
    | none ↦ none
    | some out ↦ if check_utf8 (text_of out) then some (text_of out) else none
  ]
]

abbrev pub start : Scan
start = record { out = []; seg_count = 0; seg_len = 0 }

-- The text that is written, or `none` where the path is rejected.
pub validate : Option (List ℕ) → ℕ → Option (List ℕ)
validate none out_size = none
validate (some raw) out_size =
    if out_size == 0
    then none
    else if length raw == 0 || ltb max_path_len (length raw)
    then none
    else if not (get_or raw 0 0 == slash)
    then none
    else elim (scan out_size raw start) [ none ↦ none | some s ↦ finish out_size s ]
