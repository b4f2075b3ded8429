-- ===== src/PathValidator/Idempotent.antt =====
-- src/path_validator.c: the validation of a path that is canonical already.
use libcore.Base.{ℕ, suc, ◌<◌, ◌≤◌, true, false}
use libcore.Base.{some, List, [], ◌∷◌, ◌++◌, append-nil, ◌≡◌, refl, sym, ap, ◌∙◌, arith}
use libcore.Base.{length, length-append, get_or}
use libcore.PathValidator.{Scan, slash, max_segments, max_path_len}
use libcore.PathValidator.{ends_in, close_segment, accept, scan, trim_slash}
use libcore.PathValidator.{
  restore_root, text_of, finish, start, validate, check_utf8, check_from, advance, put_slash, put,
  is_allowed,
}
use libcore.PathValidator.Rounds.{continue, scan_plain}
use libcore.PathValidator.Rounds.{continue, scan_plain}
use libcore.PathValidator.Print.{
  joined, print_path, IsCanonical, reverse_onto_append, is_segment-text_of,
}
use libcore.PathValidator.Canonical.{
  Accepted, validate-Accepted, restore_root-id, validate_checked, length-shape,
}
use libcore.PathValidator.Shape.{is_segment, all_segments, shape}
use libcore.PathValidator.Replay.{
  state, Extends, behind, joined_run, segment_run, segment_facts, length-text_of, text_of-text_of,
  close_segment-state,
}

trim_slash-behind : (out : List ℕ) → ends_in slash out ≡ false → trim_slash out ≡ out
unfolding trim_slash
trim_slash-behind out h = ground arith

finish-state :
    (out_size : ℕ) (done : List (List ℕ)) (cur : List ℕ)
    → is_segment cur ≡ true
    → length done < max_segments
    → check_utf8 (text_of (shape done cur)) ≡ true
    → finish out_size (state done cur) ≡ some (text_of (shape done cur))
unfolding state finish shape
finish-state out_size done cur h l u =
    let e = close_segment-state done cur h l in
    let trim : trim_slash (shape done cur) ≡ shape done cur =
      trim_slash-behind (shape done cur) (behind done cur h) in
    let root = restore_root-id out_size (shape done cur) (omega (arith, length-shape done cur)) in
    rw (finish, e, trim, root, u)

start-state : (out_size : ℕ) → 1 < out_size → accept out_size false slash start ≡ some (state [] [])
unfolding accept is_allowed close_segment put_slash put ends_in state shape
start-state out_size h = ground arith

root_run :
    (out_size : ℕ)
    → 1 < out_size
    → (s : Scan) × (scan out_size (slash ∷ []) start ≡ some s)
      × (finish out_size s ≡ some (slash ∷ []))
unfolding continue scan finish state shape close_segment trim_slash ends_in restore_root check_utf8
    check_from advance
root_run out_size h = (
  state [] [],
  scan_plain out_size slash [] start refl ∙ ap (continue out_size []) (start-state out_size h),
  refl,
)

canonical_run :
    (out_size : ℕ) (segs : List (List ℕ))
    → all_segments segs ≡ true
    → length segs ≤ max_segments
    → length (print_path segs) < out_size
    → check_utf8 (print_path segs) ≡ true
    → (s : Scan) × (scan out_size (print_path segs) start ≡ some s)
      × (finish out_size s ≡ some (print_path segs))
unfolding print_path joined all_segments Extends continue shape
canonical_run out_size [] h l r u = root_run out_size r
canonical_run out_size (s ∷ ss) h l r u =
    let ok : is_segment s ≡ true = ground arith in
    let (plain, short) = segment_facts s ok in
    let k = length-append s (joined ss) in
    let n : length (shape [] (text_of s)) ≡ suc (length s) =
      omega (arith, length-append (text_of s) (slash ∷ []), length-text_of s) in
    let (done, cur, e, h', l', t) =
      joined_run out_size ss [] (text_of s) (is_segment-text_of s ok) (ground arith) (omega arith)
        (omega arith) in
    let first : text_of (shape [] (text_of s)) ≡ slash ∷ s =
      reverse_onto_append (text_of s) (slash ∷ []) []
      ∙ ap (λ x. slash ∷ x) (text_of-text_of s [] ∙ append-nil s) in
    let same : text_of (shape done cur) ≡ slash ∷ s ++ joined ss =
      t ∙ ap (λ x. x ++ joined ss) first in
    (
      state done cur,
      scan_plain out_size slash (s ++ joined ss) start refl
          ∙ ap (continue out_size (s ++ joined ss)) (start-state out_size (omega arith))
          ∙ segment_run out_size s (joined ss) [] [] plain (omega arith) (omega arith)
          ∙ e,
      simp same at (finish-state out_size done cur h' l' (simp same u)),
    )

accepted_run :
    (p : List ℕ) (s : Scan) (out_size : ℕ)
    → 0 < out_size
    → 0 < length p
    → length p ≤ max_path_len
    → get_or p 0 0 ≡ slash
    → scan out_size p start ≡ some s
    → finish out_size s ≡ some p
    → validate (some p) out_size ≡ some p
unfolding validate
accepted_run p s out_size size least most lead e f = ground arith

print_path-lead :
    (segs : List (List ℕ)) → (get_or (print_path segs) 0 0 ≡ slash) × (0 < length (print_path segs))
unfolding print_path joined
print_path-lead [] = (refl, omega arith)
print_path-lead (s ∷ ss) = (refl, omega arith)

accepted_again :
    (p : List ℕ) (out_size : ℕ)
    → IsCanonical p
    → check_utf8 p ≡ true
    → length p < out_size
    → length p ≤ max_path_len
    → validate (some p) out_size ≡ some p
unfolding IsCanonical
accepted_again p out_size (segs, e, ok, few) u r l =
    let (lead, some_bytes) = print_path-lead segs in
    let n : length p ≡ length (print_path segs) = simp e refl in
    let (s, run, f) = canonical_run out_size segs ok few (omega arith) (simp (sym e) u) in
    accepted_run p s out_size (omega arith) (omega arith) (omega arith) (simp e lead) (simp e run)
      (simp e f)

-- What the validation lets through, it leaves unchanged when it is validated again: the text is its own
-- canonical form.
pub validate_idempotent :
    (raw p : List ℕ) (out_size : ℕ)
    → validate (some raw) out_size ≡ some p
    → validate (some p) out_size ≡ some p
unfolding Accepted
validate_idempotent raw p out_size h =
    let (canon, u, fits, n) = validate_checked raw p out_size h in
    let (size, most, least, lead, run) = validate-Accepted raw p out_size h in
    accepted_again p out_size canon u fits (omega arith)
