-- ===== src/PathValidator/Canonical.antt =====
-- src/path_validator.c: the texts that the validation lets through.
use libcore.Base.{ℕ, suc, ◌<◌, ◌≤◌, true, false}
use libcore.Base.{none, some, List, [], ◌∷◌, ◌≡◌, ◌≢◌, refl, sym, ap, ◌∙◌, ◌⊎◌, inl, inr, arith}
use libcore.Base.{if◌then◌else◌, length, length-append, get_or, Option-cases}
use libcore.PathValidator.{Scan, slash, dot, max_segments, max_path_len}
use libcore.PathValidator.{ends_in, close_segment, accept, scan, trim_slash}
use libcore.PathValidator.{
  restore_root, text_of, finish, start, validate, check_utf8, put_slash, put, is_allowed,
}
use libcore.PathValidator.Utf8.{IsUtf8, check_utf8_iff}
use libcore.PathValidator.Rounds.{Ran, scan-Ran, continue, scan_plain}
use libcore.PathValidator.Print.{
  joined, print_path, IsCanonical, length-reverse_onto, reverse_onto-shape, all_segments-turn,
  length-turn, turn,
}
use libcore.PathValidator.Shape.{is_plain, all_plain, is_segment, all_segments, shape, Represents}
use libcore.PathValidator.Shape.{shape_cons}
use libcore.PathValidator.Steps.{Closed, dropped, empty, kept}
use libcore.PathValidator.Steps.{close_segment-Closed}

-- The bytes of the root, or of at least one segment.
IsShape : List ℕ → Type 0
IsShape out =
    (out ≡ slash ∷ [])
    ⊎ ((ss : List (List ℕ)) × (s : List ℕ) × (out ≡ shape ss s)
        × (all_segments (s ∷ ss) ≡ true)
        × (length (s ∷ ss) ≤ max_segments))

print_path-joined : (segs : List (List ℕ)) → 0 < length segs → print_path segs ≡ joined segs
unfolding print_path
print_path-joined [] h = absurd (omega arith)
print_path-joined (s ∷ ss) h = refl

IsShape-text_of : (out : List ℕ) → IsShape out → IsCanonical (text_of out)
unfolding IsShape IsCanonical print_path all_segments joined
IsShape-text_of out (inl e) = ([], ap text_of e, refl, omega arith)
IsShape-text_of out (inr (ss, s, e, ok, few)) =
    let n = length-turn (s ∷ ss) [] in
    (
      turn (s ∷ ss) [],
      ap text_of e
          ∙ reverse_onto-shape ss s []
          ∙ sym (print_path-joined (turn (s ∷ ss) []) (omega arith)),
      all_segments-turn (s ∷ ss) [] ok refl,
      omega arith,
    )

pub length-shape : (ss : List (List ℕ)) (s : List ℕ) → length s < length (shape ss s)
unfolding shape
length-shape [] s = omega (arith, length-append s (slash ∷ []))
length-shape (r ∷ ss) s = omega (arith, length-append s (slash ∷ shape ss r))

-- The bytes that stay where the path ends in a slash, or in a dot that goes.
trim_slash-nil :
    (done : List (List ℕ))
    → all_segments done ≡ true
    → length done ≤ max_segments
    → IsShape (trim_slash (shape done []))
unfolding IsShape trim_slash shape ends_in
trim_slash-nil [] ok few = inl refl
trim_slash-nil (s ∷ ss) ok few = inr (ss, s, (let n = length-shape ss s in ground arith), ok, few)

trim_slash-cons :
    (done : List (List ℕ)) (cur : List ℕ)
    → all_segments done ≡ true
    → length done < max_segments
    → is_segment cur ≡ true
    → IsShape (trim_slash (shape done cur))
unfolding IsShape trim_slash ends_in is_segment all_plain is_plain all_segments
trim_slash-cons done [] ok few h = absurd (ground arith)
trim_slash-cons done (c ∷ cs) ok few h =
    let e = shape_cons done c cs in
    let stays : trim_slash (shape done (c ∷ cs)) ≡ shape done (c ∷ cs) = simp e (ground arith) in
    inr (done, c ∷ cs, stays, simp (h, ok) refl, omega arith)

Closed-IsShape :
    (out_size : ℕ) (s t : Scan) (done : List (List ℕ)) (cur : List ℕ)
    → Represents out_size s done cur
    → Closed done cur s t
    → IsShape (trim_slash t.out) × (length t.out ≤ length s.out)
unfolding Represents
Closed-IsShape out_size s t done cur (o, c, n, ds, m, p, l, b) (dropped e f) =
    let to : t.out ≡ shape done [] = simp f refl in
    let so : s.out ≡ dot ∷ shape done [] = o ∙ ap (shape done) e ∙ shape_cons done dot [] in
    let tn : length t.out ≡ length (shape done []) = simp to refl in
    let sn : length s.out ≡ suc (length (shape done [])) = simp so refl in
    (simp to (trim_slash-nil done ds m), omega arith)
Closed-IsShape out_size s t done cur (o, c, n, ds, m, p, l, b) (empty e f) =
    let to : t.out ≡ shape done [] = ap (λ s. s.out) f ∙ o ∙ ap (shape done) e in
    let tn : length t.out ≡ length s.out = simp f refl in
    (simp to (trim_slash-nil done ds m), omega arith)
Closed-IsShape out_size s t done cur (o, c, n, ds, m, p, l, b) (kept ok few f) =
    let to : t.out ≡ shape done cur = ap (λ s. s.out) f ∙ o in
    let tn : length t.out ≡ length s.out = simp f refl in
    (simp to (trim_slash-cons done cur ds (omega arith) ok), omega arith)

IsShape-length : (out : List ℕ) → IsShape out → 0 < length out
unfolding IsShape
IsShape-length out (inl e) = let n : length out ≡ 1 = simp e refl in omega arith
IsShape-length out (inr (ss, s, e, ok, few)) =
    let n : length out ≡ length (shape ss s) = simp e refl in omega (arith, length-shape ss s)

length-trim_slash : (out : List ℕ) → length (trim_slash out) ≤ length out
unfolding trim_slash
length-trim_slash [] = omega arith
length-trim_slash (c ∷ out) = ground arith

pub restore_root-id :
    (out_size : ℕ) (out : List ℕ) → 0 < length out → restore_root out_size out ≡ some out
unfolding restore_root
restore_root-id out_size [] h = absurd (omega arith)
restore_root-id out_size (c ∷ out) h = refl

-- What the code makes of a state that stands for segments.
finish-IsShape :
    (out_size : ℕ) (s : Scan) (done : List (List ℕ)) (cur p : List ℕ)
    → Represents out_size s done cur
    → finish out_size s ≡ some p
    → IsCanonical p × (length p ≤ length s.out) × (check_utf8 p ≡ true)
unfolding finish Represents
finish-IsShape out_size s done cur p r h = elim (Option-cases (close_segment s)) [
  | inl e ↦ absurd (cc (simp (finish, e) at h))
  | inr (t, e) ↦
      let c = close_segment-Closed s t done cur r.0 r.2 r.5 r.6 e in
      let (i, l) = Closed-IsShape out_size s t done cur r c in
      let root =
        restore_root-id out_size (trim_slash t.out) (IsShape-length (trim_slash t.out) i) in
      let out = text_of (trim_slash t.out) in
      let k : (if check_utf8 out then some out else none) ≡ some p = simp (finish, e, root) at h in
      let same : out ≡ p = ground arith in
      let n = length-reverse_onto (trim_slash t.out) [] in
      let n2 = length-trim_slash t.out in
      let n3 : length p ≡ length out = simp same refl in
      (simp (sym same) (IsShape-text_of (trim_slash t.out) i), omega arith, ground arith)
]

start_slash :
    (out_size : ℕ) (t : Scan)
    → out_size ≢ 0
    → accept out_size false slash start ≡ some t
    → Represents out_size t [] [] × (length t.out ≤ 1)
unfolding accept is_allowed close_segment put_slash put ends_in Represents shape all_segments
    all_plain
start_slash out_size t size h =
    let e : t ≡ record { out = slash ∷ []; seg_count = 0; seg_len = 0 } = ground arith in
    let r : 1 < out_size = ground arith in
    let n : length t.out ≡ 1 = simp e refl in
    (
      (simp e refl, simp e refl, simp e refl, refl, omega arith, refl, omega arith, omega arith),
      omega arith,
    )

-- What a path that is accepted went through.
unfoldable pub Accepted : List ℕ → List ℕ → ℕ → Type 0
Accepted raw p out_size =
    (out_size ≢ 0)
    × (length raw ≤ max_path_len)
    × (0 < length raw)
    × (get_or raw 0 0 ≡ slash)
    × ((s : Scan) × (scan out_size raw start ≡ some s) × (finish out_size s ≡ some p))

pub validate-Accepted :
    (raw p : List ℕ) (out_size : ℕ)
    → validate (some raw) out_size ≡ some p
    → Accepted raw p out_size
unfolding Accepted validate
validate-Accepted raw p out_size h = elim (Option-cases (scan out_size raw start)) [
  | inl e ↦ absurd (ground arith)
  | inr (s, e) ↦ (ground arith, ground arith, ground arith, ground arith, (s, e, ground arith))
]

-- The same with the test of the text itself.
pub validate_checked :
    (raw p : List ℕ) (out_size : ℕ)
    → validate (some raw) out_size ≡ some p
    → IsCanonical p × (check_utf8 p ≡ true) × (length p < out_size) × (length p ≤ length raw)
unfolding Accepted continue Ran Represents
validate_checked raw p out_size h = from raw (validate-Accepted raw p out_size h)
  where
    from :
        (raw : List ℕ)
        → Accepted raw p out_size
        → IsCanonical p × (check_utf8 p ≡ true) × (length p < out_size) × (length p ≤ length raw)
    from [] (size, most, least, lead, (s, e, f)) = absurd (omega arith)
    from (c ∷ rest) (size, most, least, lead, (s, e, f)) =
        let k = sym (scan_plain out_size c rest start (ground arith)) ∙ e in
        elim (Option-cases (accept out_size false c start)) [
          | inl d ↦ absurd (cc (simp d at k))
          | inr (t, d) ↦
              let (r, one) = start_slash out_size t size (simp lead at d) in
              let (done, cur, r2, n) =
                scan-Ran (length rest) out_size rest t s [] [] (omega arith) r (simp d at k) in
              let (canon, m, u) = finish-IsShape out_size s done cur p r2 f in
              let fits = r2.7 in (canon, u, omega arith, omega arith)
        ]

-- A path that is accepted ends as the root, or as 1 to 100 segments behind a slash each; every segment has 1
-- to 255 bytes, all of them allowed, and is neither "." nor ".."; the text encodes code points below 2^21 in
-- the manner of UTF-8, without surrogates and without those from 0x110000 to 0x13FFFF; it fits the buffer
-- with its NUL, and is not longer than the path given.
pub validate-IsCanonical :
    (raw p : List ℕ) (out_size : ℕ)
    → validate (some raw) out_size ≡ some p
    → IsCanonical p × IsUtf8 p × (length p < out_size) × (length p ≤ length raw)
validate-IsCanonical raw p out_size h =
    let (canon, u, fits, n) = validate_checked raw p out_size h in
    (canon, (check_utf8_iff p).0 u, fits, n)
