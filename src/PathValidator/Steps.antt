-- ===== src/PathValidator/Steps.antt =====
-- src/path_validator.c: what an accepted byte does to the segments.
use libcore.Base.{ℕ, suc, ◌+◌, ◌<◌, ◌≤◌, Bool, true, false}
use libcore.Base.{some, List, [], ◌∷◌, ◌≡◌, refl, sym, ap, ◌∙◌, ◌⊎◌, inl, inr, arith}
use libcore.Base.{ltb, ◌==◌, length, Bool-cases, Option-cases}
use libcore.PathValidator.{Scan, slash, dot, max_segments, max_segment_len, is_allowed, ends_in}
use libcore.PathValidator.{close_segment, put, put_slash, accept, step_back}
use libcore.PathValidator.Shape.{
  is_plain, all_plain, all_dots, is_segment, all_segments, shape, Represents, shape_nil, shape_cons,
}

-- The three outcomes of closing a segment that is not refused.
pub data Closed (done : List (List ℕ)) (cur : List ℕ) (s t : Scan) : Type 0 where
  dropped : cur ≡ dot ∷ [] → t ≡ record s { out = shape done [] } → Closed done cur s t
  empty : cur ≡ [] → t ≡ s → Closed done cur s t
  kept :
      is_segment cur ≡ true
      → s.seg_count < max_segments
      → t ≡ record s { seg_count = s.seg_count + 1 }
      → Closed done cur s t

pub close_segment-Closed :
    (s t : Scan) (done : List (List ℕ)) (cur : List ℕ)
    → s.out ≡ shape done cur
    → s.seg_len ≡ length cur
    → all_plain cur ≡ true
    → length cur ≤ max_segment_len
    → close_segment s ≡ some t
    → Closed done cur s t
unfolding close_segment is_segment all_plain all_dots ends_in
close_segment-Closed s t done [] o n p l h = empty refl (ground arith)
close_segment-Closed s t done (c ∷ []) o n p l h =
    let out = o ∙ shape_cons done c [] in
    let dots : (ends_in dot s.out ≡ (c == dot)) = simp out refl in
    let back : (step_back s.out ≡ shape done []) = simp out refl in
    elim (Bool-cases (c == dot)) [
      | inl e ↦ dropped (ground arith) (ground arith)
      | inr e ↦ kept (ground arith) (ground arith) (ground arith)
    ]
close_segment-Closed s t done (c ∷ d ∷ []) o n p l h =
    let out = o ∙ shape_cons done c (d ∷ []) ∙ ap (λ ds. c ∷ ds) (shape_cons done d []) in
    let dots : (ends_in dot s.out ≡ (c == dot)) = simp out refl in
    let dots2 : (ends_in dot (step_back s.out) ≡ (d == dot)) = simp out refl in
    kept (ground arith) (ground arith) (ground arith)
close_segment-Closed s t done (c ∷ d ∷ e ∷ cs) o n p l h =
    kept (ground arith) (ground arith) (ground arith)

put_slash-at_slash :
    (out_size : ℕ) (s t : Scan) (done : List (List ℕ))
    → s.out ≡ shape done []
    → put_slash out_size s ≡ some t
    → t ≡ record s { seg_len = 0 }
unfolding put_slash ends_in
put_slash-at_slash out_size s t done o h =
    let (rest, e) = shape_nil done in
    let at : (ends_in slash s.out ≡ true) = simp (o, e) refl in ground arith

put_slash-behind :
    (out_size : ℕ) (s t : Scan) (done : List (List ℕ)) (cur : List ℕ)
    → s.out ≡ shape done cur
    → is_segment cur ≡ true
    → put_slash out_size s ≡ some t
    → (t ≡ record s { out = slash ∷ s.out; seg_len = 0 }) × (suc (length s.out) < out_size)
unfolding put_slash put ends_in is_segment all_plain is_plain
put_slash-behind out_size s t done [] o ok h = absurd (ground arith)
put_slash-behind out_size s t done (c ∷ cs) o ok h =
    let out = o ∙ shape_cons done c cs in
    let at : (ends_in slash s.out ≡ (c == slash)) = simp out refl in (ground arith, ground arith)

-- What an accepted byte does to the segments.
unfoldable pub Stepped : ℕ → Scan → Scan → Type 0
Stepped out_size s t =
    (done : List (List ℕ)) × (cur : List ℕ) × Represents out_size t done cur
    × (length t.out ≤ suc (length s.out))

accept-slash :
    (out_size : ℕ) (s t u : Scan) (done : List (List ℕ)) (cur : List ℕ)
    → Represents out_size s done cur
    → Closed done cur s t
    → put_slash out_size t ≡ some u
    → Stepped out_size s u
unfolding Represents Stepped all_plain shape all_segments
accept-slash out_size s t u done cur (o, c, n, ds, m, p, l, b) (dropped e f) h =
    let g = put_slash-at_slash out_size t u done (simp f refl) h in
    let o' : s.out ≡ dot ∷ shape done [] = o ∙ ap (shape done) e ∙ shape_cons done dot [] in
    let k : length s.out ≡ suc (length (shape done [])) = simp o' refl in
    let uo : u.out ≡ shape done [] = simp (g, f) refl in
    let uk : length u.out ≡ length (shape done []) = simp uo refl in
    let uc : u.seg_count ≡ s.seg_count = simp (g, f) refl in
    let un : u.seg_len ≡ 0 = simp g refl in
    (done, [], (uo, uc ∙ c, un, ds, m, refl, omega arith, omega arith), omega arith)
accept-slash out_size s t u done cur (o, c, n, ds, m, p, l, b) (empty e f) h =
    let o' : s.out ≡ shape done [] = o ∙ ap (shape done) e in
    let g = put_slash-at_slash out_size t u done (simp (f, o') refl) h in
    let uo : u.out ≡ s.out = simp (g, f) refl in
    let uk : length u.out ≡ length s.out = simp uo refl in
    let uc : u.seg_count ≡ s.seg_count = simp (g, f) refl in
    let un : u.seg_len ≡ 0 = simp g refl in
    (done, [], (uo ∙ o', uc ∙ c, un, ds, m, refl, omega arith, omega arith), omega arith)
accept-slash out_size s t u done cur (o, c, n, ds, m, p, l, b) (kept ok few f) h =
    let (g, r) = put_slash-behind out_size t u done cur (simp (f, o) refl) ok h in
    let to : t.out ≡ s.out = simp f refl in
    let uo : u.out ≡ slash ∷ shape done cur = simp (g, to, o) refl in
    let uk : length u.out ≡ suc (length t.out) = simp g refl in
    let tk : length t.out ≡ length s.out = simp to refl in
    let uc : u.seg_count ≡ s.seg_count + 1 = simp (g, f) refl in
    let un : u.seg_len ≡ 0 = simp g refl in
    (
      cur ∷ done,
      [],
      (uo, omega arith, un, simp (ok, ds) refl, omega arith, refl, omega arith, omega arith),
      omega arith,
    )

accept-plain :
    (out_size c : ℕ) (s t : Scan) (done : List (List ℕ)) (cur : List ℕ)
    → Represents out_size s done cur
    → is_plain c ≡ true
    → ltb max_segment_len (s.seg_len + 1) ≡ false
    → put out_size c (record s { seg_len = s.seg_len + 1 }) ≡ some t
    → Stepped out_size s t
unfolding Represents Stepped put all_plain
accept-plain out_size c s t done cur (o, k, n, ds, m, p, l, b) ok few h =
    let g : t ≡ record s { out = c ∷ s.out; seg_len = s.seg_len + 1 } = ground arith in
    let r : suc (length s.out) < out_size = ground arith in
    let to : t.out ≡ c ∷ s.out = simp g refl in
    let tk : length t.out ≡ suc (length s.out) = simp g refl in
    let tc : t.seg_count ≡ s.seg_count = simp g refl in
    let tn : t.seg_len ≡ s.seg_len + 1 = simp g refl in
    (
      done,
      c ∷ cur,
      (
        to ∙ ap (λ ds. c ∷ ds) o ∙ sym (shape_cons done c cur),
        tc ∙ k,
        omega arith,
        ds,
        m,
        simp (ok, p) refl,
        ground arith,
        omega arith,
      ),
      omega arith,
    )

is_allowed-plain : (enc : Bool) (c : ℕ) → is_allowed enc c ≡ true → is_allowed false c ≡ true
unfolding is_allowed
is_allowed-plain enc c h = ground arith

-- The two ways to accept a byte.
accepted :
    (out_size : ℕ) (enc : Bool) (c : ℕ) (s u : Scan)
    → accept out_size enc c s ≡ some u
    → (is_allowed enc c ≡ true)
      × ((((c == slash) ≡ true)
            × ((t : Scan) × (close_segment s ≡ some t) × (put_slash out_size t ≡ some u)))
          ⊎ (((c == slash) ≡ false)
              × (ltb max_segment_len (s.seg_len + 1) ≡ false)
              × (put out_size c (record s { seg_len = s.seg_len + 1 }) ≡ some u)))
unfolding accept
accepted out_size enc c s u h =
    let ok : is_allowed enc c ≡ true = ground arith in
    elim (Bool-cases (c == slash)) [
      | inl at ↦ elim (Option-cases (close_segment s)) [
        | inl e ↦ absurd (ground arith)
        | inr (t, e) ↦ (ok, inl (at, (t, e, ground arith)))
      ]
      | inr at ↦ (ok, inr (at, ground arith, ground arith))
    ]

-- Any accepted byte.
pub accept-Stepped :
    (out_size : ℕ) (enc : Bool) (c : ℕ) (s t : Scan) (done : List (List ℕ)) (cur : List ℕ)
    → Represents out_size s done cur
    → accept out_size enc c s ≡ some t
    → Stepped out_size s t
unfolding is_plain Represents
accept-Stepped out_size enc c s t done cur r h =
    let (ok, more) = accepted out_size enc c s t h in
    elim more [
      | inl (at, there) ↦
          accept-slash out_size s there.0 t done cur r
            (close_segment-Closed s there.0 done cur r.0 r.2 r.5 r.6 there.1) there.2
      | inr (at, few, placed) ↦
          accept-plain out_size c s t done cur r (simp (is_allowed-plain enc c ok, at) refl) few
            placed
    ]
