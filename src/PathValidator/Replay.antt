-- ===== src/PathValidator/Replay.antt =====
-- src/path_validator.c: the loop over bytes that are segments already.
use libcore.Base.{ℕ, suc, ◌+◌, ◌<◌, ◌≤◌, true, false}
use libcore.Base.{
  none, some, List, [], ◌∷◌, ◌++◌, append-nil, append_assoc, ◌≡◌, refl, sym, ap, ◌∙◌, arith,
}
use libcore.Base.{◌==◌, length, length-append}
use libcore.PathValidator.{Scan, slash, dot, percent, max_segments, max_segment_len}
use libcore.PathValidator.{ends_in, close_segment, accept, scan, step_back}
use libcore.PathValidator.{reverse_onto, text_of, put_slash, put, is_allowed}
use libcore.PathValidator.Rounds.{continue, scan_plain}
use libcore.PathValidator.Rounds.{continue, scan_plain}
use libcore.PathValidator.Print.{
  joined, length-reverse_onto, reverse_onto_append, reverse_onto_text, is_segment-text_of,
}
use libcore.PathValidator.Shape.{is_plain, all_plain, all_dots, is_segment, all_segments, shape}
use libcore.PathValidator.Shape.{shape_cons}

-- The state that stands for segments.
unfoldable pub state : List (List ℕ) → List ℕ → Scan
state done cur = record { out = shape done cur; seg_count = length done; seg_len = length cur }

is_plain-percent :
    (c : ℕ)
    → is_plain c ≡ true
    → ((c == percent) ≡ false) × (is_allowed false c ≡ true) × ((c == slash) ≡ false)
unfolding is_plain is_allowed
is_plain-percent c h = (ground arith, ground arith, ground arith)

accept-state :
    (out_size c : ℕ) (done : List (List ℕ)) (cur : List ℕ)
    → is_plain c ≡ true
    → length cur < max_segment_len
    → suc (length (shape done cur)) < out_size
    → accept out_size false c (state done cur) ≡ some (state done (c ∷ cur))
unfolding accept state put
accept-state out_size c done cur h l r =
    let (n, ok, plain) = is_plain-percent c h in let e = shape_cons done c cur in ground arith

pub segment_run :
    (out_size : ℕ) (bs rest : List ℕ) (done : List (List ℕ)) (cur : List ℕ)
    → all_plain bs ≡ true
    → length cur + length bs ≤ max_segment_len
    → length (shape done cur) + length bs < out_size
    → scan out_size (bs ++ rest) (state done cur)
      ≡ scan out_size rest (state done (reverse_onto bs cur))
unfolding all_plain continue
segment_run out_size [] rest done cur h l r = refl
segment_run out_size (c ∷ bs) rest done cur h l r =
    let ok : is_plain c ≡ true = ground arith in
    let n : length (shape done (c ∷ cur)) ≡ suc (length (shape done cur)) =
      ap length (shape_cons done c cur) in
    scan_plain out_size c (bs ++ rest) (state done cur) (is_plain-percent c ok).0
    ∙ ap (continue out_size (bs ++ rest))
        (accept-state out_size c done cur ok (omega arith) (omega arith))
    ∙ segment_run out_size bs rest done (c ∷ cur) (ground arith) (omega arith) (omega arith)

pub close_segment-state :
    (done : List (List ℕ)) (cur : List ℕ)
    → is_segment cur ≡ true
    → length done < max_segments
    → close_segment (state done cur)
      ≡ some (record (state done cur) { seg_count = length done + 1 })
unfolding close_segment is_segment all_plain all_dots ends_in state
close_segment-state done [] h l = absurd (ground arith)
close_segment-state done (c ∷ []) h l =
    let e = shape_cons done c [] in
    let dots : (ends_in dot (shape done (c ∷ [])) ≡ (c == dot)) = simp e refl in ground arith
close_segment-state done (c ∷ d ∷ []) h l =
    let e = shape_cons done c (d ∷ []) ∙ ap (λ ds. c ∷ ds) (shape_cons done d []) in
    let dots : (ends_in dot (shape done (c ∷ d ∷ [])) ≡ (c == dot)) = simp e refl in
    let dots2 : (ends_in dot (step_back (shape done (c ∷ d ∷ []))) ≡ (d == dot)) = simp e refl in
    ground arith
close_segment-state done (c ∷ d ∷ e ∷ cs) h l = ground arith

pub behind :
    (done : List (List ℕ)) (cur : List ℕ)
    → is_segment cur ≡ true
    → ends_in slash (shape done cur) ≡ false
unfolding ends_in is_segment all_plain is_plain
behind done [] h = absurd (ground arith)
behind done (c ∷ cs) h = simp (shape_cons done c cs) (ground arith)

put_slash-state :
    (out_size : ℕ) (done : List (List ℕ)) (cur : List ℕ)
    → is_segment cur ≡ true
    → suc (length (shape done cur)) < out_size
    → put_slash out_size (record (state done cur) { seg_count = length done + 1 })
      ≡ some (state (cur ∷ done) [])
unfolding put_slash put shape state
put_slash-state out_size done cur h r = let b = behind done cur h in ground arith

accept-slash_state :
    (out_size : ℕ) (done : List (List ℕ)) (cur : List ℕ)
    → is_segment cur ≡ true
    → length done < max_segments
    → suc (length (shape done cur)) < out_size
    → accept out_size false slash (state done cur) ≡ some (state (cur ∷ done) [])
unfolding accept is_allowed
accept-slash_state out_size done cur h l r =
    ap (λ o. elim o [ none ↦ none | some t ↦ put_slash out_size t ])
      (close_segment-state done cur h l)
    ∙ put_slash-state out_size done cur h r

-- The bytes of more segments behind those of a state.
unfoldable pub Extends : ℕ → List (List ℕ) → List (List ℕ) → List ℕ → Type 0
Extends out_size ss done cur =
    (done' : List (List ℕ)) × (cur' : List ℕ) × (scan out_size (joined ss) (state done cur)
      ≡ some (state done' cur'))
    × (is_segment cur' ≡ true)
    × (length done' < max_segments)
    × (text_of (shape done' cur') ≡ text_of (shape done cur) ++ joined ss)

pub length-text_of : (s : List ℕ) → length (text_of s) ≡ length s
length-text_of s = omega (arith, length-reverse_onto s [])

pub text_of-text_of : (s zs : List ℕ) → reverse_onto (text_of s) zs ≡ s ++ zs
text_of-text_of [] zs = refl
text_of-text_of (x ∷ xs) zs =
    ap (λ ys. reverse_onto ys zs) (reverse_onto_text xs [] (x ∷ []))
    ∙ reverse_onto_append (text_of xs) (x ∷ []) zs
    ∙ ap (λ ys. x ∷ ys) (text_of-text_of xs zs)

-- A slash and a segment more.
text_of-shape :
    (done : List (List ℕ)) (cur s : List ℕ)
    → text_of (shape (cur ∷ done) (text_of s)) ≡ text_of (shape done cur) ++ (slash ∷ s)
unfolding shape
text_of-shape done cur s =
    reverse_onto_append (text_of s) (slash ∷ shape done cur) []
    ∙ ap (λ x. reverse_onto (shape done cur) (slash ∷ x)) (text_of-text_of s [] ∙ append-nil s)
    ∙ reverse_onto_text (shape done cur) [] (slash ∷ s)

length-shape_text :
    (done : List (List ℕ)) (cur s : List ℕ)
    → length (shape (cur ∷ done) (text_of s)) ≡ length (shape done cur) + suc (length s)
unfolding shape
length-shape_text done cur s =
    omega (arith, length-append (text_of s) (slash ∷ shape done cur), length-text_of s)

length-shape_nil :
    (done : List (List ℕ)) (cur : List ℕ)
    → length (shape (cur ∷ done) []) ≡ suc (length (shape done cur))
unfolding shape
length-shape_nil done cur = refl

pub segment_facts :
    (s : List ℕ) → is_segment s ≡ true → (all_plain s ≡ true) × (length s ≤ max_segment_len)
unfolding is_segment
segment_facts s h = (ground arith, ground arith)

pub joined_run :
    (out_size : ℕ) (ss done : List (List ℕ)) (cur : List ℕ)
    → is_segment cur ≡ true
    → all_segments ss ≡ true
    → length done + suc (length ss) ≤ max_segments
    → length (shape done cur) + length (joined ss) < out_size
    → Extends out_size ss done cur
unfolding Extends joined scan all_segments continue
joined_run out_size [] done cur h hs l r =
    (done, cur, refl, h, omega arith, sym (append-nil (text_of (shape done cur))))
joined_run out_size (s ∷ ss) done cur h hs l r =
    let ok : is_segment s ≡ true = ground arith in
    let (plain, short) = segment_facts s ok in
    let k = length-append s (joined ss) in
    let n = length-shape_text done cur s in
    let (done', cur', e, h', l', t) =
      joined_run out_size ss (cur ∷ done) (text_of s) (is_segment-text_of s ok) (ground arith)
        (omega arith) (omega arith) in
    (
      done',
      cur',
      scan_plain out_size slash (s ++ joined ss) (state done cur) refl
          ∙ ap (continue out_size (s ++ joined ss))
              (accept-slash_state out_size done cur h (omega arith) (omega arith))
          ∙ segment_run out_size s (joined ss) (cur ∷ done) [] plain (omega arith)
              (omega (arith, length-shape_nil done cur))
          ∙ e,
      h',
      l',
      t
          ∙ ap (λ x. x ++ joined ss) (text_of-shape done cur s)
          ∙ append_assoc (text_of (shape done cur)) (slash ∷ s) (joined ss),
    )
