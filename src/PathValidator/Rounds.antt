-- ===== src/PathValidator/Rounds.antt =====
-- src/path_validator.c: the loop over the path, round by round.
use libcore.Base.{ℕ, zero, suc, ◌+◌, ◌*◌, ◌<◌, ◌≤◌, Bool, true, false, ◌&&◌}
use libcore.Base.{Option, none, some, List, [], ◌∷◌, ◌≡◌, refl, sym, ap, ◌∙◌, inl, inr, arith}
use libcore.Base.{◌==◌, if◌then◌else◌, length, Bool-cases, Option-cases}
use libcore.PathValidator.{Scan, percent, is_xdigit}
use libcore.PathValidator.{xdigit_value, accept, scan}
use libcore.PathValidator.Shape.{Represents}
use libcore.PathValidator.Steps.{Stepped}
use libcore.PathValidator.Steps.{accept-Stepped}

-- What a run of the loop over `n` bytes leaves.
unfoldable pub Ran : ℕ → Scan → ℕ → Scan → Type 0
Ran out_size s n t =
    (done : List (List ℕ)) × (cur : List ℕ) × Represents out_size t done cur
    × (length t.out ≤ length s.out + n)

-- What the loop does after a byte.
unfoldable pub continue : ℕ → List ℕ → Option Scan → Option Scan
continue out_size rest o = elim o [ none ↦ none | some t ↦ scan out_size rest t ]

-- What the loop does at `%` and two bytes behind it, and at another byte.
at_percent : Bool → ℕ → ℕ → ℕ → List ℕ → Scan → Option Scan
at_percent digits out_size h l rest s = elim digits [
  | false ↦ none
  | true ↦ continue out_size rest (accept out_size true (xdigit_value h * 16 + xdigit_value l) s)
]

round : Bool → Option Scan → Option Scan → Option Scan
round b x y = elim b [ true ↦ x | false ↦ y ]

continue_nil : (out_size : ℕ) (o : Option Scan) → o ≡ continue out_size [] o
unfolding continue scan
continue_nil out_size none = refl
continue_nil out_size (some t) = refl

pub scan_plain :
    (out_size c : ℕ) (rest : List ℕ) (s : Scan)
    → (c == percent) ≡ false
    → scan out_size (c ∷ rest) s ≡ continue out_size rest (accept out_size false c s)
unfolding scan round continue is_xdigit at_percent
scan_plain out_size c [] s h =
    ap (λ b. if b then none else accept out_size false c s) h
    ∙ continue_nil out_size (accept out_size false c s)
scan_plain out_size c (d ∷ []) s h =
    ap (λ b. round b none (continue out_size (d ∷ []) (accept out_size false c s))) h
scan_plain out_size c (d ∷ e ∷ rest) s h =
    ap
      (λ b.
        round b (at_percent (is_xdigit d && is_xdigit e) out_size d e rest s)
          (continue out_size (d ∷ e ∷ rest) (accept out_size false c s)))
      h

-- One round of the loop, at any byte.
pub Round : ℕ → List ℕ → Scan → Scan → Type 0
Round out_size raw s u =
    (enc : Bool) × (c : ℕ) × (rest : List ℕ) × (t : Scan) × (accept out_size enc c s ≡ some t)
    × (scan out_size rest t ≡ some u)
    × (length rest < length raw)

continue-Round :
    (out_size : ℕ) (raw rest : List ℕ) (enc : Bool) (c : ℕ) (s u : Scan)
    → continue out_size rest (accept out_size enc c s) ≡ some u
    → length rest < length raw
    → Round out_size raw s u
unfolding Round continue
continue-Round out_size raw rest enc c s u h l = elim (Option-cases (accept out_size enc c s)) [
  | inl e ↦ absurd (cc (simp e at h))
  | inr (t, e) ↦ (enc, c, rest, t, e, simp e at h, l)
]

scan-Round :
    (out_size c : ℕ) (rest : List ℕ) (s u : Scan)
    → scan out_size (c ∷ rest) s ≡ some u
    → Round out_size (c ∷ rest) s u
unfolding scan round continue at_percent
scan-Round out_size c rest s u h = elim (Bool-cases (c == percent)) [
  | inl e ↦ percent_Round rest h e
  | inr e ↦
      continue-Round out_size (c ∷ rest) rest false c s u (sym (scan_plain out_size c rest s e) ∙ h)
        (omega arith)
]
  where
    percent_Round :
        (r : List ℕ)
        → scan out_size (c ∷ r) s ≡ some u
        → (c == percent) ≡ true
        → Round out_size (c ∷ r) s u
    percent_Round [] h e = absurd (ground arith)
    percent_Round (d ∷ []) h e = absurd (
        cc (
          ap (λ b. round b none (continue out_size (d ∷ []) (accept out_size false c s))) (sym e)
          ∙ h))
    percent_Round (d ∷ f ∷ r) h e =
        let k =
          ap
            (λ b.
              round b (at_percent (is_xdigit d && is_xdigit f) out_size d f r s)
                (continue out_size (d ∷ f ∷ r) (accept out_size false c s)))
            (sym e)
          ∙ h in
        elim (Bool-cases (is_xdigit d && is_xdigit f)) [
          | inl x ↦
              continue-Round out_size (c ∷ d ∷ f ∷ r) r true (xdigit_value d * 16 + xdigit_value f)
                s u (ap (λ b. at_percent b out_size d f r s) (sym x) ∙ k) (omega arith)
          | inr x ↦ absurd (cc (ap (λ b. at_percent b out_size d f r s) (sym x) ∙ k))
        ]

pub scan-Ran :
    (fuel out_size : ℕ) (raw : List ℕ) (s u : Scan) (done : List (List ℕ)) (cur : List ℕ)
    → length raw ≤ fuel
    → Represents out_size s done cur
    → scan out_size raw s ≡ some u
    → Ran out_size s (length raw) u
unfolding Ran scan Round Stepped Represents
scan-Ran fuel out_size [] s u done cur l r h =
    let e : s ≡ u = cc in (done, cur, simp (sym e) r, simp (sym e) (omega arith))
scan-Ran zero out_size (c ∷ raw) s u done cur l r h = absurd (omega arith)
scan-Ran (suc fuel) out_size (c ∷ raw) s u done cur l r h =
    let (enc, b, rest, t, e, k, less) = scan-Round out_size c raw s u h in
    let (done', cur', r', n) = accept-Stepped out_size enc b s t done cur r e in
    let (done2, cur2, r2, n2) = scan-Ran fuel out_size rest t u done' cur' (omega arith) r' k in
    (done2, cur2, r2, omega arith)
