-- ===== src/ToosType/Spawn/Ensure.antt =====
-- src/toos_type_spawn.c: `ensure_cursor` appends enough epochs, and `sentence_at` then finds a sentence.
use libcore.Base.{
  ℕ, zero, suc, ◌+◌, ◌-◌, ◌*◌, ◌/◌, ◌^◌, ◌≤◌, ◌<◌, ◌≡◌, refl, sym, ap, ◌∙◌, arith, Bool, true,
  false, Option, some, none, ltb, leb, ◌==◌, Bool-cases, inl, inr, ◌⊎◌, ◌++◌,
}
use libcore.Base.{length, replicate, length-append, length-replicate, get_or-append}
use native.Mathlib.Nat.{mul-le-mul_right, lt_of_mul-lt-mul_right, div-add-mod', mod-lt}
use libcore.ToosType.Spawn.{Deck, append_until, ensure_capacity, ensure_deck, size_max}
use libcore.ToosType.Spawn.Cursor.{IsDeck, Appended, append_epoch_lem}

-- Between two multiples of a number there is room for it.
room_between : (e k c : ℕ) → e * c < k * c → e * c + c ≤ k * c
room_between e k c h =
    let less : e < k = lt_of_mul-lt-mul_right c h in
    let m = mul-le-mul_right {m = suc e} {n = k} c less in omega (arith, m)

-- What the loop gives: the count that is needed, in a deck of the same difficulty.
pub Extended : ℕ → ℕ → Deck → Bool × Deck → Type 0
Extended pool needed d result =
    IsDeck pool (result.1)
    × (result.1.count ≡ d.count)
    × (result.1.start ≡ d.start)
    × (result.0 ≡ true)
    × (needed ≤ result.1.sequence_count)

append_until_lem :
    (n k pool : ℕ) (d : Deck) (v : IsDeck pool d)
    → k ≤ v.epochs + n
    → k * d.count ≤ d.sequence_capacity
    → Extended pool (k * d.count) d (append_until n d (k * d.count))
unfolding append_until Extended Appended
append_until_lem zero k pool d v h l =
    let m = mul-le-mul_right {m = k} {n = v.epochs} d.count (omega arith) in
    let enough : k * d.count ≤ d.sequence_count = omega (arith, m, v.whole) in
    (v, refl, refl, ground arith, enough)
append_until_lem (suc n) k pool d v h l = elim (Bool-cases (leb (k * d.count) d.sequence_count)) [
  | inl e ↦ rw (append_until, e) (v, refl, refl, refl, ground arith)
  | inr e ↦
      let gap : v.epochs * d.count < k * d.count = ground (arith, v.whole) in
      let room = room_between v.epochs k d.count gap in
      let (d', done, v', next, count, same, cap, start) =
        append_epoch_lem pool d v (omega (arith, room, v.whole)) in
      let product : k * d'.count ≡ k * d.count = ap (λ c. k * c) same in
      let less : k ≤ v'.epochs + n = omega (arith, h, next) in
      let more = append_until_lem n k pool d' v' less (omega (arith, product, l, cap)) in
      rw (append_until, e, done)
        (rw (sym product) (more.0, more.1 ∙ same, more.2 ∙ start, more.3, more.4))
]

-- The deck on a larger array.
pub Larger : ℕ → ℕ → (epochs : ℕ) → Deck → Option Deck → Type 0
Larger pool needed epochs d result =
    (d' : Deck) × (result ≡ some d')
    × (v' : IsDeck pool d') × (v'.epochs ≡ epochs)
    × (needed ≤ d'.sequence_capacity)
    × (d'.count ≡ d.count)
    × (d'.start ≡ d.start)

ensure_capacity_lem :
    (allocated : Bool) (fresh pool : ℕ) (d : Deck) (v : IsDeck pool d) (needed : ℕ)
    → needed ≤ size_max / 4
    → ((ensure_capacity allocated fresh d v.seq needed ≡ none) × (allocated ≡ false))
      ⊎ Larger pool needed v.epochs d (ensure_capacity allocated fresh d v.seq needed)
unfolding ensure_capacity Larger
ensure_capacity_lem allocated fresh pool d v needed small =
    elim (Bool-cases (leb needed d.sequence_capacity)) [
      | inl e ↦ inr (d, rw (e) refl, v, refl, ground arith, refl, refl)
      | inr e ↦ elim (Bool-cases allocated) [
        | inr a ↦ inl (rw (e, a) refl, a)
        | inl a ↦
            let more = replicate (needed - d.sequence_capacity) fresh in
            let size : length (v.seq ++ more) ≡ needed =
              length-append v.seq more
              ∙ ground (arith, v.full, length-replicate (needed - d.sequence_capacity) fresh) in
            inr (
              record d { sequence = some (v.seq ++ more); sequence_capacity = needed },
              rw (e, a) refl,
              record {
                seq = v.seq ++ more;
                epochs = v.epochs;
                held = refl;
                full = size;
                whole = v.whole;
                fits = ground (arith, v.fits);
                some_sentence = v.some_sentence;
                few = v.few;
                range = v.range;
                bounded = small;
                entries = λ i h.
                    rw (get_or-append v.seq more i 0 (omega (arith, v.full, v.fits)))
                      (v.entries i h);
              },
              refl,
              omega arith,
              refl,
              refl,
            )
      ]
    ]

-- What `ensure_deck` promises on every branch: the deck stays one of its difficulty; it succeeds with
-- the cursor covered, or it fails, which it does only without memory or for a cursor from 2^60 on.
unfoldable pub Ensured : Bool → ℕ → ℕ → Deck → Bool × Deck → Type 0
Ensured allocated pool cursor d result =
    IsDeck pool (result.1)
    × (result.1.count ≡ d.count)
    × (result.1.start ≡ d.start)
    × (((result.0 ≡ false) × ((allocated ≡ false) ⊎ (2 ^ 60 ≤ cursor)))
        ⊎ ((result.0 ≡ true) × (cursor < result.1.sequence_count)))

covered : (cursor c : ℕ) → 0 < c → cursor < (cursor / c + 1) * c
covered cursor c l = let q = div-add-mod' cursor c in let m = mod-lt cursor l in omega (arith, q, m)

-- The epochs that a cursor asks for are no more than it takes.
not_wasteful : (cursor c : ℕ) → (cursor / c + 1) * c ≤ cursor + c
not_wasteful cursor c = let q = div-add-mod' cursor c in omega (arith, q)

quotient_small : (cursor c : ℕ) → 0 < c → cursor / c ≤ cursor
quotient_small cursor c l =
    let q = div-add-mod' cursor c in
    let m = mul-le-mul_right {m = 1} {n = c} (cursor / c) l in omega (arith, q, m)

-- The test for an overflow of the product fails only for large cursors.
overflow_large : (cursor c : ℕ) → 0 < c → c ≤ 1000 → size_max / c < cursor / c + 1 → 2 ^ 60 ≤ cursor
overflow_large cursor c l m h =
    let top = covered size_max c l in
    let more = mul-le-mul_right {m = size_max / c + 1} {n = cursor / c + 1} c (omega arith) in
    let need = not_wasteful cursor c in omega (arith, top, more, need)

-- From a deck with room for the epochs, the loop covers the cursor.
extend_lem :
    (allocated : Bool) (pool : ℕ) (d d' : Deck) (v' : IsDeck pool d') (cursor : ℕ)
    → (cursor / d.count + 1) * d.count ≤ d'.sequence_capacity
    → d'.count ≡ d.count
    → d'.start ≡ d.start
    → Ensured allocated pool cursor d
        (append_until (cursor / d.count + 1) d' ((cursor / d.count + 1) * d.count))
unfolding Ensured Extended
extend_lem allocated pool d d' v' cursor room same start =
    let q = cursor / d.count in
    let product : (q + 1) * d'.count ≡ (q + 1) * d.count = ap (λ c. (q + 1) * c) same in
    let far : cursor < (q + 1) * d.count =
      covered cursor d.count (omega (arith, v'.some_sentence, same)) in
    let done =
      append_until_lem (q + 1) (q + 1) pool d' v' (omega arith) (omega (arith, product, room)) in
    rw (sym product)
      (done.0, done.1 ∙ same, done.2 ∙ start, inr (done.3, omega (arith, far, product, done.4)))

pub ensure_deck_lem :
    (allocated : Bool) (fresh pool : ℕ) (d : Deck) (v : IsDeck pool d) (cursor : ℕ)
    → Ensured allocated pool cursor d (ensure_deck allocated fresh d cursor)
unfolding ensure_deck Larger Ensured
ensure_deck_lem allocated fresh pool d v cursor =
    let q = cursor / d.count in
    let needed = (q + 1) * d.count in
    let need = not_wasteful cursor d.count in
    let some_count : (d.count == 0) ≡ false = ground (arith, v.some_sentence) in
    elim (Bool-cases (ltb cursor d.sequence_count)) [
      | inl e ↦ rw (some_count, v.held, e) (v, refl, refl, inr (refl, ground arith))
      | inr e ↦ elim (Bool-cases (q == size_max)) [
        | inl f ↦
            let large = quotient_small cursor d.count v.some_sentence in
            rw (some_count, v.held, e, f) (v, refl, refl, inl (refl, inr (ground (arith, large))))
        | inr f ↦ elim (Bool-cases (ltb (size_max / d.count) (q + 1))) [
          | inl g ↦
              let large = overflow_large cursor d.count v.some_sentence v.few (ground arith) in
              rw (some_count, v.held, e, f, g) (v, refl, refl, inl (refl, inr large))
          | inr g ↦ elim (Bool-cases (ltb (size_max / 4) needed)) [
            | inl h ↦
                let large : 2 ^ 60 ≤ cursor = ground (arith, v.few, need) in
                rw (some_count, v.held, e, f, g, h) (v, refl, refl, inl (refl, inr large))
            | inr h ↦ elim (ensure_capacity_lem allocated fresh pool d v needed (ground arith)) [
              | inl (none_left, a) ↦
                  rw (some_count, v.held, e, f, g, h, none_left) (v, refl, refl, inl (refl, inl a))
              | inr (d', given, v', same_epochs, room, same, start) ↦
                  rw (some_count, v.held, e, f, g, h, given)
                    (extend_lem allocated pool d d' v' cursor room same start)
            ]
          ]
        ]
      ]
    ]
