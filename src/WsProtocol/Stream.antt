-- ===== src/WsProtocol/Stream.antt =====
-- Frames cut out of a stream: what has been decided does not change when more bytes arrive.
use libcore.Base.{ℕ, ◌+◌, ◌≤◌, ◌≡◌, ◌≢◌, refl, arith, inl, inr, ◌⊎◌, ap, ap₂, ◌∙◌, List, ◌++◌}
use libcore.Base.{length, take, drop, length-append, get_or-append, drop-append_le}
use libcore.Base.{take-append_le, length-drop}
use libcore.WsProtocol.{
  Header, header, short, need_more, read_header, big_endian_2, big_endian_8, unmasked, unmask_from,
  decode_frame3,
}

module _ (buf more : List ℕ) where
  big_endian_2-append : 4 ≤ length buf → big_endian_2 (buf ++ more) ≡ big_endian_2 buf
  unfolding big_endian_2
  big_endian_2-append h =
      rw (get_or-append buf more 2 0 (omega arith), get_or-append buf more 3 0 (omega arith))

  big_endian_8-append : 10 ≤ length buf → big_endian_8 (buf ++ more) ≡ big_endian_8 buf
  unfolding big_endian_8
  big_endian_8-append h = rw (
    get_or-append buf more 2 0 (omega arith),
    get_or-append buf more 3 0 (omega arith),
    get_or-append buf more 4 0 (omega arith),
    get_or-append buf more 5 0 (omega arith),
    get_or-append buf more 6 0 (omega arith),
    get_or-append buf more 7 0 (omega arith),
    get_or-append buf more 8 0 (omega arith),
    get_or-append buf more 9 0 (omega arith),
  )

  read_header-append :
      2 ≤ length buf → read_header 0 buf ≢ short → read_header 0 (buf ++ more) ≡ read_header 0 buf
  unfolding read_header
  read_header-append h known = ground (
    arith,
    get_or-append buf more 1 0,
    length-append buf more,
    big_endian_2-append,
    big_endian_8-append,
  )

  unmasked-append :
      (hl n : ℕ) → hl + 4 + n ≤ length buf → unmasked (buf ++ more) hl n ≡ unmasked buf hl n
  unfolding unmasked
  unmasked-append hl n h =
      ap₂ (λ mask payload. unmask_from mask 0 payload)
        (ap (take 4) (drop-append_le hl buf more (omega arith))
          ∙ take-append_le 4 (drop hl buf) more (omega (arith, length-drop hl buf)))
        (ap (take n) (drop-append_le (hl + 4) buf more (omega arith))
          ∙ take-append_le n (drop (hl + 4) buf) more (omega (arith, length-drop (hl + 4) buf)))

pub Header-cases : (h : Header) → (h ≡ short) ⊎ ((n : ℕ) × (hl : ℕ) × (h ≡ header n hl))
Header-cases short = inl refl
Header-cases (header n hl) = inr (n, hl, refl)

-- Once the decoder gives a frame or an error, it gives the same on every longer input: the same
-- payload, the same bytes consumed and the same opcode, or the error.
pub decode_frame3-append :
    (buf more : List ℕ)
    → decode_frame3 buf ≢ need_more
    → decode_frame3 (buf ++ more) ≡ decode_frame3 buf
unfolding decode_frame3
decode_frame3-append buf more known = elim (Header-cases (read_header 0 buf)) [
  | inl cut ↦
      ground (arith, length-append buf more, get_or-append buf more 0 0, get_or-append buf more 1 0)
  | inr (n, hl, e) ↦ ground (
    arith,
    length-append buf more,
    get_or-append buf more 0 0,
    get_or-append buf more 1 0,
    read_header-append buf more,
    unmasked-append buf more hl n,
  )
]
