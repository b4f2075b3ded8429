-- ===== src/WsProtocol/RoundTrip.antt =====
-- A frame that the encoder builds, masked as a client masks it, is decoded to the message.
use libcore.Base.{ℕ, suc, ◌+◌, ◌-◌, ◌/◌, ◌%◌, ◌≤◌, ◌<◌, ◌≡◌, ◌≢◌, refl, sym, arith, ap, ap₂, ◌∙◌}
use libcore.Base.{List, [], ◌∷◌, ◌++◌, some, ◌⊎◌, length, take, drop, length-append, append_assoc}
use libcore.Base.{take-append_exact, drop-append_exact, take_all, true, ◌==◌}
use libcore.Base.Bits.{bit_xor_twice}
use libcore.WsProtocol.{
  build_frame, length_bytes, header_len, is_known_opcode, unmask_from, unmasked, read_header,
  header, decode_frame3, frame, is_allowed, need_more, op_close, max_ws_payload_size, byte_at,
}
use libcore.WsProtocol.Length.{
  mask_first, seven_bits, second_byte, read_header-length_bytes, length-length_bytes,
  length-mask_first,
}
use libcore.WsProtocol.Stream.{decode_frame3-append}

-- Masking twice with one key gives the bytes back.
unmask_twice : (key : List ℕ) (i : ℕ) (bs : List ℕ) → unmask_from key i (unmask_from key i bs) ≡ bs
unfolding unmask_from
unmask_twice key i [] = refl
unmask_twice key i (b ∷ bs) =
    ap₂ ◌∷◌ (bit_xor_twice b (byte_at key (i % 4))) (unmask_twice key (i + 1) bs)

pub length-unmask_from :
    (key : List ℕ) (i : ℕ) (bs : List ℕ) → length (unmask_from key i bs) ≡ length bs
unfolding unmask_from
length-unmask_from key i [] = refl
length-unmask_from key i (b ∷ bs) = ap suc (length-unmask_from key (i + 1) bs)

-- The bytes of a frame that carries `msg` in front of it, with the mask bit set.
unfoldable pub masked_header : List ℕ → List ℕ
unfolding mask_first
masked_header [] = []
masked_header (b ∷ bs) = b ∷ mask_first bs

-- What a client sends where a server would send the frame `f` for `msg`: the mask bit, the key, and
-- the payload masked with the key.
unfoldable pub as_client : List ℕ → List ℕ → List ℕ → List ℕ
as_client key msg f =
    masked_header (take (length f - length msg) f) ++ (key ++ unmask_from key 0 msg)

unmasked-append :
    (head key masked : List ℕ) (hl n : ℕ)
    → hl ≡ length head
    → length key ≡ 4
    → n ≡ length masked
    → unmasked (head ++ (key ++ masked)) hl n ≡ unmask_from key 0 masked
unfolding unmasked
unmasked-append head key masked hl n eh ek en =
    ap₂ (λ mask payload. unmask_from mask 0 payload)
      (ap (take 4) (drop-append_exact hl head (key ++ masked) eh)
        ∙ take-append_exact 4 key masked (sym ek))
      (ap (λ bs. take n (drop (hl + 4) bs)) (sym (append_assoc head key masked))
        ∙ ap (take n) (
            drop-append_exact (hl + 4) (head ++ key) masked (omega (arith, length-append head key)))
        ∙ take_all n masked (omega arith))

-- The frame on the wire, written out.
abbrev wire : ℕ → List ℕ → List ℕ → List ℕ
wire op key msg =
    (128 + op) ∷ (mask_first (length_bytes (length msg)) ++ (key ++ unmask_from key 0 msg))

-- What a built frame is, and what it takes to build one.
pub record Built (op max_len : ℕ) (msg f : List ℕ) : Type 0 where
  pub bytes : f ≡ (128 + op) ∷ (length_bytes (length msg) ++ msg)
  pub known : is_known_opcode op ≡ true
  pub small : length msg ≤ max_ws_payload_size
  pub control : (op < 8) ⊎ (length msg ≤ 125)
  pub fits : header_len (length msg) + length msg ≤ max_len

known-lt : (op : ℕ) → is_known_opcode op ≡ true → op < 16
unfolding is_known_opcode
known-lt op known = ground arith

pub build_frame-Built :
    (op max_len : ℕ) (msg f : List ℕ) → build_frame op msg max_len ≡ some f → Built op max_len msg f
unfolding build_frame
build_frame-Built op max_len msg f built = ground (arith, known-lt op)

as_client-wire :
    (op max_len : ℕ) (key msg f : List ℕ)
    → Built op max_len msg f
    → as_client key msg f ≡ wire op key msg
unfolding as_client masked_header
as_client-wire op max_len key msg f b =
    let n = length msg in
    let head : List ℕ = (128 + op) ∷ length_bytes n in
    let size : length f - n ≡ length head =
      ap (λ g. length g - n) b.bytes ∙ omega (arith, length-append (length_bytes n) msg) in
    let cut : take (length f - n) f ≡ head =
      ap₂ take size b.bytes ∙ take-append_exact (length head) head msg refl in
    rw cut

frame-ne-need_more : {p : List ℕ} {c o : ℕ} → frame p c o ≢ need_more
frame-ne-need_more e = cc

allowed_of_known :
    (op n : ℕ)
    → is_known_opcode op ≡ true
    → (op < 8) ⊎ (n ≤ 125)
    → (op ≢ op_close) ⊎ (n ≢ 1)
    → is_allowed op true (seven_bits n) ≡ true
unfolding is_known_opcode is_allowed
allowed_of_known op n known control close = ground arith

-- The decoder step by step, over what it reads from the buffer.
decode_frame3_steps :
    (buf payload : List ℕ) (op s n hl : ℕ)
    → op < 16
    → s < 128
    → byte_at buf 0 ≡ 128 + op
    → byte_at buf 1 ≡ s + 128
    → is_allowed op true s ≡ true
    → read_header 0 buf ≡ header n hl
    → n ≤ max_ws_payload_size
    → hl + 4 + n ≤ length buf
    → unmasked buf hl n ≡ payload
    → decode_frame3 buf ≡ frame payload (hl + 4 + n) op
unfolding decode_frame3
decode_frame3_steps buf payload op s n hl ho hs e0 e1 allowed read small room content =
    let fin : (byte_at buf 0 / 128 % 2 == 1) ≡ true = ground arith in
    let opcode : byte_at buf 0 % 16 ≡ op = omega arith in
    let seven : byte_at buf 1 % 128 ≡ s = omega arith in
    rw (fin, opcode, seven, allowed, read, content) (ground arith)

wire-decoded :
    (op : ℕ) (key msg : List ℕ)
    → is_known_opcode op ≡ true
    → length msg ≤ max_ws_payload_size
    → (op < 8) ⊎ (length msg ≤ 125)
    → (op ≢ op_close) ⊎ (length msg ≢ 1)
    → length key ≡ 4
    → decode_frame3 (wire op key msg) ≡ frame msg (header_len (length msg) + 4 + length msg) op
wire-decoded op key msg known small control close key4 =
    let n = length msg in
    let lengths = mask_first (length_bytes n) in
    let masked = unmask_from key 0 msg in
    let head : List ℕ = (128 + op) ∷ lengths in
    let size : length head ≡ header_len n =
      omega (arith, length-mask_first (length_bytes n), length-length_bytes n) in
    let total : length (wire op key msg) ≡ header_len n + 4 + n = omega (
      arith,
      length-append lengths (key ++ masked),
      length-append key masked,
      length-unmask_from key 0 msg,
    ) in
    let payload : unmasked (wire op key msg) (header_len n) n ≡ msg =
      unmasked-append head key masked (header_len n) n (sym size) key4
        (sym (length-unmask_from key 0 msg))
      ∙ unmask_twice key 0 msg in
    decode_frame3_steps (wire op key msg) msg op (seven_bits n) n (header_len n) (known-lt op known)
      (ground arith) refl (second_byte (128 + op) n (key ++ masked))
      (allowed_of_known op n known control close)
      (read_header-length_bytes (128 + op) n (key ++ masked) (omega arith)) small (omega arith)
      payload

-- A frame that `ws_build_frame` builds, masked by a client with any key of four bytes, is decoded to
-- the message and the opcode, and exactly the frame and the key are consumed, whatever follows in
-- the buffer; but not the close frame with a body of one byte, which the decoder refuses.
pub decode_frame3-build_frame :
    (op max_len : ℕ) (key msg f rest : List ℕ)
    → build_frame op msg max_len ≡ some f
    → length key ≡ 4
    → (op ≢ op_close) ⊎ (length msg ≢ 1)
    → decode_frame3 (as_client key msg f ++ rest) ≡ frame msg (length f + 4) op
decode_frame3-build_frame op max_len key msg f rest built key4 close =
    let b = build_frame-Built op max_len msg f built in
    let n = length msg in
    let total : header_len n + 4 + n ≡ length f + 4 =
      omega (arith, ap length b.bytes, length-append (length_bytes n) msg, length-length_bytes n) in
    let whole : decode_frame3 (as_client key msg f) ≡ frame msg (length f + 4) op =
      ap decode_frame3 (as_client-wire op max_len key msg f b)
      ∙ wire-decoded op key msg b.known b.small b.control close key4
      ∙ ap (λ c. frame msg c op) total in
    decode_frame3-append (as_client key msg f) rest (λ e. frame-ne-need_more (sym whole ∙ e))
    ∙ whole
