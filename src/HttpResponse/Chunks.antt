-- ===== src/HttpResponse/Chunks.antt =====
-- src/http_response_parser.c: the body of a connection that is sent in chunks.
use libcore.Base.{
  ℕ, zero, suc, ◌+◌, ◌-◌, ◌<◌, ◌≤◌, Bool, true, false, ◌||◌, ◌≡◌, refl, sym, ap, ◌∙◌,
}
use libcore.Base.{
  Option, some, List, [], ◌∷◌, ◌++◌, append-nil, append_assoc, ltb, ◌==◌, if◌then◌else◌, length,
  length-append, arith,
}
use libcore.HttpResponse.Number.{parse_chunk_size}
use libcore.HttpResponse.{
  cr, lf, Line, longer, line_from, recv_line, read_bytes, read_trailers, read_chunks, http_max_body,
}

-- The text of a line: no NUL and no byte of a line's end.
unfoldable pub is_line_text : List ℕ → Bool
is_line_text [] = true
is_line_text (c ∷ cs) =
    let rest = is_line_text cs in if c == 0 || c == cr || c == lf then false else rest

counted : List ℕ → List ℕ → ℕ → Option Line
counted line rest n = some (line, n, rest)

result : List ℕ → List ℕ → Option (List ℕ × List ℕ)
result rest body = some (body, rest)

line_from-text :
    (window : ℕ) (line rest : List ℕ)
    → is_line_text line ≡ true
    → length line + 2 ≤ window
    → line_from window (line ++ cr ∷ lf ∷ rest) ≡ some (line, length line + 2, rest)
unfolding line_from is_line_text longer counted
line_from-text zero line rest h l = absurd (omega arith)
line_from-text (suc window) [] rest h l =
    let w : (window == 0) ≡ false = ground arith in simp w refl
line_from-text (suc window) (c ∷ cs) rest h l =
    let ih = line_from-text window cs rest (ground arith) (omega arith) in
    let e0 : (c == 0) ≡ false = ground arith in
    let e1 : (c == lf) ≡ false = ground arith in
    let e2 : (c == cr) ≡ false = ground arith in
    let k : suc (length cs + 2) ≡ suc (length cs) + 2 = omega arith in
    simp (line_from, e0, e1, e2, ih) (ap (counted (c ∷ cs) rest) k)

-- A line with CR LF behind it is received whole.
pub recv_line-text :
    (line rest : List ℕ)
    → is_line_text line ≡ true
    → length line ≤ 4093
    → recv_line (line ++ cr ∷ lf ∷ rest) ≡ some (line, length line + 2, rest)
unfolding recv_line
recv_line-text line rest h l = line_from-text 4095 line rest h (omega arith)

module _ (writable : ℕ → Bool) (room : (n : ℕ) → n < http_max_body → writable n ≡ true) where
  read_bytes-all :
      (item body rest : List ℕ)
      → length body + length item ≤ http_max_body
      → read_bytes writable (length item) body (item ++ rest) ≡ some (body ++ item, rest)
  unfolding read_bytes result
  read_bytes-all [] body rest n = ap (result rest) (sym (append-nil body))
  read_bytes-all (c ∷ cs) body rest n =
      let k = length-append body (c ∷ []) in
      simp (read_bytes, room (length body) (omega arith))
        (read_bytes-all cs (body ++ c ∷ []) rest (omega arith)
          ∙ ap (result rest) (append_assoc body (c ∷ []) cs))

-- The wire form of a body: for each chunk its line and its bytes, then a line of size 0 and an empty one.
pub wire : List (List ℕ × List ℕ) → List ℕ → List ℕ → List ℕ
wire [] last rest = last ++ cr ∷ lf ∷ cr ∷ lf ∷ rest
wire ((line, item) ∷ chunks) last rest = line ++ cr ∷ lf ∷ (item ++ cr ∷ lf ∷ wire chunks last rest)

unfoldable pub joined : List (List ℕ × List ℕ) → List ℕ
joined [] = []
joined ((line, item) ∷ chunks) = item ++ joined chunks

-- A line that gives a size.
unfoldable pub GivesSize : List ℕ → ℕ → Type 0
GivesSize line n =
    (parse_chunk_size line ≡ some n) × (is_line_text line ≡ true) × (length line ≤ 4093)

-- Each chunk has a line of its size, and is not empty.
unfoldable pub AreChunks : List (List ℕ × List ℕ) → Type 0
AreChunks [] = Unit
AreChunks ((line, item) ∷ chunks) =
    GivesSize line (length item) × (0 < length item) × AreChunks chunks

length-wire :
    (chunks : List (List ℕ × List ℕ)) (last rest : List ℕ)
    → length chunks < length (wire chunks last rest)
unfolding wire
length-wire [] last rest = omega (arith, length-append last (cr ∷ lf ∷ cr ∷ lf ∷ rest))
length-wire ((line, item) ∷ chunks) last rest =
    let behind = wire chunks last rest in
    omega (
      arith,
      length-wire chunks last rest,
      length-append line (cr ∷ lf ∷ (item ++ cr ∷ lf ∷ behind)),
      length-append item (cr ∷ lf ∷ behind),
    )

module _ (writable : ℕ → Bool) (room : (n : ℕ) → n < http_max_body → writable n ≡ true) where
  read_trailers-none :
      (fuel : ℕ) (rest : List ℕ) → read_trailers (suc fuel) 0 0 (cr ∷ lf ∷ rest) ≡ some rest
  unfolding read_trailers is_line_text
  read_trailers-none fuel rest = rw (read_trailers, recv_line-text [] rest refl (omega arith))

  read_chunks-wire :
      (fuel total : ℕ) (chunks : List (List ℕ × List ℕ)) (last body rest : List ℕ)
      → AreChunks chunks
      → GivesSize last 0
      → length body ≡ total
      → total + length (joined chunks) ≤ http_max_body
      → length chunks < fuel
      → read_chunks writable fuel total body (wire chunks last rest)
        ≡ some (body ++ joined chunks, rest)
  unfolding wire joined AreChunks GivesSize read_chunks result read_trailers recv_line line_from
  read_chunks-wire zero total chunks last body rest a (z, t, s) same_total n l =
      absurd (omega arith)
  read_chunks-wire (suc fuel) total [] last body rest a (z, t, s) same_total n l =
      let r = recv_line-text last (cr ∷ lf ∷ rest) t s in
      let same : (length last + 2 == length last + 2) ≡ true = ground arith in
      let none_left = read_trailers-none (length (cr ∷ lf ∷ rest)) rest in
      simp (read_chunks, r, same, z, none_left) (ap (result rest) (sym (append-nil body)))
  read_chunks-wire (suc fuel) total ((line, item) ∷ chunks) last body rest
        ((p, pt, ps), some_bytes, a) (z, t, s) same_total n l =
      let behind = wire chunks last rest in
      let r = recv_line-text line (item ++ cr ∷ lf ∷ behind) pt ps in
      let same : (length line + 2 == length line + 2) ≡ true = ground arith in
      let size : (length item == 0) ≡ false = ground arith in
      let k = length-append item (joined chunks) in
      let fits : ltb (http_max_body - total) (length item) ≡ false = ground arith in
      let moved = read_bytes-all writable room item body (cr ∷ lf ∷ behind) (omega arith) in
      let moved_length = length-append body item in
      let ih =
        read_chunks-wire fuel (total + length item) chunks last (body ++ item) rest a (z, t, s)
          (omega arith) (omega arith) (omega arith) in
      simp (read_chunks, r, same, p, size, fits, moved, ih)
        (ap (result rest) (append_assoc body item (joined chunks)))

  -- A body sent in chunks, each of them not empty and behind a line of its size, is read whole where the
  -- buffer takes every byte below 16 MiB and the body has no more, and the connection stands behind it then.
  pub read_chunks-chunks :
      (chunks : List (List ℕ × List ℕ)) (last rest : List ℕ)
      → AreChunks chunks
      → GivesSize last 0
      → length (joined chunks) ≤ http_max_body
      → read_chunks writable (suc (length (wire chunks last rest))) 0 [] (wire chunks last rest)
        ≡ some (joined chunks, rest)
  read_chunks-chunks chunks last rest a z n =
      read_chunks-wire (suc (length (wire chunks last rest))) 0 chunks last [] rest a z refl
        (omega arith) (omega (arith, length-wire chunks last rest))
