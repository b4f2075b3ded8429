-- ===== src/HttpResponse/Body.antt =====
-- src/http_response_parser.c: how long the body is that is read.
use libcore.Base.{ℕ, zero, suc, ◌+◌, ◌-◌, ◌≤◌, Bool, not, ◌||◌, ◌≡◌, refl, ap, ◌∙◌}
use libcore.Base.{
  ◌⊎◌, some, inl, inr, List, [], ◌∷◌, ◌++◌, ltb, leb, ◌==◌, length, length-append, arith,
  Bool-cases, Option-cases,
}
use libcore.HttpResponse.Number.{parse_chunk_size}
use libcore.HttpResponse.{
  recv_line, read_bytes, read_to_end, read_trailers, read_chunks, http_max_body, take_crlf,
}
use libcore.HttpResponse.{Framing, no_body, chunked, to_end, sized, read_body}

-- A length that was let through is within the limit.
unfoldable pub IsBounded : Framing → Type 0
IsBounded no_body = Unit
IsBounded chunked = Unit
IsBounded to_end = Unit
IsBounded (sized n) = n ≤ http_max_body

module _ (writable : ℕ → Bool) where
  read_bytes-length :
      (n : ℕ) (body bytes more rest : List ℕ)
      → read_bytes writable n body bytes ≡ some (more, rest)
      → length more ≡ length body + n
  unfolding read_bytes
  read_bytes-length zero body bytes more rest h =
      let e : body ≡ more = cc in omega (arith, ap length e)
  read_bytes-length (suc n) body [] more rest h = absurd cc
  read_bytes-length (suc n) body (c ∷ cs) more rest h = elim (Bool-cases (writable (length body))) [
    | inl e ↦
        let ih = read_bytes-length n (body ++ c ∷ []) cs more rest (simp (read_bytes, e) at h) in
        omega (arith, length-append body (c ∷ []))
    | inr e ↦ absurd (cc (simp (read_bytes, e) at h))
  ]

  read_to_end-length :
      (bytes body more : List ℕ)
      → length body ≤ http_max_body
      → read_to_end writable (length body) body bytes ≡ some more
      → length more ≤ http_max_body
  unfolding read_to_end
  read_to_end-length [] body more l h = let e : body ≡ more = cc in omega (arith, ap length e)
  read_to_end-length (c ∷ cs) body more l h =
      let n : length (body ++ c ∷ []) ≡ suc (length body) =
        omega (arith, length-append body (c ∷ [])) in
      elim (Bool-cases (leb http_max_body (length body) || not (writable (length body)))) [
        | inl e ↦ absurd (cc (simp (read_to_end, e) at h))
        | inr e ↦
            read_to_end-length cs (body ++ c ∷ []) more (ground arith)
              (ap (λ k. read_to_end writable k (body ++ c ∷ []) cs) n ∙ simp (read_to_end, e) at h)
      ]

  -- One round of the loop over the chunks.
  Round : ℕ → ℕ → List ℕ → List ℕ → List ℕ → List ℕ → Type 0
  Round fuel total body bytes more rest =
      (more ≡ body)
      ⊎ ((size : ℕ) × (middle next : List ℕ) × (size ≤ http_max_body - total)
          × (length middle ≡ length body + size)
          × (read_chunks writable fuel (total + size) middle next ≡ some (more, rest)))

  read_chunks-Round :
      (fuel total : ℕ) (body bytes more rest : List ℕ)
      → read_chunks writable (suc fuel) total body bytes ≡ some (more, rest)
      → Round fuel total body bytes more rest
  unfolding read_chunks Round
  read_chunks-Round fuel total body bytes more rest h = elim (Option-cases (recv_line bytes)) [
    | inl e ↦ absurd (cc (simp (read_chunks, e) at h))
    | inr ((line, ret, behind), e) ↦ elim (Bool-cases (ret == length line + 2)) [
      | inr f ↦ absurd (cc (simp (read_chunks, e, f) at h))
      | inl f ↦ elim (Option-cases (parse_chunk_size line)) [
        | inl g ↦ absurd (cc (simp (read_chunks, e, f, g) at h))
        | inr (size, g) ↦ elim (Bool-cases (size == 0)) [
          | inl z ↦ elim (Option-cases (read_trailers (suc (length behind)) 0 0 behind)) [
            | inl t ↦ absurd (cc (simp (read_chunks, e, f, g, z, t) at h))
            | inr (r, t) ↦ inl (cc (simp (read_chunks, e, f, g, z, t) at h))
          ]
          | inr z ↦ elim (Bool-cases (ltb (http_max_body - total) size)) [
            | inl t ↦ absurd (cc (simp (read_chunks, e, f, g, z, t) at h))
            | inr t ↦ elim (Option-cases (read_bytes writable size body behind)) [
              | inl u ↦ absurd (cc (simp (read_chunks, e, f, g, z, t, u) at h))
              | inr ((middle, after), u) ↦ elim (Option-cases (take_crlf after)) [
                | inl v ↦ absurd (cc (simp (read_chunks, e, f, g, z, t, u, v) at h))
                | inr (next, v) ↦
                    let n = read_bytes-length size body behind middle after u in
                    inr (
                      size,
                      middle,
                      next,
                      ground arith,
                      n,
                      simp (read_chunks, e, f, g, z, t, u, v) at h,
                    )
              ]
            ]
          ]
        ]
      ]
    ]
  ]

  read_chunks-length :
      (fuel total : ℕ) (body bytes more rest : List ℕ)
      → total ≡ length body
      → length body ≤ http_max_body
      → read_chunks writable fuel total body bytes ≡ some (more, rest)
      → length more ≤ http_max_body
  unfolding read_chunks Round
  read_chunks-length zero total body bytes more rest k l h = absurd cc
  read_chunks-length (suc fuel) total body bytes more rest k l h =
      elim (read_chunks-Round fuel total body bytes more rest h) [
        | inl e ↦ omega (arith, ap length e)
        | inr (size, middle, next, fits, n, again) ↦
            read_chunks-length fuel (total + size) middle next more rest (omega arith) (omega arith)
              again
      ]

  pub read_body-length :
      (f : Framing) (bytes body : List ℕ)
      → IsBounded f
      → read_body writable f bytes ≡ some body
      → length body ≤ http_max_body
  unfolding read_body IsBounded
  read_body-length no_body bytes body b h = let e : [] ≡ body = cc in omega (arith, ap length e)
  read_body-length to_end bytes body b h = read_to_end-length bytes [] body (omega arith) h
  read_body-length chunked bytes body b h =
      elim (Option-cases (read_chunks writable (suc (length bytes)) 0 [] bytes)) [
        | inl e ↦ absurd (cc (simp (read_body, e) at h))
        | inr ((more, rest), e) ↦
            let same : more ≡ body = cc (simp (read_body, e) at h) in
            omega (
              arith,
              ap length same,
              read_chunks-length (suc (length bytes)) 0 [] bytes more rest refl (omega arith) e,
            )
      ]
  read_body-length (sized n) bytes body b h = elim (Option-cases (read_bytes writable n [] bytes)) [
    | inl e ↦ absurd (cc (simp (read_body, e) at h))
    | inr ((more, rest), e) ↦
        let same : more ≡ body = cc (simp (read_body, e) at h) in
        omega (arith, ap length same, read_bytes-length n [] bytes more rest e)
  ]
