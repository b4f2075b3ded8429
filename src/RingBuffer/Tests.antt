-- ===== src/RingBuffer/Tests.antt =====
-- A ring of three slots whose items go round the end, and the theorems at it.
use libcore.Base.{◌≡◌, refl, arith, true, false, some, none, [], ◌∷◌}
use libcore.RingBuffer.{RingBuffer, push, pop, take_tail}
use libcore.RingBuffer.Refine.{IsValid, contents}
use libcore.RingBuffer.Session.{put, get, stored, item, serve_ring, serve_refines, serve_queue}

abbrev wrapped : RingBuffer
wrapped = record {
  items = some 9 ∷ none ∷ some 8 ∷ [];
  capacity = 3;
  head = 1;
  tail = 2;
  count = 2;
}

wrapped-IsValid : IsValid wrapped
wrapped-IsValid = omega arith

full_drops :
    serve_ring wrapped (put (some 1) ∷ put (some 2) ∷ get ∷ get ∷ get ∷ get ∷ [])
    ≡ stored true ∷ stored false ∷ item (some 8) ∷ item (some 9) ∷ item (some 1) ∷ item none ∷ []
unfolding serve_ring push pop take_tail
full_drops = refl

serve_refines_example :
    serve_ring wrapped (put (some 1) ∷ get ∷ [])
    ≡ serve_queue 3 (contents wrapped) (put (some 1) ∷ get ∷ [])
serve_refines_example = serve_refines (put (some 1) ∷ get ∷ []) wrapped-IsValid
