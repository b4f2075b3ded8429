-- ===== src/Queue/Laws.antt =====
-- The queue is first in, first out.
use libcore.Base.{
  ℕ, zero, suc, ◌+◌, ◌^◌, ◌<◌, ◌≡◌, refl, arith, Bool, true, append-nil, append_assoc,
  length-append, ◌||◌, none, List, [], ◌∷◌,
}
use libcore.Base.{◌++◌, length, leb, if◌then◌else◌, take, sym, ap, ap₂, ◌∙◌, get_or}
use libcore.ArrayList.Shift.{remove_at}
use libcore.Base.Int.{pos}
use libcore.Object.{Ptr, Heap, retain}
use libcore.ArrayList.{Allocator, get_size, grown}
use libcore.ArrayList.Invariant.{IsValid, detach-IsValid, add-capacity, grown_below}
use libcore.ArrayList.Refine.{
  contents, length-contents, add_refines, add-contents, detach_refines, get_refines,
}
use libcore.Queue.{Queue, enqueue, dequeue, peek}

-- The abstract queue, front first.
abbrev pub view : Queue → List Ptr
view q = contents q.container

abbrev pub front : List Ptr → Ptr
front [] = none
front (x ∷ xs) = x

abbrev pub behind : List Ptr → List Ptr
behind [] = []
behind (x ∷ xs) = xs

get_or-front : (xs : List Ptr) → get_or xs 0 none ≡ front xs
get_or-front [] = refl
get_or-front (x ∷ xs) = refl

remove_at-behind : (xs : List Ptr) → remove_at 0 xs ≡ behind xs
remove_at-behind [] = refl
remove_at-behind (x ∷ xs) = refl

take_none : (n : ℕ) (xs : List Ptr) → n ≡ 0 → take n xs ≡ []
take_none zero xs e = refl
take_none (suc n) xs e = absurd (omega arith)

-- `enqueue` puts the item behind the others and retains it, unless the array is full and cannot be
-- grown: then the queue and the counts stay.
pub enqueue_refines :
    (a : Allocator) {q : Queue} (x : Ptr) (h : Heap)
    → IsValid q.container
    → let l = q.container in
      let accepted = leb (l.size + 1) l.capacity || a.grants (grown l.capacity (l.size + 1)) in
      (view (enqueue a q x h).0 ≡ (if accepted then view q ++ (x ∷ []) else view q))
      × ((enqueue a q x h).1 ≡ (if accepted then retain x h else h))
unfolding enqueue
enqueue_refines a x h v = add-contents a x h v

-- `dequeue` hands over the front and leaves the rest; of an empty queue it gives NULL. `peek` reads
-- the same item.
pub dequeue_refines :
    {q : Queue}
    → IsValid q.container
    → ((dequeue q).0 ≡ front (view q))
      × (view (dequeue q).1 ≡ behind (view q))
      × (peek q ≡ front (view q))
unfolding dequeue peek get_size
dequeue_refines {q} v = ground (
  arith,
  detach_refines (pos 0) v,
  get_refines (pos 0) v,
  get_or-front (contents q.container),
  remove_at-behind (contents q.container),
  take_none q.container.size q.container.items,
)

length_zero : (xs : List Ptr) → length xs ≡ 0 → xs ≡ []
length_zero [] e = refl
length_zero (x ∷ xs) e = absurd (omega arith)

length-behind : (xs : List Ptr) (n : ℕ) → length xs ≡ suc n → length (behind xs) ≡ n
length-behind [] n e = absurd (omega arith)
length-behind (x ∷ xs) n e = omega arith

front-behind : (xs : List Ptr) (n : ℕ) → length xs ≡ suc n → front xs ∷ behind xs ≡ xs
front-behind [] n e = absurd (omega arith)
front-behind (x ∷ xs) n e = refl

dequeue-IsValid : {q : Queue} → IsValid q.container → IsValid (dequeue q).1.container
unfolding dequeue
dequeue-IsValid {q} v = ground (arith, detach-IsValid (pos 0) v)

-- `n` dequeues in turn, with what each handed over.
pub dequeue_times : ℕ → Queue → List Ptr × Queue
dequeue_times zero q = ([], q)
dequeue_times (suc n) q =
    let (x, q') = dequeue q in let (xs, q'') = dequeue_times n q' in (x ∷ xs, q'')

pub dequeue_times-view :
    (n : ℕ) {q : Queue}
    → IsValid q.container
    → length (view q) ≡ n
    → ((dequeue_times n q).0 ≡ view q) × (view (dequeue_times n q).1 ≡ [])
unfolding dequeue_times
dequeue_times-view zero {q} v e = let empty = length_zero (view q) e in (sym empty, empty)
dequeue_times-view (suc n) {q} v e =
    let step = dequeue_refines v in
    let rest =
      dequeue_times-view n (dequeue-IsValid v) (ap length step.1 ∙ length-behind (view q) n e) in
    (ap₂ ◌∷◌ step.0 (rest.0 ∙ step.1) ∙ front-behind (view q) n e, rest.1)

-- Enqueues of the items of a list, one after another.
pub enqueue_all : Allocator → List Ptr → Queue → Heap → Queue × Heap
enqueue_all a [] q h = (q, h)
enqueue_all a (x ∷ xs) q h = let (q', h') = enqueue a q x h in enqueue_all a xs q' h'

enqueue-granted :
    (a : Allocator) {q : Queue} (x : Ptr) (h : Heap)
    → ((n : ℕ) → n < 2 ^ 30 → a.grants n ≡ true)
    → IsValid q.container
    → length (view q) < 2 ^ 29
    → q.container.capacity < 2 ^ 30
    → (view (enqueue a q x h).0 ≡ view q ++ x ∷ [])
      × IsValid (enqueue a q x h).0.container
      × ((enqueue a q x h).0.container.capacity < 2 ^ 30)
unfolding enqueue get_size
enqueue-granted a {q} x h granted v n c =
    let l = q.container in
    let size = length-contents v in
    let (items, counts, v') = add_refines a x h v c in
    let ask = granted (grown l.capacity (l.size + 1)) in
    let low = grown_below l in
    let yes : (leb (l.size + 1) l.capacity || a.grants (grown l.capacity (l.size + 1))) ≡ true =
      ground arith in
    (
      items ∙ ap (λ (b : Bool). if b then view q ++ x ∷ [] else view q) yes,
      v',
      add-capacity a l x h (omega arith) c,
    )

enqueue_all-view :
    (a : Allocator) (xs : List Ptr) {q : Queue} (h : Heap)
    → ((n : ℕ) → n < 2 ^ 30 → a.grants n ≡ true)
    → IsValid q.container
    → length (view q) + length xs < 2 ^ 29
    → q.container.capacity < 2 ^ 30
    → (view (enqueue_all a xs q h).0 ≡ view q ++ xs) × IsValid (enqueue_all a xs q h).0.container
unfolding enqueue_all
enqueue_all-view a [] {q} h granted v n c = (sym (append-nil (view q)), v)
enqueue_all-view a (x ∷ xs) {q} h granted v n c =
    let (items, v', c') = enqueue-granted a x h granted v (omega arith) c in
    let size = ap length items ∙ length-append (view q) (x ∷ []) in
    let (rest, v'') = enqueue_all-view a xs (enqueue a q x h).1 granted v' (omega arith) c' in
    (rest ∙ ap (λ ys. ys ++ xs) items ∙ append_assoc (view q) (x ∷ []) xs, v'')

-- What is enqueued comes out in the order of the enqueues, behind what was in the queue, in as many dequeues
-- as there are items, which leave it empty: where there are fewer than 2^29 items, and every request for
-- fewer than 2^30 slots is granted.
pub dequeue_times-enqueue_all :
    (a : Allocator) (xs : List Ptr) {q : Queue} (h : Heap)
    → ((n : ℕ) → n < 2 ^ 30 → a.grants n ≡ true)
    → IsValid q.container
    → length (view q) + length xs < 2 ^ 29
    → q.container.capacity < 2 ^ 30
    → let r = dequeue_times (length (view q) + length xs) (enqueue_all a xs q h).0 in
      (r.0 ≡ view q ++ xs) × (view r.1 ≡ [])
dequeue_times-enqueue_all a xs {q} h granted v n c =
    let (items, v') = enqueue_all-view a xs h granted v n c in
    let (out, empty) =
      dequeue_times-view (length (view q) + length xs) v'
        (ap length items ∙ length-append (view q) xs) in
    (out ∙ items, empty)
