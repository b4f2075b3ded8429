-- ===== src/ToosType/Context/Roster/Slots.antt =====
-- src/toos_type_game_context.c: the slots of a room after one of them was written.
use libcore.Base.{
  ℕ, zero, suc, ◌+◌, ◌<◌, ◌≡◌, refl, sym, ◌∙◌, arith, true, false, ◌&&◌, List, [], ◌∷◌, ◌==◌,
  get_or, set, length, some, Bool-cases, inl, inr,
}
use libcore.ToosType.Context.{
  PlayerState, no_player, is_here, oldest_from, any_ready, free_from, find_from,
}
use libcore.ToosType.Context.Roster.{count_occupied, Numbered}

some_same : (a b : ℕ) → some a ≡ some b → a ≡ b
some_same a b h = cc

-- The first free slot, from `k` on.
pub free_from_lem :
    (ps : List PlayerState) (k i : ℕ)
    → free_from ps k ≡ some i
    → (j : ℕ) × (i ≡ k + j) × (j < length ps) × ((get_or ps j no_player).occupied ≡ false)
unfolding free_from
free_from_lem [] k i h = absurd cc
free_from_lem (p ∷ ps) k i h = elim (Bool-cases p.occupied) [
  | inl o ↦
      let later : free_from ps (k + 1) ≡ some i = ground arith in
      let (j, e, l, f) = free_from_lem ps (k + 1) i later in
      (suc j, omega (arith, e), omega (arith, l), f)
  | inr o ↦
      let here : some k ≡ some i = ground arith in
      (0, some_same i k (sym here) ∙ omega arith, omega arith, o)
]

-- The slot of a connection, from `k` on.
pub find_from_lem :
    (ps : List PlayerState) (conn k i : ℕ)
    → find_from ps conn k ≡ some i
    → (j : ℕ) × (i ≡ k + j)
      × (j < length ps)
      × ((get_or ps j no_player).occupied ≡ true)
      × ((get_or ps j no_player).conn_ptr ≡ conn)
unfolding find_from
find_from_lem [] conn k i h = absurd cc
find_from_lem (p ∷ ps) conn k i h = elim (Bool-cases (p.occupied && p.conn_ptr == conn)) [
  | inr o ↦
      let later : find_from ps conn (k + 1) ≡ some i = ground arith in
      let (j, e, l, f, c) = find_from_lem ps conn (k + 1) i later in
      (suc j, omega (arith, e), omega (arith, l), f, c)
  | inl o ↦
      let here : some k ≡ some i = ground arith in
      (0, some_same i k (sym here) ∙ omega arith, omega arith, ground arith, ground arith)
]

-- Counting after a slot that is free was taken, and after one that was taken is emptied.
pub count_taken :
    (ps : List PlayerState) (i : ℕ) (p : PlayerState)
    → i < length ps
    → (get_or ps i no_player).occupied ≡ false
    → p.occupied ≡ true
    → count_occupied (set ps i p) ≡ suc (count_occupied ps)
unfolding count_occupied
count_taken [] i p h e o = absurd (omega arith)
count_taken (x ∷ ps) zero p h e o = ground arith
count_taken (x ∷ ps) (suc i) p h e o = let ih = count_taken ps i p (omega arith) e o in ground arith

pub count_emptied :
    (ps : List PlayerState) (i : ℕ)
    → i < length ps
    → (get_or ps i no_player).occupied ≡ true
    → suc (count_occupied (set ps i no_player)) ≡ count_occupied ps
unfolding count_occupied
count_emptied [] i h o = absurd (omega arith)
count_emptied (x ∷ ps) zero h o = ground arith
count_emptied (x ∷ ps) (suc i) h o = let ih = count_emptied ps i (omega arith) o in ground arith

pub count_same :
    (ps : List PlayerState) (i : ℕ) (p : PlayerState)
    → p.occupied ≡ (get_or ps i no_player).occupied
    → count_occupied (set ps i p) ≡ count_occupied ps
unfolding count_occupied
count_same [] i p h = refl
count_same (x ∷ ps) zero p h = ground arith
count_same (x ∷ ps) (suc i) p h = let ih = count_same ps i p h in ground arith

pub Numbered-set :
    (ps : List PlayerState) (k i : ℕ) (p : PlayerState)
    → Numbered k ps
    → (p.occupied ≡ true → (p.player_no ≡ k + i + 1) × (p.connected ≡ true))
    → Numbered k (set ps i p)
unfolding Numbered
Numbered-set [] k i p n h = n
Numbered-set (x ∷ ps) k zero p (n, ns) h =
    (λ o. (let (num, c) = h o in (omega (arith, num), c)), ns)
Numbered-set (x ∷ ps) k (suc i) p (n, ns) h =
    (n, Numbered-set ps (k + 1) i p ns (λ o. (let (num, c) = h o in (omega (arith, num), c))))

pub Numbered-at :
    (ps : List PlayerState) (k i : ℕ)
    → Numbered k ps
    → (get_or ps i no_player).occupied ≡ true
    → ((get_or ps i no_player).player_no ≡ k + i + 1) × ((get_or ps i no_player).connected ≡ true)
unfolding Numbered
Numbered-at [] k i n h = ground arith
Numbered-at (x ∷ ps) k zero (n, ns) h = let (num, c) = n h in (omega (arith, num), c)
Numbered-at (x ∷ ps) k (suc i) (n, ns) h =
    let (num, c) = Numbered-at ps (k + 1) i ns h in (omega (arith, num), c)

-- A player who is not ready, in a slot that was free, changes no lock; one who is ready sets it.
pub any_ready_joined :
    (ps : List PlayerState) (i : ℕ) (p : PlayerState)
    → (get_or ps i no_player).occupied ≡ false
    → p.ready ≡ false
    → any_ready (set ps i p) ≡ any_ready ps
unfolding any_ready is_here
any_ready_joined [] i p h r = refl
any_ready_joined (x ∷ ps) zero p h r = ground arith
any_ready_joined (x ∷ ps) (suc i) p h r = let ih = any_ready_joined ps i p h r in ground arith

pub any_ready-set :
    (ps : List PlayerState) (i : ℕ) (p : PlayerState)
    → i < length ps
    → is_here p ≡ true
    → p.ready ≡ true
    → any_ready (set ps i p) ≡ true
unfolding any_ready
any_ready-set [] i p l h r = absurd (omega arith)
any_ready-set (x ∷ ps) zero p l h r = ground arith
any_ready-set (x ∷ ps) (suc i) p l h r =
    let ih = any_ready-set ps i p (omega arith) h r in ground arith

-- The host does not depend on who is ready.
pub oldest_ready :
    (ps : List PlayerState) (i m o : ℕ)
    → oldest_from (set ps i (record (get_or ps i no_player) { ready = true })) m o
      ≡ oldest_from ps m o
unfolding oldest_from is_here
oldest_ready [] i m o = refl
oldest_ready (x ∷ ps) zero m o = refl
oldest_ready (x ∷ ps) (suc i) m o = oldest_ready ps i _ _
