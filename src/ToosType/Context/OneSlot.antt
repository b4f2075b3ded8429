-- ===== src/ToosType/Context/OneSlot.antt =====
-- src/toos_type_game_context.c: steps that write to the slot of one player only.
use libcore.Base.{ℕ, ◌≡◌, ◌≢◌, refl, ◌∙◌, List, get_or, set, length, length-set, get_or-set_ne}
use libcore.ToosType.Context.{PlayerState, no_player}

-- What a step does to the slots: only slot `i` changes.
unfoldable pub OnlySlot : ℕ → List PlayerState → List PlayerState → Type 0
OnlySlot i ps qs =
    (length qs ≡ length ps) × ((j : ℕ) → i ≢ j → get_or qs j no_player ≡ get_or ps j no_player)

pub set-OnlySlot :
    (ps qs : List PlayerState) (i : ℕ) (p : PlayerState)
    → OnlySlot i ps qs
    → OnlySlot i ps (set qs i p)
unfolding OnlySlot
set-OnlySlot ps qs i p (size, others) =
    (length-set qs i p ∙ size, λ j h. get_or-set_ne qs i j p no_player h ∙ others j h)

pub same-OnlySlot : (ps : List PlayerState) (i : ℕ) → OnlySlot i ps ps
unfolding OnlySlot
same-OnlySlot ps i = (refl, λ j h. refl)

pub trans-OnlySlot :
    (ps qs rs : List PlayerState) (i : ℕ) → OnlySlot i ps qs → OnlySlot i qs rs → OnlySlot i ps rs
unfolding OnlySlot
trans-OnlySlot ps qs rs i (size, others) (size', others') =
    (size' ∙ size, λ j h. others' j h ∙ others j h)
