-- ===== src/ToosType/Context/Roster.antt =====
-- src/toos_type_game_context.c: what holds of the players of a room before a game.
pub mod Slots
pub mod Steps
pub mod Lobby
pub mod Host
use libcore.Base.{
  ℕ, zero, suc, ◌+◌, ◌-◌, ◌<◌, ◌≤◌, ◌≡◌, refl, sym, ap, ◌∙◌, arith, Bool, true, false, not, ◌&&◌,
  List, [], ◌∷◌, ltb, ◌==◌, if◌then◌else◌, get_or, set, length, replicate, Option, some, none,
}
use libcore.ToosType.Room.{Room, uint64_max}
use libcore.ToosType.Context.{
  GameContext, PlayerState, no_player, is_here, oldest_from, any_ready, max_room_players,
}

pub count_occupied : List PlayerState → ℕ
count_occupied [] = 0
count_occupied (p ∷ ps) = if p.occupied then suc (count_occupied ps) else count_occupied ps

-- A slot is empty, or it is player `i + 1`'s, who is connected: slots from `i` on.
pub Numbered : ℕ → List PlayerState → Type 0
Numbered i [] = Unit
Numbered i (p ∷ ps) =
    (p.occupied ≡ true → (p.player_no ≡ i + 1) × (p.connected ≡ true)) × Numbered (i + 1) ps

-- The slots are counted, numbered and connected; the host is the player who joined first; the settings are
-- locked as long as a player is ready.
pub record IsRoster (players : List PlayerState) (count host : ℕ) (locked : Bool) : Type 0 where
  pub slots : length players ≡ max_room_players
  pub counted : count ≡ count_occupied players
  pub numbered : Numbered 0 players
  pub hosted : host ≡ oldest_from players uint64_max 0
  pub lock : locked ≡ any_ready players

abbrev pub OfContext : GameContext → Type 0
OfContext ctx =
    IsRoster ctx.players ctx.active_player_count ctx.room.host_player_no ctx.room.language_locked
