-- ===== src/ToosType/Context/Roster/Lobby.antt =====
-- src/toos_type_game_context.c: the calls on a context before its game, in any order.
use libcore.Base.{ℕ, ◌≡◌, Bool, ◌⊎◌}
use libcore.ToosType.Room.{waiting, countdown}
use libcore.ToosType.Spawn.{SpawnEngine}
use libcore.ToosType.Context.{GameContext, join}
use libcore.ToosType.Context.Lobby.{
  set_language, set_duration, set_ready, prepare_start, abort_start, start_game,
}
use libcore.ToosType.Context.Leave.{disconnect}

-- A call, by any connection; one that ends does so while the room waits or counts down.
pub data LobbyStep (c : GameContext) : GameContext → Type 0 where
  joins : (conn : ℕ) → LobbyStep c ((join c conn).1)
  sets_language : (conn lang : ℕ) → LobbyStep c ((set_language c conn lang).1)
  sets_duration : (conn minutes : ℕ) → LobbyStep c ((set_duration c conn minutes).1)
  sets_ready : (conn : ℕ) → LobbyStep c ((set_ready c conn).1)
  prepares :
      (build_deck : SpawnEngine → ℕ → Bool × SpawnEngine) (conn : ℕ)
      → LobbyStep c ((prepare_start build_deck c conn).1)
  aborts : LobbyStep c (abort_start c)
  starts : (conn now_ms : ℕ) → LobbyStep c ((start_game c conn now_ms).1)
  leaves :
      (conn now_ms : ℕ)
      → (c.room.state ≡ waiting) ⊎ (c.room.state ≡ countdown)
      → LobbyStep c ((disconnect c conn now_ms).1)

pub data Reach (c : GameContext) : GameContext → Type 0 where
  here : Reach c c
  next : {d e : GameContext} → Reach c d → LobbyStep d e → Reach c e
