-- ===== src/ToosType.antt =====
-- The typing game, src/toos_type_*.c: the clock of a room, the deck of sentences, and the players. The
-- judge, which is told apart because it keeps no state, is in Judge.
pub mod Room
pub mod Spawn
pub mod Context
pub mod Sample
