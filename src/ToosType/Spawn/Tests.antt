-- ===== src/ToosType/Spawn/Tests.antt =====
-- The theorems on the deck of sentences at concrete states of the generator.
use libcore.Base.{◌≡◌, refl, arith, true, [], ◌∷◌}
use libcore.ToosType.Sample.{engine, engine-IsEngine}
use libcore.ToosType.Spawn.{
  bounded_rand, shuffle, identity_from, append_epoch, append_until, ensure_capacity, ensure_deck,
  ensure_cursor, difficulty_to_index,
}
use libcore.ToosType.Spawn.Rand.{Drawn, bounded_rand_ends}
use libcore.ToosType.Spawn.Shuffle.{Dealt, epoch_deals}
use libcore.ToosType.Spawn.Engine.{Served, ensure_cursor-sentence_at}

bounded_rand_ends_example : Drawn 6 (bounded_rand 42 6)
bounded_rand_ends_example = bounded_rand_ends 42 6 (omega arith) (omega arith)

-- An epoch of three behind one entry.
epoch_deals_example :
    Dealt 1 3 (2 ∷ 0 ∷ 0 ∷ 0 ∷ []) (shuffle 2 1 (identity_from 3 0 1 (2 ∷ 0 ∷ 0 ∷ 0 ∷ [])) 42)
epoch_deals_example =
    epoch_deals 1 3 (2 ∷ 0 ∷ 0 ∷ 0 ∷ []) 42 (omega arith) (omega arith) (omega arith)

-- The engine has no entry yet, and the cursor asks for six.
extended : (ensure_cursor true 0 engine 2 5).0 ≡ true
unfolding ensure_cursor difficulty_to_index ensure_deck ensure_capacity append_until append_epoch
    shuffle identity_from
extended = refl

ensure_cursor-sentence_at_example : Served true 2 5 (ensure_cursor true 0 engine 2 5)
ensure_cursor-sentence_at_example =
    ensure_cursor-sentence_at true 0 engine 2 5 engine-IsEngine (omega arith) (omega arith)
