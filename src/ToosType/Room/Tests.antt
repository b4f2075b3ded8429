-- ===== src/ToosType/Room/Tests.antt =====
-- The theorems on rooms at concrete times.
use libcore.Base.{◌≡◌, refl, arith, [], ◌∷◌}
use libcore.ToosType.Room.{
  GameProfile, PhaseProfile, init, start_countdown, tick, playing, make_deadline, start_playing,
  total_duration_ms, total_from,
}
use libcore.ToosType.Room.Phases.{sum_durations}
use libcore.ToosType.Room.Machine.{
  IsValid, TimesOf, here, next, start_step, tick_step, Reach-IsValid,
}

abbrev short : PhaseProfile
short = record { duration_ms = 20000; input_timeout_ms = 5000; correct_score = 10 }

abbrev short_game : GameProfile
short_game = record {
  countdown_ms = 3000;
  random_seed = 42;
  play_score_per_sec = 1;
  accuracy_score_multiplier = 1;
  phases = short ∷ short ∷ short ∷ [];
}

new_room-IsValid : IsValid (init 1 short_game)
unfolding init TimesOf sum_durations
new_room-IsValid = record { three_phases = refl; fits = omega arith; times = (refl, refl, refl) }

-- A countdown from 1000 to 4000, and the first tick behind its end.
started : (tick ((start_countdown (init 1 short_game) 1000).1) 4100).1.state ≡ playing
unfolding tick start_countdown init make_deadline start_playing total_duration_ms total_from
started = refl

Reach-IsValid_example : IsValid ((tick ((start_countdown (init 1 short_game) 1000).1) 4100).1)
Reach-IsValid_example =
    Reach-IsValid (next (next here (start_step 1000)) (tick_step 4100)) new_room-IsValid
