-- ===== src/ToosType/Context/Tests.antt =====
-- The theorems on a game at two players.
use libcore.Base.{ℕ, ◌≡◌, refl, arith, true, some, [], ◌∷◌, List}
use libcore.ToosType.Sample.{profile, engine, engine-IsEngine, playing_room, player, lobby, game}
use libcore.ToosType.Room.{start_countdown, make_deadline}
use libcore.ToosType.Context.{
  GameContext, RankingEntry, finished, dnf, init, join, find_player_by_conn, find_from, is_waiting,
  count_here, count_ready, is_here,
}
use libcore.ToosType.Context.Lobby.{start_game, is_host, all_are_ready}
use libcore.ToosType.Context.Start.{Outcome, start_game_lem}
use libcore.ToosType.Context.Play.{issue, submit}
use libcore.ToosType.Context.Play.Issued.{Issued, issue_lem}
use libcore.ToosType.Context.Play.Submitted.{Kept, submit-Kept}
use libcore.ToosType.Context.Tick.Ended.{Announced, on_ended-ranking}
use libcore.ToosType.Context.Ranking.{
  should_swap, sort_entries, give_ranks, exchange, swap_dnf, swap_finished, swap_accuracy, is_tied,
  same_status, rank_from,
}
use libcore.ToosType.Context.Ranking.Order.{is_ended}
use libcore.ToosType.Context.Ranking.Sorted.{all_ended, IsSortOf, sort_entries-IsSortOf}

abbrev two_joined : GameContext
two_joined = (join ((join (init 1 profile) 11).1) 12).1

starts : (start_game lobby 11 1000).0 ≡ true
unfolding start_game is_waiting is_host find_player_by_conn find_from all_are_ready count_here
    count_ready is_here start_countdown make_deadline
starts = refl

start_game_lem_example : Outcome lobby 11 1000 (start_game lobby 11 1000)
start_game_lem_example = start_game_lem lobby 11 1000 (omega arith)

issue_lem_example :
    Issued true playing_room (player 1) 5000 (issue true 0 playing_room engine (player 1) 5000)
issue_lem_example =
    issue_lem true 0 playing_room engine (player 1) 5000 engine-IsEngine refl (omega arith)

first_found : find_player_by_conn game 11 ≡ some 0
unfolding find_player_by_conn find_from
first_found = refl

submit-Kept_example : Kept 0 game ((submit true 0 game 11 7 (b'a' ∷ []) 6000).1)
submit-Kept_example = submit-Kept true 0 game 11 7 (b'a' ∷ []) 6000 0 first_found

on_ended-ranking_example : Announced game
on_ended-ranking_example = on_ended-ranking game

abbrev entry : ℕ → ℕ → RankingEntry
entry n total = record {
  rank = 0;
  player_no = n;
  status = finished;
  played_ms = 60000;
  play_score = 60;
  phase_score = 0;
  accuracy_score = 0;
  accuracy_x100 = 0;
  total_score = total;
  wpm = 0;
}

abbrev left_early : RankingEntry
left_early = record (entry 3 900) { status = dnf }

left_ended : is_ended left_early ≡ true
unfolding is_ended
left_ended = refl

finished_ended : is_ended (entry 2 60) ≡ true
unfolding is_ended
finished_ended = refl

abbrev entries : List RankingEntry
entries = left_early ∷ entry 1 50 ∷ entry 2 60 ∷ []

entries_ended : all_ended entries ≡ true
unfolding all_ended is_ended
entries_ended = refl

sorted :
    give_ranks (sort_entries 3 entries)
    ≡ record (entry 2 60) { rank = 1 }
      ∷ record (entry 1 50) { rank = 2 }
      ∷ record left_early { rank = 3 }
      ∷ []
unfolding give_ranks sort_entries exchange should_swap swap_dnf swap_finished swap_accuracy
    rank_from is_tied same_status
sorted = refl

sort_entries-IsSortOf_example : IsSortOf entries (sort_entries 3 entries)
sort_entries-IsSortOf_example = sort_entries-IsSortOf 3 entries refl entries_ended
