-- ===== src/ToosType/Context/Ranking.antt =====
-- src/toos_type_game_context.c: the ranking at the end of a game, the part of
-- `ToosTypeGameContext_tick` that sorts the entries and gives the ranks.
pub mod Order
pub mod Sorted
pub mod Ranks
use libcore.Base.{
  ℕ, zero, suc, ◌+◌, Bool, true, false, not, ◌||◌, ◌&&◌, List, [], ◌∷◌, ltb, ◌==◌, if◌then◌else◌,
}
use libcore.ToosType.Context.{PlayerState, RankingEntry, FinishStatus, unfinished, finished, dnf}

unfoldable pub entry_of : PlayerState → RankingEntry
entry_of p = record {
  rank = 0;
  player_no = p.player_no;
  status = p.finish_status;
  played_ms = p.played_ms;
  play_score = p.play_score;
  phase_score = p.phase_score;
  accuracy_score = p.accuracy_score;
  accuracy_x100 = p.accuracy_x100;
  total_score = p.total_score;
  wpm = p.wpm;
}

unfoldable pub entries_of : List PlayerState → List RankingEntry
entries_of [] = []
entries_of (p ∷ ps) = if p.occupied then entry_of p ∷ entries_of ps else entries_of ps

-- The tests that both comparisons end with.
unfoldable pub swap_accuracy : RankingEntry → RankingEntry → Bool
swap_accuracy e1 e2 =
    if ltb e1.accuracy_x100 e2.accuracy_x100
    then true
    else if not (e2.accuracy_x100 == e1.accuracy_x100)
    then false
    else if ltb e1.phase_score e2.phase_score
    then true
    else if not (e2.phase_score == e1.phase_score)
    then false
    else if ltb e1.wpm e2.wpm
    then true
    else e2.wpm == e1.wpm && ltb e2.player_no e1.player_no

unfoldable pub swap_finished : RankingEntry → RankingEntry → Bool
swap_finished e1 e2 =
    if ltb e1.total_score e2.total_score
    then true
    else if not (e2.total_score == e1.total_score)
    then false
    else swap_accuracy e1 e2

unfoldable pub swap_dnf : RankingEntry → RankingEntry → Bool
swap_dnf e1 e2 =
    if ltb e1.total_score e2.total_score
    then true
    else if not (e2.total_score == e1.total_score)
    then false
    else if ltb e1.played_ms e2.played_ms
    then true
    else if not (e2.played_ms == e1.played_ms)
    then false
    else swap_accuracy e1 e2

unfoldable pub should_swap : RankingEntry → RankingEntry → Bool
should_swap e1 e2 = elim e1.status [
  | dnf ↦ elim e2.status [ finished ↦ true | dnf ↦ swap_dnf e1 e2 | _ ↦ false ]
  | finished ↦ elim e2.status [ finished ↦ swap_finished e1 e2 | _ ↦ false ]
  | _ ↦ false
]

-- The inner loop: `e` is `entries[i]`, the list is what follows it.
unfoldable pub exchange : RankingEntry → List RankingEntry → RankingEntry × List RankingEntry
exchange e [] = (e, [])
exchange e (x ∷ xs) =
    let swap = should_swap e x in
    let (first, rest) = exchange (if swap then x else e) xs in
    (first, (if swap then e else x) ∷ rest)

-- The outer loop, `n` entries from `i` on.
unfoldable pub sort_entries : ℕ → List RankingEntry → List RankingEntry
sort_entries zero es = es
sort_entries (suc n) [] = []
sort_entries (suc n) (e ∷ es) = let (first, rest) = exchange e es in first ∷ sort_entries n rest

unfoldable pub same_status : FinishStatus → FinishStatus → Bool
same_status a b = elim a [
  | unfinished ↦ elim b [ unfinished ↦ true | _ ↦ false ]
  | finished ↦ elim b [ finished ↦ true | _ ↦ false ]
  | dnf ↦ elim b [ dnf ↦ true | _ ↦ false ]
]

unfoldable pub is_tied : RankingEntry → RankingEntry → Bool
is_tied prev curr =
    same_status curr.status prev.status
    && curr.total_score == prev.total_score
    && (same_status curr.status finished || curr.played_ms == prev.played_ms)
    && curr.accuracy_x100 == prev.accuracy_x100
    && curr.phase_score == prev.phase_score
    && curr.wpm == prev.wpm

-- The loop from index `i` on, behind the entry `prev`.
unfoldable pub rank_from : RankingEntry → ℕ → List RankingEntry → List RankingEntry
rank_from prev i [] = []
rank_from prev i (e ∷ es) =
    let curr : RankingEntry = record e { rank = if is_tied prev e then prev.rank else i + 1 } in
    curr ∷ rank_from curr (i + 1) es

unfoldable pub give_ranks : List RankingEntry → List RankingEntry
give_ranks [] = []
give_ranks (e ∷ es) =
    let first : RankingEntry = record e { rank = 1 } in first ∷ rank_from first 1 es
