-- ===== src/ToosType/Context/Tick/Players.antt =====
-- src/toos_type_game_context.c: the ranking at the end of a game has the players of the room.
use libcore.Base.{
  ℕ, zero, suc, ◌+◌, ◌≡◌, refl, ◌∙◌, arith, Bool, true, not, ◌&&◌, List, [], ◌∷◌, leb, ◌==◌,
  if◌then◌else◌, get_or, set, length, Bool-cases, inl, inr,
}
use libcore.ToosType.Context.{GameContext, PlayerState, no_player, emit_event, RankingEntry}
use libcore.ToosType.Context.Play.{update_player_stats, put_player, cleared, is_unfinished}
use libcore.ToosType.Context.Tick.{expire_last, finish_player, finish_from}
use libcore.ToosType.Context.Ranking.{
  entries_of, entry_of, sort_entries, give_ranks, rank_from, is_tied,
}
use libcore.ToosType.Context.Ranking.Sorted.{all_ended, tally_by, IsSortOf, sort_entries-IsSortOf}

-- The numbers of the players of a room, and of entries.
pub player_numbers : List PlayerState → List ℕ
player_numbers [] = []
player_numbers (p ∷ ps) =
    let rest = player_numbers ps in if p.occupied then p.player_no ∷ rest else rest

pub entry_numbers : List RankingEntry → List ℕ
entry_numbers [] = []
entry_numbers (e ∷ es) = e.player_no ∷ entry_numbers es

pub entry_numbers-entries_of :
    (ps : List PlayerState) → entry_numbers (entries_of ps) ≡ player_numbers ps
unfolding entry_numbers entries_of player_numbers entry_of
entry_numbers-entries_of [] = refl
entry_numbers-entries_of (p ∷ ps) = let ih = entry_numbers-entries_of ps in ground arith

player_numbers-set :
    (ps : List PlayerState) (i : ℕ) (q : PlayerState)
    → q.occupied ≡ (get_or ps i no_player).occupied
    → q.player_no ≡ (get_or ps i no_player).player_no
    → player_numbers (set ps i q) ≡ player_numbers ps
unfolding player_numbers
player_numbers-set [] i q o n = refl
player_numbers-set (p ∷ ps) zero q o n = ground arith
player_numbers-set (p ∷ ps) (suc i) q o n = let ih = player_numbers-set ps i q o n in ground arith

expire_last-player_numbers :
    (ctx : GameContext) (i : ℕ)
    → player_numbers ((expire_last ctx i).players) ≡ player_numbers ctx.players
unfolding expire_last emit_event put_player cleared
expire_last-player_numbers ctx i =
    let p = get_or ctx.players i no_player in
    elim (Bool-cases
      (not (p.active_sentence_id == 0) && leb p.sentence_deadline_ms ctx.room.game_end_ms)) [
        | inl e ↦ rw (e) (player_numbers-set ctx.players i _ refl refl)
        | inr e ↦ rw (e) refl
      ]

finish_player-player_numbers :
    (ctx : GameContext) (i : ℕ)
    → player_numbers ((finish_player ctx i).players) ≡ player_numbers ctx.players
unfolding finish_player put_player update_player_stats
finish_player-player_numbers ctx i =
    player_numbers-set ((expire_last ctx i).players) i _ refl refl
    ∙ expire_last-player_numbers ctx i

one_finished-player_numbers :
    (ctx : GameContext) (i : ℕ)
    → let p = get_or ctx.players i no_player in
      player_numbers ((if p.occupied && is_unfinished p then finish_player ctx i else ctx).players)
      ≡ player_numbers ctx.players
one_finished-player_numbers ctx i =
    let p = get_or ctx.players i no_player in
    elim (Bool-cases (p.occupied && is_unfinished p)) [
      | inl e ↦ rw (e) (finish_player-player_numbers ctx i)
      | inr e ↦ rw (e) refl
    ]

pub finish_from-player_numbers :
    (n i : ℕ) (ctx : GameContext)
    → player_numbers ((finish_from n i ctx).players) ≡ player_numbers ctx.players
unfolding finish_from
finish_from-player_numbers zero i ctx = refl
finish_from-player_numbers (suc n) i ctx =
    let p = get_or ctx.players i no_player in
    let ctx' = if p.occupied && is_unfinished p then finish_player ctx i else ctx in
    finish_from-player_numbers n (i + 1) ctx' ∙ one_finished-player_numbers ctx i

-- An entry without its rank.
pub unranked : RankingEntry → RankingEntry
unranked e = record e { rank = 0 }

-- Two lists of entries have the same ones, each as often, but for the ranks.
pub SameEntries : List RankingEntry → List RankingEntry → Type 0
SameEntries es fs =
    (test : RankingEntry → Bool)
    → tally_by (λ e. test (unranked e)) es ≡ tally_by (λ e. test (unranked e)) fs

rank_from-SameEntries :
    (prev : RankingEntry) (i : ℕ) (es : List RankingEntry) → SameEntries (rank_from prev i es) es
unfolding SameEntries rank_from tally_by unranked
rank_from-SameEntries prev i [] test = refl
rank_from-SameEntries prev i (e ∷ es) test =
    let ih =
      rank_from-SameEntries (record e { rank = if is_tied prev e then prev.rank else i + 1 })
        (i + 1) es test in
    rw (ih) refl

give_ranks-SameEntries : (es : List RankingEntry) → SameEntries (give_ranks es) es
unfolding SameEntries give_ranks tally_by unranked
give_ranks-SameEntries [] test = refl
give_ranks-SameEntries (e ∷ es) test =
    let ih = rank_from-SameEntries (record e { rank = 1 }) 1 es test in rw (ih) refl

pub ranking-SameEntries :
    (es : List RankingEntry)
    → all_ended es ≡ true
    → SameEntries (give_ranks (sort_entries (length es) es)) es
unfolding SameEntries IsSortOf
ranking-SameEntries es h test =
    give_ranks-SameEntries (sort_entries (length es) es) test
    ∙ (sort_entries-IsSortOf (length es) es refl h).1 (λ e. test (unranked e))
