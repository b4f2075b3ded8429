-- ===== src/ToosType/Context/Tick/Ended.antt =====
-- src/toos_type_game_context.c: the end of a game finishes every player, so that the ranking is of ended games.
use libcore.Base.{
  ℕ, zero, suc, ◌+◌, ◌<◌, ◌≡◌, ◌≢◌, refl, ◌∙◌, arith, Bool, true, false, not, ◌||◌, ◌&&◌, List, [],
  ◌∷◌, ◌++◌, leb, ◌==◌, if◌then◌else◌, get_or, length, get_or-set_self, Bool-cases, inl, inr,
}
use libcore.ToosType.Context.{
  GameContext, PlayerState, no_player, emit_event, emit_room_config, RankingEntry, RoomConfig,
  game_over, final_ranking, room_config, finished,
}
use libcore.ToosType.Context.Play.{update_player_stats, put_player, is_unfinished}
use libcore.ToosType.Context.OneSlot.{OnlySlot, set-OnlySlot, same-OnlySlot}
use libcore.ToosType.Context.Tick.{expire_last, finish_player, finish_from, on_ended}
use libcore.ToosType.Context.Ranking.{entries_of, entry_of}
use libcore.ToosType.Context.Ranking.Order.{is_ended}
use libcore.ToosType.Context.Ranking.Sorted.{all_ended}
use libcore.ToosType.Context.Ranking.Ranks.{Ranked, better_than, give_ranks-sort_entries}
use libcore.ToosType.Context.Tick.Players.{
  player_numbers, entry_numbers, entry_numbers-entries_of, finish_from-player_numbers, SameEntries,
  ranking-SameEntries,
}

-- The player of a slot is not in the game any more, or there is none.
is_over : PlayerState → Bool
is_over p = not p.occupied || not (is_unfinished p)

expire_last-OnlySlot :
    (ctx : GameContext) (i : ℕ) → OnlySlot i ctx.players ((expire_last ctx i).players)
unfolding expire_last emit_event put_player
expire_last-OnlySlot ctx i =
    let p = get_or ctx.players i no_player in
    let same = same-OnlySlot ctx.players i in
    elim (Bool-cases
      (not (p.active_sentence_id == 0) && leb p.sentence_deadline_ms ctx.room.game_end_ms)) [
        | inl e ↦ rw (e) (set-OnlySlot ctx.players ctx.players i _ same)
        | inr e ↦ rw (e) same
      ]

finished_over : (p : PlayerState) → p.finish_status ≡ finished → is_over p ≡ true
unfolding is_over is_unfinished
finished_over p h = ground arith

finish_player_lem :
    (ctx : GameContext) (i : ℕ)
    → i < length ctx.players
    → OnlySlot i ctx.players ((finish_player ctx i).players)
      × (is_over (get_or ((finish_player ctx i).players) i no_player) ≡ true)
unfolding finish_player put_player update_player_stats OnlySlot
finish_player_lem ctx i h =
    let ps = (expire_last ctx i).players in
    let step = expire_last-OnlySlot ctx i in
    (
      set-OnlySlot ctx.players ps i _ step,
      rw (get_or-set_self ps i _ no_player (omega (arith, step.0))) (finished_over _ refl),
    )

OverBelow : ℕ → List PlayerState → Type 0
OverBelow i ps = (j : ℕ) → j < i → is_over (get_or ps j no_player) ≡ true

over_next :
    (ps qs : List PlayerState) (i : ℕ)
    → OnlySlot i ps qs
    → is_over (get_or qs i no_player) ≡ true
    → OverBelow i ps
    → OverBelow (i + 1) qs
unfolding OnlySlot OverBelow
over_next ps qs i (size, others) here before j m = elim (Bool-cases (i == j)) [
  | inl e ↦ let same : i ≡ j = ground arith in rw⁻¹ (same) here
  | inr e ↦
      let apart : i ≢ j = λ same. (ground arith) in
      let less : j < i = ground arith in rw (others j apart) (before j less)
]

already_over : (p : PlayerState) → (p.occupied && is_unfinished p) ≡ false → is_over p ≡ true
unfolding is_over
already_over p h = ground arith

one_finished :
    (ctx : GameContext) (i : ℕ)
    → i < length ctx.players
    → OverBelow i ctx.players
    → let p = get_or ctx.players i no_player in
      let ctx' = if p.occupied && is_unfinished p then finish_player ctx i else ctx in
      (length ctx'.players ≡ length ctx.players) × OverBelow (i + 1) ctx'.players
unfolding OnlySlot
one_finished ctx i l h =
    let p = get_or ctx.players i no_player in
    let (step, over) = finish_player_lem ctx i l in
    elim (Bool-cases (p.occupied && is_unfinished p)) [
      | inl e ↦ rw (e) (step.0, over_next ctx.players (finish_player ctx i).players i step over h)
      | inr e ↦
          let same = same-OnlySlot ctx.players i in
          rw (e) (refl, over_next ctx.players ctx.players i same (already_over p e) h)
    ]

-- The loop finishes all slots from `i` on, when those before are finished.
finish_from_lem :
    (n i : ℕ) (ctx : GameContext)
    → i + n ≡ length ctx.players
    → OverBelow i ctx.players
    → (length (finish_from n i ctx).players ≡ length ctx.players)
      × OverBelow (i + n) (finish_from n i ctx).players
unfolding finish_from OverBelow
finish_from_lem zero i ctx l h = (refl, λ j m. h j (omega (arith, m)))
finish_from_lem (suc n) i ctx l h =
    let p = get_or ctx.players i no_player in
    let (size, over) = one_finished ctx i (omega (arith, l)) h in
    let ctx' = if p.occupied && is_unfinished p then finish_player ctx i else ctx in
    let (size', all) = finish_from_lem n (i + 1) ctx' (omega (arith, l, size)) over in
    (size' ∙ size, λ j m. all j (omega (arith, m)))

entries_ended :
    (ps : List PlayerState)
    → ((j : ℕ) → j < length ps → is_over (get_or ps j no_player) ≡ true)
    → all_ended (entries_of ps) ≡ true
unfolding entries_of all_ended entry_of is_ended is_over is_unfinished
entries_ended [] h = refl
entries_ended (p ∷ ps) h =
    let first = h 0 (omega arith) in
    let rest = entries_ended ps (λ j m. h (suc j) (omega (arith, m))) in ground arith

-- At the end of a game no player that is ranked is still playing.
pub finish_from-ended :
    (ctx : GameContext)
    → all_ended (entries_of (finish_from (length ctx.players) 0 ctx).players) ≡ true
unfolding OverBelow
finish_from-ended ctx =
    let (size, all) =
      finish_from_lem (length ctx.players) 0 ctx (omega arith) (λ j m. absurd (omega (arith, m))) in
    entries_ended _ (λ j m. all j (omega (arith, m, size)))

-- The end of a game with the ranking it sends: the entries are those of the room's players, in their slots'
-- order, all of ended games; what is sent are these, each as often, with a rank that is one more than the
-- number of entries with a better grade.
pub Announced : GameContext → Type 0
Announced ctx =
    let done = finish_from (length ctx.players) 0 ctx in
    let entries = entries_of done.players in
    (ranked : List RankingEntry) × (config : RoomConfig) × ((on_ended ctx).events
      ≡ ((done.events ++ game_over ∷ []) ++ final_ranking ranked ∷ []) ++ room_config 0 config ∷ [])
    × (all_ended entries ≡ true)
    × Ranked (better_than entries) ranked
    × SameEntries ranked entries
    × (entry_numbers entries ≡ player_numbers ctx.players)

-- The end of a game sends one ranking with an entry for every player in the room and no other, whose games
-- have all ended: the rank of an entry is one more than the number of entries with a better grade.
pub on_ended-ranking : (ctx : GameContext) → Announced ctx
unfolding Announced on_ended emit_event emit_room_config
on_ended-ranking ctx =
    let ended = finish_from-ended ctx in
    (
      _,
      _,
      refl,
      ended,
      give_ranks-sort_entries _ ended,
      ranking-SameEntries _ ended,
      entry_numbers-entries_of _ ∙ finish_from-player_numbers (length ctx.players) 0 ctx,
    )
