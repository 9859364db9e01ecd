-- ===== src/Scoring/Once.antt =====
-- An accepted event is scored once, and an event that is not accepted scores nothing.
use nevr_anticheat.Prelude.{
  ◌≡◌, sym, String, Bool, true, false, List, [], ◌∷◌, inl, inr, arith, Bool-cases,
}
use mathlib.Core.Path.{subst}
use mathlib.Core.Bool.{false≢true}
use nevr_anticheat.Prelude.Int.{ℤ}
use nevr_anticheat.Prelude.Dict.{
  text_eq, text_eq_refl, text_eq_sound, lookup, lookup-insert, lookup-insert_self,
}
use nevr_anticheat.Prelude.Text.{contains_text}
use nevr_anticheat.Prelude.Float.{Float}
use nevr_anticheat.Model.Event.{DetectionEvent}
use nevr_anticheat.Model.Score.{SuspicionScore}
use nevr_anticheat.Scoring.Scorer.{Scorer, get_or_create, put_player}
use nevr_anticheat.Scoring.Gates.{ids_of, is_seen}
use nevr_anticheat.Scoring.Ingest.{
  Outcome, refused, framed, scored, ingest, conclude, outcome_of, accept, mark_seen,
}
use nevr_anticheat.Scoring.Bonus.{apply_correlation_bonus, apply_decay}
use nevr_anticheat.Scoring.History.{
  Call, ingests, bonuses, decays, starts, resets, call, history, set_match_start,
}

-- The player has an accepted event of that id.
abbrev pub knows : String → String → List (String × List String) → Bool
knows player id seen = contains_text id (ids_of (lookup player seen))

mark_seen_mono :
    (player id p i : String) (seen : List (String × List String))
    → knows player id seen ≡ true
    → knows player id (mark_seen p i seen) ≡ true
unfolding mark_seen contains_text
mark_seen_mono player id p i seen h = elim (Bool-cases (text_eq i "")) [
  | inl e ↦ rw e h
  | inr e ↦
      rw (e, lookup-insert)
        (elim (Bool-cases (text_eq p player)) [
          | inl same ↦
              rw same
                (either (subst (λ q. knows q id seen ≡ true) (sym (text_eq_sound p player same)) h))
          | inr other ↦ rw other h
        ])
]
  where
    either : knows p id seen ≡ true → contains_text id (i ∷ ids_of (lookup p seen)) ≡ true
    either k = ground arith

mark_seen_new :
    (player id : String) (seen : List (String × List String))
    → text_eq id "" ≡ false
    → knows player id (mark_seen player id seen) ≡ true
unfolding mark_seen contains_text
mark_seen_new player id seen h = rw (h, lookup-insert_self, text_eq_refl id)

module _ {ℓ} {W : Type ℓ} ⦃f : Float W⦄ where
  conclude-knows :
      (o : Outcome) (now snapshot : ℤ) (s : Scorer W) (sc : SuspicionScore W) (e : DetectionEvent W)
      (player id : String)
      → knows player id s.seen_events ≡ true
      → knows player id (conclude o now snapshot s sc e).0.seen_events ≡ true
  unfolding conclude accept put_player
  conclude-knows refused now snapshot s sc e player id h = h
  conclude-knows framed now snapshot s sc e player id h = h
  conclude-knows scored now snapshot s sc e player id h =
      mark_seen_mono player id e.player_id e.event_id s.seen_events h

  -- No call of Reset, which forgets the ids.
  abbrev pub NoReset : List (Call W) → Type 0
  NoReset [] = Unit
  NoReset (ingests now snapshot e ∷ cs) = NoReset cs
  NoReset (bonuses ∷ cs) = NoReset cs
  NoReset (decays now ∷ cs) = NoReset cs
  NoReset (starts at ∷ cs) = NoReset cs
  NoReset (resets ∷ cs) = ⊥

  call-knows :
      (s : Scorer W) (c : Call W) (cs : List (Call W)) (player id : String)
      → NoReset (c ∷ cs)
      → knows player id s.seen_events ≡ true
      → knows player id (call s c).seen_events ≡ true
  unfolding call ingest apply_correlation_bonus apply_decay set_match_start
  call-knows s (ingests now snapshot e) cs player id n h =
      conclude-knows _ now snapshot s _ e player id h
  call-knows s bonuses cs player id n h = h
  call-knows s (decays now) cs player id n h = ground arith
  call-knows s (starts at) cs player id n h = h
  call-knows s resets cs player id n h = absurd n

  NoReset-tail : (c : Call W) (cs : List (Call W)) → NoReset (c ∷ cs) → NoReset cs
  NoReset-tail (ingests now snapshot e) cs n = n
  NoReset-tail bonuses cs n = n
  NoReset-tail (decays now) cs n = n
  NoReset-tail (starts at) cs n = n
  NoReset-tail resets cs n = absurd n

  history-knows :
      (s : Scorer W) (cs : List (Call W)) (player id : String)
      → NoReset cs
      → knows player id s.seen_events ≡ true
      → knows player id (history s cs).seen_events ≡ true
  unfolding history
  history-knows s [] player id n h = h
  history-knows s (c ∷ cs) player id n h =
      history-knows (call s c) cs player id (NoReset-tail c cs n) (call-knows s c cs player id n h)

  conclude_learns :
      (o : Outcome) (now snapshot : ℤ) (s : Scorer W) (sc : SuspicionScore W) (e : DetectionEvent W)
      → text_eq e.event_id "" ≡ false
      → (conclude o now snapshot s sc e).2 ≡ true
      → knows e.player_id e.event_id (conclude o now snapshot s sc e).0.seen_events ≡ true
  unfolding conclude accept put_player
  conclude_learns refused now snapshot s sc e h a = absurd (false≢true a)
  conclude_learns framed now snapshot s sc e h a = absurd (false≢true a)
  conclude_learns scored now snapshot s sc e h a =
      mark_seen_new e.player_id e.event_id s.seen_events h

  known_refused :
      (now snapshot : ℤ) (s : Scorer W) (e : DetectionEvent W)
      → text_eq e.event_id "" ≡ false
      → knows e.player_id e.event_id s.seen_events ≡ true
      → ingest now snapshot s e
        ≡ (let sc = get_or_create s e.player_id in (put_player s e.player_id sc, sc, false))
  unfolding ingest outcome_of is_seen conclude
  known_refused now snapshot s e h k = rw (h, k) (ground arith)

  -- Once an event with an id has been accepted, the same id of the same player is never accepted
  -- again until a reset: after any further calls without a reset it leaves the player's record as it is.
  pub ingest_once :
      (now snapshot later snapshot' : ℤ) (s : Scorer W) (e again : DetectionEvent W)
      (between : List (Call W))
      → NoReset between
      → text_eq e.event_id "" ≡ false
      → again.event_id ≡ e.event_id
      → again.player_id ≡ e.player_id
      → (ingest now snapshot s e).2 ≡ true
      → let s' = history (ingest now snapshot s e).0 between in
        let sc = get_or_create s' again.player_id in
        ingest later snapshot' s' again ≡ (put_player s' again.player_id sc, sc, false)
  ingest_once now snapshot later snapshot' s e again between n h same player a =
      known_refused later snapshot' _ again (rw same h) (
        rw (same, player)
          (history-knows _ between e.player_id e.event_id n
            (unfold ingest in conclude_learns _ now snapshot s _ e h a)))
