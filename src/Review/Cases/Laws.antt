-- ===== src/Review/Cases/Laws.antt =====
-- internal/review/queue.go: a case is built on the player's own events that are not shadow.
use nevr_anticheat.Prelude.{
  ◌≡◌, ◌≢◌, ◌⊎◌, refl, sym, ap, ◌∙◌, String, Bool, true, false, not, ◌&&◌, Option, none, some, List,
  [], ◌∷◌, ◌++◌, inl, inr, Bool-cases, if◌then◌else◌,
}
use mathlib.Core.List.{Memᴰ}
use mathlib.Core.Path.{subst}
use nevr_anticheat.Prelude.Dict.{text_eq, text_eq_sound, lookup, insert, lookup-insert}
use nevr_anticheat.Prelude.Float.{Float}
use nevr_anticheat.Model.Level.{
  LevelTable, ScoringLevel, level_for, at_least, is_zero, default_table,
}
use nevr_anticheat.Model.Event.{DetectionEvent}
use nevr_anticheat.Model.Score.{SuspicionScore}
use nevr_anticheat.Enforce.Evidence.{player_events}
use nevr_anticheat.Review.Cases.{
  MatchResult, Candidate, events_of, group, candidate_of, candidates, build_cases,
}

module _ {ℓ} {W : Type ℓ} where
  append_assoc : (xs ys zs : List (DetectionEvent W)) → (xs ++ ys) ++ zs ≡ xs ++ (ys ++ zs)
  append_assoc [] ys zs = refl
  append_assoc (x ∷ xs) ys zs = ap (◌∷◌ x) (append_assoc xs ys zs)

  append-nil : (xs : List (DetectionEvent W)) → xs ++ [] ≡ xs
  append-nil [] = refl
  append-nil (x ∷ xs) = ap (◌∷◌ x) (append-nil xs)

  abbrev grouped :
      DetectionEvent W
      → List (String × List (DetectionEvent W))
      → List (String × List (DetectionEvent W))
  grouped e groups = insert e.player_id (events_of e.player_id groups ++ e ∷ []) groups

  group_step :
      (e : DetectionEvent W) (es : List (DetectionEvent W))
      (groups : List (String × List (DetectionEvent W))) (b : Bool)
      → e.is_shadow ≡ b
      → group groups (e ∷ es) ≡ group (if b then groups else grouped e groups) es
  unfolding group
  group_step e es groups b h = ap (λ c. group (if c then groups else grouped e groups) es) h

  player_events_step :
      (player : String) (e : DetectionEvent W) (es : List (DetectionEvent W)) (b : Bool)
      → e.is_shadow ≡ b
      → player_events player (e ∷ es) ≡ (
          if text_eq e.player_id player && not b
          then e ∷ player_events player es
          else player_events player es)
  unfolding player_events
  player_events_step player e es b h =
      ap
        (λ c.
          if text_eq e.player_id player && not c
          then e ∷ player_events player es
          else player_events player es)
        h

  events_of-grouped :
      (player : String) (e : DetectionEvent W) (groups : List (String × List (DetectionEvent W)))
      → events_of player (grouped e groups) ≡ (
          if text_eq e.player_id player
          then events_of player groups ++ e ∷ []
          else events_of player groups)
  unfolding events_of
  events_of-grouped player e groups =
      let found =
        lookup-insert e.player_id player (events_of e.player_id groups ++ e ∷ []) groups in
      elim (Bool-cases (text_eq e.player_id player)) [
        | inl own ↦
            rw (found, own)
              (ap (λ p. events_of p groups ++ e ∷ []) (text_eq_sound e.player_id player own))
        | inr other ↦ rw (found, other) refl
      ]

  events_of-group :
      (player : String) (es : List (DetectionEvent W))
      (groups : List (String × List (DetectionEvent W)))
      → events_of player (group groups es) ≡ events_of player groups ++ player_events player es
  unfolding group player_events
  events_of-group player [] groups = sym (append-nil _)
  events_of-group player (e ∷ es) groups = elim (Bool-cases e.is_shadow) [
    | inl s ↦
        rw (group_step e es groups true s, player_events_step player e es true s)
          (elim (Bool-cases (text_eq e.player_id player)) [
            | inl own ↦ rw own (events_of-group player es groups)
            | inr other ↦ rw other (events_of-group player es groups)
          ])
    | inr s ↦
        rw (group_step e es groups false s, player_events_step player e es false s)
          (events_of-group player es (grouped e groups)
            ∙ elim (Bool-cases (text_eq e.player_id player)) [
              | inl own ↦
                  rw (events_of-grouped player e groups, own)
                    (append_assoc (events_of player groups) (e ∷ []) (player_events player es))
              | inr other ↦ rw (events_of-grouped player e groups, other) refl
            ])
  ]

-- A case is for a player with a score of the level or more, on all own events that are not shadow, in
-- their order, of which there is at least one.
pub record IsGrounded {ℓ} {W : Type ℓ} ⦃f : Float W⦄ (table : LevelTable W) (min : ScoringLevel)
    (result : MatchResult W) (c : Candidate W) : Type ℓ where
  scored : lookup c.candidate_player result.player_scores ≡ some c.candidate_score
  high : at_least (level_for table c.candidate_score.total_score) min ≡ true
  own : c.candidate_events ≡ player_events c.candidate_player result.detection_events
  some_event : c.candidate_events ≢ []

member_append {ℓ} :
    {A : Type ℓ} (xs ys : List A) (c : A) → Memᴰ c (xs ++ ys) → Memᴰ c xs ⊎ Memᴰ c ys
member_append [] ys c m = inr m
member_append (x ∷ xs) ys c (Memᴰ.head p) = inl (Memᴰ.head p)
member_append (x ∷ xs) ys c (Memᴰ.tail m) = elim (member_append xs ys c m) [
  | inl l ↦ inl (Memᴰ.tail l)
  | inr r ↦ inr r
]

member_single {ℓ} : {A : Type ℓ} (x c : A) → Memᴰ c (x ∷ []) → c ≡ x
member_single x c (Memᴰ.head p) = p
member_single x c (Memᴰ.tail m) = elim m [ ]

cons-ne-nil {ℓ} : {A : Type ℓ} (x : A) (xs : List A) → x ∷ xs ≢ []
cons-ne-nil x xs e = cc

no_member {ℓ} : {A : Type ℓ} {c : A} → Memᴰ c [] → ⊥
no_member m = elim m [ ]

module _ {ℓ} {W : Type ℓ} ⦃f : Float W⦄ where
  candidate_of-IsGrounded :
      (table : LevelTable W) (min : ScoringLevel) (result : MatchResult W) (player : String)
      (es : List (DetectionEvent W)) (o : Option (SuspicionScore W)) (c : Candidate W)
      → lookup player result.player_scores ≡ o
      → es ≡ player_events player result.detection_events
      → Memᴰ c (candidate_of table min player es o)
      → IsGrounded table min result c
  unfolding candidate_of
  candidate_of-IsGrounded table min result player [] o c h k m = elim m [ ]
  candidate_of-IsGrounded table min result player (e ∷ es) none c h k m = elim m [ ]
  candidate_of-IsGrounded table min result player (e ∷ es) (some score) c h k m =
      elim (Bool-cases (at_least (level_for table score.total_score) min)) [
        | inl high ↦
            let whole : Candidate W = record {
              candidate_player = player;
              candidate_score = score;
              candidate_events = e ∷ es;
            } in
            let same = member_single whole c (rw high at m) in
            subst (IsGrounded table min result) (sym same)
              (record { scored = h; high = high; own = k; some_event = cons-ne-nil e es })
        | inr low ↦ absurd (no_member (rw low at m))
      ]

  candidates-IsGrounded :
      (table : LevelTable W) (min : ScoringLevel) (result : MatchResult W) (players : List String)
      (c : Candidate W)
      → Memᴰ c (candidates table min result (group [] result.detection_events) players)
      → IsGrounded table min result c
  unfolding candidates player_events events_of lookup
  candidates-IsGrounded table min result [] c m = absurd (no_member m)
  candidates-IsGrounded table min result (player ∷ players) c m = elim (member_append _ _ c m) [
    | inl here ↦
        candidate_of-IsGrounded table min result player _ _ c refl
          (events_of-group player result.detection_events []) here
    | inr later ↦ candidates-IsGrounded table min result players c later
  ]

  -- Every case built from a match result is for a player whose score is of the level or more in the
  -- table, the default one where the table is the zero table, and stands on exactly the player's own
  -- events that are not shadow, in their order, of which there is at least one.
  pub build_cases-IsGrounded :
      (table : LevelTable W) (min : ScoringLevel) (result : MatchResult W) (c : Candidate W)
      → Memᴰ c (build_cases table min result)
      → IsGrounded (if is_zero table then default_table else table) min result c
  unfolding build_cases
  build_cases-IsGrounded table min result c m = candidates-IsGrounded _ min result _ c m
