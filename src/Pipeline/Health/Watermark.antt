-- ===== src/Pipeline/Health/Watermark.antt =====
-- internal/pipeline/data_health.go: the frame up to which a detector's findings are held back.
use nevr_anticheat.Prelude.{
  ℕ, ◌<◌, ◌≡◌, ◌∙◌, refl, sym, ap, true, List, [], ◌∷◌, inl, inr, arith, if◌then◌else◌, Bool-cases,
  String, some, subst,
}
use mathlib.Core.List.{Memᴰ}
use nevr_anticheat.Prelude.Int.{ℤ, ◌≤ℤ◌}
use nevr_anticheat.Prelude.Dict.{
  text_eq, text_eq_sound, text_eq_refl, lookup, insert, lookup-insert,
}
use nevr_anticheat.Prelude.Text.{contains_text}
use nevr_anticheat.Prelude.Float.{Float}
use nevr_anticheat.Pipeline.Faults.{
  Fault, invalid_hand_rotation, all_faults, Sample, health_affects, has_fault,
}
use nevr_anticheat.Pipeline.Health.{
  HealthEntry, counted, observe, observe_health, or_fresh_entry, live_faults, is_affected,
  affected_of, insert_all, has_capability,
}

-- A live fault of the list that affects the detector.
is_affected-live_faults :
    (left : Fault → ℕ) (id : String) (r : Fault) (rs : List Fault)
    → Memᴰ r rs
    → 0 < left r
    → health_affects r id ≡ true
    → is_affected (live_faults left rs) id ≡ true
unfolding live_faults is_affected
is_affected-live_faults left id r [] m l a = elim m [ ]
is_affected-live_faults left id r (q ∷ qs) (Memᴰ.head e) l a =
    let here : left q ≡ left r = ap left (sym e) in
    let same : health_affects q id ≡ health_affects r id = ap (λ t. health_affects t id) (sym e) in
    ground (arith, here, same, a)
is_affected-live_faults left id r (q ∷ qs) (Memᴰ.tail m) l a =
    let deeper = is_affected-live_faults left id r qs m l a in ground (arith, deeper)

all_faults_lem : (r : Fault) → Memᴰ r all_faults
all_faults_lem invalid_hand_rotation = Memᴰ.head refl
all_faults_lem r = search (Memᴰ.tail, Memᴰ.head) depth 13

contains-affected_of :
    (live : List Fault) (ids : List String) (id : String)
    → contains_text id ids ≡ true
    → has_capability id ≡ true
    → is_affected live id ≡ true
    → contains_text id (affected_of live ids) ≡ true
unfolding contains_text affected_of
contains-affected_of live [] id h c a = h
contains-affected_of live (j ∷ ids) id h c a = elim (Bool-cases (text_eq j id)) [
  | inl e ↦
      let same = text_eq_sound j id e in
      let hc : has_capability j ≡ true = ap has_capability same ∙ c in
      let ha : is_affected live j ≡ true = ap (is_affected live) same ∙ a in
      ground (arith, hc, ha, e)
  | inr e ↦
      let rest : contains_text id ids ≡ true = rw e at h in
      let deeper = contains-affected_of live ids id rest c a in ground (arith, e, deeper)
]

lookup-insert_all :
    (ids : List String) (id : String) (frame : ℤ) (m : List (String × ℤ))
    → lookup id (insert_all ids frame m)
      ≡ (if contains_text id ids then some frame else lookup id m)
unfolding insert_all contains_text
lookup-insert_all [] id frame m = refl
lookup-insert_all (j ∷ ids) id frame m =
    lookup-insert_all ids id frame (insert j frame m) ∙ ground (arith, lookup-insert j id frame m)

-- The detector is held back up to the frame at least.
pub record Covers (id : String) (frame : ℤ) (h : HealthEntry) : Type 0 where
  pub mark : ℤ
  pub marked : lookup id h.last_affected ≡ some mark
  pub reached : frame ≤ℤ mark
  pub recent : mark ≤ℤ h.summary.last_frame

-- The same, of the entry of a player among those of all.
pub record CoversIn (player id : String) (frame : ℤ) (health : List (String × HealthEntry))
    : Type 0 where
  pub entry : HealthEntry
  pub present : lookup player health ≡ some entry
  pub covered : Covers id frame entry

module _ {ℓ} {W : Type ℓ} ⦃f : Float W⦄ where
  observe-Covers :
      (max_dt : W) (ids : List String) (h : HealthEntry) (s : Sample W) (r : Fault) (id : String)
      → has_fault max_dt s r ≡ true
      → health_affects r id ≡ true
      → has_capability id ≡ true
      → contains_text id ids ≡ true
      → Covers id s.frame.frame_index (observe max_dt ids h s)
  unfolding observe
  observe-Covers max_dt ids h s r id shown affects able listed =
      let left = counted (has_fault max_dt s) h.faults in
      let live = live_faults left all_faults in
      let lives : 0 < left r = unfold counted in ground (arith, shown) in
      let hit =
        contains-affected_of live ids id listed able
          (is_affected-live_faults left id r all_faults (all_faults_lem r) lives affects) in
      record {
        mark = (observe max_dt ids h s).summary.last_frame;
        marked = lookup-insert_all (affected_of live ids) id _ h.last_affected ∙ rw hit refl;
        reached = ground arith;
        recent = ground arith;
      }

  keeps-Covers :
      (max_dt : W) (ids : List String) (h : HealthEntry) (s : Sample W) (id : String) (frame : ℤ)
      → Covers id frame h
      → Covers id frame (observe max_dt ids h s)
  unfolding observe
  keeps-Covers max_dt ids h s id frame c =
      let left = counted (has_fault max_dt s) h.faults in
      let affected = affected_of (live_faults left all_faults) ids in
      let last = (observe max_dt ids h s).summary.last_frame in
      let found = lookup-insert_all affected id last h.last_affected in
      let grown : h.summary.last_frame ≤ℤ last = ground arith in
      elim (Bool-cases (contains_text id affected)) [
        | inl hit ↦ record {
          mark = last;
          marked = found ∙ rw hit refl;
          reached = omega (arith, c.reached, c.recent, grown);
          recent = omega arith;
        }
        | inr miss ↦ record {
          mark = c.mark;
          marked = found ∙ rw miss c.marked;
          reached = c.reached;
          recent = omega (arith, c.recent, grown);
        }
      ]

  unfoldable pub observe_all :
      W → List String → List (String × HealthEntry) → List (Sample W) → List (String × HealthEntry)
  observe_all max_dt ids health [] = health
  observe_all max_dt ids health (s ∷ ss) =
      observe_all max_dt ids (observe_health max_dt ids health s) ss

  observe_health-CoversIn :
      (max_dt : W) (ids : List String) (health : List (String × HealthEntry)) (s : Sample W)
      (r : Fault) (id : String)
      → has_fault max_dt s r ≡ true
      → health_affects r id ≡ true
      → has_capability id ≡ true
      → contains_text id ids ≡ true
      → CoversIn s.frame.player_id id s.frame.frame_index (observe_health max_dt ids health s)
  unfolding observe_health
  observe_health-CoversIn max_dt ids health s r id shown affects able listed =
      let player = s.frame.player_id in
      let h = or_fresh_entry (lookup player health) in
      record {
        entry = observe max_dt ids h s;
        present = lookup-insert player player _ health ∙ rw (text_eq_refl player) refl;
        covered = observe-Covers max_dt ids h s r id shown affects able listed;
      }

  keeps-CoversIn :
      (max_dt : W) (ids : List String) (health : List (String × HealthEntry)) (s : Sample W)
      (player id : String) (frame : ℤ)
      → CoversIn player id frame health
      → CoversIn player id frame (observe_health max_dt ids health s)
  unfolding observe_health
  keeps-CoversIn max_dt ids health s player id frame c =
      let at = s.frame.player_id in
      let h = or_fresh_entry (lookup at health) in
      let found = lookup-insert at player (observe max_dt ids h s) health in
      elim (Bool-cases (text_eq at player)) [
        | inl e ↦
            let own : lookup at health ≡ some c.entry =
              ap (λ q. lookup q health) (text_eq_sound at player e) ∙ c.present in
            record {
              entry = observe max_dt ids h s;
              present = found ∙ rw e refl;
              covered = keeps-Covers max_dt ids h s id frame (rw own c.covered);
            }
        | inr e ↦ record { entry = c.entry; present = found ∙ rw e c.present; covered = c.covered }
      ]

  kept-CoversIn :
      (max_dt : W) (ids : List String) (ss : List (Sample W)) (health : List (String × HealthEntry))
      (player id : String) (frame : ℤ)
      → CoversIn player id frame health
      → CoversIn player id frame (observe_all max_dt ids health ss)
  unfolding observe_all
  kept-CoversIn max_dt ids [] health player id frame c = c
  kept-CoversIn max_dt ids (s ∷ ss) health player id frame c =
      kept-CoversIn max_dt ids ss (observe_health max_dt ids health s) player id frame
        (keeps-CoversIn max_dt ids health s player id frame c)

  -- A sample among those observed that shows a fault which affects a catalogued detector of the
  -- pipeline holds its player's findings of that detector back up to its frame, whatever samples of
  -- any players come before and after.
  pub observe_all-CoversIn :
      (max_dt : W) (ids : List String) (ss : List (Sample W)) (health : List (String × HealthEntry))
      (s : Sample W) (r : Fault) (id : String)
      → Memᴰ s ss
      → has_fault max_dt s r ≡ true
      → health_affects r id ≡ true
      → has_capability id ≡ true
      → contains_text id ids ≡ true
      → CoversIn s.frame.player_id id s.frame.frame_index (observe_all max_dt ids health ss)
  unfolding observe_all
  observe_all-CoversIn max_dt ids [] health s r id m shown affects able listed = elim m [ ]
  observe_all-CoversIn max_dt ids (t ∷ ss) health s r id (Memᴰ.head e) shown affects able listed =
      kept-CoversIn max_dt ids ss (observe_health max_dt ids health t) s.frame.player_id id
        s.frame.frame_index
        (subst
          (λ u.
            CoversIn s.frame.player_id id s.frame.frame_index (observe_health max_dt ids health u))
          e (observe_health-CoversIn max_dt ids health s r id shown affects able listed))
  observe_all-CoversIn max_dt ids (t ∷ ss) health s r id (Memᴰ.tail m) shown affects able listed =
      observe_all-CoversIn max_dt ids ss (observe_health max_dt ids health t) s r id m shown affects
        able listed
