-- ===== src/Model/Phase/Again.antt =====
-- internal/model/phase.go: a sample normalized again, as the mapper does for each player of a tick.
use nevr_anticheat.Prelude.{
  ◌≡◌, refl, sym, ap, ◌∙◌, String, Bool, true, false, inl, inr, arith, Bool-cases, if◌then◌else◌,
}
use mathlib.Core.Path.{subst}
use mathlib.Core.Bool.{true≢false}
use nevr_anticheat.Prelude.Dict.{text_eq, text_eq_refl}
use nevr_anticheat.Prelude.Text.{codes}
use nevr_anticheat.Prelude.Float.{Float, IsOrdered}
use nevr_anticheat.Model.Phase.{
  PhaseNormalizer, is_fallback, is_other_session, is_backwards, same_session, same_recording, enter,
  in_gap_at, gap_phase, read_unnamed, read_named, read, normalize, is_unnamed_game_status,
}

module _ {ℓ} {W : Type ℓ} where
  in_gap_at_again :
      (n : PhaseNormalizer W) (at : W) → in_gap_at (in_gap_at n at) at ≡ in_gap_at n at
  unfolding in_gap_at
  in_gap_at_again n at = elim (Bool-cases n.in_gap) [ inl g ↦ rw g refl | inr g ↦ rw g refl ]

  last_named-in_gap_at :
      (n : PhaseNormalizer W) (at : W) → (in_gap_at n at).last_named ≡ n.last_named
  unfolding in_gap_at
  last_named-in_gap_at n at = elim (Bool-cases n.in_gap) [ inl g ↦ rw g refl | inr g ↦ rw g refl ]

  is_fallback-in_gap_at :
      (n : PhaseNormalizer W) (at : W) → is_fallback (in_gap_at n at) ≡ is_fallback n
  unfolding is_fallback
  is_fallback-in_gap_at n at = rw (last_named-in_gap_at n at) refl

module _ {ℓ} {W : Type ℓ} ⦃f : Float W⦄ where
  read_unnamed-fallback :
      (n : PhaseNormalizer W) (at : W)
      → is_fallback n ≡ true
      → read_unnamed n at ≡ (n, codes "playing")
  unfolding read_unnamed
  read_unnamed-fallback n at e = rw e refl

  read_unnamed-gap :
      (n : PhaseNormalizer W) (at : W)
      → is_fallback n ≡ false
      → read_unnamed n at ≡ (in_gap_at n at, gap_phase (in_gap_at n at) at)
  unfolding read_unnamed
  read_unnamed-gap n at e = rw e refl

  read_unnamed_again :
      (n : PhaseNormalizer W) (at : W) → read_unnamed (read_unnamed n at).0 at ≡ read_unnamed n at
  read_unnamed_again n at = elim (Bool-cases (is_fallback n)) [
    | inl e ↦ let once = read_unnamed-fallback n at e in rw once once
    | inr e ↦
        let m = in_gap_at n at in
        rw (read_unnamed-gap n at e) (
          read_unnamed-gap m at (is_fallback-in_gap_at n at ∙ e)
          ∙ ap (λ (k : PhaseNormalizer W). (k, gap_phase k at)) (in_gap_at_again n at))
  ]

  read_again :
      (n : PhaseNormalizer W) (status : String) (at : W)
      → read (read n status at).0 status at ≡ read n status at
  unfolding read read_named
  read_again n status at = elim (Bool-cases (is_unnamed_game_status status)) [
    | inl e ↦ rw e (read_unnamed_again n at)
    | inr e ↦ rw e refl
  ]

  -- A state that a sample has been entered into.
  record IsEntered (n : PhaseNormalizer W) (session : String) (at : W) : Type ℓ where
    timed : n.have_time ≡ true
    at_time : n.last_time ≡ at
    in_session : (if text_eq session "" then n.session_id else session) ≡ n.session_id

  -- Reading a status leaves what the sample has entered.
  abbrev Same : PhaseNormalizer W → PhaseNormalizer W → Type ℓ
  Same m n =
      (m.have_time ≡ n.have_time) × (m.last_time ≡ n.last_time) × (m.session_id ≡ n.session_id)

  in_gap_at-Same : (n : PhaseNormalizer W) (at : W) → Same (in_gap_at n at) n
  unfolding in_gap_at
  in_gap_at-Same n at = elim (Bool-cases n.in_gap) [
    | inl g ↦ rw g (refl, refl, refl)
    | inr g ↦ rw g (refl, refl, refl)
  ]

  read_unnamed-Same : (n : PhaseNormalizer W) (at : W) → Same (read_unnamed n at).0 n
  read_unnamed-Same n at = elim (Bool-cases (is_fallback n)) [
    | inl e ↦ rw (read_unnamed-fallback n at e) (refl, refl, refl)
    | inr e ↦ rw (read_unnamed-gap n at e) (in_gap_at-Same n at)
  ]

  read-Same : (n : PhaseNormalizer W) (status : String) (at : W) → Same (read n status at).0 n
  unfolding read read_named
  read-Same n status at = elim (Bool-cases (is_unnamed_game_status status)) [
    | inl e ↦ rw e (read_unnamed-Same n at)
    | inr e ↦ rw e (refl, refl, refl)
  ]

  read-IsEntered :
      (n : PhaseNormalizer W) (session status : String) (at : W)
      → IsEntered n session at
      → IsEntered (read n status at).0 session at
  read-IsEntered n session status at h =
      let same = read-Same n status at in
      record {
        timed = same.0 ∙ h.timed;
        at_time = same.1 ∙ h.at_time;
        in_session = rw same.2 h.in_session;
      }

  lt_irrefl : IsOrdered W → (x : W) → f.lt x x ≡ false
  lt_irrefl o x = elim (Bool-cases (f.lt x x)) [
    | inl e ↦ absurd (true≢false (sym (o.le_of_lt x x e) ∙ o.not_le_of_lt x x e))
    | inr e ↦ e
  ]

  same_session-entered :
      (n : PhaseNormalizer W) (session : String)
      → (if text_eq session "" then n.session_id else session) ≡ n.session_id
      → same_session n session ≡ n
  unfolding same_session is_other_session
  same_session-entered n session h = elim (Bool-cases (text_eq session "")) [
    | inl e ↦ rw e refl
    | inr e ↦
        let same : session ≡ n.session_id = rw e at h in
        let equal : text_eq session n.session_id ≡ true =
          subst (λ x. text_eq session x ≡ true) same (text_eq_refl session) in
        let no : is_other_session n session ≡ false = ground (arith, equal) in rw no refl
  ]

  same_recording-entered :
      IsOrdered W
      → (n : PhaseNormalizer W) (session : String) (at : W) → IsEntered n session at
      → same_recording n session at ≡ n
  unfolding same_recording is_backwards
  same_recording-entered o n session at h =
      let forth : f.lt at n.last_time ≡ false = rw h.at_time (lt_irrefl o at) in
      rw (same_session-entered n session h.in_session, h.timed, forth) refl

  restored :
      (n : PhaseNormalizer W) (s : String) (b : Bool) (t : W)
      → s ≡ n.session_id
      → b ≡ n.have_time
      → t ≡ n.last_time
      → record n { session_id = s; have_time = b; last_time = t } ≡ n
  restored n s b t p q r = cc

  enter_again :
      IsOrdered W
      → (n : PhaseNormalizer W) (session : String) (at : W) → IsEntered n session at
      → enter n session at ≡ n
  unfolding enter
  enter_again o n session at h =
      rw (same_recording-entered o n session at h)
        (restored n _ true at h.in_session (sym h.timed) (sym h.at_time))

  enter-IsEntered :
      (n : PhaseNormalizer W) (session : String) (at : W)
      → IsEntered (enter n session at) session at
  unfolding enter
  enter-IsEntered n session at = record {
    timed = refl;
    at_time = refl;
    in_session = elim (Bool-cases (text_eq session "")) [ inl e ↦ rw e refl | inr e ↦ rw e refl ];
  }

  -- To normalize a sample again changes nothing: neither the phase nor what the normalizer remembers.
  pub normalize_again :
      IsOrdered W
      → (n : PhaseNormalizer W) (session status : String) (at : W)
      → normalize (normalize n session status at).0 session status at
        ≡ normalize n session status at
  unfolding normalize
  normalize_again o n session status at =
      rw
        (enter_again o _ session at
          (read-IsEntered _ session status at (enter-IsEntered n session at)))
        (read_again (enter n session at) status at)
