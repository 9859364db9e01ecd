-- ===== src/Model/Phase.antt =====
-- internal/model/phase.go: the phase of the game, from the statuses that a recording reports. Statuses
-- and phases are lists of code points.
pub mod Again
use nevr_anticheat.Prelude.{
  ℕ, ◌+◌, String, Bool, true, false, not, ◌&&◌, ◌||◌, List, [], ◌∷◌, ◌++◌, map, ltb, leb, ◌==◌,
  if◌then◌else◌,
}
use nevr_anticheat.Prelude.Dict.{text_eq}
use nevr_anticheat.Prelude.Text.{codes, same_codes}
use nevr_anticheat.Prelude.Float.{Float, lit}

-- unicode.IsSpace
unfoldable pub is_space : ℕ → Bool
is_space c =
    (leb 9 c && leb c 13)
    || (c == 32
        || (c == 0x85
            || (c == 0xa0
                || (c == 0x1680
                    || ((leb 0x2000 c && leb c 0x200a)
                        || (c == 0x2028
                            || (c == 0x2029 || (c == 0x202f || (c == 0x205f || c == 0x3000)))))))))

unfoldable pub trim_left : List ℕ → List ℕ
trim_left [] = []
trim_left (c ∷ cs) = let rest = trim_left cs in if is_space c then rest else c ∷ cs

unfoldable pub trim_right : List ℕ → List ℕ
trim_right [] = []
trim_right (c ∷ cs) = ending c (trim_right cs)
  where
    ending : ℕ → List ℕ → List ℕ
    ending c [] = if is_space c then [] else c ∷ []
    ending c (d ∷ ds) = c ∷ d ∷ ds

-- strings.ToLower(strings.TrimSpace(s)), the letters being A to Z.
unfoldable pub lowered : String → List ℕ
lowered s =
    map (λ c. if leb b'A' c && leb c b'Z' then c + 32 else c) (trim_right (trim_left (codes s)))

abbrev pub is_one_of : List ℕ → List String → Bool
is_one_of s [] = false
is_one_of s (t ∷ ts) = same_codes s (codes t) || is_one_of s ts

-- IsActiveGamePhase
unfoldable pub is_active_game_phase : List ℕ → Bool
is_active_game_phase phase =
    is_one_of phase ("playing" ∷ "round" ∷ "overtime" ∷ "sudden_death" ∷ "" ∷ [])

-- IsUnnamedGameStatus
unfoldable pub is_unnamed_game_status : String → Bool
is_unnamed_game_status status =
    is_one_of (lowered status) ("" ∷ "unknown" ∷ "unspecified" ∷ "game_status_unspecified" ∷ [])

-- mapNamedGameStatus
unfoldable pub map_named_game_status : List ℕ → List ℕ
map_named_game_status lower = if same_codes lower (codes "score") then codes "round_over" else lower

pub record PhaseNormalizer {ℓ} (W : Type ℓ) : Type ℓ where
  pub session_id : String
  pub last_named : List ℕ
  pub last_score : Bool
  pub have_time : Bool
  pub last_time : W
  pub in_gap : Bool
  pub gap_start : W

module _ {ℓ} {W : Type ℓ} where
  unfoldable pub is_fallback : PhaseNormalizer W → Bool
  is_fallback n = same_codes n.last_named [] || is_active_game_phase n.last_named

  unfoldable pub read_named : PhaseNormalizer W → List ℕ → PhaseNormalizer W × List ℕ
  read_named n named =
      let phase = map_named_game_status named in
      (
        record n {
          in_gap = false;
          last_score = same_codes named (codes "score");
          last_named = phase;
        },
        phase,
      )

  unfoldable pub is_other_session : PhaseNormalizer W → String → Bool
  is_other_session n session =
      not (text_eq session "")
      && (not (text_eq n.session_id "") && not (text_eq session n.session_id))

  -- Reading an unnamed status.
  unfoldable pub in_gap_at : PhaseNormalizer W → W → PhaseNormalizer W
  in_gap_at n at = if n.in_gap then n else record n { in_gap = true; gap_start = at }

module _ {ℓ} {W : Type ℓ} ⦃f : Float W⦄ where
  -- Reset
  unfoldable pub reset : PhaseNormalizer W
  reset = record {
    session_id = "";
    last_named = [];
    last_score = false;
    have_time = false;
    last_time = lit 0;
    in_gap = false;
    gap_start = lit 0;
  }

  unfoldable pub is_backwards : PhaseNormalizer W → W → Bool
  is_backwards n at = n.have_time && f.lt at n.last_time

  -- What a sample's session and time leave of the state, before its status is read.
  unfoldable pub same_session : PhaseNormalizer W → String → PhaseNormalizer W
  same_session n session = if is_other_session n session then reset else n

  unfoldable pub same_recording : PhaseNormalizer W → String → W → PhaseNormalizer W
  same_recording n session at =
      let m = same_session n session in if is_backwards m at then reset else m

  unfoldable pub enter : PhaseNormalizer W → String → W → PhaseNormalizer W
  enter n session at =
      let k = same_recording n session at in
      record k {
        session_id = if text_eq session "" then k.session_id else session;
        have_time = true;
        last_time = at;
      }

  unfoldable pub gap_phase : PhaseNormalizer W → W → List ℕ
  gap_phase n at =
      if f.lt (lit 15) (f.sub at n.gap_start)
      then codes "playing"
      else if n.last_score
      then codes "post_score_gap"
      else codes "pre_round_gap"

  unfoldable pub read_unnamed : PhaseNormalizer W → W → PhaseNormalizer W × List ℕ
  read_unnamed n at =
      if is_fallback n
      then (n, codes "playing")
      else (in_gap_at n at, gap_phase (in_gap_at n at) at)

  unfoldable pub read : PhaseNormalizer W → String → W → PhaseNormalizer W × List ℕ
  read n status at =
      if is_unnamed_game_status status then read_unnamed n at else read_named n (lowered status)

  -- Normalize
  unfoldable pub normalize : PhaseNormalizer W → String → String → W → PhaseNormalizer W × List ℕ
  normalize n session status at = read (enter n session at) status at
