-- ===== src/Bridge/Epoch.antt =====
-- cmd/bridge/epoch.go: frame epochs and their registry. Wall-clock times and durations are integers of
-- nanoseconds, the zero time is 0, and the locks make each operation one step.
use nevr_anticheat.Prelude.{
  ℕ, suc, ◌-◌, ◌/◌, ◌%◌, String, Bool, not, ◌&&◌, Option, none, some, List, [], ◌∷◌, length,
  if◌then◌else◌,
}
use mathlib.Core.Option
use nevr_anticheat.Prelude.Int.{ℤ, pos, negsuc, ◌-ℤ◌, ltb_ℤ}
use nevr_anticheat.Prelude.Dict.{text_eq, lookup, insert, retain}
use nevr_anticheat.Prelude.Float.{Float, lit}
use nevr_anticheat.Scoring.Scorer.{is_zero_time}

-- What a clone of Observation or of GameLastThrowProvenance binds to the frame; the rest is its label.
pub record Binding {ℓ} (W : Type ℓ) : Type ℓ where
  pub label : String
  pub bound_index : ℕ
  pub bound_timestamp : W

-- The fields of a PlayerTelemetryFrame that stamp reads or writes.
pub record Frame {ℓ} (W : Type ℓ) : Type ℓ where
  pub frame_player : String
  pub frame_number : ℕ
  pub frame_time : W
  pub delta_time : W
  pub observation : Option (Binding W)
  pub throw_provenance : Option (Binding W)

pub record Epoch {ℓ} (W : Type ℓ) : Type ℓ where
  pub start_wall : ℤ
  pub next_index : ℕ
  pub last_ts : W
  pub player_ts : List (String × W)
  pub session_id : String
  pub last_seen : ℤ

abbrev pub second : ℕ
second = 1_000_000_000

module _ {ℓ} {W : Type ℓ} where
  unfoldable pub rebind : ℕ → W → Binding W → Binding W
  rebind idx ts b = record b { bound_index = idx; bound_timestamp = ts }

  -- setSession: the epoch, and whether the session changed.
  unfoldable pub set_session : Epoch W → String → Epoch W × Bool
  set_session e id = (
    record e { session_id = id },
    not (text_eq e.session_id "") && (not (text_eq id "") && not (text_eq e.session_id id)),
  )

module _ {ℓ} {W : Type ℓ} ⦃f : Float W⦄ where
  -- Duration.Seconds
  unfoldable pub seconds : ℤ → W
  seconds (pos n) = f.add (lit (n / second)) (f.div (lit (n % second)) (lit second))
  seconds (negsuc n) =
      f.sub (lit 0) (f.add (lit (suc n / second)) (f.div (lit (suc n % second)) (lit second)))

  abbrev pub since : W → Option W → W
  since ts (some prev) = f.sub ts prev
  since ts none = lit 0

  -- The body of the loop over the frames.
  unfoldable pub stamp_frame : ℕ → W → List (String × W) → Frame W → Frame W
  stamp_frame idx ts seen fr = record fr {
    frame_number = idx;
    frame_time = ts;
    observation = Option.map (rebind idx ts) fr.observation;
    throw_provenance = Option.map (rebind idx ts) fr.throw_provenance;
    delta_time = since ts (lookup fr.frame_player seen);
  }

  unfoldable pub stamp_frames :
      ℕ → W → List (String × W) → List (Frame W) → List (String × W) × List (Frame W)
  stamp_frames idx ts seen [] = (seen, [])
  stamp_frames idx ts seen (fr ∷ frs) =
      let (seen', rest) = stamp_frames idx ts (insert fr.frame_player ts seen) frs in
      (seen', stamp_frame idx ts seen fr ∷ rest)

  unfoldable pub start_of : Epoch W → ℤ → ℤ
  start_of e sample = if is_zero_time e.start_wall then sample else e.start_wall

  -- The timestamp of a sample: never before the last one.
  unfoldable pub time_of : Epoch W → ℤ → W
  time_of e sample =
      let ts = seconds (sample -ℤ start_of e sample) in if f.lt ts e.last_ts then e.last_ts else ts

  -- stamp: the epoch and the frames; the index and the timestamp are its old next_index and time_of.
  unfoldable pub stamp : Epoch W → ℤ → List (Frame W) → Epoch W × List (Frame W)
  stamp e sample frs =
      let ts = time_of e sample in
      let (seen, stamped) = stamp_frames e.next_index ts e.player_ts frs in
      (
        record e {
          start_wall = start_of e sample;
          next_index = suc e.next_index;
          player_ts = seen;
          last_ts = ts;
          last_seen = sample;
        },
        stamped,
      )

  unfoldable pub new_epoch : ℤ → Epoch W
  new_epoch now = record {
    start_wall = pos 0;
    next_index = 0;
    last_ts = lit 0;
    player_ts = [];
    session_id = "";
    last_seen = now;
  }

  -- epochRegistry.get: the registry, and the epoch that it shares with the caller.
  abbrev pub found_or :
      List (String × Epoch W) → String → ℤ → Option (Epoch W) → List (String × Epoch W) × Epoch W
  found_or reg id now (some e) = (reg, e)
  found_or reg id now none = (insert id (new_epoch now) reg, new_epoch now)

  unfoldable pub get : ℤ → List (String × Epoch W) → String → List (String × Epoch W) × Epoch W
  get now reg id = found_or reg id now (lookup id reg)

module _ {ℓ} {W : Type ℓ} where
  unfoldable pub seen_at : ℤ → Epoch W → Epoch W
  seen_at now e = if ltb_ℤ e.last_seen now then record e { last_seen = now } else e

  abbrev pub touched :
      List (String × Epoch W) → String → ℤ → Option (Epoch W) → List (String × Epoch W)
  touched reg id now none = reg
  touched reg id now (some e) = insert id (seen_at now e) reg

  -- touch
  unfoldable pub touch : List (String × Epoch W) → String → ℤ → List (String × Epoch W)
  touch reg id now = touched reg id now (lookup id reg)

  unfoldable pub is_stale : ℤ → ℤ → Epoch W → Bool
  is_stale now ttl e = ltb_ℤ ttl (now -ℤ e.last_seen)

  -- expire: the registry, and how many epochs were removed.
  unfoldable pub expire : List (String × Epoch W) → ℤ → ℤ → List (String × Epoch W) × ℕ
  expire reg now ttl =
      let kept = retain (λ e. not (is_stale now ttl e)) reg in (kept, length reg - length kept)
