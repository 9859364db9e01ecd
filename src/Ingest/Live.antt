-- ===== src/Ingest/Live.antt =====
-- internal/ingest/live_ordering.go and live_pipeline.go: which live frames of a match are taken in, and
-- when their ticks are handed to the pipeline. A match's lock is held over a call. The calls of the
-- store, and the comparison of two frames by their JSON, are answers that a call is given; the
-- detection of a tick, contexts, raw payloads and metrics are left out.
pub mod Order
use nevr_anticheat.Prelude.{
  ℕ, zero, suc, ◌+◌, ◌-◌, String, Bool, true, false, not, ◌&&◌, ◌||◌, ◌==◌, leb, Option, none, some,
  List, [], ◌∷◌, ◌++◌, length, sort_stable, if◌then◌else◌,
}
use nevr_anticheat.Prelude.Int.{ℤ, pos, leb_ℤ, ltb_ℤ}
use nevr_anticheat.Prelude.Dict.{text_eq, lookup, insert}
use nevr_anticheat.Prelude.Text.{contains_text}
use nevr_anticheat.Prelude.Float.{Float, lit}
use nevr_anticheat.Pipeline.Validator.{Telemetry}
use nevr_anticheat.Pipeline.Dedup.{ltb_text}
use nevr_anticheat.Pipeline.Faults.{eq_ℤ}

-- What a LiveMatch keeps of its frames.
pub record LiveMatch {ℓ} (W : Type ℓ) : Type ℓ where
  pub player_ids : List String
  pub last_frame_index : ℤ
  pub last_player_index : List (String × ℤ)
  pub first_timestamp : W
  pub last_timestamp : W
  pub have_timestamp : Bool
  pub pending : List (Telemetry W)
  pub rows_stored : ℕ
  pub analysis_incomplete : Bool

pub record FrameResult : Type 0 where
  pub accepted : ℕ
  pub rejected : ℕ
  pub ignored : ℕ

-- The lookup of a stored frame: it failed, found nothing, or what the comparison said of it.
pub data Prior : Type 0 where
  lookup_failed not_stored : Prior
  stored : Option Bool → Prior

-- What the store answers in a call: the stored frame of the same identity, compared, and how many of
-- the frames were inserted, or an error, and whether what their ticks gave was recorded. `same` is sameLiveFrame, with `none` for its error.
pub record Answers {ℓ} (W : Type ℓ) : Type ℓ where
  pub same : Telemetry W → Telemetry W → Option Bool
  pub prior : Telemetry W → Prior
  pub inserted : List (Telemetry W) → Option ℕ
  pub derived : List (Telemetry W) → Bool

-- What becomes of a frame in the loop of freshLiveFrames.
pub data Verdict : Type 0 where
  kept dropped repeated conflicting : Verdict

abbrev pub of_comparison : Option Bool → Verdict
of_comparison none = dropped
of_comparison (some true) = repeated
of_comparison (some false) = conflicting

-- The last frame that counts: its index, its time, and whether there is a time.
pub record Last {ℓ} (W : Type ℓ) : Type ℓ where
  pub index : ℤ
  pub time : W
  pub have : Bool

-- The kept frames, the counts, and whether the analysis of the match is suspended.
pub record Fresh {ℓ} (W : Type ℓ) : Type ℓ where
  pub frames : List (Telemetry W)
  pub counts : FrameResult
  pub suspended : Bool

module _ {ℓ} {W : Type ℓ} ⦃f : Float W⦄ where
  -- The order of the batch: by index, then by player.
  unfoldable pub frame_before : Telemetry W → Telemetry W → Bool
  frame_before a b =
      if not (eq_ℤ a.frame_index b.frame_index)
      then ltb_ℤ a.frame_index b.frame_index
      else ltb_text a.player_id b.player_id

  unfoldable pub same_identity : Telemetry W → Telemetry W → Bool
  same_identity a b = text_eq a.player_id b.player_id && eq_ℤ a.frame_index b.frame_index

  -- `seen[key]`
  unfoldable pub find_seen : Telemetry W → List (Telemetry W) → Option (Telemetry W)
  find_seen fr [] = none
  find_seen fr (g ∷ seen) = if same_identity g fr then some g else find_seen fr seen

  -- sameLiveTickTime
  unfoldable pub same_live_tick_time : W → W → Bool
  same_live_tick_time a b =
      let ulp = f.larger (f.sub (f.next_up a) a) (f.sub (f.next_up b) b) in
      f.le (f.abs (f.sub a b)) (f.smaller (f.ratio 1 1_000_000_000) (f.mul (lit 8) ulp))

  unfoldable pub malformed : Telemetry W → Bool
  malformed fr =
      ltb_ℤ fr.frame_index (pos 0)
      || (f.lt fr.timestamp (lit 0) || (f.is_nan fr.timestamp || f.is_inf fr.timestamp))

  unfoldable pub out_of_order : Last W → Telemetry W → Bool
  out_of_order last fr =
      ltb_ℤ fr.frame_index last.index
      || (last.have
          && ((eq_ℤ fr.frame_index last.index && not (same_live_tick_time fr.timestamp last.time))
              || (ltb_ℤ last.index fr.frame_index && f.le fr.timestamp last.time)))

  unfoldable pub in_order : Last W → Telemetry W → Verdict
  in_order last fr = if out_of_order last fr then dropped else kept

  -- A frame that is not in the batch yet, by what the store holds under its identity.
  unfoldable pub by_store : Prior → Last W → Telemetry W → Verdict
  by_store lookup_failed last fr = dropped
  by_store not_stored last fr = in_order last fr
  by_store (stored comparison) last fr = of_comparison comparison

  unfoldable pub by_batch :
      Option (Telemetry W) → Answers W → LiveMatch W → Last W → Telemetry W → Verdict
  by_batch (some earlier) db m last fr = of_comparison (db.same earlier fr)
  by_batch none db m last fr =
      if leb_ℤ fr.frame_index m.last_frame_index
      then by_store (db.prior fr) last fr
      else in_order last fr

  -- The body of the loop of freshLiveFrames.
  unfoldable pub judge :
      Answers W → LiveMatch W → List (Telemetry W) → Last W → Telemetry W → Verdict
  judge db m seen last fr =
      if malformed fr then dropped else by_batch (find_seen fr seen) db m last fr

  unfoldable pub add_verdict : Verdict → Telemetry W → Fresh W → Fresh W
  add_verdict kept fr r = record r { frames = fr ∷ r.frames }
  add_verdict dropped fr r = record r {
    counts = record r.counts { rejected = suc r.counts.rejected };
  }
  add_verdict repeated fr r = record r {
    counts = record r.counts { ignored = suc r.counts.ignored };
  }
  add_verdict conflicting fr r = record r {
    counts = record r.counts { rejected = suc r.counts.rejected };
    suspended = true;
  }

  unfoldable pub last_after : Verdict → Telemetry W → Last W → Last W
  last_after kept fr last = record { index = fr.frame_index; time = fr.timestamp; have = true }
  last_after other fr last = last

  unfoldable pub seen_after : Verdict → Telemetry W → List (Telemetry W) → List (Telemetry W)
  seen_after kept fr seen = fr ∷ seen
  seen_after other fr seen = seen

  unfoldable pub fresh_loop :
      Answers W → LiveMatch W → List (Telemetry W) → Last W → List (Telemetry W) → Fresh W
  fresh_loop db m seen last [] = record {
    frames = [];
    counts = record { accepted = 0; rejected = 0; ignored = 0 };
    suspended = false;
  }
  fresh_loop db m seen last (fr ∷ frs) =
      let v = judge db m seen last fr in
      add_verdict v fr (fresh_loop db m (seen_after v fr seen) (last_after v fr last) frs)

  unfoldable pub last_of : LiveMatch W → Last W
  last_of m = record {
    index = m.last_frame_index;
    time = m.last_timestamp;
    have = m.have_timestamp;
  }

  -- freshLiveFrames
  unfoldable pub fresh_live_frames : Answers W → LiveMatch W → List (Telemetry W) → Fresh W
  fresh_live_frames db m input = fresh_loop db m [] (last_of m) (sort_stable frame_before input)
