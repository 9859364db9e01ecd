-- ===== src/Lib.antt =====
-- A model of the decision core of the anti-cheat service: detection events become incidents, incidents
-- become suspicion scores, scores become recommendations and review cases, and moderators decide them.
-- Nothing here acts on a player; the strongest output is a recommendation.
--
-- The parts, in the order in which an event meets them, with the files that model them:
-- * cmd/bridge/epoch.go, the frame identity of live samples: Bridge.Epoch (stamp, set_session, get,
--   touch, expire), with Bridge.Sequence and Bridge.Registry for its proofs.
-- * cmd/bridge/sender.go, the link from the bridge to the ingest server: Bridge.Sender (state, counters,
--   acknowledgements), Dial (dial, connect), Deliver (queue, outcomes of a write, monitor) and Link (the
--   critical sections of the writer and what comes between them), with Moves, Account, Race and Attempts.
-- * internal/model/phase.go, the game phase of a sample: Model.Phase (normalize), with Phase.Again.
-- * internal/model/detection.go, the event that a detector emits: Model.Event (validate_event, overlaps).
-- * internal/pipeline/validator.go, the frames that the detectors see: Pipeline.Validator (rejection) and
--   Repairs (repair_all, validate_frame) over Model.Vector, with Settled and Sound.
-- * internal/pipeline/dedup.go and ratelimit.go, incidents and the cap on them: Pipeline.Dedup
--   (deduplicate, flush, merge_into), with Conserve and Merge, and Pipeline.RateLimit (filter), with Kept.
-- * internal/pipeline/data_health.go, the health of the feeds: Pipeline.Faults (has_fault) and Health
--   (observe_health), with Recovery and Watermark.
-- * internal/pipeline/pipeline.go, what becomes of the emissions: Pipeline.Emission (accept_emissions,
--   apply_evidence_safety), Emit (emit, dedup_and_emit, take_in) and Run (sequences of calls); Through,
--   Gated, Ledger, Quarantine and Weaken hold the proofs.
-- * internal/scoring/scorer.go, the scorer: Scoring.Scorer (state, recompute), Category, Gates and
--   Ingest (IngestEventWithResult), Bonus (ApplyCorrelationBonus, ApplyDecay), History (sequences of
--   calls, resets included); Total, Once, Silent, Cap, Keys, Idempotent and Flags hold the proofs.
-- * internal/model/scoring.go, tiers and the score record: Model.Level and Model.Score.
-- * internal/enforce, recommendations: Enforce.Action and Evidence, Config (new_engine), Engine
--   (decide, evaluate, prune, release_failed) and Policy (policy_evaluate), with Gates, Cooldown and its
--   Rest, and Policy.Laws.
-- * internal/review/queue.go over internal/storage/sqlite/store.go, the cases: Review.Status and Queue
--   (transition, assign, start, decide) and Cases (build_cases), with Laws, Once and Cases.Laws;
--   Reanalysis (store_review_case, close_stale_review_cases), with Untouched.
-- * cmd/desktop/heartbeat.go and shutdown.go, how the desktop application quits: Desktop.Heartbeat
--   (should_exit, run) with Signals, Handle, Quiet and Alarm, and Desktop.Shutdown (enter, leave, stop,
--   wait) with Drain.
-- * internal/storage/sqlite/recommendation_claim.go, the durable claim of a recommendation:
--   Storage.Claim (store_enforcement_action_once), with Shared for engines over one database.
-- * internal/replay/raw_tick_spool.go, the spool of raw payloads: Replay.Spool (write, next, read_all)
--   with Header, RoundTrip, Listing and Cut.
-- * internal/config/source_grants.go and internal/ingest/source_auth.go, who may submit: Ingest.Policy
--   (validate_source_grants) and Auth (validate_server_auth, authenticate, allows_match), with Owner.
-- * internal/ingest/live_ordering.go and live_pipeline.go, batches of live frames: Ingest.Live
--   (fresh_live_frames), with Order, and Batch (handle_frames), with Account, Split and Ticks.
-- * internal/antievasion, the schedule of frames and delayed actions: Antievasion.Window
--   (should_evaluate) with Schedule, and Delay (queue, ready) with Release.
-- Examples evaluates the theorems at concrete inputs. Prelude holds lists, maps as association lists
-- (Dict), integers over the native numbers (Int), code points (Text), keys of two texts (Joined) and the
-- float interface (Float).
--
-- State is passed explicitly. A method that locks a mutex is one step; deliver, which
-- dials and writes between its locks, is one step for each critical section. Clocks are read by the caller:
-- a time is an argument, in nanoseconds, with 0 for Go's zero time. A Go int or duration is an integer
-- without bounds; the wrap-around that the code relies on, that of its hashes, is written out. Loops are
-- structural recursion, but for the reading loop of the spool: its fuel is the length of the file and
-- one more, and each record takes 16 bytes at least.
--
-- float64 is an interface: its operations are parameters, and a theorem that needs order takes IsOrdered,
-- laws that float64 meets: the comparisons order the values that are not NaN, and the naturals up to 2 to
-- the power of 53 are values of their own. Prelude.Float has an instance that meets them.
-- The digest of a recommendation's identity and the answers of the database are parameters too. A map
-- that the code ranges over is an association list in a fixed order. Upper and lower case are those of
-- the ASCII letters. Reasons and log lines are left out.
--
-- Not modelled: detectors, feature extraction, the replay and tape parsers, HTTP and the rest of the
-- desktop code, SQL other than the case transactions and claims, configuration files, metrics and
-- logging.
pub mod Prelude
pub mod Model
pub mod Scoring
pub mod Enforce
pub mod Review
pub mod Pipeline
pub mod Bridge
pub mod Desktop
pub mod Replay
pub mod Storage
pub mod Ingest
pub mod Antievasion
pub mod Examples
