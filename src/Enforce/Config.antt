-- ===== src/Enforce/Config.antt =====
-- internal/enforce/engine.go: the configuration of the engine and its construction.
use nevr_anticheat.Prelude.{[], if◌then◌else◌}
use nevr_anticheat.Prelude.Int.{ℤ, pos, leb_ℤ}
use nevr_anticheat.Prelude.Float.{Float}
use nevr_anticheat.Model.Level.{LevelTable, default_table, is_zero}
use nevr_anticheat.Enforce.Engine.{Mode, shadow_mode, Engine}

pub record EngineConfig {ℓ} (W : Type ℓ) : Type ℓ where
  pub config_mode : Mode
  pub cooldown_duration : ℤ
  pub categories_for_kick : ℤ
  pub categories_for_ban : ℤ
  pub matches_for_ban : ℤ
  pub confidence_for_ban : W
  pub config_ban_duration : ℤ
  pub config_levels : LevelTable W

abbrev pub week : ℤ
week = pos 604_800_000_000_000

module _ {ℓ} {W : Type ℓ} ⦃f : Float W⦄ where
  unfoldable pub default_engine_config : EngineConfig W
  default_engine_config = record {
    config_mode = shadow_mode;
    cooldown_duration = pos 600_000_000_000;
    categories_for_kick = pos 2;
    categories_for_ban = pos 2;
    matches_for_ban = pos 2;
    confidence_for_ban = f.ratio 9 10;
    config_ban_duration = week;
    config_levels = default_table;
  }

  -- NewEngine; the store is an argument of evaluate.
  unfoldable pub new_engine : EngineConfig W → Engine W
  new_engine cfg = record {
    mode = cfg.config_mode;
    levels = if is_zero cfg.config_levels then default_table else cfg.config_levels;
    cooldown = cfg.cooldown_duration;
    min_categories_for_kick = cfg.categories_for_kick;
    min_categories_for_ban = cfg.categories_for_ban;
    min_matches_for_ban = cfg.matches_for_ban;
    min_confidence_for_ban = cfg.confidence_for_ban;
    ban_duration = if leb_ℤ cfg.config_ban_duration (pos 0) then week else cfg.config_ban_duration;
    cooldowns = [];
    last_prune = pos 0;
  }
