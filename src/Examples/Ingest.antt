-- ===== src/Examples/Ingest.antt =====
-- The grants' theorem at two principals with a server each.
use nevr_anticheat.Prelude.{◌≤◌, ◌≡◌, refl, true, false, none, [], ◌∷◌}
use nevr_anticheat.Prelude.Text.{bytes, to_upper, same_codes, contains_text}
use nevr_anticheat.Ingest.Policy.{
  is_trimmed, valid_grant_id, valid_token_env, check_ids, check_scope, check_scopes, check_grants,
  validate_source_grants,
}
use nevr_anticheat.Ingest.Auth.{ServerConfig, bad_token, check_tokens, validate_server_auth}
use nevr_anticheat.Ingest.Owner.{allowing, validate_server_auth-allowing}

abbrev two_sources : ServerConfig
two_sources = record {
  source_grants =
      (record {
        policy = record {
          principal = "league";
          token_env = "LEAGUE_TOKEN";
          server_ids = "s1" ∷ "s2" ∷ [];
          match_ids = [];
          player_ids = [];
          allow_any_match = true;
          allow_any_player = true;
        };
        token = "t-1";
      })
      ∷ (record {
        policy = record {
          principal = "cup";
          token_env = "CUP_TOKEN";
          server_ids = "s3" ∷ [];
          match_ids = "m1" ∷ [];
          player_ids = [];
          allow_any_match = false;
          allow_any_player = true;
        };
        token = "t-2";
      })
      ∷ [];
  auth_token = "";
  allow_unauthenticated = false;
  loopback = false;
}

accepted : validate_server_auth two_sources ≡ none
unfolding validate_server_auth validate_source_grants check_grants check_scopes check_scope
    check_ids valid_grant_id valid_token_env is_trimmed check_tokens bad_token bytes to_upper
    same_codes contains_text
accepted = refl

validate_server_auth-allowing_example : allowing "m1" "s3" two_sources.source_grants ≤ 1
validate_server_auth-allowing_example = validate_server_auth-allowing two_sources "m1" "s3" accepted
