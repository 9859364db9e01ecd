-- ===== src/Ingest/Auth.antt =====
-- internal/ingest/source_auth.go: the credentials of the server and what a grant allows.
use Prim.Native.String as Append
use nevr_anticheat.Prelude.{
  String, Bool, true, false, not, ◌&&◌, ◌||◌, Option, none, some, List, [], ◌∷◌, length,
  if◌then◌else◌, ltb,
}
use nevr_anticheat.Prelude.Dict.{text_eq}
use nevr_anticheat.Prelude.Text.{codes, bytes, contains_text}
use nevr_anticheat.Ingest.Policy.{
  SourceGrantConfig, GrantError, any_code, is_control, is_trimmed, validate_source_grants,
}

pub record SourceGrant : Type 0 where
  pub policy : SourceGrantConfig
  pub token : String

-- The fields of ServerConfig that decide on admission. `loopback` is literalLoopbackListen of the address
-- that the server listens on, which package net parses.
pub record ServerConfig : Type 0 where
  pub source_grants : List SourceGrant
  pub auth_token : String
  pub allow_unauthenticated : Bool
  pub loopback : Bool

pub data AuthError : Type 0 where
  source_grants_required : AuthError
  auth_token_required : AuthError
  grants_with_unauthenticated : AuthError
  bad_credential : AuthError
  bad_grants : GrantError → AuthError

unfoldable pub bad_token : String → List String → Bool
bad_token token secrets =
    (text_eq token "" || ltb 4096 (length (bytes token)))
    || (not (is_trimmed (codes token))
        || (any_code is_control (codes token) || contains_text token secrets))

-- The loop over the credentials: whether all of them pass.
unfoldable pub check_tokens : List SourceGrant → List String → Bool
check_tokens [] secrets = true
check_tokens (g ∷ gs) secrets =
    if bad_token g.token secrets then false else check_tokens gs (g.token ∷ secrets)

abbrev pub as_auth_error : Option GrantError → Option AuthError
as_auth_error none = none
as_auth_error (some e) = some (bad_grants e)

abbrev pub policies_of : List SourceGrant → List SourceGrantConfig
policies_of [] = []
policies_of (g ∷ gs) = g.policy ∷ policies_of gs

abbrev pub is_empty : List SourceGrant → Bool
is_empty [] = true
is_empty (g ∷ gs) = false

-- ValidateServerAuth: the error, or none.
unfoldable pub validate_server_auth : ServerConfig → Option AuthError
validate_server_auth cfg =
    if is_empty cfg.source_grants
    then if not cfg.loopback
      then some source_grants_required
      else if text_eq cfg.auth_token "" && not cfg.allow_unauthenticated
      then some auth_token_required
      else none
    else if cfg.allow_unauthenticated
    then some grants_with_unauthenticated
    else if not (check_tokens cfg.source_grants [])
    then some bad_credential
    else as_auth_error (validate_source_grants (policies_of cfg.source_grants))

-- `"Bearer " + token`
abbrev pub bearer : String → String
bearer token = Append.◌++◌ "Bearer " token

-- The loop of authenticate: the last grant whose credential the header carries.
unfoldable pub last_match : String → List SourceGrant → Option SourceGrant → Option SourceGrant
last_match header [] matched = matched
last_match header (g ∷ gs) matched =
    last_match header gs (if text_eq header (bearer g.token) then some g else matched)

abbrev pub is_some : Option SourceGrant → Bool
is_some none = false
is_some (some g) = true

-- authenticate: the policy, where `none` is nil, and whether the client is admitted.
unfoldable pub authenticate : ServerConfig → String → Option SourceGrant × Bool
authenticate cfg header =
    let matched = last_match header cfg.source_grants none in
    if not (is_empty cfg.source_grants)
    then (matched, is_some matched)
    else if text_eq cfg.auth_token ""
    then (none, cfg.allow_unauthenticated && cfg.loopback)
    else (none, cfg.loopback && text_eq header (bearer cfg.auth_token))

-- allowsMatch
unfoldable pub allows_match : Option SourceGrant → String → String → Bool
allows_match none match_id server_id = true
allows_match (some g) match_id server_id =
    contains_text server_id g.policy.server_ids
    && (g.policy.allow_any_match || contains_text match_id g.policy.match_ids)

-- allowsPlayer
unfoldable pub allows_player : Option SourceGrant → String → Bool
allows_player none player_id = true
allows_player (some g) player_id =
    g.policy.allow_any_player || contains_text player_id g.policy.player_ids
