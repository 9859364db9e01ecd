-- ===== src/Ingest/Policy.antt =====
-- internal/config/source_grants.go: the check of the operator's source grants. A text is valid UTF-8, so
-- its length in bytes is that of its encoding; the sets of what was seen are lists.
use nevr_anticheat.Prelude.{
  ℕ, String, Bool, true, false, not, ◌&&◌, ◌||◌, Option, none, some, List, [], ◌∷◌, length,
  if◌then◌else◌, ltb, leb, ◌==◌,
}
use nevr_anticheat.Prelude.Dict.{text_eq}
use nevr_anticheat.Prelude.Text.{codes, bytes, to_upper, same_codes, contains_text}

pub record SourceGrantConfig : Type 0 where
  pub principal : String
  pub token_env : String
  pub server_ids : List String
  pub match_ids : List String
  pub player_ids : List String
  pub allow_any_match : Bool
  pub allow_any_player : Bool

abbrev pub max_source_grants : ℕ
max_source_grants = 64

abbrev pub max_source_grant_ids : ℕ
max_source_grant_ids = 1024

-- unicode.IsControl
abbrev pub is_control : ℕ → Bool
is_control c = leb c 0x1f || (leb 0x7f c && leb c 0x9f)

-- unicode.IsSpace
abbrev pub is_space : ℕ → Bool
is_space c =
    ((leb 9 c && leb c 13) || (c == 0x20 || (c == 0x85 || c == 0xa0)))
    || (c == 0x1680
        || ((leb 0x2000 c && leb c 0x200a)
            || ((leb 0x2028 c && leb c 0x2029) || (c == 0x202f || (c == 0x205f || c == 0x3000)))))

-- strings.ContainsFunc
abbrev pub any_code : (ℕ → Bool) → List ℕ → Bool
any_code test [] = false
any_code test (c ∷ cs) = test c || any_code test cs

-- Is the last of these a space? `before` is what stands before them.
abbrev pub ends_in_space : ℕ → List ℕ → Bool
ends_in_space before [] = is_space before
ends_in_space before (c ∷ cs) = ends_in_space c cs

-- strings.TrimSpace(s) == s
unfoldable pub is_trimmed : List ℕ → Bool
is_trimmed [] = true
is_trimmed (c ∷ cs) = not (is_space c) && not (ends_in_space c cs)

-- validGrantID
unfoldable pub valid_grant_id : String → Bool
valid_grant_id s =
    (not (text_eq s "") && leb (length (bytes s)) 128)
    && (is_trimmed (codes s)
        && (not (any_code (λ c. c == b'*') (codes s))
            && not (any_code (λ c. is_control c || c == 0xfffd) (codes s))))

abbrev pub is_letter_or_line : ℕ → Bool
is_letter_or_line c = c == b'_' || ((leb b'A' c && leb c b'Z') || (leb b'a' c && leb c b'z'))

-- The loop of validTokenEnv, after the first letter or from it on.
abbrev pub all_env_codes : Bool → List ℕ → Bool
all_env_codes first [] = true
all_env_codes first (c ∷ cs) =
    (is_letter_or_line c || (not first && (leb b'0' c && leb c b'9'))) && all_env_codes false cs

-- validTokenEnv
unfoldable pub valid_token_env : String → Bool
valid_token_env s =
    if text_eq s "" || ltb 128 (length (bytes s)) then false else all_env_codes true (codes s)

pub data GrantError : Type 0 where
  too_many_grants : GrantError
  bad_principal : GrantError
  bad_token_env : GrantError
  bad_scope : GrantError
  bad_id : GrantError
  shared_server : GrantError

-- principals, envs and servers.
pub record Seen : Type 0 where
  pub principals : List String
  pub envs : List (List ℕ)
  pub servers : List String

abbrev pub contains_codes : List ℕ → List (List ℕ) → Bool
contains_codes s [] = false
contains_codes s (t ∷ ts) = same_codes t s || contains_codes s ts

-- The loop over the identifiers of a scope, of which those of servers have one owner: an error, or the
-- servers seen after it.
unfoldable pub check_ids :
    Bool → List String → List String → List String → Option GrantError × List String
check_ids of_servers [] seen servers = (none, servers)
check_ids of_servers (id ∷ ids) seen servers =
    if not (valid_grant_id id) || contains_text id seen
    then (some bad_id, servers)
    else if of_servers && contains_text id servers
    then (some shared_server, servers)
    else check_ids of_servers ids (id ∷ seen) (if of_servers then id ∷ servers else servers)

abbrev pub same_bool : Bool → Bool → Bool
same_bool true b = b
same_bool false b = not b

unfoldable pub check_scope :
    Bool → List String → Bool → List String → Option GrantError × List String
check_scope of_servers ids any servers =
    if ltb max_source_grant_ids (length ids) || not (same_bool (length ids == 0) any)
    then (some bad_scope, servers)
    else check_ids of_servers ids [] servers

abbrev pub and_then :
    Option GrantError × List String
    → (List String → Option GrantError × List String)
    → Option GrantError × List String
and_then (some e, servers) further = (some e, servers)
and_then (none, servers) further = further servers

-- The three scopes.
unfoldable pub check_scopes : SourceGrantConfig → List String → Option GrantError × List String
check_scopes g servers = and_then (check_scope true g.server_ids false servers) λ s.
    and_then (check_scope false g.match_ids g.allow_any_match s)
      λ t. check_scope false g.player_ids g.allow_any_player t

abbrev pub first_error : Option GrantError → Option GrantError → Option GrantError
first_error (some e) further = some e
first_error none further = further

-- The loop over the grants.
unfoldable pub check_grants : List SourceGrantConfig → Seen → Option GrantError
check_grants [] seen = none
check_grants (g ∷ gs) seen =
    let (error, servers) = check_scopes g seen.servers in
    let rest = check_grants gs (record {
      principals = g.principal ∷ seen.principals;
      envs = to_upper (codes g.token_env) ∷ seen.envs;
      servers = servers;
    }) in
    if not (valid_grant_id g.principal) || contains_text g.principal seen.principals
    then some bad_principal
    else if not (valid_token_env g.token_env)
        || contains_codes (to_upper (codes g.token_env)) seen.envs
    then some bad_token_env
    else first_error error rest

-- ValidateSourceGrants: the error, or none.
unfoldable pub validate_source_grants : List SourceGrantConfig → Option GrantError
validate_source_grants grants =
    if ltb max_source_grants (length grants)
    then some too_many_grants
    else check_grants grants (record { principals = []; envs = []; servers = [] })
