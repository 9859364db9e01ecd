-- ===== src/Ingest/Owner.antt =====
-- internal/config/source_grants.go, internal/ingest/source_auth.go: a server has one owner.
use nevr_anticheat.Prelude.{
  ℕ, ◌+◌, ◌≤◌, ◌≡◌, refl, ap, ◌∙◌, String, Bool, true, false, Option, none, some, List, [], ◌∷◌,
  if◌then◌else◌, arith,
}
use nevr_anticheat.Prelude.Dict.{text_eq}
use text.Mathlib.TextEquality.{eq_iff}
use nevr_anticheat.Prelude.Text.{codes, to_upper, contains_text}
use nevr_anticheat.Ingest.Policy.{
  SourceGrantConfig, GrantError, Seen, check_ids, check_scope, and_then, check_scopes, check_grants,
  first_error, validate_source_grants,
}
use nevr_anticheat.Ingest.Auth.{
  SourceGrant, ServerConfig, policies_of, validate_server_auth, allows_match,
}

-- How often a text stands in a list.
abbrev times : String → List String → ℕ
times s [] = 0
times s (t ∷ ts) = (if text_eq t s then 1 else 0) + times s ts

times-contains_text :
    (s : String) (ts : List String) → (if contains_text s ts then 1 else 0) ≤ times s ts
unfolding contains_text
times-contains_text s [] = omega arith
times-contains_text s (t ∷ ts) = ground (arith, times-contains_text s ts)

times_absent : (s : String) (ts : List String) → contains_text s ts ≡ false → times s ts ≡ 0
unfolding contains_text
times_absent s [] h = refl
times_absent s (t ∷ ts) h = ground (arith, times_absent s ts)

-- The loop over the servers of a grant adds them to those seen, and no server twice.
check_ids-times :
    (s : String) (ids seen servers : List String)
    → (check_ids true ids seen servers).0 ≡ none
    → times s (check_ids true ids seen servers).1 ≡ times s ids + times s servers
unfolding check_ids
check_ids-times s [] seen servers h = omega arith
check_ids-times s (id ∷ ids) seen servers h =
    ground (arith, check_ids-times s ids (id ∷ seen) (id ∷ servers))

check_ids_once :
    (s : String) (ids seen servers : List String)
    → (check_ids true ids seen servers).0 ≡ none
    → times s servers ≤ 1
    → times s (check_ids true ids seen servers).1 ≤ 1
unfolding check_ids
check_ids_once s [] seen servers h u = u
check_ids_once s (id ∷ ids) seen servers h u =
    ground
      (arith, eq_iff id s, times_absent id servers, check_ids_once s ids (id ∷ seen) (id ∷ servers))

check_ids-others : (ids seen servers : List String) → (check_ids false ids seen servers).1 ≡ servers
unfolding check_ids
check_ids-others [] seen servers = refl
check_ids-others (id ∷ ids) seen servers = ground (arith, check_ids-others ids (id ∷ seen) servers)

check_scope-others :
    (ids : List String) (any : Bool) (servers : List String)
    → (check_scope false ids any servers).1 ≡ servers
unfolding check_scope
check_scope-others ids any servers = ground (arith, check_ids-others ids [] servers)

check_scope-servers :
    (s : String) (ids servers : List String)
    → (check_scope true ids false servers).0 ≡ none
    → (times s (check_scope true ids false servers).1 ≡ times s ids + times s servers)
unfolding check_scope
check_scope-servers s ids servers h = ground (arith, check_ids-times s ids [] servers)

check_scope_once :
    (s : String) (ids servers : List String)
    → (check_scope true ids false servers).0 ≡ none
    → times s servers ≤ 1
    → times s (check_scope true ids false servers).1 ≤ 1
unfolding check_scope
check_scope_once s ids servers h u = ground (arith, check_ids_once s ids [] servers)

-- A step of and_then that leaves the servers as they are.
and_then_same :
    (r : Option GrantError × List String) (further : List String → Option GrantError × List String)
    → (further r.1).1 ≡ r.1
    → (and_then r further).0 ≡ none
    → (r.0 ≡ none) × ((and_then r further).1 ≡ r.1)
and_then_same (none, servers) further e h = (refl, e)
and_then_same (some err, servers) further e h = (h, refl)

and_then_others :
    {s : List String} (r : Option GrantError × List String)
    (further : List String → Option GrantError × List String)
    → r.1 ≡ s
    → ((t : List String) → (further t).1 ≡ t)
    → (and_then r further).1 ≡ s
and_then_others (none, t) further e h = h t ∙ e
and_then_others (some err, t) further e h = e

check_scopes-servers :
    (g : SourceGrantConfig) (servers : List String)
    → (check_scopes g servers).0 ≡ none
    → ((check_scope true g.server_ids false servers).0 ≡ none)
      × ((check_scopes g servers).1 ≡ (check_scope true g.server_ids false servers).1)
unfolding check_scopes
check_scopes-servers g servers h =
    and_then_same (check_scope true g.server_ids false servers) _ (others _) h
  where
    others :
        (s : List String)
        → (and_then
            (check_scope false g.match_ids g.allow_any_match s)
            (λ t. check_scope false g.player_ids g.allow_any_player t)).1
          ≡ s
    others s =
        and_then_others _ _ (check_scope-others g.match_ids g.allow_any_match s)
          (λ t. check_scope-others g.player_ids g.allow_any_player t)

-- How many of the grants allow the server for the match.
abbrev pub allowing : String → String → List SourceGrant → ℕ
allowing match_id server_id [] = 0
allowing match_id server_id (g ∷ gs) =
    (if allows_match (some g) match_id server_id then 1 else 0) + allowing match_id server_id gs

first_error-none : (e f : Option GrantError) → first_error e f ≡ none → (e ≡ none) × (f ≡ none)
first_error-none none f h = (refl, h)
first_error-none (some err) f h = absurd cc

-- A grant that is passed over leaves the servers that its scope adds.
check_grants_step :
    (g : SourceGrantConfig) (gs : List SourceGrantConfig) (seen : Seen)
    → check_grants (g ∷ gs) seen ≡ none
    → ((check_scopes g seen.servers).0 ≡ none)
      × (check_grants gs (record {
        principals = g.principal ∷ seen.principals;
        envs = to_upper (codes g.token_env) ∷ seen.envs;
        servers = (check_scopes g seen.servers).1;
      })
          ≡ none)
unfolding check_grants
check_grants_step g gs seen h = ground (
  arith,
  first_error-none (check_scopes g seen.servers).0 (
      check_grants gs (record {
        principals = g.principal ∷ seen.principals;
        envs = to_upper (codes g.token_env) ∷ seen.envs;
        servers = (check_scopes g seen.servers).1;
      })),
)

allowing-check_grants :
    (m s : String) (gs : List SourceGrant) (seen : Seen)
    → check_grants (policies_of gs) seen ≡ none
    → times s seen.servers ≤ 1
    → allowing m s gs + times s seen.servers ≤ 1
unfolding check_grants allows_match
allowing-check_grants m s [] seen h u = omega arith
allowing-check_grants m s (g ∷ gs) seen h u =
    let (passed, rest) = check_grants_step g.policy (policies_of gs) seen h in
    let (scoped, same) = check_scopes-servers g.policy seen.servers passed in
    let kept = check_scope_once s g.policy.server_ids seen.servers scoped u in
    let sum = check_scope-servers s g.policy.server_ids seen.servers scoped in
    let deeper = allowing-check_grants m s gs _ rest (omega (arith, kept, ap (times s) same)) in
    ground (arith, deeper, sum, ap (times s) same, times-contains_text s g.policy.server_ids)

-- On a server whose configuration is accepted: for any match and game server, at most one of the
-- source grants allows it.
pub validate_server_auth-allowing :
    (cfg : ServerConfig) (match_id server_id : String)
    → validate_server_auth cfg ≡ none
    → allowing match_id server_id cfg.source_grants ≤ 1
unfolding validate_server_auth validate_source_grants
validate_server_auth-allowing cfg m s h = ground (
  arith,
  allowing-check_grants m s cfg.source_grants (record { principals = []; envs = []; servers = [] }),
)
