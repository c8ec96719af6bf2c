-- ===== src/OAuth/Examples.antt =====
-- Runs of the OAuth provider on concrete calls, for its theorems.
use development_bridge.Prelude.{
  String, true, false, none, some, List, [], ◌∷◌, ◌≡◌, ◌≢◌, refl, arith, inl, ◌==◌, eq_iff, ap,
}
use development_bridge.OAuth.Models.{Token, empty_oauth, returns, raises, invalid_grant}
use development_bridge.OAuth.Store.{
  revoke, access_token, save_pending, consume_pending, save_code, consume_code, save_access_token,
  save_refresh_token,
}
use development_bridge.OAuth.Provider.{
  Provider, AuthorizationParams, Secrets, token_for, authorize, approve, approve_pending,
  exchange_authorization_code, exchange_refresh_token, issue_tokens, load_access_token,
}
use development_bridge.OAuth.Calls.{
  OAuthCall, authorizes, approves, exchanges_code, exchanges_refresh, revokes, perform, run,
}
use development_bridge.OAuth.Single.{code_once, refresh_once}
use development_bridge.OAuth.Tokens.{IsBound, tokens-IsBound, revoked_forever}
use development_bridge.OAuth.Flow.{request_of, flow_issues}

abbrev plain : String → String
plain s = s

abbrev bridge : Provider
bridge = record {
  resource_url = "https://bridge.example/mcp";
  access_token_ttl_seconds = 900;
  refresh_token_ttl_seconds = 86400;
}

abbrev params : AuthorizationParams
params = record {
  resource = some "https://bridge.example/mcp";
  scopes = none;
  state = some "x";
  code_challenge = "challenge";
  redirect_uri = "https://client.example/back";
  redirect_uri_provided_explicitly = true;
}

abbrev first_secrets : Secrets
first_secrets = record { family = "f1"; access = "a1"; refresh = "r1" }

abbrev second_secrets : Secrets
second_secrets = record { family = "f2"; access = "a2"; refresh = "r2" }

abbrev granting : List OAuthCall
granting =
    authorizes 100 "app" params "q1"
    ∷ approves true 120 "q1" "c1"
    ∷ exchanges_code 130 "app" "c1" first_secrets
    ∷ []

abbrev granted_token : Token
granted_token = token_for plain bridge 130 900 "app" ("bridge" ∷ []) "f1"

text_apart : (s t : String) → (s == t) ≡ false → s ≢ t
text_apart s t n e = absurd (ground (arith, (eq_iff s t).1 e, n))

some_apart : (s t : String) → (s == t) ≡ false → some s ≢ some t
some_apart s t n e = text_apart s t n (ap (λ o. elim o [ none ↦ s | some x ↦ x ]) e)

none_apart : (s : String) → none ≢ some s
none_apart s e = cc

code_once_example :
    let db =
      run plain bridge
        (exchanges_code 130 "app" "c1" first_secrets ∷ approves true 140 "q2" "c2" ∷ [])
        (run plain bridge
          (authorizes 100 "app" params "q1" ∷ approves true 120 "q1" "c1" ∷ [])
          empty_oauth) in
    exchange_authorization_code plain bridge 150 "app" "c1" second_secrets db
    ≡ (raises invalid_grant, db)
code_once_example =
    code_once plain bridge 130 "app" "c1" first_secrets
      (run plain bridge (authorizes 100 "app" params "q1" ∷ approves true 120 "q1" "c1" ∷ [])
        empty_oauth)
      (approves true 140 "q2" "c2" ∷ []) (some_apart "c2" "c1" refl, tt) 150 (omega arith) "app"
      second_secrets

refresh_once_example :
    let db =
      run plain bridge
        (exchanges_refresh 200 "app" "r1" ("bridge" ∷ []) second_secrets
          ∷ revokes granted_token
          ∷ [])
        (run plain bridge granting empty_oauth) in
    exchange_refresh_token plain bridge 210 "app" "r1" ("bridge" ∷ []) first_secrets db
    ≡ (raises invalid_grant, db)
refresh_once_example =
    refresh_once plain bridge 200 "app" "r1" ("bridge" ∷ []) second_secrets
      (run plain bridge granting empty_oauth) (revokes granted_token ∷ [])
      (text_apart "r1" "r2" refl) (none_apart "r1", tt) 210 (omega arith) "app" ("bridge" ∷ [])
      first_secrets

tokens-IsBound_example : IsBound plain bridge granted_token
unfolding run perform authorize approve approve_pending exchange_authorization_code issue_tokens
    save_pending consume_pending save_code consume_code save_access_token save_refresh_token
    access_token
tokens-IsBound_example = tokens-IsBound plain bridge granting 140 "a1" (inl refl)

revoked_forever_example :
    (token_for plain bridge 220 900 "app" ("bridge" ∷ []) "f2").family_id ≢ granted_token.family_id
unfolding run perform revoke authorize approve approve_pending exchange_authorization_code
    issue_tokens save_pending consume_pending save_code consume_code save_access_token
    save_refresh_token access_token
revoked_forever_example =
    revoked_forever plain bridge granted_token (run plain bridge granting empty_oauth)
      (authorizes 200 "app" params "q2"
        ∷ approves true 210 "q2" "c2"
        ∷ exchanges_code 220 "app" "c2" second_secrets
        ∷ [])
      (none_apart "f1", (none_apart "f1", (some_apart "f2" "f1" refl, tt))) 230 "a2"
      {t = token_for plain bridge 220 900 "app" ("bridge" ∷ []) "f2"} (inl refl)

flow_issues_example :
    let requested = authorize plain bridge 100 "app" params "q1" empty_oauth in
    let granted = approve plain bridge true 120 "q1" "c1" requested.1 in
    let exchanged =
      exchange_authorization_code plain bridge 130 "app" "c1" first_secrets granted.1 in
    (requested.0 ≡ returns "q1")
    × (granted.0 ≡ returns (some (request_of plain bridge 100 "app" params)))
    × (exchanged.0
        ≡ returns
            (record { access = "a1"; refresh = "r1"; expires_in = 900; scopes = "bridge" ∷ [] }))
    × (load_access_token plain bridge 140 "a1" exchanged.1 ≡ some granted_token)
flow_issues_example =
    flow_issues plain bridge 100 120 130 140 "app" "q1" "c1" params first_secrets empty_oauth refl
      refl (omega arith) (omega arith) (omega arith) refl refl refl refl
