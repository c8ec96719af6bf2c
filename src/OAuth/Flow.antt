-- ===== src/OAuth/Flow.antt =====
-- The authorization code flow of app/auth/provider.py: `authorize`, `approve`, then an exchange.
use development_bridge.Prelude.{
  ℕ, ◌+◌, ◌≤◌, String, Bool, true, false, not, some, List, [], ◌∷◌, ◌++◌, ◌≡◌, refl, ap, ◌∙◌, arith,
  ◌==◌, any, first, first-append, any-false_mono, delete, eq_refl, eq_iff,
}
use development_bridge.OAuth.Models.{Row, OAuthDb, returns, PendingAuthorization, AuthorizationCode}
use development_bridge.OAuth.Store.{
  is_live, row_data, save_pending, consume_pending, save_code, consume_code, save_access_token,
  save_refresh_token, access_token,
}
use development_bridge.OAuth.Provider.{
  Provider, AuthorizationParams, Secrets, is_resource, scopes_or_bridge, has_bridge, authorize,
  approve, approve_pending, code_for, token_for, issue_tokens, exchange_authorization_code,
  load_access_token,
}
use development_bridge.OAuth.Calls.{token_row}

-- no row of the table has this digest
abbrev pub is_fresh : {A : Type 0} → String → List (Row A) → Bool
is_fresh d rows = not (any (λ r. r.digest == d) rows)

fresh_any :
    {A : Type 0} (d : String) (rows : List (Row A))
    → is_fresh d rows ≡ true
    → any (λ r. r.digest == d) rows ≡ false
fresh_any d rows f = ground (arith, f)

-- what was inserted under a fresh digest is what the table answers with
fresh_found :
    {A : Type 0} (now : ℕ) (rows : List (Row A)) (x : Row A)
    → is_fresh x.digest rows ≡ true
    → now ≤ x.expires_at
    → first (is_live now x.digest) (rows ++ x ∷ []) ≡ some x
fresh_found now rows x f h =
    first-append (is_live now x.digest) rows (x ∷ []) (
      any-false_mono (is_live now x.digest) (λ r. r.digest == x.digest) rows
        (λ r m. ground (arith, m)) (ground (arith, f)))
    ∙ rw (eq_refl x.digest) (ground arith)

module _ (digest : String → String) (v : Provider) where
  abbrev pub request_of : ℕ → String → AuthorizationParams → PendingAuthorization
  request_of now client_id params = record {
    client_id = client_id;
    state = params.state;
    scopes = scopes_or_bridge params.scopes;
    code_challenge = params.code_challenge;
    redirect_uri = params.redirect_uri;
    redirect_uri_provided_explicitly = params.redirect_uri_provided_explicitly;
    resource = v.resource_url;
    expires_at = now + 300;
  }

  pending_row : String → PendingAuthorization → Row PendingAuthorization
  pending_row request p = record { digest = digest request; data' = p; expires_at = p.expires_at }

  code_row : String → AuthorizationCode → Row AuthorizationCode
  code_row secret c = record { digest = digest secret; data' = c; expires_at = c.expires_at }

  authorized :
      (now : ℕ) (client_id request : String) (params : AuthorizationParams) (db : OAuthDb)
      → is_resource v params.resource ≡ true
      → is_fresh (digest request) db.pending ≡ true
      → authorize digest v now client_id params request db ≡ (
        returns request,
        record db {
          pending = db.pending ++ pending_row request (request_of now client_id params) ∷ [];
        },
      )
  unfolding authorize save_pending pending_row
  authorized now client_id request params db r f =
      rw (r, fresh_any (digest request) db.pending f, authorize, save_pending) refl

  approved :
      (now : ℕ) (request secret : String) (p : PendingAuthorization)
      (rows : List (Row PendingAuthorization)) (db : OAuthDb)
      → is_fresh (digest request) rows ≡ true
      → is_fresh (digest secret) db.codes ≡ true
      → now ≤ p.expires_at
      → db.pending ≡ rows ++ pending_row request p ∷ []
      → approve digest v true now request secret db ≡ (
        returns (some p),
        record db {
          pending = delete (is_live now (digest request)) db.pending;
          codes = db.codes ++ code_row secret (code_for digest v now p) ∷ [];
        },
      )
  unfolding approve consume_pending approve_pending save_code pending_row code_row
  approved now request secret p rows db f g h e =
      rw
        (
          ap row_data (
              ap (first (is_live now (digest request))) e
              ∙ fresh_found now rows (pending_row request p) f h),
          fresh_any (digest secret) db.codes g,
          approve,
          consume_pending,
          approve_pending,
          save_code,
        )
        refl

  exchanged :
      (now : ℕ) (secret : String) (c : AuthorizationCode) (s : Secrets)
      (rows : List (Row AuthorizationCode)) (db : OAuthDb)
      → c.resource ≡ v.resource_url
      → has_bridge c.scopes ≡ true
      → is_fresh (digest secret) rows ≡ true
      → is_fresh (digest s.access) db.access_tokens ≡ true
      → is_fresh (digest s.refresh) db.refresh_tokens ≡ true
      → now ≤ c.expires_at
      → db.codes ≡ rows ++ code_row secret c ∷ []
      → exchange_authorization_code digest v now c.client_id secret s db ≡ (
        returns (record {
          access = s.access;
          refresh = s.refresh;
          expires_in = v.access_token_ttl_seconds;
          scopes = c.scopes;
        }),
        record db {
          codes = delete (is_live now (digest secret)) db.codes;
          access_tokens =
              db.access_tokens
              ++ token_row digest v s.access
                  (token_for digest v now v.access_token_ttl_seconds c.client_id c.scopes s.family)
                ∷ [];
          refresh_tokens =
              db.refresh_tokens
              ++ token_row digest v s.refresh
                  (token_for digest v now v.refresh_token_ttl_seconds c.client_id c.scopes s.family)
                ∷ [];
        },
      )
  unfolding exchange_authorization_code consume_code issue_tokens save_access_token
      save_refresh_token code_row
  exchanged now secret c s rows db r b f g k h e =
      rw
        (
          ap row_data (
              ap (first (is_live now (digest secret))) e
              ∙ fresh_found now rows (code_row secret c) f h),
          eq_refl c.client_id,
          (eq_iff c.resource v.resource_url).1 r,
          b,
          fresh_any (digest s.access) db.access_tokens g,
          fresh_any (digest s.refresh) db.refresh_tokens k,
          exchange_authorization_code,
          consume_code,
          issue_tokens,
          save_access_token,
          save_refresh_token,
        )
        refl

  -- The flow succeeds. A client asks for the provider's resource with scopes that hold "bridge" (or
  -- with none), the owner approves within 300 seconds, and the client exchanges the code within 300
  -- seconds of that. If the new secrets have digests that no row has, then the three calls succeed,
  -- the exchange returns the new tokens with the scopes asked for, and until its expiry the access
  -- token loads as one of this client, resource and scopes.
  pub flow_issues :
      (start approval exchange later : ℕ) (client_id request secret : String)
      (params : AuthorizationParams) (s : Secrets) (db : OAuthDb)
      → is_resource v params.resource ≡ true
      → has_bridge (scopes_or_bridge params.scopes) ≡ true
      → approval ≤ start + 300
      → exchange ≤ approval + 300
      → later ≤ exchange + v.access_token_ttl_seconds
      → is_fresh (digest request) db.pending ≡ true
      → is_fresh (digest secret) db.codes ≡ true
      → is_fresh (digest s.access) db.access_tokens ≡ true
      → is_fresh (digest s.refresh) db.refresh_tokens ≡ true
      → let scopes = scopes_or_bridge params.scopes in
        let requested = authorize digest v start client_id params request db in
        let granted = approve digest v true approval request secret requested.1 in
        let exchanged =
          exchange_authorization_code digest v exchange client_id secret s granted.1 in
        (requested.0 ≡ returns request)
        × (granted.0 ≡ returns (some (request_of start client_id params)))
        × (exchanged.0
            ≡ returns (record {
              access = s.access;
              refresh = s.refresh;
              expires_in = v.access_token_ttl_seconds;
              scopes = scopes;
            }))
        × (load_access_token digest v later s.access exchanged.1
            ≡ some
                (token_for digest v exchange v.access_token_ttl_seconds client_id scopes s.family))
  unfolding load_access_token access_token
  flow_issues start approval exchange later client_id request secret params s db r b h1 h2 h3 f1 f2
        f3 f4 =
      let p = request_of start client_id params in
      let db1 : OAuthDb = record db { pending = db.pending ++ pending_row request p ∷ [] } in
      let c = code_for digest v approval p in
      let db2 : OAuthDb = record db1 {
        pending = delete (is_live approval (digest request)) db1.pending;
        codes = db.codes ++ code_row secret c ∷ [];
      } in
      let t =
        token_for digest v exchange v.access_token_ttl_seconds client_id
          (scopes_or_bridge params.scopes) s.family in
      rw
        (
          authorized start client_id request params db r f1,
          approved approval request secret p db.pending db1 f1 f2 h1 refl,
          exchanged exchange secret c s db.codes db2 refl b f2 f3 f4 h2 refl,
        )
        (
          refl,
          refl,
          refl,
          rw
              (
                ap row_data
                    (fresh_found later db.access_tokens (token_row digest v s.access t) f3 h3),
                eq_refl v.resource_url,
                load_access_token,
                access_token,
              )
              refl,
        )
