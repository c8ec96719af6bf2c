-- ===== src/OAuth/Provider.antt =====
-- app/auth/provider.py: `BridgeOAuthProvider`. The random secrets, the owner's password check (scrypt)
-- and the clock are arguments. The URLs that `authorize` and `approve` build around a secret are left
-- to the caller: they return the request id, and the code with the request that it answers.
use development_bridge.Prelude.{
  ℕ, ◌+◌, String, Bool, false, ◌&&◌, Option, none, some, List, [], ◌∷◌, ◌==◌, if◌then◌else◌, any,
}
use development_bridge.OAuth.Models.{
  PendingAuthorization, AuthorizationCode, Token, OAuthDb, invalid_target, invalid_grant,
  duplicate_key, Reply, returns, raises,
}
use development_bridge.OAuth.Store.{
  save_pending, consume_pending, save_code, consume_code, save_access_token, access_token,
  save_refresh_token, consume_refresh_token,
}

pub record Provider : Type 0 where
  pub resource_url : String
  pub access_token_ttl_seconds : ℕ
  pub refresh_token_ttl_seconds : ℕ

pub record AuthorizationParams : Type 0 where
  pub resource : Option String
  pub scopes : Option (List String)
  pub state : Option String
  pub code_challenge : String
  pub redirect_uri : String
  pub redirect_uri_provided_explicitly : Bool

-- what OAuthToken carries: the new secrets and the scopes
pub record Issued : Type 0 where
  pub access : String
  pub refresh : String
  pub expires_in : ℕ
  pub scopes : List String

-- the values of `secrets.token_urlsafe` in the order of use
pub record Secrets : Type 0 where
  pub family : String
  pub access : String
  pub refresh : String

-- params.scopes or ["bridge"]
abbrev pub scopes_or_bridge : Option (List String) → List String
scopes_or_bridge none = "bridge" ∷ []
scopes_or_bridge (some []) = "bridge" ∷ []
scopes_or_bridge (some (s ∷ scopes)) = s ∷ scopes

abbrev pub is_resource : Provider → Option String → Bool
is_resource v none = false
is_resource v (some r) = r == v.resource_url

abbrev pub has_bridge : List String → Bool
has_bridge = any (λ s. s == "bridge")

-- family_id or secrets.token_urlsafe(24)
abbrev pub family_of : Option String → Secrets → String
family_of none s = s.family
family_of (some f) s = if f == "" then s.family else f

module _ (digest : String → String) (v : Provider) where
  unfoldable pub authorize :
      ℕ → String → AuthorizationParams → String → OAuthDb → Reply String × OAuthDb
  unfolding save_pending
  authorize now client_id params request db =
      if is_resource v params.resource
      then elim (save_pending digest request
          (record {
            client_id = client_id;
            state = params.state;
            scopes = scopes_or_bridge params.scopes;
            code_challenge = params.code_challenge;
            redirect_uri = params.redirect_uri;
            redirect_uri_provided_explicitly = params.redirect_uri_provided_explicitly;
            resource = v.resource_url;
            expires_at = now + 300;
          })
          db) [ none ↦ (raises duplicate_key, db) | some db' ↦ (returns request, db') ]
      else (raises invalid_target, db)

  abbrev pub code_for : ℕ → PendingAuthorization → AuthorizationCode
  code_for now p = record {
    scopes = p.scopes;
    expires_at = now + 300;
    client_id = p.client_id;
    code_challenge = p.code_challenge;
    redirect_uri = p.redirect_uri;
    redirect_uri_provided_explicitly = p.redirect_uri_provided_explicitly;
    resource = p.resource;
    subject = "owner";
  }

  unfoldable pub approve_pending :
      ℕ → String → PendingAuthorization → OAuthDb → Reply (Option PendingAuthorization) × OAuthDb
  unfolding save_code
  approve_pending now secret p db = elim (save_code digest secret (code_for now p) db) [
    | none ↦ (raises duplicate_key, db)
    | some db' ↦ (returns (some p), db')
  ]

  -- `verified` is `verify_owner_password`; the code is sent to the request's redirect_uri
  unfoldable pub approve :
      Bool → ℕ → String → String → OAuthDb → Reply (Option PendingAuthorization) × OAuthDb
  unfolding approve_pending consume_pending
  approve verified now request secret db =
      if verified
      then (let (found, db') = consume_pending digest now request db in
          elim found [ none ↦ (returns none, db') | some p ↦ approve_pending now secret p db' ])
      else (returns none, db)

  abbrev pub token_for : ℕ → ℕ → String → List String → String → Token
  token_for now ttl client_id scopes family = record {
    client_id = client_id;
    scopes = scopes;
    expires_at = now + ttl;
    resource = v.resource_url;
    subject = "owner";
    family_id = family;
  }

  -- _issue_tokens: the access token is saved, and committed, before the refresh token
  unfoldable pub issue_tokens :
      ℕ → String → List String → String → Option String → Secrets → OAuthDb → Reply Issued × OAuthDb
  unfolding save_access_token save_refresh_token
  issue_tokens now client_id scopes resource family_id s db =
      let family = family_of family_id s in
      if (resource == v.resource_url) && has_bridge scopes
      then elim (save_access_token digest s.access
          (token_for now v.access_token_ttl_seconds client_id scopes family) db) [
            | none ↦ (raises duplicate_key, db)
            | some db' ↦
                elim (save_refresh_token digest s.refresh
                  (token_for now v.refresh_token_ttl_seconds client_id scopes family) db') [
                    | none ↦ (raises duplicate_key, db')
                    | some db'' ↦ (
                      returns (record {
                        access = s.access;
                        refresh = s.refresh;
                        expires_in = v.access_token_ttl_seconds;
                        scopes = scopes;
                      }),
                      db'',
                    )
                  ]
          ]
      else (raises invalid_target, db)

  unfoldable pub exchange_authorization_code :
      ℕ → String → String → Secrets → OAuthDb → Reply Issued × OAuthDb
  unfolding consume_code issue_tokens
  exchange_authorization_code now client_id secret s db =
      let (found, db') = consume_code digest now secret db in
      elim found [
        | none ↦ (raises invalid_grant, db')
        | some c ↦
            if c.client_id == client_id
            then issue_tokens now client_id c.scopes c.resource none s db'
            else (raises invalid_grant, db')
      ]

  unfoldable pub exchange_refresh_token :
      ℕ → String → String → List String → Secrets → OAuthDb → Reply Issued × OAuthDb
  unfolding consume_refresh_token issue_tokens
  exchange_refresh_token now client_id secret scopes s db =
      let (found, db') = consume_refresh_token digest now secret db in
      elim found [
        | none ↦ (raises invalid_grant, db')
        | some t ↦
            if t.client_id == client_id
            then issue_tokens now client_id scopes t.resource (some t.family_id) s db'
            else (raises invalid_grant, db')
      ]

  unfoldable pub load_access_token : ℕ → String → OAuthDb → Option Token
  unfolding access_token
  load_access_token now secret db = elim (access_token digest now secret db) [
    | none ↦ none
    | some t ↦ if t.resource == v.resource_url then some t else none
  ]
