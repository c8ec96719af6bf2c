-- ===== src/OAuth/Calls.antt =====
-- Histories of calls of the OAuth provider, and which tables each call touches.
use development_bridge.Prelude.{
  ℕ, String, Bool, true, ◌&&◌, Option, none, some, List, [], ◌∷◌, ◌++◌, ◌≡◌, refl, arith, ◌==◌, inl,
  inr, Bool-cases, any,
}
use development_bridge.OAuth.Models.{Token, Row, Client, OAuthDb}
use development_bridge.OAuth.Store.{same_digest, revoke, save_client}
use development_bridge.OAuth.Provider.{
  Provider, AuthorizationParams, Secrets, authorize, approve, issue_tokens,
  exchange_authorization_code, exchange_refresh_token, token_for, has_bridge, family_of,
}

pub data OAuthCall : Type 0 where
  registers : Client → OAuthCall
  authorizes : ℕ → String → AuthorizationParams → String → OAuthCall
  approves : Bool → ℕ → String → String → OAuthCall
  exchanges_code : ℕ → String → String → Secrets → OAuthCall
  exchanges_refresh : ℕ → String → String → List String → Secrets → OAuthCall
  revokes : Token → OAuthCall

abbrev pub registered : OAuthDb → Option OAuthDb → OAuthDb
registered db none = db
registered db (some db') = db'

module _ (digest : String → String) (v : Provider) where
  unfoldable pub perform : OAuthCall → OAuthDb → OAuthDb
  perform (registers c) db = registered db (save_client c db)
  perform (authorizes now client_id params request) db =
      (authorize digest v now client_id params request db).1
  perform (approves verified now request secret) db =
      (approve digest v verified now request secret db).1
  perform (exchanges_code now client_id secret s) db =
      (exchange_authorization_code digest v now client_id secret s db).1
  perform (exchanges_refresh now client_id secret scopes s) db =
      (exchange_refresh_token digest v now client_id secret scopes s db).1
  perform (revokes token) db = revoke token db

  unfoldable pub run : List OAuthCall → OAuthDb → OAuthDb
  run [] db = db
  run (c ∷ cs) db = run cs (perform c db)

  abbrev pub token_row : String → Token → Row Token
  token_row secret t = record { digest = digest secret; data' = t; expires_at = t.expires_at }

  -- what `issue_tokens` adds to the tables of tokens
  pub data Issues (scopes : List String) (family : String) (s : Secrets) (db db' : OAuthDb)
      : Type 0 where
    nothing : db' ≡ db → Issues scopes family s db db'
    one :
        (a : Token)
        → a.family_id ≡ family
        → a.resource ≡ v.resource_url
        → has_bridge a.scopes ≡ true
        → db' ≡ record db { access_tokens = db.access_tokens ++ token_row s.access a ∷ [] }
        → Issues scopes family s db db'
    two :
        (a r : Token)
        → a.family_id ≡ family
        → a.resource ≡ v.resource_url
        → has_bridge a.scopes ≡ true
        → r.family_id ≡ family
        → r.resource ≡ v.resource_url
        → has_bridge r.scopes ≡ true
        → db' ≡ record db {
          access_tokens = db.access_tokens ++ token_row s.access a ∷ [];
          refresh_tokens = db.refresh_tokens ++ token_row s.refresh r ∷ [];
        }
        → Issues scopes family s db db'

  pub issue_tokens-Issues :
      (now : ℕ) (client_id : String) (scopes : List String) (resource : String)
      (family : Option String) (s : Secrets) (db : OAuthDb)
      → Issues scopes
          (family_of family s)
          s
          db
          (issue_tokens digest v now client_id scopes resource family s db).1
  unfolding issue_tokens
  issue_tokens-Issues now client_id scopes resource family s db =
      elim (Bool-cases ((resource == v.resource_url) && has_bridge scopes)) [
        | inr t ↦ rw (t, issue_tokens) (nothing refl)
        | inl t ↦
            elim (Bool-cases (any (same_digest (token_row s.access access)) db.access_tokens)) [
              | inl x ↦ rw (t, issue_tokens) (rw (x, issue_tokens) (nothing refl))
              | inr x ↦
                  elim (Bool-cases
                    (any (same_digest (token_row s.refresh refresh)) db.refresh_tokens)) [
                      | inl y ↦
                          rw (t, issue_tokens)
                            (rw (x, issue_tokens)
                              (rw (y, issue_tokens) (one access refl refl (ground arith) refl)))
                      | inr y ↦
                          rw (t, issue_tokens)
                            (rw (x, issue_tokens)
                              (rw (y, issue_tokens)
                                (two access refresh refl refl (ground arith) refl refl
                                  (ground arith) refl)))
                    ]
            ]
      ]
    where
      access : Token
      access =
          token_for digest v now v.access_token_ttl_seconds client_id scopes (family_of family s)

      refresh : Token
      refresh =
          token_for digest v now v.refresh_token_ttl_seconds client_id scopes (family_of family s)
