-- ===== src/OAuth/Models.antt =====
-- app/auth/models.py, and the tables of app/auth/store.py as lists of rows in the order of insertion.
-- Times are whole seconds: the expiry of a code has a fraction in the source, and a test against the
-- integer `unixepoch()` does not depend on it. A row's column `data` is the JSON text of a value
-- without its secret, and stands here as that value.
use development_bridge.Prelude.{ℕ, String, Bool, Option, List, []}

pub record PendingAuthorization : Type 0 where
  pub client_id : String
  pub state : Option String
  pub scopes : List String
  pub code_challenge : String
  pub redirect_uri : String
  pub redirect_uri_provided_explicitly : Bool
  pub resource : String
  pub expires_at : ℕ

-- BridgeAuthorizationCode without `code`
pub record AuthorizationCode : Type 0 where
  pub scopes : List String
  pub expires_at : ℕ
  pub client_id : String
  pub code_challenge : String
  pub redirect_uri : String
  pub redirect_uri_provided_explicitly : Bool
  pub resource : String
  pub subject : String

-- BridgeAccessToken and BridgeRefreshToken without `token`. The claim `iss` of an access token is the
-- provider's issuer.
pub record Token : Type 0 where
  pub client_id : String
  pub scopes : List String
  pub expires_at : ℕ
  pub resource : String
  pub subject : String
  pub family_id : String

-- A row of a table of secrets, by the digest of its secret.
pub record Row (A : Type 0) : Type 0 where
  pub digest : String
  pub data' : A
  pub expires_at : ℕ

pub record Client : Type 0 where
  pub client_id : String
  pub data' : String

pub record OAuthDb : Type 0 where
  pub clients : List Client
  pub pending : List (Row PendingAuthorization)
  pub codes : List (Row AuthorizationCode)
  pub access_tokens : List (Row Token)
  pub refresh_tokens : List (Row Token)

abbrev pub empty_oauth : OAuthDb
empty_oauth = record {
  clients = [];
  pending = [];
  codes = [];
  access_tokens = [];
  refresh_tokens = [];
}

-- What a grant may raise.
pub data OAuthError : Type 0 where
  invalid_target invalid_grant : OAuthError
  -- sqlite3.IntegrityError
  duplicate_key : OAuthError

-- The tables come back beside an error too: what was deleted before a raise stays deleted.
pub data Reply (A : Type 0) : Type 0 where
  returns : A → Reply A
  raises : OAuthError → Reply A
