-- ===== src/OAuth/Store.antt =====
-- app/auth/store.py over the tables. `digest` is `token_digest` (sha256 of the secret), and `now` is
-- SQLite's `unixepoch()`.
use development_bridge.Prelude.{
  ℕ, String, Bool, ◌&&◌, Option, none, some, List, ◌==◌, leb, first, insert, delete,
}
use development_bridge.OAuth.Models.{
  PendingAuthorization, AuthorizationCode, Token, Row, Client, OAuthDb,
}

-- WHERE key = ? AND expires_at >= unixepoch()
abbrev pub is_live : {A : Type 0} → ℕ → String → Row A → Bool
is_live now d r = r.digest == d && leb now r.expires_at

abbrev pub same_digest : {A : Type 0} → Row A → Row A → Bool
same_digest new old = old.digest == new.digest

abbrev pub row_data : {A : Type 0} → Option (Row A) → Option A
row_data none = none
row_data (some r) = some r.data'

-- _unexpired_value
abbrev pub unexpired_value : {A : Type 0} → ℕ → String → List (Row A) → Option A
unexpired_value now d rows = row_data (first (is_live now d) rows)

-- _consume: DELETE ... RETURNING data, of which the first row is fetched
abbrev pub consume : {A : Type 0} → ℕ → String → List (Row A) → Option A × List (Row A)
consume now d rows = (unexpired_value now d rows, delete (is_live now d) rows)

unfoldable pub save_client : Client → OAuthDb → Option OAuthDb
save_client c db = elim (insert (λ new old. old.client_id == new.client_id) c db.clients) [
  | none ↦ none
  | some rows ↦ some (record db { clients = rows })
]

unfoldable pub client : String → OAuthDb → Option String
client id db = elim (first (λ c. c.client_id == id) db.clients) [
  | none ↦ none
  | some c ↦ some c.data'
]

module _ (digest : String → String) where
  unfoldable pub save_pending : String → PendingAuthorization → OAuthDb → Option OAuthDb
  save_pending request value db =
      elim (insert same_digest
        (record { digest = digest request; data' = value; expires_at = value.expires_at })
        db.pending) [ none ↦ none | some rows ↦ some (record db { pending = rows }) ]

  unfoldable pub pending : ℕ → String → OAuthDb → Option PendingAuthorization
  pending now request db = unexpired_value now (digest request) db.pending

  unfoldable pub consume_pending : ℕ → String → OAuthDb → Option PendingAuthorization × OAuthDb
  consume_pending now request db =
      let (found, rows) = consume now (digest request) db.pending in
      (found, record db { pending = rows })

  unfoldable pub save_code : String → AuthorizationCode → OAuthDb → Option OAuthDb
  save_code code value db =
      elim (insert same_digest
        (record { digest = digest code; data' = value; expires_at = value.expires_at }) db.codes) [
          | none ↦ none
          | some rows ↦ some (record db { codes = rows })
        ]

  unfoldable pub code : ℕ → String → OAuthDb → Option AuthorizationCode
  code now secret db = unexpired_value now (digest secret) db.codes

  unfoldable pub consume_code : ℕ → String → OAuthDb → Option AuthorizationCode × OAuthDb
  consume_code now secret db =
      let (found, rows) = consume now (digest secret) db.codes in
      (found, record db { codes = rows })

  unfoldable pub save_access_token : String → Token → OAuthDb → Option OAuthDb
  save_access_token secret value db =
      elim (insert same_digest
        (record { digest = digest secret; data' = value; expires_at = value.expires_at })
        db.access_tokens) [ none ↦ none | some rows ↦ some (record db { access_tokens = rows }) ]

  unfoldable pub access_token : ℕ → String → OAuthDb → Option Token
  access_token now secret db = unexpired_value now (digest secret) db.access_tokens

  unfoldable pub save_refresh_token : String → Token → OAuthDb → Option OAuthDb
  save_refresh_token secret value db =
      elim (insert same_digest
        (record { digest = digest secret; data' = value; expires_at = value.expires_at })
        db.refresh_tokens) [ none ↦ none | some rows ↦ some (record db { refresh_tokens = rows }) ]

  unfoldable pub refresh_token : ℕ → String → OAuthDb → Option Token
  refresh_token now secret db = unexpired_value now (digest secret) db.refresh_tokens

  unfoldable pub consume_refresh_token : ℕ → String → OAuthDb → Option Token × OAuthDb
  consume_refresh_token now secret db =
      let (found, rows) = consume now (digest secret) db.refresh_tokens in
      (found, record db { refresh_tokens = rows })

-- DELETE FROM ... WHERE family_id = ?, in both tables of tokens
abbrev pub in_family : String → Row Token → Bool
in_family family r = r.data'.family_id == family

unfoldable pub revoke : Token → OAuthDb → OAuthDb
revoke token db = record db {
  access_tokens = delete (in_family token.family_id) db.access_tokens;
  refresh_tokens = delete (in_family token.family_id) db.refresh_tokens;
}
