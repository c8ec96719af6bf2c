-- ===== src/OAuth/Steps.antt =====
-- Each call of `BridgeOAuthProvider` keeps to what its `Step` allows.
use development_bridge.Prelude.{
  ℕ, String, Bool, true, false, none, some, List, [], ◌∷◌, ◌++◌, ◌≡◌, refl, sym, ap, arith, ◌==◌,
  inl, inr, Bool-cases, Option-cases, any, delete, select, first, not,
}
use development_bridge.OAuth.Models.{
  PendingAuthorization, AuthorizationCode, Token, Row, Client, OAuthDb,
}
use development_bridge.OAuth.Store.{
  is_live, same_digest, revoke, save_client, consume_code, consume_refresh_token, save_code,
  consume_pending, save_pending, unexpired_value,
}
use development_bridge.OAuth.Provider.{
  Provider, AuthorizationParams, Secrets, authorize, approve, approve_pending,
  exchange_authorization_code, exchange_refresh_token, code_for, family_of,
}
use development_bridge.OAuth.Calls.{
  OAuthCall, registers, authorizes, approves, exchanges_code, exchanges_refresh, revokes, perform,
  token_row, Issues, nothing, one, two, issue_tokens-Issues,
}
use development_bridge.OAuth.Effects.{
  TableStep, same, grown, cut, cut_grown, made_code, made_refresh, OfFamily, NewCode, Step,
  Step-refl,
}

select-true : {A : Type 0} (xs : List A) → select (λ _. true) xs ≡ xs
select-true [] = refl
select-true (x ∷ xs) = ap (λ z. x ∷ z) (select-true xs)

module _ (digest : String → String) (v : Provider) where
  registers-Step :
      (c : Client) (db : OAuthDb)
      → Step digest v (registers c) db (perform digest v (registers c) db)
  unfolding perform save_client
  registers-Step c db = elim (Bool-cases (any (λ old. old.client_id == c.client_id) db.clients)) [
    | inl t ↦ rw (t, perform, save_client) (Step-refl digest v (registers c) db)
    | inr t ↦
        rw (t, perform, save_client)
          (record { codes = same refl; access = same refl; refresh = same refl })
  ]

  authorizes-Step :
      (now : ℕ) (client_id : String) (params : AuthorizationParams) (request : String)
      (db : OAuthDb)
      → let c = authorizes now client_id params request in
        Step digest v c db (perform digest v c db)
  unfolding perform authorize save_pending
  authorizes-Step now client_id params request db = record {
    codes = same (ground arith);
    access = same (ground arith);
    refresh = same (ground arith);
  }

  approve_pending-codes :
      (now : ℕ) (secret : String) (p : PendingAuthorization) (c : OAuthCall) (before db : OAuthDb)
      → made_code digest v c ≡ some (digest secret)
      → before.codes ≡ db.codes
      → before.access_tokens ≡ db.access_tokens
      → before.refresh_tokens ≡ db.refresh_tokens
      → Step digest v c before (approve_pending digest v now secret p db).1
  unfolding approve_pending save_code
  approve_pending-codes now secret p c before db m e f g =
      elim (Bool-cases (any (same_digest row) db.codes)) [
        | inl t ↦
            rw (t, approve_pending, save_code)
              (record { codes = same (sym e); access = same (sym f); refresh = same (sym g) })
        | inr t ↦
            rw (t, approve_pending, save_code)
              (record {
                codes = grown row m (ap (λ z. z ++ row ∷ []) (sym e));
                access = same (sym f);
                refresh = same (sym g);
              })
      ]
    where
      row : Row AuthorizationCode
      row = record {
        digest = digest secret;
        data' = code_for digest v now p;
        expires_at = (code_for digest v now p).expires_at;
      }

  approves-Step :
      (verified : Bool) (now : ℕ) (request secret : String) (db : OAuthDb)
      → let c = approves verified now request secret in Step digest v c db (perform digest v c db)
  unfolding perform approve consume_pending
  approves-Step false now request secret db =
      Step-refl digest v (approves false now request secret) db
  approves-Step true now request secret db =
      elim (Option-cases (unexpired_value now (digest request) db.pending)) [
        | inl e ↦
            rw (e, perform, approve, consume_pending)
              (record { codes = same refl; access = same refl; refresh = same refl })
        | inr (p, e) ↦
            rw (e, perform, approve, consume_pending)
              (approve_pending-codes now secret p (approves true now request secret) db
                (record db { pending = delete (is_live now (digest request)) db.pending }) refl refl
                refl refl)
      ]

  abbrev OneOf : OAuthCall → OAuthDb → String → Type 0
  OneOf c db family = (t : Token) → t.family_id ≡ family → OfFamily digest v c db t

  -- the tables of tokens after `issue_tokens` on a database that lost codes or refresh tokens
  granted-Step :
      (c : OAuthCall) (before db db' : OAuthDb) (scopes : List String) (family : String)
      (s : Secrets)
      → TableStep (NewCode digest v c) before.codes db.codes
      → before.access_tokens ≡ db.access_tokens
      → (q : Row Token → Bool) → db.refresh_tokens ≡ select q before.refresh_tokens
      → made_refresh digest v c ≡ some (digest s.refresh)
      → OneOf c before family
      → Issues digest v scopes family s db db'
      → Step digest v c before db'
  granted-Step c before db db' scopes family s k e q f m o (nothing g) =
      rw g (record { codes = k; access = same (sym e); refresh = cut q f })
  granted-Step c before db db' scopes family s k e q f m o (one a af ar ab g) = rw g (record {
    codes = k;
    access =
        grown (token_row digest v s.access a)
          (record { resource = ar; bridge = ab; family = o a af })
          (ap (λ z. z ++ token_row digest v s.access a ∷ []) (sym e));
    refresh = cut q f;
  })
  granted-Step c before db db' scopes family s k e q f m o (two a r af ar ab rf rr rb g) =
      rw g (record {
        codes = k;
        access =
            grown (token_row digest v s.access a)
              (record { resource = ar; bridge = ab; family = o a af })
              (ap (λ z. z ++ token_row digest v s.access a ∷ []) (sym e));
        refresh =
            cut_grown q (token_row digest v s.refresh r)
              (record { token = record { resource = rr; bridge = rb; family = o r rf }; made = m })
              (ap (λ z. z ++ token_row digest v s.refresh r ∷ []) f);
      })

  exchanges_code-Step :
      (now : ℕ) (client_id secret : String) (s : Secrets) (db : OAuthDb)
      → let c = exchanges_code now client_id secret s in Step digest v c db (perform digest v c db)
  unfolding perform exchange_authorization_code consume_code
  exchanges_code-Step now client_id secret s db =
      elim (Option-cases (unexpired_value now (digest secret) db.codes)) [
        | inl e ↦
            rw (e, perform, exchange_authorization_code, consume_code)
              (record { codes = cut _ refl; access = same refl; refresh = same refl })
        | inr (a, e) ↦ elim (Bool-cases (a.client_id == client_id)) [
          | inr t ↦
              rw (e, t, perform, exchange_authorization_code, consume_code)
                (record { codes = cut _ refl; access = same refl; refresh = same refl })
          | inl t ↦
              rw (e, t, perform, exchange_authorization_code, consume_code)
                (granted-Step c db db' _ a.scopes s.family s (cut _ refl) refl (λ _. true)
                  (sym (select-true db.refresh_tokens)) refl (λ t f. inl (ap some (sym f)))
                  (issue_tokens-Issues digest v now client_id a.scopes a.resource none s db'))
        ]
      ]
    where
      c : OAuthCall
      c = exchanges_code now client_id secret s

      db' : OAuthDb
      db' = record db { codes = delete (is_live now (digest secret)) db.codes }

  same_family :
      (now : ℕ) (client_id secret : String) (scopes : List String) (s : Secrets) (db : OAuthDb)
      (r : Row Token)
      → first (is_live now (digest secret)) db.refresh_tokens ≡ some r
      → OneOf
          (exchanges_refresh now client_id secret scopes s)
          db
          (family_of (some r.data'.family_id) s)
  same_family now client_id secret scopes s db r e = elim (Bool-cases (r.data'.family_id == "")) [
    | inl t ↦ rw t (λ x f. inl (ap some (sym f)))
    | inr t ↦ rw t (λ x f. inr (now, digest secret, r, e, sym f))
  ]

  exchanges_refresh-Step :
      (now : ℕ) (client_id secret : String) (scopes : List String) (s : Secrets) (db : OAuthDb)
      → let c = exchanges_refresh now client_id secret scopes s in
        Step digest v c db (perform digest v c db)
  unfolding perform exchange_refresh_token consume_refresh_token
  exchanges_refresh-Step now client_id secret scopes s db =
      elim (Option-cases (first (is_live now (digest secret)) db.refresh_tokens)) [
        | inl e ↦
            rw (e, perform, exchange_refresh_token, consume_refresh_token)
              (record { codes = same refl; access = same refl; refresh = cut _ refl })
        | inr (r, e) ↦ elim (Bool-cases (r.data'.client_id == client_id)) [
          | inr t ↦
              rw (e, t, perform, exchange_refresh_token, consume_refresh_token)
                (record { codes = same refl; access = same refl; refresh = cut _ refl })
          | inl t ↦
              rw (e, t, perform, exchange_refresh_token, consume_refresh_token)
                (granted-Step c db db' _ scopes (family_of (some r.data'.family_id) s) s (same refl)
                  refl (λ x. not (is_live now (digest secret) x)) refl refl
                  (same_family now client_id secret scopes s db r e)
                  (issue_tokens-Issues digest v now client_id scopes r.data'.resource
                    (some r.data'.family_id) s db'))
        ]
      ]
    where
      c : OAuthCall
      c = exchanges_refresh now client_id secret scopes s

      db' : OAuthDb
      db' = record db { refresh_tokens = delete (is_live now (digest secret)) db.refresh_tokens }

  -- Whatever the call and its outcome: each table of secrets loses rows by a test and gets at most
  -- one row, made by the call.
  pub perform-Step : (c : OAuthCall) (db : OAuthDb) → Step digest v c db (perform digest v c db)
  unfolding perform revoke
  perform-Step (registers c) db = registers-Step c db
  perform-Step (authorizes now client_id params request) db =
      authorizes-Step now client_id params request db
  perform-Step (approves verified now request secret) db =
      approves-Step verified now request secret db
  perform-Step (exchanges_code now client_id secret s) db =
      exchanges_code-Step now client_id secret s db
  perform-Step (exchanges_refresh now client_id secret scopes s) db =
      exchanges_refresh-Step now client_id secret scopes s db
  perform-Step (revokes token) db = record {
    codes = same refl;
    access = cut _ refl;
    refresh = cut _ refl;
  }
