-- ===== src/OAuth/Single.antt =====
-- Authorization codes and refresh tokens of app/auth/provider.py are good for one exchange.
use development_bridge.Prelude.{
  ℕ, String, false, ◌≤◌, none, some, List, [], ◌∷◌, ◌≡◌, ◌≢◌, refl, sym, ap, ◌∙◌, arith, ◌==◌, inl,
  inr, Bool-cases, delete, first, All, All-map, All-append, subst, Option-cases, eq_iff,
}
use development_bridge.OAuth.Models.{Row, OAuthDb, raises, invalid_grant}
use development_bridge.OAuth.Store.{
  is_live, unexpired_value, row_data, consume_code, consume_refresh_token,
}
use development_bridge.OAuth.Provider.{
  Provider, Secrets, exchange_authorization_code, exchange_refresh_token, family_of,
}
use development_bridge.OAuth.Calls.{
  OAuthCall, exchanges_code, exchanges_refresh, perform, run, token_row, Issues, nothing, one, two,
  issue_tokens-Issues,
}
use development_bridge.OAuth.Effects.{TableStep-All, made_code, made_refresh, NewCode, NewRefresh}
use development_bridge.OAuth.Steps.{perform-Step}

abbrev Unusable : {A : Type 0} → ℕ → String → Row A → Type 0
Unusable now d r = is_live now d r ≡ false

dead_later :
    {A : Type 0} (now later : ℕ) (d : String)
    → now ≤ later
    → (r : Row A) → Unusable now d r
    → Unusable later d r
dead_later now later d h r k = ground arith

dead_other : {A : Type 0} (now : ℕ) (d : String) (r : Row A) → d ≢ r.digest → Unusable now d r
dead_other now d r n = elim (Bool-cases (r.digest == d)) [
  | inl t ↦ absurd (n (sym ((eq_iff r.digest d).0 t)))
  | inr t ↦ rw t refl
]

dead_deleted :
    {A : Type 0} (now : ℕ) (d : String) (xs : List (Row A))
    → All (Unusable now d) (delete (is_live now d) xs)
dead_deleted now d [] = tt
dead_deleted now d (x ∷ xs) = elim (Bool-cases (is_live now d x)) [
  | inl t ↦ rw t (dead_deleted now d xs)
  | inr t ↦ rw t (t, dead_deleted now d xs)
]

dead_first :
    {A : Type 0} (now : ℕ) (d : String) (xs : List (Row A))
    → All (Unusable now d) xs
    → first (is_live now d) xs ≡ none
dead_first now d [] h = refl
dead_first now d (x ∷ xs) h = rw (h.0) (dead_first now d xs h.1)

dead_kept :
    {A : Type 0} (now : ℕ) (d : String) (xs : List (Row A))
    → All (Unusable now d) xs
    → delete (is_live now d) xs ≡ xs
dead_kept now d [] h = refl
dead_kept now d (x ∷ xs) h = rw (h.0) (ap (λ z. x ∷ z) (dead_kept now d xs h.1))

module _ (digest : String → String) (v : Provider) where
  dead-code :
      (now : ℕ) (d : String) (cs : List OAuthCall) (db : OAuthDb)
      → All (λ c. made_code digest v c ≢ some d) cs
      → All (Unusable now d) db.codes
      → All (Unusable now d) (run digest v cs db).codes
  unfolding run
  dead-code now d [] db n h = h
  dead-code now d (c ∷ cs) db n h = dead-code now d cs (perform digest v c db) n.1 (
      TableStep-All (Unusable now d) (NewCode digest v c) _ _
        (λ x e. dead_other now d x (λ f. n.0 (e ∙ ap some (sym f))))
        (perform-Step digest v c db).codes h)

  dead-refresh :
      (now : ℕ) (d : String) (cs : List OAuthCall) (db : OAuthDb)
      → All (λ c. made_refresh digest v c ≢ some d) cs
      → All (Unusable now d) db.refresh_tokens
      → All (Unusable now d) (run digest v cs db).refresh_tokens
  unfolding run
  dead-refresh now d [] db n h = h
  dead-refresh now d (c ∷ cs) db n h = dead-refresh now d cs (perform digest v c db) n.1 (
      TableStep-All (Unusable now d) (NewRefresh digest v c db) _ _
        (λ x e. dead_other now d x (λ f. n.0 (e.made ∙ ap some (sym f))))
        (perform-Step digest v c db).refresh h)

  code_refused :
      (now : ℕ) (client_id secret : String) (s : Secrets) (db : OAuthDb)
      → All (Unusable now (digest secret)) db.codes
      → exchange_authorization_code digest v now client_id secret s db ≡ (raises invalid_grant, db)
  unfolding exchange_authorization_code consume_code
  code_refused now client_id secret s db h =
      rw
        (
          ap row_data (dead_first now (digest secret) db.codes h),
          exchange_authorization_code,
          consume_code,
        )
        (ap (λ z. (raises invalid_grant, record db { codes = z }))
          (dead_kept now (digest secret) db.codes h))

  refresh_refused :
      (now : ℕ) (client_id secret : String) (scopes : List String) (s : Secrets) (db : OAuthDb)
      → All (Unusable now (digest secret)) db.refresh_tokens
      → exchange_refresh_token digest v now client_id secret scopes s db
        ≡ (raises invalid_grant, db)
  unfolding exchange_refresh_token consume_refresh_token
  refresh_refused now client_id secret scopes s db h =
      rw
        (
          ap row_data (dead_first now (digest secret) db.refresh_tokens h),
          exchange_refresh_token,
          consume_refresh_token,
        )
        (ap (λ z. (raises invalid_grant, record db { refresh_tokens = z }))
          (dead_kept now (digest secret) db.refresh_tokens h))

  issued-codes :
      (scopes : List String) (family : String) (s : Secrets) (db db' : OAuthDb)
      → Issues digest v scopes family s db db'
      → db'.codes ≡ db.codes
  issued-codes scopes family s db db' (nothing e) = ap (λ z. z.codes) e
  issued-codes scopes family s db db' (one a f r b e) = ap (λ z. z.codes) e
  issued-codes scopes family s db db' (two a x f r b f' r' b' e) = ap (λ z. z.codes) e

  issued_dead :
      (now : ℕ) (d : String) (scopes : List String) (family : String) (s : Secrets)
      (db db' : OAuthDb)
      → d ≢ digest s.refresh
      → All (Unusable now d) db.refresh_tokens
      → Issues digest v scopes family s db db'
      → All (Unusable now d) db'.refresh_tokens
  issued_dead now d scopes family s db db' n h (nothing e) = rw e h
  issued_dead now d scopes family s db db' n h (one a f r b e) = rw e h
  issued_dead now d scopes family s db db' n h (two a x f r b f' r' b' e) = rw e (
      All-append (Unusable now d) db.refresh_tokens (token_row digest v s.refresh x ∷ []) h
        (dead_other now d (token_row digest v s.refresh x) n, tt))

  code_spent :
      (now : ℕ) (client_id secret : String) (s : Secrets) (db : OAuthDb)
      → All
          (Unusable now (digest secret))
          (perform digest v (exchanges_code now client_id secret s) db).codes
  unfolding perform exchange_authorization_code consume_code
  code_spent now client_id secret s db =
      elim (Option-cases (unexpired_value now (digest secret) db.codes)) [
        | inl e ↦ rw (e, perform, exchange_authorization_code, consume_code) gone
        | inr (a, e) ↦ elim (Bool-cases (a.client_id == client_id)) [
          | inr t ↦ rw (e, t, perform, exchange_authorization_code, consume_code) gone
          | inl t ↦
              rw (e, t, perform, exchange_authorization_code, consume_code)
                (subst (All (Unusable now (digest secret)))
                  (sym (
                    issued-codes a.scopes s.family s _ _ (
                      issue_tokens-Issues digest v now client_id a.scopes a.resource none s
                        (record db { codes = delete (is_live now (digest secret)) db.codes }))))
                  gone)
        ]
      ]
    where
      gone : All (Unusable now (digest secret)) (delete (is_live now (digest secret)) db.codes)
      gone = dead_deleted now (digest secret) db.codes

  refresh_spent :
      (now : ℕ) (client_id secret : String) (scopes : List String) (s : Secrets) (db : OAuthDb)
      → digest secret ≢ digest s.refresh
      → All
          (Unusable now (digest secret))
          (perform digest v (exchanges_refresh now client_id secret scopes s) db).refresh_tokens
  unfolding perform exchange_refresh_token consume_refresh_token
  refresh_spent now client_id secret scopes s db n =
      elim (Option-cases (first (is_live now (digest secret)) db.refresh_tokens)) [
        | inl e ↦ rw (e, perform, exchange_refresh_token, consume_refresh_token) gone
        | inr (r, e) ↦ elim (Bool-cases (r.data'.client_id == client_id)) [
          | inr t ↦ rw (e, t, perform, exchange_refresh_token, consume_refresh_token) gone
          | inl t ↦
              rw (e, t, perform, exchange_refresh_token, consume_refresh_token)
                (issued_dead now (digest secret) scopes (family_of (some r.data'.family_id) s) s
                  (record db {
                    refresh_tokens = delete (is_live now (digest secret)) db.refresh_tokens;
                  })
                  _ n gone
                  (issue_tokens-Issues digest v now client_id scopes r.data'.resource
                    (some r.data'.family_id) s _))
        ]
      ]
    where
      gone :
          All
            (Unusable now (digest secret))
            (delete (is_live now (digest secret)) db.refresh_tokens)
      gone = dead_deleted now (digest secret) db.refresh_tokens

  -- An authorization code is good for one exchange: after `exchange_authorization_code` was called with
  -- it, by whatever client and with whatever outcome, and after any further calls of which none saves
  -- a code with the same digest, each later exchange of it raises invalid_grant and changes nothing.
  pub code_once :
      (now : ℕ) (client_id secret : String) (s : Secrets) (db : OAuthDb) (cs : List OAuthCall)
      → All (λ c. made_code digest v c ≢ some (digest secret)) cs
      → (later : ℕ) → now ≤ later
      → (client_id' : String) (s' : Secrets)
      → let db' = run digest v (exchanges_code now client_id secret s ∷ cs) db in
        exchange_authorization_code digest v later client_id' secret s' db'
        ≡ (raises invalid_grant, db')
  unfolding run
  code_once now client_id secret s db cs n later h client_id' s' =
      code_refused later client_id' secret s' _ (
        All-map _ (dead_later now later (digest secret) h)
          (dead-code now (digest secret) cs _ n (code_spent now client_id secret s db)))

  -- Refresh tokens are rotated: after `exchange_refresh_token` was called with one, whatever the
  -- outcome, each later exchange of it raises invalid_grant and changes nothing. Neither the new
  -- refresh token nor one that a call in between would save has the same digest.
  pub refresh_once :
      (now : ℕ) (client_id secret : String) (scopes : List String) (s : Secrets) (db : OAuthDb)
      (cs : List OAuthCall)
      → digest secret ≢ digest s.refresh
      → All (λ c. made_refresh digest v c ≢ some (digest secret)) cs
      → (later : ℕ) → now ≤ later
      → (client_id' : String) (scopes' : List String) (s' : Secrets)
      → let db' = run digest v (exchanges_refresh now client_id secret scopes s ∷ cs) db in
        exchange_refresh_token digest v later client_id' secret scopes' s' db'
        ≡ (raises invalid_grant, db')
  unfolding run
  refresh_once now client_id secret scopes s db cs m n later h client_id' scopes' s' =
      refresh_refused later client_id' secret scopes' s' _ (
        All-map _ (dead_later now later (digest secret) h) (
          dead-refresh now (digest secret) cs _ n
            (refresh_spent now client_id secret scopes s db m)))
