-- ===== src/OAuth/Tokens.antt =====
-- Which access and refresh tokens of app/auth/provider.py a history of calls leaves valid.
use development_bridge.Prelude.{
  ℕ, String, true, not, some, List, [], ◌∷◌, ◌≡◌, ◌≢◌, ap, ◌∙◌, arith, ◌==◌, inl, inr, ◌⊎◌,
  Bool-cases, Option-cases, first, select, All, first-All, eq_iff, subst,
}
use development_bridge.OAuth.Models.{Row, OAuthDb, Token, empty_oauth}
use development_bridge.OAuth.Store.{
  is_live, unexpired_value, access_token, refresh_token, in_family, revoke,
}
use development_bridge.OAuth.Provider.{Provider, has_bridge}
use development_bridge.OAuth.Calls.{OAuthCall, revokes, perform, run}
use development_bridge.OAuth.Effects.{TableStep-All, made_family, NewRefresh, NewToken}
use development_bridge.OAuth.Steps.{perform-Step}

-- a value that a table answers with has the properties of its rows
unexpired-All :
    {A : Type 0} (P : A → Type 0) (now : ℕ) (d : String) (rows : List (Row A)) {x : A}
    → All (λ r. P r.data') rows
    → unexpired_value now d rows ≡ some x
    → P x
unexpired-All P now d rows h e = elim (Option-cases (first (is_live now d) rows)) [
  | inl m ↦ absurd (ground (arith, m))
  | inr (r, m) ↦ subst P (ground (arith, m)) (first-All (λ r. P r.data') (is_live now d) rows h m)
]

module _ (digest : String → String) (v : Provider) where
  -- for this resource, with the scope "bridge"
  pub record IsBound (t : Token) : Type 0 where
    pub resource : t.resource ≡ v.resource_url
    pub bridge : has_bridge t.scopes ≡ true

  record Bound (db : OAuthDb) : Type 0 where
    access : All (λ r. IsBound r.data') db.access_tokens
    refresh : All (λ r. IsBound r.data') db.refresh_tokens

  run-Bound : (cs : List OAuthCall) (db : OAuthDb) → Bound db → Bound (run digest v cs db)
  unfolding run
  run-Bound [] db b = b
  run-Bound (c ∷ cs) db b =
      let s = perform-Step digest v c db in
      run-Bound cs (perform digest v c db) (record {
        access =
            TableStep-All (λ r. IsBound r.data') (NewToken digest v c db) _ _
              (λ x n. record { resource = n.resource; bridge = n.bridge }) s.access b.access;
        refresh =
            TableStep-All (λ r. IsBound r.data') (NewRefresh digest v c db) _ _
              (λ x n. record { resource = n.token.resource; bridge = n.token.bridge }) s.refresh
              b.refresh;
      })

  -- Whatever calls are made on empty tables: every access token and every refresh token that the store
  -- then answers with is for the provider's resource and has the scope "bridge".
  pub tokens-IsBound :
      (cs : List OAuthCall) (now : ℕ) (secret : String) {t : Token}
      → let db = run digest v cs empty_oauth in
        (access_token digest now secret db ≡ some t) ⊎ (refresh_token digest now secret db ≡ some t)
        → IsBound t
  unfolding access_token refresh_token
  tokens-IsBound cs now secret (inl e) =
      unexpired-All IsBound now (digest secret) _
        (run-Bound cs empty_oauth (record { access = tt; refresh = tt })).access e
  tokens-IsBound cs now secret (inr e) =
      unexpired-All IsBound now (digest secret) _
        (run-Bound cs empty_oauth (record { access = tt; refresh = tt })).refresh e

  module _ (family : String) where
    abbrev Other : Token → Type 0
    Other t = t.family_id ≢ family

    record Gone (db : OAuthDb) : Type 0 where
      access : All (λ r. Other r.data') db.access_tokens
      refresh : All (λ r. Other r.data') db.refresh_tokens

    new-Other :
        (c : OAuthCall) (db : OAuthDb) (x : Row Token)
        → made_family digest v c ≢ some family
        → Gone db
        → NewToken digest v c db x
        → Other x.data'
    new-Other c db x n g t f = elim t.family [
      | inl e ↦ n (e ∙ ap some f)
      | inr (now, d, r, m, e) ↦
          first-All (λ r. Other r.data') (is_live now d) db.refresh_tokens g.refresh m (e ∙ f)
    ]

    run-Gone :
        (cs : List OAuthCall) (db : OAuthDb)
        → All (λ c. made_family digest v c ≢ some family) cs
        → Gone db
        → Gone (run digest v cs db)
    unfolding run
    run-Gone [] db n g = g
    run-Gone (c ∷ cs) db n g =
        let s = perform-Step digest v c db in
        run-Gone cs (perform digest v c db) n.1 (record {
          access =
              TableStep-All (λ r. Other r.data') (NewToken digest v c db) _ _
                (λ x t. new-Other c db x n.0 g t) s.access g.access;
          refresh =
              TableStep-All (λ r. Other r.data') (NewRefresh digest v c db) _ _
                (λ x t. new-Other c db x n.0 g t.token) s.refresh g.refresh;
        })

    deleted-Other :
        (xs : List (Row Token))
        → All (λ r. Other r.data') (select (λ r. not (in_family family r)) xs)
    deleted-Other [] = tt
    deleted-Other (x ∷ xs) = elim (Bool-cases (x.data'.family_id == family)) [
      | inl t ↦ rw t (deleted-Other xs)
      | inr t ↦ rw t (
        (λ e. absurd (ground (arith, (eq_iff x.data'.family_id family).1 e, t))),
        deleted-Other xs,
      )
    ]

  -- After `revoke` of a token, and after any further calls of which none draws the token's family id
  -- as a new one: no access token and no refresh token of its family is ever answered with again.
  pub revoked_forever :
      (token : Token) (db : OAuthDb) (cs : List OAuthCall)
      → All (λ c. made_family digest v c ≢ some token.family_id) cs
      → (now : ℕ) (secret : String) {t : Token}
      → let db' = run digest v (revokes token ∷ cs) db in
        (access_token digest now secret db' ≡ some t)
          ⊎ (refresh_token digest now secret db' ≡ some t)
        → t.family_id ≢ token.family_id
  unfolding run perform revoke access_token refresh_token
  revoked_forever token db cs n now secret {t} h = elim h [
    | inl e ↦ unexpired-All (Other token.family_id) now (digest secret) _ gone.access e
    | inr e ↦ unexpired-All (Other token.family_id) now (digest secret) _ gone.refresh e
  ]
    where
      gone : Gone token.family_id (run digest v cs (revoke token db))
      gone = run-Gone token.family_id cs (revoke token db) n (record {
        access = deleted-Other token.family_id db.access_tokens;
        refresh = deleted-Other token.family_id db.refresh_tokens;
      })
