-- ===== src/OAuth/Effects.antt =====
-- What a call of the OAuth provider may do to the tables of codes and tokens.
use development_bridge.Prelude.{
  ℕ, String, Bool, true, Option, none, some, List, [], ◌∷◌, ◌++◌, ◌≡◌, refl, ◌⊎◌, select, first,
  All, All-append, All-select,
}
use development_bridge.OAuth.Models.{AuthorizationCode, Token, Row, OAuthDb}
use development_bridge.OAuth.Store.{is_live}
use development_bridge.OAuth.Provider.{Provider, has_bridge}
use development_bridge.OAuth.Calls.{OAuthCall, approves, exchanges_code, exchanges_refresh}

-- A table loses rows by a test, and may then get one row that satisfies `New`.
pub data TableStep {A : Type 0} (New : A → Type 0) (xs ys : List A) : Type 0 where
  same : ys ≡ xs → TableStep New xs ys
  grown : (x : A) → New x → ys ≡ xs ++ x ∷ [] → TableStep New xs ys
  cut : (q : A → Bool) → ys ≡ select q xs → TableStep New xs ys
  cut_grown : (q : A → Bool) (x : A) → New x → ys ≡ select q xs ++ x ∷ [] → TableStep New xs ys

pub TableStep-All :
    {A : Type 0} (P New : A → Type 0) (xs ys : List A)
    → ((x : A) → New x → P x)
    → TableStep New xs ys
    → All P xs
    → All P ys
TableStep-All P New xs ys k (same e) h = rw e h
TableStep-All P New xs ys k (grown x n e) h = rw e (All-append P xs (x ∷ []) h (k x n, tt))
TableStep-All P New xs ys k (cut q e) h = rw e (All-select P q xs h)
TableStep-All P New xs ys k (cut_grown q x n e) h =
    rw e (All-append P (select q xs) (x ∷ []) (All-select P q xs h) (k x n, tt))

module _ (digest : String → String) (v : Provider) where
  -- the digest of the code, or of the refresh token, that a call would save
  abbrev pub made_code : OAuthCall → Option String
  made_code (approves verified now request secret) = some (digest secret)
  made_code _ = none

  abbrev pub made_refresh : OAuthCall → Option String
  made_refresh (exchanges_code now client_id secret s) = some (digest s.refresh)
  made_refresh (exchanges_refresh now client_id secret scopes s) = some (digest s.refresh)
  made_refresh _ = none

  -- the family that a call may start
  abbrev pub made_family : OAuthCall → Option String
  made_family (exchanges_code now client_id secret s) = some s.family
  made_family (exchanges_refresh now client_id secret scopes s) = some s.family
  made_family _ = none

  abbrev pub NewCode : OAuthCall → Row AuthorizationCode → Type 0
  NewCode c x = made_code c ≡ some x.digest

  -- of the family that the call starts, or of that of a refresh token in the table
  abbrev pub OfFamily : OAuthCall → OAuthDb → Token → Type 0
  OfFamily c db t =
      (made_family c ≡ some t.family_id)
      ⊎ ((now : ℕ) × (d : String) × (r : Row Token) × (first (is_live now d) db.refresh_tokens
            ≡ some r)
          × (r.data'.family_id ≡ t.family_id))

  pub record NewToken (c : OAuthCall) (db : OAuthDb) (x : Row Token) : Type 0 where
    pub resource : x.data'.resource ≡ v.resource_url
    pub bridge : has_bridge x.data'.scopes ≡ true
    pub family : OfFamily c db x.data'

  pub record NewRefresh (c : OAuthCall) (db : OAuthDb) (x : Row Token) : Type 0 where
    pub token : NewToken c db x
    pub made : made_refresh c ≡ some x.digest

  pub record Step (c : OAuthCall) (db db' : OAuthDb) : Type 0 where
    pub codes : TableStep (NewCode c) db.codes db'.codes
    pub access : TableStep (NewToken c db) db.access_tokens db'.access_tokens
    pub refresh : TableStep (NewRefresh c db) db.refresh_tokens db'.refresh_tokens

  pub Step-refl : (c : OAuthCall) (db : OAuthDb) → Step c db db
  Step-refl c db = record { codes = same refl; access = same refl; refresh = same refl }
