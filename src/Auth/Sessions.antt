-- ===== src/Auth/Sessions.antt =====
-- From login to logout: when a token authenticates, and whom.
use mathlib.Core.Option
use db_app.Base.{
  ℕ, String, ◌+◌, ◌≡◌, refl, ap, ◌∙◌, Bool, true, false, ◌&&◌, not, Option, none, some, [], ◌∷◌,
  arith, Dict, nat_eq, string_eq, Eq, ◌==◌, eq_of_beq, Bool-cases, inl, inr, ltb, take, contains,
  keys, lookup, lookup-insert_self, insert, filter, if◌then◌else◌,
}
use db_app.Layer0.Records.{done}
use db_app.Auth.{
  Account, Token, AuthDb, query_one, map_rows, disable, is_active_of, disable_excess_tokens,
  logged_in, login, user_of, checked_row, authenticate, revoke,
}

lookup-map_rows :
    {D : Type 0} ⦃e : Eq D⦄ (change : D → Token → Token) (key : D) (tokens : Dict D Token)
    → lookup key (map_rows change tokens) ≡ Option.map (change key) (lookup key tokens)
lookup-map_rows change key [] = refl
lookup-map_rows change key ((k, row) ∷ tokens) = elim (Bool-cases (k == key)) [
  | inl same ↦ rw same (ap (λ c. some (c row)) (ap change (eq_of_beq k key same)))
  | inr other ↦ rw other (lookup-map_rows change key tokens)
]

unchanged :
    (active stays : Bool) (row : Token)
    → stays ≡ true
    → (if active && not stays then disable row else row) ≡ row
unchanged true true row h = refl
unchanged false true row h = refl
unchanged active false row h = absurd (cc h)

module _ {D H : Type 0} ⦃e : Eq D⦄ (by_expiry : Dict D Token → Dict D Token)
    (token_hash : String → D) (checkpw : String → H → Bool) (token_lifetime : ℕ) where
  -- the user's active tokens after an insertion, of which three stay active
  abbrev pub stays_active : ℕ → D → Dict D Token → Bool
  stays_active user_id hash tokens =
      contains (keys (take 3 (by_expiry (filter (λ row. is_active_of user_id row.1) tokens)))) hash

  abbrev pub new_token : ℕ → ℕ → Token
  new_token user_id now = record {
    user_id = user_id;
    expiry_time = now + token_lifetime;
    active = true;
  }

  -- A login with the right password, for the one user of the name, succeeds with a fresh token. The
  -- token then authenticates that user until its lifetime has passed, if it is one of the three
  -- latest of the user.
  pub login-authenticate :
      (username password token : String) (now : ℕ) (db : AuthDb D H) (user_id : ℕ)
      (account : Account H)
      → query_one (filter (λ row. row.1.name == username) db.users) ≡ some (user_id, account)
      → checkpw password account.password_hash ≡ true
      → contains (keys db.tokens) (token_hash token) ≡ false
      → stays_active user_id
          (token_hash token)
          (insert (token_hash token) (new_token user_id now) db.tokens)
        ≡ true
      → (db' : AuthDb D H) × (login by_expiry token_hash checkpw token_lifetime username password
            token now db
          ≡ done (some token, db'))
        × ((time : ℕ)
            → authenticate token_hash token time db'
              ≡ (if ltb time (now + token_lifetime) then user_of db.users user_id else none))
  unfolding login logged_in authenticate disable_excess_tokens
  login-authenticate username password token now db user_id account found matches fresh kept = (
    db',
    rw (found, logged_in) (rw (matches, fresh) refl),
    λ time. ap (checked_row db.users time) stored ∙ in_time time,
  )
    where
      tokens : Dict D Token
      tokens = insert (token_hash token) (new_token user_id now) db.tokens

      db' : AuthDb D H
      db' = record db { tokens = disable_excess_tokens by_expiry user_id tokens }

      stored :
          lookup (token_hash token) (disable_excess_tokens by_expiry user_id tokens)
          ≡ some (new_token user_id now)
      stored =
          lookup-map_rows _ (token_hash token) tokens
          ∙ ap (Option.map _)
              (lookup-insert_self (token_hash token) (new_token user_id now) db.tokens)
          ∙ ap some (
              unchanged (is_active_of user_id (new_token user_id now)) _ (new_token user_id now)
                kept)

      in_time :
          (time : ℕ)
          → checked_row db.users time (some (new_token user_id now))
            ≡ (if ltb time (now + token_lifetime) then user_of db.users user_id else none)
      in_time time = ground arith

-- Whatever the tables hold, a revoked token authenticates nobody, and every token with another
-- hash authenticates whom it did.
pub authenticate-revoke :
    {D H : Type 0} ⦃e : Eq D⦄ (token_hash : String → D) (token other : String) (time : ℕ)
    (db : AuthDb D H)
    → authenticate token_hash other time (revoke token_hash token db) ≡ (
        if token_hash other == token_hash token
        then none
        else authenticate token_hash other time db)
unfolding authenticate revoke
authenticate-revoke token_hash token other time db =
    ap (checked_row db.users time) (
      lookup-map_rows (λ key row. if key == token_hash token then disable row else row)
        (token_hash other) db.tokens)
    ∙ revoked (token_hash other == token_hash token) (lookup (token_hash other) db.tokens)
  where
    revoked :
        (same : Bool) (row : Option Token)
        → checked_row db.users time (Option.map (λ r. if same then disable r else r) row)
          ≡ (if same then none else checked_row db.users time row)
    revoked true none = refl
    revoked false none = refl
    revoked true (some row) = ground arith
    revoked false (some row) = refl
