-- ===== src/Auth.antt =====
-- Users, tokens and protected routes (app/lib/auth/authenticator.py, app/adminapi/domain/auth.py,
-- app/lib/web/middlewares/auth.py). Hashes, the check of a password and Python's operations on
-- texts are parameters.
pub mod Sessions
pub mod Routes
use db_app.Base.{
  ℕ, String, ◌+◌, Bool, true, false, ◌&&◌, ◌||◌, not, Option, none, some, List, [], ◌∷◌, ◌++◌, map,
  Dict, nat_eq, string_eq, Eq, ◌==◌, ltb, contains, keys, lookup, insert, filter, any, take,
  if◌then◌else◌,
}
use db_app.Layer0.Records.{Outcome, raised, done, rejected, and_then}

pub data Role : Type 0 where
  admin : Role

pub record User : Type 0 where
  pub user_id : ℕ
  pub role : Role
  pub login : String

-- a row of `private.users` without its id, and one of `private.tokens` without its hash
pub record Account (H : Type 0) : Type 0 where
  pub name : String
  pub email : String
  pub role : Role
  pub password_hash : H

pub record Token : Type 0 where
  pub user_id : ℕ
  pub expiry_time : ℕ
  pub active : Bool

-- the tables, by their primary keys, with the next value of the users' sequence and `pg_roles`
pub record AuthDb (D H : Type 0) : Type 0 where
  pub users : Dict ℕ (Account H)
  pub tokens : Dict D Token
  pub roles : List String
  pub next_id : ℕ

-- `query_one`: it raises unless there is one row
abbrev pub query_one : {A : Type 0} → List A → Option A
query_one [] = none
query_one (row ∷ []) = some row
query_one (row ∷ next ∷ rows) = none

abbrev pub map_rows : {D : Type 0} → (D → Token → Token) → Dict D Token → Dict D Token
map_rows change [] = []
map_rows change ((key, row) ∷ tokens) = (key, change key row) ∷ map_rows change tokens

abbrev pub disable : Token → Token
disable row = record row { active = false }

abbrev pub is_active_of : ℕ → Token → Bool
is_active_of user_id row = row.user_id == user_id && row.active

-- The trigger of postgres/migrations/V043__multi_token.sql, after an insertion for the user: all but
-- three of the user's active tokens are disabled. `by_expiry` is its `ORDER BY expiry_time DESC`.
unfoldable pub disable_excess_tokens :
    {D : Type 0} ⦃e : Eq D⦄ → (Dict D Token → Dict D Token) → ℕ → Dict D Token → Dict D Token
disable_excess_tokens by_expiry user_id tokens =
    let latest = keys (take 3 (by_expiry (filter (λ row. is_active_of user_id row.1) tokens))) in
    map_rows
      (λ key row.
        if is_active_of user_id row && not (contains latest key) then disable row else row)
      tokens

-- the condition on the token's row
abbrev pub valid_at : ℕ → Token → Bool
valid_at now row = ltb now row.expiry_time && row.active

module _ {H : Type 0} where
  abbrev pub user_of : Dict ℕ (Account H) → ℕ → Option User
  user_of users user_id = elim (lookup user_id users) [
    | none ↦ none
    | some account ↦ some (record { user_id = user_id; role = account.role; login = account.name })
  ]

  abbrev pub checked_row : Dict ℕ (Account H) → ℕ → Option Token → Option User
  checked_row users now none = none
  checked_row users now (some row) =
      let user = user_of users row.user_id in if valid_at now row then user else none

-- `UPDATE … SET active = false WHERE token_hash = …`
abbrev pub deactivate : {D : Type 0} ⦃e : Eq D⦄ → D → Dict D Token → Dict D Token
deactivate hash = map_rows (λ key row. if key == hash then disable row else row)

module _ {D H : Type 0} ⦃e : Eq D⦄ (token_hash : String → D) where
  unfoldable pub authenticate : String → ℕ → AuthDb D H → Option User
  authenticate token now db = checked_row db.users now (lookup (token_hash token) db.tokens)

  unfoldable pub revoke : String → AuthDb D H → AuthDb D H
  revoke token db = record db { tokens = deactivate (token_hash token) db.tokens }

module _ {D H : Type 0} ⦃e : Eq D⦄ (by_expiry : Dict D Token → Dict D Token)
    (token_hash : String → D) (checkpw : String → H → Bool) (token_lifetime : ℕ) where
  -- `PostgresAuthenticator.login` with the token that `secrets` makes; `none` is `("", False)`
  unfoldable pub logged_in :
      Option (ℕ × Account H)
      → String
      → String
      → ℕ
      → AuthDb D H
      → Outcome (Option String × AuthDb D H)
  unfolding disable_excess_tokens
  logged_in none password token now db = done (none, db)
  logged_in (some (user_id, account)) password token now db =
      let row : Token = record {
        user_id = user_id;
        expiry_time = now + token_lifetime;
        active = true;
      } in
      let tokens =
        disable_excess_tokens by_expiry user_id (insert (token_hash token) row db.tokens) in
      let saved = done (some token, record db { tokens = tokens }) in
      if checkpw password account.password_hash
      then if contains (keys db.tokens) (token_hash token) then raised rejected else saved
      else done (none, db)

  unfoldable pub login :
      String → String → String → ℕ → AuthDb D H → Outcome (Option String × AuthDb D H)
  unfolding logged_in
  login username password token now db =
      logged_in (query_one (filter (λ row. row.1.name == username) db.users)) password token now db

module _ {D H : Type 0} (hashpw : String → H) where
  -- `_ensure_available`: a user with the name or the address, or a role with the name
  unfoldable pub is_available : String → String → AuthDb D H → Bool
  is_available username email db =
      not (any (λ row. row.1.name == username || row.1.email == email) db.users)
      && not (contains db.roles username)

  -- `AuthManager.register`; the failure stands for the conflict
  unfoldable pub register : String → String → String → AuthDb D H → Outcome (AuthDb D H)
  unfolding is_available
  register username email password db =
      let account : Account H = record {
        name = username;
        email = email;
        role = admin;
        password_hash = hashpw password;
      } in
      let created = record db {
        users = insert db.next_id account db.users;
        roles = username ∷ db.roles;
        next_id = db.next_id + 1;
      } in
      if is_available username email db then done created else raised rejected

-- what the middleware answers: the next handler with the user, or an error
pub data Answer : Type 0 where
  passed : Option User → Answer
  unauthorized : String → Answer
  forbidden : Answer

abbrev pub is_role : Role → Role → Bool
is_role admin admin = true

abbrev pub has_role : List Role → Role → Bool
has_role allowed role = any (is_role role) allowed

-- `split` is `str.split(None, 1)`.
module _ (strip lower : String → String) (split : String → List String) where
  abbrev pub bearer : List String → Option String
  bearer (scheme ∷ value ∷ []) =
      if lower scheme == "bearer"
      then if strip value == "" then none else some (strip value)
      else none
  bearer parts = none

  -- `_parse_bearer_token`
  unfoldable pub parse_bearer_token : String → Option String
  unfolding bearer
  parse_bearer_token header = bearer (split (strip header))

  abbrev pub user_for : (String → Option User) → Option String → Option User
  user_for authenticated none = none
  user_for authenticated (some token) = authenticated token

  abbrev pub no_user : String → Option String → Answer
  no_user header (some token) = unauthorized "Invalid token"
  no_user header none =
      if not (strip header == "")
      then unauthorized "Invalid authorization header"
      else unauthorized "No authorization header"

  abbrev pub check_role : List Role → String → Option String → Option User → Answer
  check_role allowed header token none = no_user header token
  check_role allowed header token (some user) =
      if has_role allowed user.role then passed (some user) else forbidden

  abbrev pub check_route : Option (List Role) → String → Option String → Option User → Answer
  check_route none header token user = passed user
  check_route (some allowed) header token user = check_role allowed header token user

  -- `AuthMiddleware.dispatch`; `allowed` is what the table of secured routes has for the request
  unfoldable pub dispatch : (String → Option User) → Option (List Role) → String → Answer
  unfolding parse_bearer_token
  dispatch authenticated allowed header =
      let token = parse_bearer_token header in
      check_route allowed header token (user_for authenticated token)
