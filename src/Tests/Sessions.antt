-- ===== src/Tests/Sessions.antt =====
-- The theorems on tokens and routes, with one user and texts as their own hashes.
use db_app.Base.{
  ℕ, String, ◌+◌, ◌≡◌, refl, Bool, true, Option, none, some, List, [], ◌∷◌, Dict, string_eq, ◌==◌,
  ltb, if◌then◌else◌,
}
use db_app.Layer0.Records.{done}
use db_app.Auth.{
  admin, User, Account, Token, AuthDb, login, user_of, authenticate, revoke, has_role,
  parse_bearer_token, dispatch,
}
use db_app.Auth.Sessions.{login-authenticate, authenticate-revoke}
use db_app.Auth.Routes.{dispatch-secured}

abbrev account : Account String
account = record { name = "ann"; email = "ann@example.org"; role = admin; password_hash = "secret" }

abbrev accounts : AuthDb String String
accounts = record {
  users = (1, account) ∷ [];
  tokens = ("old", record { user_id = 1; expiry_time = 90; active = true }) ∷ [];
  roles = "ann" ∷ [];
  next_id = 2;
}

abbrev same_text : String → String
same_text words = words

abbrev matches : String → String → Bool
matches password hash = password == hash

abbrev as_listed : Dict String Token → Dict String Token
as_listed tokens = tokens

login-authenticate_example :
    (db' : AuthDb String String) × (login as_listed same_text matches 14 "ann" "secret" "new" 100
        accounts
      ≡ done (some "new", db'))
    × ((time : ℕ)
        → authenticate same_text "new" time db'
          ≡ (if ltb time (100 + 14) then user_of accounts.users 1 else none))
login-authenticate_example =
    login-authenticate as_listed same_text matches 14 "ann" "secret" "new" 100 accounts 1 account
      refl refl refl refl

authenticate-revoke_example : authenticate same_text "old" 50 (revoke same_text "old" accounts) ≡ (
    if same_text "old" == same_text "old" then none else authenticate same_text "old" 50 accounts)
authenticate-revoke_example = authenticate-revoke same_text "old" "old" 50 accounts

abbrev parts : String → List String
parts header = "Bearer" ∷ "old" ∷ []

abbrev lowered : String → String
lowered scheme = "bearer"

abbrev known_user : User
known_user = record { user_id = 1; role = admin; login = "ann" }

abbrev anyone : String → Option User
anyone token = some known_user

dispatch-secured_example :
    (token : String) × (u : User) × (parse_bearer_token same_text lowered parts "Bearer old"
      ≡ some token)
    × (anyone token ≡ some u)
    × (has_role (admin ∷ []) u.role ≡ true)
    × (some known_user ≡ some u)
unfolding dispatch
dispatch-secured_example =
    dispatch-secured same_text lowered parts anyone (admin ∷ []) "Bearer old" (some known_user) refl
