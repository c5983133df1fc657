-- ===== src/Auth/Routes.antt =====
-- Who passes a secured route.
use db_app.Base.{
  String, ◌≡◌, refl, true, Option, none, some, List, arith, Bool-cases, inl, inr, string_eq, ◌==◌,
}
use db_app.Auth.{
  Role, User, passed, forbidden, has_role, parse_bearer_token, user_for, check_role, dispatch,
}

module _ (strip lower : String → String) (split : String → List String) where
  -- A secured route passes only a request with a token that authenticates a user whose role is
  -- allowed, and passes it as that user.
  pub dispatch-secured :
      (authenticated : String → Option User) (allowed : List Role) (header : String)
      (user : Option User)
      → dispatch strip lower split authenticated (some allowed) header ≡ passed user
      → (token : String) × (u : User) × (parse_bearer_token strip lower split header ≡ some token)
        × (authenticated token ≡ some u)
        × (has_role allowed u.role ≡ true)
        × (user ≡ some u)
  unfolding dispatch
  dispatch-secured authenticated allowed header user h =
      by_token (parse_bearer_token strip lower split header) refl h
    where
      by_user :
          (token : String) (found : Option User)
          → authenticated token ≡ found
          → check_role strip lower split allowed header (some token) found ≡ passed user
          → (u : User) × (authenticated token ≡ some u)
            × (has_role allowed u.role ≡ true)
            × (user ≡ some u)
      by_user token none e k = absurd (cc k)
      by_user token (some u) e k = elim (Bool-cases (has_role allowed u.role)) [
        | inl ok ↦ let same : passed (some u) ≡ passed user = rw ok at k in (u, e, ok, cc same)
        | inr bad ↦ let other : forbidden ≡ passed user = rw bad at k in absurd (cc other)
      ]

      by_token :
          (token : Option String)
          → parse_bearer_token strip lower split header ≡ token
          → check_role strip lower split allowed header token
              (user_for strip lower split authenticated token)
            ≡ passed user
          → (t : String) × (u : User) × (parse_bearer_token strip lower split header ≡ some t)
            × (authenticated t ≡ some u)
            × (has_role allowed u.role ≡ true)
            × (user ≡ some u)
      by_token none e k = elim (Bool-cases (strip header == "")) [
        | inl empty ↦ absurd (ground (arith, k, empty))
        | inr full ↦ absurd (ground (arith, k, full))
      ]
      by_token (some t) e k =
          let (u, found, ok, same) = by_user t (authenticated t) refl k in
          (t, u, e, found, ok, same)
