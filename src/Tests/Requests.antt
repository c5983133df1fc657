-- ===== src/Tests/Requests.antt =====
-- The theorem on shortened requests, at a request with a long list.
use db_app.Base.{ℕ, ◌≡◌, true}
use db_app.Audit.{primitive, text, list, nil, cons, Fields, end, field, truncate_request}
use db_app.Audit.Bounds.{has_small, truncate_request_small}

abbrev request : Fields ℕ
request =
    field "ids"
      (list (
        cons (primitive 1)
          (cons (primitive 2) (cons (primitive 3) (cons (primitive 4) (cons (primitive 5) nil))))))
      (field "action_description" (text "merge") end)

truncate_request_small_example :
    (has_small (truncate_request request) 1 ≡ true)
    × (truncate_request (truncate_request request) ≡ truncate_request request)
truncate_request_small_example = truncate_request_small request
