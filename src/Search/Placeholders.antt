-- ===== src/Search/Placeholders.antt =====
-- The placeholders and the parameters of a filter.
use db_app.Base.{
  ℕ, suc, String, ◌+◌, ◌≡◌, refl, sym, ◌∙◌, List, [], ◌∷◌, ◌++◌, arith, string_eq, length,
  length-append, length-map,
}
use db_app.Search.{
  Piece, text, placeholder, Filter, pgc_one_of, and_filter, or_filter, designation_equals,
  designation_close, designation_like, coordinates_in_radius, Filters, nil, cons, join, or_true,
  marks, get_query, get_queries, get_params, all_params,
}

abbrev pub placeholders : List Piece → ℕ
placeholders [] = 0
placeholders (text words ∷ pieces) = placeholders pieces
placeholders (placeholder ∷ pieces) = suc (placeholders pieces)

abbrev pub in_all : List (List Piece) → ℕ
in_all [] = 0
in_all (part ∷ parts) = placeholders part + in_all parts

pub placeholders-append :
    (a b : List Piece) → placeholders (a ++ b) ≡ placeholders a + placeholders b
placeholders-append [] b = omega arith
placeholders-append (text words ∷ a) b = placeholders-append a b
placeholders-append (placeholder ∷ a) b = omega (arith, placeholders-append a b)

pub placeholders-join :
    (separator : String) (parts : List (List Piece))
    → placeholders (join separator parts) ≡ in_all parts
unfolding join
placeholders-join separator [] = refl
placeholders-join separator (part ∷ []) = omega arith
placeholders-join separator (part ∷ next ∷ parts) =
    placeholders-append part (text separator ∷ join separator (next ∷ parts))
    ∙ omega (arith, placeholders-join separator (next ∷ parts))

placeholders-or_true : (pieces : List Piece) → placeholders (or_true pieces) ≡ placeholders pieces
placeholders-or_true [] = refl
placeholders-or_true (piece ∷ pieces) = refl

in_all-marks : (pgcs : List ℕ) → in_all (marks pgcs) ≡ length pgcs
in_all-marks [] = refl
in_all-marks (pgc ∷ pgcs) = omega (arith, in_all-marks pgcs)

pub closed :
    (pieces : List Piece) (end : String)
    → placeholders (pieces ++ text end ∷ []) ≡ placeholders pieces
closed pieces end = placeholders-append pieces (text end ∷ []) ∙ omega arith

module _ {R : Type 0} where
  mutual
    unfolding get_query get_params join

    pub placeholders-get_query : (f : Filter R) → placeholders (get_query f) ≡ length (get_params f)
    placeholders-get_query (pgc_one_of pgcs) =
        closed (join ", " (marks pgcs)) ")"
        ∙ placeholders-join ", " (marks pgcs)
        ∙ in_all-marks pgcs
        ∙ sym (length-map _ pgcs)
    placeholders-get_query (and_filter filters) =
        placeholders-or_true (join " AND " (get_queries filters))
        ∙ placeholders-join " AND " (get_queries filters)
        ∙ in_all-get_queries filters
    placeholders-get_query (or_filter filters) =
        placeholders-or_true (join " OR " (get_queries filters))
        ∙ placeholders-join " OR " (get_queries filters)
        ∙ in_all-get_queries filters
    placeholders-get_query (designation_equals designation) = refl
    placeholders-get_query (designation_close distance) = refl
    placeholders-get_query designation_like = refl
    placeholders-get_query (coordinates_in_radius radius) = refl

    in_all-get_queries :
        (filters : Filters R) → in_all (get_queries filters) ≡ length (all_params filters)
    in_all-get_queries nil = refl
    in_all-get_queries (cons f filters) = omega (
      arith,
      closed (get_query f) ")",
      placeholders-get_query f,
      in_all-get_queries filters,
      length-append (get_params f) (all_params filters),
    )
