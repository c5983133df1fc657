-- ===== src/Upload/Sources.antt =====
-- The source of a request.
use db_app.Base.{
  ℕ, String, ◌≡◌, refl, sym, ◌∙◌, Bool, true, Option, some, List, [], ◌∷◌, arith, Dict, nat_eq,
  string_eq, ◌==◌, ==_refl, values, lookup, insert, any, take, subst, Bool-cases, Option-cases, inl,
  inr,
}
use db_app.Tables.{Result, ok, State, Bibliography}
use db_app.Upload.{Publication, first, create_bibliography, create_publication, ensure_source_id}

-- A source is stored under the number that is returned, and no table changes.
pub record IsSourced {V : Type 0} (source_id : ℕ) (db sourced : State V) : Type 0 where
  pub stored : any (λ bib. bib.id == source_id) (values sourced.bibs) ≡ true
  pub same_registry : sourced.registry ≡ db.registry
  pub same_raw : sourced.raw ≡ db.raw
  pub same_next : sourced.next_id ≡ db.next_id
  pub same_now : sourced.now ≡ db.now

any-insert :
    (p : Bibliography → Bool) (code : String) (bib : Bibliography) (bibs : Dict String Bibliography)
    → p bib ≡ true
    → any p (values (insert code bib bibs)) ≡ true
any-insert p code bib [] h = rw h refl
any-insert p code bib ((other, old) ∷ bibs) h = ground (arith, any-insert p code bib bibs)

any-lookup :
    (p : Bibliography → Bool) (code : String) (bib : Bibliography) (bibs : Dict String Bibliography)
    → lookup code bibs ≡ some bib
    → p bib ≡ true
    → any p (values bibs) ≡ true
any-lookup p code bib [] found h = absurd (cc found)
any-lookup p code bib ((other, old) ∷ bibs) found h = ground (arith, any-lookup p code bib bibs)

module _ {V : Type 0} where
  create_bibliography-IsSourced :
      (code : String) (year : ℕ) (authors : List String) (title : String) (db : State V)
      → let (source_id, sourced) = create_bibliography code year authors title db in
        IsSourced source_id db sourced
  unfolding create_bibliography
  create_bibliography-IsSourced code year authors title db =
      elim (Option-cases (lookup code db.bibs)) [
        | inl missing ↦
            rw (missing, create_bibliography)
              (record {
                stored = any-insert _ code _ db.bibs (==_refl db.next_bib);
                same_registry = refl;
                same_raw = refl;
                same_next = refl;
                same_now = refl;
              })
        | inr (bib, found) ↦
            rw (found, create_bibliography)
              (record {
                stored = any-insert _ code _ db.bibs (==_refl bib.id);
                same_registry = refl;
                same_raw = refl;
                same_next = refl;
                same_now = refl;
              })
      ]

  module _ (is_bibcode : String → Bool) (ads : String → Option (List Publication))
      (int_of : List ℕ → Option ℕ) where
    result-IsSourced :
        (made : ℕ × State V) (db sourced : State V) (source_id : ℕ)
        → IsSourced made.0 db made.1
        → ◌≡◌ {A = Result (ℕ × State V)} (ok made) (ok (source_id, sourced))
        → IsSourced source_id db sourced
    result-IsSourced made db sourced source_id h e =
        let same : made ≡ (source_id, sourced) = cc e in
        subst (λ (p : ℕ × State V). IsSourced p.0 db p.1) same h

    create_publication-IsSourced :
        (code : String) (publications : List Publication) (db sourced : State V) (source_id : ℕ)
        → create_publication is_bibcode ads int_of code publications db ≡ ok (source_id, sourced)
        → IsSourced source_id db sourced
    unfolding create_publication
    create_publication-IsSourced code [] db sourced source_id h = absurd (cc h)
    create_publication-IsSourced code (publication ∷ rest) db sourced source_id h =
        elim (Option-cases (first publication.titles)) [
          | inl untitled ↦ absurd (ground (arith, h, untitled))
          | inr (title, titled) ↦ elim (Option-cases (int_of (take 4 publication.pubdate))) [
            | inl undated ↦ absurd (ground (arith, h, titled, undated))
            | inr (year, year_of) ↦
                result-IsSourced (create_bibliography code year publication.author title db) db
                  sourced source_id
                  (create_bibliography-IsSourced code year publication.author title db)
                  (sym (ground (arith, titled, year_of)) ∙ h)
          ]
        ]

    pub ensure_source_id-IsSourced :
        (code : String) (db sourced : State V) (source_id : ℕ)
        → ensure_source_id is_bibcode ads int_of code db ≡ ok (source_id, sourced)
        → IsSourced source_id db sourced
    unfolding ensure_source_id create_publication
    ensure_source_id-IsSourced code db sourced source_id h = elim (Bool-cases (is_bibcode code)) [
      | inl asked ↦ elim (Option-cases (ads code)) [
        | inl unknown ↦ absurd (ground (arith, h, asked, unknown))
        | inr (publications, found) ↦
            create_publication-IsSourced code publications db sourced source_id
              (sym (ground (arith, asked, found)) ∙ h)
      ]
      | inr internal ↦ elim (Option-cases (lookup code db.bibs)) [
        | inl unknown ↦ absurd (ground (arith, h, internal, unknown))
        | inr (bib, found) ↦
            result-IsSourced (bib.id, db) db sourced source_id
              (record {
                stored = any-lookup _ code bib db.bibs found (==_refl bib.id);
                same_registry = refl;
                same_raw = refl;
                same_next = refl;
                same_now = refl;
              })
              (sym (ground (arith, internal, found)) ∙ h)
      ]
    ]
