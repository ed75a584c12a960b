-- ===== src/External/Memory/Tables.antt =====
-- A table as the list of its rows.
use rental_application_nest.Prelude.{
  ◌≡◌, refl, Bool, true, false, not, none, some, List, [], ◌∷◌, map, any, count_if, filter, find,
  In, inl, inr, if◌then◌else◌, Bool-cases, arith,
}
use rental_application_nest.External.Table.{Table}

module _ {Row : Type 0} where
  pub find-some :
      (p : Row → Bool) (xs : List Row) {r : Row} → find p xs ≡ some r → (p r ≡ true) × In r xs
  find-some p [] h = absurd (ground arith)
  find-some p (x ∷ xs) {r} h = elim (Bool-cases (p x)) [
    | inl pass ↦ let same : x ≡ r = ground arith in (rw same at pass, rw same (inl refl))
    | inr fail ↦ let (pass, m) = find-some p xs (rw fail at h) in (pass, inr m)
  ]

  pub find-none : (p : Row → Bool) (xs : List Row) → find p xs ≡ none → any p xs ≡ false
  find-none p [] h = refl
  find-none p (x ∷ xs) h = ground (arith, find-none p xs)

  abbrev pub memory_table : Table Row (List Row)
  memory_table = record {
    rows = λ xs. xs;
    find_first = find;
    find_many = filter;
    count = count_if;
    create = λ r xs. r ∷ xs;
    update_many = λ p f. map (λ r. if p r then f r else r);
    delete_many = λ p. filter (λ r. not (p r));
    find_first-some = find-some;
    find_first-none = find-none;
    find_many-rows = λ p xs. refl;
    count-rows = λ p xs. refl;
    rows-create = λ r xs. refl;
    rows-update_many = λ p f xs. refl;
    rows-delete_many = λ p xs. refl;
  }
