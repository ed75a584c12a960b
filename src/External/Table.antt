-- ===== src/External/Table.antt =====
-- A table of the database behind Prisma, or a collection behind Mongoose. A `where` clause is a
-- Boolean test on rows. `rows` lists what is stored, in an order that nothing relies on.
use rental_application_nest.Prelude.{
  ℕ, ◌≡◌, Bool, true, false, not, Option, none, some, List, ◌∷◌, map, any, count_if, filter, In,
  if◌then◌else◌, Option-cases, is_some, inl, inr, ap, ◌∙◌, In-map, any-In, arith,
}

pub record Table (Row Db : Type 0) : Type 0 where
  pub rows : Db → List Row
  pub find_first : (Row → Bool) → Db → Option Row
  pub find_many : (Row → Bool) → Db → List Row
  pub count : (Row → Bool) → Db → ℕ
  pub create : Row → Db → Db
  pub update_many : (Row → Bool) → (Row → Row) → Db → Db
  pub delete_many : (Row → Bool) → Db → Db
  -- A row that is found passes the test, and is one of the rows.
  pub find_first-some :
      (p : Row → Bool) (db : Db) {r : Row}
      → find_first p db ≡ some r
      → (p r ≡ true) × In r (rows db)
  -- Nothing is found only where no row passes.
  pub find_first-none :
      (p : Row → Bool) (db : Db) → find_first p db ≡ none → any p (rows db) ≡ false
  pub find_many-rows : (p : Row → Bool) (db : Db) → find_many p db ≡ filter p (rows db)
  pub count-rows : (p : Row → Bool) (db : Db) → count p db ≡ count_if p (rows db)
  pub rows-create : (r : Row) (db : Db) → rows (create r db) ≡ r ∷ rows db
  pub rows-update_many :
      (p : Row → Bool) (f : Row → Row) (db : Db)
      → rows (update_many p f db) ≡ map (λ r. if p r then f r else r) (rows db)
  pub rows-delete_many :
      (p : Row → Bool) (db : Db) → rows (delete_many p db) ≡ filter (λ r. not (p r)) (rows db)

module _ {Row Db : Type 0} (table : Table Row Db) where
  -- Where no row passed the wider test `q`, a search for `p` finds the row that was created.
  pub find_first-create :
      (p q : Row → Bool) (r : Row) (db : Db)
      → table.find_first q db ≡ none
      → ((x : Row) → p x ≡ true → q x ≡ true)
      → p r ≡ true
      → table.find_first p (table.create r db) ≡ some r
  find_first-create p q r db missing wider hit =
      elim (Option-cases (table.find_first p (table.create r db))) [
        | inl gone ↦ absurd (
            ground (
              arith,
              table.rows-create r db,
              ap (any p) (table.rows-create r db),
              table.find_first-none p (table.create r db) gone,
            ))
        | inr (x, found) ↦
            let (passes, m) = table.find_first-some p (table.create r db) found in
            found ∙ ap some (newest x passes (rw (table.rows-create r db) at m))
      ]
    where
      newest : (x : Row) → p x ≡ true → In x (r ∷ table.rows db) → x ≡ r
      newest x passes (inl e) = e
      newest x passes (inr m) =
          absurd
            (cc (any-In q (table.rows db) x m (wider x passes), table.find_first-none q db missing))

  -- A search for `p` after an update finds a row that was changed, if every row that passes was.
  pub find_first-update_many :
      (p q : Row → Bool) (f : Row → Row) (db : Db) {r : Row}
      → table.find_first p (table.update_many q f db) ≡ some r
      → (x : Row) × In x (table.rows db) × (r ≡ (if q x then f x else x))
  find_first-update_many p q f db {r} found =
      In-map (λ x. if q x then f x else x) (table.rows db) r
        (rw (table.rows-update_many q f db) at
          ((table.find_first-some p (table.update_many q f db) found).1))

  pub find_first_none :
      (p : Row → Bool) (db : Db) → any p (table.rows db) ≡ false → table.find_first p db ≡ none
  find_first_none p db nobody = elim (Option-cases (table.find_first p db)) [
    | inl gone ↦ gone
    | inr (x, found) ↦
        let (passes, m) = table.find_first-some p db found in
        absurd (cc (any-In p (table.rows db) x m passes, nobody))
  ]

  -- Something is found where some row passes.
  pub find_first-any :
      (p : Row → Bool) (db : Db) → is_some (table.find_first p db) ≡ any p (table.rows db)
  find_first-any p db = elim (Option-cases (table.find_first p db)) [
    | inl nothing ↦ ground (arith, table.find_first-none p db nothing)
    | inr (x, found) ↦
        let (passes, m) = table.find_first-some p db found in
        ground (arith, any-In p (table.rows db) x m passes)
  ]
