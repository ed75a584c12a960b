-- ===== src/Content/Generic/Tests.antt =====
-- Pages in memory.
use rental_application_nest.Prelude.{ℕ, ◌≡◌, refl, none, some, List, [], ◌∷◌, Text, ltb}
use rental_application_nest.External.Memory.Tables.{memory_table}
use rental_application_nest.Content.Generic.{find_all_with_pagination}
use rental_application_nest.Content.Generic.Pages.{pages, pages_all}

abbrev rows : List ℕ
rows = 3 ∷ 1 ∷ 4 ∷ 1 ∷ 5 ∷ 9 ∷ 2 ∷ []

abbrev id_of : ℕ → Text
id_of n = n ∷ []

pages_all_example :
    pages memory_table id_of
      (λ n. ltb 1 n)
      (some 2)
      (λ xs. xs)
      rows
      (find_all_with_pagination memory_table id_of
        (λ n. ltb 1 n)
        none
        (some 2)
        (λ xs. xs)
        rows).total_pages
    ≡ 3 ∷ 4 ∷ 5 ∷ 9 ∷ 2 ∷ []
pages_all_example =
    pages_all memory_table id_of (λ n. ltb 1 n) none (some 2) (λ xs. xs) rows (λ xs. refl)
