-- ===== src/Content/Generic/Pages.antt =====
-- The pages of a list, one after the other.
use rental_application_nest.Prelude.{
  ℕ, zero, suc, ◌+◌, ◌-◌, ◌*◌, ◌/◌, ◌%◌, ◌<◌, ◌≤◌, ◌≡◌, ap, ◌∙◌, sym, Bool, Option, none, some,
  List, [], ◌++◌, arith, take, drop, take-drop, take_all, length, length-filter, Text,
}
use native.Mathlib.Nat.{mod-lt, mod-add-div'}
use rental_application_nest.External.Table.{Table}
use rental_application_nest.Content.Generic.{number_or, ceil_div, find_all_with_pagination}

number_or_positive : (o : Option ℕ) → 1 ≤ number_or o 10
number_or_positive none = omega arith
number_or_positive (some zero) = omega arith
number_or_positive (some (suc n)) = omega arith

-- Enough pages are counted for all rows.
ceil_div_enough : (total limit : ℕ) → 1 ≤ limit → total ≤ ceil_div total limit * limit
ceil_div_enough total limit h =
    let m = total + (limit - 1) in
    let below : m % limit < limit = mod-lt m (omega arith) in
    let parts : m % limit + m / limit * limit ≡ m = mod-add-div' m limit in
    omega (arith, below, parts)

module _ {Row Db : Type 0} (delegate : Table Row Db) (id_of : Row → Text) where
  -- The documents of the first pages, up to a number of them
  unfoldable pub pages : (Row → Bool) → Option ℕ → (List Row → List Row) → Db → ℕ → List Row
  pages filters limit order_by s zero = []
  pages filters limit order_by s (suc n) =
      pages filters limit order_by s n
      ++ (find_all_with_pagination delegate id_of filters (some (suc n)) limit order_by s).docs

  pages-take :
      (filters : Row → Bool) (limit : Option ℕ) (order_by : List Row → List Row) (s : Db) (n : ℕ)
      → pages filters limit order_by s n
        ≡ take (n * number_or limit 10) (order_by (delegate.find_many filters s))
  unfolding pages find_all_with_pagination
  pages-take filters limit order_by s zero =
      let none_yet : 0 ≡ 0 * number_or limit 10 = omega arith in
      ap (λ k. take k (order_by (delegate.find_many filters s))) none_yet
  pages-take filters limit order_by s (suc n) =
      let l = number_or limit 10 in
      let rows = order_by (delegate.find_many filters s) in
      let skipped : suc n - 1 ≡ n = omega arith in
      let more : n * l + l ≡ suc n * l = omega arith in
      ap (λ ys. ys ++ take l (drop ((suc n - 1) * l) rows)) (pages-take filters limit order_by s n)
      ∙ ap (λ k. take (n * l) rows ++ take l (drop (k * l) rows)) skipped
      ∙ take-drop (n * l) l (suc n * l) rows more

  -- `findAllWithPagination`, asked for the pages from 1 up to the `totalPages` that it reports, answers
  -- with all the rows that pass the filter, each once and in the order of the sort. The sort keeps the
  -- number of rows, and orders rows that compare equal in the same way for every page.
  pub pages_all :
      (filters : Row → Bool) (page limit : Option ℕ) (order_by : List Row → List Row) (s : Db)
      → ((xs : List Row) → length (order_by xs) ≡ length xs)
      → pages filters limit order_by s
          (find_all_with_pagination delegate id_of filters page limit order_by s).total_pages
        ≡ order_by (delegate.find_many filters s)
  unfolding find_all_with_pagination
  pages_all filters page limit order_by s keeps =
      let l = number_or limit 10 in
      let total = delegate.count filters s in
      let found = delegate.find_many filters s in
      let size : length (order_by found) ≡ total =
        keeps found
        ∙ ap length (delegate.find_many-rows filters s)
        ∙ length-filter filters (delegate.rows s)
        ∙ sym (delegate.count-rows filters s) in
      pages-take filters limit order_by s (ceil_div total l)
      ∙ take_all (ceil_div total l * l) (order_by found)
          (omega (arith, size, ceil_div_enough total l (number_or_positive limit)))
