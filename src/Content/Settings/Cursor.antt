-- ===== src/Content/Settings/Cursor.antt =====
-- Following the cursor from page to page.
use rental_application_nest.Prelude.{
  ℕ, ◌+◌, ◌-◌, ◌≤◌, ◌≡◌, refl, ap, ◌∙◌, sym, Bool, true, false, Option, none, some, List, [], ◌∷◌,
  ◌++◌, arith, take, take-take, take-append, take_all, append_empty, last-append, length,
  length-append, length-take, any, ltb, ◌==◌, ==_refl, Bool-cases, inl, inr,
}
use rental_application_nest.External.Table.{Table}
use rental_application_nest.External.Cache.{Cache}
use rental_application_nest.Content.Generic.{number_or}
use rental_application_nest.Content.Settings.{
  Settings, SettingsType, State, same_type, from_cursor, cursor_page, id_of,
  get_all_with_pagination_cursor,
}

from_cursor_found :
    (x : Settings) (a b : List Settings)
    → any (λ y. y.id == x.id) a ≡ false
    → from_cursor x.id (a ++ x ∷ b) ≡ x ∷ b
from_cursor_found x [] b h = rw (==_refl x.id) refl
from_cursor_found x (y ∷ ys) b h = elim (Bool-cases (y.id == x.id)) [
  | inl hit ↦ absurd (ground arith)
  | inr miss ↦ rw miss (from_cursor_found x ys b (ground arith))
]

-- The documents of a page are those of the list, up to the limit.
cursor_page_docs :
    (limit : ℕ) (xs : List Settings)
    → (cursor_page limit (take (limit + 1) xs)).docs ≡ take limit xs
cursor_page_docs limit xs =
    let read = take (limit + 1) xs in
    let short = length-take (limit + 1) xs in
    let all = take-take limit (limit + 1) xs (omega arith) in
    elim (Bool-cases (ltb limit (length read))) [
      | inl more ↦
          let size : length read - 1 ≡ limit = ground arith in
          rw more (ap (λ k. take k read) size ∙ all)
      | inr fewer ↦
          let fits : length read ≤ limit = ground arith in
          rw fewer (sym (take_all limit read fits) ∙ all)
    ]

-- A list of one more than the limit
cursor_page_more :
    (limit : ℕ) (x : Settings) (a : List Settings)
    → length a ≡ limit
    → let page = cursor_page limit (a ++ x ∷ []) in (page.docs ≡ a) × (page.next_cursor ≡ some x.id)
cursor_page_more limit x a size =
    let total : length (a ++ x ∷ []) ≡ limit + 1 = omega (arith, length-append a (x ∷ [])) in
    let more : ltb limit (length (a ++ x ∷ [])) ≡ true = ground arith in
    let kept : length (a ++ x ∷ []) - 1 ≡ length a + 0 = omega arith in
    rw more (
      take-append (length (a ++ x ∷ []) - 1) 0 a (x ∷ []) kept ∙ append_empty a,
      ap id_of (last-append a x),
    )

module _ {Rows Db : Type 0} (settings : Table Settings Rows)
    (redis : Cache SettingsType (List Settings) Db same_type) (client : Bool) where
  -- The row after a full first page is on neither this page nor the next: where the sorted list goes on after the first page `a`
  -- with a row `x`, whose id none of `a` has, the first page answers with `x`'s id as the next cursor, and
  -- the page that is read with this cursor starts behind `x`.
  pub get_all_with_pagination_cursor-next :
      (limit : Option ℕ) (order_by : List Settings → List Settings) (s : State Rows Db)
      (a b : List Settings) (x : Settings)
      → order_by (settings.find_many (λ y. true) s.rows) ≡ a ++ x ∷ b
      → length a ≡ number_or limit 10
      → any (λ y. y.id == x.id) a ≡ false
      → let page = λ (cursor : Option ℕ).
        get_all_with_pagination_cursor settings redis client limit cursor order_by s in
        ((page none).docs ≡ a)
        × ((page none).next_cursor ≡ some x.id)
        × ((page (some x.id)).docs ≡ take (number_or limit 10) b)
  unfolding get_all_with_pagination_cursor
  get_all_with_pagination_cursor-next limit order_by s a b x sorted size other =
      let l = number_or limit 10 in
      let enough : l + 1 ≡ length a + 1 = omega arith in
      let read : take (l + 1) (a ++ x ∷ b) ≡ a ++ x ∷ [] = take-append (l + 1) 1 a (x ∷ b) enough in
      let (docs, next) = cursor_page_more l x a size in
      (
        rw (sorted, read) docs,
        rw (sorted, read) next,
        rw (sorted, from_cursor_found x a b other) (cursor_page_docs l b),
      )
