-- ===== src/Content/Generic.antt =====
-- libs/common/src/generic/generic.service.ts: create, read, update and delete for one Prisma model, with
-- pages. A filter is a test on rows, with the control keys of `cleanFilters` and projections left out; a
-- sort is a function on lists. Ids are texts: an empty one is refused. Page and limit are numbers.
pub mod Pages
mod Tests
use rental_application_nest.Prelude.{
  ℕ, zero, suc, ◌+◌, ◌-◌, ◌*◌, ◌/◌, ◌≡◌, Bool, true, false, not, Option, none, some, List, [], ◌∷◌,
  take, drop, ltb, Text, text_eq, is_some, Result, ok, err, bad_request, not_found, Action, pure,
  throw_if, or_throw, gets, modify, ◌>>=◌, ◌>>◌, if◌then◌else◌,
}
use rental_application_nest.External.Table.{Table}

pub record PaginateResult (Row : Type 0) : Type 0 where
  pub docs : List Row
  pub page : ℕ
  pub limit : ℕ
  pub total : ℕ
  pub total_pages : ℕ

-- `Number(x) || d`
abbrev pub number_or : Option ℕ → ℕ → ℕ
number_or none d = d
number_or (some zero) d = d
number_or (some (suc n)) d = suc n

-- `Math.ceil(total / limit)` of a positive limit
abbrev pub ceil_div : ℕ → ℕ → ℕ
ceil_div total limit = (total + (limit - 1)) / limit

abbrev pub is_empty : Text → Bool
is_empty [] = true
is_empty (c ∷ cs) = false

module _ {Row Db : Type 0} (delegate : Table Row Db) (id_of : Row → Text) where
  -- `validateId`
  abbrev pub validate_id : Text → Action Db (Unit {0})
  validate_id id = throw_if (is_empty id) (bad_request "Invalid ID")

  abbrev pub has_id : Text → Row → Bool
  has_id id r = text_eq (id_of r) id

  unfoldable pub find_by_id : Text → Action Db (Option Row)
  find_by_id id = do validate_id id; gets (delegate.find_first (has_id id))

  unfoldable pub find_all : (Row → Bool) → Db → List Row
  find_all filters = delegate.find_many filters

  unfoldable pub find_all_with_pagination :
      (Row → Bool) → Option ℕ → Option ℕ → (List Row → List Row) → Db → PaginateResult Row
  find_all_with_pagination filters page_option limit_option order_by s =
      let page = number_or page_option 1 in
      let limit = number_or limit_option 10 in
      let total = delegate.count filters s in
      record {
        docs = take limit (drop ((page - 1) * limit) (order_by (delegate.find_many filters s)));
        page = page;
        limit = limit;
        total = total;
        total_pages = ceil_div total limit;
      }

  unfoldable pub create : Row → Action Db Row
  create r = do modify (delegate.create r); pure r

  -- Prisma's error P2025, for no row with the id, becomes a 404.
  unfoldable pub update_by_id : Text → (Row → Row) → Action Db Row
  update_by_id id f = do
    validate_id id
    found ← gets (delegate.find_first (has_id id))
    r ← or_throw found (not_found "Record not found")
    modify (delegate.update_many (has_id id) f)
    pure (f r)

  unfoldable pub delete_by_id : Text → Action Db Row
  delete_by_id id = do
    validate_id id
    found ← gets (delegate.find_first (has_id id))
    r ← or_throw found (not_found "Record not found")
    modify (delegate.delete_many (has_id id))
    pure r

  -- `delete` sets `isDeleted` and the time of it in a row.
  unfoldable pub soft_delete_by_id : (ℕ → Row → Row) → ℕ → Text → Action Db Row
  unfolding update_by_id
  soft_delete_by_id delete now id = update_by_id id (delete now)

  unfoldable pub count : (Row → Bool) → Db → ℕ
  count filters s = delegate.count filters s

  unfoldable pub exists : (Row → Bool) → Db → Bool
  unfolding count
  exists filters s = ltb 0 (count filters s)
