-- ===== src/Chatting/Messages/Sorting.antt =====
-- Sorts of messages by insertion, in place of the database's.
use rental_application_nest.Prelude.{
  ◌≡◌, ◌⊎◌, inl, inr, ap, Bool, if◌then◌else◌, leb, List, [], ◌∷◌, arith, In, Bool-cases,
}
use rental_application_nest.Chatting.Messages.{Message}
use rental_application_nest.Chatting.Messages.Reading.{Descending}

abbrev pub insert_by : (Message → Message → Bool) → Message → List Message → List Message
insert_by goes_first m [] = m ∷ []
insert_by goes_first m (x ∷ xs) =
    let rest = insert_by goes_first m xs in if goes_first m x then m ∷ x ∷ xs else x ∷ rest

abbrev pub sort_by : (Message → Message → Bool) → List Message → List Message
sort_by goes_first [] = []
sort_by goes_first (x ∷ xs) = insert_by goes_first x (sort_by goes_first xs)

abbrev pub newest_first : List Message → List Message
newest_first = sort_by (λ x y. leb y.created_at x.created_at)

abbrev pub oldest_first : List Message → List Message
oldest_first = sort_by (λ x y. leb x.created_at y.created_at)

In-insert_by :
    (goes_first : Message → Message → Bool) (m : Message) (xs : List Message) (r : Message)
    → In r (insert_by goes_first m xs)
    → (r ≡ m) ⊎ In r xs
In-insert_by goes_first m [] r k = k
In-insert_by goes_first m (x ∷ xs) r k = elim (Bool-cases (goes_first m x)) [
  | inl before ↦ rw before at k
  | inr after ↦ elim (rw after at k) [
    | inl e ↦ inr (inl e)
    | inr j ↦ elim (In-insert_by goes_first m xs r j) [ inl e ↦ inl e | inr i ↦ inr (inr i) ]
  ]
]

pub In-sort_by :
    (goes_first : Message → Message → Bool) (xs : List Message) (r : Message)
    → In r (sort_by goes_first xs)
    → In r xs
In-sort_by goes_first [] r k = k
In-sort_by goes_first (x ∷ xs) r k = elim (In-insert_by goes_first x (sort_by goes_first xs) r k) [
  | inl e ↦ inl e
  | inr j ↦ inr (In-sort_by goes_first xs r j)
]

insert-Descending :
    (m : Message) (xs : List Message)
    → Descending xs
    → Descending (insert_by (λ x y. leb y.created_at x.created_at) m xs)
insert-Descending m [] d = (λ x k. elim k [ ], tt)
insert-Descending m (y ∷ ys) d = elim (Bool-cases (leb y.created_at m.created_at)) [
  | inl before ↦ rw before (
    λ x k. elim k [
      | inl e ↦ ground (arith, ap (λ z. z.created_at) e)
      | inr j ↦ ground (arith, d.0 x j)
    ],
    d,
  )
  | inr after ↦ rw after (
    λ x k. elim (In-insert_by (λ x y. leb y.created_at x.created_at) m ys x k) [
      | inl e ↦ ground (arith, ap (λ z. z.created_at) e)
      | inr j ↦ d.0 x j
    ],
    insert-Descending m ys d.1,
  )
]

pub newest_first-Descending : (xs : List Message) → Descending (newest_first xs)
newest_first-Descending [] = tt
newest_first-Descending (x ∷ xs) =
    insert-Descending x (newest_first xs) (newest_first-Descending xs)
