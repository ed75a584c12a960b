-- ===== src/Payments/Transactions/Coherence.antt =====
-- The cache of documents never answers with what the database no longer holds.
use rental_application_nest.Prelude.{
  ℕ, ◌≤◌, ◌≡◌, ◌⊎◌, true, false, Option, none, some, List, [], ◌∷◌, ◌==◌, arith, In, any,
  In-map_of_In, if◌then◌else◌, inl, inr, Option-cases, Bool-cases, ok, ◌>>=◌, or_throw,
}
use native.Mathlib.Nat.{le_refl}
use rental_application_nest.External.Table.{Table}
use rental_application_nest.External.Cache.{Cache}
use rental_application_nest.Payments.Transactions.{
  Transaction, PaymentStatus, Store, is_live, with_status, detail_ttl, create, find_by_id,
  update_status, delete, find_by_user_id, invalidate_cache,
}

-- A call of the service, its time first.
pub data Call : Type 0 where
  creates : ℕ → Transaction → Call
  finds : ℕ → ℕ → Call
  updates : ℕ → ℕ → PaymentStatus → Option (List (ℕ × ℕ)) → Call
  deletes : ℕ → ℕ → Call
  lists : ℕ → ℕ → Call

abbrev pub time_of : Call → ℕ
time_of (creates now t) = now
time_of (finds now id) = now
time_of (updates now id status response) = now
time_of (deletes now id) = now
time_of (lists now user_id) = now

abbrev pub InOrder : ℕ → List Call → Type 0
InOrder t [] = Unit {0}
InOrder t (c ∷ cs) = (t ≤ time_of c) × InOrder (time_of c) cs

abbrev pub last_time : ℕ → List Call → ℕ
last_time t [] = t
last_time t (c ∷ cs) = last_time (time_of c) cs

module _ {Docs Details Lists : Type 0} (model : Table Transaction Docs)
    (detail_cache : Cache ℕ Transaction Details ◌==◌)
    (list_cache : Cache ℕ (List Transaction) Lists ◌==◌) where
  unfoldable pub step : Call → Store Docs Details Lists → Store Docs Details Lists
  step (creates now t) s = (create model detail_cache list_cache t s).1
  step (finds now id) s = (find_by_id model detail_cache list_cache now id s).1
  step (updates now id status response) s =
      (update_status model detail_cache list_cache now id status response s).1
  step (deletes now id) s = (delete model detail_cache list_cache id s).1
  step (lists now user_id) s = (find_by_user_id model detail_cache list_cache now user_id s).1

  unfoldable pub run : List Call → Store Docs Details Lists → Store Docs Details Lists
  run [] s = s
  run (c ∷ cs) s = run cs (step c s)

  -- What is cached at `now` under an id is a stored document with this id that is not deleted.
  abbrev pub IsCoherent : ℕ → Store Docs Details Lists → Type 0
  IsCoherent now s =
      (id : ℕ) (t : Transaction)
      → detail_cache.get id now s.details ≡ some t
      → In t (model.rows s.docs) × (is_live id t ≡ true)

  IsCoherent-later :
      (now later : ℕ) (s : Store Docs Details Lists)
      → now ≤ later
      → IsCoherent now s
      → IsCoherent later s
  IsCoherent-later now later s h c id t e =
      c id t (detail_cache.get_earlier id now later s.details h e)

  creates-IsCoherent :
      (now : ℕ) (t : Transaction) (s : Store Docs Details Lists)
      → IsCoherent now s
      → IsCoherent now (step (creates now t) s)
  unfolding step create
  creates-IsCoherent now t s c id x e = rw (model.rows-create t s.docs) (
      let (m, live) = c id x (ground (arith, detail_cache.get-del t.id id now s.details)) in
      (inr m, live))

  -- A read changes the cache of documents at most by what it found.
  finds_parts :
      (now id : ℕ) (s : Store Docs Details Lists)
      → let s' = step (finds now id) s in
        (s'.docs ≡ s.docs)
        × ((s'.details ≡ s.details)
            ⊎ ((t : Transaction) × (model.find_first (is_live id) s.docs ≡ some t)
                × (s'.details ≡ detail_cache.set_ex id t detail_ttl now s.details)))
  unfolding step find_by_id
  finds_parts now id s = elim (Option-cases (detail_cache.get id now s.details)) [
    | inr (t, hit) ↦ (ground arith, inl (ground arith))
    | inl miss ↦ elim (Option-cases (model.find_first (is_live id) s.docs)) [
      | inl nothing ↦ (ground arith, inl (ground arith))
      | inr (t, found) ↦ (ground arith, inr (t, found, ground arith))
    ]
  ]

  set_ex-IsCoherent :
      (now id j : ℕ) (t x : Transaction) (s : Store Docs Details Lists)
      → IsCoherent now s
      → model.find_first (is_live id) s.docs ≡ some t
      → detail_cache.get j now (detail_cache.set_ex id t detail_ttl now s.details) ≡ some x
      → In x (model.rows s.docs) × (is_live j x ≡ true)
  set_ex-IsCoherent now id j t x s c found e =
      let (live, m) = model.find_first-some (is_live id) s.docs found in
      let law = detail_cache.get-set_ex id j t detail_ttl now now s.details (le_refl now) in
      elim (Bool-cases (id == j)) [
        | inl same ↦ let hit : t ≡ x = ground (arith, law) in (rw hit at m, ground arith)
        | inr other ↦ c j x (ground (arith, law))
      ]

  finds-IsCoherent :
      (now id : ℕ) (s : Store Docs Details Lists)
      → IsCoherent now s
      → IsCoherent now (step (finds now id) s)
  finds-IsCoherent now id s c j x e =
      let (same_docs, change) = finds_parts now id s in
      rw same_docs (elim change [
        | inl kept ↦ c j x (rw kept at e)
        | inr (t, found, set) ↦ set_ex-IsCoherent now id j t x s c found (rw set at e)
      ])

  -- A write to the document `id`, whose cache entry is dropped, keeps the others as they are.
  write-IsCoherent :
      (now id user_id : ℕ) (f : Transaction → Transaction) (s : Store Docs Details Lists)
      → IsCoherent now s
      → IsCoherent now (
          invalidate_cache model detail_cache list_cache user_id id
            (record s { docs = model.update_many (λ x. x.id == id) f s.docs }))
  unfolding invalidate_cache
  write-IsCoherent now id user_id f s c j x e = elim (Bool-cases (id == j)) [
    | inl same ↦ absurd (ground (arith, detail_cache.get-del id j now s.details))
    | inr other ↦
        let (m, live) = c j x (ground (arith, detail_cache.get-del id j now s.details)) in
        let kept : (if x.id == id then f x else x) ≡ x = ground arith in
        (
          rw (model.rows-update_many (λ y. y.id == id) f s.docs) (
              rw kept at
                (In-map_of_In (λ y. if y.id == id then f y else y) (model.rows s.docs) x m)),
          live,
        )
  ]

  updates-IsCoherent :
      (now id : ℕ) (status : PaymentStatus) (response : Option (List (ℕ × ℕ)))
      (s : Store Docs Details Lists)
      → IsCoherent now s
      → IsCoherent now (step (updates now id status response) s)
  unfolding step update_status
  updates-IsCoherent now id status response s c =
      elim (Option-cases (model.find_first (λ t. t.id == id) s.docs)) [
        | inl nothing ↦ rw (nothing, ◌>>=◌, or_throw) c
        | inr (t, found) ↦
            rw (found, ◌>>=◌, or_throw)
              (write-IsCoherent now id t.user_id (with_status status response now) s c)
      ]

  deletes-IsCoherent :
      (now id : ℕ) (s : Store Docs Details Lists)
      → IsCoherent now s
      → IsCoherent now (step (deletes now id) s)
  unfolding step delete
  deletes-IsCoherent now id s c = elim (Option-cases (model.find_first (λ t. t.id == id) s.docs)) [
    | inl nothing ↦ rw (nothing, ◌>>=◌, or_throw) c
    | inr (t, found) ↦
        rw (found, ◌>>=◌, or_throw)
          (write-IsCoherent now id t.user_id (λ x. record x { is_deleted = true }) s c)
  ]

  lists_parts :
      (now user_id : ℕ) (s : Store Docs Details Lists)
      → let s' = step (lists now user_id) s in (s'.docs ≡ s.docs) × (s'.details ≡ s.details)
  unfolding step find_by_user_id
  lists_parts now user_id s = (ground arith, ground arith)

  lists-IsCoherent :
      (now user_id : ℕ) (s : Store Docs Details Lists)
      → IsCoherent now s
      → IsCoherent now (step (lists now user_id) s)
  lists-IsCoherent now user_id s c j x e =
      let (same_docs, kept) = lists_parts now user_id s in rw same_docs (c j x (rw kept at e))

  step-IsCoherent :
      (c : Call) (s : Store Docs Details Lists)
      → IsCoherent (time_of c) s
      → IsCoherent (time_of c) (step c s)
  step-IsCoherent (creates now t) s h = creates-IsCoherent now t s h
  step-IsCoherent (finds now id) s h = finds-IsCoherent now id s h
  step-IsCoherent (updates now id status response) s h =
      updates-IsCoherent now id status response s h
  step-IsCoherent (deletes now id) s h = deletes-IsCoherent now id s h
  step-IsCoherent (lists now user_id) s h = lists-IsCoherent now user_id s h

  -- From a coherent state, calls in order of time lead to coherent states.
  pub run-IsCoherent :
      (cs : List Call) (now : ℕ) (s : Store Docs Details Lists)
      → InOrder now cs
      → IsCoherent now s
      → IsCoherent (last_time now cs) (run cs s)
  unfolding run
  run-IsCoherent [] now s o h = h
  run-IsCoherent (c ∷ cs) now s o h =
      run-IsCoherent cs (time_of c) (step c s) o.1
        (step-IsCoherent c s (IsCoherent-later now (time_of c) s o.0 h))

  find_by_id-IsCoherent :
      (now id : ℕ) (s : Store Docs Details Lists)
      → IsCoherent now s
      → let answer = (find_by_id model detail_cache list_cache now id s).0 in
        ((t : Transaction) × (answer ≡ ok (some t))
          × In t (model.rows s.docs)
          × (is_live id t ≡ true))
        ⊎ ((answer ≡ ok none) × (any (is_live id) (model.rows s.docs) ≡ false))
  unfolding find_by_id
  find_by_id-IsCoherent now id s c = elim (Option-cases (detail_cache.get id now s.details)) [
    | inr (t, hit) ↦ let (m, live) = c id t hit in inl (t, ground arith, m, live)
    | inl miss ↦ elim (Option-cases (model.find_first (is_live id) s.docs)) [
      | inl nothing ↦ inr (ground arith, model.find_first-none (is_live id) s.docs nothing)
      | inr (t, found) ↦
          let (live, m) = model.find_first-some (is_live id) s.docs found in
          inl (t, ground arith, m, live)
    ]
  ]

  -- After any calls of the service in order of time, from a state whose cache is coherent, `findById`
  -- answers as the database would: a transaction that it returns is stored, has the id asked for and
  -- is not deleted, and it returns none only where no such transaction is stored.
  pub find_by_id-run :
      (cs : List Call) (now later id : ℕ) (s : Store Docs Details Lists)
      → InOrder now cs
      → IsCoherent now s
      → last_time now cs ≤ later
      → let s' = run cs s in
        let answer = (find_by_id model detail_cache list_cache later id s').0 in
        ((t : Transaction) × (answer ≡ ok (some t))
          × In t (model.rows s'.docs)
          × (is_live id t ≡ true))
        ⊎ ((answer ≡ ok none) × (any (is_live id) (model.rows s'.docs) ≡ false))
  find_by_id-run cs now later id s o h k =
      find_by_id-IsCoherent later id (run cs s)
        (IsCoherent-later (last_time now cs) later (run cs s) k (run-IsCoherent cs now s o h))
