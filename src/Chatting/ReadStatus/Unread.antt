-- ===== src/Chatting/ReadStatus/Unread.antt =====
-- Which messages are listed as unread.
use rental_application_nest.Prelude.{
  ℕ, zero, suc, ◌≡◌, refl, ap, ◌∙◌, Bool, false, not, ◌&&◌, List, [], ◌∷◌, map, take, arith,
  Bool-cases, Option-cases, inl, inr, any, any-map_none, filter, filter_none, ◌==◌, if◌then◌else◌,
}
use rental_application_nest.External.Table.{Table}
use rental_application_nest.Chatting.ReadStatus.{
  ReadStatus, has_key, read_status, mark_as_read, mark_multiple_as_read, get_unread_messages,
  cleanup_old_statuses,
}
use rental_application_nest.Chatting.ReadStatus.Refinement.{
  Call, marks, marks_many, cleans_up, step, run,
}

abbrev is_unread : ReadStatus → Bool
is_unread r = not r.is_read

any-filter_none :
    (p q : ReadStatus → Bool) (xs : List ReadStatus)
    → any p xs ≡ false
    → any p (filter q xs) ≡ false
any-filter_none p q [] h = refl
any-filter_none p q (x ∷ xs) h = ground (arith, any-filter_none p q xs)

take_empty : (n : ℕ) (xs : List ReadStatus) → xs ≡ [] → take n xs ≡ []
take_empty zero xs e = refl
take_empty (suc n) xs e = rw e refl

module _ {Rows : Type 0} (message_read_status : Table ReadStatus Rows)
    (newest_first : List ReadStatus → List ReadStatus) where
  abbrev AllRead : Rows → Type 0
  AllRead s = any is_unread (message_read_status.rows s) ≡ false

  mark_as_read-AllRead :
      (now message_id user_id conversation_id : ℕ) (s : Rows)
      → AllRead s
      → AllRead
          (mark_as_read message_read_status newest_first now message_id user_id conversation_id s)
  unfolding mark_as_read
  mark_as_read-AllRead now message_id user_id conversation_id s h =
      let new = read_status now message_id user_id conversation_id in
      elim (Option-cases (message_read_status.find_first (has_key message_id user_id) s)) [
        | inl missing ↦ rw (mark_as_read, missing, message_read_status.rows-create new s) h
        | inr (r, found) ↦
            rw
              (
                mark_as_read,
                found,
                message_read_status.rows-update_many (has_key message_id user_id) (λ x. new) s,
              )
              (any-map_none is_unread (λ x. if has_key message_id user_id x then new else x)
                (message_read_status.rows s)
                (λ x e. elim (Bool-cases (has_key message_id user_id x)) [
                  | inl hit ↦ absurd (ground (arith, (rw hit at e)))
                  | inr miss ↦ rw miss at e
                ])
                h)
      ]

  mark_multiple_as_read-AllRead :
      (now : ℕ) (ms : List ℕ) (user_id conversation_id : ℕ) (s : Rows)
      → AllRead s
      → AllRead
          (mark_multiple_as_read message_read_status newest_first now ms user_id conversation_id s)
  unfolding mark_multiple_as_read
  mark_multiple_as_read-AllRead now [] user_id conversation_id s h = h
  mark_multiple_as_read-AllRead now (m ∷ ms) user_id conversation_id s h =
      mark_multiple_as_read-AllRead now ms user_id conversation_id
        (mark_as_read message_read_status newest_first now m user_id conversation_id s)
        (mark_as_read-AllRead now m user_id conversation_id s h)

  step-AllRead :
      (c : Call) (s : Rows) → AllRead s → AllRead (step message_read_status newest_first c s)
  unfolding step cleanup_old_statuses
  step-AllRead (marks now message_id user_id conversation_id) s h =
      mark_as_read-AllRead now message_id user_id conversation_id s h
  step-AllRead (marks_many now ms user_id conversation_id) s h =
      mark_multiple_as_read-AllRead now ms user_id conversation_id s h
  step-AllRead cleans_up s h =
      rw (message_read_status.rows-delete_many (λ r. r.is_deleted) s)
        (any-filter_none is_unread (λ r. not r.is_deleted) (message_read_status.rows s) h)

  run-AllRead :
      (cs : List Call) (s : Rows) → AllRead s → AllRead (run message_read_status newest_first cs s)
  unfolding run
  run-AllRead [] s h = h
  run-AllRead (c ∷ cs) s h =
      run-AllRead cs (step message_read_status newest_first c s) (step-AllRead c s h)

  -- No message is ever listed as unread: from no rows, after any calls of the service that write,
  -- `getUnreadMessages` is empty for every user, conversation and limit. The database's sort makes nothing
  -- of nothing.
  get_unread_messages-run :
      (cs : List Call) (s : Rows) (user_id conversation_id limit : ℕ)
      → message_read_status.rows s ≡ []
      → newest_first [] ≡ []
      → get_unread_messages message_read_status newest_first user_id conversation_id limit
          (run message_read_status newest_first cs s)
        ≡ []
  unfolding get_unread_messages
  get_unread_messages-run cs s user_id conversation_id limit nothing sorted =
      let q = λ (r : ReadStatus).
        r.user_id == user_id
        && (r.conversation_id == conversation_id && (not r.is_read && not r.is_deleted)) in
      let s' = run message_read_status newest_first cs s in
      let start : AllRead s = rw nothing refl in
      let none_found : message_read_status.find_many q s' ≡ [] =
        message_read_status.find_many-rows q s'
        ∙ filter_none is_unread q (message_read_status.rows s') (λ x h. ground arith)
            (run-AllRead cs s start) in
      ap (map (λ r. r.message_id)) (
        take_empty limit (newest_first (message_read_status.find_many q s'))
          (ap newest_first none_found ∙ sorted))
