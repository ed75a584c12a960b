-- ===== src/Chatting/ReadStatus/Refinement.antt =====
-- The service implements a set of pairs of a message and a reader that only grows.
use rental_application_nest.Prelude.{
  ℕ, ◌≡◌, refl, Bool, true, false, not, ◌&&◌, ◌||◌, some, List, [], ◌∷◌, map, arith, Bool-cases,
  Option-cases, inl, inr, any, any-In, any-map, any-filter, In-map_of_In, contains, ◌==◌,
  if◌then◌else◌,
}
use rental_application_nest.External.Table.{Table, find_first-any}
use rental_application_nest.Chatting.ReadStatus.{
  ReadStatus, has_key, is_reading, read_status, mark_as_read, mark_multiple_as_read,
  has_user_read_message, cleanup_old_statuses,
}

-- A call of the service that writes: one message, several, or the cleanup.
pub data Call : Type 0 where
  marks : ℕ → ℕ → ℕ → ℕ → Call
  marks_many : ℕ → List ℕ → ℕ → ℕ → Call
  cleans_up : Call

-- The specification: whether a call reads a message for a user
abbrev pub reads : ℕ → ℕ → Call → Bool
reads m u (marks now message_id user_id conversation_id) = message_id == m && user_id == u
reads m u (marks_many now ms user_id conversation_id) = contains ms m && user_id == u
reads m u cleans_up = false

module _ {Rows : Type 0} (message_read_status : Table ReadStatus Rows)
    (newest_first : List ReadStatus → List ReadStatus) where
  unfoldable pub step : Call → Rows → Rows
  step (marks now message_id user_id conversation_id) s =
      mark_as_read message_read_status newest_first now message_id user_id conversation_id s
  step (marks_many now ms user_id conversation_id) s =
      mark_multiple_as_read message_read_status newest_first now ms user_id conversation_id s
  step cleans_up s = cleanup_old_statuses message_read_status newest_first s

  unfoldable pub run : List Call → Rows → Rows
  run [] s = s
  run (c ∷ cs) s = run cs (step c s)

  abbrev has_read : ℕ → ℕ → Rows → Bool
  has_read m u s = has_user_read_message message_read_status newest_first m u s

  has_read-any :
      (m u : ℕ) (s : Rows) → has_read m u s ≡ any (is_reading m u) (message_read_status.rows s)
  unfolding has_user_read_message
  has_read-any m u s = find_first-any message_read_status (is_reading m u) s

  updated_any :
      (now m u message_id user_id conversation_id : ℕ) (r : ReadStatus) (s : Rows)
      → message_read_status.find_first (has_key message_id user_id) s ≡ some r
      → any (is_reading m u) (
          map
            (λ x.
              if has_key message_id user_id x
              then read_status now message_id user_id conversation_id
              else x)
            (message_read_status.rows s))
        ≡ (message_id == m && user_id == u || any (is_reading m u) (message_read_status.rows s))
  updated_any now m u message_id user_id conversation_id r s found =
      let new = read_status now message_id user_id conversation_id in
      let g = λ (x : ReadStatus). if has_key message_id user_id x then new else x in
      let (key, k) = message_read_status.find_first-some (has_key message_id user_id) s found in
      elim (Bool-cases (message_id == m && user_id == u)) [
        | inl same ↦
            let there : g r ≡ new = rw key refl in
            let read : is_reading m u new ≡ true = ground arith in
            rw same (
              any-In (is_reading m u) (map g (message_read_status.rows s)) new
                (rw there at (In-map_of_In g (message_read_status.rows s) r k)) read)
        | inr other ↦ rw other (
            any-map (is_reading m u) g (message_read_status.rows s) (λ x.
              elim (Bool-cases (has_key message_id user_id x)) [
                | inl hit ↦ rw hit (ground arith)
                | inr miss ↦ rw miss refl
              ]))
      ]

  mark_as_read-has_read :
      (now m u message_id user_id conversation_id : ℕ) (s : Rows)
      → has_read m u
          (mark_as_read message_read_status newest_first now message_id user_id conversation_id s)
        ≡ (message_id == m && user_id == u || has_read m u s)
  unfolding mark_as_read
  mark_as_read-has_read now m u message_id user_id conversation_id s =
      let new = read_status now message_id user_id conversation_id in
      let s' =
        mark_as_read message_read_status newest_first now message_id user_id conversation_id s in
      elim (Option-cases (message_read_status.find_first (has_key message_id user_id) s)) [
        | inl missing ↦
            rw
              (
                has_read-any m u s',
                has_read-any m u s,
                mark_as_read,
                missing,
                message_read_status.rows-create new s,
              )
              (ground arith)
        | inr (r, found) ↦
            rw
              (
                has_read-any m u s',
                has_read-any m u s,
                mark_as_read,
                found,
                message_read_status.rows-update_many (has_key message_id user_id) (λ x. new) s,
              )
              (updated_any now m u message_id user_id conversation_id r s found)
      ]

  mark_multiple_as_read-has_read :
      (now m u : ℕ) (ms : List ℕ) (user_id conversation_id : ℕ) (s : Rows)
      → has_read m u
          (mark_multiple_as_read message_read_status newest_first now ms user_id conversation_id s)
        ≡ (contains ms m && user_id == u || has_read m u s)
  unfolding mark_multiple_as_read
  mark_multiple_as_read-has_read now m u [] user_id conversation_id s = refl
  mark_multiple_as_read-has_read now m u (i ∷ ms) user_id conversation_id s =
      let s' = mark_as_read message_read_status newest_first now i user_id conversation_id s in
      ground (
        arith,
        mark_multiple_as_read-has_read now m u ms user_id conversation_id s',
        mark_as_read-has_read now m u i user_id conversation_id s,
      )

  cleanup_old_statuses-has_read :
      (m u : ℕ) (s : Rows)
      → has_read m u (cleanup_old_statuses message_read_status newest_first s) ≡ has_read m u s
  unfolding cleanup_old_statuses
  cleanup_old_statuses-has_read m u s =
      let s' = message_read_status.delete_many (λ r. r.is_deleted) s in
      rw
        (
          has_read-any m u s',
          has_read-any m u s,
          message_read_status.rows-delete_many (λ r. r.is_deleted) s,
        )
        (any-filter (is_reading m u) (λ r. not r.is_deleted) (message_read_status.rows s)
          (λ x h. ground arith))

  step-has_read :
      (c : Call) (m u : ℕ) (s : Rows) → has_read m u (step c s) ≡ (reads m u c || has_read m u s)
  unfolding step
  step-has_read (marks now message_id user_id conversation_id) m u s =
      mark_as_read-has_read now m u message_id user_id conversation_id s
  step-has_read (marks_many now ms user_id conversation_id) m u s =
      mark_multiple_as_read-has_read now m u ms user_id conversation_id s
  step-has_read cleans_up m u s = cleanup_old_statuses-has_read m u s

  -- The service implements a set of pairs that only grows: after any calls that write, a user has read a
  -- message exactly where one of the calls read it for the user, or the user had read it before.
  pub has_user_read_message-run :
      (cs : List Call) (m u : ℕ) (s : Rows)
      → has_user_read_message message_read_status newest_first m u (run cs s)
        ≡ (any (reads m u) cs || has_user_read_message message_read_status newest_first m u s)
  unfolding run
  has_user_read_message-run [] m u s = refl
  has_user_read_message-run (c ∷ cs) m u s =
      ground (arith, has_user_read_message-run cs m u (step c s), step-has_read c m u s)
