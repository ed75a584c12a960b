-- ===== src/Chatting/Messages/Cursor.antt =====
-- What `getMessagesWithCursor` shows.
use rental_application_nest.Prelude.{
  ℕ, ◌+◌, ◌≤◌, ◌≡◌, inl, inr, Bool, true, false, ◌&&◌, Option, none, some, List, reverse,
  if◌then◌else◌, ltb, is_some, Bool-cases, Result-cases, arith, In, In-take, In-filter, In-reverse,
  length, length-reverse, length-take, take, ok, err, Result, [],
}
use rental_application_nest.External.Table.{Table}
use rental_application_nest.Chatting.Messages.{
  Message, Conversation, Participant, State, CursorPage, is_live_in, is_before, is_after, time_of,
  fetched, get_messages_with_cursor,
}

abbrev pub selected : ℕ → List Message → List Message
selected limit ms = if ltb limit (length ms) then take limit ms else ms

abbrev pub turned : Bool → List Message → List Message
turned back ms = if back then reverse ms else ms

length-selected : (limit : ℕ) (ms : List Message) → length (selected limit ms) ≤ limit
length-selected limit ms = elim (Bool-cases (ltb limit (length ms))) [
  | inl more ↦ rw more (length-take limit ms)
  | inr all ↦ rw all (ground arith)
]

In-selected : (limit : ℕ) (ms : List Message) (x : Message) → In x (selected limit ms) → In x ms
In-selected limit ms x k = elim (Bool-cases (ltb limit (length ms))) [
  | inl more ↦ In-take limit ms x (rw more at k)
  | inr all ↦ rw all at k
]

length-turned :
    (back : Bool) (ms : List Message) (limit : ℕ)
    → length ms ≤ limit
    → length (turned back ms) ≤ limit
length-turned true ms limit h = rw (length-reverse ms) h
length-turned false ms limit h = h

In-turned : (back : Bool) (ms : List Message) (x : Message) → In x (turned back ms) → In x ms
In-turned true ms x k = In-reverse ms x k
In-turned false ms x k = k

-- The messages that an answer shows; an error shows none.
abbrev pub cursor_results_of : Result CursorPage → List Message
cursor_results_of (ok p) = p.results
cursor_results_of (err e) = []

module _ {Conversations Participants Messages : Type 0}
    (conversation : Table Conversation Conversations)
    (participents : Table Participant Participants) (message : Table Message Messages)
    (newest_first oldest_first : List Message → List Message) where
  abbrev Db : Type 0
  Db = State Conversations Participants Messages

  fetched-In :
      (conversation_id limit : ℕ) (before after : Option ℕ) (s : Db) (x : Message)
      → ((xs : List Message) (y : Message) → In y (newest_first xs) → In y xs)
      → ((xs : List Message) (y : Message) → In y (oldest_first xs) → In y xs)
      → In x (
          fetched conversation participents message newest_first oldest_first conversation_id before
            after limit s)
      → In x (message.rows s.messages)
        × ((is_live_in conversation_id x
              && (is_before
                    (time_of conversation participents message newest_first oldest_first before s)
                    x
                  && is_after
                      (time_of conversation participents message newest_first oldest_first after s)
                      x))
            ≡ true)
  unfolding fetched
  fetched-In conversation_id limit none after s x newest oldest k =
      In-filter _ (message.rows s.messages) x
        (rw (message.find_many-rows _ s.messages) at (oldest _ x (In-take (limit + 1) _ x k)))
  fetched-In conversation_id limit (some before) after s x newest oldest k =
      In-filter _ (message.rows s.messages) x
        (rw (message.find_many-rows _ s.messages) at (newest _ x (In-take (limit + 1) _ x k)))

  -- A page of `getMessagesWithCursor` has at most `limit` messages, and each of them is a stored message
  -- of the conversation that is not deleted, created before the message of the cursor `before` and
  -- after that of `after`, where these are given and stored. The database's sorts lose no message.
  pub cursor_page_sound :
      (conversation_id user_id limit : ℕ) (before after : Option ℕ) (s : Db) {r : CursorPage}
      → ((xs : List Message) (y : Message) → In y (newest_first xs) → In y xs)
      → ((xs : List Message) (y : Message) → In y (oldest_first xs) → In y xs)
      → (get_messages_with_cursor conversation participents message newest_first oldest_first
          conversation_id user_id before after limit s).0
        ≡ ok r
      → (length r.results ≤ limit)
        × ((x : Message)
            → In x r.results
            → In x (message.rows s.messages)
              × ((is_live_in conversation_id x
                    && (is_before
                          (time_of conversation participents message newest_first oldest_first
                            before s)
                          x
                        && is_after
                            (time_of conversation participents message newest_first oldest_first
                              after s)
                            x))
                  ≡ true))
  unfolding get_messages_with_cursor
  cursor_page_sound conversation_id user_id limit before after s {r} newest oldest h =
      let messages =
        fetched conversation participents message newest_first oldest_first conversation_id before
          after limit s in
      let shown : r.results ≡ turned (is_some before) (selected limit messages) = ground arith in
      (
        rw shown (
            length-turned (is_some before) (selected limit messages) limit
              (length-selected limit messages)),
        λ x k. fetched-In conversation_id limit before after s x newest oldest (
            In-selected limit messages x
              (In-turned (is_some before) (selected limit messages) x (rw shown at k))),
      )

  pub cursor_results-In :
      (conversation_id user_id limit : ℕ) (before after : Option ℕ) (s : Db) (x : Message)
      → ((xs : List Message) (y : Message) → In y (newest_first xs) → In y xs)
      → ((xs : List Message) (y : Message) → In y (oldest_first xs) → In y xs)
      → In x (
          cursor_results_of
            (get_messages_with_cursor conversation participents message newest_first oldest_first
              conversation_id user_id before after limit s).0)
      → In x (message.rows s.messages) × (is_live_in conversation_id x ≡ true)
  cursor_results-In conversation_id user_id limit before after s x newest oldest k =
      let answer =
        (get_messages_with_cursor conversation participents message newest_first oldest_first
          conversation_id user_id before after limit s).0 in
      elim (Result-cases answer) [
        | inr (e, failed) ↦ elim (rw failed at k) [ ]
        | inl (r, shown) ↦
            let sound =
              cursor_page_sound conversation_id user_id limit before after s newest oldest shown in
            let (i, live) = sound.1 x (rw shown at k) in (i, ground arith)
      ]
