-- ===== src/Chatting/Conversations/Reading.antt =====
-- What the list of conversations shows after a conversation was read.
use rental_application_nest.Prelude.{
  ℕ, ◌-◌, ◌*◌, ◌≤◌, ◌≡◌, refl, ap, ◌∙◌, true, not, ◌&&◌, Option, Option-cases, inl, inr, Bool-cases,
  some, List, [], ◌∷◌, take, drop, ltb, ◌==◌, Text, arith, In, In-map, In-take, In-drop, In-filter,
  count_if_none, if◌then◌else◌,
}
use rental_application_nest.External.Table.{Table}
use rental_application_nest.Chatting.Conversations.{
  Conversation, Participant, Message, State, mark_as_read,
}
use rental_application_nest.Chatting.Conversations.Lists.{
  Summary, summary_of, summaries, read_time, get_conversations_by_user_id,
}

module _ {Conversations Participants Messages : Type 0}
    (conversation : Table Conversation Conversations)
    (participents : Table Participant Participants) (message : Table Message Messages)
    (names : ℕ → Option Text) (latest_first : List Participant → List Participant) where
  abbrev Store : Type 0
  Store = State Conversations Participants Messages

  -- A line of the list comes from a participant's row.
  In-summaries :
      (user_id : ℕ) (s : Store) (ps : List Participant) (r : Summary)
      → In r (summaries conversation participents message latest_first user_id s ps)
      → (p : Participant) × (c : Conversation) × In p ps
        × (r ≡ summary_of conversation participents message latest_first user_id s p c)
  In-summaries user_id s [] r m = elim m [ ]
  In-summaries user_id s (p ∷ ps) r m =
      elim (Option-cases
        (conversation.find_first (λ c. c.id == p.conversation_id) s.conversations)) [
          | inl missing ↦
              let (q, c, k, e) = In-summaries user_id s ps r (rw (summaries, missing) at m) in
              (q, c, inr k, e)
          | inr (c, found) ↦ elim (rw (summaries, found) at m) [
            | inl e ↦ (p, c, inl refl, e)
            | inr k ↦ let (q, d, k', e) = In-summaries user_id s ps r k in (q, d, inr k', e)
          ]
        ]

  -- After the mark the user's rows of the conversation carry its time.
  marked :
      (now user_id conversation_id : ℕ) (s : Store) (p : Participant)
      → In p (
          participents.rows
            (mark_as_read conversation participents message names now user_id conversation_id
              s).participants)
      → (p.conversation_id == conversation_id && p.user_id == user_id) ≡ true
      → p.last_message_read_at ≡ some now
  unfolding mark_as_read
  marked now user_id conversation_id s p m own =
      let q = λ (x : Participant). x.conversation_id == conversation_id && x.user_id == user_id in
      let f = λ (x : Participant). record x { last_message_read_at = some now; unread_count = 0 } in
      let (y, k, e) =
        In-map (λ x. if q x then f x else x) (participents.rows s.participants) p
          (rw (participents.rows-update_many q f s.participants) at m) in
      elim (Bool-cases (q y)) [
        | inl hit ↦ let is : p ≡ f y = rw hit at e in ap (λ x. x.last_message_read_at) is
        | inr miss ↦
            let is : p ≡ y = rw miss at e in
            absurd (ground (arith, ap (λ x. x.conversation_id) is, ap (λ x. x.user_id) is))
      ]

  unread_zero :
      (now user_id : ℕ) (s : Store) (p : Participant) (c : Conversation)
      → p.last_message_read_at ≡ some now
      → ((m : Message) → In m (message.rows s.messages) → m.created_at ≤ now)
      → (summary_of conversation participents message latest_first user_id s p c).unread_count ≡ 0
  unread_zero now user_id s p c at_time past =
      let unread = λ (m : Message).
        m.conversation_id == p.conversation_id
        && (not (m.sender_id == user_id)
            && (ltb (read_time p.last_message_read_at) m.created_at && not m.is_deleted)) in
      message.count-rows unread s.messages
      ∙ count_if_none unread (message.rows s.messages)
          (λ m k. rw at_time (ground (arith, past m k)))

  -- Where no message is from a later time, the list of a user who marked a conversation as read shows no
  -- unread message for it, on every page, whatever the order of the list's rows.
  pub mark_as_read-get_conversations_by_user_id :
      (now user_id conversation_id page limit : ℕ) (s : Store) (r : Summary)
      → ((ps : List Participant) (p : Participant) → In p (latest_first ps) → In p ps)
      → ((m : Message) → In m (message.rows s.messages) → m.created_at ≤ now)
      → let s' =
          mark_as_read conversation participents message names now user_id conversation_id s in
        In r
          (get_conversations_by_user_id conversation participents message latest_first user_id page
            limit s').results
        → r.id ≡ conversation_id
        → r.unread_count ≡ 0
  unfolding get_conversations_by_user_id mark_as_read
  mark_as_read-get_conversations_by_user_id now user_id conversation_id page limit s r orders past m
        this =
      let s' = mark_as_read conversation participents message names now user_id conversation_id s in
      let own = λ (p : Participant). p.user_id == user_id && not p.is_deleted in
      let found = latest_first (participents.find_many own s'.participants) in
      let rest = drop ((page - 1) * limit) found in
      let (p, c, k, e) = In-summaries user_id s' (take limit rest) r m in
      let listed =
        orders (participents.find_many own s'.participants) p
          (In-drop ((page - 1) * limit) found p (In-take limit rest p k)) in
      let (k', own_row) =
        In-filter own (participents.rows s'.participants) p
          (rw (participents.find_many-rows own s'.participants) at listed) in
      let at_time = marked now user_id conversation_id s p k' (ground (arith, ap (λ x. x.id) e)) in
      ap (λ x. x.unread_count) e ∙ unread_zero now user_id s' p c at_time past
