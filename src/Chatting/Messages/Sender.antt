-- ===== src/Chatting/Messages/Sender.antt =====
-- Who may write, change and delete a message.
use rental_application_nest.Prelude.{
  ℕ, ◌≡◌, ◌⊎◌, ◌∙◌, refl, inl, inr, ap, sym, Bool, true, false, not, ◌&&◌, none, some, List, ◌∷◌,
  if◌then◌else◌, ◌==◌, Bool-cases, Option-cases, arith, In, any, any-In, In-map, Option, Text, ok,
  err, HttpError, not_found, bad_request,
}
use rental_application_nest.External.Table.{Table}
use rental_application_nest.Chatting.Messages.{
  Message, Conversation, Participant, State, is_own, is_participant, send_message, update_message,
  delete_message, get_messages_by_conversation, get_messages_with_cursor,
}
use rental_application_nest.Chatting.Messages.Reading.{IsKeyed, page_of-In, results_of, In-results}
use rental_application_nest.Chatting.Messages.Cursor.{cursor_results_of, cursor_results-In}

module _ {Conversations Participants Messages : Type 0}
    (conversation : Table Conversation Conversations)
    (participents : Table Participant Participants) (message : Table Message Messages)
    (newest_first oldest_first : List Message → List Message) where
  abbrev Db : Type 0
  Db = State Conversations Participants Messages

  abbrev pub is_open : ℕ → Conversation → Bool
  is_open conversation_id c = c.id == conversation_id && not c.is_deleted

  -- `sendMessage` either throws and changes nothing, and then the conversation is missing or deleted or
  -- the sender is not one of its participants; or it stores the one message that it returns, and then
  -- the conversation is there and the sender takes part in it.
  send_message-answers :
      (new_id now conversation_id sender_id : ℕ) (text : Text) (s : Db)
      → let (answer, s') =
          send_message conversation participents message newest_first oldest_first new_id now
            conversation_id sender_id text s in
        ((e : HttpError) × (answer ≡ err e)
          × (s' ≡ s)
          × ((any (is_open conversation_id) (conversation.rows s.conversations)
                && any
                    (is_participant sender_id conversation_id)
                    (participents.rows s.participants))
              ≡ false))
        ⊎ ((m : Message) × (answer ≡ ok m)
            × (message.rows s'.messages ≡ m ∷ message.rows s.messages)
            × (m.sender_id ≡ sender_id)
            × (m.conversation_id ≡ conversation_id)
            × (m.text ≡ text)
            × ((any (is_open conversation_id) (conversation.rows s.conversations)
                  && any
                      (is_participant sender_id conversation_id)
                      (participents.rows s.participants))
                ≡ true))
  unfolding send_message
  send_message-answers new_id now conversation_id sender_id text s =
      elim (Option-cases (conversation.find_first (is_open conversation_id) s.conversations)) [
        | inl gone ↦ inl (
          not_found "Conversation not found",
          ground arith,
          ground arith,
          ground
              (arith, conversation.find_first-none (is_open conversation_id) s.conversations gone),
        )
        | inr (c, found) ↦
            elim (Option-cases
              (participents.find_first (is_participant sender_id conversation_id) s.participants)) [
                | inl outsider ↦ inl (
                  bad_request "You are not a participant in this conversation",
                  ground arith,
                  ground arith,
                  ground (
                    arith,
                    participents.find_first-none (is_participant sender_id conversation_id)
                        s.participants outsider,
                  ),
                )
                | inr (p, member) ↦
                    let (open_c, i) =
                      conversation.find_first-some (is_open conversation_id) s.conversations
                        found in
                    let (live_p, j) =
                      participents.find_first-some (is_participant sender_id conversation_id)
                        s.participants member in
                    let there =
                      any-In (is_open conversation_id) (conversation.rows s.conversations) c i
                        open_c in
                    let takes_part =
                      any-In (is_participant sender_id conversation_id)
                        (participents.rows s.participants) p j live_p in
                    let sent : Message = record {
                      id = new_id;
                      text = text;
                      sender_id = sender_id;
                      conversation_id = conversation_id;
                      created_at = now;
                      is_deleted = false;
                    } in
                    inr (
                      sent,
                      ground arith,
                      ground (arith, message.rows-create sent s.messages),
                      refl,
                      refl,
                      refl,
                      ground arith,
                    )
              ]
      ]

  abbrev pub with_text : Text → Message → Message
  with_text text m = record m { text = text }

  abbrev pub as_deleted : Message → Message
  as_deleted m = record m { is_deleted = true }

  update_message-parts :
      (message_id user_id : ℕ) (text : Text) (s : Db)
      → let s' =
          (update_message conversation participents message newest_first oldest_first message_id
            user_id text s).1 in
        (s' ≡ s)
        ⊎ ((m : Message) × (message.find_first (is_own message_id user_id) s.messages ≡ some m)
            × (s'.messages
                ≡ message.update_many (λ x. x.id == message_id) (with_text text) s.messages))
  unfolding update_message
  update_message-parts message_id user_id text s =
      elim (Option-cases (message.find_first (is_own message_id user_id) s.messages)) [
        | inl nobody ↦ inl (ground arith)
        | inr (m, found) ↦ inr (m, found, ground arith)
      ]

  -- `updateMessage` changes at most the sender's own message: every message that is stored afterwards
  -- was stored before, or is a message that was the caller's own and not deleted, with the new text.
  -- Ids are unique.
  pub update_message-own :
      (message_id user_id : ℕ) (text : Text) (s : Db) (r : Message)
      → IsKeyed conversation participents message newest_first oldest_first s
      → In r (
          message.rows
            (update_message conversation participents message newest_first oldest_first message_id
              user_id text s).1.messages)
      → In r (message.rows s.messages)
        ⊎ ((x : Message) × In x (message.rows s.messages)
            × (is_own message_id user_id x ≡ true)
            × (r ≡ with_text text x))
  update_message-own message_id user_id text s r keyed k =
      elim (update_message-parts message_id user_id text s) [
        | inl same ↦ inl (rw same at k)
        | inr (m, found, e) ↦
            let (own, i) = message.find_first-some (is_own message_id user_id) s.messages found in
            let (x, j, d) =
              In-map (λ x. if x.id == message_id then with_text text x else x)
                (message.rows s.messages) r
                (rw
                  (
                    e,
                    message.rows-update_many (λ x. x.id == message_id) (with_text text) s.messages,
                  )
                  at k) in
            elim (Bool-cases (x.id == message_id)) [
              | inl hit ↦
                  let same = keyed m x i j (ground arith) in
                  inr (x, j, ap (is_own message_id user_id) (sym same) ∙ own, d ∙ rw hit refl)
              | inr miss ↦ let same : r ≡ x = d ∙ rw miss refl in inl (rw (← same) at j)
            ]
      ]

  delete_message-parts :
      (message_id user_id : ℕ) (s : Db)
      → let (answer, s') =
          delete_message conversation participents message newest_first oldest_first message_id
            user_id s in
        answer ≡ ok tt
        → s'.messages ≡ message.update_many (λ x. x.id == message_id) as_deleted s.messages
  unfolding delete_message
  delete_message-parts message_id user_id s h = ground arith

  -- Every row with the id is marked as deleted.
  deleted-In :
      (message_id user_id : ℕ) (s : Db) (r : Message)
      → let (answer, s') =
          delete_message conversation participents message newest_first oldest_first message_id
            user_id s in
        answer ≡ ok tt → In r (message.rows s'.messages) → r.id ≡ message_id → r.is_deleted ≡ true
  deleted-In message_id user_id s r h k same =
      let (x, j, d) =
        In-map (λ x. if x.id == message_id then as_deleted x else x) (message.rows s.messages) r
          (rw
            (
              delete_message-parts message_id user_id s h,
              message.rows-update_many (λ x. x.id == message_id) as_deleted s.messages,
            )
            at k) in
      elim (Bool-cases (x.id == message_id)) [
        | inl hit ↦ let gone : r ≡ as_deleted x = d ∙ rw hit refl in ap (λ y. y.is_deleted) gone
        | inr miss ↦
            let kept : r ≡ x = d ∙ rw miss refl in absurd (ground (arith, ap (λ y. y.id) kept))
      ]

  update_nobody :
      (message_id user_id : ℕ) (text : Text) (s : Db)
      → message.find_first (is_own message_id user_id) s.messages ≡ none
      → update_message conversation participents message newest_first oldest_first message_id
          user_id text s
        ≡ (err (not_found "Message not found or you do not have permission to edit it"), s)
  unfolding update_message
  update_nobody message_id user_id text s nobody = ground arith

  -- After a `deleteMessage` that succeeds, no user can edit the message, not even its sender: the edit
  -- throws and changes nothing; and no page of any conversation that `getMessagesByConversation` or
  -- `getMessagesWithCursor` answers to any user shows a message with its id. The database's sorts lose
  -- no message.
  pub deleted_final :
      (message_id user_id : ℕ) (s : Db) (editor : ℕ) (text : Text)
      (conversation_id reader page limit : ℕ) (before after : Option ℕ) (r : Message)
      → ((xs : List Message) (y : Message) → In y (newest_first xs) → In y xs)
      → ((xs : List Message) (y : Message) → In y (oldest_first xs) → In y xs)
      → r.id ≡ message_id
      → let (answer, s') =
          delete_message conversation participents message newest_first oldest_first message_id
            user_id s in
        answer ≡ ok tt
        → (update_message conversation participents message newest_first oldest_first message_id
              editor text s'
            ≡ (err (not_found "Message not found or you do not have permission to edit it"), s'))
          × (¬ In r (
              results_of
                (get_messages_by_conversation conversation participents message newest_first
                  oldest_first conversation_id reader page limit s').0))
          × (¬ In r (
              cursor_results_of
                (get_messages_with_cursor conversation participents message newest_first
                  oldest_first conversation_id reader before after limit s').0))
  deleted_final message_id user_id s editor text conversation_id reader page limit before after r
        newest oldest same h =
      let s' =
        (delete_message conversation participents message newest_first oldest_first message_id
          user_id s).1 in
      (
        elim (Option-cases (message.find_first (is_own message_id editor) s'.messages)) [
          | inl nobody ↦ update_nobody message_id editor text s' nobody
          | inr (m, found) ↦
              let (own, i) = message.find_first-some (is_own message_id editor) s'.messages found in
              absurd (ground (arith, deleted-In message_id user_id s m h i))
        ],
        λ k.
            let (i, live) =
              page_of-In conversation participents message newest_first oldest_first conversation_id
                page limit s' r newest
                (In-results conversation participents message newest_first oldest_first
                  conversation_id reader page limit s' r k) in
            absurd (ground (arith, deleted-In message_id user_id s r h i same)),
        λ k.
            let (i, live) =
              cursor_results-In conversation participents message newest_first oldest_first
                conversation_id reader limit before after s' r newest oldest k in
            absurd (ground (arith, deleted-In message_id user_id s r h i same)),
      )
