-- ===== src/Chatting/Messages.antt =====
-- src/features/chatting/message/message.service.ts. The two queues and the socket gateway only take
-- what they are given, so that the state keeps what was sent, newest first; they do not throw.
pub mod Reading
pub mod Cursor
mod Sorting
pub mod Sender
mod Tests
use rental_application_nest.Prelude.{
  ℕ, ◌+◌, ◌-◌, ◌*◌, ◌/◌, ◌≡◌, Bool, true, false, not, ◌&&◌, Option, none, some, List, [], ◌∷◌, map,
  reverse, if◌then◌else◌, ◌==◌, ltb, is_some, Text, take, drop, last, length, Result, ok, err,
  HttpError, bad_request, not_found, internal, Action, pure, throw_if, or_throw, gets, modify,
  ◌>>=◌, ◌>>◌,
}
use rental_application_nest.External.Table.{Table}

pub record Message : Type 0 where
  pub id : ℕ
  pub text : Text
  pub sender_id : ℕ
  pub conversation_id : ℕ
  pub created_at : ℕ
  pub is_deleted : Bool

pub record Conversation : Type 0 where
  pub id : ℕ
  pub is_deleted : Bool

-- `ConversationParticipents`
pub record Participant : Type 0 where
  pub user_id : ℕ
  pub conversation_id : ℕ
  pub is_deleted : Bool
  pub last_message_read_at : Option ℕ
  pub last_message_read_id : Option ℕ
  pub is_this_conversation_unseen : ℕ

-- What goes into the two BullMQ queues.
pub data Job : Type 0 where
  update_conversation_last_message : ℕ → ℕ → Text → Job
  notify_participants : ℕ → Message → List ℕ → Job

-- What goes to the room of a conversation.
pub data Emission : Type 0 where
  new_message_received : ℕ → Message → Emission
  message_updated : ℕ → ℕ → Text → Emission
  message_deleted : ℕ → ℕ → Emission

pub record State (Conversations Participants Messages : Type 0) : Type 0 where
  pub conversations : Conversations
  pub participants : Participants
  pub messages : Messages
  pub queued : List Job
  pub emitted : List Emission

pub record Page : Type 0 where
  pub results : List Message
  pub page : ℕ
  pub limit : ℕ
  pub total_pages : ℕ
  pub total_results : ℕ

pub record CursorPage : Type 0 where
  pub results : List Message
  pub has_more : Bool
  pub next_cursor : Option ℕ
  pub prev_cursor : Option ℕ

abbrev pub is_live_in : ℕ → Message → Bool
is_live_in conversation_id m = m.conversation_id == conversation_id && not m.is_deleted

abbrev pub is_own : ℕ → ℕ → Message → Bool
is_own message_id user_id m = m.id == message_id && (m.sender_id == user_id && not m.is_deleted)

abbrev pub is_participant : ℕ → ℕ → Participant → Bool
is_participant user_id conversation_id p =
    p.user_id == user_id && (p.conversation_id == conversation_id && not p.is_deleted)

-- `{ createdAt: { lt, gt } }`, with what is set of the two
abbrev pub is_before : Option ℕ → Message → Bool
is_before none m = true
is_before (some time) m = ltb m.created_at time

abbrev pub is_after : Option ℕ → Message → Bool
is_after none m = true
is_after (some time) m = ltb time m.created_at

abbrev pub created : Option Message → Option ℕ
created none = none
created (some m) = some m.created_at

abbrev pub head_id : List Message → Option ℕ
head_id [] = none
head_id (m ∷ ms) = some m.id

-- `newest_first` and `oldest_first` are the database's sorts by `createdAt`.
module _ {Conversations Participants Messages : Type 0}
    (conversation : Table Conversation Conversations)
    (participents : Table Participant Participants) (message : Table Message Messages)
    (newest_first oldest_first : List Message → List Message) where
  abbrev pub Db : Type 0
  Db = State Conversations Participants Messages

  -- The id and the creation time of the new row are arguments.
  unfoldable pub send_message : ℕ → ℕ → ℕ → ℕ → Text → Action Db Message
  send_message new_id now conversation_id sender_id text = do
    found ← gets (λ s.
        conversation.find_first (λ c. c.id == conversation_id && not c.is_deleted) s.conversations)
    throw_if (not (is_some found)) (not_found "Conversation not found")
    member ←
        gets
          (λ s. participents.find_first (is_participant sender_id conversation_id) s.participants)
    throw_if (not (is_some member)) (bad_request "You are not a participant in this conversation")
    let sent : Message = record {
      id = new_id;
      text = text;
      sender_id = sender_id;
      conversation_id = conversation_id;
      created_at = now;
      is_deleted = false;
    }
    modify (λ s. record s {
      messages = message.create sent s.messages;
      queued =
          notify_participants conversation_id sent (
            map (λ p. p.user_id)
              (participents.find_many
                (λ p. p.conversation_id == conversation_id && not p.is_deleted) s.participants))
          ∷ update_conversation_last_message conversation_id new_id text
          ∷ s.queued;
      emitted = new_message_received conversation_id sent ∷ s.emitted;
    })
    pure sent

  abbrev pub mark_latest : ℕ → ℕ → ℕ → Option Message → Db → Db
  mark_latest conversation_id user_id latest_id none s = s
  mark_latest conversation_id user_id latest_id (some latest) s = record s {
    participants =
        participents.update_many (λ p. p.user_id == user_id && p.conversation_id == conversation_id)
          (λ p. record p {
            last_message_read_at = some latest.created_at;
            last_message_read_id = some latest_id;
            is_this_conversation_unseen = 0;
          })
          s.participants;
  }

  unfoldable pub mark_messages_as_read : ℕ → ℕ → Option ℕ → Db → Db
  mark_messages_as_read conversation_id user_id none s = s
  mark_messages_as_read conversation_id user_id (some latest_id) s =
      mark_latest conversation_id user_id latest_id
        (message.find_first (λ m. m.id == latest_id) s.messages) s

  -- The messages that a page shows, before they are turned round.
  unfoldable pub page_of : ℕ → ℕ → ℕ → Db → List Message
  page_of conversation_id page limit s = take limit (
      drop ((page - 1) * limit)
        (newest_first (message.find_many (is_live_in conversation_id) s.messages)))

  -- Pages count from 1, and a limit is at least 1.
  unfoldable pub get_messages_by_conversation : ℕ → ℕ → ℕ → ℕ → Action Db Page
  unfolding page_of
  get_messages_by_conversation conversation_id user_id page limit s =
      let messages = page_of conversation_id page limit s in
      let total = message.count (is_live_in conversation_id) s.messages in
      (
        ok (record {
          results = reverse messages;
          page = page;
          limit = limit;
          total_pages = (total + (limit - 1)) / limit;
          total_results = total;
        }),
        mark_messages_as_read conversation_id user_id (last (map (λ m. m.id) messages)) s,
      )

  abbrev pub time_of : Option ℕ → Db → Option ℕ
  time_of none s = none
  time_of (some id) s = created (message.find_first (λ m. m.id == id) s.messages)

  -- One more message than the limit is fetched, to see whether there are more.
  unfoldable pub fetched : ℕ → Option ℕ → Option ℕ → ℕ → Db → List Message
  fetched conversation_id before after limit s =
      let matches =
        message.find_many
          (λ m.
            is_live_in conversation_id m
            && (is_before (time_of before s) m && is_after (time_of after s) m))
          s.messages in
      take (limit + 1) (if is_some before then newest_first matches else oldest_first matches)

  -- `reverse` turns the array round in place, before the cursors are read.
  unfoldable pub get_messages_with_cursor : ℕ → ℕ → Option ℕ → Option ℕ → ℕ → Action Db CursorPage
  get_messages_with_cursor conversation_id user_id before after limit s =
      let messages = fetched conversation_id before after limit s in
      let has_more = ltb limit (length messages) in
      let selected = if has_more then take limit messages else messages in
      let shown = if is_some before then reverse selected else selected in
      (
        if has_more && not (is_some (last shown))
            then err (internal "Cannot read properties of undefined (reading 'id')")
            else ok (record {
              results = shown;
              has_more = has_more;
              next_cursor = if has_more then last (map (λ m. m.id) shown) else none;
              prev_cursor = head_id shown;
            }),
        mark_messages_as_read conversation_id user_id (last (map (λ m. m.id) selected)) s,
      )

  unfoldable pub update_message : ℕ → ℕ → Text → Action Db (Unit {0})
  update_message message_id user_id text = do
    found ← gets (λ s. message.find_first (is_own message_id user_id) s.messages)
    m ← or_throw found (not_found "Message not found or you do not have permission to edit it")
    modify (λ s. record s {
      messages =
          message.update_many (λ x. x.id == message_id) (λ x. record x { text = text }) s.messages;
      emitted = message_updated m.conversation_id message_id text ∷ s.emitted;
    })

  unfoldable pub delete_message : ℕ → ℕ → Action Db (Unit {0})
  delete_message message_id user_id = do
    found ← gets (λ s. message.find_first (is_own message_id user_id) s.messages)
    m ← or_throw found (not_found "Message not found or you do not have permission to delete it")
    modify (λ s. record s {
      messages =
          message.update_many (λ x. x.id == message_id) (λ x. record x { is_deleted = true })
            s.messages;
      emitted = message_deleted m.conversation_id message_id ∷ s.emitted;
    })

  abbrev pub read_at : Option Participant → Option ℕ
  read_at none = none
  read_at (some p) = p.last_message_read_at

  unfoldable pub get_unread_count : ℕ → ℕ → Db → ℕ
  get_unread_count user_id conversation_id s =
      let since =
        read_at (participents.find_first (is_participant user_id conversation_id) s.participants) in
      message.count
        (λ m. is_live_in conversation_id m && (not (m.sender_id == user_id) && is_after since m))
        s.messages
