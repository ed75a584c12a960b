-- ===== src/Chatting/Conversations.antt =====
-- src/features/chatting/conversation.service.ts. New ids and the time are arguments; ids are numbers. The
-- queues and the socket gateway take what they are given. A message is sent to a conversation that is stored, which
-- its foreign key asks for.
pub mod Lists
pub mod Reading
pub mod Search
pub mod Creation
pub mod Direct
mod Tests
use rental_application_nest.Prelude.{
  ℕ, ◌+◌, ◌-◌, ◌*◌, ◌≡◌, Bool, true, false, not, ◌&&◌, Option, none, some, List, [], ◌∷◌, ◌++◌, map,
  filter, any, find, take, drop, length, contains, leb, ltb, ◌==◌, Text, text_eq, is_some,
  if◌then◌else◌, Result, ok, err, internal, Action, pure, throw_if, gets, modify, ◌>>=◌, ◌>>◌,
}
use rental_application_nest.External.Table.{Table}
use rental_application_nest.Content.Generic.{ceil_div}

pub data ConversationType : Type 0 where
  direct group : ConversationType

pub data ParticipantRole : Type 0 where
  admin member : ParticipantRole

pub record Conversation : Type 0 where
  pub id : ℕ
  pub creator_id : ℕ
  pub type : ConversationType
  pub group_name : Option Text
  pub group_profile_picture : Option Text
  pub last_message_id : Option ℕ
  pub last_message_text : Option Text
  pub last_message_created_at : Option ℕ
  pub is_deleted : Bool

pub record Participant : Type 0 where
  pub user_id : ℕ
  pub conversation_id : ℕ
  pub user_name : Text
  pub role : ParticipantRole
  pub last_message_read_at : Option ℕ
  pub unread_count : ℕ
  pub is_deleted : Bool

pub record Message : Type 0 where
  pub id : ℕ
  pub conversation_id : ℕ
  pub sender_id : ℕ
  pub text : Text
  pub created_at : ℕ
  pub is_deleted : Bool

pub data Job : Type 0 where
  update_conversation_last_message : ℕ → ℕ → Text → Job
  notify_participants : ℕ → Message → List ℕ → Job

pub data Emission : Type 0 where
  participant_removed : ℕ → ℕ → Emission

pub record CreateConversationDto : Type 0 where
  pub participants : List ℕ
  pub message : Option Text
  pub group_name : Option Text
  pub group_profile_picture : Option Text

pub record State (Conversations Participants Messages : Type 0) : Type 0 where
  pub conversations : Conversations
  pub participants : Participants
  pub messages : Messages
  pub queued : List Job
  pub emitted : List Emission

-- `[...new Set(ids)]`: the first of each id stays.
abbrev pub unique : List ℕ → List ℕ
unique [] = []
unique (x ∷ xs) = x ∷ filter (λ y. not (y == x)) (unique xs)

abbrev pub insert : ℕ → List ℕ → List ℕ
insert x [] = x ∷ []
insert x (y ∷ ys) = let rest = insert x ys in if leb x y then x ∷ y ∷ ys else y ∷ rest

-- `sort()` of ids, in some order of ids
abbrev pub sort : List ℕ → List ℕ
sort [] = []
sort (x ∷ xs) = insert x (sort xs)

-- Lists of ids compared as texts in JSON
abbrev pub same_ids : List ℕ → List ℕ → Bool
same_ids xs ys = text_eq xs ys

abbrev pub is_direct : ConversationType → Bool
is_direct direct = true
is_direct group = false

abbrev pub type_of : List ℕ → ConversationType
type_of ids = if ltb 2 (length ids) then group else direct

abbrev pub with_last_message : ℕ → Text → ℕ → Conversation → Conversation
with_last_message message_id text now c = record c {
  last_message_id = some message_id;
  last_message_text = some text;
  last_message_created_at = some now;
}

-- `names` are the names of the users that exist, 'User' where a name is empty.
module _ {Conversations Participants Messages : Type 0}
    (conversation : Table Conversation Conversations)
    (participents : Table Participant Participants) (message : Table Message Messages)
    (names : ℕ → Option Text) where
  abbrev pub Store : Type 0
  Store = State Conversations Participants Messages

  abbrev pub members : ℕ → Participants → List ℕ
  members conversation_id db =
      map (λ p. p.user_id) (participents.find_many (λ p. p.conversation_id == conversation_id) db)

  -- The query, and then the test on what it answers
  abbrev pub is_candidate : List ℕ → Participants → Conversation → Bool
  is_candidate ids db c =
      is_direct c.type
      && (not c.is_deleted && not (any (λ u. not (contains ids u)) (members c.id db)))

  abbrev pub has_members : List ℕ → Participants → Conversation → Bool
  has_members ids db c =
      length (members c.id db) == length ids && same_ids (sort (members c.id db)) (sort ids)

  unfoldable pub find_existing_direct_conversation : List ℕ → Store → Option Conversation
  find_existing_direct_conversation ids s =
      find (has_members ids s.participants)
        (conversation.find_many (is_candidate ids s.participants) s.conversations)

  abbrev pub participant_of : ℕ → ℕ → ℕ → Text → Participant
  participant_of conversation_id creator_id user_id name = record {
    user_id = user_id;
    conversation_id = conversation_id;
    user_name = name;
    role = if user_id == creator_id then admin else member;
    last_message_read_at = none;
    unread_count = 0;
    is_deleted = false;
  }

  abbrev pub is_live_in : ℕ → ℕ → Participant → Bool
  is_live_in user_id conversation_id p =
      p.user_id == user_id && (p.conversation_id == conversation_id && not p.is_deleted)

  -- The foreign key refuses the row of a user who does not exist.
  abbrev pub create_participant : ℕ → ℕ → ℕ → Option Text → Action Participants (Unit {0})
  create_participant conversation_id creator_id user_id none db = (err (internal "P2003"), db)
  create_participant conversation_id creator_id user_id (some name) db =
      (ok tt, participents.create (participant_of conversation_id creator_id user_id name) db)

  abbrev pub add_participant : ℕ → ℕ → ℕ → Action Participants (Unit {0})
  add_participant conversation_id creator_id user_id db =
      elim (participents.find_first (is_live_in user_id conversation_id) db) [
        | some p ↦ (ok tt, db)
        | none ↦ create_participant conversation_id creator_id user_id (names user_id) db
      ]

  unfoldable pub add_participants_to_conversation : ℕ → List ℕ → ℕ → Action Participants (Unit {0})
  add_participants_to_conversation conversation_id [] creator_id = pure tt
  add_participants_to_conversation conversation_id (u ∷ us) creator_id =
      add_participant conversation_id creator_id u
      >> add_participants_to_conversation conversation_id us creator_id

  unfoldable pub send_message : ℕ → ℕ → ℕ → ℕ → Text → Store → Store
  send_message message_id now conversation_id sender_id text s =
      let sent : Message = record {
        id = message_id;
        conversation_id = conversation_id;
        sender_id = sender_id;
        text = text;
        created_at = now;
        is_deleted = false;
      } in
      record s {
        messages = message.create sent s.messages;
        conversations =
            conversation.update_many (λ c. c.id == conversation_id)
              (with_last_message message_id text now) s.conversations;
        queued =
            notify_participants conversation_id sent (
              map (λ p. p.user_id)
                (participents.find_many
                  (λ p. p.conversation_id == conversation_id && not p.is_deleted) s.participants))
            ∷ update_conversation_last_message conversation_id message_id text
            ∷ s.queued;
      }

  abbrev pub send_first : ℕ → ℕ → ℕ → ℕ → Option Text → Store → Store
  send_first message_id now conversation_id creator_id none s = s
  send_first message_id now conversation_id creator_id (some []) s = s
  send_first message_id now conversation_id creator_id (some (c ∷ text)) s =
      send_message message_id now conversation_id creator_id (c ∷ text) s

  abbrev pub new_conversation : ℕ → ℕ → ConversationType → CreateConversationDto → Conversation
  new_conversation new_id creator_id type dto = record {
    id = new_id;
    creator_id = creator_id;
    type = type;
    group_name = dto.group_name;
    group_profile_picture = dto.group_profile_picture;
    last_message_id = none;
    last_message_text = none;
    last_message_created_at = none;
    is_deleted = false;
  }

  abbrev pub existing_for : ConversationType → List ℕ → Store → Option Conversation
  existing_for group ids s = none
  existing_for direct ids s = find_existing_direct_conversation ids s

  -- The conversation, and whether it was created
  -- What comes after the participants: where one is refused, the rows before it stay.
  abbrev pub after_participants :
      ℕ
      → ℕ
      → Conversation
      → Option Text
      → Result (Unit {0}) × Participants
      → Action Store (Conversation × Bool)
  after_participants message_id now c text (err e, db) s =
      (err e, record s { conversations = conversation.create c s.conversations; participants = db })
  after_participants message_id now c text (ok u, db) s = (
    ok (c, true),
    send_first message_id now c.id c.creator_id text
        (record s { conversations = conversation.create c s.conversations; participants = db }),
  )

  abbrev pub use_or_create :
      ℕ
      → ℕ
      → ℕ
      → List ℕ
      → CreateConversationDto
      → ℕ
      → Option Conversation
      → Action Store (Conversation × Bool)
  use_or_create new_id message_id now all dto creator_id (some c) s =
      (ok (c, false), send_first message_id now c.id creator_id dto.message s)
  use_or_create new_id message_id now all dto creator_id none s =
      let c = new_conversation new_id creator_id (type_of all) dto in
      after_participants message_id now c dto.message
        (add_participants_to_conversation new_id all creator_id s.participants) s

  abbrev pub create_for :
      ℕ → ℕ → ℕ → CreateConversationDto → ℕ → List ℕ → Action Store (Conversation × Bool)
  create_for new_id message_id now dto creator_id all s =
      if ltb (length all) 2
      then (err (internal "At least 2 participants required"), s)
      else use_or_create new_id message_id now all dto creator_id (existing_for (type_of all) all s)
          s

  unfoldable pub create_conversation :
      ℕ → ℕ → ℕ → CreateConversationDto → ℕ → Action Store (Conversation × Bool)
  create_conversation new_id message_id now dto creator_id s =
      create_for new_id message_id now dto creator_id (unique (dto.participants ++ creator_id ∷ []))
        s

  unfoldable pub remove_participant : ℕ → ℕ → Store → Store
  remove_participant conversation_id participant_id s = record s {
    participants =
        participents.update_many
          (λ p. p.conversation_id == conversation_id && p.user_id == participant_id)
          (λ p. record p { is_deleted = true }) s.participants;
    emitted = participant_removed conversation_id participant_id ∷ s.emitted;
  }

  unfoldable pub mark_as_read : ℕ → ℕ → ℕ → Store → Store
  mark_as_read now user_id conversation_id s = record s {
    participants =
        participents.update_many (λ p. p.conversation_id == conversation_id && p.user_id == user_id)
          (λ p. record p { last_message_read_at = some now; unread_count = 0 }) s.participants;
  }
