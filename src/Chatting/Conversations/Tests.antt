-- ===== src/Chatting/Conversations/Tests.antt =====
-- Runs of conversations in memory.
use rental_application_nest.Prelude.{
  ℕ, Option, ◌≡◌, refl, ap, some, none, inl, inr, true, false, Text, List, [], ◌∷◌, ok, ◌≤◌, In,
  arith,
}
use rental_application_nest.External.Memory.Tables.{memory_table}
use rental_application_nest.Chatting.Conversations.{
  Conversation, Participant, Message, State, CreateConversationDto, is_direct, members, sort,
  send_first, direct, create_conversation, find_existing_direct_conversation,
  add_participants_to_conversation, send_message, mark_as_read,
}
use rental_application_nest.Chatting.Conversations.Lists.{Summary, get_conversations_by_user_id}
use rental_application_nest.Chatting.Conversations.Reading.{
  mark_as_read-get_conversations_by_user_id,
}
use rental_application_nest.Chatting.Conversations.Creation.{with_user}
use rental_application_nest.Chatting.Conversations.Direct.{create_conversation-again}

abbrev names : ℕ → Option Text
names user_id = some (user_id ∷ [])

abbrev empty : State (List Conversation) (List Participant) (List Message)
empty = record { conversations = []; participants = []; messages = []; queued = []; emitted = [] }

abbrev quiet : CreateConversationDto
quiet = record {
  participants = [];
  message = none;
  group_name = none;
  group_profile_picture = none;
}

abbrev greeting : CreateConversationDto
greeting = record quiet { message = some (b'h' ∷ b'o' ∷ []) }

abbrev create :
    ℕ
    → ℕ
    → ℕ
    → State (List Conversation) (List Participant) (List Message)
    → State (List Conversation) (List Participant) (List Message)
create new_id creator_id user_id s =
    (create_conversation memory_table memory_table memory_table names new_id 50 900
      (with_user quiet user_id) creator_id s).1

-- Users 1 and 3 have a conversation already.
abbrev store : State (List Conversation) (List Participant) (List Message)
store = create 10 1 3 empty

-- Users 1 and 2 get a conversation, and user 2 is answered the same.
create_conversation-again_example :
    let s1 = create 11 1 2 store in
    (c : Conversation) × In c s1.conversations
    × (is_direct c.type ≡ true)
    × (c.is_deleted ≡ false)
    × (sort (members memory_table memory_table memory_table names c.id s1.participants)
        ≡ sort (1 ∷ 2 ∷ []))
    × (create_conversation memory_table memory_table memory_table names 12 51 901
          (with_user greeting 1)
          2
          s1
        ≡ (
          ok (c, false),
          send_first memory_table memory_table memory_table names 51 901 c.id 2 greeting.message s1,
        ))
unfolding create_conversation find_existing_direct_conversation add_participants_to_conversation
    send_message
create_conversation-again_example =
    create_conversation-again memory_table memory_table memory_table names 11 12 50 51 900 901 1 2
      (1 ∷ []) (2 ∷ []) quiet greeting store refl refl refl refl

-- User 1 has sent a message to user 2, who then marks the conversation as read.
abbrev written : State (List Conversation) (List Participant) (List Message)
written =
    send_message memory_table memory_table memory_table names 52 905 11 1 (b'h' ∷ b'i' ∷ [])
      (create 11 1 2 store)

abbrev shown : Summary
shown = record {
  id = 11;
  type = direct;
  group_name = none;
  last_message = some (b'h' ∷ b'i' ∷ []);
  last_message_at = some 905;
  unread_count = 0;
  participants = (1, 1 ∷ []) ∷ [];
}

all_past : (m : Message) → In m written.messages → m.created_at ≤ 910
unfolding create_conversation find_existing_direct_conversation add_participants_to_conversation
    send_message
all_past m (inl e) = ground (arith, ap (λ x. x.created_at) e)
all_past m (inr k) = elim k [ ]

mark_as_read-get_conversations_by_user_id_example : shown.unread_count ≡ 0
unfolding create_conversation find_existing_direct_conversation add_participants_to_conversation
    send_message mark_as_read get_conversations_by_user_id
mark_as_read-get_conversations_by_user_id_example =
    mark_as_read-get_conversations_by_user_id memory_table memory_table memory_table names
      (λ ps. ps) 910 2 11 1 10 written shown (λ ps p m. m) all_past (inl refl) refl
