-- ===== src/Chatting/Conversations/Lists.antt =====
-- src/features/chatting/conversation.service.ts: getConversationsByUserId. `latest_first` is the database's
-- sort of participants by the last message of their conversation. Profiles beside the name and
-- `isOnline` are left out. Pages are counted from 1.
use rental_application_nest.Prelude.{
  ℕ, ◌-◌, ◌*◌, not, ◌&&◌, Option, none, some, List, [], ◌∷◌, map, take, drop, ltb, ◌==◌, Text,
}
use rental_application_nest.External.Table.{Table}
use rental_application_nest.Content.Generic.{ceil_div}
use rental_application_nest.Chatting.Conversations.{
  ConversationType, Conversation, Participant, Message, State,
}

pub record Summary : Type 0 where
  pub id : ℕ
  pub type : ConversationType
  pub group_name : Option Text
  pub last_message : Option Text
  pub last_message_at : Option ℕ
  pub unread_count : ℕ
  pub participants : List (ℕ × Text)

pub record Page : Type 0 where
  pub results : List Summary
  pub page : ℕ
  pub limit : ℕ
  pub total_pages : ℕ
  pub total_results : ℕ

-- `p.lastMessageReadAt || new Date(0)`
abbrev pub read_time : Option ℕ → ℕ
read_time none = 0
read_time (some t) = t

module _ {Conversations Participants Messages : Type 0}
    (conversation : Table Conversation Conversations)
    (participents : Table Participant Participants) (message : Table Message Messages)
    (latest_first : List Participant → List Participant) where
  abbrev pub Store : Type 0
  Store = State Conversations Participants Messages

  -- The row of the list for a participant's conversation, which the database's foreign key provides
  abbrev pub summary_of : ℕ → Store → Participant → Conversation → Summary
  summary_of user_id s p c = record {
    id = p.conversation_id;
    type = c.type;
    group_name = c.group_name;
    last_message = c.last_message_text;
    last_message_at = c.last_message_created_at;
    unread_count =
        message.count
          (λ m.
            m.conversation_id == p.conversation_id
            && (not (m.sender_id == user_id)
                && (ltb (read_time p.last_message_read_at) m.created_at && not m.is_deleted)))
          s.messages;
    participants =
        map (λ q. (q.user_id, q.user_name))
          (participents.find_many
            (λ q. q.conversation_id == p.conversation_id && not (q.user_id == user_id))
            s.participants);
  }

  abbrev pub summaries : ℕ → Store → List Participant → List Summary
  summaries user_id s [] = []
  summaries user_id s (p ∷ ps) =
      let rest = summaries user_id s ps in
      elim (conversation.find_first (λ c. c.id == p.conversation_id) s.conversations) [
        | none ↦ rest
        | some c ↦ summary_of user_id s p c ∷ rest
      ]

  unfoldable pub get_conversations_by_user_id : ℕ → ℕ → ℕ → Store → Page
  get_conversations_by_user_id user_id page limit s =
      let own = λ (p : Participant). p.user_id == user_id && not p.is_deleted in
      let found = latest_first (participents.find_many own s.participants) in
      let total = participents.count own s.participants in
      record {
        results = summaries user_id s (take limit (drop ((page - 1) * limit) found));
        page = page;
        limit = limit;
        total_pages = ceil_div total limit;
        total_results = total;
      }
