-- ===== src/Chatting/Messages/Tests.antt =====
-- Runs of the message service in memory.
use rental_application_nest.Prelude.{
  ℕ, ◌≤◌, ◌≡◌, ◌⊎◌, refl, inl, inr, ap, true, false, ◌&&◌, none, some, List, [], ◌∷◌, arith, In,
  length, err, not_found,
}
use rental_application_nest.External.Memory.Tables.{memory_table}
use rental_application_nest.Chatting.Messages.{
  Message, Conversation, Participant, State, CursorPage, is_live_in, is_before, is_after, is_own,
  update_message, delete_message, mark_messages_as_read, page_of, get_messages_by_conversation,
  fetched, get_messages_with_cursor,
}
use rental_application_nest.Chatting.Messages.Reading.{results_of, read-oldest}
use rental_application_nest.Chatting.Messages.Sorting.{
  newest_first, oldest_first, In-sort_by, newest_first-Descending,
}
use rental_application_nest.Chatting.Messages.Cursor.{cursor_results_of, cursor_page_sound}
use rental_application_nest.Chatting.Messages.Sender.{with_text, update_message-own, deleted_final}

abbrev Memory : Type 0
Memory = State (List Conversation) (List Participant) (List Message)

-- User 7 wrote message 31 and then user 8 wrote message 32.
abbrev first : Message
first = record {
  id = 31;
  text = [];
  sender_id = 7;
  conversation_id = 5;
  created_at = 100;
  is_deleted = false;
}

abbrev second : Message
second = record {
  id = 32;
  text = [];
  sender_id = 8;
  conversation_id = 5;
  created_at = 200;
  is_deleted = false;
}

abbrev member : ℕ → Participant
member user = record {
  user_id = user;
  conversation_id = 5;
  is_deleted = false;
  last_message_read_at = none;
  last_message_read_id = none;
  is_this_conversation_unseen = 2;
}

abbrev chat : Memory
chat = record {
  conversations = record { id = 5; is_deleted = false } ∷ [];
  participants = member 7 ∷ member 8 ∷ [];
  messages = second ∷ first ∷ [];
  queued = [];
  emitted = [];
}

newest-In : (xs : List Message) (y : Message) → In y (newest_first xs) → In y xs
newest-In xs y k = In-sort_by _ xs y k

oldest-In : (xs : List Message) (y : Message) → In y (oldest_first xs) → In y xs
oldest-In xs y k = In-sort_by _ xs y k

distinct :
    (x y : Message) → In x (second ∷ first ∷ []) → In y (second ∷ first ∷ []) → x.id ≡ y.id → x ≡ y
distinct x y (inl e) (inl d) h = cc (e, d)
distinct x y (inl e) (inr (inl d)) h = absurd (ground (arith, ap (λ m. m.id) e, ap (λ m. m.id) d))
distinct x y (inr (inl e)) (inl d) h = absurd (ground (arith, ap (λ m. m.id) e, ap (λ m. m.id) d))
distinct x y (inr (inl e)) (inr (inl d)) h = cc (e, d)
distinct x y (inr (inr k)) j h = elim k [ ]
distinct x y (inl e) (inr (inr k)) h = elim k [ ]
distinct x y (inr (inl e)) (inr (inr k)) h = elim k [ ]

-- User 7 reads both messages: the older one is recorded.
abbrev after_reading : Participant
after_reading = record (member 7) {
  last_message_read_at = some 100;
  last_message_read_id = some 31;
  is_this_conversation_unseen = 0;
}

read-oldest_example :
    (oldest : Message) × In oldest (
      results_of
        (get_messages_by_conversation memory_table memory_table memory_table newest_first
          oldest_first 5 7 1 20 chat).0)
    × (after_reading.last_message_read_at ≡ some oldest.created_at)
    × (after_reading.last_message_read_id ≡ some oldest.id)
    × (oldest.created_at ≤ 200)
    × (after_reading.is_this_conversation_unseen ≡ 0)
unfolding get_messages_by_conversation mark_messages_as_read page_of
read-oldest_example =
    read-oldest memory_table memory_table memory_table newest_first oldest_first 5 7 1 20 chat
      second after_reading distinct newest_first-Descending newest-In (inr (inl refl)) (inl refl)
      refl refl

abbrev shown : CursorPage
shown = record {
  results = first ∷ [];
  has_more = true;
  next_cursor = some 31;
  prev_cursor = some 31;
}

cursor_page_sound_example :
    (length shown.results ≤ 1)
    × ((x : Message)
        → In x shown.results
        → In x chat.messages × ((is_live_in 5 x && (is_before none x && is_after none x)) ≡ true))
unfolding get_messages_with_cursor fetched
cursor_page_sound_example =
    cursor_page_sound memory_table memory_table memory_table newest_first oldest_first 5 7 1 none
      none chat newest-In oldest-In refl

abbrev edited : Message
edited = record second { text = b'o' ∷ b'k' ∷ [] }

update_message-own_example :
    In edited chat.messages
    ⊎ ((x : Message) × In x chat.messages
        × (is_own 32 8 x ≡ true)
        × (edited
            ≡ with_text memory_table memory_table memory_table newest_first oldest_first
                (b'o' ∷ b'k' ∷ [])
                x))
unfolding update_message
update_message-own_example =
    update_message-own memory_table memory_table memory_table newest_first oldest_first 32 8
      (b'o' ∷ b'k' ∷ []) chat edited distinct (inl refl)

abbrev without_second : Memory
without_second =
    (delete_message memory_table memory_table memory_table newest_first oldest_first 32 8 chat).1

deleted_final_example :
    (update_message memory_table memory_table memory_table newest_first oldest_first 32 8 []
        without_second
      ≡ (
        err (not_found "Message not found or you do not have permission to edit it"),
        without_second,
      ))
    × (¬ In second (
        results_of
          (get_messages_by_conversation memory_table memory_table memory_table newest_first
            oldest_first 5 7 1 20 without_second).0))
    × (¬ In second (
        cursor_results_of
          (get_messages_with_cursor memory_table memory_table memory_table newest_first oldest_first
            5 7 none none 20 without_second).0))
unfolding delete_message
deleted_final_example =
    deleted_final memory_table memory_table memory_table newest_first oldest_first 32 8 chat 8 [] 5
      7 1 20 none none second newest-In oldest-In refl refl
