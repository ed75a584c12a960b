-- ===== src/Chatting/ReadStatus.antt =====
-- src/features/chatting/messageReadStatus/messageReadStatus.service.ts: who has read which message. A
-- message and a user have one row, so that an upsert updates it or creates it. The count that
-- `markMultipleAsRead` returns is the driver's and is left out, as is the profile in read statuses.
pub mod Refinement
pub mod Unread
mod Tests
use rental_application_nest.Prelude.{
  ℕ, Bool, true, false, not, ◌&&◌, Option, none, some, List, [], ◌∷◌, map, take, ◌==◌, is_some,
}
use rental_application_nest.External.Table.{Table}

pub record ReadStatus : Type 0 where
  pub message_id : ℕ
  pub user_id : ℕ
  pub conversation_id : ℕ
  pub is_read : Bool
  pub read_at : Option ℕ
  pub is_deleted : Bool

pub record ReadReceipt : Type 0 where
  pub message_id : ℕ
  pub is_read : Bool
  pub read_at : Option ℕ

abbrev pub has_key : ℕ → ℕ → ReadStatus → Bool
has_key message_id user_id r = r.message_id == message_id && r.user_id == user_id

abbrev pub is_reading : ℕ → ℕ → ReadStatus → Bool
is_reading message_id user_id r = has_key message_id user_id r && (r.is_read && not r.is_deleted)

abbrev pub read_status : ℕ → ℕ → ℕ → ℕ → ReadStatus
read_status now message_id user_id conversation_id = record {
  message_id = message_id;
  user_id = user_id;
  conversation_id = conversation_id;
  is_read = true;
  read_at = some now;
  is_deleted = false;
}

module _ {Rows : Type 0} (message_read_status : Table ReadStatus Rows)
    (newest_first : List ReadStatus → List ReadStatus) where
  unfoldable pub mark_as_read : ℕ → ℕ → ℕ → ℕ → Rows → Rows
  mark_as_read now message_id user_id conversation_id s =
      elim (message_read_status.find_first (has_key message_id user_id) s) [
        | some r ↦
            message_read_status.update_many (has_key message_id user_id)
              (λ x. read_status now message_id user_id conversation_id) s
        | none ↦ message_read_status.create (read_status now message_id user_id conversation_id) s
      ]

  -- The upserts of the bulk write, in their order
  unfoldable pub mark_multiple_as_read : ℕ → List ℕ → ℕ → ℕ → Rows → Rows
  mark_multiple_as_read now [] user_id conversation_id s = s
  mark_multiple_as_read now (m ∷ ms) user_id conversation_id s =
      mark_multiple_as_read now ms user_id conversation_id
        (mark_as_read now m user_id conversation_id s)

  unfoldable pub get_read_status : ℕ → Rows → List (ℕ × Option ℕ)
  get_read_status message_id s =
      map (λ r. (r.user_id, r.read_at))
        (message_read_status.find_many
          (λ r. r.message_id == message_id && (r.is_read && not r.is_deleted)) s)

  unfoldable pub get_unread_messages : ℕ → ℕ → ℕ → Rows → List ℕ
  get_unread_messages user_id conversation_id limit s =
      map (λ r. r.message_id)
        (take limit (
          newest_first (
            message_read_status.find_many
              (λ r.
                r.user_id == user_id
                && (r.conversation_id == conversation_id && (not r.is_read && not r.is_deleted)))
              s)))

  unfoldable pub get_read_count : ℕ → Rows → ℕ
  get_read_count message_id =
      message_read_status.count (λ r. r.message_id == message_id && (r.is_read && not r.is_deleted))

  unfoldable pub has_user_read_message : ℕ → ℕ → Rows → Bool
  has_user_read_message message_id user_id s =
      is_some (message_read_status.find_first (is_reading message_id user_id) s)

  unfoldable pub get_read_receipts_for_conversation : ℕ → ℕ → Rows → List ReadReceipt
  get_read_receipts_for_conversation conversation_id user_id s =
      map (λ r. record { message_id = r.message_id; is_read = r.is_read; read_at = r.read_at })
        (message_read_status.find_many
          (λ r. r.conversation_id == conversation_id && (r.user_id == user_id && not r.is_deleted))
          s)

  unfoldable pub cleanup_old_statuses : Rows → Rows
  cleanup_old_statuses = message_read_status.delete_many (λ r. r.is_deleted)
