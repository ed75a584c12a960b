-- ===== src/Chatting/Conversations/Direct.antt =====
-- Two users have one direct conversation.
use mathlib.Core.Path.{subst}
use rental_application_nest.Prelude.{
  ℕ, ◌≡◌, ap, sym, false, none, some, [], ◌∷◌, any, arith, Option-cases, inl, inr, Option, List, In,
  In-map_of_In, Bool-cases, if◌then◌else◌, true, text_eq_sound, ◌==◌, ok, Text,
}
use rental_application_nest.External.Table.{Table}
use rental_application_nest.Chatting.Conversations.{
  Conversation, Participant, Message, CreateConversationDto, State, direct, is_direct, sort,
  send_first, send_message, with_last_message, members, new_conversation, create_conversation,
}
use rental_application_nest.Chatting.Conversations.Search.{
  existing, Fits, existing-Fits, Fits-existing, Fits-swap,
}
use rental_application_nest.Chatting.Conversations.Creation.{
  with_user, create_existing, create_new, created-Fits, added,
}

module _ {Conversations Participants Messages : Type 0}
    (conversation : Table Conversation Conversations)
    (participents : Table Participant Participants) (message : Table Message Messages)
    (names : ℕ → Option Text) where
  abbrev Store : Type 0
  Store = State Conversations Participants Messages

  -- What fits still fits after a message.
  send_first-Fits :
      (ids : List ℕ) (message_id now id z : ℕ) (text : Option Text) (s : Store) (c : Conversation)
      → Fits conversation participents message names ids s c
      → (d : Conversation) × Fits conversation participents message names ids
          (send_first conversation participents message names message_id now id z text s)
          d
  unfolding send_message
  send_first-Fits ids message_id now id z none s c fits = (c, fits)
  send_first-Fits ids message_id now id z (some []) s c fits = (c, fits)
  send_first-Fits ids message_id now id z (some (x ∷ text)) s c (k, candidate, has) =
      let p = λ (d : Conversation). d.id == id in
      let f = with_last_message message_id (x ∷ text) now in
      let g = λ (d : Conversation). if p d then f d else d in
      let m : In (g c) (conversation.rows (conversation.update_many p f s.conversations)) =
        rw (conversation.rows-update_many p f s.conversations)
          (In-map_of_In g (conversation.rows s.conversations) c k) in
      elim (Bool-cases (p c)) [
        | inl hit ↦ (f c, (rw hit at m, candidate, has))
        | inr miss ↦ (c, (rw miss at m, candidate, has))
      ]

  find_again :
      (new_id message_id now u v : ℕ) (nv nu : Text) (dto : CreateConversationDto) (s : Store)
      → (v == u) ≡ false
      → any (λ p. p.conversation_id == new_id) (participents.rows s.participants) ≡ false
      → names v ≡ some nv
      → names u ≡ some nu
      → (d : Conversation) × Fits conversation participents message names
          (v ∷ u ∷ [])
          (create_conversation conversation participents message names new_id message_id now
            (with_user dto v)
            u
            s).1
          d
  find_again new_id message_id now u v nv nu dto s other fresh named_v named_u =
      let Again = λ (r : Store).
        (d : Conversation) × Fits conversation participents message names (v ∷ u ∷ []) r d in
      elim (Option-cases (existing conversation participents message names (v ∷ u ∷ []) s)) [
        | inr (c, e) ↦
            subst Again
              (sym (
                ap (λ r. r.1)
                  (create_existing conversation participents message names new_id message_id now v u
                    dto s c other e)))
              (send_first-Fits (v ∷ u ∷ []) message_id now c.id u dto.message s c
                (existing-Fits conversation participents message names (v ∷ u ∷ []) s c e))
        | inl nothing ↦
            let c =
              new_conversation conversation participents message names new_id u direct
                (with_user dto v) in
            let made : Store = record s {
              conversations = conversation.create c s.conversations;
              participants =
                  added conversation participents message names new_id v u nv nu s.participants;
            } in
            subst Again
              (sym (
                create_new conversation participents message names new_id message_id now v u nv nu
                  dto s other nothing fresh named_v named_u))
              (send_first-Fits (v ∷ u ∷ []) message_id now new_id u dto.message made c
                (created-Fits conversation participents message names new_id u v nv nu dto s fresh))
      ]

  -- After a user asks for a direct conversation with another user, where both exist, under an id which
  -- no participant's row has yet, the other user who asks for one with the first is answered a conversation that is
  -- stored, direct and not deleted and has the two users as its members, and that was not created; and
  -- the only change is that the message of the second request, where it has one, is sent to it. Both
  -- requests may have a message.
  pub create_conversation-again :
      (first_id second_id m n now later u v : ℕ) (nu nv : Text)
      (first second : CreateConversationDto) (s : Store)
      → (u == v) ≡ false
      → any (λ p. p.conversation_id == first_id) (participents.rows s.participants) ≡ false
      → names u ≡ some nu
      → names v ≡ some nv
      → let s1 =
          (create_conversation conversation participents message names first_id m now
            (with_user first v)
            u
            s).1 in
        (c : Conversation) × In c (conversation.rows s1.conversations)
        × (is_direct c.type ≡ true)
        × (c.is_deleted ≡ false)
        × (sort (members conversation participents message names c.id s1.participants)
            ≡ sort (u ∷ v ∷ []))
        × (create_conversation conversation participents message names second_id n later
              (with_user second u)
              v
              s1
            ≡ (
              ok (c, false),
              send_first conversation participents message names n later c.id v second.message s1,
            ))
  create_conversation-again first_id second_id m n now later u v nu nv first second s other fresh
        named_u named_v =
      let s1 =
        (create_conversation conversation participents message names first_id m now
          (with_user first v) u s).1 in
      let (d, fits) =
        find_again first_id m now u v nv nu first s (ground arith) fresh named_v named_u in
      let (c, found) =
        Fits-existing conversation participents message names (u ∷ v ∷ []) s1 d
          (Fits-swap conversation participents message names v u s1 d fits) in
      let (k, candidate, has) =
        existing-Fits conversation participents message names (u ∷ v ∷ []) s1 c found in
      let ms = members conversation participents message names c.id s1.participants in
      (
        c,
        k,
        ground arith,
        ground arith,
        text_eq_sound (sort ms) (sort (u ∷ v ∷ [])) (ground arith),
        create_existing conversation participents message names second_id n later u v second s1 c
            other found,
      )
