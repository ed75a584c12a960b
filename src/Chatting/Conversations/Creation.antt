-- ===== src/Chatting/Conversations/Creation.antt =====
-- What a request for a conversation with one other user creates.
use rental_application_nest.Prelude.{
  ℕ, ◌≡◌, refl, ap, ok, Action, ◌>>◌, ◌>>=◌, ◌∙◌, false, none, some, [], ◌∷◌, any, arith, inl,
  Option, any_narrow, filter_none, ◌==◌, ==_refl, Text,
}
use rental_application_nest.External.Table.{Table, find_first_none}
use rental_application_nest.Chatting.Conversations.{
  Conversation, Participant, Message, CreateConversationDto, State, direct, send_first, unique,
  members, is_live_in, participant_of, use_or_create, after_participants, create_for,
  add_participant, add_participants_to_conversation, new_conversation, create_conversation,
}
use rental_application_nest.Chatting.Conversations.Search.{sort_pair, existing, Fits}

-- A request for a conversation with one other user
abbrev pub with_user : CreateConversationDto → ℕ → CreateConversationDto
with_user dto u = record dto { participants = u ∷ [] }

unique_pair : (u v : ℕ) → (u == v) ≡ false → unique (u ∷ v ∷ []) ≡ u ∷ v ∷ []
unique_pair u v other = ground arith

then_ok :
    {S : Type 0} (m k : Action S (Unit {0})) (s s' : S) → m s ≡ (ok tt, s') → (m >> k) s ≡ k s'
then_ok m k s s' e = rw (e, ◌>>◌, ◌>>=◌) (ap (λ r. k r.1) e)

module _ {Conversations Participants Messages : Type 0}
    (conversation : Table Conversation Conversations)
    (participents : Table Participant Participants) (message : Table Message Messages)
    (names : ℕ → Option Text) where
  abbrev Store : Type 0
  Store = State Conversations Participants Messages

  create_conversation-pair :
      (new_id message_id now w z : ℕ) (dto : CreateConversationDto) (s : Store)
      → (w == z) ≡ false
      → create_conversation conversation participents message names new_id message_id now
          (with_user dto w)
          z
          s
        ≡ use_or_create conversation participents message names new_id message_id now
            (w ∷ z ∷ [])
            (with_user dto w)
            z
            (existing conversation participents message names (w ∷ z ∷ []) s)
            s
  unfolding create_conversation
  create_conversation-pair new_id message_id now w z dto s other =
      ap
        (λ all.
          create_for conversation participents message names new_id message_id now (with_user dto w)
            z all s)
        (unique_pair w z other)

  pub create_existing :
      (new_id message_id now w z : ℕ) (dto : CreateConversationDto) (s : Store) (c : Conversation)
      → (w == z) ≡ false
      → existing conversation participents message names (w ∷ z ∷ []) s ≡ some c
      → create_conversation conversation participents message names new_id message_id now
          (with_user dto w)
          z
          s
        ≡ (
          ok (c, false),
          send_first conversation participents message names message_id now c.id z dto.message s,
        )
  create_existing new_id message_id now w z dto s c other found =
      create_conversation-pair new_id message_id now w z dto s other
      ∙ ap
          (λ o.
            use_or_create conversation participents message names new_id message_id now (w ∷ z ∷ [])
              (with_user dto w) z o s)
          found

  -- The participants after a creation
  unfoldable pub added : ℕ → ℕ → ℕ → Text → Text → Participants → Participants
  added new_id w z nw nz db =
      participents.create (participant_of conversation participents message names new_id z z nz) (
        participents.create (participant_of conversation participents message names new_id z w nw)
          db)

  add_participant-create :
      (new_id creator_id u : ℕ) (name : Text) (db : Participants)
      → participents.find_first (is_live_in conversation participents message names u new_id) db
        ≡ none
      → names u ≡ some name
      → add_participant conversation participents message names new_id creator_id u db ≡ (
        ok tt,
        participents.create
            (participant_of conversation participents message names new_id creator_id u name)
            db,
      )
  add_participant-create new_id creator_id u name db missing named =
      rw (add_participant, missing, named) refl

  add_participants-added :
      (new_id w z : ℕ) (nw nz : Text) (db : Participants)
      → (w == z) ≡ false
      → any (λ p. p.conversation_id == new_id) (participents.rows db) ≡ false
      → names w ≡ some nw
      → names z ≡ some nz
      → add_participants_to_conversation conversation participents message names new_id
          (w ∷ z ∷ [])
          z
          db
        ≡ (ok tt, added new_id w z nw nz db)
  unfolding add_participants_to_conversation added
  add_participants-added new_id w z nw nz db other fresh named_w named_z =
      let live = λ (u : ℕ). is_live_in conversation participents message names u new_id in
      let pw = participant_of conversation participents message names new_id z w nw in
      let first : participents.find_first (live w) db ≡ none =
        find_first_none participents (live w) db (
          any_narrow (live w) (λ p. p.conversation_id == new_id) (participents.rows db)
            (λ x h. ground arith) fresh) in
      let old : any (live z) (participents.rows db) ≡ false =
        any_narrow (live z) (λ p. p.conversation_id == new_id) (participents.rows db)
          (λ x h. ground arith) fresh in
      let second : participents.find_first (live z) (participents.create pw db) ≡ none =
        find_first_none participents (live z) (participents.create pw db)
          (rw (participents.rows-create pw db) (ground (arith, old))) in
      let add = λ (u : ℕ). add_participant conversation participents message names new_id z u in
      let end : Action Participants (Unit {0}) = λ s. (ok tt, s) in
      then_ok (add w) (add z >> end) db (participents.create pw db)
        (add_participant-create new_id z w nw db first named_w)
      ∙ then_ok (add z) end (participents.create pw db) (added new_id w z nw nz db)
          (add_participant-create new_id z z nz (participents.create pw db) second named_z)

  pub create_new :
      (new_id message_id now w z : ℕ) (nw nz : Text) (dto : CreateConversationDto) (s : Store)
      → (w == z) ≡ false
      → existing conversation participents message names (w ∷ z ∷ []) s ≡ none
      → any (λ p. p.conversation_id == new_id) (participents.rows s.participants) ≡ false
      → names w ≡ some nw
      → names z ≡ some nz
      → (create_conversation conversation participents message names new_id message_id now
          (with_user dto w)
          z
          s).1
        ≡ send_first conversation participents message names message_id now new_id z dto.message
            (record s {
              conversations =
                  conversation.create
                    (new_conversation conversation participents message names new_id z direct
                      (with_user dto w))
                    s.conversations;
              participants = added new_id w z nw nz s.participants;
            })
  create_new new_id message_id now w z nw nz dto s other nothing fresh named_w named_z =
      let c =
        new_conversation conversation participents message names new_id z direct
          (with_user dto w) in
      ap (λ r. r.1) (create_conversation-pair new_id message_id now w z dto s other)
      ∙ ap
          (λ o.
            (use_or_create conversation participents message names new_id message_id now
              (w ∷ z ∷ []) (with_user dto w) z o s).1)
          nothing
      ∙ ap
          (λ r.
            (after_participants conversation participents message names message_id now c dto.message
              r s).1)
          (add_participants-added new_id w z nw nz s.participants other fresh named_w named_z)

  members-added :
      (new_id w z : ℕ) (nw nz : Text) (db : Participants)
      → any (λ p. p.conversation_id == new_id) (participents.rows db) ≡ false
      → members conversation participents message names new_id (added new_id w z nw nz db)
        ≡ z ∷ w ∷ []
  unfolding added
  members-added new_id w z nw nz db fresh =
      let q = λ (p : Participant). p.conversation_id == new_id in
      let pw = participant_of conversation participents message names new_id z w nw in
      let pz = participant_of conversation participents message names new_id z z nz in
      rw
        (
          participents.find_many-rows q (added new_id w z nw nz db),
          participents.rows-create pz (participents.create pw db),
          participents.rows-create pw db,
          ==_refl new_id,
          filter_none q q (participents.rows db) (λ x h. h) fresh,
        )
        refl

  -- After the creation the search finds the new conversation, for the users in either order.
  pub created-Fits :
      (new_id u v : ℕ) (nv nu : Text) (dto : CreateConversationDto) (s : Store)
      → any (λ p. p.conversation_id == new_id) (participents.rows s.participants) ≡ false
      → let c =
          new_conversation conversation participents message names new_id u direct
            (with_user dto v) in
        Fits conversation participents message names
          (v ∷ u ∷ [])
          (record s {
            conversations = conversation.create c s.conversations;
            participants = added new_id v u nv nu s.participants;
          })
          c
  created-Fits new_id u v nv nu dto s fresh =
      let c =
        new_conversation conversation participents message names new_id u direct
          (with_user dto v) in
      let ms = members-added new_id v u nv nu s.participants fresh in
      (
        rw (conversation.rows-create c s.conversations) (inl refl),
        rw (ms) (ground arith),
        rw (ms) (sort_pair u v),
      )
