-- ===== src/Chatting/Messages/Reading.antt =====
-- What reading a page shows, and what it records as read.
use rental_application_nest.Prelude.{
  ℕ, zero, suc, ◌≤◌, ◌≡◌, ◌∙◌, refl, inl, inr, ap, true, ◌&&◌, some, List, [], ◌∷◌, if◌then◌else◌,
  ◌==◌, ==_refl, Bool-cases, Option-cases, arith, In, In-map, In-take, In-drop, In-filter, In-last,
  In-reverse, In-reverse_of_In, Result, ok, err, any-In, last-map, take, drop, last,
}
use rental_application_nest.External.Table.{Table}
use rental_application_nest.Chatting.Messages.{
  Message, Conversation, Participant, State, Page, is_live_in, mark_latest, mark_messages_as_read,
  page_of, get_messages_by_conversation,
}

-- Later messages come first.
abbrev pub Descending : List Message → Type 0
Descending [] = Unit {0}
Descending (m ∷ ms) = ((x : Message) → In x ms → x.created_at ≤ m.created_at) × Descending ms

Descending-take : (n : ℕ) (ms : List Message) → Descending ms → Descending (take n ms)
Descending-take zero ms d = tt
Descending-take (suc n) [] d = tt
Descending-take (suc n) (m ∷ ms) d = (λ x k. d.0 x (In-take n ms x k), Descending-take n ms d.1)

Descending-drop : (n : ℕ) (ms : List Message) → Descending ms → Descending (drop n ms)
Descending-drop zero ms d = d
Descending-drop (suc n) [] d = tt
Descending-drop (suc n) (m ∷ ms) d = Descending-drop n ms d.1

-- The last message is the oldest.
last-Descending :
    (ms : List Message) (oldest x : Message)
    → Descending ms
    → last ms ≡ some oldest
    → In x ms
    → oldest.created_at ≤ x.created_at
last-Descending [] oldest x d e k = elim k [ ]
last-Descending (m ∷ []) oldest x d e (inl h) =
    let same : m ≡ oldest = ground arith in
    omega (arith, ap (λ y. y.created_at) same, ap (λ y. y.created_at) h)
last-Descending (m ∷ []) oldest x d e (inr k) = elim k [ ]
last-Descending (m ∷ n ∷ ms) oldest x d e (inl h) =
    omega (arith, d.0 oldest (In-last (n ∷ ms) oldest e), ap (λ y. y.created_at) h)
last-Descending (m ∷ n ∷ ms) oldest x d e (inr k) = last-Descending (n ∷ ms) oldest x d.1 e k

last_of_In : (ms : List Message) (x : Message) → In x ms → (m : Message) × (last ms ≡ some m)
last_of_In [] x k = elim k [ ]
last_of_In (m ∷ []) x k = (m, refl)
last_of_In (m ∷ n ∷ ms) x k = last_of_In (n ∷ ms) n (inl refl)

-- The messages that an answer shows; an error shows none.
abbrev pub results_of : Result Page → List Message
results_of (ok p) = p.results
results_of (err e) = []

module _ {Conversations Participants Messages : Type 0}
    (conversation : Table Conversation Conversations)
    (participents : Table Participant Participants) (message : Table Message Messages)
    (newest_first oldest_first : List Message → List Message) where
  abbrev Db : Type 0
  Db = State Conversations Participants Messages

  -- Ids are primary keys.
  abbrev pub IsKeyed : Db → Type 0
  IsKeyed s =
      (x y : Message)
      → In x (message.rows s.messages)
      → In y (message.rows s.messages)
      → x.id ≡ y.id
      → x ≡ y

  mark_latest-In :
      (conversation_id user_id latest_id : ℕ) (latest : Message) (s : Db) (p : Participant)
      → In p (
          participents.rows
            (mark_latest conversation participents message newest_first oldest_first conversation_id
              user_id latest_id
              (some latest)
              s).participants)
      → p.user_id ≡ user_id
      → p.conversation_id ≡ conversation_id
      → (p.last_message_read_at ≡ some latest.created_at)
        × (p.last_message_read_id ≡ some latest_id)
        × (p.is_this_conversation_unseen ≡ 0)
  mark_latest-In conversation_id user_id latest_id latest s p k u c =
      let test =
        λ (p : Participant). p.user_id == user_id && p.conversation_id == conversation_id in
      let read = λ (p : Participant). record p {
        last_message_read_at = some latest.created_at;
        last_message_read_id = some latest_id;
        is_this_conversation_unseen = 0;
      } in
      let (q, i, e) =
        In-map (λ r. if test r then read r else r) (participents.rows s.participants) p
          (rw (participents.rows-update_many test read s.participants) at k) in
      elim (Bool-cases (test q)) [
        | inl hit ↦
            let same : p ≡ read q = e ∙ rw hit in
            (
              ap (λ y. y.last_message_read_at) same,
              ap (λ y. y.last_message_read_id) same,
              ap (λ y. y.is_this_conversation_unseen) same,
            )
        | inr miss ↦
            let same : p ≡ q = e ∙ rw miss in
            absurd (ground (arith, ap (λ y. y.user_id) same, ap (λ y. y.conversation_id) same))
      ]

  -- The row that the id of a stored message finds is this message.
  found_by_id :
      (s : Db) (m : Message)
      → IsKeyed s
      → In m (message.rows s.messages)
      → message.find_first (λ x. x.id == m.id) s.messages ≡ some m
  found_by_id s m keyed k =
      elim (Option-cases (message.find_first (λ x. x.id == m.id) s.messages)) [
        | inl gone ↦ absurd (
            ground (
              arith,
              any-In (λ x. x.id == m.id) (message.rows s.messages) m k (==_refl m.id),
              message.find_first-none (λ x. x.id == m.id) s.messages gone,
            ))
        | inr (x, found) ↦
            let (hit, i) = message.find_first-some (λ x. x.id == m.id) s.messages found in
            found ∙ ap some (keyed x m i k (ground arith))
      ]

  pub page_of-In :
      (conversation_id page limit : ℕ) (s : Db) (x : Message)
      → ((xs : List Message) (y : Message) → In y (newest_first xs) → In y xs)
      → In x (
          page_of conversation participents message newest_first oldest_first conversation_id page
            limit s)
      → In x (message.rows s.messages) × (is_live_in conversation_id x ≡ true)
  unfolding page_of
  page_of-In conversation_id page limit s x sorts k =
      let found = message.find_many (is_live_in conversation_id) s.messages in
      In-filter (is_live_in conversation_id) (message.rows s.messages) x (
        rw (message.find_many-rows (is_live_in conversation_id) s.messages) at
          (sorts found x (In-drop _ _ x (In-take _ _ x k))))

  page_of-Descending :
      (conversation_id page limit : ℕ) (s : Db)
      → ((xs : List Message) → Descending (newest_first xs))
      → Descending (
          page_of conversation participents message newest_first oldest_first conversation_id page
            limit s)
  unfolding page_of
  page_of-Descending conversation_id page limit s descends =
      Descending-take _ _ (Descending-drop _ _ (descends _))

  -- The answer of a page is `page_of`, turned round.
  pub In-results :
      (conversation_id user_id page limit : ℕ) (s : Db) (x : Message)
      → In x (
          results_of
            (get_messages_by_conversation conversation participents message newest_first
              oldest_first conversation_id user_id page limit s).0)
      → In x (
          page_of conversation participents message newest_first oldest_first conversation_id page
            limit s)
  unfolding get_messages_by_conversation
  In-results conversation_id user_id page limit s x k = In-reverse _ x k

  -- Reading a page records its oldest message as the last one read: where `getMessagesByConversation`
  -- answers a page with a message `x`, every row of the user in the conversation has afterwards the
  -- creation time and the id of one message of that page, which is no later than `x`, and its unseen
  -- count is 0. Ids are unique, and the database sorts by creation, newest first.
  pub read-oldest :
      (conversation_id user_id page limit : ℕ) (s : Db) (x : Message) (p : Participant)
      → IsKeyed s
      → ((xs : List Message) → Descending (newest_first xs))
      → ((xs : List Message) (y : Message) → In y (newest_first xs) → In y xs)
      → let (answer, s') =
          get_messages_by_conversation conversation participents message newest_first oldest_first
            conversation_id user_id page limit s in
        In x (results_of answer)
        → In p (participents.rows s'.participants)
        → p.user_id ≡ user_id
        → p.conversation_id ≡ conversation_id
        → (oldest : Message) × In oldest (results_of answer)
          × (p.last_message_read_at ≡ some oldest.created_at)
          × (p.last_message_read_id ≡ some oldest.id)
          × (oldest.created_at ≤ x.created_at)
          × (p.is_this_conversation_unseen ≡ 0)
  unfolding get_messages_by_conversation mark_messages_as_read
  read-oldest conversation_id user_id page limit s x p keyed descends sorts shown i u c =
      let ms =
        page_of conversation participents message newest_first oldest_first conversation_id page
          limit s in
      let k = In-results conversation_id user_id page limit s x shown in
      let (oldest, e) = last_of_In ms x k in
      let there = In-last ms oldest e in
      let stored = (page_of-In conversation_id page limit s oldest sorts there).0 in
      let (time, id, unseen) =
        mark_latest-In conversation_id user_id oldest.id oldest s p
          (rw (last-map (λ m. m.id) ms e, found_by_id s oldest keyed stored) at i) u c in
      (
        oldest,
        In-reverse_of_In ms oldest there,
        time,
        id,
        last-Descending ms oldest x (page_of-Descending conversation_id page limit s descends) e k,
        unseen,
      )
