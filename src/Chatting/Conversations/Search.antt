-- ===== src/Chatting/Conversations/Search.antt =====
-- What the search for an existing direct conversation finds.
use rental_application_nest.Prelude.{
  ℕ, ◌≡◌, refl, ap, true, not, Option, some, List, [], ◌∷◌, any, find, arith, Option-cases, inl,
  inr, any-In, In, In-filter, In-filter_of_In, contains, Text, text_eq_sound,
}
use rental_application_nest.External.Table.{Table}
use rental_application_nest.External.Memory.Tables.{find-some, find-none}
use rental_application_nest.Chatting.Conversations.{
  Conversation, Participant, Message, State, sort, same_ids, members, is_candidate, has_members,
  find_existing_direct_conversation,
}

pub sort_pair : (u v : ℕ) → same_ids (sort (u ∷ v ∷ [])) (sort (v ∷ u ∷ [])) ≡ true
sort_pair u v = ground arith

contains_pair : (u v x : ℕ) → contains (u ∷ v ∷ []) x ≡ contains (v ∷ u ∷ []) x
contains_pair u v x = ground arith

sort_swap : (u v : ℕ) → sort (u ∷ v ∷ []) ≡ sort (v ∷ u ∷ [])
sort_swap u v = text_eq_sound (sort (u ∷ v ∷ [])) (sort (v ∷ u ∷ [])) (sort_pair u v)

all_swap :
    (u v : ℕ) (xs : List ℕ)
    → any (λ x. not (contains (u ∷ v ∷ []) x)) xs ≡ any (λ x. not (contains (v ∷ u ∷ []) x)) xs
all_swap u v [] = refl
all_swap u v (x ∷ xs) = ground (arith, contains_pair u v x, all_swap u v xs)

module _ {Conversations Participants Messages : Type 0}
    (conversation : Table Conversation Conversations)
    (participents : Table Participant Participants) (message : Table Message Messages)
    (names : ℕ → Option Text) where
  abbrev Store : Type 0
  Store = State Conversations Participants Messages

  abbrev pub existing : List ℕ → Store → Option Conversation
  existing ids s = find_existing_direct_conversation conversation participents message names ids s

  -- What the search for an existing conversation asks of a row
  abbrev pub Fits : List ℕ → Store → Conversation → Type 0
  Fits ids s c =
      In c (conversation.rows s.conversations)
      × (is_candidate conversation participents message names ids s.participants c ≡ true)
      × (has_members conversation participents message names ids s.participants c ≡ true)

  pub existing-Fits :
      (ids : List ℕ) (s : Store) (c : Conversation) → existing ids s ≡ some c → Fits ids s c
  unfolding find_existing_direct_conversation
  existing-Fits ids s c e =
      let q = is_candidate conversation participents message names ids s.participants in
      let p = has_members conversation participents message names ids s.participants in
      let (fits, m) = find-some p (conversation.find_many q s.conversations) e in
      let (k, candidate) =
        In-filter q (conversation.rows s.conversations) c
          (rw (conversation.find_many-rows q s.conversations) at m) in
      (k, candidate, fits)

  pub Fits-existing :
      (ids : List ℕ) (s : Store) (c : Conversation)
      → Fits ids s c
      → (d : Conversation) × (existing ids s ≡ some d)
  unfolding find_existing_direct_conversation
  Fits-existing ids s c (k, candidate, fits) =
      let q = is_candidate conversation participents message names ids s.participants in
      let p = has_members conversation participents message names ids s.participants in
      let found = conversation.find_many q s.conversations in
      elim (Option-cases (find p found)) [
        | inr hit ↦ hit
        | inl nothing ↦ absurd (
            cc (
              any-In p found c
                  (rw (conversation.find_many-rows q s.conversations)
                    (In-filter_of_In q (conversation.rows s.conversations) c k candidate))
                  fits,
              find-none p found nothing,
            ))
      ]

  -- The order of the two users does not matter.
  pub Fits-swap :
      (u v : ℕ) (s : Store) (c : Conversation) → Fits (u ∷ v ∷ []) s c → Fits (v ∷ u ∷ []) s c
  Fits-swap u v s c (k, candidate, fits) =
      let ms = members conversation participents message names c.id s.participants in
      let sorted = sort_swap u v in
      let all = all_swap u v ms in
      (k, ground (arith, all), ground (arith, ap (same_ids (sort ms)) sorted))
