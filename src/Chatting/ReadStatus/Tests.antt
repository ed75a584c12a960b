-- ===== src/Chatting/ReadStatus/Tests.antt =====
-- Runs of the read statuses in memory.
use rental_application_nest.Prelude.{◌≡◌, ◌||◌, List, [], ◌∷◌, any}
use rental_application_nest.External.Memory.Tables.{memory_table}
use rental_application_nest.Chatting.ReadStatus.{has_user_read_message}
use rental_application_nest.Chatting.ReadStatus.Refinement.{
  Call, marks, marks_many, cleans_up, reads, run, has_user_read_message-run,
}

abbrev calls : List Call
calls = marks 10 1 7 50 ∷ marks_many 11 (1 ∷ 2 ∷ []) 8 50 ∷ cleans_up ∷ marks 12 1 7 50 ∷ []

has_user_read_message-run_example :
    has_user_read_message memory_table (λ xs. xs) 2 8 (run memory_table (λ xs. xs) calls [])
    ≡ (any (reads 2 8) calls || has_user_read_message memory_table (λ xs. xs) 2 8 [])
has_user_read_message-run_example = has_user_read_message-run memory_table (λ xs. xs) calls 2 8 []
