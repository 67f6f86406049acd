-- ===== src/Examples/Queues.antt =====
-- The startup queue: letters, a backspace, a take and a cancel.
use ziliu_ime.Base.{ℕ, ◌<◌, ◌≡◌, ◌≢◌, ◌⊎◌, refl, true, false, List, [], ◌∷◌, ◌++◌, length, min}
use ziliu_ime.Startup.{
  compose, backspace, StartupKeyQueue, new_queue, has_composition_intent, take_prefix, cancel_keys,
  apply_effect, push, replay_effects,
}
use ziliu_ime.Startup.Laws.{
  IsQueue, Call, pushes, takes, cancels, step, run, run-new_queue, take_prefix_cases,
  cancelled_generation,
}
use ziliu_ime.Startup.Replay.{
  all_accepted, all_taken, run_fifo, effects, is_composing, has_composition_intent-is_composing,
}

abbrev typing : List Call
typing =
    pushes 78 false compose ∷ pushes 73 true compose ∷ pushes 8 false backspace ∷ takes 1 2 ∷ []

run-new_queue_example : IsQueue (run (cancels ∷ typing) new_queue)
run-new_queue_example = run-new_queue (cancels ∷ typing)

abbrev one : ℕ
one = 1

abbrev typed : StartupKeyQueue
typed = run (pushes 78 false compose ∷ pushes 73 false compose ∷ []) new_queue

take_prefix_cases_example :
    ((1 ≡ typed.generation)
      × (0 < one)
      × ((take_prefix 1 1 typed).1 ++ (take_prefix 1 1 typed).0.keys ≡ typed.keys)
      × (length (take_prefix 1 1 typed).1 ≡ min 1 (length typed.keys))
      × ((take_prefix 1 1 typed).0.generation ≡ typed.generation))
    ⊎ (((1 ≢ typed.generation) ⊎ (one ≡ 0)) × (take_prefix 1 1 typed ≡ (typed, [])))
take_prefix_cases_example = take_prefix_cases 1 1 typed

run_fifo_example :
    all_taken typing new_queue ++ (run typing new_queue).keys
    ≡ new_queue.keys ++ all_accepted typing new_queue
run_fifo_example = run_fifo typing new_queue tt

cancelled_generation_example :
    take_prefix typed.generation 5 (run typing (cancel_keys typed))
    ≡ (run typing (cancel_keys typed), [])
cancelled_generation_example =
    cancelled_generation typing typed 5
      (run-new_queue (pushes 78 false compose ∷ pushes 73 false compose ∷ [])) tt

has_composition_intent-is_composing_example :
    has_composition_intent typed ≡ is_composing (effects typed.keys)
has_composition_intent-is_composing_example =
    has_composition_intent-is_composing typed
      (run-new_queue (pushes 78 false compose ∷ pushes 73 false compose ∷ []))

-- What is typed and then taken back by half leaves one key that has not been replayed.
typing_left : length (run typing new_queue).keys ≡ 1
unfolding run step push take_prefix apply_effect replay_effects
typing_left = refl
