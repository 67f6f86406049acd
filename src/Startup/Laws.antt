-- ===== src/Startup/Laws.antt =====
-- The invariant of the queue, and what each call does to it.
use ziliu_ime.Base.{
  ℕ, ◌^◌, ◌<◌, ◌≤◌, ◌≡◌, ◌≢◌, refl, ◌∙◌, Bool, List, [], ◌∷◌, ◌++◌, inl, inr, arith, length,
  length-append, length-drop, length-take, take-append-drop, ◌==◌, Bool-cases, ◌⊎◌, min, not, ◌||◌,
}
use ziliu_ime.Startup.{
  StartupKeyEffect, StartupKey, StartupKeyQueue, maximum_keys, new_queue, apply_effect, push,
  minimum, replay_effects, take_prefix, take_all_keys, next_generation, cancel_keys,
}

-- The depth is that of replaying the queued keys from an idle composition, there are at most 2048
-- keys, and the generation is a std::uint64_t that is not 0.
pub record IsQueue (q : StartupKeyQueue) : Type 0 where
  pub depth : q.composition_depth ≡ replay_effects q.keys 0
  pub bounded : length q.keys ≤ maximum_keys
  pub generation_pos : 0 < q.generation
  pub generation_width : q.generation < 2 ^ 64

pub replay_effects-append :
    (xs ys : List StartupKey) (d : ℕ)
    → replay_effects (xs ++ ys) d ≡ replay_effects ys (replay_effects xs d)
unfolding replay_effects
replay_effects-append [] ys d = refl
replay_effects-append (x ∷ xs) ys d = replay_effects-append xs ys (apply_effect x.effect d)

pub new_queue-IsQueue : IsQueue new_queue
unfolding replay_effects
new_queue-IsQueue = omega arith

pub push-IsQueue :
    (key : ℕ) (shifted : Bool) (effect : StartupKeyEffect) (q : StartupKeyQueue)
    → IsQueue q
    → IsQueue (push key shifted effect q).0
unfolding push
push-IsQueue key shifted effect q v =
    let k : StartupKey = record { key = key; shifted = shifted; effect = effect } in
    ground (
      arith,
      v,
      replay_effects-append q.keys (k ∷ []) 0,
      last k (replay_effects q.keys 0),
      length-append q.keys (k ∷ []),
    )
  where
    last : (k : StartupKey) (d : ℕ) → replay_effects (k ∷ []) d ≡ apply_effect k.effect d
    last k d = unfold replay_effects in refl

pub take_prefix-IsQueue :
    (generation maximum : ℕ) (q : StartupKeyQueue)
    → IsQueue q
    → IsQueue (take_prefix generation maximum q).0
unfolding take_prefix
take_prefix-IsQueue generation maximum q v =
    ground (arith, v, length-drop (minimum maximum (length q.keys)) q.keys)

pub cancel_keys-IsQueue : (q : StartupKeyQueue) → IsQueue (cancel_keys q)
unfolding cancel_keys replay_effects
cancel_keys-IsQueue q = ground arith

-- The calls of the queue, as a sequence.
pub data Call : Type 0 where
  pushes : ℕ → Bool → StartupKeyEffect → Call
  takes : ℕ → ℕ → Call
  takes_all : ℕ → Call
  cancels : Call

-- One call: the queue after it, and the keys that it returns.
unfoldable pub step : Call → StartupKeyQueue → StartupKeyQueue × List StartupKey
step (pushes key shifted effect) q = ((push key shifted effect q).0, [])
step (takes generation maximum) q = take_prefix generation maximum q
step (takes_all generation) q = take_all_keys generation q
step cancels q = (cancel_keys q, [])

unfoldable pub run : List Call → StartupKeyQueue → StartupKeyQueue
run [] q = q
run (c ∷ cs) q = run cs (step c q).0

step-IsQueue : (c : Call) (q : StartupKeyQueue) → IsQueue q → IsQueue (step c q).0
unfolding step take_all_keys
step-IsQueue (pushes key shifted effect) q v = push-IsQueue key shifted effect q v
step-IsQueue (takes generation maximum) q v = take_prefix-IsQueue generation maximum q v
step-IsQueue (takes_all generation) q v = take_prefix-IsQueue generation (length q.keys) q v
step-IsQueue cancels q v = cancel_keys-IsQueue q

run-IsQueue : (cs : List Call) (q : StartupKeyQueue) → IsQueue q → IsQueue (run cs q)
unfolding run
run-IsQueue [] q v = v
run-IsQueue (c ∷ cs) q v = run-IsQueue cs (step c q).0 (step-IsQueue c q v)

-- After any sequence of calls on a new queue, the composition depth is the one that replaying the
-- queued keys gives, there are at most 2048 keys, and the generation is a 64-bit value other than 0.
pub run-new_queue : (cs : List Call) → IsQueue (run cs new_queue)
run-new_queue cs = run-IsQueue cs new_queue new_queue-IsQueue

-- A take with the current generation returns the oldest keys, as many as are asked for and there are,
-- keeps the others in order and the generation; a take with another generation, or of no keys,
-- returns nothing and changes nothing.
pub take_prefix_cases :
    (generation maximum : ℕ) (q : StartupKeyQueue)
    → ((generation ≡ q.generation)
        × (0 < maximum)
        × ((take_prefix generation maximum q).1 ++ (take_prefix generation maximum q).0.keys
            ≡ q.keys)
        × (length (take_prefix generation maximum q).1 ≡ min maximum (length q.keys))
        × ((take_prefix generation maximum q).0.generation ≡ q.generation))
      ⊎ (((generation ≢ q.generation) ⊎ (maximum ≡ 0))
          × (take_prefix generation maximum q ≡ (q, [])))
unfolding take_prefix
take_prefix_cases generation maximum q =
    elim (Bool-cases (not (generation == q.generation) || maximum == 0)) [
      | inl refused ↦ inr (ground arith, rw refused)
      | inr current ↦
          let count = minimum maximum (length q.keys) in
          inl (
            ground arith,
            ground arith,
            rw current (take-append-drop count q.keys),
            rw current (length-take count q.keys ∙ ground arith),
            rw current,
          )
    ]

next_generation-ne : (g : ℕ) → 0 < g → g < 2 ^ 64 → next_generation g ≢ g
unfolding next_generation
next_generation-ne g lo hi = ground arith

-- The calls that do not cancel.
abbrev pub Keeps : List Call → Type 0
Keeps [] = Unit
Keeps (cancels ∷ cs) = ⊥
Keeps (pushes key shifted effect ∷ cs) = Keeps cs
Keeps (takes generation maximum ∷ cs) = Keeps cs
Keeps (takes_all generation ∷ cs) = Keeps cs

run-generation :
    (cs : List Call) (q : StartupKeyQueue) → Keeps cs → (run cs q).generation ≡ q.generation
unfolding run step push take_all_keys take_prefix
run-generation [] q k = refl
run-generation (cancels ∷ cs) q k = absurd k
run-generation (pushes key shifted effect ∷ cs) q k =
    run-generation cs (push key shifted effect q).0 k ∙ ground arith
run-generation (takes generation maximum ∷ cs) q k =
    run-generation cs (take_prefix generation maximum q).0 k ∙ ground arith
run-generation (takes_all generation ∷ cs) q k =
    run-generation cs (take_prefix generation (length q.keys) q).0 k ∙ ground arith

-- A generation that was cancelled takes nothing: whatever is pushed and taken after the cancel, up to
-- the next one, a take with the generation from before returns no key and changes nothing.
pub cancelled_generation :
    (cs : List Call) (q : StartupKeyQueue) (maximum : ℕ)
    → IsQueue q
    → Keeps cs
    → take_prefix q.generation maximum (run cs (cancel_keys q)) ≡ (run cs (cancel_keys q), [])
unfolding take_prefix cancel_keys
cancelled_generation cs q maximum v k =
    let now = run-generation cs (cancel_keys q) k in
    ground (arith, next_generation-ne q.generation v.generation_pos v.generation_width, now)
