-- ===== src/Startup.antt =====
-- The queue of keys that are typed before the broker answers: tsf/src/startup_key_queue.h.
pub mod Laws
pub mod Replay
use ziliu_ime.Base.{
  ℕ, zero, suc, ◌+◌, ◌-◌, ◌%◌, ◌^◌, Bool, true, false, not, ◌||◌, List, [], ◌∷◌, ◌++◌, ltb, leb,
  ◌==◌, if◌then◌else◌, length, take, drop,
}

pub data StartupKeyEffect : Type 0 where
  compose backspace cancel commit neutral : StartupKeyEffect

pub record StartupKey : Type 0 where
  pub key : ℕ
  pub shifted : Bool
  pub effect : StartupKeyEffect

-- `generation` is a std::uint64_t.
pub record StartupKeyQueue : Type 0 where
  pub keys : List StartupKey
  pub composition_depth : ℕ
  pub generation : ℕ

abbrev pub maximum_keys : ℕ
maximum_keys = 2048

abbrev pub new_queue : StartupKeyQueue
new_queue = record { keys = []; composition_depth = 0; generation = 1 }

-- ApplyEffect, on the depth that it updates. The depth is a std::size_t that starts at 0 and grows by
-- one for each of at most 2048 keys, so it does not wrap.
unfoldable pub apply_effect : StartupKeyEffect → ℕ → ℕ
apply_effect compose depth = depth + 1
apply_effect backspace depth = if not (depth == 0) then depth - 1 else depth
apply_effect cancel depth = 0
apply_effect commit depth = 0
apply_effect neutral depth = depth

unfoldable pub push : ℕ → Bool → StartupKeyEffect → StartupKeyQueue → StartupKeyQueue × Bool
push key shifted effect q = if leb maximum_keys (length q.keys) then (q, false) else (
  record q {
    keys = q.keys ++ (record { key = key; shifted = shifted; effect = effect } ∷ []);
    composition_depth = apply_effect effect q.composition_depth;
  },
  true,
)

unfoldable pub has_composition_intent : StartupKeyQueue → Bool
has_composition_intent q = not (q.composition_depth == 0)

abbrev pub minimum : ℕ → ℕ → ℕ
minimum left right = if ltb left right then left else right

-- The loop of TakePrefix over the keys that stay.
unfoldable pub replay_effects : List StartupKey → ℕ → ℕ
replay_effects [] depth = depth
replay_effects (k ∷ ks) depth = replay_effects ks (apply_effect k.effect depth)

unfoldable pub take_prefix : ℕ → ℕ → StartupKeyQueue → StartupKeyQueue × List StartupKey
take_prefix expected_generation maximum q =
    if not (expected_generation == q.generation) || maximum == 0
    then (q, [])
    else let count = minimum maximum (length q.keys) in
      (
        record q {
          keys = drop count q.keys;
          composition_depth = replay_effects (drop count q.keys) 0;
        },
        take count q.keys,
      )

unfoldable pub take_all_keys : ℕ → StartupKeyQueue → StartupKeyQueue × List StartupKey
take_all_keys expected_generation q = take_prefix expected_generation (length q.keys) q

-- The generation is incremented with wrap-around, and skips 0.
unfoldable pub next_generation : ℕ → ℕ
next_generation generation = if (generation + 1) % 2 ^ 64 == 0 then 1 else (generation + 1) % 2 ^ 64

unfoldable pub cancel_keys : StartupKeyQueue → StartupKeyQueue
unfolding next_generation
cancel_keys q = record {
  keys = [];
  composition_depth = 0;
  generation = next_generation q.generation;
}
