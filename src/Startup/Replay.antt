-- ===== src/Startup/Replay.antt =====
-- What the queue delivers, and what its composition depth says of the queued keys.
use ziliu_ime.Base.{
  map, ℕ, zero, suc, ◌+◌, ◌-◌, ◌≡◌, inl, inr, refl, sym, ap, ◌∙◌, Bool, true, false, not, List, [],
  ◌∷◌, ◌++◌, append_assoc, append-nil, arith, length, ◌==◌, leb, ltb, ◌&&◌, ◌||◌, Bool-cases,
  if◌then◌else◌,
}
use ziliu_ime.Startup.{
  StartupKeyEffect, compose, backspace, cancel, commit, StartupKey, StartupKeyQueue, maximum_keys,
  apply_effect, push, has_composition_intent, replay_effects, take_prefix, take_all_keys,
}
use ziliu_ime.Startup.Laws.{
  IsQueue, Call, pushes, takes, takes_all, cancels, step, run, Keeps, take_prefix_cases,
}

-- The key of a push that Push says it has accepted.
abbrev pub accepted : Call → StartupKeyQueue → List StartupKey
accepted (pushes key shifted effect) q =
    if (push key shifted effect q).1
    then record { key = key; shifted = shifted; effect = effect } ∷ []
    else []
accepted _ q = []

abbrev pub all_accepted : List Call → StartupKeyQueue → List StartupKey
all_accepted [] q = []
all_accepted (c ∷ cs) q = accepted c q ++ all_accepted cs (step c q).0

abbrev pub all_taken : List Call → StartupKeyQueue → List StartupKey
all_taken [] q = []
all_taken (c ∷ cs) q = (step c q).1 ++ all_taken cs (step c q).0

take_prefix_keys :
    (generation maximum : ℕ) (q : StartupKeyQueue)
    → (take_prefix generation maximum q).1 ++ (take_prefix generation maximum q).0.keys ≡ q.keys
take_prefix_keys generation maximum q = elim (take_prefix_cases generation maximum q) [
  | inl (_, _, e, _, _) ↦ e
  | inr (_, e) ↦ rw e
]

-- One call moves keys from the front to its result, and adds one at the back.
step_keys :
    (c : Call) (q : StartupKeyQueue)
    → Keeps (c ∷ [])
    → (step c q).1 ++ (step c q).0.keys ≡ q.keys ++ accepted c q
unfolding step push take_all_keys
step_keys (pushes key shifted effect) q k = elim (Bool-cases (leb maximum_keys (length q.keys))) [
  | inl full ↦ rw full (sym (append-nil q.keys))
  | inr room ↦ rw room
]
step_keys (takes generation maximum) q k =
    take_prefix_keys generation maximum q ∙ sym (append-nil q.keys)
step_keys (takes_all generation) q k =
    take_prefix_keys generation (length q.keys) q ∙ sym (append-nil q.keys)
step_keys cancels q k = absurd k

Keeps-head : (c : Call) (cs : List Call) → Keeps (c ∷ cs) → Keeps (c ∷ []) × Keeps cs
Keeps-head (pushes key shifted effect) cs k = (tt, k)
Keeps-head (takes generation maximum) cs k = (tt, k)
Keeps-head (takes_all generation) cs k = (tt, k)
Keeps-head cancels cs k = absurd k

-- First in, first out: over any sequence of pushes and takes without a cancel, the keys that were
-- taken, followed by those that are left, are the keys from before followed by those whose Push returned
-- true, in their order; none of these is lost, doubled or moved, and a key whose Push returned false is
-- not queued.
pub run_fifo :
    (cs : List Call) (q : StartupKeyQueue)
    → Keeps cs
    → all_taken cs q ++ (run cs q).keys ≡ q.keys ++ all_accepted cs q
unfolding run
run_fifo [] q k = sym (append-nil q.keys)
run_fifo (c ∷ cs) q k =
    let (one, rest) = Keeps-head c cs k in
    append_assoc (step c q).1 (all_taken cs (step c q).0) (run cs (step c q).0).keys
    ∙ ap (λ ks. (step c q).1 ++ ks) (run_fifo cs (step c q).0 rest)
    ∙ sym (append_assoc (step c q).1 (step c q).0.keys (all_accepted cs (step c q).0))
    ∙ ap (λ ks. ks ++ all_accepted cs (step c q).0) (step_keys c q one)
    ∙ append_assoc q.keys (accepted c q) (all_accepted cs (step c q).0)

abbrev pub effects : List StartupKey → List StartupKeyEffect
effects = map (λ k. k.effect)

-- How many letters and how many backspaces there are, and whether nothing ends the composition.
abbrev pub composes : List StartupKeyEffect → ℕ
composes [] = 0
composes (compose ∷ es) = suc (composes es)
composes (e ∷ es) = composes es

abbrev pub backspaces : List StartupKeyEffect → ℕ
backspaces [] = 0
backspaces (backspace ∷ es) = suc (backspaces es)
backspaces (e ∷ es) = backspaces es

abbrev pub is_uninterrupted : List StartupKeyEffect → Bool
is_uninterrupted [] = true
is_uninterrupted (cancel ∷ es) = false
is_uninterrupted (commit ∷ es) = false
is_uninterrupted (e ∷ es) = is_uninterrupted es

-- Some last part has no cancel and no commit, and more letters than backspaces.
abbrev pub is_composing : List StartupKeyEffect → Bool
is_composing [] = false
is_composing (e ∷ es) =
    (is_uninterrupted (e ∷ es) && ltb (backspaces (e ∷ es)) (composes (e ∷ es))) || is_composing es

abbrev replayed : List StartupKeyEffect → ℕ → ℕ
replayed [] d = d
replayed (e ∷ es) d = replayed es (apply_effect e d)

replay_effects-replayed :
    (ks : List StartupKey) (d : ℕ) → replay_effects ks d ≡ replayed (effects ks) d
unfolding replay_effects
replay_effects-replayed [] d = refl
replay_effects-replayed (k ∷ ks) d = replay_effects-replayed ks (apply_effect k.effect d)

whole_first :
    (es : List StartupKeyEffect)
    → ((is_uninterrupted es && ltb (backspaces es) (composes es)) || is_composing es)
      ≡ is_composing es
whole_first [] = refl
whole_first (e ∷ es) =
    absorb (is_uninterrupted (e ∷ es) && ltb (backspaces (e ∷ es)) (composes (e ∷ es)))
      (is_composing es)
  where
    absorb : (a b : Bool) → (a || (a || b)) ≡ (a || b)
    absorb true b = refl
    absorb false b = refl

-- The same with `d` letters in front.
replayed-is_composing :
    (es : List StartupKeyEffect) (d : ℕ)
    → not (replayed es d == 0)
      ≡ ((is_uninterrupted es && ltb (backspaces es) (d + composes es)) || is_composing es)
unfolding apply_effect
replayed-is_composing [] d = ground arith
replayed-is_composing (compose ∷ es) d = ground (arith, replayed-is_composing es (d + 1))
replayed-is_composing (backspace ∷ es) zero =
    ground (arith, replayed-is_composing es 0, whole_first es)
replayed-is_composing (backspace ∷ es) (suc d) =
    let less : suc d - 1 ≡ d = omega arith in rw less (ground (arith, replayed-is_composing es d))
replayed-is_composing (e ∷ es) d =
    ground (arith, replayed-is_composing es d, replayed-is_composing es 0, whole_first es)

-- The queue reports a composition exactly when some last part of the queued keys has no cancel and no
-- commit, and more letters than backspaces.
pub has_composition_intent-is_composing :
    (q : StartupKeyQueue) → IsQueue q → has_composition_intent q ≡ is_composing (effects q.keys)
unfolding has_composition_intent
has_composition_intent-is_composing q v =
    let same : q.composition_depth ≡ replayed (effects q.keys) 0 =
      v.depth ∙ replay_effects-replayed q.keys 0 in
    let none_before : 0 + composes (effects q.keys) ≡ composes (effects q.keys) = omega arith in
    rw (same, replayed-is_composing (effects q.keys) 0, none_before) (whole_first (effects q.keys))
