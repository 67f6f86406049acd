-- ===== src/Session/Fresh.antt =====
-- The loop that looks for a session id: its fuel is enough, and the id that it finds is free.
use ziliu_ime.Base.{
  ℕ, zero, suc, ◌+◌, ◌%◌, ◌^◌, ◌<◌, ◌≤◌, ◌≡◌, ◌≢◌, refl, sym, ap, ◌∙◌, Bool, true, false, ◌||◌,
  none, List, [], ◌∷◌, arith, ◌==◌, if◌then◌else◌, length, Bool-cases, inl, inr,
}
use ziliu_ime.Session.{find, is_some, fresh_id}

abbrev mem : ℕ → List ℕ → Bool
mem id [] = false
mem id (x ∷ xs) = let rest = mem id xs in if x == id then true else rest

abbrev remove : ℕ → List ℕ → List ℕ
remove id [] = []
remove id (x ∷ xs) = let rest = remove id xs in if x == id then rest else x ∷ rest

-- The loop on the list of ids that are not allowed.
abbrev next_free : ℕ → ℕ → List ℕ → ℕ
next_free zero id taken = id
next_free (suc fuel) id taken =
    let rest = next_free fuel ((id + 1) % 2 ^ 64) taken in if mem id taken then rest else id

mem-remove : (id x : ℕ) (xs : List ℕ) → id ≢ x → mem id (remove x xs) ≡ mem id xs
mem-remove id x [] ne = refl
mem-remove id x (y ∷ xs) ne = ground (arith, mem-remove id x xs ne)

remove-le : (x : ℕ) (xs : List ℕ) → length (remove x xs) ≤ length xs
remove-le x [] = omega arith
remove-le x (y ∷ xs) = ground (arith, remove-le x xs)

remove-lt : (x : ℕ) (xs : List ℕ) → mem x xs ≡ true → length (remove x xs) < length xs
remove-lt x [] h = ground arith
remove-lt x (y ∷ xs) h = ground (arith, remove-lt x xs, remove-le x xs)

-- The ids that the loop tries follow each other, with wrap-around.
next_free-near :
    (fuel id : ℕ) (taken : List ℕ)
    → id < 2 ^ 64
    → (k : ℕ) × (k ≤ fuel) × (next_free fuel id taken ≡ (id + k) % 2 ^ 64)
next_free-near zero id taken lt = (0, omega arith, omega arith)
next_free-near (suc fuel) id taken lt = elim (Bool-cases (mem id taken)) [
  | inl used ↦
      let (k, le, e) = next_free-near fuel ((id + 1) % 2 ^ 64) taken (omega arith) in
      (suc k, omega arith, rw (used, e) (omega arith))
  | inr free ↦ (0, omega arith, rw free (omega arith))
]

-- An id that the loop does not come to can be left out.
next_free-remove :
    (fuel id x : ℕ) (taken : List ℕ)
    → id < 2 ^ 64
    → ((k : ℕ) → k < fuel → (id + k) % 2 ^ 64 ≢ x)
    → next_free fuel id taken ≡ next_free fuel id (remove x taken)
next_free-remove zero id x taken lt avoids = refl
next_free-remove (suc fuel) id x taken lt avoids =
    let first : (id + 0) % 2 ^ 64 ≢ x = avoids 0 (omega arith) in
    let same = mem-remove id x taken (ground arith) in
    let rest = next_free-remove fuel ((id + 1) % 2 ^ 64) x taken (omega arith) (λ k lt'.
      let later : (id + suc k) % 2 ^ 64 ≢ x = avoids (suc k) (omega arith) in ground arith) in
    rw (same, rest) refl

-- With more fuel than there are ids that are not allowed, and less than ids, the result is allowed.
next_free-free :
    (fuel id : ℕ) (taken : List ℕ)
    → id < 2 ^ 64
    → length taken < fuel
    → fuel < 2 ^ 64
    → mem (next_free fuel id taken) taken ≡ false
next_free-free zero id taken lt enough short = ground arith
next_free-free (suc fuel) id taken lt enough short = elim (Bool-cases (mem id taken)) [
  | inr free ↦ rw free free
  | inl used ↦
      let next = (id + 1) % 2 ^ 64 in
      let (k, le, e) = next_free-near fuel next taken (omega arith) in
      let other : next_free fuel next taken ≢ id = ground arith in
      let smaller = remove-lt id taken used in
      let avoids = next_free-remove fuel next id taken (omega arith) (λ k lt'. ground arith) in
      let rest =
        next_free-free fuel next (remove id taken) (omega arith) (omega arith) (omega arith) in
      rw used (sym (mem-remove (next_free fuel next taken) id taken other) ∙ rw avoids rest)
]

module _ {S : Type 0} where
  abbrev ids : List (ℕ × S) → List ℕ
  ids [] = []
  ids ((key, s) ∷ sessions) = key ∷ ids sessions

  mem-ids : (id : ℕ) (sessions : List (ℕ × S)) → mem id (ids sessions) ≡ is_some (find id sessions)
  unfolding find
  mem-ids id [] = refl
  mem-ids id ((key, s) ∷ sessions) = ground (arith, mem-ids id sessions)

  length-ids : (sessions : List (ℕ × S)) → length (ids sessions) ≡ length sessions
  length-ids [] = refl
  length-ids (x ∷ sessions) = ap suc (length-ids sessions)

  allowed :
      (id : ℕ) (sessions : List (ℕ × S))
      → mem id (0 ∷ ids sessions) ≡ (id == 0 || is_some (find id sessions))
  allowed id sessions = ground (arith, mem-ids id sessions)

  fresh_id-next_free :
      (fuel id : ℕ) (sessions : List (ℕ × S))
      → fresh_id fuel id sessions ≡ next_free fuel id (0 ∷ ids sessions)
  unfolding fresh_id
  fresh_id-next_free zero id sessions = refl
  fresh_id-next_free (suc fuel) id sessions =
      rw (fresh_id-next_free fuel ((id + 1) % 2 ^ 64) sessions, sym (allowed id sessions)) refl

  free_ne :
      (id : ℕ) (sessions : List (ℕ × S)) → (id == 0 || is_some (find id sessions)) ≡ false → id ≢ 0
  free_ne id sessions h = ground arith

  free_unused :
      (id : ℕ) (sessions : List (ℕ × S))
      → (id == 0 || is_some (find id sessions)) ≡ false
      → find id sessions ≡ none
  free_unused id sessions h = ground arith

  -- The loop of CreateSession ends within as many steps as its fuel allows: while there are fewer than
  -- 2^64 - 2 sessions, it finds a 64-bit id that is not 0 and that no session has.
  pub fresh_id-free :
      (id : ℕ) (sessions : List (ℕ × S))
      → id < 2 ^ 64
      → length sessions + 2 < 2 ^ 64
      → (fresh_id (length sessions + 2) id sessions ≢ 0)
        × (find (fresh_id (length sessions + 2) id sessions) sessions ≡ none)
        × (fresh_id (length sessions + 2) id sessions < 2 ^ 64)
  fresh_id-free id sessions lt short =
      let fuel = length sessions + 2 in
      let taken = 0 ∷ ids sessions in
      let room : length taken < fuel = omega (arith, length-ids sessions) in
      let free = next_free-free fuel id taken lt room short in
      let (k, le, near) = next_free-near fuel id taken lt in
      let test = sym (allowed (next_free fuel id taken) sessions) ∙ free in
      rw (fresh_id-next_free fuel id sessions) (
        free_ne (next_free fuel id taken) sessions test,
        free_unused (next_free fuel id taken) sessions test,
        omega arith,
      )
