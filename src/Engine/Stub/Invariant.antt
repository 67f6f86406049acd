-- ===== src/Engine/Stub/Invariant.antt =====
-- The invariant of the stub engine over any sequence of its calls, and what follows from it.
use ziliu_ime.Base.{
  ℕ, ◌+◌, ◌<◌, ◌≤◌, ◌≡◌, refl, sym, ap, ◌∙◌, subst, Bool, true, false, not, ◌||◌, List, [], ◌∷◌,
  ◌++◌, Option, none, some, arith, leb, ◌==◌, if◌then◌else◌, get_elem?, Bool-cases, inl, inr,
}
use ziliu_ime.Ipc.Types.{Candidate}
use ziliu_ime.Engine.Interface.{maximum_pinyin_letters, apostrophe}
use ziliu_ime.Engine.Stub.{
  StubEngine, new_stub_engine, find_candidates, is_empty, back, pop_back, lookup_key,
  raw_candidates, found_candidates, refreshed, refresh_candidates, reset, process_letter,
  process_separator, decremented, backspace, set_traditional, set_chinese_candidates_only, select,
  select_found,
}
use ziliu_ime.Engine.Stub.Texts.{
  back-append, pop_back-append, pop_back-back, append-is_empty, letters, letters_letter,
  letters_separator, is_separated, is_separated_letter, is_separated_separator,
  is_separated-pop_back,
}

-- The counter is the number of letters of the preedit, of at most 64, no separator stands first or
-- after another, and the candidates are those that a refresh gives.
pub record IsStub (s : StubEngine) : Type 0 where
  pub counted : s.pinyin_letter_count ≡ letters s.preedit
  pub bounded : s.pinyin_letter_count ≤ maximum_pinyin_letters
  pub separated : is_separated s.preedit ≡ true
  pub fresh : s.candidates ≡ refreshed s.pinyin_letter_count s.chinese_candidates_only s.preedit

pub new_stub_engine-IsStub : IsStub new_stub_engine
unfolding refreshed lookup_key find_candidates found_candidates raw_candidates
new_stub_engine-IsStub = record {
  counted = refl;
  bounded = omega arith;
  separated = refl;
  fresh = refl;
}

pub reset-IsStub : (s : StubEngine) → IsStub (reset s)
unfolding reset refreshed lookup_key find_candidates found_candidates raw_candidates
reset-IsStub s = record { counted = refl; bounded = omega arith; separated = refl; fresh = refl }

pub process_separator-IsStub : (s : StubEngine) → IsStub s → IsStub (process_separator s).0
unfolding process_separator refresh_candidates
process_separator-IsStub s v =
    elim (Bool-cases (is_empty s.preedit || back s.preedit == apostrophe)) [
      | inl refused ↦ rw refused v
      | inr here ↦ rw here (record {
        counted = v.counted ∙ sym (letters_separator s.preedit apostrophe refl);
        bounded = v.bounded;
        separated = is_separated_separator s.preedit here v.separated;
        fresh = refl;
      })
    ]

-- What Backspace takes off the counter.
counted_front :
    (s : List ℕ) (count : ℕ)
    → is_empty s ≡ false
    → count ≡ letters s
    → count ≤ maximum_pinyin_letters
    → (if not (back s == apostrophe) then decremented count else count) ≡ letters (pop_back s)
unfolding decremented
counted_front s count e c b =
    let whole : letters s ≡ letters (pop_back s ++ back s ∷ []) = ap letters (pop_back-back s e) in
    elim (Bool-cases (back s == apostrophe)) [
      | inl separator ↦ ground (arith, letters_separator (pop_back s) (back s) separator, whole)
      | inr letter ↦ ground (arith, letters_letter (pop_back s) (back s) letter, whole)
    ]

letters-pop_back : (s : List ℕ) → is_empty s ≡ false → letters (pop_back s) ≤ letters s
letters-pop_back s e =
    let whole : letters s ≡ letters (pop_back s ++ back s ∷ []) = ap letters (pop_back-back s e) in
    elim (Bool-cases (back s == apostrophe)) [
      | inl separator ↦ ground (arith, letters_separator (pop_back s) (back s) separator, whole)
      | inr letter ↦ ground (arith, letters_letter (pop_back s) (back s) letter, whole)
    ]

pub backspace-IsStub : (s : StubEngine) → IsStub s → IsStub (backspace s).0
unfolding backspace refresh_candidates
backspace-IsStub s v = elim (Bool-cases (is_empty s.preedit)) [
  | inl e ↦ rw e v
  | inr e ↦
      let count = counted_front s.preedit s.pinyin_letter_count e v.counted v.bounded in
      rw e (record {
        counted = count;
        bounded =
            subst (λ n. n ≤ maximum_pinyin_letters) (sym count)
              (omega (arith, v.counted, v.bounded, letters-pop_back s.preedit e));
        separated = is_separated-pop_back s.preedit e v.separated;
        fresh = refl;
      })
]

pub set_chinese_candidates_only-IsStub :
    (enabled : Bool) (s : StubEngine) → IsStub s → IsStub (set_chinese_candidates_only enabled s)
unfolding set_chinese_candidates_only refresh_candidates
set_chinese_candidates_only-IsStub enabled s v = record {
  counted = v.counted;
  bounded = v.bounded;
  separated = v.separated;
  fresh = refl;
}

pub set_traditional-IsStub :
    (enabled : Bool) (s : StubEngine) → IsStub s → IsStub (set_traditional enabled s)
unfolding set_traditional
set_traditional-IsStub enabled s v = record {
  counted = v.counted;
  bounded = v.bounded;
  separated = v.separated;
  fresh = v.fresh;
}

select_found-IsStub :
    (found : Option Candidate) (s : StubEngine) → IsStub s → IsStub (select_found found s).0
unfolding select_found
select_found-IsStub none s v = v
select_found-IsStub (some candidate) s v = reset-IsStub s

pub select-IsStub : (i : ℕ) (s : StubEngine) → IsStub s → IsStub (select i s).0
unfolding select
select-IsStub i s v = select_found-IsStub (get_elem? s.candidates i) s v

-- Backspace takes back the last unit and the count that came with it.
backspace_last :
    (c n : ℕ) (s : StubEngine)
    → IsStub s
    → (if not (c == apostrophe) then decremented n else n) ≡ s.pinyin_letter_count
    → backspace
        (refresh_candidates (record s { preedit = s.preedit ++ (c ∷ []); pinyin_letter_count = n }))
      ≡ (s, true)
unfolding backspace refresh_candidates
backspace_last c n s v count =
    rw (append-is_empty s.preedit c, back-append s.preedit c, pop_back-append s.preedit c, count)
      (ap (λ cs. (record s { candidates = cs }, true)) (sym v.fresh))

separator_refused :
    (s : StubEngine)
    → (is_empty s.preedit || back s.preedit == apostrophe) ≡ true
    → (process_separator s).1 ≡ true
    → ⊥
unfolding process_separator
separator_refused s refused accepted = ground arith

-- The calls of an engine that change its state.
pub data Call : Type 0 where
  resets separates erases : Call
  types : ℕ → Call
  selects : ℕ → Call
  sets_traditional : Bool → Call
  sets_chinese_only : Bool → Call

-- `alpha_lower`: towlower gives no separator for a letter.
module _ (is_alpha : ℕ → Bool) (to_lower : ℕ → ℕ)
    (alpha_lower : (c : ℕ) → is_alpha c ≡ true → (to_lower c == apostrophe) ≡ false) where
  pub process_letter-IsStub :
      (c : ℕ) (s : StubEngine) → IsStub s → IsStub (process_letter is_alpha to_lower c s).0
  unfolding process_letter refresh_candidates
  process_letter-IsStub c s v = elim (Bool-cases (is_alpha c)) [
    | inr other ↦ rw other v
    | inl alpha ↦ elim (Bool-cases (leb maximum_pinyin_letters s.pinyin_letter_count)) [
      | inl full ↦ rw (alpha, full) v
      | inr room ↦
          let letter = alpha_lower c alpha in
          rw (alpha, room)
            (record {
              counted =
                  ap (λ n. n + 1) v.counted ∙ sym (letters_letter s.preedit (to_lower c) letter);
              bounded = ground arith;
              separated = is_separated_letter s.preedit (to_lower c) letter v.separated;
              fresh = refl;
            })
    ]
  ]

  unfoldable pub call : Call → StubEngine → StubEngine
  call resets s = reset s
  call separates s = (process_separator s).0
  call erases s = (backspace s).0
  call (types c) s = (process_letter is_alpha to_lower c s).0
  call (selects i) s = (select i s).0
  call (sets_traditional enabled) s = set_traditional enabled s
  call (sets_chinese_only enabled) s = set_chinese_candidates_only enabled s

  unfoldable pub calls : List Call → StubEngine → StubEngine
  calls [] s = s
  calls (c ∷ cs) s = calls cs (call c s)

  call-IsStub : (c : Call) (s : StubEngine) → IsStub s → IsStub (call c s)
  unfolding call
  call-IsStub resets s v = reset-IsStub s
  call-IsStub separates s v = process_separator-IsStub s v
  call-IsStub erases s v = backspace-IsStub s v
  call-IsStub (types c) s v = process_letter-IsStub c s v
  call-IsStub (selects i) s v = select-IsStub i s v
  call-IsStub (sets_traditional enabled) s v = set_traditional-IsStub enabled s v
  call-IsStub (sets_chinese_only enabled) s v = set_chinese_candidates_only-IsStub enabled s v

  calls-IsStub : (cs : List Call) (s : StubEngine) → IsStub s → IsStub (calls cs s)
  unfolding calls
  calls-IsStub [] s v = v
  calls-IsStub (c ∷ cs) s v = calls-IsStub cs (call c s) (call-IsStub c s v)

  -- Where towlower makes no separator of a letter, a new stub engine satisfies its invariant after any
  -- sequence of calls: the counter is the number of letters in the preedit, of at most 64, no
  -- separator stands first or after another, and the candidates are those of the preedit and of the
  -- setting for Chinese candidates.
  pub calls-new_stub_engine : (cs : List Call) → IsStub (calls cs new_stub_engine)
  calls-new_stub_engine cs = calls-IsStub cs new_stub_engine new_stub_engine-IsStub

  -- Where towlower makes no separator of a letter, Backspace undoes a letter that is accepted while
  -- there is room for it: the whole state is the one before.
  pub backspace-process_letter :
      (c : ℕ) (s : StubEngine)
      → IsStub s
      → is_alpha c ≡ true
      → s.pinyin_letter_count < maximum_pinyin_letters
      → backspace (process_letter is_alpha to_lower c s).0 ≡ (s, true)
  unfolding process_letter decremented
  backspace-process_letter c s v alpha room =
      let full : leb maximum_pinyin_letters s.pinyin_letter_count ≡ false = ground arith in
      let letter = alpha_lower c alpha in
      let less : decremented (s.pinyin_letter_count + 1) ≡ s.pinyin_letter_count = ground arith in
      rw (alpha, full)
        (backspace_last (to_lower c) (s.pinyin_letter_count + 1) s v (rw letter less))

-- Backspace undoes a separator that is accepted: the whole state is the one before.
pub backspace-process_separator :
    (s : StubEngine)
    → IsStub s
    → (process_separator s).1 ≡ true
    → backspace (process_separator s).0 ≡ (s, true)
unfolding process_separator
backspace-process_separator s v accepted =
    elim (Bool-cases (is_empty s.preedit || back s.preedit == apostrophe)) [
      | inl refused ↦ absurd (separator_refused s refused accepted)
      | inr here ↦ rw here (backspace_last apostrophe s.pinyin_letter_count s v refl)
    ]
