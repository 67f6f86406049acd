-- ===== src/Engine/Stub.antt =====
-- The deterministic engine of core/src/stub_engine.cpp.
pub mod Texts
pub mod Invariant
pub mod Chinese
use ziliu_ime.Base.{
  ℕ, ◌+◌, ◌-◌, ◌%◌, ◌^◌, Bool, true, false, not, ◌||◌, ◌&&◌, List, [], ◌∷◌, ◌++◌, Option, none,
  some, ltb, leb, ◌==◌, if◌then◌else◌, length, get_elem?, text_eq,
}
use ziliu_ime.Ipc.Types.{Candidate, CompositionSnapshot}
use ziliu_ime.Engine.Interface.{
  maximum_pinyin_letters, apostrophe, SelectionResult, no_selection, Engine,
}
use ziliu_ime.Engine.Han.{is_chinese_candidate}

-- kSeedCandidates: the code units of the texts, and the 64-bit patterns of the scores 1.0, 0.8, 0.3
-- and 0.6.
abbrev pub seed_candidates : List (List ℕ × List Candidate)
seed_candidates =
    (
      b'n' ∷ b'i' ∷ [],
      record { text = 0x4F60 ∷ []; annotation = b'n' ∷ b'i' ∷ []; score = 0x3FF0000000000000 }
          ∷ record { text = 0x5462 ∷ []; annotation = b'n' ∷ b'i' ∷ []; score = 0x3FE999999999999A }
          ∷ [],
    )
    ∷ (
      b'n' ∷ b'i' ∷ b'h' ∷ b'a' ∷ b'o' ∷ [],
      record {
        text = 0x4F60 ∷ 0x597D ∷ [];
        annotation = b'n' ∷ b'i' ∷ b'\'' ∷ b'h' ∷ b'a' ∷ b'o' ∷ [];
        score = 0x3FF0000000000000;
      }
          ∷ record {
            text = 0x62DF ∷ 0x597D ∷ [];
            annotation = b'n' ∷ b'i' ∷ b'\'' ∷ b'h' ∷ b'a' ∷ b'o' ∷ [];
            score = 0x3FD3333333333333;
          }
          ∷ [],
    )
    ∷ (
      b'z' ∷ b'i' ∷ b'l' ∷ b'i' ∷ b'u' ∷ [],
      record {
        text = 0x5B57 ∷ 0x6D41 ∷ [];
        annotation = b'z' ∷ b'i' ∷ b'\'' ∷ b'l' ∷ b'i' ∷ b'u' ∷ [];
        score = 0x3FF0000000000000;
      }
          ∷ record {
            text = 0x81EA ∷ 0x6D41 ∷ [];
            annotation = b'z' ∷ b'i' ∷ b'\'' ∷ b'l' ∷ b'i' ∷ b'u' ∷ [];
            score = 0x3FE3333333333333;
          }
          ∷ [],
    )
    ∷ []

unfoldable pub find_candidates : List ℕ → List (List ℕ × List Candidate) → Option (List Candidate)
find_candidates key [] = none
find_candidates key ((name, candidates) ∷ seeds) =
    let rest = find_candidates key seeds in if text_eq name key then some candidates else rest

-- `pinyin_letter_count` is a std::size_t.
pub record StubEngine : Type 0 where
  pub preedit : List ℕ
  pub candidates : List Candidate
  pub traditional : Bool
  pub chinese_candidates_only : Bool
  pub pinyin_letter_count : ℕ

abbrev pub new_stub_engine : StubEngine
new_stub_engine = record {
  preedit = [];
  candidates = [];
  traditional = false;
  chinese_candidates_only = true;
  pinyin_letter_count = 0;
}

abbrev pub is_empty : List ℕ → Bool
is_empty [] = true
is_empty (c ∷ cs) = false

-- std::wstring::back and pop_back, which the code calls on texts that are not empty.
unfoldable pub back : List ℕ → ℕ
back [] = 0
back (c ∷ []) = c
back (c ∷ d ∷ cs) = back (d ∷ cs)

unfoldable pub pop_back : List ℕ → List ℕ
pop_back [] = []
pop_back (c ∷ []) = []
pop_back (c ∷ d ∷ cs) = c ∷ pop_back (d ∷ cs)

-- The loop of RefreshCandidates that drops the separators.
unfoldable pub lookup_key : List ℕ → List ℕ
lookup_key [] = []
lookup_key (c ∷ cs) = let rest = lookup_key cs in if not (c == apostrophe) then c ∷ rest else rest

abbrev pub raw_candidate : List ℕ → Candidate
raw_candidate preedit = record {
  text = preedit;
  annotation = 0x539F ∷ 0x6837 ∷ 0x8F93 ∷ 0x5165 ∷ [];
  score = 0;
}

unfoldable pub raw_candidates : Bool → List ℕ → List Candidate
raw_candidates only preedit =
    if is_empty preedit
    then []
    else if not only || is_chinese_candidate preedit
    then raw_candidate preedit ∷ []
    else []

-- The candidates that RefreshCandidates leaves, once the key is looked up.
unfoldable pub found_candidates : Option (List Candidate) → Bool → List ℕ → List Candidate
found_candidates (some found) only preedit = found
found_candidates none only preedit = raw_candidates only preedit

unfoldable pub refreshed : ℕ → Bool → List ℕ → List Candidate
refreshed count only preedit =
    if leb maximum_pinyin_letters count
    then []
    else found_candidates (find_candidates (lookup_key preedit) seed_candidates) only preedit

unfoldable pub refresh_candidates : StubEngine → StubEngine
refresh_candidates s = record s {
  candidates = refreshed s.pinyin_letter_count s.chinese_candidates_only s.preedit;
}

unfoldable pub reset : StubEngine → StubEngine
reset s = record s { preedit = []; candidates = []; pinyin_letter_count = 0 }

unfoldable pub process_separator : StubEngine → StubEngine × Bool
process_separator s =
    if is_empty s.preedit || back s.preedit == apostrophe
    then (s, false)
    else (refresh_candidates (record s { preedit = s.preedit ++ (apostrophe ∷ []) }), true)

-- `--pinyin_letter_count_` on a std::size_t.
unfoldable pub decremented : ℕ → ℕ
decremented count = (count + (2 ^ 64 - 1)) % 2 ^ 64

unfoldable pub backspace : StubEngine → StubEngine × Bool
unfolding decremented
backspace s =
    if is_empty s.preedit
    then (s, false)
    else let count =
        if not (back s.preedit == apostrophe)
        then decremented s.pinyin_letter_count
        else s.pinyin_letter_count in
      (
        refresh_candidates (record s { preedit = pop_back s.preedit; pinyin_letter_count = count }),
        true,
      )

unfoldable pub set_traditional : Bool → StubEngine → StubEngine
set_traditional enabled s = record s { traditional = enabled }

unfoldable pub set_chinese_candidates_only : Bool → StubEngine → StubEngine
set_chinese_candidates_only enabled s =
    refresh_candidates (record s { chinese_candidates_only = enabled })

-- Select, once the candidate is looked up.
unfoldable pub select_found : Option Candidate → StubEngine → StubEngine × SelectionResult
select_found none s = (s, no_selection)
select_found (some candidate) s = (reset s, record { consumed = true; commit = candidate.text })

unfoldable pub select : ℕ → StubEngine → StubEngine × SelectionResult
select candidate_index s = select_found (get_elem? s.candidates candidate_index) s

unfoldable pub snapshot : StubEngine → CompositionSnapshot
snapshot s = record {
  preedit = s.preedit;
  candidates = s.candidates;
  highlighted_index = 0;
  has_previous_page = false;
  has_next_page = false;
}

-- `is_alpha` and `to_lower` are std::iswalpha and std::towlower, of the C library.
module _ (is_alpha : ℕ → Bool) (to_lower : ℕ → ℕ) where
  unfoldable pub process_letter : ℕ → StubEngine → StubEngine × Bool
  process_letter letter s =
      if not (is_alpha letter)
      then (s, false)
      else if leb maximum_pinyin_letters s.pinyin_letter_count
      then (s, true)
      else (
        refresh_candidates (record s {
          preedit = s.preedit ++ (to_lower letter ∷ []);
          pinyin_letter_count = s.pinyin_letter_count + 1;
        }),
        true,
      )

  -- The paging calls return false, and the sizes are ignored.
  abbrev pub stub_engine : Engine
  stub_engine = record {
    State = StubEngine;
    reset = reset;
    process_letter = process_letter;
    process_separator = process_separator;
    backspace = backspace;
    page_up = λ s. (s, false);
    page_down = λ s. (s, false);
    set_candidate_page_size = λ page_size s. s;
    set_candidate_window_page_count = λ page_count s. s;
    set_traditional = set_traditional;
    set_chinese_candidates_only = set_chinese_candidates_only;
    select = select;
    snapshot = snapshot;
  }
