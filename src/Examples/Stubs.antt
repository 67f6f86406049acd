-- ===== src/Examples/Stubs.antt =====
-- The stub engine, with the ASCII letters: `ni`, and what it offers.
use ziliu_ime.Base.{ℕ, ◌≡◌, ◌≢◌, ◌↔◌, refl, true, List, [], ◌∷◌, arith, All}
use ziliu_ime.Engine.Han.{is_chinese_candidate, IsHan, utf16, is_chinese_candidate_iff}
use ziliu_ime.Engine.Stub.{
  StubEngine, new_stub_engine, process_letter, process_separator, backspace, select,
  find_candidates, refresh_candidates, refreshed, found_candidates, lookup_key, back, select_found,
}
use ziliu_ime.Engine.Stub.Invariant.{
  IsStub, Call, types, separates, calls, call, calls-new_stub_engine, backspace-process_letter,
  backspace-process_separator,
}
use ziliu_ime.Engine.Stub.Chinese.{select-Chinese}
use ziliu_ime.Examples.Alphabet.{is_alpha, to_lower, alpha_lower}

abbrev ni : List Call
ni = types 78 ∷ types 105 ∷ []

calls-new_stub_engine_example :
    IsStub (calls is_alpha to_lower alpha_lower (separates ∷ ni) new_stub_engine)
calls-new_stub_engine_example = calls-new_stub_engine is_alpha to_lower alpha_lower (separates ∷ ni)

abbrev typed_ni : StubEngine
typed_ni = calls is_alpha to_lower alpha_lower ni new_stub_engine

typed_ni-IsStub : IsStub typed_ni
typed_ni-IsStub = calls-new_stub_engine is_alpha to_lower alpha_lower ni

backspace-process_letter_example :
    backspace (process_letter is_alpha to_lower 72 typed_ni).0 ≡ (typed_ni, true)
unfolding calls call process_letter refresh_candidates
backspace-process_letter_example =
    backspace-process_letter is_alpha to_lower alpha_lower 72 typed_ni typed_ni-IsStub refl
      (omega arith)

backspace-process_separator_example : backspace (process_separator typed_ni).0 ≡ (typed_ni, true)
unfolding calls call process_letter refresh_candidates process_separator back
backspace-process_separator_example = backspace-process_separator typed_ni typed_ni-IsStub refl

select-Chinese_example :
    (is_chinese_candidate (select 1 typed_ni).1.commit ≡ true)
    × ((select 1 typed_ni).0.preedit ≡ [])
    × ((select 1 typed_ni).0.candidates ≡ [])
unfolding calls call process_letter refresh_candidates refreshed found_candidates find_candidates
    lookup_key select select_found
select-Chinese_example = select-Chinese 1 typed_ni typed_ni-IsStub refl refl

-- A character outside the basic plane, as a surrogate pair.
abbrev han_text : List ℕ
han_text = 0x4F60 ∷ 0xD840 ∷ 0xDC00 ∷ []

is_chinese_candidate_iff_example :
    (is_chinese_candidate han_text ≡ true)
    ↔ ((han_text ≢ []) × ((cps : List ℕ) × All IsHan cps × (han_text ≡ utf16 cps)))
is_chinese_candidate_iff_example =
    is_chinese_candidate_iff han_text (omega arith, (omega arith, (omega arith, tt)))
