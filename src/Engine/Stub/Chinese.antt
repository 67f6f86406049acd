-- ===== src/Engine/Stub/Chinese.antt =====
-- The stub engine's filter for Chinese candidates.
use ziliu_ime.Base.{
  ℕ, zero, suc, ◌≡◌, refl, subst, sym, true, List, [], ◌∷◌, Option, none, some, arith, leb, text_eq,
  get_elem?, All, Bool-cases, Option-cases, inl, inr,
}
use ziliu_ime.Ipc.Types.{Candidate}
use ziliu_ime.Engine.Interface.{maximum_pinyin_letters}
use ziliu_ime.Engine.Han.{is_chinese_candidate, all_han, is_han_code_point}
use ziliu_ime.Engine.Stub.{
  StubEngine, seed_candidates, find_candidates, lookup_key, raw_candidates, found_candidates,
  refreshed, reset, select, select_found,
}
use ziliu_ime.Engine.Stub.Invariant.{IsStub}

-- Every candidate of a refresh with the Chinese filter on passes the filter.
abbrev IsChinese : Candidate → Type 0
IsChinese candidate = is_chinese_candidate candidate.text ≡ true

find_candidates-All :
    (key : List ℕ) (seeds : List (List ℕ × List Candidate)) (found : List Candidate)
    → All (λ entry. All IsChinese entry.1) seeds
    → find_candidates key seeds ≡ some found
    → All IsChinese found
unfolding find_candidates
find_candidates-All key [] found all h = cc
find_candidates-All key ((name, candidates) ∷ seeds) found all h =
    elim (Bool-cases (text_eq name key)) [
      | inl here ↦ let same : candidates ≡ found = ground arith in subst (All IsChinese) same all.0
      | inr there ↦ find_candidates-All key seeds found all.1 (ground arith)
    ]

seed_candidates-Chinese : All (λ entry. All IsChinese entry.1) seed_candidates
unfolding is_chinese_candidate all_han is_han_code_point
seed_candidates-Chinese = ((refl, (refl, tt)), ((refl, (refl, tt)), ((refl, (refl, tt)), tt)))

raw_candidates-Chinese : (preedit : List ℕ) → All IsChinese (raw_candidates true preedit)
unfolding raw_candidates
raw_candidates-Chinese preedit = ground arith

refreshed-Chinese : (count : ℕ) (preedit : List ℕ) → All IsChinese (refreshed count true preedit)
unfolding refreshed found_candidates
refreshed-Chinese count preedit = elim (Bool-cases (leb maximum_pinyin_letters count)) [
  | inl full ↦ rw full tt
  | inr room ↦ elim (Option-cases (find_candidates (lookup_key preedit) seed_candidates)) [
    | inl missing ↦ rw (room, missing) (raw_candidates-Chinese preedit)
    | inr (found, e) ↦
        rw (room, e)
          (find_candidates-All (lookup_key preedit) seed_candidates found seed_candidates-Chinese e)
  ]
]

get_elem?-All :
    (cs : List Candidate) (i : ℕ) (c : Candidate)
    → All IsChinese cs
    → get_elem? cs i ≡ some c
    → IsChinese c
get_elem?-All [] i c all h = cc
get_elem?-All (x ∷ cs) zero c all h = let same : x ≡ c = cc in subst IsChinese same all.0
get_elem?-All (x ∷ cs) (suc i) c all h = get_elem?-All cs i c all.1 h

select_found-Chinese :
    (found : Option Candidate) (s : StubEngine)
    → ((c : Candidate) → found ≡ some c → IsChinese c)
    → (select_found found s).1.consumed ≡ true
    → (is_chinese_candidate (select_found found s).1.commit ≡ true)
      × ((select_found found s).0.preedit ≡ [])
      × ((select_found found s).0.candidates ≡ [])
unfolding select_found reset
select_found-Chinese none s chinese consumed = cc
select_found-Chinese (some c) s chinese consumed = (chinese c refl, refl, refl)

-- In a state that satisfies the invariant, with the filter for Chinese candidates on, a selection that
-- is consumed commits a text that passes the filter, and leaves no preedit and no candidates.
pub select-Chinese :
    (i : ℕ) (s : StubEngine)
    → IsStub s
    → s.chinese_candidates_only ≡ true
    → (select i s).1.consumed ≡ true
    → (is_chinese_candidate (select i s).1.commit ≡ true)
      × ((select i s).0.preedit ≡ [])
      × ((select i s).0.candidates ≡ [])
unfolding select
select-Chinese i s v only consumed =
    let fresh : s.candidates ≡ refreshed s.pinyin_letter_count true s.preedit =
      subst (λ b. s.candidates ≡ refreshed s.pinyin_letter_count b s.preedit) only v.fresh in
    let all : All IsChinese s.candidates =
      subst (All IsChinese) (sym fresh) (refreshed-Chinese s.pinyin_letter_count s.preedit) in
    select_found-Chinese (get_elem? s.candidates i) s (λ c. get_elem?-All s.candidates i c all)
      consumed
