-- ===== src/Engine/Han.antt =====
-- IsChineseCandidate of core/src/candidate_filter.cpp, in its branch for a two-byte wchar_t.
use ziliu_ime.Base.{
  ℕ, ◌+◌, ◌-◌, ◌/◌, ◌%◌, ◌^◌, ◌≤◌, ◌≡◌, ◌≢◌, ◌↔◌, ◌⊎◌, inl, inr, refl, sym, ap, ◌∙◌, subst, Bool,
  true, false, ◌&&◌, ◌||◌, List, [], ◌∷◌, ◌++◌, arith, All, ltb, leb, ◌==◌, Bool-cases,
  if◌then◌else◌, tests,
}
use ziliu_ime.Ipc.Utf.{IsUnit, is_high, is_low, is_surrogate, pair_code_point, code_point_units}
use ziliu_ime.Ipc.Utf.RoundTrip.{units_of_pair, units_of_unit}

unfoldable pub is_han_code_point : ℕ → Bool
is_han_code_point cp =
    cp == 0x3007
    || (leb 0x3400 cp && leb cp 0x4DBF)
    || (leb 0x4E00 cp && leb cp 0x9FFF)
    || (leb 0xF900 cp && leb cp 0xFAFF)
    || (leb 0x20000 cp && leb cp 0x2FA1F)
    || (leb 0x30000 cp && leb cp 0x3347F)

-- The loop over the code units.
unfoldable pub all_han : List ℕ → Bool
all_han [] = true
all_han (u ∷ []) = if is_high u then false else if is_low u then false else is_han_code_point u
all_han (u ∷ next ∷ rest) =
    let after_pair = all_han rest in
    let after_one = all_han (next ∷ rest) in
    if is_high u
    then (if ltb next 0xDC00 || ltb 0xDFFF next
        then false
        else is_han_code_point (pair_code_point u next) && after_pair)
    else if is_low u
    then false
    else is_han_code_point u && after_one

unfoldable pub is_chinese_candidate : List ℕ → Bool
unfolding all_han
is_chinese_candidate [] = false
is_chinese_candidate (u ∷ text) = all_han (u ∷ text)

-- The UTF-16 text of a list of code points.
abbrev pub utf16 : List ℕ → List ℕ
utf16 [] = []
utf16 (cp ∷ cps) = code_point_units cp ++ utf16 cps

abbrev pub IsHan : ℕ → Type 0
IsHan cp = is_han_code_point cp ≡ true

all_han_pair :
    (u next : ℕ) (rest : List ℕ)
    → is_high u ≡ true
    → is_low next ≡ true
    → all_han (u ∷ next ∷ rest) ≡ (is_han_code_point (pair_code_point u next) && all_han rest)
unfolding all_han
all_han_pair u next rest h l = ground arith

all_han_unit :
    (u : ℕ) (text : List ℕ)
    → is_surrogate u ≡ false
    → all_han (u ∷ text) ≡ (is_han_code_point u && all_han text)
unfolding all_han
all_han_unit u [] s = ground arith
all_han_unit u (next ∷ text) s = ground arith

-- A Han code point is a scalar value.
han_scalar : (cp : ℕ) → IsHan cp → (is_surrogate cp ≡ false) × (cp ≤ 0x10FFFF)
unfolding is_han_code_point
han_scalar cp h = ground arith

all_han_units :
    (cp : ℕ) (text : List ℕ) → IsHan cp → all_han (code_point_units cp ++ text) ≡ all_han text
unfolding code_point_units
all_han_units cp text han =
    let (scalar, top) = han_scalar cp han in
    let high = 0xD800 + (cp - 0x10000) / 2 ^ 10 in
    let low = 0xDC00 + (cp - 0x10000) % 2 ^ 10 in
    elim (Bool-cases (ltb 0xFFFF cp)) [
      | inl wide ↦
          let same : pair_code_point high low ≡ cp = omega tests in
          rw (wide, all_han_pair high low text (ground arith) (ground arith), same, han)
      | inr narrow ↦ rw (narrow, all_han_unit cp text scalar, han)
    ]

utf16-all_han : (cps : List ℕ) → All IsHan cps → all_han (utf16 cps) ≡ true
unfolding all_han
utf16-all_han [] h = refl
utf16-all_han (cp ∷ cps) (han, h) = all_han_units cp (utf16 cps) han ∙ utf16-all_han cps h

-- What a text that passes the loop begins with.
all_han_cases :
    (u next : ℕ) (rest : List ℕ)
    → all_han (u ∷ next ∷ rest) ≡ true
    → ((is_high u ≡ true)
        × (is_low next ≡ true)
        × IsHan (pair_code_point u next)
        × (all_han rest ≡ true))
      ⊎ (IsHan u × (all_han (next ∷ rest) ≡ true))
unfolding all_han
all_han_cases u next rest h = ground arith

all_han_single : (u : ℕ) → all_han (u ∷ []) ≡ true → IsHan u
unfolding all_han
all_han_single u h = ground arith

all_han-utf16 :
    (text : List ℕ)
    → All IsUnit text
    → all_han text ≡ true
    → (cps : List ℕ) × All IsHan cps × (text ≡ utf16 cps)
all_han-utf16 [] lt h = ([], tt, refl)
all_han-utf16 (u ∷ []) lt h = (u ∷ [], (all_han_single u h, tt), rw (units_of_unit u lt.0))
all_han-utf16 (u ∷ next ∷ rest) lt h = elim (all_han_cases u next rest h) [
  | inl (hi, lo, han, h') ↦
      let (cps, all, e) = all_han-utf16 rest lt.1.1 h' in
      (
        pair_code_point u next ∷ cps,
        (han, all),
        rw (units_of_pair u next hi lo) (ap (λ t. u ∷ next ∷ t) e),
      )
  | inr (han, h') ↦
      let (cps, all, e) = all_han-utf16 (next ∷ rest) lt.1 h' in
      (u ∷ cps, (han, all), rw (units_of_unit u lt.0) (ap (λ t. u ∷ t) e))
]

-- IsChineseCandidate accepts exactly the texts that are not empty and are the UTF-16 form of Han code
-- points: no lone surrogate passes, and a pair counts as the one code point that it stands for.
pub is_chinese_candidate_iff :
    (text : List ℕ)
    → All IsUnit text
    → (is_chinese_candidate text ≡ true)
      ↔ ((text ≢ []) × ((cps : List ℕ) × All IsHan cps × (text ≡ utf16 cps)))
unfolding is_chinese_candidate
is_chinese_candidate_iff [] lt = (λ h. cc, λ p. absurd (p.0 refl))
is_chinese_candidate_iff (u ∷ text) lt = (
  λ h. (cc, all_han-utf16 (u ∷ text) lt h),
  λ (ne, (cps, all, e)). subst (λ t. all_han t ≡ true) (sym e) (utf16-all_han cps all),
)
