-- ===== src/Examples/Alphabet.antt =====
-- A concrete alphabet for std::iswalpha and std::towlower: the ASCII letters.
use ziliu_ime.Base.{ℕ, ◌+◌, ◌≡◌, Bool, true, false, ◌&&◌, ◌||◌, arith, leb, ◌==◌, if◌then◌else◌}
use ziliu_ime.Engine.Interface.{apostrophe}

abbrev pub is_upper : ℕ → Bool
is_upper c = leb 65 c && leb c 90

abbrev pub is_alpha : ℕ → Bool
is_alpha c = is_upper c || (leb 97 c && leb c 122)

abbrev pub to_lower : ℕ → ℕ
to_lower c = if is_upper c then c + 32 else c

pub alpha_lower : (c : ℕ) → is_alpha c ≡ true → (to_lower c == apostrophe) ≡ false
alpha_lower c h = ground arith
