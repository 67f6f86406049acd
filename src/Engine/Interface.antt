-- ===== src/Engine/Interface.antt =====
-- The interface of an input engine, core/include/ziliu/core/engine.h: the virtual class Engine as a
-- record of operations on a state of its own, and CompositionSnapshot::plain_text.
use ziliu_ime.Base.{ℕ, Bool, false, ◌||◌, List, [], ◌∷◌, ◌==◌, if◌then◌else◌}
use ziliu_ime.Ipc.Types.{CompositionSnapshot}

-- CompositionSnapshot::plain_text, the loop over the preedit.
unfoldable pub plain_text_of : List ℕ → List ℕ
plain_text_of [] = []
plain_text_of (c ∷ cs) =
    let rest = plain_text_of cs in
    if c == 39 || c == 32 || c == 9 || c == 13 || c == 10 then rest else c ∷ rest

unfoldable pub plain_text : CompositionSnapshot → List ℕ
plain_text s = plain_text_of s.preedit

abbrev pub maximum_pinyin_letters : ℕ
maximum_pinyin_letters = 64

abbrev pub apostrophe : ℕ
apostrophe = b'\''

pub record SelectionResult : Type 0 where
  pub consumed : Bool
  pub commit : List ℕ

abbrev pub no_selection : SelectionResult
no_selection = record { consumed = false; commit = [] }

pub record Engine : Type 1 where
  pub State : Type 0
  pub reset : State → State
  pub process_letter : ℕ → State → State × Bool
  pub process_separator : State → State × Bool
  pub backspace : State → State × Bool
  pub page_up : State → State × Bool
  pub page_down : State → State × Bool
  pub set_candidate_page_size : ℕ → State → State
  pub set_candidate_window_page_count : ℕ → State → State
  pub set_traditional : Bool → State → State
  pub set_chinese_candidates_only : Bool → State → State
  pub select : ℕ → State → State × SelectionResult
  pub snapshot : State → CompositionSnapshot
