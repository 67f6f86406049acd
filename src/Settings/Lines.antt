-- ===== src/Settings/Lines.antt =====
-- The lines of the settings: what ParseSettings does to a line that SerializeSettings writes.
use ziliu_ime.Base.{
  ℕ, ◌≡◌, refl, ap, ◌∙◌, Bool, true, false, not, ◌&&◌, some, List, [], ◌∷◌, ◌++◌, append_assoc,
  arith, ◌==◌, text_eq, text_eq→eq, All,
}
use ziliu_ime.Settings.Types.{Settings}
use ziliu_ime.Settings.Values.{is_blank, is_end_blank, trim_left, trim_right, trim}
use ziliu_ime.Settings.Parse.{
  apply_key, split_at, apply_entry, apply_trimmed, lines_of, apply_lines,
}
use ziliu_ime.Settings.Serialize.{line_text, entries_text}

abbrev pub lacks : ℕ → List ℕ → Bool
lacks b [] = true
lacks b (c ∷ cs) = not (c == b) && lacks b cs

-- A text without a newline that Trim leaves as it is.
pub record IsValue (value : List ℕ) : Type 0 where
  pub one_line : lacks b'\n' value ≡ true
  pub left : trim_left value ≡ value
  pub right : trim_right value ≡ value

-- The same, decided, and of a key: it has no `=` either, and starts no comment.
abbrev pub is_value : List ℕ → Bool
is_value value =
    lacks b'\n' value && text_eq (trim_left value) value && text_eq (trim_right value) value

abbrev pub starts_line : List ℕ → Bool
starts_line [] = false
starts_line (c ∷ cs) = not (is_blank c) && not (c == b'#')

abbrev pub is_key : List ℕ → Bool
is_key key = starts_line key && lacks b'=' key && is_value key

pub is_value-IsValue : (value : List ℕ) → is_value value ≡ true → IsValue value
is_value-IsValue value h = record {
  one_line = ground arith;
  left = text_eq→eq (trim_left value) value (ground arith);
  right = text_eq→eq (trim_right value) value (ground arith);
}

pub trim-IsValue : (value : List ℕ) → IsValue value → trim value ≡ value
unfolding trim
trim-IsValue value v = rw (v.left, v.right)

-- What follows a character that stays keeps all that stands before it.
trim_right-append :
    (xs value : List ℕ) (c : ℕ)
    → is_end_blank c ≡ false
    → trim_right value ≡ value
    → trim_right (xs ++ c ∷ value) ≡ xs ++ c ∷ value
unfolding trim_right
trim_right-append [] [] c solid h = rw (h, solid)
trim_right-append [] (d ∷ value) c solid h = rw h refl
trim_right-append (x ∷ []) value c solid h = rw (trim_right-append [] value c solid h) refl
trim_right-append (x ∷ y ∷ xs) value c solid h =
    rw (trim_right-append (y ∷ xs) value c solid h) refl

trim_left-starts_line :
    (key rest : List ℕ) → starts_line key ≡ true → trim_left (key ++ rest) ≡ key ++ rest
unfolding trim_left
trim_left-starts_line [] rest h = cc
trim_left-starts_line (c ∷ cs) rest h = ground arith

split_at-append :
    (b : ℕ) (key value : List ℕ)
    → lacks b key ≡ true
    → split_at b (key ++ b ∷ value) ≡ some (key, value)
unfolding split_at
split_at-append b [] value h = ground arith
split_at-append b (c ∷ cs) value h = ground (arith, split_at-append b cs value)

apply_trimmed-key :
    (key rest : List ℕ) (s : Settings)
    → starts_line key ≡ true
    → apply_trimmed (key ++ rest) s ≡ apply_entry (split_at b'=' (key ++ rest)) s
unfolding apply_trimmed
apply_trimmed-key [] rest s h = cc
apply_trimmed-key (c ∷ cs) rest s h = ground arith

-- A line of a key and a value is applied as such.
pub apply_trimmed-entry :
    (key value : List ℕ) (s : Settings)
    → is_key key ≡ true
    → IsValue value
    → apply_trimmed (trim (key ++ b'=' ∷ value)) s ≡ apply_key key value s
unfolding trim apply_entry
apply_trimmed-entry key value s k v =
    let starts : starts_line key ≡ true = ground arith in
    let key_value = is_value-IsValue key (ground arith) in
    rw (
      trim_left-starts_line key (b'=' ∷ value) starts,
      trim_right-append key value b'=' refl v.right,
      apply_trimmed-key key (b'=' ∷ value) s starts,
      split_at-append b'=' key value (ground arith),
      key_value.left,
      key_value.right,
      v.left,
      v.right,
    )

lines_of-line :
    (line rest : List ℕ)
    → lacks b'\n' line ≡ true
    → lines_of (line ++ b'\n' ∷ rest) ≡ line ∷ lines_of rest
unfolding lines_of
lines_of-line [] rest h = refl
lines_of-line (c ∷ line) rest h = ground (arith, lines_of-line line rest)

lacks-append :
    (b : ℕ) (xs ys : List ℕ) → lacks b xs ≡ true → lacks b ys ≡ true → lacks b (xs ++ ys) ≡ true
lacks-append b [] ys h k = k
lacks-append b (x ∷ xs) ys h k = ground (arith, lacks-append b xs ys)

abbrev pub IsEntry : List ℕ × List ℕ → Type 0
IsEntry (key, value) = (is_key key ≡ true) × IsValue value

unfoldable pub apply_entries : List (List ℕ × List ℕ) → Settings → Settings
apply_entries [] s = s
apply_entries ((key, value) ∷ rest) s = apply_entries rest (apply_key key value s)

pub apply_lines-line_text :
    (key value rest : List ℕ) (s : Settings)
    → is_key key ≡ true
    → IsValue value
    → apply_lines (lines_of (line_text (key, value) ++ rest)) s
      ≡ apply_lines (lines_of rest) (apply_key key value s)
unfolding line_text apply_lines
apply_lines-line_text key value rest s k v =
    let whole : (key ++ b'=' ∷ (value ++ b'\n' ∷ [])) ++ rest
        ≡ (key ++ b'=' ∷ value) ++ b'\n' ∷ rest =
      simp append_assoc in
    let line =
      lines_of-line (key ++ b'=' ∷ value) rest
        (lacks-append b'\n' key (b'=' ∷ value) (ground arith) v.one_line) in
    ap (λ ls. apply_lines ls s) (ap lines_of whole ∙ line)
    ∙ ap (apply_lines (lines_of rest)) (apply_trimmed-entry key value s k v)

-- The lines of some entries are applied one after the other.
pub apply_lines-entries_text :
    (entries : List (List ℕ × List ℕ)) (s : Settings)
    → All IsEntry entries
    → apply_lines (lines_of (entries_text entries)) s ≡ apply_entries entries s
unfolding entries_text apply_entries apply_lines lines_of
apply_lines-entries_text [] s all = refl
apply_lines-entries_text ((key, value) ∷ rest) s (e, all) =
    apply_lines-line_text key value (entries_text rest) s e.0 e.1
    ∙ apply_lines-entries_text rest (apply_key key value s) all
