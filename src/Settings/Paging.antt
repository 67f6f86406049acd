-- ===== src/Settings/Paging.antt =====
-- MakeCandidatePageSlice and MakeCandidatePageWindow. The numbers are of type std::size_t.
use native.Mathlib.Nat.{div-add-mod, mod-lt, mul_comm, mul-mod_left, mul-le-mul_right}
use ziliu_ime.Base.{
  ℕ, suc, ◌+◌, ◌-◌, ◌*◌, ◌/◌, ◌%◌, ◌<◌, ◌≤◌, ◌≡◌, ◌⊎◌, inl, inr, refl, Bool, true, false, arith,
  ltb, ltb→lt, leb, leb→le, ◌==◌, if◌then◌else◌, min, not, Bool-cases,
}

abbrev pub minimum_candidate_count : ℕ
minimum_candidate_count = 3

abbrev pub maximum_candidate_count : ℕ
maximum_candidate_count = 9

abbrev pub candidate_window_page_count : ℕ
candidate_window_page_count = 5

pub record CandidatePageSlice : Type 0 where
  pub offset : ℕ
  pub count : ℕ

pub record CandidatePageWindow : Type 0 where
  pub active : CandidatePageSlice
  pub visible : CandidatePageSlice
  pub row_count : ℕ

-- std::clamp.
abbrev pub clamp : ℕ → ℕ → ℕ → ℕ
clamp value low high = if ltb value low then low else if ltb high value then high else value

abbrev pub clamped_page_size : ℕ → ℕ
clamped_page_size page_size = clamp page_size minimum_candidate_count maximum_candidate_count

abbrev pub empty_slice : CandidatePageSlice
empty_slice = record { offset = 0; count = 0 }

-- The page size is already clamped here.
abbrev pub page_offset : ℕ → ℕ → ℕ → ℕ
page_offset candidate_total page_size requested_offset =
    min (requested_offset / page_size * page_size) ((candidate_total - 1) / page_size * page_size)

unfoldable pub slice_of : ℕ → ℕ → ℕ → CandidatePageSlice
slice_of candidate_total page_size requested_offset = record {
  offset = page_offset candidate_total page_size requested_offset;
  count = min page_size (candidate_total - page_offset candidate_total page_size requested_offset);
}

unfoldable pub make_candidate_page_slice : ℕ → ℕ → ℕ → CandidatePageSlice
make_candidate_page_slice candidate_total page_size requested_offset =
    if candidate_total == 0
    then empty_slice
    else slice_of candidate_total (clamped_page_size page_size) requested_offset

-- The row count is a sum of std::size_t values, which does not wrap: what is visible is at most 45.
unfoldable pub make_candidate_page_window : ℕ → ℕ → ℕ → Bool → CandidatePageWindow
make_candidate_page_window candidate_total page_size highlighted_index expanded =
    let active = make_candidate_page_slice candidate_total page_size highlighted_index in
    let size = clamped_page_size page_size in
    let maximum_visible = min candidate_total (size * candidate_window_page_count) in
    if active.count == 0
    then record { active = empty_slice; visible = empty_slice; row_count = 0 }
    else if not expanded
    then record { active = active; visible = active; row_count = 1 }
    else record {
      active = active;
      visible = record { offset = 0; count = maximum_visible };
      row_count = (maximum_visible + size - 1) / size;
    }

-- A page of a list that is not empty: it starts at a multiple of the page size, is not empty, lies within the
-- list, is full unless it is the last, and has the requested candidate, or is the last where there is
-- no such candidate.
pub record IsPage (total size requested : ℕ) (s : CandidatePageSlice) : Type 0 where
  pub aligned : s.offset % size ≡ 0
  pub nonempty : 0 < s.count
  pub within : s.offset + s.count ≤ total
  pub full : (s.count ≡ size) ⊎ (s.offset + s.count ≡ total)
  pub contains :
      ((s.offset ≤ requested) × (requested < s.offset + s.count))
      ⊎ ((total ≤ requested) × (s.offset + s.count ≡ total))

-- The pages of two quotients, the smaller one being a whole page before the other.
quotient_step : (q m size : ℕ) → q < m → q * size + size ≤ m * size
quotient_step q m size lt =
    let steps : suc q * size ≤ m * size = mul-le-mul_right size lt in omega (arith, steps)

quotient_bounds : (n size : ℕ) → 0 < size → (n / size * size ≤ n) × (n < n / size * size + size)
quotient_bounds n size z =
    let whole : size * (n / size) + n % size ≡ n = div-add-mod n size in
    let rest : n % size < size = mod-lt n z in
    let turn : n / size * size ≡ size * (n / size) = mul_comm (n / size) size in
    (omega arith, omega arith)

-- Where the offset is a quotient's multiple.
module _ (total size requested : ℕ) (size_pos : 0 < size) where
  IsPage-of :
      (offset : ℕ)
      → offset % size ≡ 0
      → offset < total
      → (offset + size ≤ total) ⊎ (total ≤ offset + size)
      → offset ≤ requested
      → (requested < offset + size) ⊎ (total ≤ offset + size)
      → IsPage total size requested (record { offset = offset; count = min size (total - offset) })
  IsPage-of offset aligned lt whole from_here before = record {
    aligned = aligned;
    nonempty = omega arith;
    within = omega arith;
    full = elim whole [ inl room ↦ inl (omega arith) | inr short ↦ inr (omega arith) ];
    contains = elim (Bool-cases (ltb requested total)) [
      | inl inside ↦ inl (from_here, ground arith)
      | inr outside ↦ inr (ground arith, ground arith)
    ];
  }

slice_of-IsPage :
    (total size requested : ℕ)
    → 0 < total
    → 0 < size
    → IsPage total size requested (slice_of total size requested)
unfolding slice_of
slice_of-IsPage total size requested t z =
    let q = requested / size in
    let m = (total - 1) / size in
    let (q_le, q_lt) = quotient_bounds requested size z in
    let (m_le, m_lt) = quotient_bounds (total - 1) size z in
    elim (Bool-cases (ltb q m)) [
      | inl before ↦
          let step = quotient_step q m size (ltb→lt q m before) in
          let first : page_offset total size requested ≡ q * size = omega arith in
          rw first (
            IsPage-of total size requested z (q * size) (mul-mod_left q size) (omega arith)
              (inl (omega arith)) q_le (inl q_lt))
      | inr after ↦
          let later : m * size ≤ q * size = mul-le-mul_right size (ground arith) in
          let second : page_offset total size requested ≡ m * size = omega arith in
          rw second (
            IsPage-of total size requested z (m * size) (mul-mod_left m size) (omega arith)
              (inr (omega arith)) (omega arith) (inr (omega arith)))
    ]

-- A clamped page size is between 3 and 9.
clamped_bounds : (n : ℕ) → (3 ≤ clamped_page_size n) × (clamped_page_size n ≤ 9)
clamped_bounds n = ground arith

-- For a list that is not empty, MakeCandidatePageSlice gives a page of 3 to 9 candidates' size: it starts
-- at a multiple of the size, is not empty, lies in the list, is full or reaches the end, and has the
-- requested candidate, or the last one where the request is beyond the list.
pub make_candidate_page_slice-IsPage :
    (total page_size requested : ℕ)
    → 0 < total
    → IsPage total
        (clamped_page_size page_size)
        requested
        (make_candidate_page_slice total page_size requested)
unfolding make_candidate_page_slice
make_candidate_page_slice-IsPage total page_size requested t =
    let some_candidate : (total == 0) ≡ false = ground arith in
    let (lo, hi) = clamped_bounds page_size in
    rw some_candidate
      (slice_of-IsPage total (clamped_page_size page_size) requested t (omega arith))

-- For a list that is not empty, the expanded window's active page is that of the highlighted candidate,
-- and it shows the candidates from the first on, as many as there are and at most five pages, in
-- exactly the rows that they need, at most five.
pub make_candidate_page_window-expanded :
    (total page_size highlighted : ℕ)
    → 0 < total
    → let size = clamped_page_size page_size in
      let window = make_candidate_page_window total page_size highlighted true in
      (window.active ≡ make_candidate_page_slice total page_size highlighted)
      × (window.visible.offset ≡ 0)
      × (window.visible.count ≡ min total (size * 5))
      × (window.visible.count ≤ window.row_count * size)
      × (window.row_count * size < window.visible.count + size)
      × (window.row_count ≤ 5)
unfolding make_candidate_page_window
make_candidate_page_window-expanded total page_size highlighted t =
    let page = make_candidate_page_slice-IsPage total page_size highlighted t in
    let here : ((make_candidate_page_slice total page_size highlighted).count == 0) ≡ false =
      let pos = page.nonempty in ground arith in
    let size = clamped_page_size page_size in
    let (lo, hi) = clamped_bounds page_size in
    let visible = min total (size * 5) in
    let (rows_le, rows_lt) = quotient_bounds (visible + size - 1) size (omega arith) in
    let few : (visible + size - 1) / size ≤ 5 =
      elim (Bool-cases (leb 6 ((visible + size - 1) / size))) [
        | inl many ↦
            let rows : 6 * size ≤ (visible + size - 1) / size * size =
              mul-le-mul_right size (leb→le 6 ((visible + size - 1) / size) many) in
            absurd (omega arith)
        | inr fits ↦ ground arith
      ] in
    rw here (refl, refl, refl, omega arith, omega arith, few)
