-- ===== src/Examples/Pages.antt =====
-- The settings: a color, and seventeen candidates on pages of five.
use ziliu_ime.Base.{◌+◌, ◌*◌, ◌<◌, ◌≤◌, ◌%◌, ◌^◌, ◌≡◌, [], ◌∷◌, refl, true, arith, min}
use ziliu_ime.Settings.Colors.{
  serialize_color, parse_color, hex_character, parse_color-serialize_color,
}
use ziliu_ime.Settings.Paging.{
  clamped_page_size, slice_of, make_candidate_page_slice, make_candidate_page_window, IsPage,
  make_candidate_page_slice-IsPage, make_candidate_page_window-expanded,
}

make_candidate_page_slice-IsPage_example :
    IsPage 17 (clamped_page_size 5) 16 (make_candidate_page_slice 17 5 16)
make_candidate_page_slice-IsPage_example = make_candidate_page_slice-IsPage 17 5 16 (omega arith)

last_page : make_candidate_page_slice 17 5 16 ≡ record { offset = 15; count = 2 }
unfolding make_candidate_page_slice slice_of
last_page = refl

make_candidate_page_window-expanded_example :
    let window = make_candidate_page_window 17 5 16 true in
    (window.active ≡ make_candidate_page_slice 17 5 16)
    × (window.visible.offset ≡ 0)
    × (window.visible.count ≡ min 17 (clamped_page_size 5 * 5))
    × (window.visible.count ≤ window.row_count * clamped_page_size 5)
    × (window.row_count * clamped_page_size 5 < window.visible.count + clamped_page_size 5)
    × (window.row_count ≤ 5)
make_candidate_page_window-expanded_example =
    make_candidate_page_window-expanded 17 5 16 (omega arith)

parse_color-serialize_color_example :
    parse_color (serialize_color 0xFF0067C0) 0x202124 ≡ 0xFF0067C0 % 2 ^ 24
parse_color-serialize_color_example = parse_color-serialize_color 0xFF0067C0 0x202124

serialized_blue : serialize_color 0x0067C0 ≡ b'#' ∷ b'0' ∷ b'0' ∷ b'6' ∷ b'7' ∷ b'C' ∷ b'0' ∷ []
unfolding serialize_color hex_character
serialized_blue = refl
