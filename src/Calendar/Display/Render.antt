-- ===== src/Calendar/Display/Render.antt =====
-- internal/calendar/display.go: the drawing of the two lines into a frame.
-- Coordinates are natural numbers: the callers start at (1, 1) and (1, 9) and only add to them, so
-- the tests for negative ones never hold. A byte is a number below 256.
pub mod Pixels
mod Tests
use busybar_bridge.Prelude.{
  ℕ, zero, suc, ◌+◌, ◌*◌, ◌-◌, ◌/◌, ◌%◌, ◌^◌, Bool, true, false, ◌&&◌, ◌||◌, List, [], ◌∷◌, Option,
  none, some, if◌then◌else◌, ltb, leb, ◌==◌, length,
}
use busybar_bridge.Prelude.Int.{ℤ}
use busybar_bridge.Prelude.Text.{Text}
use busybar_bridge.Calendar.Display.Font.{Glyph, row_of, font4x6}

abbrev pub display_width : ℕ
display_width = 72

abbrev pub display_height : ℕ
display_height = 16

-- DisplayWidth * DisplayHeight * DisplayBytesPerPixel
abbrev pub display_buffer_size : ℕ
display_buffer_size = 3456

pub data DisplayMode : Type 0 where
  display_mode_idle display_mode_busy : DisplayMode

pub record DisplayState : Type 0 where
  pub mode : DisplayMode
  pub top_line : Text
  pub bottom_line : Text
  pub updated_at : ℤ

pub record RgbColor : Type 0 where
  pub r : ℕ
  pub g : ℕ
  pub b : ℕ

color_busy_title : RgbColor
color_busy_title = record { r = 255; g = 180; b = 0 }

color_busy_countdown : RgbColor
color_busy_countdown = record { r = 255; g = 60; b = 60 }

color_idle_date : RgbColor
color_idle_date = record { r = 255; g = 255; b = 255 }

color_idle_time : RgbColor
color_idle_time = record { r = 100; g = 220; b = 255 }

-- make([]byte, n)
zeros : ℕ → List ℕ
zeros zero = []
zeros (suc n) = 0 ∷ zeros n

-- buf[i] = v, for an index in range.
set_byte : List ℕ → ℕ → ℕ → List ℕ
set_byte [] i v = []
set_byte (b ∷ buf) zero v = v ∷ buf
set_byte (b ∷ buf) (suc i) v = b ∷ set_byte buf i v

set_pixel : List ℕ → ℕ → ℕ → RgbColor → List ℕ
unfolding set_byte
set_pixel buf x y c =
    if leb display_width x || leb display_height y
    then buf
    else let idx = (y * display_width + x) * 3 in
      if leb (length buf) (idx + 2)
      then buf
      else set_byte (set_byte (set_byte buf idx c.r) (idx + 1) c.g) (idx + 2) c.b

-- `(rowBits & (1 << (glyphWidth - 1 - col))) != 0`
bit : ℕ → ℕ → Bool
bit bits col = (bits / 2 ^ (3 - col)) % 2 == 1

-- for col := 0; col < glyphWidth; col++, with the columns that are left
draw_columns : ℕ → ℕ → List ℕ → ℕ → ℕ → ℕ → RgbColor → List ℕ
unfolding set_pixel bit
draw_columns zero col buf bits start_x y c = buf
draw_columns (suc left) col buf bits start_x y c =
    let x = start_x + col in
    let buf' =
      if leb display_width x then buf else if bit bits col then set_pixel buf x y c else buf in
    draw_columns left (col + 1) buf' bits start_x y c

-- for row := 0; row < glyphHeight; row++, with the rows that are left
draw_rows : ℕ → ℕ → List ℕ → Glyph → ℕ → ℕ → RgbColor → List ℕ
unfolding draw_columns row_of
draw_rows zero row buf g start_x start_y c = buf
draw_rows (suc left) row buf g start_x start_y c =
    let y = start_y + row in
    let buf' =
      if leb display_height y then buf else draw_columns 4 0 buf (row_of g row) start_x y c in
    draw_rows left (row + 1) buf' g start_x start_y c

or_glyph : Option Glyph → Glyph → Glyph
or_glyph none d = d
or_glyph (some g) d = g

-- A missing key gives six empty rows.
no_rows : Glyph
no_rows = 0 ∷ 0 ∷ 0 ∷ 0 ∷ 0 ∷ 0 ∷ []

glyph_of : ℕ → Glyph
unfolding or_glyph font4x6 no_rows
glyph_of r = or_glyph (font4x6 r) (
    or_glyph (if leb b'a' r && leb r b'z' then font4x6 (r - 32) else none)
      (or_glyph (font4x6 b'?') no_rows))

draw_glyph : List ℕ → ℕ → ℕ → ℕ → RgbColor → List ℕ
unfolding draw_rows glyph_of
draw_glyph buf r start_x start_y c = draw_rows 6 0 buf (glyph_of r) start_x start_y c

-- The loop of `drawString`, from the column x.
draw_string : List ℕ → Text → ℕ → ℕ → RgbColor → List ℕ
unfolding draw_glyph
draw_string buf [] x start_y c = buf
draw_string buf (r ∷ text) x start_y c =
    let rest = draw_string (draw_glyph buf r x start_y c) text (x + 5) start_y c in
    if leb display_width x then buf else rest

pub record Frame : Type 0 where
  pub width : ℕ
  pub height : ℕ
  pub pixels : List ℕ

pub top_color : DisplayMode → RgbColor
unfolding color_busy_title color_idle_date
top_color display_mode_busy = color_busy_title
top_color display_mode_idle = color_idle_date

pub bottom_color : DisplayMode → RgbColor
unfolding color_busy_countdown color_idle_time
bottom_color display_mode_busy = color_busy_countdown
bottom_color display_mode_idle = color_idle_time

-- The screen, the encoding and the pixel format of the frame are always the same and left out.
unfoldable pub render_frame : DisplayState → Frame
unfolding zeros draw_string top_color bottom_color
render_frame state =
    let top = draw_string (zeros display_buffer_size) state.top_line 1 1 (top_color state.mode) in
    record {
      width = display_width;
      height = display_height;
      pixels = draw_string top state.bottom_line 1 9 (bottom_color state.mode);
    }
