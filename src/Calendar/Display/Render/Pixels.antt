-- ===== src/Calendar/Display/Render/Pixels.antt =====
-- The pixels of a rendered frame.
use mathlib.Core.Path.{subst}
use busybar_bridge.Prelude.{
  ℕ, zero, suc, ◌+◌, ◌*◌, ◌≤◌, ◌<◌, ◌≡◌, refl, sym, ap, ◌∙◌, ◌⊎◌, inl, inr, ◌&&◌, List, [], ◌∷◌,
  arith, if◌then◌else◌, if-cases, leb, ◌==◌, length,
}
use busybar_bridge.Prelude.Text.{Text}
use busybar_bridge.Calendar.Display.Font.{Glyph, row_of}
use busybar_bridge.Calendar.Display.Render.{
  display_width, display_height, display_buffer_size, DisplayState, RgbColor, zeros, set_byte,
  set_pixel, bit, draw_columns, draw_rows, glyph_of, draw_glyph, draw_string, top_color,
  bottom_color, render_frame,
}

byte_at : List ℕ → ℕ → ℕ
byte_at [] i = 0
byte_at (b ∷ buf) zero = b
byte_at (b ∷ buf) (suc i) = byte_at buf i

-- The pixel at (x, y).
pub pixel_at : List ℕ → ℕ → ℕ → RgbColor
unfolding byte_at
pixel_at buf x y =
    let idx = (y * display_width + x) * 3 in
    record { r = byte_at buf idx; g = byte_at buf (idx + 1); b = byte_at buf (idx + 2) }

length-set_byte : (buf : List ℕ) (i v : ℕ) → length (set_byte buf i v) ≡ length buf
unfolding set_byte
length-set_byte [] i v = refl
length-set_byte (b ∷ buf) zero v = refl
length-set_byte (b ∷ buf) (suc i) v = ap (λ n. suc n) (length-set_byte buf i v)

byte_at-set_byte :
    (buf : List ℕ) (i j v : ℕ)
    → i < length buf
    → byte_at (set_byte buf i v) j ≡ (if i == j then v else byte_at buf j)
unfolding byte_at set_byte
byte_at-set_byte [] i j v h = absurd (omega arith)
byte_at-set_byte (b ∷ buf) zero zero v h = refl
byte_at-set_byte (b ∷ buf) zero (suc j) v h = ground arith
byte_at-set_byte (b ∷ buf) (suc i) zero v h = ground arith
byte_at-set_byte (b ∷ buf) (suc i) (suc j) v h = ground (arith, byte_at-set_byte buf i j v)

length-set_pixel :
    (buf : List ℕ) (x y : ℕ) (c : RgbColor) → length (set_pixel buf x y c) ≡ length buf
unfolding set_pixel
length-set_pixel buf x y c =
    let idx = (y * display_width + x) * 3 in
    ground (
      arith,
      length-set_byte buf idx c.r,
      length-set_byte (set_byte buf idx c.r) (idx + 1) c.g,
      length-set_byte (set_byte (set_byte buf idx c.r) (idx + 1) c.g) (idx + 2) c.b,
    )

byte_at-three :
    (buf : List ℕ) (i j : ℕ) (c : RgbColor)
    → i + 2 < length buf
    → byte_at (set_byte (set_byte (set_byte buf i c.r) (i + 1) c.g) (i + 2) c.b) j ≡ (
        if i == j
        then c.r
        else if i + 1 == j
        then c.g
        else if i + 2 == j
        then c.b
        else byte_at buf j)
byte_at-three buf i j c h = ground (
  arith,
  length-set_byte buf i c.r,
  length-set_byte (set_byte buf i c.r) (i + 1) c.g,
  byte_at-set_byte buf i j c.r,
  byte_at-set_byte (set_byte buf i c.r) (i + 1) j c.g,
  byte_at-set_byte (set_byte (set_byte buf i c.r) (i + 1) c.g) (i + 2) j c.b,
)

pixel_at-set_pixel :
    (buf : List ℕ) (x y u v : ℕ) (c : RgbColor)
    → length buf ≡ display_buffer_size
    → x < display_width
    → y < display_height
    → u < display_width
    → v < display_height
    → pixel_at (set_pixel buf x y c) u v ≡ (if (x == u) && (y == v) then c else pixel_at buf u v)
unfolding set_pixel pixel_at
pixel_at-set_pixel buf x y u v c l hx hy hu hv =
    let i = (y * display_width + x) * 3 in
    let j = (v * display_width + u) * 3 in
    ground
      (arith, byte_at-three buf i j c, byte_at-three buf i (j + 1) c, byte_at-three buf i (j + 2) c)

-- A whole buffer, with a relation of every pixel to its place.
pub record IsPainted (P : ℕ → ℕ → RgbColor → Type 0) (buf : List ℕ) : Type 0 where
  pub size : length buf ≡ display_buffer_size
  pub pixel : (u v : ℕ) → u < display_width → v < display_height → P u v (pixel_at buf u v)

module _ (P : ℕ → ℕ → RgbColor → Type 0) (c : RgbColor) where
  set_pixel-IsPainted :
      (buf : List ℕ) (x y : ℕ)
      → x < display_width
      → y < display_height
      → P x y c
      → IsPainted P buf
      → IsPainted P (set_pixel buf x y c)
  set_pixel-IsPainted buf x y hx hy h v = record {
    size = length-set_pixel buf x y c ∙ v.size;
    pixel = λ u w hu hw. subst (P u w) (sym (pixel_at-set_pixel buf x y u w c v.size hx hy hu hw)) (
        if-cases (P u w) ((x == u) && (y == w)) _ _
          (λ e.
            let same_x : x ≡ u = ground arith in
            let same_y : y ≡ w = ground arith in
            subst (λ b. P u b c) same_y (subst (λ a. P a y c) same_x h))
          (λ e. v.pixel u w hu hw));
  }

  draw_columns-IsPainted :
      (left col : ℕ) (buf : List ℕ) (bits start_x y : ℕ)
      → y < display_height
      → ((x : ℕ) → P x y c)
      → IsPainted P buf
      → IsPainted P (draw_columns left col buf bits start_x y c)
  unfolding draw_columns
  draw_columns-IsPainted zero col buf bits start_x y hy h v = v
  draw_columns-IsPainted (suc left) col buf bits start_x y hy h v =
      draw_columns-IsPainted left (col + 1) _ bits start_x y hy h (
        if-cases (IsPainted P) (leb display_width (start_x + col)) _ _ (λ e. v)
          (λ e.
            if-cases (IsPainted P) (bit bits col) _ _
              (λ b.
                set_pixel-IsPainted buf (start_x + col) y (ground arith) hy (h (start_x + col)) v)
              (λ b. v)))

  draw_rows-IsPainted :
      (left row : ℕ) (buf : List ℕ) (g : Glyph) (start_x start_y : ℕ)
      → ((x y : ℕ) → start_y ≤ y → y < start_y + row + left → P x y c)
      → IsPainted P buf
      → IsPainted P (draw_rows left row buf g start_x start_y c)
  unfolding draw_rows
  draw_rows-IsPainted zero row buf g start_x start_y h v = v
  draw_rows-IsPainted (suc left) row buf g start_x start_y h v =
      draw_rows-IsPainted left (row + 1) _ g start_x start_y (λ x y a b. h x y a (omega (arith, b)))
        (if-cases (IsPainted P) (leb display_height (start_y + row)) _ _ (λ e. v)
          (λ e.
            draw_columns-IsPainted 4 0 buf (row_of g row) start_x (start_y + row) (ground arith)
              (λ x. h x (start_y + row) (omega arith) (omega arith)) v))

  draw_string-IsPainted :
      (buf : List ℕ) (text : Text) (x start_y : ℕ)
      → ((u v : ℕ) → start_y ≤ v → v < start_y + 6 → P u v c)
      → IsPainted P buf
      → IsPainted P (draw_string buf text x start_y c)
  unfolding draw_string draw_glyph
  draw_string-IsPainted buf [] x start_y h v = v
  draw_string-IsPainted buf (r ∷ text) x start_y h v =
      if-cases (IsPainted P) (leb display_width x) _ _ (λ e. v)
        (λ e. draw_string-IsPainted (draw_glyph buf r x start_y c) text (x + 5) start_y h (
          draw_rows-IsPainted 6 0 buf (glyph_of r) x start_y (λ u w a b. h u w a (omega (arith, b)))
            v))

abbrev pub black : RgbColor
black = record { r = 0; g = 0; b = 0 }

-- What a pixel in row v of the frame can be: black, or the color of the line whose rows it is in.
abbrev pub IsOfLine : DisplayState → ℕ → ℕ → RgbColor → Type 0
IsOfLine state u v p =
    (p ≡ black)
    ⊎ (((1 ≤ v) × (v < 7) × (p ≡ top_color state.mode))
        ⊎ ((9 ≤ v) × (v < 15) × (p ≡ bottom_color state.mode)))

byte_at-zeros : (n i : ℕ) → byte_at (zeros n) i ≡ 0
unfolding byte_at zeros
byte_at-zeros zero i = refl
byte_at-zeros (suc n) zero = refl
byte_at-zeros (suc n) (suc i) = byte_at-zeros n i

length-zeros : (n : ℕ) → length (zeros n) ≡ n
unfolding zeros
length-zeros zero = refl
length-zeros (suc n) = ap (λ k. suc k) (length-zeros n)

zeros-IsPainted : (state : DisplayState) → IsPainted (IsOfLine state) (zeros display_buffer_size)
unfolding pixel_at
zeros-IsPainted state = record {
  size = length-zeros display_buffer_size;
  pixel = λ u v hu hv.
      let i = (v * display_width + u) * 3 in
      inl (
        ground (
          arith,
          byte_at-zeros display_buffer_size i,
          byte_at-zeros display_buffer_size (i + 1),
          byte_at-zeros display_buffer_size (i + 2),
        ));
}

-- Whatever two lines are drawn, of any length and with any characters: the frame has exactly
-- 72 * 16 * 3 bytes, and every pixel is black, or in rows 1 to 6 and of the first line's color, or in
-- rows 9 to 14 and of the second line's; no glyph is drawn over the edge or over the other line.
pub render_frame-IsPainted :
    (state : DisplayState) → IsPainted (IsOfLine state) (render_frame state).pixels
unfolding render_frame
render_frame-IsPainted state =
    draw_string-IsPainted (IsOfLine state) (bottom_color state.mode) _ state.bottom_line 1 9
      (λ u v a b. inr (inr (a, b, refl)))
      (draw_string-IsPainted (IsOfLine state) (top_color state.mode) _ state.top_line 1 1
        (λ u v a b. inr (inl (a, b, refl))) (zeros-IsPainted state))
