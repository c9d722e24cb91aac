-- ===== src/Calendar/Display/Font.antt =====
-- internal/calendar/display.go: the table `font4x6`.
-- A glyph is the list of its six rows, from the top, each of four bits.
use busybar_bridge.Prelude.{ℕ, zero, suc, List, [], ◌∷◌, Option, none, some, ◌==◌, if◌then◌else◌}

abbrev pub Glyph : Type 0
Glyph = List ℕ

-- rows[i]
unfoldable pub row_of : Glyph → ℕ → ℕ
row_of [] i = 0
row_of (row ∷ rows) zero = row
row_of (row ∷ rows) (suc i) = row_of rows i

glyph : ℕ → ℕ → ℕ → ℕ → ℕ → ℕ → Glyph
glyph a b c d e f = a ∷ b ∷ c ∷ d ∷ e ∷ f ∷ []

font_table : List (ℕ × Glyph)
unfolding glyph
font_table =
    (0x20, glyph 0x0 0x0 0x0 0x0 0x0 0x0)
    ∷ (0x21, glyph 0x4 0x4 0x4 0x0 0x4 0x0)
    ∷ (0x22, glyph 0xA 0xA 0x0 0x0 0x0 0x0)
    ∷ (0x23, glyph 0xA 0xF 0xA 0xF 0xA 0x0)
    ∷ (0x24, glyph 0x7 0xC 0x6 0x3 0xE 0x0)
    ∷ (0x25, glyph 0x9 0x2 0x4 0x9 0x0 0x0)
    ∷ (0x26, glyph 0x4 0xA 0x4 0xA 0x5 0x0)
    ∷ (0x27, glyph 0x4 0x4 0x0 0x0 0x0 0x0)
    ∷ (0x28, glyph 0x2 0x4 0x4 0x4 0x2 0x0)
    ∷ (0x29, glyph 0x4 0x2 0x2 0x2 0x4 0x0)
    ∷ (0x2A, glyph 0x0 0xA 0x4 0xA 0x0 0x0)
    ∷ (0x2B, glyph 0x0 0x4 0xE 0x4 0x0 0x0)
    ∷ (0x2C, glyph 0x0 0x0 0x0 0x4 0x8 0x0)
    ∷ (0x2D, glyph 0x0 0x0 0xE 0x0 0x0 0x0)
    ∷ (0x2E, glyph 0x0 0x0 0x0 0x0 0x4 0x0)
    ∷ (0x2F, glyph 0x1 0x2 0x4 0x8 0x0 0x0)
    ∷ (b'0', glyph 0x6 0x9 0x9 0x9 0x6 0x0)
    ∷ (b'1', glyph 0x4 0xC 0x4 0x4 0xE 0x0)
    ∷ (b'2', glyph 0xE 0x1 0x6 0x8 0xF 0x0)
    ∷ (b'3', glyph 0xE 0x1 0x6 0x1 0xE 0x0)
    ∷ (b'4', glyph 0x9 0x9 0xF 0x1 0x1 0x0)
    ∷ (b'5', glyph 0xF 0x8 0xE 0x1 0xE 0x0)
    ∷ (b'6', glyph 0x6 0x8 0xE 0x9 0x6 0x0)
    ∷ (b'7', glyph 0xF 0x1 0x2 0x4 0x4 0x0)
    ∷ (b'8', glyph 0x6 0x9 0x6 0x9 0x6 0x0)
    ∷ (b'9', glyph 0x6 0x9 0x7 0x1 0x6 0x0)
    ∷ (0x3A, glyph 0x0 0x4 0x0 0x4 0x0 0x0)
    ∷ (0x3B, glyph 0x0 0x4 0x0 0x4 0x8 0x0)
    ∷ (0x3C, glyph 0x2 0x4 0x8 0x4 0x2 0x0)
    ∷ (0x3D, glyph 0x0 0xE 0x0 0xE 0x0 0x0)
    ∷ (0x3E, glyph 0x8 0x4 0x2 0x4 0x8 0x0)
    ∷ (0x3F, glyph 0xE 0x1 0x6 0x0 0x4 0x0)
    ∷ (0x40, glyph 0x6 0x9 0xB 0x8 0x6 0x0)
    ∷ (b'A', glyph 0x6 0x9 0xF 0x9 0x9 0x0)
    ∷ (b'B', glyph 0xE 0x9 0xE 0x9 0xE 0x0)
    ∷ (b'C', glyph 0x6 0x9 0x8 0x9 0x6 0x0)
    ∷ (b'D', glyph 0xE 0x9 0x9 0x9 0xE 0x0)
    ∷ (b'E', glyph 0xF 0x8 0xE 0x8 0xF 0x0)
    ∷ (b'F', glyph 0xF 0x8 0xE 0x8 0x8 0x0)
    ∷ (b'G', glyph 0x6 0x8 0xB 0x9 0x6 0x0)
    ∷ (b'H', glyph 0x9 0x9 0xF 0x9 0x9 0x0)
    ∷ (b'I', glyph 0xE 0x4 0x4 0x4 0xE 0x0)
    ∷ (b'J', glyph 0x7 0x2 0x2 0xA 0x4 0x0)
    ∷ (b'K', glyph 0x9 0xA 0xC 0xA 0x9 0x0)
    ∷ (b'L', glyph 0x8 0x8 0x8 0x8 0xF 0x0)
    ∷ (b'M', glyph 0x9 0xF 0xF 0x9 0x9 0x0)
    ∷ (b'N', glyph 0x9 0xD 0xB 0x9 0x9 0x0)
    ∷ (b'O', glyph 0x6 0x9 0x9 0x9 0x6 0x0)
    ∷ (b'P', glyph 0xE 0x9 0xE 0x8 0x8 0x0)
    ∷ (b'Q', glyph 0x6 0x9 0x9 0xB 0x7 0x0)
    ∷ (b'R', glyph 0xE 0x9 0xE 0xA 0x9 0x0)
    ∷ (b'S', glyph 0x7 0x8 0x6 0x1 0xE 0x0)
    ∷ (b'T', glyph 0xE 0x4 0x4 0x4 0x4 0x0)
    ∷ (b'U', glyph 0x9 0x9 0x9 0x9 0x6 0x0)
    ∷ (b'V', glyph 0x9 0x9 0x9 0x6 0x6 0x0)
    ∷ (b'W', glyph 0x9 0x9 0xF 0xF 0x9 0x0)
    ∷ (b'X', glyph 0x9 0x9 0x6 0x9 0x9 0x0)
    ∷ (b'Y', glyph 0x9 0x9 0x6 0x4 0x4 0x0)
    ∷ (b'Z', glyph 0xF 0x2 0x4 0x8 0xF 0x0)
    ∷ (0x5B, glyph 0x6 0x4 0x4 0x4 0x6 0x0)
    ∷ (0x5C, glyph 0x8 0x4 0x2 0x1 0x0 0x0)
    ∷ (0x5D, glyph 0x6 0x2 0x2 0x2 0x6 0x0)
    ∷ (0x5E, glyph 0x4 0xA 0x0 0x0 0x0 0x0)
    ∷ (0x5F, glyph 0x0 0x0 0x0 0x0 0xF 0x0)
    ∷ (0x60, glyph 0x8 0x4 0x0 0x0 0x0 0x0)
    ∷ (0x7B, glyph 0x2 0x4 0x8 0x4 0x2 0x0)
    ∷ (0x7C, glyph 0x4 0x4 0x4 0x4 0x4 0x0)
    ∷ (0x7D, glyph 0x8 0x4 0x2 0x4 0x8 0x0)
    ∷ (0x7E, glyph 0x0 0x5 0xA 0x0 0x0 0x0)
    ∷ []

find_glyph : ℕ → List (ℕ × Glyph) → Option Glyph
find_glyph r [] = none
find_glyph r ((c, g) ∷ table) = if c == r then some g else find_glyph r table

-- rows, ok := font4x6[r]
unfoldable pub font4x6 : ℕ → Option Glyph
unfolding font_table find_glyph
font4x6 r = find_glyph r font_table
