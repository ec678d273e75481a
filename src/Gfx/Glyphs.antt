-- ===== src/Gfx/Glyphs.antt =====
-- The table `font8x8_basic` of src/gfx.c: the glyphs that it names, by the code of the character.
use meu_so_baremetal.Prelude.{ℕ, List, [], ◌∷◌, ◌==◌, if◌then◌else◌}

-- `g` for the code `k`: eight rows from the top, the leftmost pixel in the highest bit.
abbrev pub Glyph : Type 0
Glyph = ℕ × List ℕ

unfoldable pub font8x8_basic : List Glyph
font8x8_basic =
    (65, 0x18 ∷ 0x3c ∷ 0x66 ∷ 0x66 ∷ 0x7e ∷ 0x66 ∷ 0x66 ∷ 0x00 ∷ [])
    ∷ (66, 0x7c ∷ 0x66 ∷ 0x66 ∷ 0x7c ∷ 0x66 ∷ 0x66 ∷ 0x7c ∷ 0x00 ∷ [])
    ∷ (67, 0x3c ∷ 0x66 ∷ 0x60 ∷ 0x60 ∷ 0x60 ∷ 0x66 ∷ 0x3c ∷ 0x00 ∷ [])
    ∷ (68, 0x78 ∷ 0x6c ∷ 0x66 ∷ 0x66 ∷ 0x66 ∷ 0x6c ∷ 0x78 ∷ 0x00 ∷ [])
    ∷ (69, 0x7e ∷ 0x60 ∷ 0x60 ∷ 0x78 ∷ 0x60 ∷ 0x60 ∷ 0x7e ∷ 0x00 ∷ [])
    ∷ (70, 0x7e ∷ 0x60 ∷ 0x60 ∷ 0x78 ∷ 0x60 ∷ 0x60 ∷ 0x60 ∷ 0x00 ∷ [])
    ∷ (71, 0x3c ∷ 0x66 ∷ 0x60 ∷ 0x6e ∷ 0x66 ∷ 0x66 ∷ 0x3c ∷ 0x00 ∷ [])
    ∷ (72, 0x66 ∷ 0x66 ∷ 0x66 ∷ 0x7e ∷ 0x66 ∷ 0x66 ∷ 0x66 ∷ 0x00 ∷ [])
    ∷ (73, 0x3c ∷ 0x18 ∷ 0x18 ∷ 0x18 ∷ 0x18 ∷ 0x18 ∷ 0x3c ∷ 0x00 ∷ [])
    ∷ (74, 0x1e ∷ 0x0c ∷ 0x0c ∷ 0x0c ∷ 0x0c ∷ 0x6c ∷ 0x38 ∷ 0x00 ∷ [])
    ∷ (75, 0x66 ∷ 0x6c ∷ 0x78 ∷ 0x70 ∷ 0x78 ∷ 0x6c ∷ 0x66 ∷ 0x00 ∷ [])
    ∷ (76, 0x60 ∷ 0x60 ∷ 0x60 ∷ 0x60 ∷ 0x60 ∷ 0x60 ∷ 0x7e ∷ 0x00 ∷ [])
    ∷ (77, 0x63 ∷ 0x77 ∷ 0x7f ∷ 0x6b ∷ 0x63 ∷ 0x63 ∷ 0x63 ∷ 0x00 ∷ [])
    ∷ (78, 0x66 ∷ 0x76 ∷ 0x7e ∷ 0x7e ∷ 0x6e ∷ 0x66 ∷ 0x66 ∷ 0x00 ∷ [])
    ∷ (79, 0x3c ∷ 0x66 ∷ 0x66 ∷ 0x66 ∷ 0x66 ∷ 0x66 ∷ 0x3c ∷ 0x00 ∷ [])
    ∷ (80, 0x7c ∷ 0x66 ∷ 0x66 ∷ 0x7c ∷ 0x60 ∷ 0x60 ∷ 0x60 ∷ 0x00 ∷ [])
    ∷ (81, 0x3c ∷ 0x66 ∷ 0x66 ∷ 0x66 ∷ 0x6a ∷ 0x6c ∷ 0x36 ∷ 0x00 ∷ [])
    ∷ (82, 0x7c ∷ 0x66 ∷ 0x66 ∷ 0x7c ∷ 0x6c ∷ 0x66 ∷ 0x66 ∷ 0x00 ∷ [])
    ∷ (83, 0x3c ∷ 0x66 ∷ 0x60 ∷ 0x3c ∷ 0x06 ∷ 0x66 ∷ 0x3c ∷ 0x00 ∷ [])
    ∷ (84, 0x7e ∷ 0x18 ∷ 0x18 ∷ 0x18 ∷ 0x18 ∷ 0x18 ∷ 0x18 ∷ 0x00 ∷ [])
    ∷ (85, 0x66 ∷ 0x66 ∷ 0x66 ∷ 0x66 ∷ 0x66 ∷ 0x66 ∷ 0x3c ∷ 0x00 ∷ [])
    ∷ (86, 0x66 ∷ 0x66 ∷ 0x66 ∷ 0x66 ∷ 0x66 ∷ 0x3c ∷ 0x18 ∷ 0x00 ∷ [])
    ∷ (87, 0x63 ∷ 0x63 ∷ 0x63 ∷ 0x6b ∷ 0x7f ∷ 0x77 ∷ 0x63 ∷ 0x00 ∷ [])
    ∷ (88, 0x66 ∷ 0x66 ∷ 0x3c ∷ 0x18 ∷ 0x3c ∷ 0x66 ∷ 0x66 ∷ 0x00 ∷ [])
    ∷ (89, 0x66 ∷ 0x66 ∷ 0x66 ∷ 0x3c ∷ 0x18 ∷ 0x18 ∷ 0x18 ∷ 0x00 ∷ [])
    ∷ (90, 0x7e ∷ 0x06 ∷ 0x0c ∷ 0x18 ∷ 0x30 ∷ 0x60 ∷ 0x7e ∷ 0x00 ∷ [])
    ∷ (48, 0x3c ∷ 0x66 ∷ 0x6e ∷ 0x76 ∷ 0x66 ∷ 0x66 ∷ 0x3c ∷ 0x00 ∷ [])
    ∷ (49, 0x18 ∷ 0x38 ∷ 0x18 ∷ 0x18 ∷ 0x18 ∷ 0x18 ∷ 0x7e ∷ 0x00 ∷ [])
    ∷ (50, 0x3c ∷ 0x66 ∷ 0x06 ∷ 0x1c ∷ 0x30 ∷ 0x60 ∷ 0x7e ∷ 0x00 ∷ [])
    ∷ (51, 0x3c ∷ 0x66 ∷ 0x06 ∷ 0x1c ∷ 0x06 ∷ 0x66 ∷ 0x3c ∷ 0x00 ∷ [])
    ∷ (52, 0x0c ∷ 0x1c ∷ 0x3c ∷ 0x6c ∷ 0xfe ∷ 0x0c ∷ 0x0c ∷ 0x00 ∷ [])
    ∷ (53, 0x7e ∷ 0x60 ∷ 0x7c ∷ 0x06 ∷ 0x06 ∷ 0x66 ∷ 0x3c ∷ 0x00 ∷ [])
    ∷ (54, 0x3c ∷ 0x66 ∷ 0x60 ∷ 0x7c ∷ 0x66 ∷ 0x66 ∷ 0x3c ∷ 0x00 ∷ [])
    ∷ (55, 0x7e ∷ 0x06 ∷ 0x0c ∷ 0x18 ∷ 0x30 ∷ 0x30 ∷ 0x30 ∷ 0x00 ∷ [])
    ∷ (56, 0x3c ∷ 0x66 ∷ 0x66 ∷ 0x3c ∷ 0x66 ∷ 0x66 ∷ 0x3c ∷ 0x00 ∷ [])
    ∷ (57, 0x3c ∷ 0x66 ∷ 0x66 ∷ 0x3e ∷ 0x06 ∷ 0x66 ∷ 0x3c ∷ 0x00 ∷ [])
    ∷ (32, 0x00 ∷ 0x00 ∷ 0x00 ∷ 0x00 ∷ 0x00 ∷ 0x00 ∷ 0x00 ∷ 0x00 ∷ [])
    ∷ (33, 0x18 ∷ 0x18 ∷ 0x18 ∷ 0x18 ∷ 0x18 ∷ 0x00 ∷ 0x18 ∷ 0x00 ∷ [])
    ∷ (34, 0x66 ∷ 0x66 ∷ 0x66 ∷ 0x00 ∷ 0x00 ∷ 0x00 ∷ 0x00 ∷ 0x00 ∷ [])
    ∷ (35, 0x24 ∷ 0x24 ∷ 0x7e ∷ 0x24 ∷ 0x7e ∷ 0x24 ∷ 0x24 ∷ 0x00 ∷ [])
    ∷ (36, 0x18 ∷ 0x3e ∷ 0x60 ∷ 0x3c ∷ 0x06 ∷ 0x7c ∷ 0x18 ∷ 0x00 ∷ [])
    ∷ (37, 0x63 ∷ 0x66 ∷ 0x0c ∷ 0x18 ∷ 0x30 ∷ 0x66 ∷ 0x43 ∷ 0x00 ∷ [])
    ∷ (38, 0x38 ∷ 0x6c ∷ 0x38 ∷ 0x76 ∷ 0x6c ∷ 0xce ∷ 0x73 ∷ 0x00 ∷ [])
    ∷ (39, 0x18 ∷ 0x18 ∷ 0x30 ∷ 0x00 ∷ 0x00 ∷ 0x00 ∷ 0x00 ∷ 0x00 ∷ [])
    ∷ (40, 0x0c ∷ 0x18 ∷ 0x30 ∷ 0x30 ∷ 0x30 ∷ 0x18 ∷ 0x0c ∷ 0x00 ∷ [])
    ∷ (41, 0x30 ∷ 0x18 ∷ 0x0c ∷ 0x0c ∷ 0x0c ∷ 0x18 ∷ 0x30 ∷ 0x00 ∷ [])
    ∷ (42, 0x00 ∷ 0x66 ∷ 0x3c ∷ 0xff ∷ 0x3c ∷ 0x66 ∷ 0x00 ∷ 0x00 ∷ [])
    ∷ (43, 0x00 ∷ 0x18 ∷ 0x18 ∷ 0x7e ∷ 0x18 ∷ 0x18 ∷ 0x00 ∷ 0x00 ∷ [])
    ∷ (44, 0x00 ∷ 0x00 ∷ 0x00 ∷ 0x00 ∷ 0x18 ∷ 0x18 ∷ 0x30 ∷ 0x00 ∷ [])
    ∷ (45, 0x00 ∷ 0x00 ∷ 0x00 ∷ 0x7e ∷ 0x00 ∷ 0x00 ∷ 0x00 ∷ 0x00 ∷ [])
    ∷ (46, 0x00 ∷ 0x00 ∷ 0x00 ∷ 0x00 ∷ 0x00 ∷ 0x18 ∷ 0x18 ∷ 0x00 ∷ [])
    ∷ (47, 0x02 ∷ 0x04 ∷ 0x08 ∷ 0x10 ∷ 0x20 ∷ 0x40 ∷ 0x80 ∷ 0x00 ∷ [])
    ∷ (58, 0x00 ∷ 0x18 ∷ 0x18 ∷ 0x00 ∷ 0x18 ∷ 0x18 ∷ 0x00 ∷ 0x00 ∷ [])
    ∷ (59, 0x00 ∷ 0x18 ∷ 0x18 ∷ 0x00 ∷ 0x18 ∷ 0x18 ∷ 0x30 ∷ 0x00 ∷ [])
    ∷ (60, 0x06 ∷ 0x0c ∷ 0x18 ∷ 0x30 ∷ 0x18 ∷ 0x0c ∷ 0x06 ∷ 0x00 ∷ [])
    ∷ (61, 0x00 ∷ 0x00 ∷ 0x7e ∷ 0x00 ∷ 0x7e ∷ 0x00 ∷ 0x00 ∷ 0x00 ∷ [])
    ∷ (62, 0x60 ∷ 0x30 ∷ 0x18 ∷ 0x0c ∷ 0x18 ∷ 0x30 ∷ 0x60 ∷ 0x00 ∷ [])
    ∷ (63, 0x3c ∷ 0x66 ∷ 0x0c ∷ 0x18 ∷ 0x18 ∷ 0x00 ∷ 0x18 ∷ 0x00 ∷ [])
    ∷ (64, 0x3c ∷ 0x66 ∷ 0x6e ∷ 0x6e ∷ 0x60 ∷ 0x3e ∷ 0x00 ∷ 0x00 ∷ [])
    ∷ (91, 0x3c ∷ 0x30 ∷ 0x30 ∷ 0x30 ∷ 0x30 ∷ 0x30 ∷ 0x3c ∷ 0x00 ∷ [])
    ∷ (92, 0x80 ∷ 0x40 ∷ 0x20 ∷ 0x10 ∷ 0x08 ∷ 0x04 ∷ 0x02 ∷ 0x00 ∷ [])
    ∷ (93, 0x3c ∷ 0x0c ∷ 0x0c ∷ 0x0c ∷ 0x0c ∷ 0x0c ∷ 0x3c ∷ 0x00 ∷ [])
    ∷ (94, 0x18 ∷ 0x36 ∷ 0x66 ∷ 0x00 ∷ 0x00 ∷ 0x00 ∷ 0x00 ∷ 0x00 ∷ [])
    ∷ (95, 0x00 ∷ 0x00 ∷ 0x00 ∷ 0x00 ∷ 0x00 ∷ 0x00 ∷ 0xff ∷ 0x00 ∷ [])
    ∷ (96, 0x30 ∷ 0x18 ∷ 0x0c ∷ 0x00 ∷ 0x00 ∷ 0x00 ∷ 0x00 ∷ 0x00 ∷ [])
    ∷ (123, 0x0e ∷ 0x18 ∷ 0x18 ∷ 0x70 ∷ 0x18 ∷ 0x18 ∷ 0x0e ∷ 0x00 ∷ [])
    ∷ (124, 0x18 ∷ 0x18 ∷ 0x18 ∷ 0x18 ∷ 0x18 ∷ 0x18 ∷ 0x18 ∷ 0x00 ∷ [])
    ∷ (125, 0x70 ∷ 0x18 ∷ 0x18 ∷ 0x0e ∷ 0x18 ∷ 0x18 ∷ 0x70 ∷ 0x00 ∷ [])
    ∷ (126, 0x3a ∷ 0x5c ∷ 0x00 ∷ 0x00 ∷ 0x00 ∷ 0x00 ∷ 0x00 ∷ 0x00 ∷ [])
    ∷ (192, 0x18 ∷ 0x0c ∷ 0x3c ∷ 0x66 ∷ 0x7e ∷ 0x66 ∷ 0x66 ∷ 0x00 ∷ [])
    ∷ (193, 0x0c ∷ 0x18 ∷ 0x3c ∷ 0x66 ∷ 0x7e ∷ 0x66 ∷ 0x66 ∷ 0x00 ∷ [])
    ∷ (194, 0x18 ∷ 0x24 ∷ 0x3c ∷ 0x66 ∷ 0x7e ∷ 0x66 ∷ 0x66 ∷ 0x00 ∷ [])
    ∷ (195, 0x34 ∷ 0x2c ∷ 0x3c ∷ 0x66 ∷ 0x7e ∷ 0x66 ∷ 0x66 ∷ 0x00 ∷ [])
    ∷ (199, 0x3c ∷ 0x66 ∷ 0x60 ∷ 0x60 ∷ 0x3c ∷ 0x18 ∷ 0x30 ∷ 0x00 ∷ [])
    ∷ (201, 0x0c ∷ 0x18 ∷ 0x7e ∷ 0x60 ∷ 0x78 ∷ 0x60 ∷ 0x7e ∷ 0x00 ∷ [])
    ∷ (202, 0x18 ∷ 0x24 ∷ 0x7e ∷ 0x60 ∷ 0x78 ∷ 0x60 ∷ 0x7e ∷ 0x00 ∷ [])
    ∷ (205, 0x0c ∷ 0x18 ∷ 0x3c ∷ 0x18 ∷ 0x18 ∷ 0x18 ∷ 0x3c ∷ 0x00 ∷ [])
    ∷ (211, 0x0c ∷ 0x18 ∷ 0x3c ∷ 0x66 ∷ 0x66 ∷ 0x66 ∷ 0x3c ∷ 0x00 ∷ [])
    ∷ (212, 0x18 ∷ 0x24 ∷ 0x3c ∷ 0x66 ∷ 0x66 ∷ 0x66 ∷ 0x3c ∷ 0x00 ∷ [])
    ∷ (213, 0x34 ∷ 0x2c ∷ 0x3c ∷ 0x66 ∷ 0x66 ∷ 0x66 ∷ 0x3c ∷ 0x00 ∷ [])
    ∷ (218, 0x0c ∷ 0x18 ∷ 0x66 ∷ 0x66 ∷ 0x66 ∷ 0x66 ∷ 0x3c ∷ 0x00 ∷ [])
    ∷ (224, 0x18 ∷ 0x0c ∷ 0x00 ∷ 0x3c ∷ 0x02 ∷ 0x3e ∷ 0x46 ∷ 0x3e ∷ [])
    ∷ (225, 0x0c ∷ 0x18 ∷ 0x00 ∷ 0x3c ∷ 0x02 ∷ 0x3e ∷ 0x46 ∷ 0x3e ∷ [])
    ∷ (226, 0x18 ∷ 0x24 ∷ 0x00 ∷ 0x3c ∷ 0x02 ∷ 0x3e ∷ 0x46 ∷ 0x3e ∷ [])
    ∷ (227, 0x34 ∷ 0x2c ∷ 0x00 ∷ 0x3c ∷ 0x02 ∷ 0x3e ∷ 0x46 ∷ 0x3e ∷ [])
    ∷ (231, 0x00 ∷ 0x00 ∷ 0x3c ∷ 0x60 ∷ 0x60 ∷ 0x3c ∷ 0x18 ∷ 0x30 ∷ [])
    ∷ (233, 0x0c ∷ 0x18 ∷ 0x00 ∷ 0x3c ∷ 0x42 ∷ 0x7e ∷ 0x40 ∷ 0x3c ∷ [])
    ∷ (234, 0x18 ∷ 0x24 ∷ 0x00 ∷ 0x3c ∷ 0x42 ∷ 0x7e ∷ 0x40 ∷ 0x3c ∷ [])
    ∷ (237, 0x0c ∷ 0x18 ∷ 0x00 ∷ 0x18 ∷ 0x18 ∷ 0x18 ∷ 0x18 ∷ 0x18 ∷ [])
    ∷ (243, 0x0c ∷ 0x18 ∷ 0x00 ∷ 0x3c ∷ 0x42 ∷ 0x42 ∷ 0x42 ∷ 0x3c ∷ [])
    ∷ (244, 0x18 ∷ 0x24 ∷ 0x00 ∷ 0x3c ∷ 0x42 ∷ 0x42 ∷ 0x42 ∷ 0x3c ∷ [])
    ∷ (245, 0x34 ∷ 0x2c ∷ 0x00 ∷ 0x3c ∷ 0x42 ∷ 0x42 ∷ 0x42 ∷ 0x3c ∷ [])
    ∷ (250, 0x0c ∷ 0x18 ∷ 0x00 ∷ 0x42 ∷ 0x42 ∷ 0x42 ∷ 0x42 ∷ 0x3e ∷ [])
    ∷ []

-- The table at `k`; what it does not name is zero.
unfoldable pub glyph_in : List Glyph → ℕ → List ℕ
glyph_in [] k = 0 ∷ 0 ∷ 0 ∷ 0 ∷ 0 ∷ 0 ∷ 0 ∷ 0 ∷ []
glyph_in ((c, rows) ∷ rest) k = let later = glyph_in rest k in if c == k then rows else later
