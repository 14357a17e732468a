-- ===== src/Charmap.antt =====
-- kern/entry/charmap_default.inl: the default character map, a list of the rows of each glyph, the
-- top row first. The leftmost point of a row is its highest bit.
use feral.Base.{ℕ, List, [], ◌∷◌, ◌++◌}

unfoldable pub numerals : List (List ℕ)
numerals =
    (0x7e ∷ 0x42 ∷ 0x81 ∷ 0x81 ∷ 0x81 ∷ 0x81 ∷ 0x42 ∷ 0x7e ∷ [])
    ∷ (0x08 ∷ 0x18 ∷ 0x28 ∷ 0x08 ∷ 0x08 ∷ 0x08 ∷ 0x08 ∷ 0x7e ∷ [])
    ∷ (0x7c ∷ 0x84 ∷ 0x04 ∷ 0x18 ∷ 0x20 ∷ 0x40 ∷ 0x80 ∷ 0xfe ∷ [])
    ∷ (0xf8 ∷ 0x04 ∷ 0x02 ∷ 0xfe ∷ 0x02 ∷ 0x02 ∷ 0x04 ∷ 0xf8 ∷ [])
    ∷ (0x0c ∷ 0x14 ∷ 0x24 ∷ 0x44 ∷ 0xfe ∷ 0x04 ∷ 0x04 ∷ 0x04 ∷ [])
    ∷ (0x7e ∷ 0x40 ∷ 0x40 ∷ 0x7c ∷ 0x02 ∷ 0x02 ∷ 0x02 ∷ 0x7c ∷ [])
    ∷ (0x70 ∷ 0x80 ∷ 0x80 ∷ 0xf8 ∷ 0x84 ∷ 0x82 ∷ 0x82 ∷ 0x7c ∷ [])
    ∷ (0xfe ∷ 0x02 ∷ 0x02 ∷ 0x04 ∷ 0x08 ∷ 0x10 ∷ 0x20 ∷ 0x40 ∷ [])
    ∷ (0x7e ∷ 0x42 ∷ 0x42 ∷ 0x42 ∷ 0x3c ∷ 0x42 ∷ 0x42 ∷ 0x7e ∷ [])
    ∷ (0x7e ∷ 0x82 ∷ 0x82 ∷ 0x7e ∷ 0x02 ∷ 0x02 ∷ 0x02 ∷ 0x7e ∷ [])
    ∷ []

unfoldable pub lower_case_a_to_m : List (List ℕ)
lower_case_a_to_m =
    (0x00 ∷ 0x00 ∷ 0x00 ∷ 0x78 ∷ 0x84 ∷ 0x84 ∷ 0x8a ∷ 0x72 ∷ [])
    ∷ (0x00 ∷ 0x80 ∷ 0x80 ∷ 0xf8 ∷ 0x84 ∷ 0x82 ∷ 0x84 ∷ 0x78 ∷ [])
    ∷ (0x00 ∷ 0x78 ∷ 0x84 ∷ 0x80 ∷ 0x80 ∷ 0x80 ∷ 0x84 ∷ 0x78 ∷ [])
    ∷ (0x00 ∷ 0x02 ∷ 0x02 ∷ 0x7e ∷ 0x82 ∷ 0x82 ∷ 0x82 ∷ 0x7c ∷ [])
    ∷ (0x00 ∷ 0x00 ∷ 0x78 ∷ 0x84 ∷ 0xf8 ∷ 0x80 ∷ 0x84 ∷ 0x78 ∷ [])
    ∷ (0x0e ∷ 0x10 ∷ 0x20 ∷ 0xfc ∷ 0x20 ∷ 0x20 ∷ 0x20 ∷ 0x20 ∷ [])
    ∷ (0x7e ∷ 0x82 ∷ 0x82 ∷ 0x82 ∷ 0x7c ∷ 0x02 ∷ 0x02 ∷ 0x7e ∷ [])
    ∷ (0x00 ∷ 0x80 ∷ 0x80 ∷ 0xf8 ∷ 0x84 ∷ 0x82 ∷ 0x82 ∷ 0x82 ∷ [])
    ∷ (0x00 ∷ 0x20 ∷ 0x20 ∷ 0x00 ∷ 0x20 ∷ 0x20 ∷ 0x20 ∷ 0x20 ∷ [])
    ∷ (0x08 ∷ 0x08 ∷ 0x00 ∷ 0x08 ∷ 0x08 ∷ 0x08 ∷ 0x10 ∷ 0x60 ∷ [])
    ∷ (0x80 ∷ 0x80 ∷ 0x82 ∷ 0x84 ∷ 0xf8 ∷ 0x82 ∷ 0x82 ∷ 0x82 ∷ [])
    ∷ (0x20 ∷ 0x20 ∷ 0x20 ∷ 0x20 ∷ 0x20 ∷ 0x20 ∷ 0x20 ∷ 0x18 ∷ [])
    ∷ (0x00 ∷ 0x00 ∷ 0x00 ∷ 0x7c ∷ 0x92 ∷ 0x92 ∷ 0x92 ∷ 0x82 ∷ [])
    ∷ []

unfoldable pub lower_case_n_to_z : List (List ℕ)
lower_case_n_to_z =
    (0x00 ∷ 0x00 ∷ 0x00 ∷ 0x38 ∷ 0x44 ∷ 0x44 ∷ 0x44 ∷ 0x44 ∷ [])
    ∷ (0x00 ∷ 0x00 ∷ 0x00 ∷ 0x38 ∷ 0x44 ∷ 0x44 ∷ 0x44 ∷ 0x38 ∷ [])
    ∷ (0x00 ∷ 0x38 ∷ 0x44 ∷ 0x44 ∷ 0x78 ∷ 0x40 ∷ 0x40 ∷ 0x40 ∷ [])
    ∷ (0x00 ∷ 0x38 ∷ 0x44 ∷ 0x44 ∷ 0x3c ∷ 0x04 ∷ 0x04 ∷ 0x04 ∷ [])
    ∷ (0x00 ∷ 0x00 ∷ 0x00 ∷ 0x38 ∷ 0x40 ∷ 0x40 ∷ 0x40 ∷ 0x40 ∷ [])
    ∷ (0x00 ∷ 0x00 ∷ 0x00 ∷ 0x38 ∷ 0x40 ∷ 0x7c ∷ 0x04 ∷ 0x78 ∷ [])
    ∷ (0x20 ∷ 0x20 ∷ 0x20 ∷ 0xf8 ∷ 0x20 ∷ 0x20 ∷ 0x20 ∷ 0x18 ∷ [])
    ∷ (0x00 ∷ 0x00 ∷ 0x00 ∷ 0x00 ∷ 0x44 ∷ 0x44 ∷ 0x44 ∷ 0x38 ∷ [])
    ∷ (0x00 ∷ 0x00 ∷ 0x00 ∷ 0x00 ∷ 0x44 ∷ 0x44 ∷ 0x28 ∷ 0x10 ∷ [])
    ∷ (0x00 ∷ 0x00 ∷ 0x00 ∷ 0x00 ∷ 0x5a ∷ 0x5a ∷ 0x24 ∷ 0x00 ∷ [])
    ∷ (0x00 ∷ 0x00 ∷ 0x00 ∷ 0x44 ∷ 0x28 ∷ 0x10 ∷ 0x28 ∷ 0x44 ∷ [])
    ∷ (0x00 ∷ 0x00 ∷ 0x00 ∷ 0x44 ∷ 0x28 ∷ 0x10 ∷ 0x20 ∷ 0x40 ∷ [])
    ∷ (0x00 ∷ 0x00 ∷ 0x00 ∷ 0x7c ∷ 0x08 ∷ 0x10 ∷ 0x20 ∷ 0x7c ∷ [])
    ∷ []

unfoldable pub upper_case_a_to_m : List (List ℕ)
upper_case_a_to_m =
    (0x3c ∷ 0x42 ∷ 0x42 ∷ 0x7e ∷ 0x81 ∷ 0x81 ∷ 0x81 ∷ 0x81 ∷ [])
    ∷ (0xf8 ∷ 0x84 ∷ 0x84 ∷ 0xfc ∷ 0x82 ∷ 0x82 ∷ 0x82 ∷ 0xfc ∷ [])
    ∷ (0x78 ∷ 0x84 ∷ 0x80 ∷ 0x80 ∷ 0x80 ∷ 0x80 ∷ 0x84 ∷ 0x78 ∷ [])
    ∷ (0xf8 ∷ 0x84 ∷ 0x82 ∷ 0x82 ∷ 0x82 ∷ 0x82 ∷ 0x82 ∷ 0xfc ∷ [])
    ∷ (0xfe ∷ 0x80 ∷ 0x80 ∷ 0xfe ∷ 0x80 ∷ 0x80 ∷ 0x80 ∷ 0xfe ∷ [])
    ∷ (0xfe ∷ 0x80 ∷ 0x80 ∷ 0xfc ∷ 0x80 ∷ 0x80 ∷ 0x80 ∷ 0x80 ∷ [])
    ∷ (0x7c ∷ 0x82 ∷ 0x82 ∷ 0x40 ∷ 0x8e ∷ 0x82 ∷ 0x82 ∷ 0x7c ∷ [])
    ∷ (0x82 ∷ 0x82 ∷ 0x82 ∷ 0xfe ∷ 0x82 ∷ 0x82 ∷ 0x82 ∷ 0x82 ∷ [])
    ∷ (0x7e ∷ 0x10 ∷ 0x10 ∷ 0x10 ∷ 0x10 ∷ 0x10 ∷ 0x10 ∷ 0x7e ∷ [])
    ∷ (0xff ∷ 0x08 ∷ 0x08 ∷ 0x08 ∷ 0x08 ∷ 0x08 ∷ 0x10 ∷ 0xe0 ∷ [])
    ∷ (0x81 ∷ 0x82 ∷ 0x84 ∷ 0xf8 ∷ 0x84 ∷ 0x82 ∷ 0x82 ∷ 0x82 ∷ [])
    ∷ (0x40 ∷ 0x40 ∷ 0x40 ∷ 0x40 ∷ 0x40 ∷ 0x40 ∷ 0x40 ∷ 0x7e ∷ [])
    ∷ (0xc6 ∷ 0xaa ∷ 0x92 ∷ 0x92 ∷ 0x92 ∷ 0x92 ∷ 0x92 ∷ 0x82 ∷ [])
    ∷ []

unfoldable pub upper_case_n_to_z : List (List ℕ)
upper_case_n_to_z =
    (0x82 ∷ 0xc2 ∷ 0xa2 ∷ 0xa2 ∷ 0x92 ∷ 0x8a ∷ 0x86 ∷ 0x82 ∷ [])
    ∷ (0x7c ∷ 0x82 ∷ 0x82 ∷ 0x82 ∷ 0x82 ∷ 0x82 ∷ 0x82 ∷ 0x7c ∷ [])
    ∷ (0x7e ∷ 0x42 ∷ 0x42 ∷ 0x7e ∷ 0x40 ∷ 0x40 ∷ 0x40 ∷ 0x40 ∷ [])
    ∷ (0x7e ∷ 0x42 ∷ 0x42 ∷ 0x42 ∷ 0x4a ∷ 0x46 ∷ 0x7e ∷ 0x01 ∷ [])
    ∷ (0x7c ∷ 0x42 ∷ 0x42 ∷ 0x7e ∷ 0x41 ∷ 0x41 ∷ 0x41 ∷ 0x41 ∷ [])
    ∷ (0x3e ∷ 0x40 ∷ 0x40 ∷ 0x7e ∷ 0x02 ∷ 0x02 ∷ 0x02 ∷ 0x7c ∷ [])
    ∷ (0xff ∷ 0x18 ∷ 0x18 ∷ 0x18 ∷ 0x18 ∷ 0x18 ∷ 0x18 ∷ 0x18 ∷ [])
    ∷ (0x82 ∷ 0x82 ∷ 0x82 ∷ 0x82 ∷ 0x82 ∷ 0x82 ∷ 0x82 ∷ 0x7c ∷ [])
    ∷ (0x81 ∷ 0x81 ∷ 0x42 ∷ 0x42 ∷ 0x24 ∷ 0x24 ∷ 0x24 ∷ 0x18 ∷ [])
    ∷ (0x81 ∷ 0x81 ∷ 0x81 ∷ 0x81 ∷ 0x99 ∷ 0x5a ∷ 0x5a ∷ 0x24 ∷ [])
    ∷ (0x82 ∷ 0x44 ∷ 0x44 ∷ 0x28 ∷ 0x10 ∷ 0x28 ∷ 0x44 ∷ 0x82 ∷ [])
    ∷ (0x82 ∷ 0x44 ∷ 0x28 ∷ 0x10 ∷ 0x10 ∷ 0x10 ∷ 0x10 ∷ 0x10 ∷ [])
    ∷ (0xff ∷ 0x01 ∷ 0x02 ∷ 0x1c ∷ 0x20 ∷ 0x40 ∷ 0x80 ∷ 0xff ∷ [])
    ∷ []

unfoldable pub default_char_map : List (List ℕ)
default_char_map =
    numerals ++ lower_case_a_to_m ++ lower_case_n_to_z ++ upper_case_a_to_m ++ upper_case_n_to_z
