-- ===== src/Bindings/Enums/CursorShapeDeviceShape.antt =====
-- `WpCursorShapeDeviceV1Shape` of cursorshape/cursor_shape.go.
use sysc_wayland.Base.{ℕ, List, [], ◌∷◌}
use sysc_wayland.Bindings.Enums.{Enum, Switch}

abbrev pub constants : List ℕ
constants =
    1 ∷ 2 ∷ 3 ∷ 4 ∷ 5 ∷ 6 ∷ 7 ∷ 8 ∷ 9 ∷ 10 ∷ 11 ∷ 12 ∷ 13 ∷ 14 ∷ 15 ∷ 16 ∷ 17 ∷ 18 ∷ 19 ∷ 20 ∷ 21
    ∷ 22 ∷ 23 ∷ 24 ∷ 25 ∷ 26 ∷ 27 ∷ 28 ∷ 29 ∷ 30 ∷ 31 ∷ 32 ∷ 33 ∷ 34 ∷ 35 ∷ 36 ∷ []

-- The cases of `Name`.
abbrev pub names : Switch
names =
    (1, "default")
    ∷ (2, "context_menu")
    ∷ (3, "help")
    ∷ (4, "pointer")
    ∷ (5, "progress")
    ∷ (6, "wait")
    ∷ (7, "cell")
    ∷ (8, "crosshair")
    ∷ (9, "text")
    ∷ (10, "vertical_text")
    ∷ (11, "alias")
    ∷ (12, "copy")
    ∷ (13, "move")
    ∷ (14, "no_drop")
    ∷ (15, "not_allowed")
    ∷ (16, "grab")
    ∷ (17, "grabbing")
    ∷ (18, "e_resize")
    ∷ (19, "n_resize")
    ∷ (20, "ne_resize")
    ∷ (21, "nw_resize")
    ∷ (22, "s_resize")
    ∷ (23, "se_resize")
    ∷ (24, "sw_resize")
    ∷ (25, "w_resize")
    ∷ (26, "ew_resize")
    ∷ (27, "ns_resize")
    ∷ (28, "nesw_resize")
    ∷ (29, "nwse_resize")
    ∷ (30, "col_resize")
    ∷ (31, "row_resize")
    ∷ (32, "all_scroll")
    ∷ (33, "zoom_in")
    ∷ (34, "zoom_out")
    ∷ (35, "dnd_ask")
    ∷ (36, "all_resize")
    ∷ []

-- The cases of `Value`.
abbrev pub values : Switch
values =
    (1, "1")
    ∷ (2, "2")
    ∷ (3, "3")
    ∷ (4, "4")
    ∷ (5, "5")
    ∷ (6, "6")
    ∷ (7, "7")
    ∷ (8, "8")
    ∷ (9, "9")
    ∷ (10, "10")
    ∷ (11, "11")
    ∷ (12, "12")
    ∷ (13, "13")
    ∷ (14, "14")
    ∷ (15, "15")
    ∷ (16, "16")
    ∷ (17, "17")
    ∷ (18, "18")
    ∷ (19, "19")
    ∷ (20, "20")
    ∷ (21, "21")
    ∷ (22, "22")
    ∷ (23, "23")
    ∷ (24, "24")
    ∷ (25, "25")
    ∷ (26, "26")
    ∷ (27, "27")
    ∷ (28, "28")
    ∷ (29, "29")
    ∷ (30, "30")
    ∷ (31, "31")
    ∷ (32, "32")
    ∷ (33, "33")
    ∷ (34, "34")
    ∷ (35, "35")
    ∷ (36, "36")
    ∷ []

abbrev pub enum : Enum
enum = record { constants = constants; names = names; values = values }
