-- ===== src/Console/Keys.antt =====
-- The key codes of keyboard.h and the two tables of keyboard.c, from scan codes to characters and key
-- codes. A character is its ASCII number.
use cho_os.Prelude.{ℕ, ◌-◌, List, [], ◌∷◌}

abbrev pub keyboard_key_unknown : ℕ
keyboard_key_unknown = 0xFFFF_FFFF

abbrev pub keyboard_key_esc : ℕ
keyboard_key_esc = 0xFFFF_FFFF - 1

abbrev pub keyboard_key_ctrl : ℕ
keyboard_key_ctrl = 0xFFFF_FFFF - 2

abbrev pub keyboard_key_lshft : ℕ
keyboard_key_lshft = 0xFFFF_FFFF - 3

abbrev pub keyboard_key_rshft : ℕ
keyboard_key_rshft = 0xFFFF_FFFF - 4

abbrev pub keyboard_key_alt : ℕ
keyboard_key_alt = 0xFFFF_FFFF - 5

abbrev pub keyboard_key_f1 : ℕ
keyboard_key_f1 = 0xFFFF_FFFF - 6

abbrev pub keyboard_key_f2 : ℕ
keyboard_key_f2 = 0xFFFF_FFFF - 7

abbrev pub keyboard_key_f3 : ℕ
keyboard_key_f3 = 0xFFFF_FFFF - 8

abbrev pub keyboard_key_f4 : ℕ
keyboard_key_f4 = 0xFFFF_FFFF - 9

abbrev pub keyboard_key_f5 : ℕ
keyboard_key_f5 = 0xFFFF_FFFF - 10

abbrev pub keyboard_key_f6 : ℕ
keyboard_key_f6 = 0xFFFF_FFFF - 11

abbrev pub keyboard_key_f7 : ℕ
keyboard_key_f7 = 0xFFFF_FFFF - 12

abbrev pub keyboard_key_f8 : ℕ
keyboard_key_f8 = 0xFFFF_FFFF - 13

abbrev pub keyboard_key_f9 : ℕ
keyboard_key_f9 = 0xFFFF_FFFF - 14

abbrev pub keyboard_key_f10 : ℕ
keyboard_key_f10 = 0xFFFF_FFFF - 15

abbrev pub keyboard_key_f11 : ℕ
keyboard_key_f11 = 0xFFFF_FFFF - 16

abbrev pub keyboard_key_f12 : ℕ
keyboard_key_f12 = 0xFFFF_FFFF - 17

abbrev pub keyboard_key_scrlck : ℕ
keyboard_key_scrlck = 0xFFFF_FFFF - 18

abbrev pub keyboard_key_home : ℕ
keyboard_key_home = 0xFFFF_FFFF - 19

abbrev pub keyboard_key_up : ℕ
keyboard_key_up = 0xFFFF_FFFF - 20

abbrev pub keyboard_key_left : ℕ
keyboard_key_left = 0xFFFF_FFFF - 21

abbrev pub keyboard_key_right : ℕ
keyboard_key_right = 0xFFFF_FFFF - 22

abbrev pub keyboard_key_down : ℕ
keyboard_key_down = 0xFFFF_FFFF - 23

abbrev pub keyboard_key_pgup : ℕ
keyboard_key_pgup = 0xFFFF_FFFF - 24

abbrev pub keyboard_key_pgdown : ℕ
keyboard_key_pgdown = 0xFFFF_FFFF - 25

abbrev pub keyboard_key_end : ℕ
keyboard_key_end = 0xFFFF_FFFF - 26

abbrev pub keyboard_key_ins : ℕ
keyboard_key_ins = 0xFFFF_FFFF - 27

abbrev pub keyboard_key_del : ℕ
keyboard_key_del = 0xFFFF_FFFF - 28

abbrev pub keyboard_key_caps : ℕ
keyboard_key_caps = 0xFFFF_FFFF - 29

abbrev pub keyboard_key_numlck : ℕ
keyboard_key_numlck = 0xFFFF_FFFF - 32

abbrev pub lowercase : List ℕ
lowercase =
    keyboard_key_unknown ∷ keyboard_key_esc ∷ 49 ∷ 50 ∷ 51 ∷ 52 ∷ 53 ∷ 54 ∷ 55 ∷ 56 ∷ 57 ∷ 48 ∷ 45
    ∷ 61 ∷ 8 ∷ 9 ∷ 113 ∷ 119 ∷ 101 ∷ 114 ∷ 116 ∷ 121 ∷ 117 ∷ 105 ∷ 111 ∷ 112 ∷ 91 ∷ 93 ∷ 10
    ∷ keyboard_key_ctrl ∷ 97 ∷ 115 ∷ 100 ∷ 102 ∷ 103 ∷ 104 ∷ 106 ∷ 107 ∷ 108 ∷ 59 ∷ 39 ∷ 96
    ∷ keyboard_key_lshft ∷ 92 ∷ 122 ∷ 120 ∷ 99 ∷ 118 ∷ 98 ∷ 110 ∷ 109 ∷ 44 ∷ 46 ∷ 47
    ∷ keyboard_key_rshft ∷ 42 ∷ keyboard_key_alt ∷ 32 ∷ keyboard_key_caps ∷ keyboard_key_f1
    ∷ keyboard_key_f2 ∷ keyboard_key_f3 ∷ keyboard_key_f4 ∷ keyboard_key_f5 ∷ keyboard_key_f6
    ∷ keyboard_key_f7 ∷ keyboard_key_f8 ∷ keyboard_key_f9 ∷ keyboard_key_f10 ∷ keyboard_key_numlck
    ∷ keyboard_key_scrlck ∷ keyboard_key_home ∷ keyboard_key_up ∷ keyboard_key_pgup ∷ 45
    ∷ keyboard_key_left ∷ keyboard_key_unknown ∷ keyboard_key_right ∷ 43 ∷ keyboard_key_end
    ∷ keyboard_key_down ∷ keyboard_key_pgdown ∷ keyboard_key_ins ∷ keyboard_key_del
    ∷ keyboard_key_unknown ∷ keyboard_key_unknown ∷ keyboard_key_unknown ∷ keyboard_key_f11
    ∷ keyboard_key_f12 ∷ keyboard_key_unknown ∷ keyboard_key_unknown ∷ keyboard_key_unknown
    ∷ keyboard_key_unknown ∷ keyboard_key_unknown ∷ keyboard_key_unknown ∷ keyboard_key_unknown
    ∷ keyboard_key_unknown ∷ keyboard_key_unknown ∷ keyboard_key_unknown ∷ keyboard_key_unknown
    ∷ keyboard_key_unknown ∷ keyboard_key_unknown ∷ keyboard_key_unknown ∷ keyboard_key_unknown
    ∷ keyboard_key_unknown ∷ keyboard_key_unknown ∷ keyboard_key_unknown ∷ keyboard_key_unknown
    ∷ keyboard_key_unknown ∷ keyboard_key_unknown ∷ keyboard_key_unknown ∷ keyboard_key_unknown
    ∷ keyboard_key_unknown ∷ keyboard_key_unknown ∷ keyboard_key_unknown ∷ keyboard_key_unknown
    ∷ keyboard_key_unknown ∷ keyboard_key_unknown ∷ keyboard_key_unknown ∷ keyboard_key_unknown
    ∷ keyboard_key_unknown ∷ keyboard_key_unknown ∷ keyboard_key_unknown ∷ keyboard_key_unknown
    ∷ keyboard_key_unknown ∷ keyboard_key_unknown ∷ keyboard_key_unknown ∷ keyboard_key_unknown ∷ []

abbrev pub uppercase : List ℕ
uppercase =
    keyboard_key_unknown ∷ keyboard_key_esc ∷ 33 ∷ 64 ∷ 35 ∷ 36 ∷ 37 ∷ 94 ∷ 38 ∷ 42 ∷ 40 ∷ 41 ∷ 95
    ∷ 43 ∷ 8 ∷ 9 ∷ 81 ∷ 87 ∷ 69 ∷ 82 ∷ 84 ∷ 89 ∷ 85 ∷ 73 ∷ 79 ∷ 80 ∷ 123 ∷ 125 ∷ 10
    ∷ keyboard_key_ctrl ∷ 65 ∷ 83 ∷ 68 ∷ 70 ∷ 71 ∷ 72 ∷ 74 ∷ 75 ∷ 76 ∷ 58 ∷ 34 ∷ 126
    ∷ keyboard_key_lshft ∷ 124 ∷ 90 ∷ 88 ∷ 67 ∷ 86 ∷ 66 ∷ 78 ∷ 77 ∷ 60 ∷ 62 ∷ 63
    ∷ keyboard_key_rshft ∷ 42 ∷ keyboard_key_alt ∷ 32 ∷ keyboard_key_caps ∷ keyboard_key_f1
    ∷ keyboard_key_f2 ∷ keyboard_key_f3 ∷ keyboard_key_f4 ∷ keyboard_key_f5 ∷ keyboard_key_f6
    ∷ keyboard_key_f7 ∷ keyboard_key_f8 ∷ keyboard_key_f9 ∷ keyboard_key_f10 ∷ keyboard_key_numlck
    ∷ keyboard_key_scrlck ∷ keyboard_key_home ∷ keyboard_key_up ∷ keyboard_key_pgup ∷ 45
    ∷ keyboard_key_left ∷ keyboard_key_unknown ∷ keyboard_key_right ∷ 43 ∷ keyboard_key_end
    ∷ keyboard_key_down ∷ keyboard_key_pgdown ∷ keyboard_key_ins ∷ keyboard_key_del
    ∷ keyboard_key_unknown ∷ keyboard_key_unknown ∷ keyboard_key_unknown ∷ keyboard_key_f11
    ∷ keyboard_key_f12 ∷ keyboard_key_unknown ∷ keyboard_key_unknown ∷ keyboard_key_unknown
    ∷ keyboard_key_unknown ∷ keyboard_key_unknown ∷ keyboard_key_unknown ∷ keyboard_key_unknown
    ∷ keyboard_key_unknown ∷ keyboard_key_unknown ∷ keyboard_key_unknown ∷ keyboard_key_unknown
    ∷ keyboard_key_unknown ∷ keyboard_key_unknown ∷ keyboard_key_unknown ∷ keyboard_key_unknown
    ∷ keyboard_key_unknown ∷ keyboard_key_unknown ∷ keyboard_key_unknown ∷ keyboard_key_unknown
    ∷ keyboard_key_unknown ∷ keyboard_key_unknown ∷ keyboard_key_unknown ∷ keyboard_key_unknown
    ∷ keyboard_key_unknown ∷ keyboard_key_unknown ∷ keyboard_key_unknown ∷ keyboard_key_unknown
    ∷ keyboard_key_unknown ∷ keyboard_key_unknown ∷ keyboard_key_unknown ∷ keyboard_key_unknown
    ∷ keyboard_key_unknown ∷ keyboard_key_unknown ∷ keyboard_key_unknown ∷ keyboard_key_unknown
    ∷ keyboard_key_unknown ∷ keyboard_key_unknown ∷ keyboard_key_unknown ∷ keyboard_key_unknown ∷ []
