-- ===== src/Console/Scancodes.antt =====
-- The scan codes of keyboard.h.
use cho_os.Prelude.{ℕ, List, [], ◌∷◌}

-- `enum PS2ScancodeSet1`
pub data Ps2ScancodeSet1 : Type 0 where
  sc_esc sc_1 sc_2 sc_3 sc_4 sc_5 sc_6 sc_7 sc_8 sc_9 sc_0 sc_minus sc_equals sc_backspace sc_tab
        sc_q sc_w sc_e sc_r sc_t sc_y sc_u sc_i sc_o sc_p sc_lbracket sc_rbracket sc_enter sc_lctrl
        sc_a sc_s sc_d sc_f sc_g sc_h sc_j sc_k sc_l sc_semicolon sc_apostrophe sc_grave sc_lshift
        sc_backslash sc_z sc_x sc_c sc_v sc_b sc_n sc_m sc_comma sc_period sc_slash sc_rshift
        sc_keypad_star sc_lalt sc_space sc_caps_lock sc_f1 sc_f2 sc_f3 sc_f4 sc_f5 sc_f6 sc_f7 sc_f8
        sc_f9 sc_f10 sc_num_lock sc_scroll_lock sc_keypad_7 sc_keypad_8 sc_keypad_9 sc_keypad_minus
        sc_keypad_4 sc_keypad_5 sc_keypad_6 sc_keypad_plus sc_keypad_1 sc_keypad_2 sc_keypad_3
        sc_keypad_0 sc_keypad_dot sc_f11 sc_f12 :
      Ps2ScancodeSet1

-- the value of each
abbrev pub make_code : Ps2ScancodeSet1 → ℕ
make_code sc_esc = 0x01
make_code sc_1 = 0x02
make_code sc_2 = 0x03
make_code sc_3 = 0x04
make_code sc_4 = 0x05
make_code sc_5 = 0x06
make_code sc_6 = 0x07
make_code sc_7 = 0x08
make_code sc_8 = 0x09
make_code sc_9 = 0x0A
make_code sc_0 = 0x0B
make_code sc_minus = 0x0C
make_code sc_equals = 0x0D
make_code sc_backspace = 0x0E
make_code sc_tab = 0x0F
make_code sc_q = 0x10
make_code sc_w = 0x11
make_code sc_e = 0x12
make_code sc_r = 0x13
make_code sc_t = 0x14
make_code sc_y = 0x15
make_code sc_u = 0x16
make_code sc_i = 0x17
make_code sc_o = 0x18
make_code sc_p = 0x19
make_code sc_lbracket = 0x1A
make_code sc_rbracket = 0x1B
make_code sc_enter = 0x1C
make_code sc_lctrl = 0x1D
make_code sc_a = 0x1E
make_code sc_s = 0x1F
make_code sc_d = 0x20
make_code sc_f = 0x21
make_code sc_g = 0x22
make_code sc_h = 0x23
make_code sc_j = 0x24
make_code sc_k = 0x25
make_code sc_l = 0x26
make_code sc_semicolon = 0x27
make_code sc_apostrophe = 0x28
make_code sc_grave = 0x29
make_code sc_lshift = 0x2A
make_code sc_backslash = 0x2B
make_code sc_z = 0x2C
make_code sc_x = 0x2D
make_code sc_c = 0x2E
make_code sc_v = 0x2F
make_code sc_b = 0x30
make_code sc_n = 0x31
make_code sc_m = 0x32
make_code sc_comma = 0x33
make_code sc_period = 0x34
make_code sc_slash = 0x35
make_code sc_rshift = 0x36
make_code sc_keypad_star = 0x37
make_code sc_lalt = 0x38
make_code sc_space = 0x39
make_code sc_caps_lock = 0x3A
make_code sc_f1 = 0x3B
make_code sc_f2 = 0x3C
make_code sc_f3 = 0x3D
make_code sc_f4 = 0x3E
make_code sc_f5 = 0x3F
make_code sc_f6 = 0x40
make_code sc_f7 = 0x41
make_code sc_f8 = 0x42
make_code sc_f9 = 0x43
make_code sc_f10 = 0x44
make_code sc_num_lock = 0x45
make_code sc_scroll_lock = 0x46
make_code sc_keypad_7 = 0x47
make_code sc_keypad_8 = 0x48
make_code sc_keypad_9 = 0x49
make_code sc_keypad_minus = 0x4A
make_code sc_keypad_4 = 0x4B
make_code sc_keypad_5 = 0x4C
make_code sc_keypad_6 = 0x4D
make_code sc_keypad_plus = 0x4E
make_code sc_keypad_1 = 0x4F
make_code sc_keypad_2 = 0x50
make_code sc_keypad_3 = 0x51
make_code sc_keypad_0 = 0x52
make_code sc_keypad_dot = 0x53
make_code sc_f11 = 0x57
make_code sc_f12 = 0x58

abbrev pub all_keys : List Ps2ScancodeSet1
all_keys =
    sc_esc ∷ sc_1 ∷ sc_2 ∷ sc_3 ∷ sc_4 ∷ sc_5 ∷ sc_6 ∷ sc_7 ∷ sc_8 ∷ sc_9 ∷ sc_0 ∷ sc_minus
    ∷ sc_equals ∷ sc_backspace ∷ sc_tab ∷ sc_q ∷ sc_w ∷ sc_e ∷ sc_r ∷ sc_t ∷ sc_y ∷ sc_u ∷ sc_i
    ∷ sc_o ∷ sc_p ∷ sc_lbracket ∷ sc_rbracket ∷ sc_enter ∷ sc_lctrl ∷ sc_a ∷ sc_s ∷ sc_d ∷ sc_f
    ∷ sc_g ∷ sc_h ∷ sc_j ∷ sc_k ∷ sc_l ∷ sc_semicolon ∷ sc_apostrophe ∷ sc_grave ∷ sc_lshift
    ∷ sc_backslash ∷ sc_z ∷ sc_x ∷ sc_c ∷ sc_v ∷ sc_b ∷ sc_n ∷ sc_m ∷ sc_comma ∷ sc_period
    ∷ sc_slash ∷ sc_rshift ∷ sc_keypad_star ∷ sc_lalt ∷ sc_space ∷ sc_caps_lock ∷ sc_f1 ∷ sc_f2
    ∷ sc_f3 ∷ sc_f4 ∷ sc_f5 ∷ sc_f6 ∷ sc_f7 ∷ sc_f8 ∷ sc_f9 ∷ sc_f10 ∷ sc_num_lock ∷ sc_scroll_lock
    ∷ sc_keypad_7 ∷ sc_keypad_8 ∷ sc_keypad_9 ∷ sc_keypad_minus ∷ sc_keypad_4 ∷ sc_keypad_5
    ∷ sc_keypad_6 ∷ sc_keypad_plus ∷ sc_keypad_1 ∷ sc_keypad_2 ∷ sc_keypad_3 ∷ sc_keypad_0
    ∷ sc_keypad_dot ∷ sc_f11 ∷ sc_f12 ∷ []
