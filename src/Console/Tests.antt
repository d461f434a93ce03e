-- ===== src/Console/Tests.antt =====
-- The console at concrete inputs.
use cho_os.Prelude.{◌≡◌, refl, false, [], ◌∷◌, some, arith}
use cho_os.Console.Terminal.{Terminal, terminal_write}
use cho_os.Console.Terminal.Cursor.{OnScreen, NoBackspace, terminal_write-OnScreen}
use cho_os.Console.Keyboard.{Keyboard, interrupts}
use cho_os.Console.Keyboard.Modifiers.{Flags, last_of, is_ctrl, is_shift, is_alt, interrupts-Flags}

-- the end of the last row
abbrev corner : Terminal
corner = record { row = 24; column = 79; color = 7; memory = λ a. 1 }

abbrev margin : Terminal
margin = record { row = 3; column = 0; color = 7; memory = λ a. 1 }

abbrev keys : Keyboard
keys = record {
  ctrl_pressed = false;
  shift_pressed = false;
  alt_pressed = false;
  terminal = margin;
}

letters-NoBackspace : NoBackspace (65 ∷ 66 ∷ 10 ∷ [])
unfolding NoBackspace
letters-NoBackspace =
    ((λ e. ground (arith, e)), ((λ e. ground (arith, e)), ((λ e. ground (arith, e)), refl)))

terminal_write-OnScreen_example : OnScreen (terminal_write (65 ∷ 66 ∷ 10 ∷ []) corner)
terminal_write-OnScreen_example =
    terminal_write-OnScreen (65 ∷ 66 ∷ 10 ∷ []) corner letters-NoBackspace
      (record { row_bound = omega arith; column_bound = omega arith })

-- left shift down, `a` down and up, right shift down and up
interrupts-Flags_example :
    (k' : Keyboard) × (interrupts (0x2A ∷ 0x1E ∷ 0x9E ∷ 0x36 ∷ 0xB6 ∷ []) keys ≡ some k')
    × Flags k'
        (last_of is_ctrl (0x2A ∷ 0x1E ∷ 0x9E ∷ 0x36 ∷ 0xB6 ∷ []) false)
        (last_of is_shift (0x2A ∷ 0x1E ∷ 0x9E ∷ 0x36 ∷ 0xB6 ∷ []) false)
        (last_of is_alt (0x2A ∷ 0x1E ∷ 0x9E ∷ 0x36 ∷ 0xB6 ∷ []) false)
interrupts-Flags_example = interrupts-Flags (0x2A ∷ 0x1E ∷ 0x9E ∷ 0x36 ∷ 0xB6 ∷ []) keys
