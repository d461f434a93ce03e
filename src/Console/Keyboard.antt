-- ===== src/Console/Keyboard.antt =====
-- kernel/arch/i386/interrupts/keyboard.c, without the branch for DEBUG builds. The handler reads the
-- port twice, so it takes two bytes. `printf("%c", k)` hands the low byte of `k` to the terminal.
pub mod Modifiers
use cho_os.Prelude.{
  ℕ, zero, suc, ◌+◌, ◌*◌, ◌/◌, ◌%◌, ◌^◌, ◌<◌, ◌≡◌, refl, Bool, true, false, not, Option, none, some,
  ◌==◌, if◌then◌else◌, get_elem?, List, [], ◌∷◌, ◌||◌,
}
use cho_os.Libc.Bytes.{u8}
use cho_os.Console.Scancodes.{make_code, sc_lctrl, sc_lshift, sc_rshift, sc_lalt}
use cho_os.Console.Keys.{lowercase, uppercase}
use cho_os.Console.Terminal.{Terminal, terminal_putchar}

pub record Keyboard : Type 0 where
  pub ctrl_pressed : Bool
  pub shift_pressed : Bool
  pub alt_pressed : Bool
  pub terminal : Terminal

pub keyboard_init : Keyboard → Keyboard
keyboard_init k = record k { ctrl_pressed = false; shift_pressed = false; alt_pressed = false }

-- whether the key is a modifier, and the state after it
unfoldable pub update_modifier_keys_state : ℕ → Bool → Keyboard → Bool × Keyboard
update_modifier_keys_state scancode press k =
    if scancode == make_code sc_lctrl
    then (true, record k { ctrl_pressed = not press })
    else if (scancode == make_code sc_lshift) || (scancode == make_code sc_rshift)
    then (true, record k { shift_pressed = not press })
    else if scancode == make_code sc_lalt
    then (true, record k { alt_pressed = not press })
    else (false, k)

-- `none` is a read outside the table.
unfoldable pub log_key_press : ℕ → Keyboard → Option Keyboard
log_key_press scancode k =
    elim (get_elem? (if k.shift_pressed then uppercase else lowercase) scancode) [
      | none ↦ none
      | some key ↦ some (record k { terminal = terminal_putchar (u8 key) k.terminal })
    ]

-- `c & 0x7F` and `c & 0x80` of a byte
unfoldable pub irq_1_handler : ℕ → ℕ → Keyboard → Option Keyboard
unfolding update_modifier_keys_state log_key_press
irq_1_handler first second k =
    let scancode = first % 2 ^ 7 in
    let press = not (second / 2 ^ 7 % 2 == 0) in
    let (is_modifier, k1) = update_modifier_keys_state scancode press k in
    if is_modifier then some k1 else log_key_press scancode k1

-- The interrupts of a run, each with the byte that both reads see.
unfoldable pub interrupts : List ℕ → Keyboard → Option Keyboard
unfolding irq_1_handler
interrupts [] k = some k
interrupts (code ∷ codes) k = elim (irq_1_handler code code k) [
  | none ↦ none
  | some k1 ↦ interrupts codes k1
]
