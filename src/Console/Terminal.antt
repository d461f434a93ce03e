-- ===== src/Console/Terminal.antt =====
-- kernel/arch/i386/tty.c: the text terminal in VGA memory. The video memory is part of the
-- byte-addressed memory, two bytes to a cell, low byte first.
pub mod Screen
pub mod Cursor
use cho_os.Prelude.{
  ℕ, zero, suc, ◌+◌, ◌-◌, ◌*◌, ◌/◌, ◌%◌, ◌^◌, ◌==◌, if◌then◌else◌, List, [], ◌∷◌, Option, none,
  some, bit_or, add32, sub32, mul32,
}
use cho_os.Libc.Bytes.{Bytes, u8, store, bytes_at}
use cho_os.Libc.Strings.{memcpy, strlen}

abbrev pub vga_buffer_addr : ℕ
vga_buffer_addr = 0xC00B_8000

abbrev pub vga_width : ℕ
vga_width = 80

abbrev pub vga_height : ℕ
vga_height = 25

abbrev pub vga_color_light_grey : ℕ
vga_color_light_grey = 7

abbrev pub vga_color_black : ℕ
vga_color_black = 0

pub vga_entry_color : ℕ → ℕ → ℕ
vga_entry_color fg bg = u8 (bit_or fg (bg * 2 ^ 4))

pub vga_entry : ℕ → ℕ → ℕ
vga_entry uc color = bit_or (u8 uc) (u8 color * 2 ^ 8) % 2 ^ 16

-- `terminal_buffer` is VGA_MEMORY from `tty_init` on.
pub record Terminal : Type 0 where
  pub row : ℕ
  pub column : ℕ
  pub color : ℕ
  pub memory : Bytes

-- `VGA_MEMORY[index] = v`: the address wraps with the address space.
pub put_cell : Bytes → ℕ → ℕ → Bytes
put_cell m index v =
    let p = add32 vga_buffer_addr (2 * index) in store (store m p (u8 v)) (p + 1) (v / 2 ^ 8)

unfoldable pub terminal_putentryat : ℕ → ℕ → ℕ → ℕ → Terminal → Terminal
unfolding put_cell
terminal_putentryat c color x y t = record t {
  memory = put_cell t.memory (add32 (mul32 y vga_width) x) (vga_entry c color);
}

-- the two loops of `tty_init`: `n` cells left from `index` on
unfoldable pub clear_from : ℕ → ℕ → ℕ → Bytes → Bytes
unfolding put_cell
clear_from zero index v m = m
clear_from (suc n) index v m = clear_from n (index + 1) v (put_cell m index v)

unfoldable pub tty_init : Terminal → Terminal
unfolding clear_from
tty_init t =
    let color = vga_entry_color vga_color_light_grey vga_color_black in
    record {
      row = 0;
      column = 0;
      color = color;
      memory = clear_from (vga_height * vga_width) 0 (vga_entry 32 color) t.memory;
    }

pub terminal_setcolor : ℕ → Terminal → Terminal
terminal_setcolor color t = record t { color = u8 color }

unfoldable pub terminal_scroll : Terminal → Terminal
terminal_scroll t = record t {
  memory =
      memcpy vga_buffer_addr (vga_buffer_addr + 2 * vga_width) ((vga_height - 1) * vga_width * 2)
        t.memory;
}

unfoldable pub terminal_delete_last_line : Terminal → Terminal
unfolding clear_from
terminal_delete_last_line t = record t {
  memory = clear_from vga_width (vga_width * (vga_height - 1)) 0 t.memory;
}

-- the guard at the head of `terminal_putchar`
unfoldable pub make_room : Terminal → Terminal
unfolding terminal_scroll terminal_delete_last_line
make_room t =
    let cleared = terminal_delete_last_line (terminal_scroll t) in
    if t.row == vga_height then record cleared { row = vga_height - 1 } else t

pub newline : Terminal → Terminal
newline t = record t { column = 0; row = add32 t.row 1 }

-- the case '\b'
unfoldable pub backspace : Terminal → Terminal
unfolding terminal_putentryat
backspace t =
    let moved =
      if t.column == 0
      then record t { row = sub32 t.row 1; column = vga_width }
      else record t { column = sub32 t.column 1 } in
    terminal_putentryat 32 moved.color moved.column moved.row moved

-- the default case
unfoldable pub put_regular : ℕ → Terminal → Terminal
unfolding terminal_putentryat
put_regular uc t =
    let drawn = terminal_putentryat uc t.color t.column t.row t in
    let column = add32 t.column 1 in
    if column == vga_width
    then record drawn { column = 0; row = add32 t.row 1 }
    else record drawn { column = column }

unfoldable pub terminal_putchar : ℕ → Terminal → Terminal
unfolding make_room newline backspace put_regular
terminal_putchar c t =
    let room = make_room t in
    if u8 c == 10
    then newline room
    else if u8 c == 8
    then backspace room
    else put_regular (u8 c) room

unfoldable pub terminal_write : List ℕ → Terminal → Terminal
unfolding terminal_putchar
terminal_write [] t = t
terminal_write (c ∷ text) t = terminal_write text (terminal_putchar c t)

-- The string does not lie in the video memory, so its bytes are those from before the write.
-- `strlen` takes the fuel.
unfoldable pub terminal_writestring : ℕ → ℕ → Terminal → Option Terminal
unfolding terminal_write bytes_at
terminal_writestring fuel str t = elim (strlen fuel str t.memory) [
  | none ↦ none
  | some len ↦ some (terminal_write (bytes_at len str t.memory) t)
]
