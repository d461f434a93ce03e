-- ===== src/Console/Terminal/Screen.antt =====
-- What scrolling does to the video memory.
use cho_os.Prelude.{
  ℕ, zero, suc, ◌+◌, ◌-◌, ◌*◌, ◌≤◌, ◌≡◌, refl, if◌then◌else◌, ◌&&◌, arith, true, false, ◌∙◌, ap,
  Bool,
}
use cho_os.Libc.Bytes.{Bytes}
use cho_os.Libc.Strings.Copy.{within, memcpy-eq-memmove, memmove_lem}
use cho_os.Console.Terminal.{
  vga_buffer_addr, Terminal, put_cell, clear_from, terminal_scroll, terminal_delete_last_line,
}

put_cell_zero :
    (m : Bytes) (i a : ℕ)
    → i ≤ 2000
    → put_cell m i 0 a ≡ (if within (vga_buffer_addr + 2 * i) 2 a then 0 else m a)
unfolding put_cell
put_cell_zero m i a h = ground arith

clear_from_zero :
    (n i : ℕ) (m : Bytes) (a : ℕ)
    → i + n ≤ 2000
    → clear_from n i 0 m a ≡ (if within (vga_buffer_addr + 2 * i) (2 * n) a then 0 else m a)
unfolding clear_from
clear_from_zero zero i m a h = ground arith
clear_from_zero (suc n) i m a h = ground (
  arith,
  clear_from_zero n (i + 1) (put_cell m i 0) a (omega arith),
  put_cell_zero m i a (omega arith),
)

scroll_bytes :
    (t : Terminal) (a : ℕ)
    → (terminal_scroll t).memory a ≡ (
        if within vga_buffer_addr 3840 a
        then t.memory (vga_buffer_addr + 160 + (a - vga_buffer_addr))
        else t.memory a)
unfolding terminal_scroll
scroll_bytes t a =
    memcpy-eq-memmove vga_buffer_addr (vga_buffer_addr + 160) 3840 t.memory (omega arith) a
    ∙ memmove_lem vga_buffer_addr (vga_buffer_addr + 160) 3840 t.memory a

if-swap :
    (b c : Bool) (x y z : ℕ)
    → (b && c) ≡ false
    → (if c then x else if b then y else z) ≡ (if b then y else if c then x else z)
if-swap true true x y z h = absurd (ground (arith, h))
if-swap true false x y z h = refl
if-swap false true x y z h = refl
if-swap false false x y z h = refl

lines_apart :
    (a : ℕ) → (within vga_buffer_addr 3840 a && within (vga_buffer_addr + 3840) 160 a) ≡ false
lines_apart a = ground arith

-- Scrolling and deleting the last line move every row of the screen up by one, the first one out, and
-- leave the last row zero; no byte outside the screen changes. (The copy overlaps itself.)
pub scroll_lem :
    (t : Terminal) (a : ℕ)
    → (terminal_delete_last_line (terminal_scroll t)).memory a ≡ (
        if within vga_buffer_addr 3840 a
        then t.memory (vga_buffer_addr + 160 + (a - vga_buffer_addr))
        else if within (vga_buffer_addr + 3840) 160 a
        then 0
        else t.memory a)
unfolding terminal_delete_last_line
scroll_lem t a =
    clear_from_zero 80 1920 (terminal_scroll t).memory a (omega arith)
    ∙ (ap (λ b. if within (vga_buffer_addr + 3840) 160 a then 0 else b) (scroll_bytes t a)
        ∙ if-swap (within vga_buffer_addr 3840 a) (within (vga_buffer_addr + 3840) 160 a) 0
            (t.memory (vga_buffer_addr + 160 + (a - vga_buffer_addr))) (t.memory a) (lines_apart a))
