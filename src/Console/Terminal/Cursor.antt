-- ===== src/Console/Terminal/Cursor.antt =====
-- Where the cursor goes.
use cho_os.Prelude.{ℕ, ◌≤◌, ◌<◌, ◌≡◌, ◌==◌, arith, List, [], ◌∷◌, true, Bool-cases, inl, inr, ◌≢◌}
use cho_os.Libc.Bytes.{u8}
use cho_os.Console.Terminal.{
  Terminal, terminal_putchar, terminal_write, make_room, newline, put_regular, terminal_putentryat,
  terminal_delete_last_line, terminal_scroll,
}

-- The cursor stands in a column of the screen, and at worst one row below it.
pub record OnScreen (t : Terminal) : Type 0 where
  pub row_bound : t.row ≤ 25
  pub column_bound : t.column < 80

-- No byte of the text is a backspace.
unfoldable pub NoBackspace : List ℕ → Type 0
NoBackspace [] = true ≡ true
NoBackspace (c ∷ text) = (u8 c ≢ 8) × NoBackspace text

make_room-row : (t : Terminal) → t.row ≤ 25 → (make_room t).row ≤ 24
unfolding make_room terminal_delete_last_line terminal_scroll
make_room-row t h = ground arith

make_room-column : (t : Terminal) → (make_room t).column ≡ t.column
unfolding make_room terminal_delete_last_line terminal_scroll
make_room-column t = ground arith

newline-OnScreen : (t : Terminal) → t.row ≤ 24 → OnScreen (newline t)
unfolding newline
newline-OnScreen t h = record { row_bound = ground arith; column_bound = omega arith }

put_regular-OnScreen :
    (uc : ℕ) (t : Terminal) → t.row ≤ 24 → t.column < 80 → OnScreen (put_regular uc t)
unfolding put_regular terminal_putentryat
put_regular-OnScreen uc t h k = record { row_bound = ground arith; column_bound = ground arith }

terminal_putchar-OnScreen :
    (c : ℕ) (t : Terminal) → u8 c ≢ 8 → OnScreen t → OnScreen (terminal_putchar c t)
unfolding terminal_putchar
terminal_putchar-OnScreen c t ne on = elim (Bool-cases (u8 c == 10)) [
  | inl e ↦ rw e (newline-OnScreen (make_room t) (make_room-row t on.row_bound))
  | inr e ↦ elim (Bool-cases (u8 c == 8)) [
    | inl f ↦ absurd (ne (ground arith))
    | inr f ↦
        rw (e, f)
          (put_regular-OnScreen (u8 c) (make_room t) (make_room-row t on.row_bound)
            (omega (arith, make_room-column t, on.column_bound)))
  ]
]

-- From a cursor on the screen, a write of any length whose bytes hold no backspace ends with the
-- cursor on the screen: the row is at most 25, where the next character scrolls, and the column is
-- less than 80.
pub terminal_write-OnScreen :
    (text : List ℕ) (t : Terminal)
    → NoBackspace text
    → OnScreen t
    → OnScreen (terminal_write text t)
unfolding terminal_write NoBackspace
terminal_write-OnScreen [] t clean on = on
terminal_write-OnScreen (c ∷ text) t clean on =
    terminal_write-OnScreen text (terminal_putchar c t) clean.1
      (terminal_putchar-OnScreen c t clean.0 on)
