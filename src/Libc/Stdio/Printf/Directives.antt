-- ===== src/Libc/Stdio/Printf/Directives.antt =====
-- Each directive of `vprintf`, and literal text, print what `render` says, where the loop prints what
-- is left.
use cho_os.Prelude.{
  ℕ, ◌+◌, ◌≤◌, ◌<◌, ◌≡◌, refl, ap, sym, subst, Bool, true, Option, some, arith, Bool-cases, inl,
  inr, List, [], ◌∷◌, length, drop, map,
}
use mathlib.Core.List.{append-nil}
use cho_os.Libc.Bytes.{Bytes, u8}
use cho_os.Libc.Stdio.Numbers.Reversed.{Spelled}
use cho_os.Libc.Stdio.Printf.{
  Printer, Outcome, ◌>>=◌, with_arg, int_max, append, append_string, append_number, append_rest,
}
use cho_os.Libc.Stdio.Printf.Reference.{
  Arg, number, string, raw, plain, prefixed, with_number, with_string, is_word, render,
}
use cho_os.Libc.Stdio.Printf.Text.{IsText, NoNul, strlen-text, bytes_at-text, IsText-drop}
use cho_os.Libc.Stdio.Printf.Rendered.{
  Agrees, ArgsHeld, Stage, Prints, Stage-Agrees, then_Prints, then_number, prefixed-inv,
  append_string-text,
}

drop_all : (cs : List ℕ) → drop (length cs) cs ≡ []
drop_all [] = refl
drop_all (c ∷ cs) = drop_all cs

module _ {S : Type 0} (put : ℕ → S → S) (buffer limit : ℕ) where
  -- The loop prints what a format of fewer than `n` characters asks for.
  unfoldable pub Loop : (ℕ → List ℕ → Printer S → Outcome S) → ℕ → Type 0
  Loop next n =
      (format : ℕ) (cs : List ℕ) (args : List Arg) (p : Printer S) (out : List ℕ)
      → length cs < n
      → Stage put buffer limit p.memory format cs args
      → render plain cs args ≡ some out
      → p.written + length out ≤ int_max
      → Prints put buffer limit p out (next format (map raw args) p)

  -- the same from a printer further on
  pub go_on :
      (next : ℕ → List ℕ → Printer S → Outcome S) (n : ℕ)
      → Loop next n
      → (format : ℕ) (cs : List ℕ) (args : List Arg) (p : Printer S) (ys : List ℕ) → length cs < n
      → Stage put buffer limit p.memory format cs args
      → render plain cs args ≡ some ys
      → (p1 : Printer S) → Agrees put buffer limit p.memory p1.memory
      → p1.written + length ys ≤ int_max
      → Prints put buffer limit p1 ys (next format (map raw args) p1)
  unfolding Loop
  go_on next n loop format cs args p ys less st e p1 same fits =
      loop format cs args p1 ys less
        (Stage-Agrees put buffer limit p.memory p1.memory format cs args same st) e fits

  -- a piece of text, and then the loop
  pub piece :
      (next : ℕ → List ℕ → Printer S → Outcome S) (n : ℕ)
      → Loop next n
      → (xs : List ℕ) (format : ℕ) (cs : List ℕ) (args : List Arg) (p : Printer S) (out : List ℕ)
      → length cs < n
      → Stage put buffer limit p.memory format cs args
      → prefixed xs (render plain cs args) ≡ some out
      → p.written + length out ≤ int_max
      → Prints put buffer limit p out (append put buffer limit xs p >>= next format (map raw args))
  piece next n loop xs format cs args p out less st r room =
      let (ys, e, w) = prefixed-inv xs (render plain cs args) out r in
      subst
        (λ o.
          Prints put buffer limit p o (append put buffer limit xs p >>= next format (map raw args)))
        (sym w)
        (then_Prints put buffer limit xs ys p (next format (map raw args))
          (subst (λ (o : List ℕ). p.written + length o ≤ int_max) w room)
          (go_on next n loop format cs args p ys less st e))

  -- a number directive, by what its conversion leaves
  pub numeric :
      (next : ℕ → List ℕ → Printer S → Outcome S) (n : ℕ)
      → Loop next n
      → (ok : ℕ → Bool) (text : ℕ → List ℕ) (conv : ℕ → Bytes → Option Bytes) → 64 < limit
      → ((a : ℕ) (m : Bytes)
          → ok a ≡ true
          → (m' : Bytes) × (conv a m ≡ some m')
            × Spelled m buffer (text a) m'
            × NoNul (text a)
            × (length (text a) ≤ 64))
      → (format : ℕ) (cs : List ℕ) (args : List Arg) (p : Printer S) (out : List ℕ) → length cs < n
      → Stage put buffer limit p.memory format cs args
      → with_number ok text (render plain cs) args ≡ some out
      → p.written + length out ≤ int_max
      → Prints put buffer limit p out (
          with_arg
            (map raw args)
            (λ a rest. append_number put buffer limit (conv a p.memory) p >>= next format rest))
  unfolding ArgsHeld
  numeric next n loop ok text conv deep works format cs [] p out less st r room = absurd (cc r)
  numeric next n loop ok text conv deep works format cs (string q xs ∷ args) p out less st r room =
      absurd (cc r)
  numeric next n loop ok text conv deep works format cs (number a ∷ args) p out less st r room =
      elim (Bool-cases (ok a)) [
        | inr wrong ↦ absurd (cc (rw wrong at r))
        | inl right ↦
            let (ys, e, w) = prefixed-inv (text a) (render plain cs args) out (rw right at r) in
            let (m, c, spelled, nonul, short) = works a p.memory right in
            let st' : Stage put buffer limit p.memory format cs args = record {
              text = st.text;
              apart = st.apart;
              short = st.short;
              held = st.held;
            } in
            subst
              (λ o.
                Prints put buffer limit p o (
                  append_number put buffer limit (conv a p.memory) p
                  >>= next format (map raw args)))
              (sym w)
              (then_number put buffer limit (conv a p.memory) m (text a) ys p
                (next format (map raw args)) c spelled nonul short deep
                (subst (λ (o : List ℕ). p.written + length o ≤ int_max) w room)
                (go_on next n loop format cs args p ys less st' e))
      ]

  -- `%s`
  pub string_piece :
      (next : ℕ → List ℕ → Printer S → Outcome S) (n : ℕ)
      → Loop next n
      → (format : ℕ) (cs : List ℕ) (args : List Arg) (p : Printer S) (out : List ℕ) → length cs < n
      → Stage put buffer limit p.memory format cs args
      → with_string (render plain cs) args ≡ some out
      → p.written + length out ≤ int_max
      → Prints put buffer limit p out (
          with_arg
            (map raw args)
            (λ a rest. append_string put buffer limit a p >>= next format rest))
  unfolding ArgsHeld
  string_piece next n loop format cs [] p out less st r room = absurd (cc r)
  string_piece next n loop format cs (number a ∷ args) p out less st r room = absurd (cc r)
  string_piece next n loop format cs (string q xs ∷ args) p out less st r room =
      let st' : Stage put buffer limit p.memory format cs args = record {
        text = st.text;
        apart = st.apart;
        short = st.short;
        held = st.held.3;
      } in
      subst (λ o. Prints put buffer limit p out (o >>= next format (map raw args)))
        (sym (append_string-text put buffer limit q xs p st.held.0 st.held.2))
        (piece next n loop xs format cs args p out less st' r room)

  -- `%c`
  pub char_piece :
      (next : ℕ → List ℕ → Printer S → Outcome S) (n : ℕ)
      → Loop next n
      → (format : ℕ) (cs : List ℕ) (args : List Arg) (p : Printer S) (out : List ℕ) → length cs < n
      → Stage put buffer limit p.memory format cs args
      → with_number is_word (λ a. u8 a ∷ []) (render plain cs) args ≡ some out
      → p.written + length out ≤ int_max
      → Prints put buffer limit p out (
          with_arg
            (map raw args)
            (λ a rest. append put buffer limit (u8 a ∷ []) p >>= next format rest))
  unfolding ArgsHeld
  char_piece next n loop format cs [] p out less st r room = absurd (cc r)
  char_piece next n loop format cs (string q xs ∷ args) p out less st r room = absurd (cc r)
  char_piece next n loop format cs (number a ∷ args) p out less st r room =
      elim (Bool-cases (is_word a)) [
        | inr wrong ↦ absurd (cc (rw wrong at r))
        | inl right ↦
            let st' : Stage put buffer limit p.memory format cs args = record {
              text = st.text;
              apart = st.apart;
              short = st.short;
              held = st.held;
            } in
            piece next n loop (u8 a ∷ []) format cs args p out less st' (rw right at r) room
      ]

  -- a directive that `vprintf` does not know, and all that follows it
  pub rest_piece :
      (next : ℕ → List ℕ → Printer S → Outcome S) (n : ℕ)
      → Loop next n
      → (format : ℕ) (cs : List ℕ) (args : List Arg) (p : Printer S) → 0 < n
      → Stage put buffer limit p.memory format cs args
      → p.written + length cs ≤ int_max
      → Prints put buffer limit p cs
          (append_rest put buffer limit (λ f. next f (map raw args)) format p)
  unfolding append_rest render
  rest_piece next n loop format cs args p pos st room =
      let ended : IsText p.memory (format + length cs) [] =
        subst (IsText p.memory (format + length cs)) (drop_all cs)
          (IsText-drop format (length cs) p.memory cs st.text (omega arith)) in
      let st' : Stage put buffer limit p.memory (format + length cs) [] args = record {
        text = ended;
        apart = ground (arith, st.apart);
        short = omega (arith, st.short);
        held = st.held;
      } in
      let whole : prefixed cs (render plain [] args) ≡ some cs = ap some (append-nil cs) in
      rw
        (
          append_rest,
          strlen-text limit format p.memory cs st.text st.short,
          bytes_at-text format p.memory cs st.text,
        )
        (piece next n loop cs (format + length cs) [] args p cs pos st' whole room)
