-- ===== src/Libc/Stdio/Printf/Output.antt =====
-- The directives of `vprintf`, told apart by their letters.
use cho_os.Prelude.{
  ℕ, ◌+◌, ◌^◌, ◌≤◌, ◌<◌, ◌≡◌, refl, ap, sym, ◌∙◌, subst, false, some, ◌==◌, if◌then◌else◌, arith,
  Bool-cases, inl, inr, List, [], ◌∷◌, length, map,
}
use cho_os.Libc.Stdio.Numbers.{utoa, ulltoa, lltoa, itoa}
use cho_os.Libc.Stdio.Numbers.Digits.{digits}
use cho_os.Libc.Stdio.Printf.{Printer, Outcome, int_max, append_rest, long_directive, directive}
use cho_os.Libc.Stdio.Printf.Reference.{
  Arg, raw, percent, long, long_long, is_word, is_int, is_long, signed_digits, render,
}
use cho_os.Libc.Stdio.Printf.Rendered.{Stage, Prints}
use cho_os.Libc.Stdio.Printf.Directives.{Loop, numeric, string_piece, char_piece, rest_piece}
use cho_os.Libc.Stdio.Printf.Conversions.{
  Leaves, utoa-Leaves, ulltoa-Leaves, lltoa-Leaves, itoa-Leaves,
}
use cho_os.Libc.Stdio.Printf.Literals.{tail}

module _ {S : Type 0} (put : ℕ → S → S) (buffer limit : ℕ) where
  long_piece :
      (next : ℕ → List ℕ → Printer S → Outcome S) (n : ℕ)
      → Loop put buffer limit next n
      → 64 < limit
      → (format : ℕ) (cs : List ℕ) (args : List Arg) (p : Printer S) (out : List ℕ) → length cs < n
      → Stage put buffer limit p.memory format cs args
      → render long_long cs args ≡ some out
      → p.written + length out ≤ int_max
      → Prints put buffer limit p out (long_directive put buffer limit next format (map raw args) p)
  unfolding long_directive render Loop Leaves
  long_piece next n loop deep format [] args p out less st r room =
      rw (long_directive, st.text) (loop format [] args p out less st r room)
  long_piece next n loop deep format (c ∷ cs) args p out less st r room =
      let rest = tail put buffer limit p.memory format (format + 1) c cs args refl st in
      let shorter : length cs < n = omega (arith, less) in
      elim (Bool-cases (c == b'u')) [
        | inl h1 ↦
            rw (long_directive, st.text.0, h1)
              (numeric put buffer limit next n loop is_long (digits 64 10)
                (λ a m. ulltoa 64 a buffer 10 m) deep (ulltoa-Leaves buffer) (format + 1) cs args p
                out shorter rest (rw h1 at r) room)
        | inr h1 ↦ elim (Bool-cases (c == b'd')) [
          | inl h2 ↦
              rw (long_directive, st.text.0, h1, h2)
                (numeric put buffer limit next n loop is_long (signed_digits (2 ^ 63))
                  (λ a m. lltoa 64 a buffer 10 m) deep (lltoa-Leaves buffer) (format + 1) cs args p
                  out shorter rest (rw (h1, h2) at r) room)
          | inr h2 ↦
              rw (long_directive, st.text.0, h1, h2)
                (loop format (c ∷ cs) args p out less st (rw (h1, h2) at r) room)
        ]
      ]

  -- a directive that is unknown, printed with all that follows
  whole_rest :
      (next : ℕ → List ℕ → Printer S → Outcome S) (n : ℕ)
      → Loop put buffer limit next n
      → (format : ℕ) (cs : List ℕ) (args : List Arg) (p : Printer S) (out : List ℕ) → 0 < n
      → Stage put buffer limit p.memory format cs args
      → some cs ≡ some out
      → p.written + length out ≤ int_max
      → Prints put buffer limit p out
          (append_rest put buffer limit (λ f. next f (map raw args)) format p)
  whole_rest next n loop format cs args p out some_fuel st r room =
      let same : cs ≡ out = cc r in
      subst
        (λ o.
          Prints put buffer limit p o
            (append_rest put buffer limit (λ f. next f (map raw args)) format p))
        same
        (rest_piece put buffer limit next n loop format cs args p some_fuel st
          (subst (λ (o : List ℕ). p.written + length o ≤ int_max) (sym same) room))

  -- what follows `%l`
  long_word :
      (next : ℕ → List ℕ → Printer S → Outcome S) (n : ℕ)
      → Loop put buffer limit next n
      → 64 < limit
      → (format c : ℕ) (cs : List ℕ) (args : List Arg) (p : Printer S) (out : List ℕ)
      → length cs < n
      → c ≡ b'l'
      → Stage put buffer limit p.memory format (37 ∷ c ∷ cs) args
      → render long cs args ≡ some out
      → p.written + length out ≤ int_max
      → Prints put buffer limit p out (
          if p.memory (format + 2) == b'l'
          then long_directive put buffer limit next (format + 3) (map raw args) p
          else append_rest put buffer limit (λ f. next f (map raw args)) format p)
  unfolding render
  long_word next n loop deep format c [] args p out less el st r room =
      let e : p.memory (format + 2) ≡ 0 = ap p.memory (omega arith) ∙ st.text.2.2 in
      rw e (
        whole_rest next n loop format (37 ∷ c ∷ []) args p out (omega arith) st
          (ap (λ x. some (37 ∷ x ∷ [])) el ∙ r) room)
  long_word next n loop deep format c (d ∷ cs) args p out less el st r room =
      let e : p.memory (format + 2) ≡ d = ap p.memory (omega arith) ∙ st.text.2.2.0 in
      let rest1 = tail put buffer limit p.memory format (format + 1) 37 (c ∷ d ∷ cs) args refl st in
      let rest2 =
        tail put buffer limit p.memory (format + 1) (format + 2) c (d ∷ cs) args (omega arith)
          rest1 in
      let rest =
        tail put buffer limit p.memory (format + 2) (format + 3) d cs args (omega arith) rest2 in
      elim (Bool-cases (d == b'l')) [
        | inl h ↦
            rw (e, h)
              (long_piece next n loop deep (format + 3) cs args p out (omega (arith, less)) rest
                (rw h at r) room)
        | inr h ↦
            rw (e, h)
              (whole_rest next n loop format (37 ∷ c ∷ d ∷ cs) args p out (omega arith) st
                (ap (λ x. some (37 ∷ x ∷ d ∷ cs)) el ∙ rw h at r) room)
      ]

  -- a directive from its second character on
  pub directive_piece :
      (next : ℕ → List ℕ → Printer S → Outcome S) (n : ℕ)
      → Loop put buffer limit next n
      → 64 < limit
      → 0 < buffer
      → (format : ℕ) (cs : List ℕ) (args : List Arg) (p : Printer S) (out : List ℕ) → length cs ≤ n
      → 0 < n
      → (p.memory (format + 1) == 37) ≡ false
      → Stage put buffer limit p.memory format (37 ∷ cs) args
      → render percent cs args ≡ some out
      → p.written + length out ≤ int_max
      → Prints put buffer limit p out (directive put buffer limit next format (map raw args) p)
  unfolding directive render Leaves
  directive_piece next n loop deep pos format [] args p out less some_fuel other st r room =
      let e : p.memory (format + 1) ≡ 0 = st.text.2 in
      rw (directive, e) (whole_rest next n loop format (37 ∷ []) args p out some_fuel st r room)
  directive_piece next n loop deep pos format (c ∷ cs) args p out le some_fuel other st r room =
      let e : p.memory (format + 1) ≡ c = st.text.2.0 in
      let less : length cs < n = omega (arith, le) in
      let sign : (c == 37) ≡ false = ground (arith, e, other) in
      let rest1 = tail put buffer limit p.memory format (format + 1) 37 (c ∷ cs) args refl st in
      let rest =
        tail put buffer limit p.memory (format + 1) (format + 2) c cs args (omega arith) rest1 in
      elim (Bool-cases (c == b'c')) [
        | inl h_c ↦
            rw (directive, e, h_c)
              (char_piece put buffer limit next n loop (format + 2) cs args p out less rest
                (rw (sign, h_c) at r) room)
        | inr h_c ↦ elim (Bool-cases (c == b's')) [
          | inl h_s ↦
              rw (directive, e, h_c, h_s)
                (string_piece put buffer limit next n loop (format + 2) cs args p out less rest
                  (rw (sign, h_c, h_s) at r) room)
          | inr h_s ↦ elim (Bool-cases (c == b'd')) [
            | inl h_d ↦
                rw (directive, e, h_c, h_s, h_d)
                  (numeric put buffer limit next n loop is_int (signed_digits (2 ^ 31))
                    (λ a m. itoa 65 a buffer 10 m) deep (itoa-Leaves buffer pos) (format + 2) cs
                    args p out less rest (rw (sign, h_c, h_s, h_d) at r) room)
            | inr h_d ↦ elim (Bool-cases (c == b'u')) [
              | inl h_u ↦
                  rw (directive, e, h_c, h_s, h_d, h_u)
                    (numeric put buffer limit next n loop is_word (digits 64 10)
                      (λ a m. utoa 64 a buffer 10 m) deep
                      (utoa-Leaves buffer 10 (omega arith) (omega arith)) (format + 2) cs args p out
                      less rest (rw (sign, h_c, h_s, h_d, h_u) at r) room)
              | inr h_u ↦ elim (Bool-cases (c == b'x')) [
                | inl h_x ↦
                    rw (directive, e, h_c, h_s, h_d, h_u, h_x)
                      (numeric put buffer limit next n loop is_word (digits 64 16)
                        (λ a m. utoa 64 a buffer 16 m) deep
                        (utoa-Leaves buffer 16 (omega arith) (omega arith)) (format + 2) cs args p
                        out less rest (rw (sign, h_c, h_s, h_d, h_u, h_x) at r) room)
                | inr h_x ↦ elim (Bool-cases (c == b'l')) [
                  | inl h_l ↦
                      rw (directive, e, h_c, h_s, h_d, h_u, h_x, h_l)
                        (long_word next n loop deep format c cs args p out less (ground arith) st
                          (rw (sign, h_c, h_s, h_d, h_u, h_x, h_l) at r) room)
                  | inr h_l ↦
                      let whole : some (37 ∷ c ∷ cs) ≡ some out =
                        rw (sign, h_c, h_s, h_d, h_u, h_x, h_l) at r in
                      rw (directive, e, h_c, h_s, h_d, h_u, h_x, h_l)
                        (whole_rest next n loop format (37 ∷ c ∷ cs) args p out some_fuel st whole
                          room)
                ]
              ]
            ]
          ]
        ]
      ]
