-- ===== src/Libc/Stdio/Printf/Correct.antt =====
-- `vprintf` prints what its format and arguments ask for.
use cho_os.Prelude.{
  ℕ, zero, suc, ◌+◌, ◌≤◌, ◌<◌, ◌≡◌, refl, ap, sym, ◌∙◌, subst, true, false, some, ◌==◌,
  if◌then◌else◌, arith, Bool-cases, inl, inr, List, [], ◌∷◌, length, map,
}
use cho_os.Libc.Bytes.{Bytes}
use cho_os.Libc.Stdio.Printf.{
  Printer, Outcome, done, int_max, print, directive, literal, vprintf_from, vprintf,
}
use cho_os.Libc.Stdio.Printf.Reference.{Arg, raw, plain, percent, prefixed, render}
use cho_os.Libc.Stdio.Printf.Rendered.{Agrees, Stage, Prints}
use cho_os.Libc.Stdio.Printf.Directives.{Loop}
use cho_os.Libc.Stdio.Printf.Literals.{literal_piece, tail}
use cho_os.Libc.Stdio.Printf.Output.{directive_piece}

module _ {S : Type 0} (put : ℕ → S → S) (buffer limit : ℕ) where
  nothing_left :
      (p : Printer S) (args : List Arg) (out : List ℕ)
      → render plain [] args ≡ some out
      → Prints put buffer limit p out (done p)
  unfolding Prints Agrees render print
  nothing_left p args [] r = (p, refl, refl, omega arith, λ a off. refl)
  nothing_left p args (x ∷ out) r = absurd (cc r)

  -- a percent sign, and what may stand behind it
  percent_piece :
      (next : ℕ → List ℕ → Printer S → Outcome S) (n : ℕ)
      → Loop put buffer limit next n
      → 64 < limit
      → 0 < buffer
      → (format : ℕ) (cs : List ℕ) (args : List Arg) (p : Printer S) (out : List ℕ) → length cs < n
      → Stage put buffer limit p.memory format (37 ∷ cs) args
      → render percent cs args ≡ some out
      → p.written + length out ≤ int_max
      → Prints put buffer limit p out (
          if p.memory (format + 1) == 37
          then literal put buffer limit (λ f. next f (map raw args)) (format + 1) p
          else directive put buffer limit next format (map raw args) p)
  unfolding render
  percent_piece next n loop deep pos format [] args p out less st r room =
      let other : (p.memory (format + 1) == 37) ≡ false = ground (arith, st.text.2) in
      rw other (
        directive_piece put buffer limit next n loop deep pos format [] args p out
          (omega (arith, less)) (omega (arith, less)) other st r room)
  percent_piece next n loop deep pos format (c ∷ cs) args p out less st r room =
      let shorter : length cs < n = omega (arith, less) in
      elim (Bool-cases (c == 37)) [
        | inl sign ↦
            let twice : (p.memory (format + 1) == 37) ≡ true = ground (arith, st.text.2.0) in
            let same : 37 ≡ c = ground arith in
            rw twice (
              literal_piece put buffer limit next n loop (format + 1) c cs args p out shorter
                (tail put buffer limit p.memory format (format + 1) 37 (c ∷ cs) args refl st)
                (ap (λ d. prefixed (d ∷ []) (render plain cs args)) (sym same) ∙ rw sign at r) room)
        | inr h ↦
            let other : (p.memory (format + 1) == 37) ≡ false = ground (arith, st.text.2.0) in
            rw other (
              directive_piece put buffer limit next n loop deep pos format (c ∷ cs) args p out
                (omega (arith, less)) (omega (arith, less)) other st r room)
      ]

  vprintf_from-Loop :
      (fuel : ℕ)
      → 64 < limit
      → 0 < buffer
      → Loop put buffer limit (vprintf_from put buffer limit fuel) fuel
  unfolding Loop vprintf_from render
  vprintf_from-Loop zero deep pos format cs args p out less st r room = absurd (omega arith)
  vprintf_from-Loop (suc fuel) deep pos format [] args p out less st r room =
      rw (vprintf_from, st.text) (nothing_left p args out r)
  vprintf_from-Loop (suc fuel) deep pos format (c ∷ cs) args p out less st r room =
      let ih = vprintf_from-Loop fuel deep pos in
      let going : (p.memory format == 0) ≡ false = ground (arith, st.text.0, st.text.1) in
      let shorter : length cs < fuel = omega (arith, less) in
      elim (Bool-cases (c == 37)) [
        | inl sign ↦
            let same : c ≡ 37 = ground arith in
            let here : (p.memory format == 37) ≡ true = ground (arith, st.text.0) in
            rw (vprintf_from, going, here)
              (percent_piece (vprintf_from put buffer limit fuel) fuel ih deep pos format cs args p
                out shorter
                (subst (λ d. Stage put buffer limit p.memory format (d ∷ cs) args) same st)
                (rw sign at r) room)
        | inr sign ↦
            let here : (p.memory format == 37) ≡ false = ground (arith, st.text.0) in
            rw (vprintf_from, going, here)
              (literal_piece put buffer limit (vprintf_from put buffer limit fuel) fuel ih format c
                cs args p out shorter st (rw sign at r) room)
      ]

  -- `vprintf`, with fuel for each character of its format and for the longest string, ends and does not
  -- run out of arguments, and gives to `putchar` the characters that the format and the arguments ask
  -- for, in order, and counts them; it changes no byte but those of its local buffer. The format and
  -- the strings are in memory apart from that buffer, the output is no longer than INT_MAX, and the
  -- arguments are of the kinds that the directives take, strings and numbers of their width, where the
  -- argument of no `%d` is INT_MIN.
  pub vprintf-Prints :
      (fuel format : ℕ) (cs : List ℕ) (args : List Arg) (m : Bytes) (s : S) (out : List ℕ)
      → length cs < fuel
      → 64 < limit
      → 0 < buffer
      → Stage put buffer limit m format cs args
      → render plain cs args ≡ some out
      → length out ≤ int_max
      → (p : Printer S) × (vprintf put buffer limit fuel format (map raw args) m s ≡ done p)
        × (p.sink ≡ print put out s)
        × (p.written ≡ length out)
        × Agrees put buffer limit m p.memory
  unfolding vprintf Prints Loop
  vprintf-Prints fuel format cs args m s out less deep pos st r room =
      let p0 : Printer S = record { memory = m; written = 0; sink = s } in
      let (p, e, sink, w, same) =
        vprintf_from-Loop fuel deep pos format cs args p0 out less st r (omega (arith, room)) in
      (p, e, sink, omega (arith, w), same)
