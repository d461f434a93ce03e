-- ===== src/Libc/Stdio/Printf/Literals.antt =====
-- Literal text in the output of `vprintf`.
use cho_os.Prelude.{
  ℕ, zero, suc, ◌+◌, ◌≤◌, ◌<◌, ◌≡◌, refl, ap, sym, ◌∙◌, subst, Option, none, some, ◌==◌, arith,
  Bool-cases, inl, inr, List, [], ◌∷◌, ◌++◌, length, take, drop, map,
}
use mathlib.Core.List.{append_assoc}
use cho_os.Libc.Bytes.{Bytes, bytes_at}
use cho_os.Libc.Stdio.Printf.{Printer, Outcome, int_max, literal}
use cho_os.Libc.Stdio.Printf.Reference.{Arg, raw, plain, prefixed, render}
use cho_os.Libc.Stdio.Printf.Text.{
  IsText, literal_run, literal_run-le, literal_from-text, bytes_at-take, IsText-drop,
}
use cho_os.Libc.Stdio.Printf.Rendered.{Stage, Prints}
use cho_os.Libc.Stdio.Printf.Directives.{Loop, piece}

prefixed-nil : (o : Option (List ℕ)) → o ≡ prefixed [] o
prefixed-nil none = refl
prefixed-nil (some ys) = refl

prefixed-prefixed :
    (xs ys : List ℕ) (o : Option (List ℕ)) → prefixed xs (prefixed ys o) ≡ prefixed (xs ++ ys) o
prefixed-prefixed xs ys none = refl
prefixed-prefixed xs ys (some zs) = ap some (sym (append_assoc xs ys zs))

-- Literal text is what a format begins with.
render-run :
    (cs : List ℕ) (args : List Arg)
    → render plain cs args
      ≡ prefixed (take (literal_run cs) cs) (render plain (drop (literal_run cs) cs) args)
unfolding render
render-run [] args = refl
render-run (c ∷ cs) args = elim (Bool-cases (c == 37)) [
  | inl sign ↦
      let none_run : literal_run (c ∷ cs) ≡ 0 = rw sign refl in
      prefixed-nil (render plain (c ∷ cs) args)
      ∙ sym (ap (λ n. prefixed (take n (c ∷ cs)) (render plain (drop n (c ∷ cs)) args)) none_run)
  | inr other ↦
      rw (render, other)
        (ap (prefixed (c ∷ [])) (render-run cs args) ∙ prefixed-prefixed (c ∷ []) _ _)
]

length-drop : (n : ℕ) (cs : List ℕ) → n ≤ length cs → n + length (drop n cs) ≡ length cs
length-drop zero cs h = omega arith
length-drop (suc n) [] h = absurd (omega arith)
length-drop (suc n) (c ∷ cs) h = omega (arith, length-drop n cs (omega arith))

-- what stands behind the first character
pub tail :
    {S : Type 0} (put : ℕ → S → S) (buffer limit : ℕ) (m : Bytes) (f f' c : ℕ) (cs : List ℕ)
    (args : List Arg)
    → f + 1 ≡ f'
    → Stage put buffer limit m f (c ∷ cs) args
    → Stage put buffer limit m f' cs args
tail put buffer limit m f f' c cs args e st = record {
  text = subst (λ q. IsText m q cs) e st.text.2;
  apart = ground (arith, st.apart);
  short = omega (arith, st.short);
  held = st.held;
}

module _ {S : Type 0} (put : ℕ → S → S) (buffer limit : ℕ) where
  pub literal_piece :
      (next : ℕ → List ℕ → Printer S → Outcome S) (n : ℕ)
      → Loop put buffer limit next n
      → (format d : ℕ) (cs : List ℕ) (args : List Arg) (p : Printer S) (out : List ℕ)
      → length cs < n
      → Stage put buffer limit p.memory format (d ∷ cs) args
      → prefixed (d ∷ []) (render plain cs args) ≡ some out
      → p.written + length out ≤ int_max
      → Prints put buffer limit p out
          (literal put buffer limit (λ f. next f (map raw args)) format p)
  unfolding literal
  literal_piece next n loop format d cs args p out less st r room =
      let k = literal_run cs in
      let le = literal_run-le cs in
      let len = length-drop k cs le in
      let run : bytes_at (1 + k) format p.memory ≡ d ∷ take k cs =
        ap (λ j. bytes_at j format p.memory) (omega arith)
        ∙ bytes_at-take format (suc k) p.memory (d ∷ cs) st.text (omega (arith, le)) in
      let st' : Stage put buffer limit p.memory (format + (1 + k)) (drop k cs) args = record {
        text =
            subst (λ q. IsText p.memory q (drop k cs)) (omega arith)
              (IsText-drop format (suc k) p.memory (d ∷ cs) st.text (omega (arith, le)));
        apart = ground (arith, st.apart, len);
        short = omega (arith, st.short, len);
        held = st.held;
      } in
      let r' : prefixed (d ∷ take k cs) (render plain (drop k cs) args) ≡ some out =
        sym (prefixed-prefixed (d ∷ []) (take k cs) _)
        ∙ sym (ap (prefixed (d ∷ [])) (render-run cs args))
        ∙ r in
      rw
        (
          literal,
          literal_from-text limit format 1 p.memory cs st.text.2 (omega (arith, st.short)),
          run,
        )
        (piece put buffer limit next n loop (d ∷ take k cs) (format + (1 + k)) (drop k cs) args p
          out (omega (arith, less, len)) st' r' room)
