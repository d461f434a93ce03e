-- ===== src/Libc/Stdio/Printf/Rendered.antt =====
-- The pieces that `vprintf` prints, one after the other.
use cho_os.Prelude.{
  ℕ, ◌+◌, ◌-◌, ◌≤◌, ◌<◌, ◌≡◌, refl, ap, sym, ◌∙◌, false, Option, none, some, ltb, arith, List, [],
  ◌∷◌, ◌++◌, length, length-append,
}
use cho_os.Libc.Bytes.{Bytes}
use cho_os.Libc.Strings.Copy.{within, Apart}
use cho_os.Libc.Stdio.Numbers.Reversed.{Spelled}
use cho_os.Libc.Stdio.Printf.{
  Printer, Outcome, done, ◌>>=◌, int_max, print, append, append_string, append_number,
}
use cho_os.Libc.Stdio.Printf.Reference.{Arg, number, string, prefixed}
use cho_os.Libc.Stdio.Printf.Text.{
  IsText, NoNul, IsText-of, IsText-same, strlen-text, bytes_at-text,
}

pub prefixed-inv :
    (xs : List ℕ) (o : Option (List ℕ)) (out : List ℕ)
    → prefixed xs o ≡ some out
    → (ys : List ℕ) × (o ≡ some ys) × (out ≡ xs ++ ys)
prefixed-inv xs none out h = absurd (cc h)
prefixed-inv xs (some ys) out h = (ys, refl, cc h)

print-append :
    {S : Type 0} (put : ℕ → S → S) (xs ys : List ℕ) (s : S)
    → print put (xs ++ ys) s ≡ print put ys (print put xs s)
unfolding print
print-append put [] ys s = refl
print-append put (x ∷ xs) ys s = print-append put xs ys (put x s)

module _ {S : Type 0} (put : ℕ → S → S) (buffer limit : ℕ) where
  -- Outside the local buffer the memories agree.
  unfoldable pub Agrees : Bytes → Bytes → Type 0
  Agrees m m' = (a : ℕ) → within buffer 65 a ≡ false → m' a ≡ m a

  -- the strings among the arguments are in memory, apart from the buffer
  unfoldable pub ArgsHeld : Bytes → List Arg → Type 0
  ArgsHeld m [] = Unit
  ArgsHeld m (number a ∷ args) = ArgsHeld m args
  ArgsHeld m (string p cs ∷ args) =
      IsText m p cs × Apart p (length cs + 1) buffer 65 × (length cs < limit) × ArgsHeld m args

  -- what is left of the format and of the arguments
  pub record Stage (m : Bytes) (format : ℕ) (cs : List ℕ) (args : List Arg) : Type 0 where
    pub text : IsText m format cs
    pub apart : Apart format (length cs + 1) buffer 65
    pub short : length cs < limit
    pub held : ArgsHeld m args

  -- The call has printed the text, and that is all it did but for the buffer.
  unfoldable pub Prints : Printer S → List ℕ → Outcome S → Type 0
  Prints p out o =
      (p' : Printer S) × (o ≡ done p')
      × (p'.sink ≡ print put out p.sink)
      × (p'.written ≡ p.written + length out)
      × Agrees p.memory p'.memory

  ArgsHeld-Agrees :
      (m m' : Bytes) (args : List Arg) → Agrees m m' → ArgsHeld m args → ArgsHeld m' args
  unfolding ArgsHeld Agrees
  ArgsHeld-Agrees m m' [] same h = tt
  ArgsHeld-Agrees m m' (number a ∷ args) same h = ArgsHeld-Agrees m m' args same h
  ArgsHeld-Agrees m m' (string p cs ∷ args) same h = (
    IsText-same m m' p cs (λ a lo hi. same a (ground (arith, h.1))) h.0,
    h.1,
    h.2,
    ArgsHeld-Agrees m m' args same h.3,
  )

  pub Stage-Agrees :
      (m m' : Bytes) (format : ℕ) (cs : List ℕ) (args : List Arg)
      → Agrees m m'
      → Stage m format cs args
      → Stage m' format cs args
  unfolding Agrees
  Stage-Agrees m m' format cs args same st = record {
    text = IsText-same m m' format cs (λ a lo hi. same a (ground (arith, st.apart))) st.text;
    apart = st.apart;
    short = st.short;
    held = ArgsHeld-Agrees m m' args same st.held;
  }

  append-fits :
      (xs : List ℕ) (p : Printer S)
      → p.written + length xs ≤ int_max
      → append put buffer limit xs p
        ≡ done (record p { written = p.written + length xs; sink = print put xs p.sink })
  unfolding append
  append-fits xs p h =
      let room : ltb (int_max - p.written) (length xs) ≡ false = ground arith in rw room refl

  -- a text, and then what the rest prints
  pub then_Prints :
      (xs ys : List ℕ) (p : Printer S) (next : Printer S → Outcome S)
      → p.written + length (xs ++ ys) ≤ int_max
      → ((p1 : Printer S)
          → Agrees p.memory p1.memory
          → p1.written + length ys ≤ int_max
          → Prints p1 ys (next p1))
      → Prints p (xs ++ ys) (append put buffer limit xs p >>= next)
  unfolding Prints Agrees
  then_Prints xs ys p next room rest =
      let p1 = record p { written = p.written + length xs; sink = print put xs p.sink } in
      let count = length-append xs ys in
      let (p', e, s, w, same) = rest p1 (λ a out. refl) (omega (arith, room, count)) in
      (
        p',
        ap (λ o. o >>= next) (append-fits xs p (omega (arith, room, count))) ∙ e,
        s ∙ sym (print-append put xs ys p.sink),
        omega (arith, w, count),
        same,
      )

  -- the bytes from a string on, up to its end
  pub append_string-text :
      (str : ℕ) (xs : List ℕ) (p : Printer S)
      → IsText p.memory str xs
      → length xs < limit
      → append_string put buffer limit str p ≡ append put buffer limit xs p
  unfolding append_string
  append_string-text str xs p text short =
      rw
        (
          append_string,
          strlen-text limit str p.memory xs text short,
          bytes_at-text str p.memory xs text,
        )
        refl

  -- a conversion that leaves a text in the buffer
  pub then_number :
      (conv : Option Bytes) (m : Bytes) (xs ys : List ℕ) (p : Printer S)
      (next : Printer S → Outcome S)
      → conv ≡ some m
      → Spelled p.memory buffer xs m
      → NoNul xs
      → length xs ≤ 64
      → 64 < limit
      → p.written + length (xs ++ ys) ≤ int_max
      → ((p1 : Printer S)
          → Agrees p.memory p1.memory
          → p1.written + length ys ≤ int_max
          → Prints p1 ys (next p1))
      → Prints p (xs ++ ys) (append_number put buffer limit conv p >>= next)
  unfolding append_number Agrees Prints
  then_number conv m xs ys p next e spelled nonul short deep room rest =
      let p1 = record p { memory = m } in
      let text = IsText-of m buffer xs spelled.holds nonul spelled.ended in
      let kept : Agrees p.memory m = (λ a out. spelled.others a (ground (arith, short, out))) in
      let (p', f, s, w, same) =
        then_Prints xs ys p1 next room
          (λ p2 agrees fits. rest p2 (λ a out. agrees a out ∙ kept a out) fits) in
      (
        p',
        rw (e, append_number, append_string-text buffer xs p1 text (omega arith)) f,
        s,
        w,
        λ a out. same a out ∙ kept a out,
      )
