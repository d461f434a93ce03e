-- ===== src/Console/Keyboard/Modifiers.antt =====
-- What the handler does with the keys it is sent.
use cho_os.Prelude.{
  ℕ, zero, suc, ◌/◌, ◌%◌, ◌^◌, ◌<◌, ◌≡◌, refl, Bool, true, false, not, some, ◌==◌, if◌then◌else◌,
  get_elem?, List, [], ◌∷◌, ◌||◌, length, arith, Bool-cases, inl, inr, ap, ◌∙◌,
}
use cho_os.Console.Scancodes.{make_code, sc_lctrl, sc_lshift, sc_rshift, sc_lalt}
use cho_os.Console.Keys.{lowercase, uppercase}
use cho_os.Console.Keyboard.{
  Keyboard, update_modifier_keys_state, log_key_press, irq_1_handler, interrupts,
}

get_elem?-some {ℓ} :
    {A : Type ℓ} (xs : List A) (i : ℕ) → i < length xs → (a : A) × (get_elem? xs i ≡ some a)
get_elem?-some [] i h = elim h [ ]
get_elem?-some (x ∷ xs) zero h = (x, refl)
get_elem?-some (x ∷ xs) (suc i) h = get_elem?-some xs i (omega arith)

-- The state of a modifier key after a run of codes, from the state before it: that of the last code
-- for the key, if one stands in the run.
pub last_of : (ℕ → Bool) → List ℕ → Bool → Bool
last_of key [] held = held
last_of key (code ∷ codes) held =
    last_of key codes (if key (code % 2 ^ 7) then code / 2 ^ 7 % 2 == 0 else held)

abbrev pub is_ctrl : ℕ → Bool
is_ctrl c = c == make_code sc_lctrl

abbrev pub is_shift : ℕ → Bool
is_shift c = (c == make_code sc_lshift) || (c == make_code sc_rshift)

abbrev pub is_alt : ℕ → Bool
is_alt c = c == make_code sc_lalt

-- the flags of a keyboard state
pub record Flags (k : Keyboard) (ctrl shift alt : Bool) : Type 0 where
  pub ctrl_flag : k.ctrl_pressed ≡ ctrl
  pub shift_flag : k.shift_pressed ≡ shift
  pub alt_flag : k.alt_pressed ≡ alt

log_key_press-some :
    (scancode : ℕ) (k : Keyboard)
    → scancode < 128
    → (k' : Keyboard) × (log_key_press scancode k ≡ some k')
      × Flags k' k.ctrl_pressed k.shift_pressed k.alt_pressed
unfolding log_key_press
log_key_press-some scancode k h =
    let (key, found) =
      get_elem?-some (if k.shift_pressed then uppercase else lowercase) scancode
        (elim (Bool-cases k.shift_pressed) [
          | inl e ↦ rw e (omega (arith, h))
          | inr e ↦ rw e (omega (arith, h))
        ]) in
    rw (log_key_press, found)
      (_, refl, record { ctrl_flag = refl; shift_flag = refl; alt_flag = refl })

not-not : (b : Bool) → not (not b) ≡ b
not-not true = refl
not-not false = refl

ctrl_alone : (c : ℕ) → is_ctrl c ≡ true → (is_shift c ≡ false) × (is_alt c ≡ false)
ctrl_alone c h = (ground arith, ground arith)

shift_alone : (c : ℕ) → is_shift c ≡ true → is_alt c ≡ false
shift_alone c h = ground arith

-- one interrupt
irq_1_handler-Flags :
    (code : ℕ) (k : Keyboard)
    → (k' : Keyboard) × (irq_1_handler code code k ≡ some k')
      × Flags k'
          (if is_ctrl (code % 2 ^ 7) then code / 2 ^ 7 % 2 == 0 else k.ctrl_pressed)
          (if is_shift (code % 2 ^ 7) then code / 2 ^ 7 % 2 == 0 else k.shift_pressed)
          (if is_alt (code % 2 ^ 7) then code / 2 ^ 7 % 2 == 0 else k.alt_pressed)
unfolding irq_1_handler update_modifier_keys_state
irq_1_handler-Flags code k = elim (Bool-cases (is_ctrl (code % 2 ^ 7))) [
  | inl e ↦
      let p = ctrl_alone (code % 2 ^ 7) e in
      rw (e, p.0, p.1)
        (_, refl, record { ctrl_flag = not-not _; shift_flag = refl; alt_flag = refl })
  | inr e ↦ elim (Bool-cases (is_shift (code % 2 ^ 7))) [
    | inl f ↦
        let p = shift_alone (code % 2 ^ 7) f in
        rw (e, f, p) (_, refl, record { ctrl_flag = refl; shift_flag = not-not _; alt_flag = refl })
    | inr f ↦ elim (Bool-cases (is_alt (code % 2 ^ 7))) [
      | inl g ↦
          rw (e, f, g)
            (_, refl, record { ctrl_flag = refl; shift_flag = refl; alt_flag = not-not _ })
      | inr g ↦ rw (e, f, g) (log_key_press-some (code % 2 ^ 7) k (omega arith))
    ]
  ]
]

-- On any run of scan codes, each seen by both reads of its interrupt, the handler looks no key up
-- outside its tables, and afterwards each modifier flag is what the last code for that modifier says
-- (pressed, unless the code has the release bit), or what it was before if the run has none. The two
-- shift keys share their flag.
pub interrupts-Flags :
    (codes : List ℕ) (k : Keyboard)
    → (k' : Keyboard) × (interrupts codes k ≡ some k')
      × Flags k'
          (last_of is_ctrl codes k.ctrl_pressed)
          (last_of is_shift codes k.shift_pressed)
          (last_of is_alt codes k.alt_pressed)
unfolding interrupts last_of
interrupts-Flags [] k = (k, refl, record { ctrl_flag = refl; shift_flag = refl; alt_flag = refl })
interrupts-Flags (code ∷ codes) k =
    let (k1, ran, flags) = irq_1_handler-Flags code k in
    let (k2, rest, more) = interrupts-Flags codes k1 in
    (
      k2,
      rw (interrupts, ran) rest,
      record {
        ctrl_flag = more.ctrl_flag ∙ ap (last_of is_ctrl codes) flags.ctrl_flag;
        shift_flag = more.shift_flag ∙ ap (last_of is_shift codes) flags.shift_flag;
        alt_flag = more.alt_flag ∙ ap (last_of is_alt codes) flags.alt_flag;
      },
    )
