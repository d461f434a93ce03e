-- ===== src/Console/Coverage.antt =====
-- The tables of keyboard.c against the scan codes of keyboard.h.
use cho_os.Prelude.{
  ℕ, ◌<◌, ◌≡◌, refl, Bool, true, false, not, ◌&&◌, ◌||◌, List, [], ◌∷◌, ◌==◌, get_or, all_below,
  all_below_lem,
}
use cho_os.Console.Keys.{lowercase, uppercase, keyboard_key_unknown}
use cho_os.Console.Scancodes.{Ps2ScancodeSet1, make_code, all_keys, sc_keypad_5}

-- the table has an entry for the code
abbrev pub known : List ℕ → ℕ → Bool
known table code = not (get_or table code keyboard_key_unknown == keyboard_key_unknown)

abbrev pub listed : ℕ → List Ps2ScancodeSet1 → Bool
listed code [] = false
listed code (k ∷ ks) = (code == make_code k) || listed code ks

abbrev pub iff : Bool → Bool → Bool
iff true b = b
iff false b = not b

-- Among the codes below 128, each of the two tables has an entry for exactly those that the
-- enumeration gives to a key, keypad 5 apart.
pub known-eq-listed :
    (code : ℕ)
    → code < 128
    → iff (known lowercase code) (listed code all_keys && not (code == make_code sc_keypad_5))
        && iff (known uppercase code) (listed code all_keys && not (code == make_code sc_keypad_5))
      ≡ true
unfolding all_below
known-eq-listed =
    all_below_lem 128
      (λ code.
        iff (known lowercase code) (listed code all_keys && not (code == make_code sc_keypad_5))
        && iff (known uppercase code) (listed code all_keys && not (code == make_code sc_keypad_5)))
      refl
