-- ===== src/Interrupts/Idt/Gates.antt =====
-- Where the interrupt gates lead.
use cho_os.Prelude.{
  ℕ, zero, suc, ◌+◌, ◌-◌, ◌*◌, ◌/◌, ◌%◌, ◌^◌, ◌<◌, ◌≡◌, refl, ap, sym, ◌∙◌, subst, true, false, ltb,
  leb, ◌&&◌, ◌||◌, ◌==◌, if◌then◌else◌, arith, Bool-cases, inl, inr, Option, none, some,
}
use cho_os.Interrupts.Gdt.{gdt_offset_kernel_code}
use cho_os.Interrupts.Idt.{
  IdtEntry, Idt, zero_gate, idt_gate_set, set_gates, init_pics, init_pit, idt_init,
}

-- A gate to this address in the kernel's code segment: present, an interrupt gate of 32 bits, open to
-- level 3.
pub record LeadsTo (e : IdtEntry) (address : ℕ) : Type 0 where
  pub offset : e.base_low + e.base_high * 2 ^ 16 ≡ address
  pub segment : e.sel ≡ 8
  pub kind : e.flags ≡ 0xEE
  pub reserved : e.always0 ≡ 0

-- The address that a vector has, if it has one.
abbrev pub stub_of : (ℕ → ℕ) → (ℕ → ℕ) → ℕ → Option ℕ
stub_of isr irq v =
    if ltb v 32
    then some (isr v)
    else if ltb v 48
    then some (irq (v - 32))
    else if (v == 128) || (v == 177)
    then some (isr v)
    else none

abbrev pub IsGate : IdtEntry → Option ℕ → Type 0
IsGate e none = e ≡ zero_gate
IsGate e (some address) = LeadsTo e address

-- what `idt_gate_set` puts into an entry
abbrev gate : ℕ → IdtEntry
gate base = record {
  base_low = base % 2 ^ 16;
  base_high = base / 2 ^ 16 % 2 ^ 16;
  sel = gdt_offset_kernel_code;
  always0 = 0;
  flags = 0xEE;
}

gate-LeadsTo : (base : ℕ) → base < 2 ^ 32 → LeadsTo (gate base) base
gate-LeadsTo base small = record {
  offset = omega arith;
  segment = refl;
  kind = refl;
  reserved = refl;
}

set_gates_lem :
    {S : Type 0} (n first : ℕ) (stub : ℕ → ℕ) (s : Idt S) (v : ℕ)
    → (set_gates n first stub s).entries v
      ≡ (if leb first v && ltb v (first + n) then gate (stub v) else s.entries v)
unfolding set_gates idt_gate_set
set_gates_lem zero first stub s v =
    let out : (leb first v && ltb v (first + 0)) ≡ false = ground arith in rw out refl
set_gates_lem (suc n) first stub s v =
    set_gates_lem n (first + 1) stub _ v ∙ elim (Bool-cases (v == first)) [
      | inl here ↦
          let e : v ≡ first = ground arith in
          let past : (leb (first + 1) v && ltb v (first + 1 + n)) ≡ false = ground arith in
          let inside : (leb first v && ltb v (first + suc n)) ≡ true = ground arith in
          rw (past, inside, here) (ap (λ a. gate (stub a)) (sym e))
      | inr there ↦
          let same : (leb (first + 1) v && ltb v (first + 1 + n))
              ≡ (leb first v && ltb v (first + suc n)) =
            ground arith in
          rw (same, there) refl
    ]

-- the entries after `idt_init`, one range of vectors after the other
entries_lem :
    {S : Type 0} (table : ℕ) (isr irq : ℕ → ℕ) (s : Idt S) (v : ℕ)
    → (idt_init table isr irq s).entries v ≡ (
        if leb 177 v && ltb v 178
        then gate (isr v)
        else if leb 128 v && ltb v 129
        then gate (isr v)
        else if leb 32 v && ltb v 48
        then gate (irq (v - 32))
        else if ltb v 32
        then gate (isr v)
        else zero_gate)
unfolding idt_init init_pics init_pit
entries_lem {S = S} table isr irq s v =
    let s0 : Idt S =
      init_pics (record s { limit = 2047; base = table; entries = λ i. zero_gate }) in
    let s1 = set_gates 32 0 isr s0 in
    let s2 = set_gates 16 32 (λ k. irq (k - 32)) s1 in
    let low : leb 0 v ≡ true = ground arith in
    let call2 = set_gates_lem 1 177 isr (set_gates 1 128 isr s2) v in
    let call1 = set_gates_lem 1 128 isr s2 v in
    let lines = set_gates_lem 16 32 (λ k. irq (k - 32)) s1 v in
    let exceptions = set_gates_lem 32 0 isr s0 v in rw (call2, call1, lines, exceptions, low) refl

-- After `idt_init`, with stubs below 2^32, vectors 0 to 31 lead to the exception stubs, 32 to 47 to
-- those of the sixteen interrupt lines, 128 and 177 to the two system calls, all in the kernel's code
-- segment and open to level 3, and no other vector has a gate.
pub idt_init-Gates :
    {S : Type 0} (table : ℕ) (isr irq : ℕ → ℕ) (s : Idt S) (v : ℕ)
    → ((k : ℕ) → isr k < 2 ^ 32)
    → ((k : ℕ) → irq k < 2 ^ 32)
    → IsGate ((idt_init table isr irq s).entries v) (stub_of isr irq v)
unfolding idt_init init_pics init_pit
idt_init-Gates table isr irq s v small_isr small_irq =
    subst (λ e. IsGate e (stub_of isr irq v)) (sym (entries_lem table isr irq s v))
      (elim (Bool-cases (ltb v 32)) [
        | inl low ↦
            let past : (leb 177 v && ltb v 178) ≡ false = ground arith in
            let past1 : (leb 128 v && ltb v 129) ≡ false = ground arith in
            let past2 : (leb 32 v && ltb v 48) ≡ false = ground arith in
            rw (past, past1, past2, low) (gate-LeadsTo (isr v) (small_isr v))
        | inr high ↦ elim (Bool-cases (ltb v 48)) [
          | inl line ↦
              let past : (leb 177 v && ltb v 178) ≡ false = ground arith in
              let past1 : (leb 128 v && ltb v 129) ≡ false = ground arith in
              let inside : (leb 32 v && ltb v 48) ≡ true = ground arith in
              rw (past, past1, inside, high, line)
                (gate-LeadsTo (irq (v - 32)) (small_irq (v - 32)))
          | inr above ↦
              let past2 : (leb 32 v && ltb v 48) ≡ false = ground arith in
              elim (Bool-cases (v == 177)) [
                | inl last ↦
                    let call2 : (leb 177 v && ltb v 178) ≡ true = ground arith in
                    let other : (v == 128) ≡ false = ground arith in
                    rw (high, above, call2, other, last) (gate-LeadsTo (isr v) (small_isr v))
                | inr no_last ↦
                    let call2 : (leb 177 v && ltb v 178) ≡ false = ground arith in
                    elim (Bool-cases (v == 128)) [
                      | inl first ↦
                          let call1 : (leb 128 v && ltb v 129) ≡ true = ground arith in
                          rw (high, above, call2, call1, first) (gate-LeadsTo (isr v) (small_isr v))
                      | inr no_first ↦
                          let call1 : (leb 128 v && ltb v 129) ≡ false = ground arith in
                          rw (call2, call1, past2, high, above, no_last, no_first) refl
                    ]
              ]
        ]
      ])
