-- ===== src/Interrupts/Idt.antt =====
-- kernel/arch/i386/interrupts/idt.c and idt.h: the interrupt gates, the interrupt controllers and the
-- routines for the interrupt lines. The addresses of the assembly stubs are `isr` and `irq`.
pub mod Gates
use cho_os.Prelude.{
  ℕ, zero, suc, ◌+◌, ◌-◌, ◌*◌, ◌/◌, ◌%◌, ◌^◌, Bool, ltb, leb, ◌==◌, if◌then◌else◌, List, ◌∷◌,
  bit_or, Option, none, some,
}
use cho_os.Interrupts.Ports.{Ports, outb}
use cho_os.Interrupts.Gdt.{gdt_offset_kernel_code}

pub record IdtEntry : Type 0 where
  pub base_low : ℕ
  pub sel : ℕ
  pub always0 : ℕ
  pub flags : ℕ
  pub base_high : ℕ

-- The globals of idt.c and the ports, with the state `S` of the rest of the kernel.
pub record Idt (S : Type 0) : Type 0 where
  pub entries : ℕ → IdtEntry
  pub limit : ℕ
  pub base : ℕ
  pub routines : ℕ → ℕ
  pub ports : Ports
  pub rest : S

abbrev pub idt_max_descriptors : ℕ
idt_max_descriptors = 256

abbrev pub idt_flag_kernel_interrupt_gate : ℕ
idt_flag_kernel_interrupt_gate = bit_or (bit_or 0x80 0x00) 0x0E

abbrev pub idt_flag_user_access : ℕ
idt_flag_user_access = 0x60

abbrev pub pic1 : ℕ
pic1 = 0x20

abbrev pub pic2 : ℕ
pic2 = 0xA0

abbrev pub pic_eoi : ℕ
pic_eoi = 0x20

abbrev pub pit_ch0_data_port : ℕ
pit_ch0_data_port = 0x40

abbrev pub pit_cmd_reg_port : ℕ
pit_cmd_reg_port = 0x43

abbrev pub zero_gate : IdtEntry
zero_gate = record { base_low = 0; sel = 0; always0 = 0; flags = 0; base_high = 0 }

abbrev pub port_write : {S : Type 0} → ℕ → ℕ → Idt S → Idt S
port_write port value s = record s { ports = outb port value s.ports }

unfoldable pub idt_gate_set : {S : Type 0} → ℕ → ℕ → ℕ → ℕ → Idt S → Idt S
idt_gate_set num base sel flags s =
    let entry : IdtEntry = record {
      base_low = base % 2 ^ 16;
      base_high = base / 2 ^ 16 % 2 ^ 16;
      sel = sel;
      always0 = 0;
      flags = bit_or flags idt_flag_user_access;
    } in
    record s { entries = λ i. if i == num then entry else s.entries i }

-- `n` calls of `idt_gate_set`, for the vectors from `first` on
unfoldable pub set_gates : {S : Type 0} → ℕ → ℕ → (ℕ → ℕ) → Idt S → Idt S
unfolding idt_gate_set
set_gates zero first stub s = s
set_gates (suc n) first stub s =
    set_gates n (first + 1) stub
      (idt_gate_set first (stub first) gdt_offset_kernel_code idt_flag_kernel_interrupt_gate s)

-- the writes that set up the two interrupt controllers
unfoldable pub init_pics : {S : Type 0} → Idt S → Idt S
init_pics s =
    let s1 = port_write pic2 0x11 (port_write pic1 0x11 s) in
    let s2 = port_write (pic2 + 1) 0x28 (port_write (pic1 + 1) 0x20 s1) in
    let s3 = port_write (pic2 + 1) 0x02 (port_write (pic1 + 1) 0x04 s2) in
    let s4 = port_write (pic2 + 1) 0x01 (port_write (pic1 + 1) 0x01 s3) in
    port_write (pic2 + 1) 0x00 (port_write (pic1 + 1) 0x00 s4)

-- and the timer chip
unfoldable pub init_pit : {S : Type 0} → Idt S → Idt S
init_pit s =
    let control_byte = bit_or (bit_or (bit_or 0x00 0x10) 0x06) 0x00 in
    port_write pit_ch0_data_port 0x0
      (port_write pit_ch0_data_port 0x0 (port_write pit_cmd_reg_port control_byte s))

-- `idt_entries` lies at the address `table`.
unfoldable pub idt_init : {S : Type 0} → ℕ → (ℕ → ℕ) → (ℕ → ℕ) → Idt S → Idt S
unfolding idt_gate_set set_gates init_pics init_pit
idt_init table isr irq s =
    let s0 = record s {
      limit = idt_max_descriptors * 8 - 1;
      base = table;
      entries = λ i. zero_gate;
    } in
    let s1 = set_gates 32 0 isr (init_pics s0) in
    let s2 = set_gates 16 32 (λ v. irq (v - 32)) s1 in
    let s3 = set_gates 1 177 isr (set_gates 1 128 isr s2) in init_pit s3

-- `irq` is below 16 where these are called.
unfoldable pub irq_install_handler : {S : Type 0} → ℕ → ℕ → Idt S → Idt S
irq_install_handler irq handler s = record s {
  routines = λ i. if i == irq then handler else s.routines i;
}

unfoldable pub irq_uninstall_handler : {S : Type 0} → ℕ → Idt S → Idt S
irq_uninstall_handler irq s = record s { routines = λ i. if i == irq then 0 else s.routines i }

-- What an exception stops the kernel with: the number of the message.
unfoldable pub isr_handler : ℕ → Option ℕ
isr_handler int_no = if ltb int_no 32 then some int_no else none

-- `run` calls a routine by its address; `int_no` is 32 or more.
unfoldable pub irq_handler : {S : Type 0} → (ℕ → Idt S → Idt S) → ℕ → Idt S → Idt S
irq_handler run int_no s =
    let handler = s.routines (int_no - 32) in
    let s1 = if handler == 0 then s else run handler s in
    let s2 = if leb 40 int_no then port_write pic2 pic_eoi s1 else s1 in port_write pic1 pic_eoi s2
