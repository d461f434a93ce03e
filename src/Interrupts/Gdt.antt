-- ===== src/Interrupts/Gdt.antt =====
-- kernel/arch/i386/gdt/gdt.c and gdt.h: segment descriptors and the task state segment.
pub mod Segments
use cho_os.Prelude.{ℕ, ◌+◌, ◌-◌, ◌*◌, ◌/◌, ◌%◌, ◌^◌, ◌==◌, if◌then◌else◌}

abbrev pub gdt_offset_kernel_code : ℕ
gdt_offset_kernel_code = 0x08

abbrev pub gdt_sel_kdata : ℕ
gdt_sel_kdata = 0x10

pub record GdtEntry : Type 0 where
  pub limit : ℕ
  pub base_low : ℕ
  pub base_middle : ℕ
  pub access : ℕ
  pub flags : ℕ
  pub base_high : ℕ

-- The fields of the task state segment that are not zero.
pub record TssEntry : Type 0 where
  pub ss0 : ℕ
  pub esp0 : ℕ
  pub cs : ℕ
  pub ss : ℕ
  pub ds : ℕ
  pub es : ℕ
  pub fs : ℕ
  pub gs : ℕ

pub record Gdt : Type 0 where
  pub entries : ℕ → GdtEntry
  pub limit : ℕ
  pub base : ℕ
  pub tss : TssEntry

-- The two halves of `flags` have no bit in common, so that `|=` adds them.
unfoldable pub gdt_gate_set : ℕ → ℕ → ℕ → ℕ → ℕ → Gdt → Gdt
gdt_gate_set num base limit access gran s =
    let entry : GdtEntry = record {
      limit = limit % 2 ^ 16;
      base_low = base % 2 ^ 16;
      base_middle = base / 2 ^ 16 % 2 ^ 8;
      access = access;
      flags = limit / 2 ^ 16 % 2 ^ 4 + gran / 2 ^ 4 % 2 ^ 4 * 2 ^ 4;
      base_high = base / 2 ^ 24 % 2 ^ 8;
    } in
    record s { entries = λ i. if i == num then entry else s.entries i }

-- the size of `struct TssEntry`, 27 words
abbrev pub tss_size : ℕ
tss_size = 108

-- `tss_entry` lies at the address `tss`; the selectors are joined with RPL_USER_RING3 by `|`.
unfoldable pub tss_write : ℕ → ℕ → ℕ → ℕ → Gdt → Gdt
unfolding gdt_gate_set
tss_write tss num ss0 esp0 s =
    let data_selector = gdt_sel_kdata + 3 in
    let s1 = gdt_gate_set num tss (tss_size - 1) 0xE9 0x0 s in
    record s1 {
      tss = record {
        ss0 = ss0;
        esp0 = esp0;
        cs = gdt_offset_kernel_code + 3;
        ss = data_selector;
        ds = data_selector;
        es = data_selector;
        fs = data_selector;
        gs = data_selector;
      };
    }

-- `gdt_entries` lies at the address `table`.
unfoldable pub gdt_init : ℕ → ℕ → Gdt → Gdt
unfolding gdt_gate_set tss_write
gdt_init table tss s =
    let s0 = record s { limit = 6 * 8 - 1; base = table } in
    let s1 = gdt_gate_set 0 0 0 0 0 s0 in
    let s2 = gdt_gate_set 1 0 0xFFFF_FFFF 0x9A 0xCF s1 in
    let s3 = gdt_gate_set 2 0 0xFFFF_FFFF 0x92 0xCF s2 in
    let s4 = gdt_gate_set 3 0 0xFFFF_FFFF 0xFA 0xCF s3 in
    let s5 = gdt_gate_set 4 0 0xFFFF_FFFF 0xF2 0xCF s4 in tss_write tss 5 gdt_sel_kdata 0x0 s5
