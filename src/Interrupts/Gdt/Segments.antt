-- ===== src/Interrupts/Gdt/Segments.antt =====
-- What the processor reads from the segment descriptors.
use cho_os.Prelude.{ℕ, ◌+◌, ◌-◌, ◌*◌, ◌/◌, ◌%◌, ◌^◌, ◌<◌, ◌≡◌, refl, if◌then◌else◌, arith, leb}
use cho_os.Interrupts.Gdt.{GdtEntry, Gdt, gdt_gate_set, tss_write, gdt_init, tss_size}

-- The fields of a descriptor, put together: the highest bit of the flags scales the limit.
abbrev pub segment_base : GdtEntry → ℕ
segment_base e = e.base_low + e.base_middle * 2 ^ 16 + e.base_high * 2 ^ 24

abbrev pub segment_limit : GdtEntry → ℕ
segment_limit e =
    let limit = e.limit + e.flags % 2 ^ 4 * 2 ^ 16 in
    if leb 0x80 e.flags then limit * 2 ^ 12 + (2 ^ 12 - 1) else limit

-- the privilege level that may use the segment
abbrev pub privilege : GdtEntry → ℕ
privilege e = e.access / 2 ^ 5 % 2 ^ 2

-- A segment of all 4 GiB, for a privilege level.
pub record IsFlat (e : GdtEntry) (level : ℕ) : Type 0 where
  pub base : segment_base e ≡ 0
  pub limit : segment_limit e ≡ 2 ^ 32 - 1
  pub level_is : privilege e ≡ level

-- After `gdt_init` the null descriptor is zero, the code and data segments of the kernel and of the
-- user reach over all 4 GiB for levels 0 and 3, and the last descriptor puts together to the address
-- of the task state segment and its size less one; the entries behind them are as before.
pub gdt_init-Segments :
    (table tss : ℕ) (s : Gdt)
    → tss < 2 ^ 32
    → let e = (gdt_init table tss s).entries in
      ((e 0).access ≡ 0)
      × IsFlat (e 1) 0
      × IsFlat (e 2) 0
      × IsFlat (e 3) 3
      × IsFlat (e 4) 3
      × (segment_base (e 5) ≡ tss)
      × (segment_limit (e 5) ≡ tss_size - 1)
      × ((k : ℕ) → 5 < k → e k ≡ s.entries k)
unfolding gdt_init tss_write gdt_gate_set
gdt_init-Segments table tss s small = (
  refl,
  record { base = refl; limit = refl; level_is = refl },
  record { base = refl; limit = refl; level_is = refl },
  record { base = refl; limit = refl; level_is = refl },
  record { base = refl; limit = refl; level_is = refl },
  omega arith,
  refl,
  λ k h. ground arith,
)
