-- ===== src/Memory/Brk.antt =====
-- memory_manager/brk.c: `brk` and `sbrk`, which move the end of the heap and map or unmap whole
-- pages below it. Addresses are 32-bit words, and `intptr_t` is read from its bit pattern.
pub mod Grow
use cho_os.Prelude.{
  ℕ, zero, suc, ◌-◌, ◌*◌, ◌/◌, ◌^◌, Bool, true, false, Option, none, some, ltb, leb, ◌==◌,
  if◌then◌else◌, add32, sub32,
}
use cho_os.Memory.Machine.{Env, Machine, page_size, kernel_virt_offset, minus_one, ◌>>=◌}

-- `x & ~(page_size - 1)`
abbrev pub page_floor : ℕ → ℕ
page_floor x = x / page_size * page_size

-- `(x + page_size - 1) & ~(page_size - 1)`
abbrev pub page_ceil : ℕ → ℕ
page_ceil x = page_floor (sub32 (add32 x page_size) 1)

-- `v2p(addr)`
abbrev pub v2p : ℕ → ℕ
v2p addr = sub32 addr kernel_virt_offset

module _ {E : Type 0} (env : Env E) where
  -- The mapping loop of `increment_brk` from `vaddr` on: both ends are page-aligned, so that
  -- `vaddr < new_mapped_top` holds for as many rounds as there are pages between them.
  unfoldable pub map_pages : ℕ → ℕ → E → Bool × E
  map_pages zero vaddr e = (true, e)
  map_pages (suc rounds) vaddr e =
      let (page, e1) = env.pmm_alloc_page e in
      let (res, e2) = env.vmm_page_map page vaddr 3 e1 in
      let rest = map_pages rounds (add32 vaddr page_size) e2 in
      if page == 0
      then (false, e1)
      else if res == 0
      then rest
      else (false, env.pmm_free_page page e2)

  -- The test in front of that loop.
  unfoldable pub map_up_to : ℕ → ℕ → E → Bool × E
  map_up_to current_mapped_top new_mapped_top e =
      if ltb current_mapped_top new_mapped_top
      then map_pages ((new_mapped_top - current_mapped_top) / page_size) current_mapped_top e
      else (true, e)

  unfoldable pub increment_brk : ℕ → Machine E → ℕ × Machine E
  increment_brk increment m =
      let old_program_break = m.program_break_point in
      let new_program_break = add32 m.program_break_point increment in
      let (mapped, e) =
        map_up_to (page_ceil m.program_break_point) (page_ceil new_program_break) m.env in
      if mapped
      then (old_program_break, record m { program_break_point = new_program_break; env = e })
      else (minus_one, record m { env = e })

  -- The loop of `decrement_brk`; `none` when the fuel runs out.
  unfoldable pub unmap_pages : ℕ → ℕ → Machine E → Option (Machine E)
  unmap_pages zero new_program_break m = none
  unmap_pages (suc fuel) new_program_break m =
      let page_addr = sub32 m.program_break_point page_size in
      let (err, e) = env.vmm_page_unmap page_addr (env.pmm_free_page (v2p page_addr) m.env) in
      let rest =
        unmap_pages fuel new_program_break
          (record m { program_break_point = page_addr; env = e }) in
      if leb new_program_break page_addr then rest else some m

  unfoldable pub decrement_brk : ℕ → ℕ → Machine E → Option (ℕ × Machine E)
  decrement_brk fuel decrement m =
      let old_program_break = m.program_break_point in
      let new_program_break = sub32 m.program_break_point decrement in
      if ltb new_program_break m.heap_start
      then some (minus_one, m)
      else (unmap_pages fuel new_program_break m >>= λ m'. some (old_program_break, m'))

  unfoldable pub sbrk : ℕ → ℕ → Machine E → Option (ℕ × Machine E)
  sbrk fuel increment m =
      if increment == 0
      then some (m.program_break_point, m)
      else if ltb increment (2 ^ 31)
      then some (increment_brk increment m)
      else decrement_brk fuel (sub32 0 increment) m

  -- The status 0 or -1.
  pub brk : ℕ → ℕ → Machine E → Option (ℕ × Machine E)
  brk fuel addr m = sbrk fuel (sub32 addr m.program_break_point) m >>= λ (res, m').
      some (if res == minus_one then minus_one else 0, m')
