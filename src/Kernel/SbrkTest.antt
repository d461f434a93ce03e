-- ===== src/Kernel/SbrkTest.antt =====
-- `test_sbrk` of kernel/kernel/test.c, in its seven parts. The messages are left out.
pub mod Rules
pub mod GiveBack
pub mod Right
use cho_os.Prelude.{
  ℕ, ◌+◌, ◌-◌, ◌*◌, ◌/◌, ◌%◌, ◌^◌, Bool, true, false, not, Option, none, some, ltb, ◌==◌,
  if◌then◌else◌, add32, sub32,
}
use cho_os.Libc.Bytes.{store}
use cho_os.Memory.Machine.{Machine, page_size, header_size, minus_one}
use cho_os.Memory.Brk.{sbrk}
use cho_os.Paging.Vmm.{walk}
use cho_os.Kernel.Env.{Running, kernel_env}

-- How a part of the test ends, but for a page fault: an `sbrk` that the test needs was refused, another
-- assertion does not hold, or the part is through.
pub data Outcome (A : Type 0) : Type 0 where
  refused wrong : Machine Running → Outcome A
  passed : A → Machine Running → Outcome A

abbrev pub Test : Type 0 → Type 0
Test A = Machine Running → Option (Outcome A)

-- what follows a part
abbrev pub and_then : {A B : Type 0} → Outcome A → (A → Test B) → Option (Outcome B)
and_then (refused m) f = some (refused m)
and_then (wrong m) f = some (wrong m)
and_then (passed a m) f = f a m

infixl 5 ◌>>=◌ ◌>>◌
unfoldable pub ◌>>=◌ : {A B : Type 0} → Test A → (A → Test B) → Test B
◌>>=◌ t f m = elim (t m) [ none ↦ none | some o ↦ and_then o f ]

unfoldable pub ◌>>◌ : {B : Type 0} → Test (Unit {0}) → Test B → Test B
unfolding ◌>>=◌
t >> u = t >>= λ _. u

unfoldable pub ensure : Bool → Test (Unit {0})
ensure b m = some (if b then passed tt m else wrong m)

-- Whether the address translates.
unfoldable pub is_mapped : ℕ → Running → Bool
is_mapped a none = false
is_mapped a (some v) = elim (walk v.mem v.dir a) [ none ↦ false | some at ↦ true ]

-- `*a = x` and `*a`
unfoldable pub poke : ℕ → ℕ → Test (Unit {0})
poke a x m =
    if is_mapped a m.env then some (passed tt (record m { bytes = store m.bytes a x })) else none

unfoldable pub peek : ℕ → Test ℕ
peek a m = if is_mapped a m.env then some (passed (m.bytes a) m) else none

-- what an `sbrk` returned, and what it returned if the test goes on only without -1
abbrev pub returned : Option (ℕ × Machine Running) → Option (Outcome ℕ)
returned none = none
returned (some (p, m)) = some (passed p m)

abbrev pub granted : Option (ℕ × Machine Running) → Option (Outcome ℕ)
granted none = none
granted (some (p, m)) = some (if p == minus_one then refused m else passed p m)

module _ (lock unlock : Running → Running) (fuel : ℕ) where
  unfoldable pub call : ℕ → Test ℕ
  call increment m = returned (sbrk (kernel_env lock unlock) fuel increment m)

  unfoldable pub request : ℕ → Test ℕ
  request increment m = granted (sbrk (kernel_env lock unlock) fuel increment m)

  unfoldable pub basic : Test (Unit {0})
  basic = do
    region1 ← request 10
    poke region1 0xAA
    poke (add32 region1 9) 0xBB
    first ← peek region1
    ensure (first == 0xAA)
    last ← peek (add32 region1 9)
    ensure (last == 0xBB)

  unfoldable pub metadata_edge : Test (Unit {0})
  metadata_edge = do
    let edge_size = page_size - header_size + 10
    region2 ← request edge_size
    poke (sub32 (add32 region2 edge_size) 1) 0xCC
    last ← peek (sub32 (add32 region2 edge_size) 1)
    ensure (last == 0xCC)

  unfoldable pub multi_page : Test (Unit {0})
  multi_page = do
    let large_size = page_size * 3
    region3 ← request large_size
    poke region3 0x11
    poke (add32 region3 page_size) 0x22
    poke (add32 region3 (page_size * 2)) 0x33
    poke (sub32 (add32 region3 large_size) 1) 0x44
    last ← peek (sub32 (add32 region3 large_size) 1)
    ensure (last == 0x44)

  unfoldable pub continuity : Test (Unit {0})
  continuity = do
    current_break ← request 0
    check_break ← call 0
    ensure (current_break == check_break)
    next_alloc ← request 1
    ensure true

  -- the call that the padding needs
  unfoldable pub pad : ℕ → Test ℕ
  unfolding request
  pad padding m = if ltb 0 padding then request padding m else some (passed 0 m)

  unfoldable pub page_boundary : Test (Unit {0})
  page_boundary = do
    current_addr ← request 0
    let offset = current_addr % page_size
    pad_res ← pad (if offset == 0 then 0 else page_size - offset)
    aligned_addr ← call 0
    ensure (aligned_addr % page_size == 0)

  -- the old break before the page that is taken and given back
  unfoldable pub give_back : Test ℕ
  give_back = do
    start_break ← request 0
    alloc_ret ← request page_size
    end_break ← call 0
    ensure (sub32 end_break start_break == page_size)
    shrink_ret ← call (sub32 0 (sub32 end_break start_break))
    ensure (shrink_ret == end_break)
    final_break ← call 0
    ensure (final_break == start_break)
    λ m. some (passed alloc_ret m)

  unfoldable pub underflow : ℕ → Test (Unit {0})
  underflow alloc_ret = do
    underflow_ret ← call (sub32 0 (1024 * 1024 * 1024))
    ensure (underflow_ret == minus_one)
    stable_break ← call 0
    ensure (stable_break == alloc_ret)

  unfoldable pub test_sbrk : Test (Unit {0})
  unfolding basic metadata_edge multi_page continuity page_boundary give_back underflow
  test_sbrk = do
    basic
    metadata_edge
    multi_page
    continuity
    page_boundary
    alloc_ret ← give_back
    underflow alloc_ret
