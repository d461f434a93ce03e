-- ===== src/Kernel/SbrkTest/Rules.antt =====
-- Rules for the parts of `test_sbrk`: what each step needs, and what it leaves.
use cho_os.Prelude.{
  ℕ, ◌+◌, ◌*◌, ◌^◌, ◌≤◌, ◌<◌, ◌≡◌, refl, Bool, true, false, Option, none, some, ◌==◌, inl, inr,
  arith, ap, sym, subst,
}
use cho_os.Libc.Bytes.{store}
use cho_os.Memory.Machine.{Machine, minus_one}
use cho_os.Memory.Brk.{sbrk, page_ceil}
use cho_os.Paging.Vmm.{Vm}
use cho_os.Kernel.Env.{Running, kernel_env}
use cho_os.Kernel.Break.{IsBacked, Requested, sbrk-Requested}
use cho_os.Kernel.SbrkTest.{
  Outcome, refused, wrong, passed, Test, and_then, ◌>>=◌, ◌>>◌, ensure, is_mapped, poke, peek,
  returned, granted, call, request,
}

-- The part faults nowhere and no assertion of it fails but for want of memory; `P` holds behind it.
unfoldable pub Right : {A : Type 0} → (A → Machine Running → Type 0) → Option (Outcome A) → Type 0
Right P none = ⊥
Right P (some (refused m)) = Unit
Right P (some (wrong m)) = ⊥
Right P (some (passed a m)) = P a m

Right-and_then :
    {A B : Type 0} (P : A → Machine Running → Type 0) (Q : B → Machine Running → Type 0)
    (f : A → Test B) (o : Option (Outcome A))
    → Right P o
    → ((a : A) (m : Machine Running) → P a m → Right Q (f a m))
    → Right Q (elim o [ none ↦ none | some o ↦ and_then o f ])
unfolding Right
Right-and_then P Q f none h k = h
Right-and_then P Q f (some (refused m)) h k = h
Right-and_then P Q f (some (wrong m)) h k = absurd h
Right-and_then P Q f (some (passed a m)) h k = k a m h

pub Right->>= :
    {A B : Type 0} (P : A → Machine Running → Type 0) (Q : B → Machine Running → Type 0)
    (t : Test A) (f : A → Test B) (m : Machine Running)
    → Right P (t m)
    → ((a : A) (m' : Machine Running) → P a m' → Right Q (f a m'))
    → Right Q ((t >>= f) m)
unfolding ◌>>=◌
Right->>= P Q t f m h k = Right-and_then P Q f (t m) h k

-- a step that is through
pub through :
    {A B : Type 0} (Q : B → Machine Running → Type 0) (t : Test A) (f : A → Test B)
    (m m' : Machine Running) (a : A)
    → t m ≡ some (passed a m')
    → Right Q (f a m')
    → Right Q ((t >>= f) m)
unfolding ◌>>=◌
through Q t f m m' a e h =
    subst (λ o. Right Q (elim o [ none ↦ none | some o ↦ and_then o f ])) (sym e) h

pub Right-map :
    {A : Type 0} (P Q : A → Machine Running → Type 0) (o : Option (Outcome A))
    → ((a : A) (m : Machine Running) → P a m → Q a m)
    → Right P o
    → Right Q o
unfolding Right
Right-map P Q none k h = h
Right-map P Q (some (refused m)) k h = h
Right-map P Q (some (wrong m)) k h = h
Right-map P Q (some (passed a m)) k h = k a m h

-- A heap from `start` on whose pages all have frames, below the window of the tables by `room` bytes.
pub record Ready (start room : ℕ) (m : Machine Running) : Type 0 where
  pub memory : Vm
  pub backed : IsBacked m memory
  pub heap : m.heap_start ≡ start
  pub kernel : 0xC000_0000 ≤ start
  pub order : start ≤ m.program_break_point
  pub below : m.program_break_point + room ≤ 1023 * 2 ^ 22

abbrev pub Moved : ℕ → ℕ → ℕ → ℕ → ℕ → Machine Running → Type 0
Moved start room old increment p m =
    (p ≡ old) × (m.program_break_point ≡ old + increment) × Ready start room m

Requested-Right :
    (start room increment : ℕ) (m : Machine Running) (v : Vm) (r : Option (ℕ × Machine Running))
    → m.heap_start ≡ start
    → 0xC000_0000 ≤ start
    → start ≤ m.program_break_point
    → m.program_break_point + (increment + room) ≤ 1023 * 2 ^ 22
    → Requested m increment v r
    → Right (Moved start room m.program_break_point increment) (granted r)
unfolding Right
Requested-Right start room increment m v r heap kernel order below (inl (v', e, x)) =
    let ok : (m.program_break_point == minus_one) ≡ false = ground arith in
    rw (e, granted, ok)
      (
        refl,
        refl,
        record {
          memory = v';
          backed = x.heap;
          heap = heap;
          kernel = kernel;
          order = omega arith;
          below = omega arith;
        },
      )
Requested-Right start room increment m v r heap kernel order below (inr (v', e, b, _)) =
    rw (e, granted) tt

module _ (lock unlock : Running → Running) (fuel : ℕ) where
  pub request-Right :
      (start room increment : ℕ) (m : Machine Running)
      → 0 < increment
      → increment < 2 ^ 31
      → Ready start (increment + room) m
      → Right
          (Moved start room m.program_break_point increment)
          (request lock unlock fuel increment m)
  unfolding request
  request-Right start room increment m pos small r =
      Requested-Right start room increment m r.memory _ r.heap r.kernel r.order r.below (
        sbrk-Requested lock unlock fuel increment m r.memory pos small r.backed
          (omega (arith, r.below)))

  -- `sbrk(0)` tells the break.
  pub call_zero-then :
      {B : Type 0} (Q : B → Machine Running → Type 0) (f : ℕ → Test B) (m : Machine Running)
      → Right Q (f m.program_break_point m)
      → Right Q ((call lock unlock fuel 0 >>= f) m)
  unfolding call sbrk ◌>>=◌
  call_zero-then Q f m h = h

  pub request_zero-then :
      {B : Type 0} (Q : B → Machine Running → Type 0) (f : ℕ → Test B) (start room : ℕ)
      (m : Machine Running)
      → Ready start room m
      → Right Q (f m.program_break_point m)
      → Right Q ((request lock unlock fuel 0 >>= f) m)
  unfolding request sbrk ◌>>=◌
  request_zero-then Q f start room m r h =
      let ok : (m.program_break_point == minus_one) ≡ false = ground (arith, r.below) in rw ok h

  pub call-then :
      {B : Type 0} (Q : B → Machine Running → Type 0) (f : ℕ → Test B) (increment p : ℕ)
      (m m' : Machine Running)
      → sbrk (kernel_env lock unlock) fuel increment m ≡ some (p, m')
      → Right Q (f p m')
      → Right Q ((call lock unlock fuel increment >>= f) m)
  unfolding call
  call-then Q f increment p m m' e h =
      through Q (call lock unlock fuel increment) f m m' p (ap returned e) h

pub ensure-then :
    {B : Type 0} (Q : B → Machine Running → Type 0) (k : Test B) (b : Bool) (m : Machine Running)
    → b ≡ true
    → Right Q (k m)
    → Right Q ((ensure b >> k) m)
unfolding ensure ◌>>◌
ensure-then Q k b m e h = rw e h

-- a last assertion
pub ensure-Right :
    (Q : Unit {0} → Machine Running → Type 0) (b : Bool) (m : Machine Running)
    → b ≡ true
    → Q tt m
    → Right Q (ensure b m)
unfolding ensure Right
ensure-Right Q b m e h = rw e h

-- The bytes of the heap can be read and written.
heap_byte :
    (start room a : ℕ) (m : Machine Running)
    → Ready start room m
    → start ≤ a
    → a < m.program_break_point
    → is_mapped a m.env ≡ true
unfolding is_mapped
heap_byte start room a m r lo hi =
    let top : m.program_break_point ≤ page_ceil m.program_break_point = omega (arith, r.below) in
    let (f, e) = r.backed.pages a (omega (arith, lo, r.heap)) (omega (arith, hi, top)) in
    rw r.backed.memory (rw (e, is_mapped) refl)

pub Ready-store :
    (start room a x : ℕ) (m : Machine Running)
    → Ready start room m
    → Ready start room (record m { bytes = store m.bytes a x })
Ready-store start room a x m r = record {
  memory = r.memory;
  backed = record {
    memory = r.backed.memory;
    sound = r.backed.sound;
    above = r.backed.above;
    pages = r.backed.pages;
  };
  heap = r.heap;
  kernel = r.kernel;
  order = r.order;
  below = r.below;
}

poke_lem :
    (a x : ℕ) (m : Machine Running)
    → is_mapped a m.env ≡ true
    → poke a x m ≡ some (passed tt (record m { bytes = store m.bytes a x }))
unfolding poke
poke_lem a x m e = rw (poke, e) refl

peek_lem :
    (a : ℕ) (m : Machine Running)
    → is_mapped a m.env ≡ true
    → peek a m ≡ some (passed (m.bytes a) m)
unfolding peek
peek_lem a m e = rw (peek, e) refl

module _ {B : Type 0} (Q : B → Machine Running → Type 0) (start room a : ℕ) (m : Machine Running)
    (r : Ready start room m) (lo : start ≤ a) (hi : a < m.program_break_point) where
  pub poke-then :
      (x : ℕ) (k : Test B)
      → Right Q (k (record m { bytes = store m.bytes a x }))
      → Right Q ((poke a x >> k) m)
  unfolding ◌>>◌
  poke-then x k h =
      through Q (poke a x) (λ _. k) m _ tt (poke_lem a x m (heap_byte start room a m r lo hi)) h

  pub peek-then : (f : ℕ → Test B) → Right Q (f (m.bytes a) m) → Right Q ((peek a >>= f) m)
  peek-then f h = through Q (peek a) f m m _ (peek_lem a m (heap_byte start room a m r lo hi)) h
