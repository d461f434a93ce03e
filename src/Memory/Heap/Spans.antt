-- ===== src/Memory/Heap/Spans.antt =====
-- The abstract heap: what a first-fit allocator promises, on the list of its blocks in address
-- order. It speaks of sizes only; headers, addresses and links are the concern of the heap itself.
use cho_os.Prelude.{
  Bool-cases, inl, inr, ℕ, ◌+◌, ◌-◌, ◌≤◌, ◌≡◌, refl, ap, Bool, true, false, ◌&&◌, List, [], ◌∷◌,
  ◌++◌, ltb, leb, if◌then◌else◌, arith,
}
use cho_os.Memory.Machine.{header_size}

pub record Span : Type 0 where
  pub size : ℕ
  pub free : Bool

abbrev pub used : ℕ → Span
used n = record { size = n; free = false }

abbrev pub vacant : ℕ → Span
vacant n = record { size = n; free = true }

-- the bytes that the blocks take, their headers included
abbrev pub total : List Span → ℕ
total [] = 0
total (s ∷ ss) = header_size + s.size + total ss

-- a request of `n` bytes can be served from the block
abbrev pub fits : ℕ → Span → Bool
fits n s = s.free && leb n s.size

abbrev pub NoFit : ℕ → List Span → Type 0
NoFit n [] = Unit
NoFit n (s ∷ ss) = (fits n s ≡ false) × NoFit n ss

-- A block of `size` bytes serves `n` of them: what is left becomes a free block if it holds a
-- header and at least 16 bytes.
abbrev pub carve : ℕ → ℕ → List Span → List Span
carve n size rest =
    if ltb size (n + 24) then used size ∷ rest else used n ∷ vacant (size - n - header_size) ∷ rest

-- First fit, and a new block at the end where nothing fits.
unfoldable pub place : ℕ → List Span → List Span
place n [] = used n ∷ []
place n (s ∷ ss) = if fits n s then carve n s.size ss else s ∷ place n ss

-- where that block begins, from the start of the heap
unfoldable pub place_offset : ℕ → List Span → ℕ
place_offset n [] = 0
place_offset n (s ∷ ss) = if fits n s then 0 else header_size + s.size + place_offset n ss

-- Two neighbours as one block.
abbrev pub joined : Span → Span → Span
joined s t = record { size = s.size + (header_size + t.size); free = s.free }

-- A block that becomes free takes in its free successor.
abbrev pub release_first : ℕ → List Span → List Span
release_first n [] = vacant n ∷ []
release_first n (t ∷ ts) = if t.free then joined (vacant n) t ∷ ts else vacant n ∷ t ∷ ts

-- The predecessor, if it is free, takes in a block that has become free.
abbrev pub absorb : Span → List Span → List Span
absorb s [] = s ∷ []
absorb s (t ∷ ts) = if s.free then joined s t ∷ ts else s ∷ t ∷ ts

-- Freeing the block that has `pre` before it and `post` behind it.
unfoldable pub release : List Span → ℕ → List Span → List Span
release [] n post = release_first n post
release (s ∷ []) n post = absorb s (release_first n post)
release (s ∷ t ∷ pre) n post = s ∷ release (t ∷ pre) n post

pub total-append : (xs ys : List Span) → total (xs ++ ys) ≡ total xs + total ys
total-append [] ys = omega arith
total-append (x ∷ xs) ys = omega (arith, total-append xs ys)

pub total-carve :
    (n size : ℕ) (rest : List Span)
    → n ≤ size
    → total (carve n size rest) ≡ header_size + size + total rest
total-carve n size rest le = ground arith

pub total-release_first :
    (n : ℕ) (post : List Span) → total (release_first n post) ≡ header_size + n + total post
total-release_first n [] = omega arith
total-release_first n (t ∷ ts) = ground arith

pub total-absorb :
    (s : Span) (ts : List Span) → total (absorb s ts) ≡ header_size + s.size + total ts
total-absorb s [] = omega arith
total-absorb s (t ∷ ts) = ground arith

-- The last block before the freed one decides.
pub release-snoc :
    (pre : List Span) (s : Span) (n : ℕ) (post : List Span)
    → release (pre ++ (s ∷ [])) n post ≡ pre ++ absorb s (release_first n post)
unfolding release
release-snoc [] s n post = refl
release-snoc (x ∷ []) s n post = refl
release-snoc (x ∷ y ∷ pre) s n post =
    ap (λ (t : List Span). x ∷ t) (release-snoc (y ∷ pre) s n post)

-- Placing is at the first block that fits.
pub place-append :
    (n size : ℕ) (pre post : List Span)
    → NoFit n pre
    → n ≤ size
    → (place n (pre ++ (vacant size ∷ post)) ≡ pre ++ carve n size post)
      × (place_offset n (pre ++ (vacant size ∷ post)) ≡ total pre)
unfolding place place_offset
place-append n size [] post misses le = (ground arith, ground arith)
place-append n size (s ∷ pre) post misses le =
    let (list, offset) = place-append n size pre post misses.1 le in
    (ground (arith, list), ground (arith, offset))

pub place-NoFit :
    (n : ℕ) (ss : List Span)
    → NoFit n ss
    → (place n ss ≡ ss ++ (used n ∷ [])) × (place_offset n ss ≡ total ss)
unfolding place place_offset
place-NoFit n [] misses = (ground arith, ground arith)
place-NoFit n (s ∷ ss) misses =
    let (list, offset) = place-NoFit n ss misses.1 in (ground (arith, list), ground (arith, offset))

-- The new block lies among the others.
pub place-inside :
    (n : ℕ) (ss : List Span) → place_offset n ss + header_size + n ≤ total (place n ss)
unfolding place place_offset
place-inside n [] = omega arith
place-inside n (s ∷ ss) = elim (Bool-cases (fits n s)) [
  | inl serves ↦
      let le : n ≤ s.size = ground (arith, serves) in
      rw serves (omega (arith, total-carve n s.size ss le, le))
  | inr skip ↦ rw skip (omega (arith, place-inside n ss))
]
