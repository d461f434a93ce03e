-- ===== src/Paging/Protected.antt =====
-- The frames that `pmm_frames_init` keeps back: the first megabyte and the kernel.
use cho_os.Prelude.{
  ℕ, zero, suc, ◌+◌, ◌*◌, ◌/◌, ◌<◌, ◌≤◌, ◌≡◌, ◌≢◌, ap, sym, ◌∙◌, subst, true, false, ltb, ◌==◌,
  List, arith, Bool-cases, inl, inr, ◌⊎◌,
}
use cho_os.Paging.Frames.{
  Frames, MmapEntry, bitmap_set, bitmap_test, use_range, pmm_frames_init, pmm_alloc_frame_int,
}
use cho_os.Paging.FirstFree.{pmm_alloc_frame_int-first}
use cho_os.Paging.Bits.{bitmap_test-bitmap_set, bitmap_set-keeps}

use_range-keeps :
    (n i : ℕ) (s : Frames) (b : ℕ) → bitmap_test b s ≡ true → bitmap_test b (use_range n i s) ≡ true
unfolding use_range
use_range-keeps zero i s b h = h
use_range-keeps (suc n) i s b h = elim (Bool-cases (ltb i (1024 * 1024))) [
  | inl inside ↦
      rw (use_range, inside)
        (use_range-keeps n (i + 1) (bitmap_set i s) b (bitmap_set-keeps b i s h))
  | inr past ↦ rw (use_range, past) (use_range-keeps n (i + 1) s b h)
]

use_range-uses :
    (n i : ℕ) (s : Frames) (b : ℕ)
    → i ≤ b
    → b < i + n
    → b < 1024 * 1024
    → bitmap_test b (use_range n i s) ≡ true
unfolding use_range
use_range-uses zero i s b lo hi max = absurd (omega arith)
use_range-uses (suc n) i s b lo hi max = elim (Bool-cases (b == i)) [
  | inl here ↦
      let e : b ≡ i = ground arith in
      let inside : ltb i (1024 * 1024) ≡ true = ground arith in
      rw (use_range, inside)
        (use_range-keeps n (i + 1) (bitmap_set i s) b
          (subst (λ c. bitmap_test c (bitmap_set i s) ≡ true) (sym e) (bitmap_test-bitmap_set i s)))
  | inr later ↦
      let next : i + 1 ≤ b = ground arith in use_range-uses n (i + 1) _ b next (omega arith) max
]

-- A frame of the first megabyte or of the kernel.
abbrev pub IsReserved : ℕ → ℕ → ℕ → Type 0
IsReserved k_start k_end b = (b < 256) ⊎ ((k_start / 4096 ≤ b) × (b ≤ k_end / 4096))

pub pmm_frames_init-reserves :
    (entries : List MmapEntry) (k_start k_end : ℕ) (s : Frames) (b : ℕ)
    → b < 1024 * 1024
    → IsReserved k_start k_end b
    → bitmap_test b (pmm_frames_init entries k_start k_end s) ≡ true
unfolding pmm_frames_init
pmm_frames_init-reserves entries k_start k_end s b max (inl low) =
    use_range-uses 256 0 _ b (omega arith) (omega arith) max
pmm_frames_init-reserves entries k_start k_end s b max (inr kernel) =
    use_range-keeps 256 0 _ b
      (use_range-uses _ (k_start / 4096) _ b (kernel.0) (omega (arith, kernel)) max)

outside :
    (k_start k_end b : ℕ)
    → (IsReserved k_start k_end b → true ≡ false)
    → (256 ≤ b) × ((b < k_start / 4096) ⊎ (k_end / 4096 < b))
outside k_start k_end b h = elim (Bool-cases (ltb b 256)) [
  | inl low ↦ absurd (cc (h (inl (ground arith))))
  | inr high ↦ elim (Bool-cases (ltb b (k_start / 4096))) [
    | inl below ↦ (ground arith, inl (ground arith))
    | inr from_start ↦ elim (Bool-cases (ltb (k_end / 4096) b)) [
      | inl above ↦ (ground arith, inr (ground arith))
      | inr inside ↦ absurd (cc (h (inr (ground arith, ground arith))))
    ]
  ]
]

-- Whatever the memory map says, a page that `pmm_alloc_frame_int` gives out after `pmm_frames_init` lies
-- behind the first megabyte and outside the pages of the kernel.
pub pmm_frames_init-protects :
    (entries : List MmapEntry) (k_start k_end : ℕ) (s : Frames) (page : ℕ) (after : Frames)
    → pmm_alloc_frame_int (pmm_frames_init entries k_start k_end s) ≡ (page, after)
    → page ≢ 0
    → (256 * 4096 ≤ page) × ((page / 4096 < k_start / 4096) ⊎ (k_end / 4096 < page / 4096))
pmm_frames_init-protects entries k_start k_end s page after got some_page =
    let f = pmm_frames_init entries k_start k_end s in
    elim (pmm_alloc_frame_int-first f) [
      | inl (used, e) ↦ absurd (some_page (ap (λ (r : ℕ × Frames). r.0) (sym got ∙ e)))
      | inr (b, first, e) ↦
          let at : page ≡ b * 4096 = ap (λ (r : ℕ × Frames). r.0) (sym got ∙ e) in
          let (above, apart) = outside k_start k_end b (λ r.
            sym (pmm_frames_init-reserves entries k_start k_end s b first.upper r)
            ∙ first.is_free) in
          let index : b ≡ page / 4096 = omega (arith, at) in
          (
            omega (arith, at, above),
            subst (λ c. (c < k_start / 4096) ⊎ (k_end / 4096 < c)) index apart,
          )
    ]

-- The first frame is used, and stays so.
pub first_frame-used :
    (entries : List MmapEntry) (k_start k_end : ℕ) (s : Frames)
    → bitmap_test 0 (pmm_frames_init entries k_start k_end s) ≡ true
first_frame-used entries k_start k_end s =
    pmm_frames_init-reserves entries k_start k_end s 0 (omega arith) (inl (omega arith))
