-- ===== src/Paging/Frames.antt =====
-- kernel/arch/i386/paging/internal.c, allocators.c, and pmm_frames_init of paging.c: the bitmap of
-- page frames, a set bit for a frame in use, and the cache of frames in front of it. A page is
-- the physical address that stands for its pointer, 0 for NULL.
use cho_os.Prelude.{
  ℕ, zero, suc, ◌+◌, ◌-◌, ◌*◌, ◌/◌, ◌%◌, ◌^◌, Bool, true, false, not, Option, none, some, ltb, ◌==◌,
  ◌&&◌, if◌then◌else◌, bit_or, bit_and, add32, mul32, List, [], ◌∷◌,
}
use cho_os.Memory.Machine.{page_size}

abbrev pub max_page_frame_count : ℕ
max_page_frame_count = 1024 * 1024

abbrev pub bitmap_size : ℕ
bitmap_size = 32768

abbrev pub batch_pages_alloced_max : ℕ
batch_pages_alloced_max = 20

abbrev pub full_word : ℕ
full_word = 0xFFFF_FFFF

-- The bitmap by words, and the statics of `pmm_alloc_page`.
pub record Frames : Type 0 where
  pub bitmap : ℕ → ℕ
  pub pre_frames : ℕ → ℕ
  pub allocate : ℕ
  pub pframe : ℕ

abbrev pub put_word : (ℕ → ℕ) → ℕ → ℕ → ℕ → ℕ
put_word m i v a = if a == i then v else m a

unfoldable pub bitmap_set : ℕ → Frames → Frames
bitmap_set bit s = record s {
  bitmap = put_word s.bitmap (bit / 32) (bit_or (s.bitmap (bit / 32)) (2 ^ (bit % 32)));
}

unfoldable pub bitmap_unset : ℕ → Frames → Frames
bitmap_unset bit s = record s {
  bitmap =
      put_word s.bitmap (bit / 32) (bit_and (s.bitmap (bit / 32)) (full_word - 2 ^ (bit % 32)));
}

unfoldable pub bitmap_test : ℕ → Frames → Bool
bitmap_test bit s = not (bit_and (s.bitmap (bit / 32)) (2 ^ (bit % 32)) == 0)

unfoldable pub pmm_free_page : ℕ → Frames → Frames
pmm_free_page a s = bitmap_unset (a / page_size) s

-- the inner loop of `pmm_alloc_frame_int`: `n` rounds left at `bit_idx`
unfoldable pub find_clear : ℕ → ℕ → Frames → Option ℕ
find_clear zero bit_idx s = none
find_clear (suc n) bit_idx s =
    let rest = find_clear n (bit_idx + 1) s in if bitmap_test bit_idx s then rest else some bit_idx

-- its outer loop
unfoldable pub scan_words : ℕ → ℕ → Frames → Option ℕ
scan_words zero i s = none
scan_words (suc n) i s =
    let rest = scan_words n (i + 1) s in
    if s.bitmap i == full_word
    then rest
    else elim (find_clear 32 (i * 32) s) [ none ↦ rest | some bit_idx ↦ some bit_idx ]

-- What the two loops end with: the frame of the bit they stopped at, marked.
unfoldable pub take_frame : Option ℕ → Frames → ℕ × Frames
take_frame none s = (0, s)
take_frame (some bit_idx) s = (mul32 bit_idx page_size, bitmap_set bit_idx s)

unfoldable pub pmm_alloc_frame_int : Frames → ℕ × Frames
pmm_alloc_frame_int s = take_frame (scan_words bitmap_size 0 s) s

-- the body of the loop of `pmm_alloc_page` on the frame it got; `next` is the rest of the loop
unfoldable pub keep_frame : (Frames → Bool × Frames) → ℕ → ℕ × Frames → Bool × Frames
keep_frame next i (zero, s) = (false, s)
keep_frame next i (suc frame, s) =
    next (record s { pre_frames = put_word s.pre_frames i (suc frame) })

-- the loop: `n` rounds left at `i`, and whether it ran to its end
unfoldable pub fill_batch : ℕ → ℕ → Frames → Bool × Frames
fill_batch zero i s = (true, s)
fill_batch (suc n) i s = keep_frame (fill_batch n (i + 1)) i (pmm_alloc_frame_int s)

-- `ret = pre_frames[pframe]; pframe++;` with an 8-bit `pframe`
unfoldable pub next_cached : Frames → ℕ × Frames
next_cached s = (s.pre_frames s.pframe, record s { pframe = (s.pframe + 1) % 2 ^ 8 })

-- what follows the loop
unfoldable pub after_batch : Bool × Frames → ℕ × Frames
after_batch (true, s) = next_cached (record s { pframe = 0; allocate = 0 })
after_batch (false, s) = (0, s)

unfoldable pub check_spent : Frames → Frames
check_spent s = if s.pframe == batch_pages_alloced_max then record s { allocate = 1 } else s

unfoldable pub pmm_alloc_page : Frames → ℕ × Frames
pmm_alloc_page s =
    let s1 = check_spent s in
    if s1.allocate == 1
    then after_batch (fill_batch batch_pages_alloced_max 0 s1)
    else next_cached s1

-- An entry of the memory map that the boot loader hands over.
pub record MmapEntry : Type 0 where
  pub available : Bool
  pub addr_high : ℕ
  pub addr_low : ℕ
  pub len_low : ℕ

-- `n` frames from `page_idx` on, those below the maximum marked free
unfoldable pub free_range : ℕ → ℕ → Frames → Frames
free_range zero page_idx s = s
free_range (suc n) page_idx s =
    free_range n (page_idx + 1)
      (if ltb page_idx max_page_frame_count then bitmap_unset page_idx s else s)

unfoldable pub use_range : ℕ → ℕ → Frames → Frames
use_range zero page_idx s = s
use_range (suc n) page_idx s =
    use_range n (page_idx + 1)
      (if ltb page_idx max_page_frame_count then bitmap_set page_idx s else s)

-- The addresses go up in pages from the aligned start to the aligned end.
unfoldable pub free_entry : MmapEntry → Frames → Frames
free_entry e s =
    let first = add32 e.addr_low (page_size - 1) / page_size in
    let last = add32 e.addr_low e.len_low / page_size in
    if e.available && (e.addr_high == 0) then free_range (last - first) first s else s

unfoldable pub free_entries : List MmapEntry → Frames → Frames
free_entries [] s = s
free_entries (e ∷ es) s = free_entries es (free_entry e s)

-- The map is the list of its entries, and the kernel's image reaches from `k_start` to `k_end`.
unfoldable pub pmm_frames_init : List MmapEntry → ℕ → ℕ → Frames → Frames
pmm_frames_init entries k_start k_end s =
    let all_used = record s { bitmap = λ i. full_word } in
    let opened = free_entries entries all_used in
    let start_idx = k_start / page_size in
    let end_idx = k_end / page_size + 1 in
    use_range 256 0 (use_range (end_idx - start_idx) start_idx opened)

-- The two loops of the count at the end of `pmm_frames_init`.
pub count_clear : ℕ → ℕ → Frames → ℕ
count_clear zero bit_idx s = 0
count_clear (suc n) bit_idx s =
    let rest = count_clear n (bit_idx + 1) s in if bitmap_test bit_idx s then rest else rest + 1

pub count_words : ℕ → ℕ → Frames → ℕ
count_words zero i s = 0
count_words (suc n) i s =
    let rest = count_words n (i + 1) s in
    if s.bitmap i == full_word then rest else count_clear 32 (i * 32) s + rest

-- what it leaves in `total_free_memory`
pub get_total_free_memory : Frames → ℕ
get_total_free_memory s = count_words bitmap_size 0 s * page_size
