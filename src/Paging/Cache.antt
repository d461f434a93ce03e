-- ===== src/Paging/Cache.antt =====
-- The rounds of the loop by which `pmm_alloc_page` fills its cache.
pub mod Fresh
use cho_os.Prelude.{
  ℕ, suc, ◌*◌, ◌/◌, ◌%◌, ◌^◌, ◌<◌, ◌≡◌, ◌≢◌, true, false, ◌==◌, inl, inr, arith, Bool-cases, subst,
}
use cho_os.Paging.Frames.{Frames, bitmap_set, bitmap_test, put_word}
use cho_os.Paging.Bits.{bitmap_test-bitmap_set, bitmap_set-keeps}

-- The page is that of a frame which was free in `s0` and is in use in `s`.
pub record Taken (s0 s : Frames) (page : ℕ) : Type 0 where
  pub pos : 0 < page
  pub aligned : page % 4096 ≡ 0
  pub small : page < 2 ^ 32
  pub was_free : bitmap_test (page / 4096) s0 ≡ false
  pub in_use : bitmap_test (page / 4096) s ≡ true

-- `i` rounds of the loop that fills the cache
pub record Filled (i : ℕ) (s0 s : Frames) : Type 0 where
  pub got : (j : ℕ) → j < i → Taken s0 s (s.pre_frames j)
  pub differ : (j k : ℕ) → j < k → k < i → s.pre_frames j ≢ s.pre_frames k
  pub keeps : (b : ℕ) → bitmap_test b s0 ≡ true → bitmap_test b s ≡ true
  pub flag : s.allocate ≡ 1
  pub cursor : s.pframe ≡ s0.pframe

-- one more round, which got the frame `b`
unfoldable pub cached_at : ℕ → ℕ → Frames → Frames
cached_at i b s =
    let s1 = bitmap_set b s in record s1 { pre_frames = put_word s1.pre_frames i (b * 4096) }

cached_at-used :
    (i b c : ℕ) (s : Frames) → bitmap_test c s ≡ true → bitmap_test c (cached_at i b s) ≡ true
unfolding cached_at bitmap_test bitmap_set
cached_at-used i b c s h = bitmap_set-keeps c b s h

-- The address of the frame `b`, as a page.
Taken-new :
    (s0 s : Frames) (i b : ℕ)
    → 0 < b
    → b < 1024 * 1024
    → bitmap_test b s0 ≡ false
    → Taken s0 (cached_at i b s) (b * 4096)
unfolding cached_at bitmap_test bitmap_set
Taken-new s0 s i b pos small free =
    let index : b * 4096 / 4096 ≡ b = omega arith in
    record {
      pos = omega arith;
      aligned = omega arith;
      small = omega arith;
      was_free = rw index free;
      in_use = rw index (bitmap_test-bitmap_set b s);
    }

Taken-later : (s0 s : Frames) (i b p : ℕ) → Taken s0 s p → Taken s0 (cached_at i b s) p
Taken-later s0 s i b p t = record {
  pos = t.pos;
  aligned = t.aligned;
  small = t.small;
  was_free = t.was_free;
  in_use = cached_at-used i b (p / 4096) s t.in_use;
}

-- The cell just written, and the cells before it.
cached_at-here : (i b : ℕ) (s : Frames) → (cached_at i b s).pre_frames i ≡ b * 4096
unfolding cached_at bitmap_set
cached_at-here i b s = ground arith

cached_at-before :
    (i b j : ℕ) (s : Frames) → j < i → (cached_at i b s).pre_frames j ≡ s.pre_frames j
unfolding cached_at bitmap_set
cached_at-before i b j s h = ground arith

-- A page taken before is none that is free now.
Taken-ne : (s0 s : Frames) (p b : ℕ) → Taken s0 s p → bitmap_test b s ≡ false → p ≢ b * 4096
Taken-ne s0 s p b t free e =
    let index : p / 4096 ≡ b = omega (arith, e) in
    cc (subst (λ x. bitmap_test x s ≡ true) index t.in_use)

pub Filled-suc :
    (i b : ℕ) (s0 s : Frames)
    → 0 < b
    → b < 1024 * 1024
    → bitmap_test b s ≡ false
    → Filled i s0 s
    → Filled (suc i) s0 (cached_at i b s)
unfolding cached_at bitmap_set
Filled-suc i b s0 s pos small free f =
    let free0 : bitmap_test b s0 ≡ false = elim (Bool-cases (bitmap_test b s0)) [
      | inl h ↦ absurd (cc (f.keeps b h))
      | inr h ↦ h
    ] in
    record {
      got = λ j h. elim (Bool-cases (j == i)) [
        | inl here ↦
            let e : j ≡ i = ground arith in
            rw e (rw (cached_at-here i b s) (Taken-new s0 s i b pos small free0))
        | inr before ↦
            let lt : j < i = ground arith in
            rw (cached_at-before i b j s lt) (Taken-later s0 s i b (s.pre_frames j) (f.got j lt))
      ];
      differ = λ j k h m. elim (Bool-cases (k == i)) [
        | inl here ↦
            let e : k ≡ i = ground arith in
            let lt : j < i = ground arith in
            rw (cached_at-before i b j s lt, e)
              (rw (cached_at-here i b s) (Taken-ne s0 s (s.pre_frames j) b (f.got j lt) free))
        | inr before ↦
            let lt : k < i = ground arith in
            rw (cached_at-before i b j s (omega arith), cached_at-before i b k s lt)
              (f.differ j k h lt)
      ];
      keeps = λ c h. cached_at-used i b c s (f.keeps c h);
      flag = f.flag;
      cursor = f.cursor;
    }
