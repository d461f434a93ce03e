-- ===== src/Paging/Release.antt =====
-- What `pmm_free_page` gives back.
use cho_os.Prelude.{
  ℕ, ◌*◌, ◌/◌, ◌≡◌, ◌≢◌, refl, ap, sym, ◌∙◌, subst, true, false, ◌==◌, inl, inr, arith, Bool-cases,
}
use cho_os.Paging.Frames.{
  Frames, bitmap_set, bitmap_unset, bitmap_test, pmm_free_page, pmm_alloc_frame_int,
}
use cho_os.Paging.FirstFree.{pmm_alloc_frame_int-first}
use cho_os.Paging.Marks.{bitmap_set-marks, bitmap_unset-marks}
use cho_os.Paging.Cache.Fresh.{IsPage, IsCached, GivenOut}

-- A page given back right after `pmm_alloc_frame_int` gave it leaves every frame marked as before.
pub pmm_free_page-pmm_alloc_frame_int :
    (s s1 : Frames) (page : ℕ)
    → pmm_alloc_frame_int s ≡ (page, s1)
    → page ≢ 0
    → (c : ℕ) → bitmap_test c (pmm_free_page page s1) ≡ bitmap_test c s
unfolding pmm_free_page
pmm_free_page-pmm_alloc_frame_int s s1 page got ne c = elim (pmm_alloc_frame_int-first s) [
  | inl (used, e) ↦ absurd (ne (ap (λ (r : ℕ × Frames). r.0) (sym got ∙ e)))
  | inr (b, first, e) ↦
      let r : (b * 4096, bitmap_set b s) ≡ (page, s1) = sym e ∙ got in
      let at : page / 4096 ≡ b = omega (arith, ap (λ (r : ℕ × Frames). r.0) r) in
      let after : s1 ≡ bitmap_set b s = ap (λ (r : ℕ × Frames). r.1) (sym r) in
      rw (at, after, bitmap_unset-marks b c (bitmap_set b s), bitmap_set-marks b c s)
        (elim (Bool-cases (c == b)) [
          | inl here ↦
              let same : b ≡ c = ground arith in
              rw here (sym (subst (λ x. bitmap_test x s ≡ false) same first.is_free))
          | inr there ↦ rw there refl
        ])
]

-- What is left of the allocator when a page is given back.
pub record Released (page : ℕ) (s s' : Frames) : Type 0 where
  pub sound : IsCached s'
  pub is_free : bitmap_test (page / 4096) s' ≡ false
  pub others : (b : ℕ) → b ≢ page / 4096 → GivenOut s b → GivenOut s' b

-- A frame that was given out and is given back is free; every other one stays given out, and the pages
-- in the cache are still frames in use, all different.
pub pmm_free_page-Released :
    (s : Frames) (page : ℕ)
    → IsCached s
    → IsPage page
    → GivenOut s (page / 4096)
    → Released page s (pmm_free_page page s)
unfolding pmm_free_page bitmap_unset
pmm_free_page-Released s page c p g =
    let b = page / 4096 in
    let kept = (λ (x : ℕ) (ne : x ≢ b) (used : bitmap_test x s ≡ true).
      let e : (x == b) ≡ false = ground arith in
      let law = bitmap_unset-marks b x s in law ∙ rw e used) in
    record {
      sound = record {
        within = c.within;
        page = λ i w. c.page i w;
        in_use = λ i w.
            kept (s.pre_frames i / 4096)
              (λ e. let q = c.page i w in g.left i w (omega (arith, q.aligned, e))) (c.in_use i w);
        differ = λ i j w. c.differ i j w;
      };
      is_free = bitmap_unset-marks b b s ∙ ground arith;
      others = λ x ne h. record { used = kept x ne h.used; left = λ i w. h.left i w };
    }
