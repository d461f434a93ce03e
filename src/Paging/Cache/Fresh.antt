-- ===== src/Paging/Cache/Fresh.antt =====
-- No page is given out twice: the frames that wait in the cache of `pmm_alloc_page`, and those that
-- have left it.
use cho_os.Prelude.{
  ℕ, zero, suc, ◌+◌, ◌*◌, ◌/◌, ◌%◌, ◌^◌, ◌≤◌, ◌<◌, ◌≡◌, ◌≢◌, refl, Bool, true, false, ◌==◌, ◌⊎◌,
  inl, inr, arith, Bool-cases, ap, sym, ◌∙◌, subst,
}
use cho_os.Paging.Frames.{
  Frames, bitmap_set, bitmap_test, keep_frame, fill_batch, next_cached, after_batch, check_spent,
  pmm_alloc_page,
}
use cho_os.Paging.FirstFree.{fill_batch-got, pmm_alloc_frame_int-first}
use cho_os.Paging.Bits.{bitmap_set-keeps}
use cho_os.Paging.Cache.{Filled, cached_at, Filled-suc}

-- what a batch that ran out of frames leaves
record Exhausted (s0 s : Frames) : Type 0 where
  keeps : (b : ℕ) → bitmap_test b s0 ≡ true → bitmap_test b s ≡ true
  flag : s.allocate ≡ 1
  cursor : s.pframe ≡ s0.pframe

abbrev Batch : ℕ → Frames → Bool × Frames → Type 0
Batch i s0 (full, s) = ((full ≡ true) × Filled i s0 s) ⊎ ((full ≡ false) × Exhausted s0 s)

fill_batch-Batch : (n i : ℕ) (s0 s : Frames) → Filled i s0 s → Batch (i + n) s0 (fill_batch n i s)
unfolding fill_batch keep_frame cached_at bitmap_set
fill_batch-Batch zero i s0 s f = inl (refl, subst (λ k. Filled k s0 s) (omega arith) f)
fill_batch-Batch (suc n) i s0 s f = elim (pmm_alloc_frame_int-first s) [
  | inl (used, e) ↦ rw e (inr (refl, record { keeps = f.keeps; flag = f.flag; cursor = f.cursor }))
  | inr (zero, first, e) ↦ rw e (
      inr (
        refl,
        record {
          keeps = λ c h. bitmap_set-keeps c 0 s (f.keeps c h);
          flag = f.flag;
          cursor = f.cursor;
        },
      ))
  | inr (suc b, first, e) ↦
      let next = Filled-suc i (suc b) s0 s (omega arith) first.upper first.is_free f in
      let step : i + 1 ≡ suc i = omega arith in
      let total : suc i + n ≡ i + suc n = omega arith in
      subst (Batch (i + suc n) s0)
        (sym (
          fill_batch-got n i (suc b * 4096) s _ e (omega arith)
          ∙ ap (λ k. fill_batch n k (cached_at i (suc b) s)) step))
        (subst (λ k. Batch k s0 (fill_batch n (suc i) (cached_at i (suc b) s))) total
          (fill_batch-Batch n (suc i) s0 (cached_at i (suc b) s) next))
]

-- The cell `i` of the cache has a page that is still to be given out.
abbrev pub Waits : Frames → ℕ → Type 0
Waits s i = ((s.allocate == 1) ≡ false) × (s.pframe ≤ i) × (i < 20)

-- the pointer to a frame
pub record IsPage (page : ℕ) : Type 0 where
  pub pos : 0 < page
  pub aligned : page % 4096 ≡ 0
  pub small : page < 2 ^ 32

-- The pages that wait are frames in use, all different.
pub record IsCached (s : Frames) : Type 0 where
  pub within : s.pframe ≤ 20
  pub page : (i : ℕ) → Waits s i → IsPage (s.pre_frames i)
  pub in_use : (i : ℕ) → Waits s i → bitmap_test (s.pre_frames i / 4096) s ≡ true
  pub differ : (i j : ℕ) → Waits s i → i < j → j < 20 → s.pre_frames i ≢ s.pre_frames j

-- The frame is in use and does not wait.
pub record GivenOut (s : Frames) (b : ℕ) : Type 0 where
  pub used : bitmap_test b s ≡ true
  pub left : (i : ℕ) → Waits s i → s.pre_frames i ≢ b * 4096

-- What a call gives: nothing that was given out before, and nothing comes back.
pub record Served (s : Frames) (r : ℕ × Frames) : Type 0 where
  pub sound : IsCached r.1
  pub keeps : (b : ℕ) → GivenOut s b → GivenOut r.1 b
  pub page : r.0 ≢ 0 → IsPage r.0
  pub fresh : r.0 ≢ 0 → GivenOut s (r.0 / 4096) → ⊥
  pub given : r.0 ≢ 0 → GivenOut r.1 (r.0 / 4096)

Served-after :
    (s s' : Frames) (r : ℕ × Frames)
    → ((b : ℕ) → GivenOut s b → GivenOut s' b)
    → Served s' r
    → Served s r
Served-after s s' r step v = record {
  sound = v.sound;
  keeps = λ b g. v.keeps b (step b g);
  page = v.page;
  fresh = λ ne g. v.fresh ne (step (r.0 / 4096) g);
  given = v.given;
}

Waits-next :
    (s : Frames) (i : ℕ) → s.pframe < 20 → Waits (next_cached s).1 i → Waits s i × (s.pframe < i)
unfolding next_cached
Waits-next s i room (live, from, to) =
    let after : s.pframe < i = omega (arith, from) in ((live, omega arith, to), after)

-- a page out of the cache
next_cached-Served :
    (s : Frames) → IsCached s → (s.allocate == 1) ≡ false → s.pframe < 20 → Served s (next_cached s)
unfolding next_cached bitmap_test
next_cached-Served s c live room =
    let p = s.pre_frames s.pframe in
    let here : Waits s s.pframe = (live, omega arith, room) in
    let page = c.page s.pframe here in
    let index : p / 4096 * 4096 ≡ p = omega (arith, page.aligned) in
    let later = (λ (i : ℕ) (w : Waits (next_cached s).1 i). Waits-next s i room w) in
    record {
      sound = record {
        within = omega arith;
        page = λ i w. c.page i (later i w).0;
        in_use = λ i w. c.in_use i (later i w).0;
        differ = λ i j w. c.differ i j (later i w).0;
      };
      keeps = λ b g. record { used = g.used; left = λ i w. g.left i (later i w).0 };
      page = λ ne. page;
      fresh = λ ne g. g.left s.pframe here (sym index);
      given = λ ne. record {
        used = c.in_use s.pframe here;
        left = λ i w e. c.differ s.pframe i here (later i w).1 w.2 (sym (e ∙ index));
      };
    }

-- the cache once it is filled
Filled-Served : (s0 s : Frames) → Filled 20 s0 s → Served s0 (after_batch (true, s))
unfolding after_batch bitmap_test
Filled-Served s0 s f =
    let full : Frames = record s { pframe = 0; allocate = 0 } in
    let cached : IsCached full = record {
      within = omega arith;
      page = λ i w.
          let t = f.got i w.2 in record { pos = t.pos; aligned = t.aligned; small = t.small };
      in_use = λ i w. (f.got i w.2).in_use;
      differ = λ i j w lt top. f.differ i j lt top;
    } in
    Served-after s0 full (next_cached full)
      (λ b g. record {
        used = f.keeps b g.used;
        left = λ i w e.
            let t = f.got i w.2 in
            let index : s.pre_frames i / 4096 ≡ b = omega (arith, e) in
            cc (subst (λ x. bitmap_test x s0 ≡ false) index t.was_free, g.used);
      })
      (next_cached-Served full cached refl (omega arith))

Exhausted-Served :
    (s0 s : Frames) → s0.pframe ≤ 20 → Exhausted s0 s → Served s0 (after_batch (false, s))
unfolding after_batch bitmap_test
Exhausted-Served s0 s within x =
    let spent : (i : ℕ) → Waits s i → ⊥ = λ i w. ground (arith, w.0, x.flag) in
    record {
      sound = record {
        within = omega (arith, x.cursor);
        page = λ i w. absurd (spent i w);
        in_use = λ i w. absurd (spent i w);
        differ = λ i j w. absurd (spent i w);
      };
      keeps = λ b g. record { used = x.keeps b g.used; left = λ i w. absurd (spent i w) };
      page = λ ne. absurd (ne refl);
      fresh = λ ne. absurd (ne refl);
      given = λ ne. absurd (ne refl);
    }

Batch-Served :
    (s0 : Frames) (r : Bool × Frames) → s0.pframe ≤ 20 → Batch 20 s0 r → Served s0 (after_batch r)
Batch-Served s0 (true, s) within (inl (e, f)) = Filled-Served s0 s f
Batch-Served s0 (false, s) within (inl (e, f)) = absurd (cc)
Batch-Served s0 (true, s) within (inr (e, x)) = absurd (cc)
Batch-Served s0 (false, s) within (inr (e, x)) = Exhausted-Served s0 s within x

-- a call that fills the cache first
refill-Served :
    (s : Frames) → s.pframe ≤ 20 → s.allocate ≡ 1 → Served s (after_batch (fill_batch 20 0 s))
refill-Served s within flag = Batch-Served s (fill_batch 20 0 s) within (
    subst (λ k. Batch k s (fill_batch 20 0 s)) (omega arith)
      (fill_batch-Batch 20 0 s s (record {
        got = λ j h. elim h [ ];
        differ = λ j k h m. elim m [ ];
        keeps = λ b h. h;
        flag = flag;
        cursor = refl;
      })))

-- Where the pages that wait in its cache are frames in use, all different, `pmm_alloc_page` returns NULL
-- or the page of a frame that was not given out before, and that is given out afterwards, in use and
-- no longer in the cache. Every frame given out before still is, and the pages that wait are again
-- frames in use, all different.
pub pmm_alloc_page-Served : (s : Frames) → IsCached s → Served s (pmm_alloc_page s)
unfolding pmm_alloc_page check_spent bitmap_test
pmm_alloc_page-Served s c = elim (Bool-cases (s.pframe == 20)) [
  | inl spent ↦
      let s1 : Frames = record s { allocate = 1 } in
      rw spent (
        Served-after s s1 (after_batch (fill_batch 20 0 s1))
          (λ b g. record { used = g.used; left = λ i w. absurd (cc (w.0)) })
          (refill-Served s1 c.within refl))
  | inr rest ↦ elim (Bool-cases (s.allocate == 1)) [
    | inl again ↦ rw (rest, again) (refill-Served s c.within (ground arith))
    | inr live ↦
        let room : s.pframe < 20 = ground (arith, c.within) in
        rw (rest, live) (next_cached-Served s c live room)
  ]
]
