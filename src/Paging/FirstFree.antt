-- ===== src/Paging/FirstFree.antt =====
-- The frame allocator takes the first free frame, and what its cache does when frames run out.
use cho_os.Prelude.{
  all_below, all_below_lem, ℕ, zero, suc, ◌+◌, ◌*◌, ◌/◌, ◌%◌, ◌^◌, ◌≤◌, ◌<◌, ◌≡◌, refl, Bool, true,
  false, not, Option, none, some, ltb, ◌==◌, if◌then◌else◌, bit_and, ◌⊎◌, inl, inr, arith,
  Bool-cases, ap, ap₂, sym, ◌∙◌, subst,
}
use cho_os.Paging.Frames.{
  Frames, full_word, bitmap_size, bitmap_set, bitmap_test, find_clear, scan_words, take_frame,
  pmm_alloc_frame_int, fill_batch, pmm_alloc_page, keep_frame, after_batch, check_spent,
  next_cached, put_word,
}

-- The frames from `low` to below `high` are all in use.
pub record AllUsed (s : Frames) (low high : ℕ) : Type 0 where
  pub used : (b : ℕ) → low ≤ b → b < high → bitmap_test b s ≡ true

-- `b` is the first free frame of that range.
pub record FirstFree (s : Frames) (low high b : ℕ) : Type 0 where
  pub lower : low ≤ b
  pub upper : b < high
  pub is_free : bitmap_test b s ≡ false
  pub before : AllUsed s low b

-- What a search of the range comes to.
pub Searched : Frames → ℕ → ℕ → Option ℕ → Type 0
Searched s low high none = AllUsed s low high
Searched s low high (some b) = FirstFree s low high b

AllUsed-snoc :
    (s : Frames) (low mid high : ℕ) → AllUsed s low mid → AllUsed s mid high → AllUsed s low high
AllUsed-snoc s low mid high p q = record {
  used = λ b h k. elim (Bool-cases (ltb b mid)) [
    | inl e ↦ p.used b h (ground arith)
    | inr e ↦ q.used b (ground arith) k
  ];
}

Searched-after :
    (s : Frames) (low mid high : ℕ) (o : Option ℕ)
    → low ≤ mid
    → AllUsed s low mid
    → Searched s mid high o
    → Searched s low high o
unfolding Searched
Searched-after s low mid high none h p q = AllUsed-snoc s low mid high p q
Searched-after s low mid high (some b) h p q = record {
  lower = omega (arith, q.lower);
  upper = q.upper;
  is_free = q.is_free;
  before = AllUsed-snoc s low mid b p q.before;
}

one_point : (b c : ℕ) → b ≤ c → c < b + 1 → b ≡ c
one_point b c l u = omega arith

one_used : (s : Frames) (b : ℕ) → bitmap_test b s ≡ true → AllUsed s b (b + 1)
one_used s b h = record {
  used = λ c l u. subst (λ x. bitmap_test x s ≡ true) (one_point b c l u) h;
}

find_clear-Searched : (n b : ℕ) (s : Frames) → Searched s b (b + n) (find_clear n b s)
unfolding find_clear Searched
find_clear-Searched zero b s = record { used = λ c l u. absurd (omega arith) }
find_clear-Searched (suc n) b s = elim (Bool-cases (bitmap_test b s)) [
  | inl e ↦ rw e (
      Searched-after s b (b + 1) (b + suc n) (find_clear n (b + 1) s) (omega arith) (one_used s b e)
        (subst (λ h. Searched s (b + 1) h (find_clear n (b + 1) s)) (omega arith)
          (find_clear-Searched n (b + 1) s)))
  | inr e ↦ rw e (record {
    lower = omega arith;
    upper = omega arith;
    is_free = e;
    before = record { used = λ c l u. absurd (omega arith) };
  })
]

bit_in_use : ℕ → Bool
bit_in_use k = not (bit_and full_word (2 ^ k) == 0)

full_bits : (k : ℕ) → k < 32 → bit_in_use k ≡ true
unfolding all_below bit_in_use
full_bits = all_below_lem 32 bit_in_use refl

full_word-AllUsed : (s : Frames) (i : ℕ) → s.bitmap i ≡ full_word → AllUsed s (i * 32) (i * 32 + 32)
unfolding bitmap_test bit_in_use
full_word-AllUsed s i full = record {
  used = λ b l u.
      let at : b / 32 ≡ i = omega arith in rw (at, full) (full_bits (b % 32) (omega arith));
}

pub words-AllUsed :
    (s : Frames) → ((i : ℕ) → s.bitmap i ≡ full_word) → (high : ℕ) → AllUsed s 0 high
words-AllUsed s full high = record {
  used = λ b l u. (full_word-AllUsed s (b / 32) (full (b / 32))).used b (omega arith) (omega arith);
}

word_then_rest :
    (s : Frames) (low mid high : ℕ) (o rest : Option ℕ)
    → low ≤ mid
    → mid ≤ high
    → Searched s low mid o
    → Searched s mid high rest
    → Searched s low high (elim o [ none ↦ rest | some b ↦ some b ])
unfolding Searched
word_then_rest s low mid high none rest h k p q = Searched-after s low mid high rest h p q
word_then_rest s low mid high (some b) rest h k p q = record {
  lower = p.lower;
  upper = omega (arith, p.upper);
  is_free = p.is_free;
  before = p.before;
}

scan_words-Searched :
    (n i : ℕ) (s : Frames) → Searched s (i * 32) (i * 32 + n * 32) (scan_words n i s)
unfolding scan_words Searched
scan_words-Searched zero i s = record { used = λ c l u. absurd (omega arith) }
scan_words-Searched (suc n) i s = elim (Bool-cases (s.bitmap i == full_word)) [
  | inl e ↦ rw e (
      Searched-after s (i * 32) (i * 32 + 32) high rest (omega arith)
        (full_word-AllUsed s i (ground arith)) (after (scan_words-Searched n (i + 1) s)))
  | inr e ↦ rw e (
      word_then_rest s (i * 32) (i * 32 + 32) high (find_clear 32 (i * 32) s) rest (omega arith)
        (omega arith) (find_clear-Searched 32 (i * 32) s) (after (scan_words-Searched n (i + 1) s)))
]
  where
    high : ℕ
    high = i * 32 + suc n * 32

    rest : Option ℕ
    rest = scan_words n (i + 1) s

    after :
        Searched s ((i + 1) * 32) ((i + 1) * 32 + n * 32) rest → Searched s (i * 32 + 32) high rest
    after p =
        subst {A = ℕ × ℕ} (λ q. Searched s q.0 q.1 rest)
          (ap₂ (λ a b. (a, b)) (omega arith) (omega arith)) p

taken :
    (s : Frames) (o : Option ℕ)
    → Searched s 0 (1024 * 1024) o
    → (AllUsed s 0 (1024 * 1024) × (take_frame o s ≡ (0, s)))
      ⊎ ((b : ℕ) × FirstFree s 0 (1024 * 1024) b × (take_frame o s ≡ (b * 4096, bitmap_set b s)))
unfolding Searched take_frame
taken s none p = inl (p, refl)
taken s (some b) p = inr (b, p, ap (λ a. (a, bitmap_set b s)) (omega (arith, p.upper)))

-- What `pmm_alloc_frame_int` returns: NULL with nothing changed, and then every frame is in use, or
-- the address of the first free frame, and then that frame's bit is set and nothing else changed.
pub pmm_alloc_frame_int-first :
    (s : Frames)
    → (AllUsed s 0 (1024 * 1024) × (pmm_alloc_frame_int s ≡ (0, s)))
      ⊎ ((b : ℕ) × FirstFree s 0 (1024 * 1024) b
          × (pmm_alloc_frame_int s ≡ (b * 4096, bitmap_set b s)))
unfolding pmm_alloc_frame_int
pmm_alloc_frame_int-first s =
    taken s (scan_words bitmap_size 0 s) (scan_words-Searched bitmap_size 0 s)

FirstFree-unique :
    (s : Frames) (low high b c : ℕ) → FirstFree s low high b → FirstFree s low high c → b ≡ c
FirstFree-unique s low high b c p q = elim (Bool-cases (ltb b c)) [
  | inl e ↦ absurd (ground (arith, clash b (q.before.used b p.lower (ground arith)) p.is_free))
  | inr e ↦ elim (Bool-cases (ltb c b)) [
    | inl f ↦ absurd (ground (arith, clash c (p.before.used c q.lower (ground arith)) q.is_free))
    | inr f ↦ ground arith
  ]
]
  where
    clash : (x : ℕ) → bitmap_test x s ≡ true → bitmap_test x s ≡ false → true ≡ false
    clash x h k = sym h ∙ k

-- one round of the batch that gets a frame, and one that gets none
pub fill_batch-got :
    (n i f : ℕ) (s s1 : Frames)
    → pmm_alloc_frame_int s ≡ (f, s1)
    → 0 < f
    → fill_batch (suc n) i s
      ≡ fill_batch n (i + 1) (record s1 { pre_frames = put_word s1.pre_frames i f })
unfolding fill_batch keep_frame
fill_batch-got n i (suc f) s s1 h k = ap (keep_frame (fill_batch n (i + 1)) i) h
fill_batch-got n i zero s s1 h k = absurd (omega arith)

fill_batch-out :
    (n i : ℕ) (s : Frames) → pmm_alloc_frame_int s ≡ (0, s) → fill_batch (suc n) i s ≡ (false, s)
unfolding fill_batch keep_frame
fill_batch-out n i s h = ap (keep_frame (fill_batch n (i + 1)) i) h

pub only_free :
    (s : Frames) (b : ℕ)
    → FirstFree s 0 (1024 * 1024) b
    → pmm_alloc_frame_int s ≡ (b * 4096, bitmap_set b s)
only_free s b first = elim (pmm_alloc_frame_int-first s) [
  | inl (used, e) ↦ absurd (ground (arith, used.used b first.lower first.upper, first.is_free))
  | inr (c, found, e) ↦
      subst (λ x. pmm_alloc_frame_int s ≡ (x * 4096, bitmap_set x s))
        (FirstFree-unique s 0 (1024 * 1024) c b found first) e
]

none_free : (s : Frames) → AllUsed s 0 (1024 * 1024) → pmm_alloc_frame_int s ≡ (0, s)
none_free s used = elim (pmm_alloc_frame_int-first s) [
  | inl (same, e) ↦ e
  | inr (c, found, e) ↦ absurd (ground (arith, used.used c found.lower found.upper, found.is_free))
]

-- the batch that takes the last frame and then fails
batch-loses :
    (s : Frames) (b : ℕ)
    → FirstFree s 0 (1024 * 1024) b
    → 0 < b
    → AllUsed (bitmap_set b s) 0 (1024 * 1024)
    → fill_batch 20 0 s
      ≡ (false, record (bitmap_set b s) { pre_frames = put_word s.pre_frames 0 (b * 4096) })
unfolding bitmap_set bitmap_test
batch-loses s b first pos used =
    fill_batch-got 19 0 (b * 4096) s (bitmap_set b s) (only_free s b first) (omega arith)
    ∙ fill_batch-out 18 1
        (record (bitmap_set b s) { pre_frames = put_word s.pre_frames 0 (b * 4096) })
        (none_free _ (record { used = used.used }))

refilled :
    (s : Frames) (r : Bool × Frames)
    → s.pframe ≡ 20
    → fill_batch 20 0 (record s { allocate = 1 }) ≡ r
    → pmm_alloc_page s ≡ after_batch r
unfolding pmm_alloc_page check_spent
refilled s r spent e =
    ap (λ s1. if s1.allocate == 1 then after_batch (fill_batch 20 0 s1) else next_cached s1)
      (ap (λ n. if n == 20 then record s { allocate = 1 } else s) spent)
    ∙ ap after_batch e

-- When the cache is used up and one frame alone is free, not frame 0, `pmm_alloc_page` returns NULL,
-- and leaves that frame marked as in use although it gave it to nobody.
pub pmm_alloc_page-loses :
    (s : Frames) (b : ℕ)
    → s.pframe ≡ 20
    → FirstFree s 0 (1024 * 1024) b
    → 0 < b
    → AllUsed (bitmap_set b s) 0 (1024 * 1024)
    → ((pmm_alloc_page s).0 ≡ 0) × ((pmm_alloc_page s).1.bitmap ≡ (bitmap_set b s).bitmap)
unfolding bitmap_set bitmap_test after_batch
pmm_alloc_page-loses s b spent first pos used = (ap (λ r. r.0) lost, ap (λ r. r.1.bitmap) lost)
  where
    fresh : Frames
    fresh = record s { allocate = 1 }

    lost :
        pmm_alloc_page s
        ≡ (0, record (bitmap_set b fresh) { pre_frames = put_word s.pre_frames 0 (b * 4096) })
    lost = refilled s _ spent (
        batch-loses fresh b
          (record {
            lower = first.lower;
            upper = first.upper;
            is_free = first.is_free;
            before = record { used = first.before.used };
          })
          pos (record { used = used.used }))
