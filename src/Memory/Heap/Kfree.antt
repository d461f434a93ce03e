-- ===== src/Memory/Heap/Kfree.antt =====
-- `kfree` against the abstract allocator: the block becomes free and is joined with its free
-- neighbours.
use cho_os.Prelude.{
  ℕ, zero, suc, ◌+◌, ◌<◌, ◌≡◌, refl, ap, ◌∙◌, ◌^◌, ◌⊎◌, inl, inr, Bool, true, false, List, [], ◌∷◌,
  ◌++◌, if◌then◌else◌, arith, Bool-cases, sub32, ◌==◌, subst, Option, some, length, length-append,
  sym,
}
use mathlib.Core.List.{append_assoc}
use cho_os.Memory.Machine.{Env, Machine, header_size, ◌>>=◌}
use cho_os.Memory.Heap.{set_free, set_next, heap_block_merge_down, find_parent, lock, unlock, kfree}
use cho_os.Memory.Heap.Spans.{
  Span, used, vacant, joined, total, total-append, release_first, absorb, release, release-snoc,
  total-release_first, total-absorb,
}
use cho_os.Memory.Heap.Chain.{Links, Chain, IsHeap, Chain-split, Chain-join, Below, Links-Below}
use cho_os.Memory.Heap.Split.{set_free-Chain, merge_down-Chain}
use cho_os.Memory.Heap.Kmalloc.{Keeps, IsHeap-env}

module _ {E : Type 0} where
  -- the code of `kfree` up to the search for the parent
  unfoldable merged : ℕ → Machine E → Machine E
  merged p m = if (m.block (m.block p).next).free then heap_block_merge_down p m else m

  merged-block : (m : Machine E) (p : ℕ) → merged p m ≡ record m { block = (merged p m).block }
  unfolding merged heap_block_merge_down set_next
  merged-block m p = elim (Bool-cases (m.block (m.block p).next).free) [
    | inl joins ↦ rw joins
    | inr stays ↦ rw stays
  ]

  join_if :
      (f : Bool) (m : Machine E) (b : ℕ) (s t : Span) (ts : List Span)
      → Chain m.block b (s ∷ t ∷ ts)
      → let m' = if f then heap_block_merge_down b m else m in
        Chain m'.block b (if f then joined s t ∷ ts else s ∷ t ∷ ts) × Below b m.block m'.block
  join_if true m b s t ts c = merge_down-Chain m b s t ts c
  join_if false m b s t ts c = (c, λ q lt. refl)

  merged-Chain :
      (m : Machine E) (b : ℕ) (n : ℕ) (post : List Span)
      → Chain m.block b (vacant n ∷ post)
      → Chain (merged b m).block b (release_first n post) × Below b m.block (merged b m).block
  unfolding merged
  merged-Chain m b n [] c = rw (c.0.next, c.1.free, merged) (c, λ q lt. refl)
  merged-Chain m b n (t ∷ ts) c =
      rw (c.0.next, c.1.0.free, merged) (join_if t.free m b (vacant n) t ts c)

  -- The same at the parent, where the parent's own flag decides.
  absorbed-Chain :
      (m : Machine E) (b : ℕ) (s t : Span) (ts : List Span)
      → Chain m.block b (s ∷ t ∷ ts)
      → let m' = if (m.block b).free then heap_block_merge_down b m else m in
        Chain m'.block b (absorb s (t ∷ ts)) × Below b m.block m'.block
  absorbed-Chain m b s t ts c =
      subst
        (λ f.
          let m' = if f then heap_block_merge_down b m else m in
          Chain m'.block b (absorb s (t ∷ ts)) × Below b m.block m'.block)
        (sym c.0.free) (join_if s.free m b s t ts c)

  find_parent-cons :
      (fuel target a : ℕ) (xs : List Span) (s : Span) (m : Machine E)
      → Links m.block a (xs ++ (s ∷ []))
      → a + total xs + (header_size + s.size) ≡ target
      → length xs < fuel
      → find_parent fuel target a m ≡ some (a + total xs)
  unfolding find_parent
  find_parent-cons zero target a xs s m l e enough = absurd (omega arith)
  find_parent-cons (suc fuel) target a [] s m l e enough =
      let here : ((m.block a).next == target) ≡ true = ground (arith, l.0.next) in
      rw (here, find_parent) (ap some (omega arith))
  find_parent-cons (suc fuel) target a (x ∷ xs) s m l e enough =
      let later : ((m.block a).next == target) ≡ false = ground (arith, l.0.next) in
      rw (later, l.0.next, find_parent)
        (find_parent-cons fuel target (a + (header_size + x.size)) xs s m l.1 (omega arith)
            (omega arith)
          ∙ ap some (omega arith))

  -- Replacing the blocks from `b` on by others of the same extent.
  pub retail-IsHeap :
      (m m' : Machine E) (b : ℕ) (pre old new : List Span)
      → IsHeap m (pre ++ old)
      → b ≡ m.heap_start + total pre
      → m' ≡ record m { block = m'.block }
      → Chain m'.block b new × Below b m.block m'.block
      → total new ≡ total old
      → IsHeap m' (pre ++ new) × Keeps m m'
  retail-IsHeap m m' b pre old new h at same (c, below) len =
      let (links, _) = Chain-split m.block m.heap_start b pre old (sym at) h.chain in
      let start = ap (λ (x : Machine E). x.heap_start) same in
      let break_ = ap (λ (x : Machine E). x.program_break_point) same in
      let chain : Chain m'.block m.heap_start (pre ++ new) =
        Chain-join m'.block m.heap_start b pre new (sym at)
          (Links-Below m.block m'.block m.heap_start b pre (omega arith) below links) c in
      (
        record {
          chain = subst (λ a. Chain m'.block a (pre ++ new)) (sym start) chain;
          ends =
              omega (arith, start, break_, h.ends, len, total-append pre old, total-append pre new);
          high = omega (arith, start, h.high);
          small = omega (arith, break_, h.small);
        },
        record { start = start; bytes = λ a. ap (λ (x : Machine E). x.bytes a) same },
      )

  pub Keeps-trans : {m m' m'' : Machine E} → Keeps m m' → Keeps m' m'' → Keeps m m''
  Keeps-trans k k' = record { start = k'.start ∙ k.start; bytes = λ a. k'.bytes a ∙ k.bytes a }

  -- the block is free, and joined with a free successor
  freed-IsHeap :
      (m : Machine E) (pre post : List Span) (n : ℕ)
      → IsHeap m (pre ++ (used n ∷ post))
      → let node = m.heap_start + total pre in
        let m' = merged node (set_free node true m) in
        IsHeap m' (pre ++ release_first n post) × Keeps m m'
  unfolding set_free
  freed-IsHeap m pre post n h =
      let node = m.heap_start + total pre in
      let m1 = set_free node true m in
      let (links, c) = Chain-split m.block m.heap_start node pre (used n ∷ post) refl h.chain in
      let (h1, k1) =
        retail-IsHeap m m1 node pre (used n ∷ post) (vacant n ∷ post) h refl refl
          (set_free-Chain m node (used n) post true c) refl in
      let (links1, c1) =
        Chain-split m1.block m.heap_start node pre (vacant n ∷ post) refl h1.chain in
      let (h2, k2) =
        retail-IsHeap m1 (merged node m1) node pre (vacant n ∷ post) (release_first n post) h1 refl
          (merged-block m1 node) (merged-Chain m1 node n post c1) (total-release_first n post) in
      (h2, Keeps-trans k1 k2)

  joined-block :
      (f : Bool) (m : Machine E) (p : ℕ)
      → let m' = if f then heap_block_merge_down p m else m in m' ≡ record m { block = m'.block }
  unfolding heap_block_merge_down set_next
  joined-block true m p = refl
  joined-block false m p = refl

  -- the parent, if it is free, takes the block in
  absorbed-IsHeap :
      (m : Machine E) (xs : List Span) (s t : Span) (ts : List Span)
      → IsHeap m (xs ++ (s ∷ t ∷ ts))
      → let p = m.heap_start + total xs in
        let m' = if (m.block p).free then heap_block_merge_down p m else m in
        IsHeap m' (xs ++ absorb s (t ∷ ts)) × Keeps m m'
  absorbed-IsHeap m xs s t ts h =
      let p = m.heap_start + total xs in
      let (_, c) = Chain-split m.block m.heap_start p xs (s ∷ t ∷ ts) refl h.chain in
      retail-IsHeap m _ p xs (s ∷ t ∷ ts) (absorb s (t ∷ ts)) h refl
        (joined-block (m.block p).free m p) (absorbed-Chain m p s t ts c) (total-absorb s (t ∷ ts))

release_first_cases :
    (n : ℕ) (post : List Span) → (t : Span) × (ts : List Span) × (release_first n post ≡ t ∷ ts)
release_first_cases n [] = (vacant n, [], refl)
release_first_cases n (t ∷ ts) = elim (Bool-cases t.free) [
  | inl joins ↦ (joined (vacant n) t, ts, simp joins)
  | inr stays ↦ (vacant n, t ∷ ts, simp stays)
]

snoc_cases {ℓ} :
    {A : Type ℓ} (xs : List A) → (xs ≡ []) ⊎ ((ys : List A) × (y : A) × (xs ≡ ys ++ (y ∷ [])))
snoc_cases [] = inl refl
snoc_cases (x ∷ xs) = elim (snoc_cases xs) [
  | inl e ↦ inr ([], x, ap (λ t. x ∷ t) e)
  | inr (ys, y, e) ↦ inr (x ∷ ys, y, ap (λ t. x ∷ t) e)
]

module _ {E : Type 0} (env : Env E) where
  abbrev Freed : Machine E → List Span → ℕ → List Span → Option (Machine E) → Type 0
  Freed m pre n post r =
      (m' : Machine E) × (r ≡ some m') × IsHeap m' (release pre n post) × Keeps m m'

  -- `kfree` at the header `node`, with its tests laid open
  kfree_steps :
      (fuel node : ℕ) (m : Machine E)
      → node + header_size < 2 ^ 32
      → let m1 = merged node (set_free node true (lock env m)) in
        kfree env fuel (node + header_size) m ≡ (
          if node == m1.heap_start
          then some (unlock env m1)
          else (find_parent fuel node m1.heap_start m1 >>= λ parent. some (
              unlock env (if (m1.block parent).free then heap_block_merge_down parent m1 else m1))))
  unfolding kfree merged
  kfree_steps fuel node m small =
      let at : sub32 (node + header_size) header_size ≡ node = omega arith in rw (at, kfree)

  IsHeap-unlock : (m : Machine E) (ss : List Span) → IsHeap m ss → IsHeap (unlock env m) ss
  unfolding unlock
  IsHeap-unlock m ss h = IsHeap-env m _ ss h

  Keeps-locked : {m m' : Machine E} → Keeps (lock env m) m' → Keeps m (unlock env m')
  unfolding lock unlock
  Keeps-locked k = record { start = k.start; bytes = k.bytes }

  kfree-first :
      (fuel n : ℕ) (m : Machine E) (post : List Span)
      → IsHeap m (used n ∷ post)
      → Freed m [] n post (kfree env fuel (m.heap_start + total [] + header_size) m)
  unfolding release lock
  kfree-first fuel n m post h =
      let node = m.heap_start + total [] in
      let (h1, k1) = freed-IsHeap (lock env m) [] post n (IsHeap-env m _ (used n ∷ post) h) in
      let m1 = merged node (set_free node true (lock env m)) in
      let first : (node == m1.heap_start) ≡ true = ground (arith, k1.start) in
      (
        unlock env m1,
        kfree_steps fuel node m (omega (arith, h.ends, h.small)) ∙ (rw first),
        IsHeap-unlock m1 _ h1,
        Keeps-locked k1,
      )

  kfree-later :
      (fuel n : ℕ) (m : Machine E) (xs : List Span) (s : Span) (post : List Span)
      → IsHeap m ((xs ++ (s ∷ [])) ++ (used n ∷ post))
      → length xs < fuel
      → Freed m
          (xs ++ (s ∷ []))
          n
          post
          (kfree env fuel (m.heap_start + total (xs ++ (s ∷ [])) + header_size) m)
  unfolding lock
  kfree-later fuel n m xs s post h enough =
      let pre = xs ++ (s ∷ []) in
      let node = m.heap_start + total pre in
      let (h1, k1) =
        freed-IsHeap (lock env m) pre post n (IsHeap-env m _ (pre ++ (used n ∷ post)) h) in
      let m1 = merged node (set_free node true (lock env m)) in
      let (t, ts, is) = release_first_cases n post in
      let parent = m1.heap_start + total xs in
      let len = total-append xs (s ∷ []) in
      let (links, _) = Chain-split m1.block m1.heap_start _ pre _ refl h1.chain in
      let found =
        find_parent-cons fuel node m1.heap_start xs s m1 links (omega (arith, len, k1.start))
          enough in
      let later : (node == m1.heap_start) ≡ false = ground (arith, k1.start, len) in
      let (h2, k2) =
        absorbed-IsHeap m1 xs s t ts
          (subst (IsHeap m1) (append_assoc xs (s ∷ []) _ ∙ ap (λ l. xs ++ (s ∷ l)) is) h1) in
      let m2 = if (m1.block parent).free then heap_block_merge_down parent m1 else m1 in
      (
        unlock env m2,
        kfree_steps fuel node m (omega (arith, h.ends, h.small, total-append pre (used n ∷ post)))
            ∙ rw (later, found),
        rw (release-snoc, is) (IsHeap-unlock m2 _ h2),
        Keeps-locked (Keeps-trans k1 k2),
      )

  -- On a well-formed heap, with more fuel than there are blocks below the freed one, `kfree` of
  -- the pointer to a used block returns; the block is free and is joined with the free blocks next
  -- to it on either side, every other block is as it was, and no payload byte changes.
  pub kfree_refines :
      (fuel n : ℕ) (m : Machine E) (pre post : List Span)
      → IsHeap m (pre ++ (used n ∷ post))
      → length pre < fuel
      → (m' : Machine E) × (kfree env fuel (m.heap_start + total pre + header_size) m ≡ some m')
        × IsHeap m' (release pre n post)
        × Keeps m m'
  kfree_refines fuel n m pre post h enough = elim (snoc_cases pre) [
    | inl e ↦ rw e (kfree-first fuel n m post (subst (λ l. IsHeap m (l ++ (used n ∷ post))) e h))
    | inr (xs, s, e) ↦ rw e (
        kfree-later fuel n m xs s post (subst (λ l. IsHeap m (l ++ (used n ∷ post))) e h)
          (omega (arith, ap length e, length-append xs (s ∷ []))))
  ]
