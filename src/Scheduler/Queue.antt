-- ===== src/Scheduler/Queue.antt =====
-- The ready queue as a list of tasks, and what it takes to append to it.
pub use cho_os.Prelude.{NotIn, Distinct}
use cho_os.Prelude.{
  ℕ, ◌≡◌, ◌≢◌, refl, sym, subst, false, List, [], ◌∷◌, ◌++◌, ◌==◌, if◌then◌else◌, arith,
}
use cho_os.Scheduler.State.{TaskControlBlock, Sched, put_task}
use cho_os.Scheduler.Switch.{append_last}
use cho_os.Scheduler.Tasks.{append_ready}

abbrev pub Blocks : Type 0
Blocks = ℕ → TaskControlBlock

-- Following `next` from `p` gives the tasks of the list, and then NULL.
abbrev pub Linked : Blocks → ℕ → List ℕ → Type 0
Linked h p [] = p ≡ 0
Linked h p (t ∷ ts) = (p ≡ t) × (t ≢ 0) × Linked h (h t).next ts

-- the last task of the list, NULL if there is none
abbrev pub last_of : List ℕ → ℕ
last_of [] = 0
last_of (t ∷ []) = t
last_of (t ∷ u ∷ ts) = last_of (u ∷ ts)

-- The ready queue holds these tasks, in this order.
pub record IsReady (s : Sched) (q : List ℕ) : Type 0 where
  pub linked : Linked s.task s.first_ready q
  pub last : s.last_ready ≡ last_of q
  pub distinct : Distinct q

-- A write to a task outside the list keeps the links.
pub Linked-put :
    (h : Blocks) (p x : ℕ) (t : TaskControlBlock) (q : List ℕ)
    → NotIn x q
    → Linked h p q
    → Linked (put_task h x t) p q
Linked-put h p x t [] out l = l
Linked-put h p x t (y ∷ ys) out l =
    let same : put_task h x t y ≡ h y = ground (arith, out.0) in
    (
      l.0,
      l.1,
      subst (λ b. Linked (put_task h x t) b.next ys) (sym same)
          (Linked-put h (h y).next x t ys out.1 l.2),
    )

-- So does a write that leaves every `next` as it was.
pub Linked-same :
    (h h' : Blocks) (p : ℕ) (q : List ℕ)
    → ((a : ℕ) → (h' a).next ≡ (h a).next)
    → Linked h p q
    → Linked h' p q
Linked-same h h' p [] same l = l
Linked-same h h' p (y ∷ ys) same l =
    (l.0, l.1, subst (λ n. Linked h' n ys) (sym (same y)) (Linked-same h h' (h y).next ys same l.2))

pub last_of-snoc : (q : List ℕ) (x : ℕ) → last_of (q ++ (x ∷ [])) ≡ x
last_of-snoc [] x = refl
last_of-snoc (t ∷ []) x = refl
last_of-snoc (t ∷ u ∷ ts) x = last_of-snoc (u ∷ ts) x

pub NotIn-snoc : (y x : ℕ) (q : List ℕ) → y ≢ x → NotIn y q → NotIn y (q ++ (x ∷ []))
NotIn-snoc y x [] ne out = (ne, tt)
NotIn-snoc y x (t ∷ ts) ne out = (out.0, NotIn-snoc y x ts ne out.1)

pub Distinct-snoc : (q : List ℕ) (x : ℕ) → NotIn x q → Distinct q → Distinct (q ++ (x ∷ []))
Distinct-snoc [] x out d = (tt, tt)
Distinct-snoc (t ∷ ts) x out d =
    (NotIn-snoc t x ts (λ e. out.0 (sym e)) d.0, Distinct-snoc ts x out.1 d.1)

pub NotIn-last_of : (x t : ℕ) (ts : List ℕ) → NotIn x (t ∷ ts) → x ≢ last_of (t ∷ ts)
NotIn-last_of x t [] out = out.0
NotIn-last_of x t (u ∷ us) out = NotIn-last_of x u us out.1

-- Setting the `next` of the last task to a task that ends the list.
pub Linked-snoc :
    (h : Blocks) (p x t : ℕ) (ts : List ℕ)
    → Linked h p (t ∷ ts)
    → Distinct (t ∷ ts)
    → NotIn x (t ∷ ts)
    → x ≢ 0
    → (h x).next ≡ 0
    → let l = last_of (t ∷ ts) in
      Linked (put_task h l (record (h l) { next = x })) p (t ∷ (ts ++ (x ∷ [])))
Linked-snoc h p x t [] l d out ne ends = (l.0, l.1, (ground arith, ne, ground (arith, out.0, ends)))
Linked-snoc h p x t (u ∷ us) l d out ne ends =
    let z = last_of (u ∷ us) in
    let apart = NotIn-last_of t u us d.0 in
    let rest = Linked-snoc h (h t).next x u us l.2 d.1 out.1 ne ends in
    let b : TaskControlBlock = (let w = h z in record w { next = x }) in
    let h' : Blocks = put_task h z b in
    let same : (h t).next ≡ (h' t).next = ground (arith, apart) in
    (l.0, l.1, subst (λ n. Linked h' n (u ∷ (us ++ (x ∷ [])))) same rest)

-- `append_ready` of a task that is not in the queue, and whose `next` is NULL, puts it at the end.
pub append_ready-IsReady :
    (t : ℕ) (s : Sched) (q : List ℕ)
    → IsReady s q
    → NotIn t q
    → t ≢ 0
    → (s.task t).next ≡ 0
    → IsReady (append_ready t s) (q ++ (t ∷ []))
unfolding append_ready
append_ready-IsReady t s [] r out ne ends =
    rw r.linked (record { linked = (refl, ne, ends); last = refl; distinct = (tt, tt) })
append_ready-IsReady t s (y ∷ ys) r out ne ends =
    let some_first : (s.first_ready == 0) ≡ false = ground (arith, r.linked.0, r.linked.1) in
    rw (some_first, r.last)
      (record {
        linked = Linked-snoc s.task s.first_ready t y ys r.linked r.distinct out ne ends;
        last = sym (last_of-snoc (y ∷ ys) t);
        distinct = Distinct-snoc (y ∷ ys) t out r.distinct;
      })

pub last_of-ne-zero :
    (h : Blocks) (p t : ℕ) (ts : List ℕ) → Linked h p (t ∷ ts) → last_of (t ∷ ts) ≢ 0
last_of-ne-zero h p t [] l = l.1
last_of-ne-zero h p t (u ∷ us) l = last_of-ne-zero h (h t).next u us l.2

-- The two ways to append, by the test of the first or of the last task, agree on a queue.
pub append_last-eq-append_ready :
    (t : ℕ) (s : Sched) (q : List ℕ) → IsReady s q → append_last t s ≡ append_ready t s
unfolding append_last append_ready
append_last-eq-append_ready t s [] r = rw (r.linked, r.last)
append_last-eq-append_ready t s (y ∷ ys) r =
    let some_first : (s.first_ready == 0) ≡ false = ground (arith, r.linked.0, r.linked.1) in
    let some_last : (s.last_ready == 0) ≡ false =
      ground (arith, r.last, last_of-ne-zero s.task s.first_ready y ys r.linked) in
    rw (some_first, some_last)

-- A write to a task outside the queue keeps it.
pub put_task-IsReady :
    (x : ℕ) (b : TaskControlBlock) (s : Sched) (q : List ℕ)
    → IsReady s q
    → NotIn x q
    → IsReady (record s { task = put_task s.task x b }) q
put_task-IsReady x b s q r out = record {
  linked = Linked-put s.task s.first_ready x b q out r.linked;
  last = r.last;
  distinct = r.distinct;
}

-- The first task taken off.
pub IsReady-tail :
    (s : Sched) (t : ℕ) (ts : List ℕ)
    → IsReady s (t ∷ ts)
    → let rest = (s.task t).next in
      IsReady
        (record s { first_ready = rest; last_ready = if rest == 0 then 0 else s.last_ready })
        ts
IsReady-tail s t [] r =
    let ends : (s.task t).next ≡ 0 = r.linked.2 in
    record { linked = ends; last = ground arith; distinct = tt }
IsReady-tail s t (u ∷ us) r = record {
  linked = r.linked.2;
  last = ground (arith, r.last, r.linked.2.0, r.linked.2.1);
  distinct = r.distinct.1;
}
