-- ===== src/Scheduler/Sleepers.antt =====
-- The list of sleeping tasks, and taking a task out of it.
use cho_os.Prelude.{
  ◌||◌, ℕ, ◌≡◌, ◌≢◌, refl, sym, subst, Bool, false, List, [], ◌∷◌, ◌++◌, leb, ◌==◌, if◌then◌else◌,
  arith, Bool-cases, inl, inr, NotIn, Distinct,
}
use cho_os.Scheduler.State.{ready_to_run, TaskControlBlock, Sched, set_next}
use cho_os.Scheduler.Queue.{IsReady, Linked, NotIn-snoc, put_task-IsReady}
use cho_os.Scheduler.Block.{IsQuiet}

-- The tasks of a list that are due, and those that are not.
module _ (deadline : ℕ → ℕ) (now : ℕ) where
  abbrev pub due : List ℕ → List ℕ
  due [] = []
  due (x ∷ xs) = if leb (deadline x) now then x ∷ due xs else due xs

  abbrev pub asleep : List ℕ → List ℕ
  asleep [] = []
  asleep (x ∷ xs) = if leb (deadline x) now then asleep xs else x ∷ asleep xs

abbrev pub contains : ℕ → List ℕ → Bool
contains t [] = false
contains t (x ∷ xs) = (x == t) || contains t xs

abbrev pub AllApart : List ℕ → List ℕ → Type 0
AllApart [] q = Unit
AllApart (x ∷ xs) q = NotIn x q × AllApart xs q

pub AllApart-snoc :
    (xs q : List ℕ) (x : ℕ) → AllApart xs q → NotIn x xs → AllApart xs (q ++ (x ∷ []))
AllApart-snoc [] q x h out = tt
AllApart-snoc (y ∷ ys) q x h out =
    (NotIn-snoc y x q (λ e. out.0 (sym e)) h.0, AllApart-snoc ys q x h.1 out.1)

pub NotIn-zero : (h : ℕ → TaskControlBlock) (p : ℕ) (xs : List ℕ) → Linked h p xs → NotIn 0 xs
NotIn-zero h p [] l = tt
NotIn-zero h p (x ∷ xs) l = (λ e. l.1 (sym e), NotIn-zero h (h x).next xs l.2)

pub Linked-agree :
    (h h' : ℕ → TaskControlBlock) (p x : ℕ) (xs q : List ℕ)
    → ((a : ℕ) → a ≢ x → NotIn a q → h' a ≡ h a)
    → NotIn x xs
    → AllApart xs q
    → Linked h p xs
    → Linked h' p xs
Linked-agree h h' p x [] q same out apart l = l
Linked-agree h h' p x (y ∷ ys) q same out apart l =
    let at = same y (λ e. out.0 (sym e)) apart.0 in
    (
      l.0,
      l.1,
      subst (λ b. Linked h' b.next ys) (sym at)
          (Linked-agree h h' (h y).next x ys q same out.1 apart.1 l.2),
    )

-- What points to the rest of the list behind `prev`: its `next`, or the head of the list.
abbrev pub link_of : ℕ → Sched → ℕ
link_of prev s = if prev == 0 then s.sleeping_tasks else (s.task prev).next

-- the assignment that takes the task in front of `next` out of the list
abbrev pub relink : ℕ → ℕ → Sched → Sched
relink prev next s = if prev == 0 then record s { sleeping_tasks = next } else set_next prev next s

pub record Relinked (prev next : ℕ) (q : List ℕ) (s s' : Sched) : Type 0 where
  pub at : link_of prev s' ≡ next
  pub ready : IsReady s' q
  pub quiet : IsQuiet s'
  pub current : s'.current ≡ s.current
  pub deadlines : (a : ℕ) → (s'.task a).target_wakeup_time ≡ (s.task a).target_wakeup_time
  pub states : (a : ℕ) → (s'.task a).state ≡ (s.task a).state
  pub others : (a : ℕ) → a ≢ prev → s'.task a ≡ s.task a
  pub sleepers : prev ≢ 0 → s'.sleeping_tasks ≡ s.sleeping_tasks

pub relink-Relinked :
    (prev next : ℕ) (s : Sched) (q : List ℕ)
    → IsReady s q
    → IsQuiet s
    → NotIn prev q
    → Relinked prev next q s (relink prev next s)
relink-Relinked prev next s q r quiet out = elim (Bool-cases (prev == 0)) [
  | inl first ↦ rw first (record {
    at = rw first refl;
    ready = record { linked = r.linked; last = r.last; distinct = r.distinct };
    quiet = record {
      none_postponed = quiet.none_postponed;
      irq_room = quiet.irq_room;
      room = quiet.room;
    };
    current = refl;
    deadlines = λ a. refl;
    states = λ a. refl;
    others = λ a ne. refl;
    sleepers = λ ne. absurd (ne (ground arith));
  })
  | inr later ↦ rw later (record {
    at = rw later (ground arith);
    ready = put_task-IsReady prev _ s q r out;
    quiet = record {
      none_postponed = quiet.none_postponed;
      irq_room = quiet.irq_room;
      room = quiet.room;
    };
    current = refl;
    deadlines = λ a. ground arith;
    states = λ a. ground arith;
    others = λ a ne. let other : (a == prev) ≡ false = ground (arith, ne) in rw other refl;
    sleepers = λ ne. refl;
  })
]

-- What the loop asks for at the tasks `xs`, behind `prev`.
pub record Asleep (deadline : ℕ → ℕ) (prev : ℕ) (xs q : List ℕ) (s : Sched) : Type 0 where
  pub linked : Linked s.task (link_of prev s) xs
  pub distinct : Distinct xs
  pub apart : AllApart xs q
  pub behind : NotIn prev xs
  pub prev_apart : NotIn prev q
  pub ready : IsReady s q
  pub quiet : IsQuiet s
  pub times : (a : ℕ) → (s.task a).target_wakeup_time ≡ deadline a

pub record Awoken (deadline : ℕ → ℕ) (now prev : ℕ) (xs q : List ℕ) (s s' : Sched) : Type 0 where
  pub linked : Linked s'.task (link_of prev s') (asleep deadline now xs)
  pub ready : IsReady s' (q ++ due deadline now xs)
  pub quiet : IsQuiet s'
  pub current : s'.current ≡ s.current
  pub states :
      (a : ℕ)
      → (s'.task a).state
        ≡ (if contains a (due deadline now xs) then ready_to_run else (s.task a).state)
  pub others : (a : ℕ) → a ≢ prev → NotIn a xs → NotIn a q → s'.task a ≡ s.task a
  pub sleepers : prev ≢ 0 → s'.sleeping_tasks ≡ s.sleeping_tasks
