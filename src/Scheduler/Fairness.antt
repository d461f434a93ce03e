-- ===== src/Scheduler/Fairness.antt =====
-- `schedule`, time after time: each task of the ready queue gets the processor.
use mathlib.Core.List.{append_assoc}
use cho_os.Prelude.{
  ℕ, zero, suc, ◌≡◌, ◌≢◌, refl, ap, sym, ◌∙◌, subst, Bool, true, false, List, [], ◌∷◌, ◌++◌, length,
}
use cho_os.Scheduler.State.{running, Sched, Flow, returns, switches}
use cho_os.Scheduler.Switch.{schedule, is_runnable}
use cho_os.Scheduler.Queue.{NotIn, IsReady}
use cho_os.Scheduler.RoundRobin.{after_requeue, schedule-Rotated}

-- the state that a call leaves, in whichever task
abbrev pub left : Flow Sched → Sched
left (returns s) = s
left (switches s) = s

-- `n` calls of `schedule`, each by the task that runs then
unfoldable pub rounds : ℕ → Sched → Sched
unfolding schedule
rounds zero s = s
rounds (suc n) s = rounds n (left (schedule s))

requeue-append :
    (b : Bool) (xs ys : List ℕ) (c : ℕ) → after_requeue b (xs ++ ys) c ≡ xs ++ after_requeue b ys c
requeue-append true xs ys c = append_assoc xs ys (c ∷ [])
requeue-append false xs ys c = refl

requeue-cons :
    (b : Bool) (t : ℕ) (ys : List ℕ) (c : ℕ) → after_requeue b (t ∷ ys) c ≡ t ∷ after_requeue b ys c
requeue-cons true t ys c = refl
requeue-cons false t ys c = refl

-- With no lock held, where a task runs that is not in the ready queue, each task of the queue runs after
-- as many calls of `schedule` as there are tasks in front of it and one more, whatever is behind it
-- in the queue.
pub rounds-runs :
    (s : Sched) (xs : List ℕ) (t : ℕ) (ys : List ℕ)
    → s.postpone_counter ≡ 0
    → IsReady s (xs ++ (t ∷ ys))
    → NotIn s.current (xs ++ (t ∷ ys))
    → s.current ≢ 0
    → let s' = rounds (suc (length xs)) s in (s'.current ≡ t) × ((s'.task t).state ≡ running)
unfolding rounds
rounds-runs s [] t ys free r out ne =
    let (s', e, rotated) = schedule-Rotated s t ys free r out ne in
    rw (rounds, e) (rotated.chosen, rotated.runs)
rounds-runs s (x ∷ xs) t ys free r out ne =
    let (s', e, rotated) = schedule-Rotated s x (xs ++ (t ∷ ys)) free r out ne in
    let b = is_runnable (s.task s.current).state in
    let shape : after_requeue b (xs ++ (t ∷ ys)) s.current
        ≡ xs ++ (t ∷ after_requeue b ys s.current) =
      requeue-append b xs (t ∷ ys) s.current ∙ ap (λ l. xs ++ l) (requeue-cons b t ys s.current) in
    let chosen = sym rotated.chosen in
    let apart = subst (NotIn x) shape rotated.apart in
    rw (rounds, e)
      (rounds-runs s' xs t (after_requeue b ys s.current) rotated.unlocked
        (subst (IsReady s') shape rotated.queue)
        (subst (λ a. NotIn a (xs ++ (t ∷ after_requeue b ys s.current))) chosen apart)
        (λ zero. r.linked.1 (sym (rotated.chosen) ∙ zero)))
