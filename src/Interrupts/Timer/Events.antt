-- ===== src/Interrupts/Timer/Events.antt =====
-- The list of timer events, and what leaves it.
use cho_os.Prelude.{
  NotIn, Distinct, ℕ, zero, suc, ◌<◌, ◌≡◌, ◌≢◌, refl, ap, sym, ◌∙◌, subst, Bool, true, false, ◌||◌,
  ◌==◌, if◌then◌else◌, Option, some, List, [], ◌∷◌, length, arith, Bool-cases, inl, inr,
}
use cho_os.Memory.Machine.{◌>>=◌}
use cho_os.Interrupts.Timer.{
  Calls, TimerEvent, Timer, put_event, unlink, uninstall_from, uninstall_locked,
  uninstall_timer_event,
}

-- The events that hang on a pointer.
abbrev pub Linked : (ℕ → TimerEvent) → ℕ → List ℕ → Type 0
Linked h p [] = p ≡ 0
Linked h p (x ∷ xs) = (p ≡ x) × (x ≢ 0) × Linked h (h x).next xs

-- the list without an event
abbrev pub removed : ℕ → List ℕ → List ℕ
removed t [] = []
removed t (x ∷ xs) = if x == t then xs else x ∷ removed t xs

abbrev pub contains : ℕ → List ℕ → Bool
contains t [] = false
contains t (x ∷ xs) = (x == t) || contains t xs

-- An event outside the list may change.
pub Linked-put :
    (h : ℕ → TimerEvent) (p y : ℕ) (e : TimerEvent) (xs : List ℕ)
    → NotIn y xs
    → Linked h p xs
    → Linked (put_event h y e) p xs
Linked-put h p y e [] out l = l
Linked-put h p y e (x ∷ xs) out l =
    let other : (x == y) ≡ false = ground (arith, out.0) in
    (l.0, l.1, rw other (Linked-put h (h x).next y e xs out.1 l.2))

module _ {E : Type 0} (calls : Calls E) where
  -- What freeing the event comes to, if it is in the list.
  pub freed : ℕ → List ℕ → E → E
  freed event xs env = if contains event xs then calls.kfree event env else env

  -- The loop has taken the event out of what hangs on `current`.
  record Unlinked (event current : ℕ) (xs : List ℕ) (t t' : Timer E) : Type 0 where
    linked : Linked t'.event (t'.event current).next (removed event xs)
    env : t'.env ≡ freed event xs t.env
    first : t'.timer_events ≡ t.timer_events
    ticks : t'.ticks_since_boot ≡ t.ticks_since_boot
    kept : (x : ℕ) → x ≢ current → NotIn x xs → t'.event x ≡ t.event x
    funcs : (x : ℕ) → (t'.event x).func ≡ (t.event x).func

  uninstall_from-Unlinked :
      (fuel event current : ℕ) (xs : List ℕ) (t : Timer E)
      → Linked t.event (t.event current).next xs
      → NotIn current xs
      → Distinct xs
      → length xs < fuel
      → (t' : Timer E) × (uninstall_from calls fuel event current t ≡ some t')
        × Unlinked event current xs t t'
  unfolding uninstall_from freed unlink
  uninstall_from-Unlinked zero event current xs t l out d h = absurd (omega arith)
  uninstall_from-Unlinked (suc fuel) event current [] t l out d h =
      let ended : ((t.event current).next == 0) ≡ true = ground (arith, l) in
      (
        t,
        rw (uninstall_from, ended) refl,
        record {
          linked = l;
          env = refl;
          first = refl;
          ticks = refl;
          kept = λ x ne o. refl;
          funcs = λ x. refl;
        },
      )
  uninstall_from-Unlinked (suc fuel) event current (x ∷ xs) t l out d h =
      let next = l.0 in
      let going : ((t.event current).next == 0) ≡ false = ground (arith, l.0, l.1) in
      elim (Bool-cases (x == event)) [
        | inl found ↦
            let here : ((t.event current).next == event) ≡ true = ground (arith, l.0) in
            let e : x ≡ event = ground arith in
            let self : (current == current) ≡ true = ground arith in
            (
              unlink calls event current t,
              rw (uninstall_from, going, here) refl,
              record {
                linked =
                    rw (self, found, ← e)
                      (Linked-put t.event (t.event x).next current _ xs out.1 l.2);
                env = rw found refl;
                first = refl;
                ticks = refl;
                kept = λ y ne o. let other : (y == current) ≡ false = ground arith in rw other refl;
                funcs = λ y. elim (Bool-cases (y == current)) [
                  | inl at ↦
                      let at' : y ≡ current = ground arith in
                      rw at (ap (λ z. (t.event z).func) (sym at'))
                  | inr at ↦ rw at refl
                ];
              },
            )
        | inr other ↦
            let there : ((t.event current).next == event) ≡ false = ground (arith, l.0) in
            let (t', e, u) =
              uninstall_from-Unlinked fuel event x xs t l.2 d.0 d.1 (omega (arith, h)) in
            (
              t',
              rw (uninstall_from, going, there, next) e,
              record {
                linked = rw other (
                  ap (λ (v : TimerEvent). v.next) (u.kept current out.0 out.1) ∙ next,
                  l.1,
                  u.linked,
                );
                env = rw other u.env;
                first = u.first;
                ticks = u.ticks;
                kept = λ y ne o. u.kept y o.0 o.1;
                funcs = u.funcs;
              },
            )
      ]

  -- What `uninstall_timer_event` has done: the list without the event, each function as it was.
  pub record Removed (event : ℕ) (xs : List ℕ) (t t' : Timer E) : Type 0 where
    pub linked : Linked t'.event t'.timer_events (removed event xs)
    pub env : t'.env ≡ calls.unlock_scheduler (freed event xs (calls.lock_scheduler t.env))
    pub funcs : (x : ℕ) → (t'.event x).func ≡ (t.event x).func
    pub ticks : t'.ticks_since_boot ≡ t.ticks_since_boot

  contains-zero : (h : ℕ → TimerEvent) (p : ℕ) (xs : List ℕ) → Linked h p xs → contains 0 xs ≡ false
  contains-zero h p [] l = refl
  contains-zero h p (x ∷ xs) l =
      let other : (x == 0) ≡ false = ground (arith, l.1) in
      rw other (contains-zero h (h x).next xs l.2)

  removed-zero : (h : ℕ → TimerEvent) (p : ℕ) (xs : List ℕ) → Linked h p xs → removed 0 xs ≡ xs
  removed-zero h p [] l = refl
  removed-zero h p (x ∷ xs) l =
      let other : (x == 0) ≡ false = ground (arith, l.1) in
      rw other (ap (λ l. x ∷ l) (removed-zero h (h x).next xs l.2))

  -- With fuel for each event of the list, `uninstall_timer_event` returns. The list is as it was but
  -- without the event, each event keeps its function, and between the lock and the unlock of the
  -- scheduler the event is freed once if it was in the list; a NULL or an event that is not in the list
  -- changes nothing.
  pub uninstall_timer_event-Removed :
      (fuel event : ℕ) (xs : List ℕ) (t : Timer E)
      → Linked t.event t.timer_events xs
      → Distinct xs
      → length xs < fuel
      → (t' : Timer E) × (uninstall_timer_event calls fuel event t ≡ some t')
        × Removed event xs t t'
  unfolding uninstall_timer_event uninstall_locked freed
  uninstall_timer_event-Removed fuel event [] t l d h =
      let t1 : Timer E = record t { env = calls.unlock_scheduler (calls.lock_scheduler t.env) } in
      let empty : (t.timer_events == 0) ≡ true = ground (arith, l) in
      elim (Bool-cases (event == 0)) [
        | inl null ↦
            (t1, rw null refl, record { linked = l; env = refl; funcs = λ x. refl; ticks = refl })
        | inr event_given ↦ (
          t1,
          rw (event_given, empty) refl,
          record { linked = l; env = refl; funcs = λ x. refl; ticks = refl },
        )
      ]
  uninstall_timer_event-Removed fuel event (x ∷ xs) t l d h =
      let t1 : Timer E = record t { env = calls.lock_scheduler t.env } in
      let some_event : (t.timer_events == 0) ≡ false = ground (arith, l.0, l.1) in
      elim (Bool-cases (event == 0)) [
        | inl null ↦
            let zero : event ≡ 0 = ground arith in
            let absent : contains event (x ∷ xs) ≡ false =
              ap (λ y. contains y (x ∷ xs)) zero
              ∙ contains-zero t.event t.timer_events (x ∷ xs) l in
            let same : removed event (x ∷ xs) ≡ x ∷ xs =
              ap (λ y. removed y (x ∷ xs)) zero ∙ removed-zero t.event t.timer_events (x ∷ xs) l in
            (
              record t { env = calls.unlock_scheduler (calls.lock_scheduler t.env) },
              rw null refl,
              record {
                linked = subst (Linked t.event t.timer_events) (sym same) l;
                env = rw absent refl;
                funcs = λ x. refl;
                ticks = refl;
              },
            )
        | inr event_given ↦ elim (Bool-cases (x == event)) [
          | inl found ↦
              let here : (t.timer_events == event) ≡ true = ground (arith, l.0) in
              let e : x ≡ event = ground arith in
              (
                record t {
                  timer_events = (t.event event).next;
                  env = calls.unlock_scheduler (calls.kfree event (calls.lock_scheduler t.env));
                },
                rw (event_given, some_event, here) refl,
                record {
                  linked = rw (found, ← e) l.2;
                  env = rw found refl;
                  funcs = λ x. refl;
                  ticks = refl;
                },
              )
          | inr other ↦
              let there : (t.timer_events == event) ≡ false = ground (arith, l.0) in
              let p = t.timer_events in
              let at = sym l.0 in
              let (t', e, u) =
                uninstall_from-Unlinked fuel event p xs t1
                  (subst (λ y. Linked t.event (t.event y).next xs) at l.2)
                  (subst (λ y. NotIn y xs) at d.0) d.1 (omega (arith, h)) in
              (
                record t' { env = calls.unlock_scheduler t'.env },
                rw (event_given, some_event, there)
                    (ap
                      (λ (o : Option (Timer E)). o >>= λ (q : Timer E).
                        some (record q { env = calls.unlock_scheduler q.env }))
                      e),
                record {
                  linked = rw other (
                    u.first ∙ l.0,
                    l.1,
                    subst (λ y. Linked t'.event (t'.event y).next (removed event xs)) l.0 u.linked,
                  );
                  env = rw other (ap calls.unlock_scheduler u.env);
                  funcs = u.funcs;
                  ticks = u.ticks;
                },
              )
        ]
      ]
