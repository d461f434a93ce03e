-- ===== src/Interrupts/Timer.antt =====
-- kernel/arch/i386/interrupts/timer.c: the clock tick and the list of functions that it calls. The
-- calls of the heap and of the scheduler's lock are parameters, on a state `E` of their own, and those
-- functions too, on the whole state of the timer.
pub mod Events
pub mod Ticks
use cho_os.Prelude.{
  ℕ, zero, suc, ◌+◌, ◌-◌, ◌/◌, ◌%◌, ◌^◌, Bool, ◌||◌, ◌==◌, if◌then◌else◌, Option, none, some,
  bit_or,
}
use cho_os.Memory.Machine.{◌>>=◌}
use cho_os.Interrupts.Ports.{Ports, outb}
use cho_os.Interrupts.Idt.{
  Idt, pit_ch0_data_port, pit_cmd_reg_port, port_write, irq_install_handler,
}

pub record Calls (E : Type 0) : Type 0 where
  pub kmalloc : ℕ → E → ℕ × E
  pub kfree : ℕ → E → E
  pub lock_scheduler : E → E
  pub unlock_scheduler : E → E

-- `struct TimerEvent`
pub record TimerEvent : Type 0 where
  pub func : ℕ
  pub next : ℕ

-- An event is named by its address, 0 for NULL.
pub record Timer (E : Type 0) : Type 0 where
  pub ticks_since_boot : ℕ
  pub timer_events : ℕ
  pub event : ℕ → TimerEvent
  pub env : E

abbrev pub put_event : (ℕ → TimerEvent) → ℕ → TimerEvent → ℕ → TimerEvent
put_event h p e a = if a == p then e else h a

abbrev pub freq_hz : ℕ
freq_hz = 1193180

-- `handler` is the address of `irq_0_handler`.
unfoldable pub timer_init : {E : Type 0} {S : Type 0} → ℕ → Timer E × Idt S → Timer E × Idt S
unfolding irq_install_handler
timer_init handler (t, s) =
    let divisor = freq_hz / 1000 in
    let command_byte = bit_or (bit_or (bit_or 0x00 0x30) 0x06) 0x00 in
    let s1 = port_write pit_cmd_reg_port command_byte (irq_install_handler 0 handler s) in
    let s2 = port_write pit_ch0_data_port (divisor % 2 ^ 8) s1 in
    (record t { ticks_since_boot = 0 }, port_write pit_ch0_data_port (divisor / 2 ^ 8 % 2 ^ 8) s2)

module _ {E : Type 0} (calls : Calls E) where
  -- what `install_timer_event` does with the block that it got
  unfoldable pub push_event : ℕ → ℕ × E → Timer E → ℕ × Timer E
  push_event func (new_event, env) t =
      let t1 = record t { env = env } in
      let e : TimerEvent = record { func = func; next = t.timer_events } in
      if new_event == 0 then (0, t1) else (
        new_event,
        record t1 { event = put_event t.event new_event e; timer_events = new_event },
      )

  unfoldable pub install_timer_event : ℕ → Timer E → ℕ × Timer E
  unfolding push_event
  install_timer_event func t = push_event func (calls.kmalloc 8 t.env) t

  -- `current->next = event->next; kfree(event);`
  unfoldable pub unlink : ℕ → ℕ → Timer E → Timer E
  unlink event current t =
      let e : TimerEvent = record { func = (t.event current).func; next = (t.event event).next } in
      record t { event = put_event t.event current e; env = calls.kfree event t.env }

  -- the loop of `uninstall_timer_event`
  unfoldable pub uninstall_from : ℕ → ℕ → ℕ → Timer E → Option (Timer E)
  unfolding unlink
  uninstall_from zero event current t = none
  uninstall_from (suc fuel) event current t =
      let next = (t.event current).next in
      let rest = uninstall_from fuel event next t in
      if next == 0 then some t else if next == event then some (unlink event current t) else rest

  -- behind the lock
  unfoldable pub uninstall_locked : ℕ → ℕ → Timer E → Option (Timer E)
  unfolding uninstall_from
  uninstall_locked fuel event t =
      if (event == 0) || (t.timer_events == 0)
      then some t
      else if t.timer_events == event
      then some (record t { timer_events = (t.event event).next; env = calls.kfree event t.env })
      else uninstall_from fuel event t.timer_events t

  unfoldable pub uninstall_timer_event : ℕ → ℕ → Timer E → Option (Timer E)
  unfolding uninstall_locked
  uninstall_timer_event fuel event t =
      uninstall_locked fuel event (record t { env = calls.lock_scheduler t.env }) >>= λ t1.
      some (record t1 { env = calls.unlock_scheduler t1.env })

-- `call` runs an installed function, by its address and with the ticks; it may change the timer.
module _ {E : Type 0} (call : ℕ → ℕ → Timer E → Timer E) where
  -- the loop of `irq_0_handler`
  unfoldable pub call_from : ℕ → ℕ → Timer E → Option (Timer E)
  call_from fuel zero t = some t
  call_from zero (suc node) t = none
  call_from (suc fuel) (suc node) t =
      let t1 = call (t.event (suc node)).func t.ticks_since_boot t in
      call_from fuel (t1.event (suc node)).next t1

  unfoldable pub irq_0_handler : ℕ → Timer E → Option (Timer E)
  unfolding call_from
  irq_0_handler fuel t =
      call_from fuel t.timer_events
        (record t { ticks_since_boot = (t.ticks_since_boot + 1) % 2 ^ 64 })
