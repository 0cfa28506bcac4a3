-- ===== src/Timer.antt =====
-- src/utils/timer_utils.c: the stopwatch. The clock's reading in nanoseconds is an argument of each
-- operation, and no reading is before one taken earlier; it stays below 2^63.
use miqs.Prelude.{
  ap, ◌∙◌, ℕ, ◌+◌, ◌-◌, ◌/◌, ◌≤◌, ◌≡◌, refl, Bool, true, false, not, ◌||◌, List, [], ◌∷◌,
  if◌then◌else◌, arith,
}

-- `stopwatch_t`
pub record Stopwatch : Type 0 where
  pub start_mark : ℕ
  pub pause_mark : ℕ
  pub running : Bool
  pub paused : Bool

unfoldable pub timer_start : ℕ → Stopwatch
timer_start now = record { start_mark = now; pause_mark = 0; running = true; paused = false }

unfoldable pub timer_pause : ℕ → Stopwatch → Stopwatch
timer_pause now t =
    if not t.running || t.paused
    then t
    else record t { pause_mark = now - t.start_mark; running = false; paused = true }

unfoldable pub timer_unpause : ℕ → Stopwatch → Stopwatch
timer_unpause now t =
    if t.running || not t.paused
    then t
    else record t { start_mark = now - t.pause_mark; running = true; paused = false }

-- The last line is not reached by a stopwatch that has been started.
unfoldable pub timer_delta_ns : ℕ → Stopwatch → ℕ
timer_delta_ns now t =
    if t.running
    then now - t.start_mark
    else if t.paused
    then t.pause_mark
    else t.pause_mark - t.start_mark

unfoldable pub timer_delta_us : ℕ → Stopwatch → ℕ
unfolding timer_delta_ns
timer_delta_us now t = timer_delta_ns now t / 1000

unfoldable pub timer_delta_ms : ℕ → Stopwatch → ℕ
unfolding timer_delta_ns
timer_delta_ms now t = timer_delta_ns now t / 1000000

unfoldable pub timer_delta_s : ℕ → Stopwatch → ℕ
unfolding timer_delta_ns
timer_delta_s now t = timer_delta_ns now t / 1000000000

unfoldable pub timer_delta_m : ℕ → Stopwatch → ℕ
unfolding timer_delta_s
timer_delta_m now t = timer_delta_s now t / 60

unfoldable pub timer_delta_h : ℕ → Stopwatch → ℕ
unfolding timer_delta_m
timer_delta_h now t = timer_delta_m now t / 60

-- A call on a stopwatch, and the time that passes before it.
pub data Call : Type 0 where
  pause_after unpause_after : ℕ → Call

-- The clock and the stopwatch after a series of calls.
abbrev pub run_calls : List Call → ℕ → Stopwatch → ℕ × Stopwatch
run_calls [] now t = (now, t)
run_calls (pause_after d ∷ cs) now t = run_calls cs (now + d) (timer_pause (now + d) t)
run_calls (unpause_after d ∷ cs) now t = run_calls cs (now + d) (timer_unpause (now + d) t)

-- The time that passes while the stopwatch runs, in a series of calls followed by a wait of `last`.
abbrev pub time_running : List Call → ℕ → Bool → ℕ
time_running [] last running = if running then last else 0
time_running (pause_after d ∷ cs) last running =
    (if running then d else 0) + time_running cs last false
time_running (unpause_after d ∷ cs) last running =
    (if running then d else 0) + time_running cs last true

-- A stopwatch that has been started, running or paused, with a time on it.
record Running (now : ℕ) (t : Stopwatch) (elapsed : ℕ) : Type 0 where
  is_running : t.running ≡ true
  not_paused : t.paused ≡ false
  marks : t.start_mark + elapsed ≡ now

record Paused (now : ℕ) (t : Stopwatch) (elapsed : ℕ) : Type 0 where
  not_running : t.running ≡ false
  is_paused : t.paused ≡ true
  mark : t.pause_mark ≡ elapsed
  earlier : elapsed ≤ now

abbrev Shows : Bool → ℕ → Stopwatch → ℕ → Type 0
Shows true = Running
Shows false = Paused

pause-Shows :
    (running : Bool) (now d : ℕ) (t : Stopwatch) (e : ℕ)
    → Shows running now t e
    → Shows false (now + d) (timer_pause (now + d) t) (e + (if running then d else 0))
unfolding timer_pause
pause-Shows true now d t e h =
    rw (h.is_running, h.not_paused)
      (record {
        not_running = refl;
        is_paused = refl;
        mark = omega (arith, h.marks);
        earlier = omega (arith, h.marks);
      })
pause-Shows false now d t e h =
    rw (h.not_running, h.is_paused)
      (record {
        not_running = refl;
        is_paused = refl;
        mark = h.mark ∙ omega arith;
        earlier = omega (arith, h.earlier);
      })

unpause-Shows :
    (running : Bool) (now d : ℕ) (t : Stopwatch) (e : ℕ)
    → Shows running now t e
    → Shows true (now + d) (timer_unpause (now + d) t) (e + (if running then d else 0))
unfolding timer_unpause
unpause-Shows true now d t e h =
    rw h.is_running
      (record { is_running = refl; not_paused = h.not_paused; marks = omega (arith, h.marks) })
unpause-Shows false now d t e h =
    rw (h.not_running, h.is_paused)
      (record { is_running = refl; not_paused = refl; marks = omega (arith, h.mark, h.earlier) })

delta-Shows :
    (running : Bool) (now last : ℕ) (t : Stopwatch) (e : ℕ)
    → Shows running now t e
    → timer_delta_ns (now + last) t ≡ e + (if running then last else 0)
unfolding timer_delta_ns
delta-Shows true now last t e h = rw h.is_running (omega (arith, h.marks))
delta-Shows false now last t e h = rw (h.not_running, h.is_paused) (omega (arith, h.mark))

delta-run :
    (cs : List Call) (last : ℕ) (running : Bool) (now : ℕ) (t : Stopwatch) (e : ℕ)
    → Shows running now t e
    → let r : ℕ × Stopwatch = run_calls cs now t in
      timer_delta_ns (r.0 + last) r.1 ≡ e + time_running cs last running
delta-run [] last running now t e h = delta-Shows running now last t e h
delta-run (pause_after d ∷ cs) last running now t e h =
    delta-run cs last false (now + d) _ _ (pause-Shows running now d t e h) ∙ omega arith
delta-run (unpause_after d ∷ cs) last running now t e h =
    delta-run cs last true (now + d) _ _ (unpause-Shows running now d t e h) ∙ omega arith

-- A stopwatch that was started, and then paused and unpaused any number of times in any order, shows
-- exactly the time during which it ran: in nanoseconds, and, rounded down, in microseconds and hours.
pub delta-run_calls :
    (cs : List Call) (now last : ℕ)
    → let r : ℕ × Stopwatch = run_calls cs now (timer_start now) in
      (timer_delta_ns (r.0 + last) r.1 ≡ time_running cs last true)
      × (timer_delta_us (r.0 + last) r.1 ≡ time_running cs last true / 1000)
      × (timer_delta_h (r.0 + last) r.1 ≡ time_running cs last true / 3600000000000)
unfolding timer_start timer_delta_us timer_delta_h
delta-run_calls cs now last =
    let ns : timer_delta_ns ((run_calls cs now (timer_start now)).0 + last)
          (run_calls cs now (timer_start now)).1
        ≡ time_running cs last true =
      delta-run cs last true now (timer_start now) 0
        (record { is_running = refl; not_paused = refl; marks = omega arith })
      ∙ omega arith in
    (ns, ap (λ n. n / 1000) ns, ap (λ n. n / 1000000000 / 60 / 60) ns ∙ omega arith)
