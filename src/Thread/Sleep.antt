-- ===== src/Thread/Sleep.antt =====
-- `Thread_Sleep` waits for a counter that nothing advances.
use uami_os.Base.{
  ℕ, ◌^◌, ◌<◌, ◌≡◌, refl, sym, ◌∙◌, ◌≢◌, inl, inr, Bool, true, Option, none, some, List, [], ◌∷◌,
  arith, ltb, ◌!=◌, Bool-cases, Option-cases, All, sub_u32,
}
use uami_os.Scheduler
use uami_os.Scheduler.{Kernel}
use uami_os.Scheduler.Yield.{timer_ticks-yield}
use uami_os.Thread.{interrupted, Round, sleep_loop, sleep}

-- The other threads leave `g_TimerTicks` alone; only `Scheduler_Tick` writes it.
abbrev pub KeepsTime : Round → Type 0
KeepsTime r = (k : Kernel) → (r.others k).timer_ticks ≡ k.timer_ticks

timer_ticks-interrupted : (r : Round) (k : Kernel) → (interrupted r k).timer_ticks ≡ k.timer_ticks
unfolding interrupted
timer_ticks-interrupted r k = ground arith

sleep_loop_runs :
    (rs : List Round) (ticks start : ℕ) (k k' : Kernel)
    → All KeepsTime rs
    → 0 < ticks
    → start ≡ k.timer_ticks
    → start < 2 ^ 32
    → sleep_loop rs ticks start k ≢ some (true, k')
unfolding sleep_loop Scheduler.get_ticks
sleep_loop_runs [] ticks start k k' keep some_ticks e small h = cc
sleep_loop_runs (r ∷ rs) ticks start k k' keep some_ticks e small h =
    let k₁ = interrupted r k in
    let same : start ≡ k₁.timer_ticks = e ∙ sym (timer_ticks-interrupted r k) in
    let waits : ltb (sub_u32 k₁.timer_ticks start) ticks ≡ true = ground arith in
    elim (Bool-cases (k₁.need_schedule != 0)) [
      | inl wanted ↦ elim (Option-cases (Scheduler.yield (record k₁ { need_schedule = 0 }))) [
        | inl fault ↦
            let z : ◌≡◌ {A = Option (Bool × Kernel)} none (some (true, k')) =
              rw (waits, wanted, fault) at h in
            cc
        | inr (k₂, run) ↦
            sleep_loop_runs rs ticks start (r.others k₂) k' keep.1 some_ticks
              (same ∙ sym (keep.0 k₂ ∙ timer_ticks-yield _ k₂ run)) small
              (rw (waits, wanted, run) at h)
      ]
      | inr idle ↦
          sleep_loop_runs rs ticks start k₁ k' keep.1 some_ticks same small (rw (waits, idle) at h)
    ]

-- However many rounds the loop of `Thread_Sleep` makes, it does not end, if at least one tick is
-- asked for and the other threads leave the time alone: neither the timer interrupt nor
-- `Scheduler_Yield` advances it.
pub sleep-ne-done :
    (rs : List Round) (ticks : ℕ) (k k' : Kernel)
    → All KeepsTime rs
    → 0 < ticks
    → k.timer_ticks < 2 ^ 32
    → sleep rs ticks k ≢ some (true, k')
unfolding sleep Scheduler.get_ticks
sleep-ne-done rs ticks k k' keep some_ticks small =
    sleep_loop_runs rs ticks k.timer_ticks k k' keep some_ticks refl small
