-- ===== src/Agents/Watchdog.antt =====
-- app/sidecar/acp/stall-watchdog.ts. The timer is the time at which it is due, in milliseconds; a
-- timer that is due is served before what comes at that time. `stalls` counts the calls of `onStall`.
use capisco.Prelude.{
  ℕ, suc, ◌+◌, ◌<◌, ◌≡◌, refl, Bool, true, false, ◌&&◌, Option, none, some, List, [], ◌∷◌,
  if◌then◌else◌, ltb, leb, arith, inl, inr, Bool-cases, ◌∙◌, ap,
}

pub record StallWatchdog : Type 0 where
  pub timer : Option ℕ
  pub fired : Bool
  pub ms : ℕ
  pub stalls : ℕ

abbrev pub new_watchdog : ℕ → StallWatchdog
new_watchdog ms = record { timer = none; fired = false; ms = ms; stalls = 0 }

unfoldable pub stop : StallWatchdog → StallWatchdog
stop w = record w { timer = none }

unfoldable pub arm : ℕ → StallWatchdog → StallWatchdog
arm now w = if leb w.ms 0 then stop w else record (stop w) { timer = some (now + w.ms) }

unfoldable pub start : ℕ → StallWatchdog → StallWatchdog
start now w = arm now w

unfoldable pub kick : ℕ → StallWatchdog → StallWatchdog
kick now w = if w.fired then w else arm now w

-- The callback of the timer.
unfoldable pub stall : StallWatchdog → StallWatchdog
stall w = record w { timer = none; fired = true; stalls = suc w.stalls }

-- The clock reaches a time.
unfoldable pub elapse : ℕ → StallWatchdog → StallWatchdog
elapse now w = elim w.timer [ none ↦ w | some due ↦ if leb due now then stall w else w ]

-- Events of the agent at these times.
unfoldable pub kicks : List ℕ → StallWatchdog → StallWatchdog
kicks [] w = w
kicks (t ∷ ts) w = kicks ts (kick t (elapse t w))

-- Each event comes before the time-out of the one before it.
pub is_lively : ℕ → ℕ → List ℕ → Bool
is_lively ms last [] = true
is_lively ms last (t ∷ ts) = ltb t (last + ms) && is_lively ms t ts

armed : ℕ → ℕ → StallWatchdog
armed ms due = record { timer = some due; fired = false; ms = ms; stalls = 0 }

hung : ℕ → StallWatchdog
hung ms = record { timer = none; fired = true; ms = ms; stalls = 1 }

kicks-hung : (ms : ℕ) (ts : List ℕ) → kicks ts (hung ms) ≡ hung ms
unfolding kicks kick elapse hung
kicks-hung ms [] = refl
kicks-hung ms (t ∷ ts) = kicks-hung ms ts

kick_late : (ms due t : ℕ) → leb due t ≡ true → kick t (elapse t (armed ms due)) ≡ hung ms
unfolding kick elapse stall armed hung
kick_late ms due t h = rw h refl

kick_early :
    (ms due t : ℕ)
    → leb ms 0 ≡ false
    → leb due t ≡ false
    → kick t (elapse t (armed ms due)) ≡ armed ms (t + ms)
unfolding kick elapse arm stop armed
kick_early ms due t p h = rw h (rw p refl)

kicks-armed :
    (ms last : ℕ) (ts : List ℕ)
    → leb ms 0 ≡ false
    → (kicks ts (armed ms (last + ms))).stalls ≡ (if is_lively ms last ts then 0 else 1)
unfolding kicks is_lively armed hung
kicks-armed ms last [] p = refl
kicks-armed ms last (t ∷ ts) p = elim (Bool-cases (leb (last + ms) t)) [
  | inl late ↦
      let slow : ltb t (last + ms) ≡ false = ground (arith, late) in
      rw slow (
        ap (λ (w : StallWatchdog). (kicks ts w).stalls) (kick_late ms (last + ms) t late)
        ∙ ap (λ (w : StallWatchdog). w.stalls) (kicks-hung ms ts))
  | inr early ↦
      let quick : ltb t (last + ms) ≡ true = ground (arith, early) in
      rw quick (
        ap (λ (w : StallWatchdog). (kicks ts w).stalls) (kick_early ms (last + ms) t p early)
        ∙ kicks-armed ms t ts p)
]

-- The watchdog fires once or never: started with a positive time-out and kicked at any times, it has
-- called `onStall` exactly once if some event came later than the time-out after the one before it,
-- and never otherwise, however often it is kicked after that.
pub kicks-stalls :
    (ms now : ℕ) (ts : List ℕ)
    → 0 < ms
    → (kicks ts (start now (new_watchdog ms))).stalls ≡ (if is_lively ms now ts then 0 else 1)
unfolding start arm stop armed
kicks-stalls ms now ts h =
    let p : leb ms 0 ≡ false = ground (arith, h) in rw p (kicks-armed ms now ts p)
