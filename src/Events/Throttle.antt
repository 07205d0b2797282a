-- ===== src/Events/Throttle.antt =====
-- The throttled report of exceptions (`reportListenerError`) loses no count and keeps its distance.
use webrtc_node.Base.{
  ℕ, ◌+◌, ◌≤◌, List, [], ◌∷◌, length, ◌≡◌, arith, ltb, ◌-◌, refl, Bool-cases, inl, inr,
}
use webrtc_node.Events.{ErrorState, report_listener_error, report_all}

-- The errors that the console's lines stand for: each its own and those it names as dropped.
unfoldable pub accounted : List (ℕ × ℕ) → ℕ
accounted [] = 0
accounted ((time, dropped) ∷ lines) = 1 + dropped + accounted lines

-- The newest line comes first; each is a second or more behind the one before it.
unfoldable pub AreSpaced : List (ℕ × ℕ) → Type 0
AreSpaced [] = Unit
AreSpaced ((t, n) ∷ []) = Unit
AreSpaced ((t, n) ∷ (u, k) ∷ lines) = (u + 1000 ≤ t) × AreSpaced ((u, k) ∷ lines)

-- `last_logged` is the time of the newest line.
unfoldable pub IsDated : ErrorState → Type 0
IsDated s = elim s.console [ [] ↦ Unit | (t, n) ∷ lines ↦ s.last_logged ≡ t ]

report-accounted :
    (now : ℕ) (s : ErrorState)
    → accounted (report_listener_error now s).console + (report_listener_error now s).suppressed
      ≡ accounted s.console + s.suppressed + 1
unfolding report_listener_error accounted
report-accounted now s = ground arith

log_spaced :
    (now : ℕ) (s : ErrorState) (lines : List (ℕ × ℕ))
    → s.console ≡ lines
    → s.last_logged + 1000 ≤ now
    → IsDated s
    → AreSpaced s.console
    → AreSpaced ((now, s.suppressed + 1 - 1) ∷ s.console)
unfolding IsDated AreSpaced
log_spaced now s [] e l d p = rw e tt
log_spaced now s ((t, n) ∷ cs) e l d p =
    let k : s.last_logged ≡ t = rw e at d in rw e (omega arith, rw e at p)

report-spaced :
    (now : ℕ) (s : ErrorState) (lines : List (ℕ × ℕ))
    → s.console ≡ lines
    → IsDated s
    → AreSpaced s.console
    → IsDated (report_listener_error now s) × AreSpaced (report_listener_error now s).console
unfolding report_listener_error IsDated AreSpaced
report-spaced now s lines e d p = elim (Bool-cases (ltb now (s.last_logged + 1000))) [
  | inl f ↦ rw f (d, p)
  | inr f ↦ rw f (refl, log_spaced now s lines e (ground arith) d p)
]

-- Whenever errors come, and in any state of the throttle whose newest line was written when it says
-- and whose lines are a second apart: each error is on a line of the console, named there as
-- dropped, or still counted as suppressed, and the lines are a second apart again.
pub report_all-accounted :
    (times : List ℕ) (s : ErrorState)
    → IsDated s
    → AreSpaced s.console
    → (accounted (report_all times s).console + (report_all times s).suppressed
        ≡ accounted s.console + s.suppressed + length times)
      × AreSpaced (report_all times s).console
unfolding report_all
report_all-accounted [] s d p = (omega arith, p)
report_all-accounted (now ∷ times) s d p =
    let (d', p') = report-spaced now s s.console refl d p in
    let (e, q) = report_all-accounted times (report_listener_error now s) d' p' in
    let a = report-accounted now s in (omega (arith, e, a), q)
