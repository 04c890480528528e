-- ===== src/Outbox/Runs.antt =====
-- Sequences of calls on an Outbox (cpp/include/mm/outbox.hpp), and when the close verdict is latched.
use market_maker_proto.Prelude.{
  ℕ, ◌≡◌, refl, subst, ◌↔◌, ◌⊎◌, inl, inr, ◌<◌, true, not, arith, Option, none, some, List, [], ◌∷◌,
  ◌++◌, length, if◌then◌else◌, filter,
}
use market_maker_proto.Protocol.{OutMsg, Tob, tob}
use market_maker_proto.Outbox.{Outbox, push_report, push_tob, pop, holds_tob, has_value}

pub data Call : Type 0 where
  report : OutMsg → Call
  tick : Tob → Call
  take : Call

abbrev pub to_list {ℓ} : {A : Type ℓ} → Option A → List A
to_list none = []
to_list (some a) = a ∷ []

abbrev pub or_else {ℓ} : {A : Type ℓ} → Option A → A → A
or_else none d = d
or_else (some a) d = a

-- A refused report leaves the Outbox as it was.
unfoldable pub step : Outbox → Call → Outbox × List OutMsg
step o (report msg) = (or_else (push_report o msg) o, [])
step o (tick t) = (push_tob o t, [])
step o take = let r = pop o in (r.0, to_list r.1)

unfoldable pub run : Outbox → List Call → Outbox × List OutMsg
run o [] = (o, [])
run o (c ∷ cs) = let s = step o c in let rest = run s.0 cs in (rest.0, s.1 ++ rest.1)

-- The report queue is past the mark after a first part of the calls.
abbrev pub Exceeds : Outbox → List Call → Type 0
Exceeds o cs =
    (before : List Call) × (after : List Call) × (cs ≡ before ++ after)
    × (o.report_hwm < length (run o before).0.reports)

-- What a call puts in, and the part of a list of messages that is market data or is not.
abbrev pub pushed_by : Call → List OutMsg
pushed_by (report msg) = if holds_tob msg then [] else msg ∷ []
pushed_by (tick t) = tob t ∷ []
pushed_by take = []

abbrev pub pushed : List Call → List OutMsg
pushed [] = []
pushed (c ∷ cs) = pushed_by c ++ pushed cs

abbrev pub reports_in : List OutMsg → List OutMsg
reports_in ms = filter (λ m. not (holds_tob m)) ms

abbrev pub ticks_in : List OutMsg → List OutMsg
ticks_in ms = filter holds_tob ms

-- What is in an Outbox: a message by kind.
abbrev pub pending_ticks : Outbox → ℕ
pending_ticks o = if has_value o.tob_slot then 1 else 0

pub step-hwm : (o : Outbox) (c : Call) → (step o c).0.report_hwm ≡ o.report_hwm
unfolding step push_report push_tob pop holds_tob
step-hwm o (report msg) = ground arith
step-hwm o (tick t) = refl
step-hwm o take = ground arith

-- A queue past its mark has latched the verdict.
abbrev pub Latched : Outbox → Type 0
Latched o = o.report_hwm < length o.reports → o.report_hwm_breached ≡ true

step-Latched : (o : Outbox) (c : Call) → Latched o → Latched (step o c).0
unfolding step push_report push_tob pop holds_tob
step-Latched o (report msg) w h = ground arith
step-Latched o (tick t) w h = w h
step-Latched o take w h = ground arith

step_keeps :
    (o : Outbox) (c : Call) → o.report_hwm_breached ≡ true → (step o c).0.report_hwm_breached ≡ true
unfolding step push_report push_tob pop holds_tob
step_keeps o (report msg) h = ground arith
step_keeps o (tick t) h = h
step_keeps o take h = ground arith

step_latches :
    (o : Outbox) (c : Call)
    → (step o c).0.report_hwm_breached ≡ true
    → (o.report_hwm_breached ≡ true) ⊎ (o.report_hwm < length (step o c).0.reports)
unfolding step push_report push_tob pop holds_tob
step_latches o (report msg) h = ground arith
step_latches o (tick t) h = inl h
step_latches o take h = ground arith

run_keeps :
    (o : Outbox) (cs : List Call)
    → o.report_hwm_breached ≡ true
    → (run o cs).0.report_hwm_breached ≡ true
unfolding run
run_keeps o [] h = h
run_keeps o (c ∷ cs) h = run_keeps (step o c).0 cs (step_keeps o c h)

run_after :
    (o : Outbox) (before after : List Call)
    → Latched o
    → o.report_hwm < length (run o before).0.reports
    → (run o (before ++ after)).0.report_hwm_breached ≡ true
unfolding run
run_after o [] after w h = run_keeps o after (w h)
run_after o (c ∷ before) after w h =
    run_after (step o c).0 before after (step-Latched o c w) (rw (step-hwm o c) h)

breached→Exceeds :
    (o : Outbox) (cs : List Call)
    → (run o cs).0.report_hwm_breached ≡ true
    → (o.report_hwm_breached ≡ true) ⊎ Exceeds o cs
unfolding run
breached→Exceeds o [] h = inl h
breached→Exceeds o (c ∷ cs) h = elim (breached→Exceeds (step o c).0 cs h) [
  | inl b ↦ elim (step_latches o c b) [ inl a ↦ inl a | inr x ↦ inr (c ∷ [], cs, refl, x) ]
  | inr (before, after, e, x) ↦ inr (
    c ∷ before,
    after,
    rw e refl,
    subst (λ m. m < length (run (step o c).0 before).0.reports) (step-hwm o c) x,
  )
]

-- From an Outbox that is past its mark only with the verdict latched, the close verdict reads true
-- after a sequence of calls just when it did before or the number of queued reports exceeded the mark
-- after some first part of the calls: no drain clears it, and nothing else sets it.
pub breached_iff :
    (o : Outbox) (cs : List Call)
    → Latched o
    → ((run o cs).0.report_hwm_breached ≡ true) ↔ ((o.report_hwm_breached ≡ true) ⊎ Exceeds o cs)
breached_iff o cs w = (
  breached→Exceeds o cs,
  λ s. elim s [
    | inl b ↦ run_keeps o cs b
    | inr (before, after, e, x) ↦ rw e (run_after o before after w x)
  ],
)
