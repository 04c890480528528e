-- ===== src/Outbox/Delivery.antt =====
-- What an Outbox (cpp/include/mm/outbox.hpp) delivers of what it was given.
use market_maker_proto.Prelude.{
  ◌≡◌, refl, sym, subst, ◌+◌, ◌%◌, ◌^◌, Bool, true, false, not, arith, Option, none, some, some_inj,
  List, [], ◌∷◌, ◌++◌, length, filter-append, length-append, append-nil, append_assoc, ◌⊎◌, inl,
  inr, All,
}
use market_maker_proto.Protocol.{OutMsg, Tob, tob, order_ack, cancel_ack, reject, fill}
use market_maker_proto.Outbox.{Outbox, push_tob, pop, holds_tob}
use market_maker_proto.Outbox.Runs.{
  Call, report, tick, take, step, run, pushed_by, pushed, reports_in, ticks_in, pending_ticks,
  to_list,
}
use market_maker_proto.Outbox.Cases.{pop_cases, push_report_cases}

-- The queue holds reports alone.
abbrev pub Reports : Outbox → Type 0
Reports o = All (λ m. holds_tob m ≡ false) o.reports

Reports-snoc :
    (rs : List OutMsg) (m : OutMsg)
    → All (λ m. holds_tob m ≡ false) rs
    → holds_tob m ≡ false
    → All (λ m. holds_tob m ≡ false) (rs ++ (m ∷ []))
Reports-snoc [] m a h = (h, tt)
Reports-snoc (r ∷ rs) m (e, a) h = (e, Reports-snoc rs m a h)

step-Reports : (o : Outbox) (c : Call) → Reports o → Reports (step o c).0
unfolding step push_tob
step-Reports o (report msg) a =
    push_report_cases o msg Reports (λ e. a) (λ e b. Reports-snoc o.reports msg a e)
step-Reports o (tick t) a = a
step-Reports o take a =
    pop_cases o (λ r. Reports r.0) (λ r rs e. (subst (All (λ m. holds_tob m ≡ false)) e a).1)
      (λ t e f. a) (λ e f. a)

front_is_report :
    (o : Outbox) {r : OutMsg} {rs : List OutMsg}
    → Reports o
    → o.reports ≡ r ∷ rs
    → holds_tob r ≡ false
front_is_report o a e = (subst (All (λ m. holds_tob m ≡ false)) e a).0

step_fifo :
    (o : Outbox) (c : Call)
    → Reports o
    → reports_in (step o c).1 ++ (step o c).0.reports ≡ o.reports ++ reports_in (pushed_by c)
unfolding step push_tob holds_tob
step_fifo o (report msg) a =
    push_report_cases o msg (λ p. p.reports ≡ o.reports ++ reports_in (pushed_by (report msg)))
      (λ e. rw e (sym (append-nil o.reports))) (λ e b. simp e)
step_fifo o (tick t) a = sym (append-nil o.reports)
step_fifo o take a =
    pop_cases o (λ r. reports_in (to_list r.1) ++ r.0.reports ≡ o.reports ++ [])
      (λ r rs e. rw (e, front_is_report o a e) (sym (append-nil (r ∷ rs))))
      (λ t e f. sym (append-nil o.reports)) (λ e f. sym (append-nil o.reports))

run-Reports : (o : Outbox) (cs : List Call) → Reports o → Reports (run o cs).0
unfolding run
run-Reports o [] a = a
run-Reports o (c ∷ cs) a = run-Reports (step o c).0 cs (step-Reports o c a)

abbrev report_part : OutMsg → Bool
report_part m = not (holds_tob m)

-- Order reports are never dropped, repeated or reordered: after any sequence of calls on an Outbox
-- that queues reports alone, the reports popped followed by the reports still queued are the reports
-- queued at the start followed by the reports pushed, in order.
pub run_fifo :
    (o : Outbox) (cs : List Call)
    → Reports o
    → reports_in (run o cs).1 ++ (run o cs).0.reports ≡ o.reports ++ reports_in (pushed cs)
unfolding run
run_fifo o [] a = sym (append-nil o.reports)
run_fifo o (c ∷ cs) a =
    let s = step o c in
    let ih = run_fifo s.0 cs (step-Reports o c a) in
    let f = step_fifo o c a in
    rw
      (
        filter-append report_part s.1 (run s.0 cs).1,
        filter-append report_part (pushed_by c) (pushed cs),
        append_assoc (reports_in s.1) (reports_in (run s.0 cs).1) (run s.0 cs).0.reports,
        ih,
        ← append_assoc (reports_in s.1) s.0.reports (reports_in (pushed cs)),
        f,
      )
      (append_assoc o.reports (reports_in (pushed_by c)) (reports_in (pushed cs)))

no_ticks : (m : OutMsg) → ticks_in (pushed_by (report m)) ≡ []
unfolding holds_tob
no_ticks (tob t) = refl
no_ticks (order_ack a) = refl
no_ticks (cancel_ack a) = refl
no_ticks (reject r) = refl
no_ticks (fill f) = refl

step_conflates :
    (o : Outbox) (c : Call)
    → Reports o
    → ((step o c).0.conflated + length (ticks_in (step o c).1) + pending_ticks (step o c).0)
        % 2 ^ 64
      ≡ (o.conflated + pending_ticks o + length (ticks_in (pushed_by c))) % 2 ^ 64
unfolding step push_tob holds_tob
step_conflates o (report msg) a =
    push_report_cases o msg
      (λ p.
        (p.conflated + 0 + pending_ticks p) % 2 ^ 64
        ≡ (o.conflated + pending_ticks o + length (ticks_in (pushed_by (report msg)))) % 2 ^ 64)
      (λ e. rw (no_ticks msg) (omega arith)) (λ e b. rw (no_ticks msg) (omega arith))
step_conflates o (tick t) a = ground arith
step_conflates o take a =
    pop_cases o
      (λ r.
        (r.0.conflated + length (ticks_in (to_list r.1)) + pending_ticks r.0) % 2 ^ 64
        ≡ (o.conflated + pending_ticks o + 0) % 2 ^ 64)
      (λ r rs e. rw (front_is_report o a e) (omega arith)) (λ t e f. rw f (omega arith))
      (λ e f. omega arith)

-- No tick is lost uncounted: after any sequence of calls on an Outbox that queues reports alone, the
-- conflation counter, the ticks popped and the pending tick add up, modulo 2^64, to the counter and
-- the pending tick at the start and the ticks pushed.
pub run_conflates :
    (o : Outbox) (cs : List Call)
    → Reports o
    → ((run o cs).0.conflated + length (ticks_in (run o cs).1) + pending_ticks (run o cs).0)
        % 2 ^ 64
      ≡ (o.conflated + pending_ticks o + length (ticks_in (pushed cs))) % 2 ^ 64
unfolding run
run_conflates o [] a = ground arith
run_conflates o (c ∷ cs) a =
    let s = step o c in
    let ih = run_conflates s.0 cs (step-Reports o c a) in
    rw
      (
        filter-append holds_tob s.1 (run s.0 cs).1,
        filter-append holds_tob (pushed_by c) (pushed cs),
        length-append (ticks_in s.1) (ticks_in (run s.0 cs).1),
        length-append (ticks_in (pushed_by c)) (ticks_in (pushed cs)),
      )
      (omega (arith, ih, step_conflates o c a))

abbrev pub last_tick : Option Tob → List Call → Option Tob
last_tick p [] = p
last_tick p (report m ∷ cs) = last_tick p cs
last_tick p (tick t ∷ cs) = last_tick (some t) cs
last_tick p (take ∷ cs) = last_tick p cs

abbrev Fresh : Outbox → Option Tob → Type 0
Fresh o p = (o.tob_slot ≡ none) ⊎ (o.tob_slot ≡ p)

run-Fresh :
    (o : Outbox) (p : Option Tob) (cs : List Call) → Fresh o p → Fresh (run o cs).0 (last_tick p cs)
unfolding run step push_tob
run-Fresh o p [] f = f
run-Fresh o p (report m ∷ cs) f =
    run-Fresh (step o (report m)).0 p cs
      (push_report_cases o m (λ q. Fresh q p) (λ e. f) (λ e b. f))
run-Fresh o p (tick t ∷ cs) f = run-Fresh (step o (tick t)).0 (some t) cs (inr refl)
run-Fresh o p (take ∷ cs) f =
    run-Fresh (step o take).0 p cs
      (pop_cases o (λ r. Fresh r.0 p) (λ r rs e. f) (λ t e g. inl refl) (λ e g. f))

-- A tick is delivered only when no report is queued, and it is the last one pushed: in any run from
-- an Outbox that queues reports alone and has no tick pending, a pop that answers a top of book
-- finds the report queue empty and answers the tick of the most recent push.
pub pop_freshest :
    (o : Outbox) (cs : List Call) (t : Tob)
    → Reports o
    → o.tob_slot ≡ none
    → (pop (run o cs).0).1 ≡ some (tob t)
    → ((run o cs).0.reports ≡ []) × (last_tick none cs ≡ some t)
unfolding holds_tob
pop_freshest o cs t a n h =
    let q = (run o cs).0 in
    pop_cases q (λ r. r.1 ≡ some (tob t) → (q.reports ≡ []) × (last_tick none cs ≡ some t))
      (λ r rs e g. front r e (some_inj g)) (λ u e g k. (e, newest u g (some_inj k)))
      (λ e g k. ground arith) h
  where
    front :
        (r : OutMsg) {rs : List OutMsg}
        → (run o cs).0.reports ≡ r ∷ rs
        → r ≡ tob t
        → ((run o cs).0.reports ≡ []) × (last_tick none cs ≡ some t)
    front r e g =
        let b = front_is_report (run o cs).0 (run-Reports o cs a) e in
        let c : true ≡ false = rw g at b in ground arith

    newest : (u : Tob) → (run o cs).0.tob_slot ≡ some u → tob u ≡ tob t → last_tick none cs ≡ some t
    newest u g k = elim (run-Fresh o none cs (inl n)) [ inl f ↦ ground arith | inr f ↦ cc ]
