-- ===== src/Outbox/Cases.antt =====
-- The branches of the calls of an Outbox (cpp/include/mm/outbox.hpp) as rules.
use market_maker_proto.Prelude.{
  ◌≡◌, refl, sym, subst, Bool, true, false, Option, none, some, List, [], ◌∷◌, ◌++◌, length,
  if◌then◌else◌, inl, inr, Bool-cases, ltb,
}
use market_maker_proto.Protocol.{OutMsg, Tob, tob}
use market_maker_proto.Outbox.{Outbox, push_report, pop, holds_tob, pop_from, pop_tob}
use market_maker_proto.Outbox.Runs.{or_else}

pub pop_cases :
    (o : Outbox) (P : Outbox × Option OutMsg → Type 0)
    → ((r : OutMsg) (rs : List OutMsg) → o.reports ≡ r ∷ rs → P (record o { reports = rs }, some r))
    → ((t : Tob)
        → o.reports ≡ []
        → o.tob_slot ≡ some t
        → P (record o { tob_slot = none }, some (tob t)))
    → (o.reports ≡ [] → o.tob_slot ≡ none → P (o, none))
    → P (pop o)
unfolding pop
pop_cases o P front slot empty = popped o.reports o.tob_slot refl refl
  where
    popped :
        (rs : List OutMsg) (s : Option Tob)
        → o.reports ≡ rs
        → o.tob_slot ≡ s
        → P (pop_from o o.reports)
    popped [] none e f =
        subst (λ rs. P (pop_from o rs)) (sym e) (subst (λ s. P (pop_tob o s)) (sym f) (empty e f))
    popped [] (some t) e f =
        subst (λ rs. P (pop_from o rs)) (sym e) (subst (λ s. P (pop_tob o s)) (sym f) (slot t e f))
    popped (r ∷ rs) s e f = subst (λ xs. P (pop_from o xs)) (sym e) (front r rs e)

pub push_report_cases :
    (o : Outbox) (m : OutMsg) (P : Outbox → Type 0)
    → (holds_tob m ≡ true → P o)
    → (holds_tob m ≡ false
        → (b : Bool) → P (record o { reports = o.reports ++ (m ∷ []); report_hwm_breached = b }))
    → P (or_else (push_report o m) o)
unfolding push_report
push_report_cases o m P refused queued = elim (Bool-cases (holds_tob m)) [
  | inl e ↦ rw e (refused e)
  | inr e ↦ rw e (
      queued e
        (if ltb o.report_hwm (length (o.reports ++ (m ∷ []))) then true else o.report_hwm_breached))
]
