-- ===== src/Outbox/Drains.antt =====
-- The depth of an Outbox (cpp/include/mm/outbox.hpp) as the number of pops that empty it.
use market_maker_proto.Prelude.{
  ℕ, ◌≡◌, refl, ap, ◌+◌, suc, zero, Bool, arith, Option, none, some, List, [], ◌∷◌, ◌++◌, length,
  map,
}
use market_maker_proto.Protocol.{OutMsg, Tob, tob}
use market_maker_proto.Outbox.{Outbox, pop, depth}
use market_maker_proto.Outbox.Runs.{Call, take, step, run, pending_ticks, to_list}

abbrev pub takes : ℕ → List Call
takes zero = []
takes (suc n) = take ∷ takes n

abbrev pub pending : Outbox → List OutMsg
pending o = o.reports ++ map tob (to_list o.tob_slot)

module _ (hwm : ℕ) (breached : Bool) (conflated : ℕ) where
  abbrev queue : List OutMsg → Option Tob → Outbox
  queue rs s = record {
    report_hwm = hwm;
    report_hwm_breached = breached;
    conflated = conflated;
    reports = rs;
    tob_slot = s;
  }

  drain_from :
      (rs : List OutMsg) (s : Option Tob)
      → run (queue rs s) (takes (depth (queue rs s))) ≡ (queue [] none, pending (queue rs s))
  unfolding run step pop depth
  drain_from [] none = refl
  drain_from [] (some t) = refl
  drain_from (r ∷ rs) s =
      let step_down : suc (length rs) + pending_ticks (queue rs s)
          ≡ suc (length rs + pending_ticks (queue rs s)) =
        omega arith in
      rw step_down (ap (λ x. (x.0, r ∷ x.1)) (drain_from rs s))

-- The depth is exactly the number of pops that empty an Outbox: that many pops deliver the queued
-- reports in order and then the pending tick, and leave nothing; the next pop delivers nothing.
pub depth_drains :
    (o : Outbox)
    → (run o (takes (depth o)) ≡ (record o { reports = []; tob_slot = none }, pending o))
      × ((pop (run o (takes (depth o))).0).1 ≡ none)
depth_drains o =
    let d = drain_from o.report_hwm o.report_hwm_breached o.conflated o.reports o.tob_slot in
    (d, rw d (unfold pop in refl))
