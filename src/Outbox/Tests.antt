-- ===== src/Outbox/Tests.antt =====
-- Concrete runs of an Outbox (cpp/include/mm/outbox.hpp).
use market_maker_proto.Prelude.{
  ℕ, ◌≡◌, refl, ◌⊎◌, ◌↔◌, ◌+◌, ◌%◌, ◌^◌, true, false, none, some, List, [], ◌∷◌, ◌++◌, length,
  arith,
}
use market_maker_proto.Prelude.Int.{pos}
use market_maker_proto.Prelude.Text.{bytes}
use market_maker_proto.Protocol.{OutMsg, Tob, tob, reject}
use market_maker_proto.Outbox.{Outbox, pop, push_report, push_tob, holds_tob}
use market_maker_proto.Outbox.Runs.{
  Call, report, tick, take, run, step, reports_in, ticks_in, pending_ticks, pushed, Exceeds,
  breached_iff,
}
use market_maker_proto.Outbox.Delivery.{run_fifo, run_conflates, pop_freshest, last_tick}

abbrev quote : ℕ → Tob
quote n = record {
  v = 1;
  seq = 0;
  epoch = 1;
  md_seq = n;
  symbol = bytes "MOCKUSDT";
  bid_px = pos 100;
  bid_qty = pos 5;
  ask_px = pos 102;
  ask_qty = pos 5;
}

abbrev refusal : OutMsg
refusal = reject (record {
  v = 1;
  seq = 0;
  epoch = 1;
  cl_id = bytes "a";
  code = bytes "lot_size";
  reason = bytes "qty is not a multiple of lot_size";
})

abbrev small : Outbox
small = record {
  report_hwm = 1;
  report_hwm_breached = false;
  conflated = 0;
  reports = [];
  tob_slot = none;
}

abbrev calls : List Call
calls = tick (quote 1) ∷ report refusal ∷ tick (quote 2) ∷ report refusal ∷ take ∷ take ∷ []

breached_iff_example :
    ((run small calls).0.report_hwm_breached ≡ true)
    ↔ ((small.report_hwm_breached ≡ true) ⊎ Exceeds small calls)
breached_iff_example = breached_iff small calls (λ h. ground arith)

run_fifo_example :
    reports_in (run small calls).1 ++ (run small calls).0.reports
    ≡ small.reports ++ reports_in (pushed calls)
run_fifo_example = run_fifo small calls tt

run_conflates_example :
    ((run small calls).0.conflated
        + length (ticks_in (run small calls).1)
        + pending_ticks (run small calls).0)
      % 2 ^ 64
    ≡ (small.conflated + pending_ticks small + length (ticks_in (pushed calls))) % 2 ^ 64
run_conflates_example = run_conflates small calls tt

second_quote_next : (pop (run small calls).0).1 ≡ some (tob (quote 2))
unfolding run step push_report push_tob pop holds_tob
second_quote_next = refl

pop_freshest_example : ((run small calls).0.reports ≡ []) × (last_tick none calls ≡ some (quote 2))
pop_freshest_example = pop_freshest small calls (quote 2) tt refl second_quote_next
