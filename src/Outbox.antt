-- ===== src/Outbox.antt =====
-- Outbox (cpp/include/mm/outbox.hpp): the outbound queue of one session. Order reports queue without
-- bound behind a latched mark, market data is conflated to a slot of one, and reports leave first. A
-- moved-from argument is a value that is not used again, and allocation does not fail.
pub mod Runs
pub mod Cases
pub mod Delivery
pub mod Drains
mod Tests
use market_maker_proto.Prelude.{
  ℕ, ◌+◌, Bool, true, false, not, ◌||◌, ◌==◌, ltb, inc_u64, if◌then◌else◌, Option, none, some, List,
  [], ◌∷◌, ◌++◌, length,
}
use market_maker_proto.Protocol.{OutMsg, Tob, tob, order_ack, cancel_ack, reject, fill}

pub record Outbox : Type 0 where
  pub report_hwm : ℕ
  pub report_hwm_breached : Bool
  pub conflated : ℕ
  pub reports : List OutMsg
  pub tob_slot : Option Tob

abbrev pub default_report_hwm : ℕ
default_report_hwm = 1024

-- `none` is std::invalid_argument, here and in `push_report`.
unfoldable pub outbox : ℕ → Option Outbox
outbox report_hwm =
    if report_hwm == 0
    then none
    else some (record {
      report_hwm = report_hwm;
      report_hwm_breached = false;
      conflated = 0;
      reports = [];
      tob_slot = none;
    })

unfoldable pub holds_tob : OutMsg → Bool
holds_tob (tob t) = true
holds_tob (order_ack a) = false
holds_tob (cancel_ack a) = false
holds_tob (reject r) = false
holds_tob (fill f) = false

unfoldable pub push_report : Outbox → OutMsg → Option Outbox
push_report o msg =
    let reports = o.reports ++ (msg ∷ []) in
    if holds_tob msg
    then none
    else some (record o {
      reports = reports;
      report_hwm_breached =
          if ltb o.report_hwm (length reports) then true else o.report_hwm_breached;
    })

abbrev pub has_value {ℓ} : {A : Type ℓ} → Option A → Bool
has_value none = false
has_value (some a) = true

unfoldable pub push_tob : Outbox → Tob → Outbox
push_tob o t = record o {
  conflated = if has_value o.tob_slot then inc_u64 o.conflated else o.conflated;
  tob_slot = some t;
}

abbrev pub pop_tob : Outbox → Option Tob → Outbox × Option OutMsg
pop_tob o none = (o, none)
pop_tob o (some t) = (record o { tob_slot = none }, some (tob t))

abbrev pub pop_from : Outbox → List OutMsg → Outbox × Option OutMsg
pop_from o [] = pop_tob o o.tob_slot
pop_from o (r ∷ rs) = (record o { reports = rs }, some r)

unfoldable pub pop : Outbox → Outbox × Option OutMsg
pop o = pop_from o o.reports

unfoldable pub depth : Outbox → ℕ
depth o = length o.reports + (if has_value o.tob_slot then 1 else 0)
