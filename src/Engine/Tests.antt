-- ===== src/Engine/Tests.antt =====
-- The order engine of cpp/src/engine.cpp on concrete inputs: test runs, and the theorems at inputs
-- that meet their hypotheses. The instrument is the default one of cpp/include/mm/types.hpp.
use mathlib.Core.Option
use market_maker_proto.Prelude.{
  none, ℕ, ◌≡◌, ◌⊎◌, refl, true, false, not, ◌&&◌, arith, List, [], ◌∷◌, some, length, All,
  if◌then◌else◌, ◌==◌,
}
use market_maker_proto.Prelude.Int.{ℤ, pos, negsuc, ◌+ℤ◌, ◌≤ℤ◌}
use market_maker_proto.Prelude.Int
use market_maker_proto.Prelude.Text.{bytes, bytes_eq, bytes_lt}
use market_maker_proto.Types
use market_maker_proto.Types.{Side, bid, ask, Instrument, already_terminal, validate_order}
use market_maker_proto.Types.Validation.{validate_order_iff}
use market_maker_proto.Protocol.{NewOrder, CancelOrder}
use market_maker_proto.Engine.Keys.{OrderKey, key_lt, key_eq}
use market_maker_proto.Engine.Containers.{
  find, emplace, update_at, map_vals, idx_insert, lower_bound, points_at, session_range, from_floor,
}
use market_maker_proto.Engine.State.{
  Order, Book, Routed, OrderEngine, construct, initial, live, live_count, entry_count, count_entry,
}
use market_maker_proto.Engine.Entry.{
  on_new, on_cancel, make_reject, accept, accepted_order, enter, crosses, side_from_wire, to_ticks,
  to_raw_px, reject_new, validation_reason, cancel, cancel_found,
}
use market_maker_proto.Engine.Entry.Answers.{Valid}
use market_maker_proto.Engine.Sweep.{
  on_book, sweep_side, sweep_index, is_absent, is_crossed, fill_qty, leaves_after, fill_report,
  settle, commit, commit_fill, install,
}
use market_maker_proto.Engine.Sweep.Reference.{fill_both, reference_reports, reference_asks}
use market_maker_proto.Engine.Teardown.{end_session}
use market_maker_proto.Engine.Calls.{
  Call, new_order, cancel_order, book_update, session_end, run, step,
}
use market_maker_proto.Engine.Invariant.{Inv, initial-Inv, on_new-Inv, on_cancel-Inv}
use market_maker_proto.Engine.Invariant.Sweep.{is_stale, on_book_refines, on_book-swept}
use market_maker_proto.Engine.Sweep.Swept.{swept}
use market_maker_proto.Engine.Invariant.Runs.{construct-run-Inv}
use market_maker_proto.Engine.Invariant.LifeCycle.{run-Kept}
use market_maker_proto.Engine.Invariant.Evolution.{Kept}
use market_maker_proto.Engine.Identity.{cl_id_consumed, terminal_absorbing, duplicate}
use market_maker_proto.Engine.Admission.{
  Admits, Acknowledges, Refuses, on_new_answers, crosses_iff_fills,
}
use market_maker_proto.Engine.Isolation.{session_acks, session_isolation, end_session_counts}
use market_maker_proto.Engine.Fills.{filled_qty, on_book_conserves}
use market_maker_proto.Engine.Reports.{
  exec_ids, consecutive, advance, on_book-exec_ids, FillWithin, on_book_within,
}

abbrev mock : Instrument
mock = record {
  symbol = bytes "MOCKUSDT";
  tick_size = pos 5;
  lot_size = pos 10;
  min_price = pos 1;
  max_price = pos 10000000;
  max_order_qty = pos 10000;
  max_live_orders = pos 2;
}

abbrev buy : NewOrder
buy = record {
  v = 1;
  seq = 1;
  epoch = 7;
  md_seq = 1;
  cl_id = bytes "a1";
  symbol = bytes "MOCKUSDT";
  side = bytes "B";
  px = pos 1000;
  qty = pos 50;
  post_only = true;
}

abbrev sell : NewOrder
sell = record buy { cl_id = bytes "a2"; side = bytes "S"; px = pos 1010 }

abbrev odd_lot : NewOrder
odd_lot = record buy { cl_id = bytes "a3"; qty = pos 55 }

-- The ask has come down to the resting bid, with 20 displayed.
abbrev touched : Book
touched = record {
  bid_px = pos 995;
  bid_qty = pos 10;
  ask_px = pos 1000;
  ask_qty = pos 20;
  md_seq = 0;
}

abbrev empty_engine : OrderEngine
empty_engine = initial mock 100

abbrev resting : OrderEngine
resting = (on_new (on_new empty_engine 7 buy).0 7 sell).0

abbrev buy_key : OrderKey
buy_key = (7, bytes "a1")

resting-Inv : Inv resting
resting-Inv = on_new-Inv 7 sell (on_new-Inv 7 buy (initial-Inv mock 100))

abbrev resting_buy : Order
resting_buy = record {
  eng_id = 1;
  side = bid;
  px = record { v = pos 200 };
  leaves = pos 50;
  st = live;
}

find_buy : find buy_key resting.orders ≡ some resting_buy
unfolding find initial on_new reject_new accept accepted_order enter crosses validate_order bytes_eq
    bytes_lt key_lt key_eq lower_bound points_at emplace side_from_wire to_ticks live_count
    session_range from_floor Int.rem_ℤ Int.quot_ℤ count_entry idx_insert
find_buy = refl

abbrev cancel_buy : CancelOrder
cancel_buy = record { v = 1; seq = 3; epoch = 7; cl_id = bytes "a1" }

abbrev after_cancel : OrderEngine
after_cancel = (on_cancel resting 7 cancel_buy).0

after_cancel-Inv : Inv after_cancel
after_cancel-Inv = on_cancel-Inv 7 cancel_buy resting-Inv

find_cancelled : find buy_key after_cancel.orders ≡ some (cancel resting_buy)
unfolding find initial on_new reject_new accept accepted_order enter crosses validate_order bytes_eq
    bytes_lt key_lt key_eq lower_bound points_at emplace side_from_wire to_ticks live_count
    session_range from_floor Int.rem_ℤ Int.quot_ℤ count_entry idx_insert on_cancel cancel_found
    update_at
find_cancelled = refl

resting_fresh : is_stale resting touched ≡ false
unfolding find initial on_new reject_new accept accepted_order enter crosses validate_order bytes_eq
    bytes_lt key_lt key_eq lower_bound points_at emplace side_from_wire to_ticks live_count
    session_range from_floor Int.rem_ℤ Int.quot_ℤ count_entry idx_insert
resting_fresh = refl

-- 20 of the bid's 50 are filled, and 30 stay.
touched_fills : Option.map (λ r. filled_qty buy_key r.1) (on_book resting touched) ≡ some (pos 20)
unfolding find initial on_new reject_new accept accepted_order enter crosses validate_order bytes_eq
    bytes_lt key_lt key_eq lower_bound points_at emplace side_from_wire to_ticks live_count
    session_range from_floor Int.rem_ℤ Int.quot_ℤ count_entry idx_insert on_book sweep_side
    is_absent sweep_index is_crossed to_raw_px Int.◌*ℤ◌ fill_report fill_qty leaves_after Int.◌-ℤ◌
    commit commit_fill settle install update_at Int.◌+ℤ◌
touched_fills = refl

odd_lot_refused :
    on_new resting 8 odd_lot
    ≡ reject_new resting 8 odd_lot Types.lot_size (bytes "qty is not a multiple of lot_size")
unfolding find initial on_new reject_new accept accepted_order enter crosses validate_order bytes_eq
    bytes_lt key_lt key_eq lower_bound points_at emplace side_from_wire to_ticks live_count
    session_range from_floor Int.rem_ℤ Int.quot_ℤ count_entry idx_insert validation_reason
odd_lot_refused = refl

abbrev history : List Call
history =
    new_order 7 buy
    ∷ new_order 7 sell
    ∷ book_update touched
    ∷ cancel_order 7 cancel_buy
    ∷ session_end 7
    ∷ []

construct-run-Inv_example : (e' : OrderEngine) × (run empty_engine history ≡ some e') × Inv e'
unfolding construct
construct-run-Inv_example = construct-run-Inv mock 100 history refl

abbrev quiet : List Call
quiet = new_order 7 odd_lot ∷ session_end 8 ∷ []

abbrev after_quiet : OrderEngine → OrderEngine
after_quiet e = (end_session (on_new e 7 odd_lot).0 8).0

run-Kept_example : Kept buy_key resting_buy (after_quiet resting).orders
unfolding run step
run-Kept_example =
    run-Kept resting quiet buy_key resting_buy resting-Inv find_buy
      (tt, (λ e. absurd (omega arith), tt)) refl

cl_id_consumed_example :
    on_new (after_quiet (on_new empty_engine 7 buy).0) 7 (record sell { cl_id = bytes "a1" })
    ≡ (after_quiet (on_new empty_engine 7 buy).0, duplicate buy ∷ [])
unfolding run step
cl_id_consumed_example =
    cl_id_consumed empty_engine 7 buy (record sell { cl_id = bytes "a1" }) quiet
      (initial-Inv mock 100) refl (tt, (λ e. absurd (omega arith), tt)) refl

terminal_absorbing_example :
    (find buy_key (after_quiet after_cancel).orders ≡ some (cancel resting_buy))
    × (on_cancel (after_quiet after_cancel) 7 cancel_buy ≡ (
      after_quiet after_cancel,
      make_reject (bytes "a1") already_terminal (bytes "order is already terminal") ∷ [],
    ))
unfolding run step
terminal_absorbing_example =
    terminal_absorbing after_cancel 7 cancel_buy (cancel resting_buy) quiet after_cancel-Inv
      find_cancelled refl (tt, (λ e. absurd (omega arith), tt)) refl

on_new_answers_example :
    ((side : Side) × Admits resting 8 buy side
      × (on_new resting 8 buy ≡ accept resting 8 buy side)
      × Acknowledges resting 8 buy side (on_new resting 8 buy))
    ⊎ (Refuses resting buy (on_new resting 8 buy) × ((side : Side) → ¬ Admits resting 8 buy side))
on_new_answers_example = on_new_answers resting 8 buy resting-Inv

buy-Valid : Valid empty_engine buy
unfolding initial validate_order bytes_eq Int.rem_ℤ
buy-Valid = (validate_order_iff mock (bytes "MOCKUSDT") (bytes "B") (pos 1000) (pos 50)).0 refl

crosses_iff_fills_example : crosses bid touched (pos 1000) ≡ (
    not (is_absent bid touched)
    && is_crossed mock bid touched (accepted_order empty_engine bid buy))
unfolding initial
crosses_iff_fills_example = crosses_iff_fills empty_engine buy bid touched buy-Valid

session_isolation_example :
    ((order : NewOrder)
      → find buy_key (on_new resting 8 order).0.orders ≡ find buy_key resting.orders)
    × ((c : CancelOrder)
        → find buy_key (on_cancel resting 8 c).0.orders ≡ find buy_key resting.orders)
    × (find buy_key (end_session resting 8).0.orders ≡ find buy_key resting.orders)
session_isolation_example =
    session_isolation resting 8 buy_key resting-Inv (λ e. absurd (omega arith))

end_session_counts_example :
    ((end_session resting 7).1 ≡ session_acks 7 resting.orders)
    × (length (end_session resting 7).1 ≡ live_count resting 7)
    × ((k : OrderKey)
        → find k (end_session resting 7).0.orders
          ≡ (if k.0 == 7 then none else find k resting.orders))
    × ((s : ℕ)
        → live_count (end_session resting 7).0 s ≡ (if s == 7 then 0 else live_count resting s))
    × ((s : ℕ)
        → entry_count (end_session resting 7).0 s ≡ (if s == 7 then 0 else entry_count resting s))
end_session_counts_example = end_session_counts resting 7 resting-Inv

on_book_refines_example :
    (r : OrderEngine × List Routed) × (on_book resting touched ≡ some r)
    × (r.0.orders ≡ map_vals (fill_both resting.inst touched) resting.orders)
    × (r.1 ≡ reference_reports resting touched)
    × (r.0.book ≡ touched)
    × (r.0.book_seen ≡ true)
    × (r.0.next_exec_id ≡ (reference_asks resting touched).2)
    × (r.0.stale_books_ignored ≡ resting.stale_books_ignored)
on_book_refines_example = on_book_refines resting touched resting-Inv resting_fresh

on_book_conserves_example :
    (p : Order) × (find buy_key (swept resting touched).orders ≡ some p)
    × (filled_qty buy_key (reference_reports resting touched) +ℤ p.leaves ≡ pos 50)
on_book_conserves_example =
    on_book_conserves resting touched buy_key resting_buy resting-Inv resting_fresh find_buy
      (on_book-swept resting touched resting-Inv resting_fresh)

on_book-exec_ids_example :
    (r : OrderEngine × List Routed) × (on_book resting touched ≡ some r)
    × (exec_ids r.1 ≡ consecutive resting.next_exec_id (length r.1))
    × (r.0.next_exec_id ≡ advance resting.next_exec_id (length r.1))
on_book-exec_ids_example = on_book-exec_ids resting touched resting-Inv resting_fresh

on_book_within_example : All (FillWithin resting touched) (reference_reports resting touched)
on_book_within_example =
    on_book_within resting touched resting-Inv resting_fresh
      (on_book-swept resting touched resting-Inv resting_fresh)
