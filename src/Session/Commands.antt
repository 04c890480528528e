-- ===== src/Session/Commands.antt =====
-- What a client's frame does in a session (cpp/src/session.cpp): the size cap, the codec, the envelope
-- checks and the engine.
use market_maker_proto.Prelude.{
  ℕ, ◌*◌, not, ◌==◌, ltb, if◌then◌else◌, Option, none, some, List, [], ◌∷◌, ◌++◌, length, inc_u64,
}
use market_maker_proto.Prelude.Int.{ℤ, ◌-ℤ◌, to_u64}
use market_maker_proto.Prelude.Text.{Bytes, bytes}
use market_maker_proto.Types.{RejectCode, msg_too_large, stale_epoch, to_string}
use market_maker_proto.Protocol.{
  InMsg, OutMsg, Reject, new_order, cancel_order, order_ack, cancel_ack, reject, tob, fill,
}
use market_maker_proto.Engine.Entry.{on_new, on_cancel}
use market_maker_proto.Telemetry.{cmd_in}
use market_maker_proto.Bench.{BenchRecorder, svc, order_for}
use market_maker_proto.Session.State.{
  Turn, Decoded, failed, decoded, steady_ns, tick, protocol_error,
}
use market_maker_proto.Session.Events.{emit, count_reject, emit_reject_event, reject_code_from_wire}
use market_maker_proto.Session.Reports.{begin_close, enqueue_report, push_reject, pump}

abbrev pub max_inbound_msg_bytes : ℕ
max_inbound_msg_bytes = 64 * 1024

-- A reject of the session's own; the write stamps its envelope.
abbrev pub make_reject : Bytes → RejectCode → Bytes → Reject
make_reject cl_id code reason = record {
  v = 1;
  seq = 0;
  epoch = 0;
  cl_id = cl_id;
  code = to_string code;
  reason = reason;
}

abbrev pub seq_of : InMsg → ℕ
seq_of (new_order m) = m.seq
seq_of (cancel_order m) = m.seq

abbrev pub epoch_of : InMsg → ℕ
epoch_of (new_order m) = m.epoch
epoch_of (cancel_order m) = m.epoch

abbrev pub cl_id_of : InMsg → Bytes
cl_id_of (new_order m) = m.cl_id
cl_id_of (cancel_order m) = m.cl_id

abbrev pub narrate_reject : Turn → Option RejectCode → Turn
narrate_reject t none = t
narrate_reject t (some code) = emit_reject_event t code

abbrev pub narrated : Turn → Reject → Turn
narrated t r = narrate_reject (count_reject t) (reject_code_from_wire r.code)

-- What is counted for a report of on_new, before it is enqueued.
unfoldable pub count_new : Turn → ℤ → OutMsg → Turn
count_new t service (order_ack a) = record {
  srv = record t.srv {
    counters = record t.srv.counters { orders = inc_u64 t.srv.counters.orders };
  };
  self = record t.self { pending_svc = t.self.pending_svc ++ (service ∷ []) };
}
count_new t service (reject r) = narrated t r
count_new t service (tob m) = t
count_new t service (cancel_ack a) = t
count_new t service (fill f) = t

unfoldable pub count_cancel : Turn → OutMsg → Turn
count_cancel t (cancel_ack a) = record t {
  srv = record t.srv {
    counters = record t.srv.counters { cancels = inc_u64 t.srv.counters.cancels };
  };
}
count_cancel t (reject r) = narrated t r
count_cancel t (tob m) = t
count_cancel t (order_ack a) = t
count_cancel t (fill f) = t

unfoldable pub report_new : Turn → ℤ → List OutMsg → Turn
report_new t service [] = t
report_new t service (m ∷ batch) =
    report_new (enqueue_report (count_new t service m) m) service batch

unfoldable pub report_cancel : Turn → List OutMsg → Turn
report_cancel t [] = t
report_cancel t (m ∷ batch) = report_cancel (enqueue_report (count_cancel t m) m) batch

abbrev pub record_new : Option BenchRecorder → ℤ → ℕ → ℤ → Option BenchRecorder
record_new none service md_seq arrival_ns = none
record_new (some r) service md_seq arrival_ns = some (order_for (svc r service) md_seq arrival_ns)

abbrev pub record_cancel : Option BenchRecorder → ℤ → Option BenchRecorder
record_cancel none service = none
record_cancel (some r) service = some (svc r service)

abbrev pub narrate_command : Turn → ℤ → Turn
narrate_command t service =
    if t.srv.cfg.telemetry_verbose then emit t cmd_in t.self.epoch (to_u64 service) else t

unfoldable pub serve : Turn → InMsg → ℤ → ℤ → Turn
serve t (new_order order) arrival_ns e1_ns =
    let answer = on_new t.srv.engine t.self.epoch order in
    let service = steady_ns t.srv -ℤ e1_ns in
    let served : Turn = record t {
      srv = record (tick t.srv) {
        engine = answer.0;
        recorder = record_new t.srv.recorder service order.md_seq arrival_ns;
      };
    } in
    narrate_command (report_new served service answer.1) service
serve t (cancel_order c) arrival_ns e1_ns =
    let answer = on_cancel t.srv.engine t.self.epoch c in
    let service = steady_ns t.srv -ℤ e1_ns in
    let served : Turn = record t {
      srv = record (tick t.srv) {
        engine = answer.0;
        recorder = record_cancel t.srv.recorder service;
      };
    } in
    narrate_command (report_cancel served answer.1) service

unfoldable pub on_command : Turn → InMsg → ℤ → ℤ → Turn
on_command t msg arrival_ns e1_ns =
    let expected : Turn = record t {
      self = record t.self { in_seq_expected = inc_u64 t.self.in_seq_expected };
    } in
    if not (seq_of msg == t.self.in_seq_expected)
    then begin_close t protocol_error
    else if not (epoch_of msg == t.self.epoch)
    then push_reject expected
        (make_reject (cl_id_of msg) stale_epoch
          (bytes "command epoch does not match this session's epoch"))
        stale_epoch
    else serve expected msg arrival_ns e1_ns

abbrev pub on_decoded : Turn → Decoded → ℤ → Turn
on_decoded t (failed err) arrival_ns =
    pump (push_reject t (make_reject [] err.code err.detail) err.code)
on_decoded t (decoded msg) arrival_ns =
    pump (on_command (record t { srv = tick t.srv }) msg arrival_ns (steady_ns t.srv))

unfoldable pub on_message : Turn → Bytes → ℤ → Turn
on_message t frame arrival_ns =
    if ltb max_inbound_msg_bytes (length frame)
    then pump (
        push_reject t (make_reject [] msg_too_large (bytes "message exceeds the 65536-byte cap"))
          msg_too_large)
    else on_decoded t (t.srv.codec.decode frame) arrival_ns
