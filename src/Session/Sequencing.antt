-- ===== src/Session/Sequencing.antt =====
-- What a client's message does to the sequence of its session and to the engine (Session::on_message and
-- Session::on_command in cpp/src/session.cpp), on every branch, errors included.
use market_maker_proto.Prelude.{
  ℕ, ◌≡◌, refl, subst, ◌∙◌, ◌&&◌, ◌==◌, ltb, if◌then◌else◌, if_cases, Option, none, some, List, [],
  ◌∷◌, length, inc_u64, Bool-cases, inl, inr,
}
use market_maker_proto.Prelude.Int.{ℤ, ◌-ℤ◌}
use market_maker_proto.Prelude.Text.{Bytes, bytes}
use market_maker_proto.Types.{RejectCode, msg_too_large, stale_epoch}
use market_maker_proto.Protocol.{
  InMsg, OutMsg, new_order, cancel_order, tob, order_ack, cancel_ack, reject, fill,
}
use market_maker_proto.Engine.State.{OrderEngine}
use market_maker_proto.Engine.Entry.{on_new, on_cancel}
use market_maker_proto.Session.State.{
  Session, Turn, Decoded, failed, decoded, steady_ns, tick, protocol_error,
}
use market_maker_proto.Session.Events.{
  count_reject, reject_code_from_wire, emit_event, sample_ring_pending,
}
use market_maker_proto.Session.Reports.{enqueue_report, push_reject, pump}
use market_maker_proto.Session.Commands.{
  max_inbound_msg_bytes, make_reject, seq_of, epoch_of, cl_id_of, narrate_reject, count_new,
  count_cancel, report_new, report_cancel, narrate_command, record_new, record_cancel, serve,
  on_command, on_decoded, on_message,
}
use market_maker_proto.Session.Refines.Handlers.{on_command-Leads}
use market_maker_proto.Session.Safety.{path-Kept}
use market_maker_proto.Session.Spares.{
  Retires, Retires-trans, Spares, quiet, Spares-trans, emit_reject_event-Spares, pump-Spares,
  begin_close-Spares, enqueue_report-Spares, push_reject-Spares,
}

-- The command that a message of acceptable size decodes to, if any.
abbrev pub command_of : Decoded → Option InMsg
command_of (failed err) = none
command_of (decoded m) = some m

abbrev pub command : Turn → Bytes → Option InMsg
command t text =
    if ltb max_inbound_msg_bytes (length text) then none else command_of (t.srv.codec.decode text)

-- The sequencer consumes a number exactly for a command that carries it.
abbrev pub seq_after : Session → Option InMsg → ℕ
seq_after s none = s.in_seq_expected
seq_after s (some m) =
    if seq_of m == s.in_seq_expected then inc_u64 s.in_seq_expected else s.in_seq_expected

-- The engine's own answer to a command of the session.
abbrev pub served : OrderEngine → ℕ → InMsg → OrderEngine
served e epoch (new_order m) = (on_new e epoch m).0
served e epoch (cancel_order m) = (on_cancel e epoch m).0

-- The engine hears the commands that are in sequence and of the session's epoch, and no others.
abbrev pub engine_after : OrderEngine → Session → Option InMsg → OrderEngine
engine_after e s none = e
engine_after e s (some m) =
    if seq_of m == s.in_seq_expected && epoch_of m == s.epoch then served e s.epoch m else e

narrated-Spares : (t : Turn) (code : Option RejectCode) → Spares t (narrate_reject t code)
narrated-Spares t none = quiet t t refl refl refl refl
narrated-Spares t (some code) = emit_reject_event-Spares t code

count_new-Spares : (t : Turn) (service : ℤ) (m : OutMsg) → Spares t (count_new t service m)
unfolding count_new count_reject
count_new-Spares t service (order_ack a) = quiet t _ refl refl refl refl
count_new-Spares t service (reject r) =
    Spares-trans t (count_reject t) _ (quiet t _ refl refl refl refl)
      (narrated-Spares (count_reject t) (reject_code_from_wire r.code))
count_new-Spares t service (tob m) = quiet t t refl refl refl refl
count_new-Spares t service (cancel_ack m) = quiet t t refl refl refl refl
count_new-Spares t service (fill m) = quiet t t refl refl refl refl

count_cancel-Spares : (t : Turn) (m : OutMsg) → Spares t (count_cancel t m)
unfolding count_cancel count_reject
count_cancel-Spares t (cancel_ack a) = quiet t _ refl refl refl refl
count_cancel-Spares t (reject r) =
    Spares-trans t (count_reject t) _ (quiet t _ refl refl refl refl)
      (narrated-Spares (count_reject t) (reject_code_from_wire r.code))
count_cancel-Spares t (tob m) = quiet t t refl refl refl refl
count_cancel-Spares t (order_ack m) = quiet t t refl refl refl refl
count_cancel-Spares t (fill m) = quiet t t refl refl refl refl

report_new-Spares : (t : Turn) (service : ℤ) (ms : List OutMsg) → Spares t (report_new t service ms)
unfolding report_new
report_new-Spares t service [] = quiet t t refl refl refl refl
report_new-Spares t service (m ∷ ms) =
    let u = count_new t service m in
    let v = enqueue_report u m in
    Spares-trans t u _ (count_new-Spares t service m)
      (Spares-trans u v _ (enqueue_report-Spares u m) (report_new-Spares v service ms))

report_cancel-Spares : (t : Turn) (ms : List OutMsg) → Spares t (report_cancel t ms)
unfolding report_cancel
report_cancel-Spares t [] = quiet t t refl refl refl refl
report_cancel-Spares t (m ∷ ms) =
    let u = count_cancel t m in
    let v = enqueue_report u m in
    Spares-trans t u _ (count_cancel-Spares t m)
      (Spares-trans u v _ (enqueue_report-Spares u m) (report_cancel-Spares v ms))

narrate_command-Spares : (t : Turn) (service : ℤ) → Spares t (narrate_command t service)
unfolding emit_event sample_ring_pending
narrate_command-Spares t service =
    if_cases (Spares t) t.srv.cfg.telemetry_verbose _ _ (λ e. quiet t _ refl refl refl refl)
      (λ e. quiet t _ refl refl refl refl)

-- What a message has done to the sequence of `s`, and to the engine beyond its own answer `e`.
abbrev pub Outcome : Session → ℕ → OrderEngine → Turn → Type 0
Outcome s seq e u = (u.self.in_seq_expected ≡ seq) × Retires s.epoch e u.srv.engine

spared : (t u : Turn) → Spares t u → Outcome t.self t.self.in_seq_expected t.srv.engine u
spared t u h = (h.seq_kept, h.engine_spared)

serve-Outcome :
    (t : Turn) (m : InMsg) (arrival e1 : ℤ)
    → Outcome t.self t.self.in_seq_expected
        (served t.srv.engine t.self.epoch m)
        (serve t m arrival e1)
unfolding serve
serve-Outcome t (new_order m) arrival e1 =
    let a = on_new t.srv.engine t.self.epoch m in
    let service = steady_ns t.srv -ℤ e1 in
    let u : Turn = record t {
      srv = record (tick t.srv) {
        engine = a.0;
        recorder = record_new t.srv.recorder service m.md_seq arrival;
      };
    } in
    spared u _ (
      Spares-trans u (report_new u service a.1) _ (report_new-Spares u service a.1)
        (narrate_command-Spares _ service))
serve-Outcome t (cancel_order m) arrival e1 =
    let a = on_cancel t.srv.engine t.self.epoch m in
    let service = steady_ns t.srv -ℤ e1 in
    let u : Turn = record t {
      srv = record (tick t.srv) { engine = a.0; recorder = record_cancel t.srv.recorder service };
    } in
    spared u _ (
      Spares-trans u (report_cancel u a.1) _ (report_cancel-Spares u a.1)
        (narrate_command-Spares _ service))

on_command-Outcome :
    (t : Turn) (m : InMsg) (arrival e1 : ℤ)
    → Outcome t.self
        (seq_after t.self (some m))
        (engine_after t.srv.engine t.self (some m))
        (on_command t m arrival e1)
unfolding on_command
on_command-Outcome t m arrival e1 =
    let next : Turn = record t {
      self = record t.self { in_seq_expected = inc_u64 t.self.in_seq_expected };
    } in
    elim (Bool-cases (seq_of m == t.self.in_seq_expected)) [
      | inr e ↦ simp e (spared t _ (begin_close-Spares t protocol_error))
      | inl e ↦ elim (Bool-cases (epoch_of m == t.self.epoch)) [
        | inr f ↦
            simp (e, f)
              (spared next _ (
                push_reject-Spares next
                  (make_reject (cl_id_of m) stale_epoch
                    (bytes "command epoch does not match this session's epoch"))
                  stale_epoch))
        | inl f ↦ simp (e, f) (serve-Outcome next m arrival e1)
      ]
    ]

then_pump :
    (s : Session) (seq : ℕ) (e : OrderEngine) (u : Turn)
    → u.self.epoch ≡ s.epoch
    → Outcome s seq e u
    → Outcome s seq e (pump u)
then_pump s seq e u n o =
    let p = pump-Spares u in
    (
      p.seq_kept ∙ o.0,
      Retires-trans o.1 (subst (λ k. Retires k u.srv.engine (pump u).srv.engine) n p.engine_spared),
    )

rejected-Outcome :
    (t : Turn) (reason : Bytes) (code : RejectCode)
    → Outcome t.self t.self.in_seq_expected t.srv.engine
        (pump (push_reject t (make_reject [] code reason) code))
rejected-Outcome t reason code =
    let u = push_reject t (make_reject [] code reason) code in
    spared t _
      (Spares-trans t u _ (push_reject-Spares t (make_reject [] code reason) code) (pump-Spares u))

-- Which messages count. After a message of a client, on every branch: the sequence has moved by one
-- exactly when the message is of acceptable size, decodes to a command and carries the expected
-- number; and the engine is what its own answer to the command makes it, if the command is in sequence
-- and of the session's epoch, or else is untouched, but for the retirement of the session's epoch.
pub message_outcome :
    (t : Turn) (text : Bytes) (arrival : ℤ)
    → let u = on_message t text arrival in
      (u.self.in_seq_expected ≡ seq_after t.self (command t text))
      × Retires t.self.epoch (engine_after t.srv.engine t.self (command t text)) u.srv.engine
unfolding on_message
message_outcome t text arrival = elim (Bool-cases (ltb max_inbound_msg_bytes (length text))) [
  | inl e ↦ simp e (rejected-Outcome t (bytes "message exceeds the 65536-byte cap") msg_too_large)
  | inr e ↦ simp e (decided (t.srv.codec.decode text))
]
  where
    decided :
        (d : Decoded)
        → Outcome t.self
            (seq_after t.self (command_of d))
            (engine_after t.srv.engine t.self (command_of d))
            (on_decoded t d arrival)
    decided (failed err) = rejected-Outcome t err.detail err.code
    decided (decoded m) =
        let u : Turn = record t { srv = tick t.srv } in
        then_pump t.self (seq_after t.self (some m)) (engine_after t.srv.engine t.self (some m))
          (on_command u m arrival (steady_ns t.srv))
          (path-Kept (on_command-Leads u m arrival (steady_ns t.srv))).epoch_kept
          (on_command-Outcome u m arrival (steady_ns t.srv))
