-- ===== src/Session/State.antt =====
-- The state of a Session and of the ServerImpl that it belongs to (cpp/src/server_impl.hpp).
use market_maker_proto.Prelude.{ℕ, ◌+◌, Bool, false, Option, List, [], ◌∷◌, ◌++◌}
use market_maker_proto.Prelude.Int.{ℤ, pos}
use market_maker_proto.Prelude.Text.{Bytes}
use market_maker_proto.Types.{Instrument}
use market_maker_proto.Protocol.{InMsg, OutMsg}
use market_maker_proto.Frame.Scanner.{DecodeError}
use market_maker_proto.Outbox.{Outbox}
use market_maker_proto.Engine.State.{OrderEngine}
use market_maker_proto.Feed.{FeedEvent}
use market_maker_proto.Ring.Spsc.{SpscTelemetryRing}
use market_maker_proto.Telemetry.{TelemetryRecord, Counters}
use market_maker_proto.Bench.{BenchRecorder}

-- ICodec::decode's variant.
pub data Decoded : Type 0 where
  failed : DecodeError → Decoded
  decoded : InMsg → Decoded

-- The codec is a parameter; an empty encoding is its signal of an internal error.
pub record Codec : Type 0 where
  pub decode : Bytes → Decoded
  pub encode : OutMsg → Bytes

-- What a session asks of its stream and of its grace timer. A write has the message beside its bytes.
pub data Io : Type 0 where
  async_read arm_grace cancel_grace read_some close_socket : Io
  async_write : OutMsg → Bytes → Io
  async_close : ℕ → Io

pub record Session : Type 0 where
  pub epoch : ℕ
  pub outbox : Outbox
  pub out_seq : ℕ
  pub in_seq_expected : ℕ
  pub pending_svc : List ℤ
  pub reject_latch : ℕ
  pub reject_latch_ns : ℤ
  pub retired_acks : ℕ
  pub write_inflight : Bool
  pub write_start_ns : ℤ
  pub closing : Bool
  pub drain_then_close : Bool
  pub close_frame_sent : Bool
  pub epoch_retired : Bool
  pub torn_down : Bool
  pub close_code : ℕ
  pub io : List Io

-- The members of Config that are read here.
pub record Config : Type 0 where
  pub report_hwm : ℕ
  pub telemetry_verbose : Bool
  pub bench_out : Bytes
  pub loop_feed : Bool
  pub feed_interval_ms : ℤ

-- What the server meets outside of the owner's thread: the readings of the steady clock in turn, the
-- ring after a bounded wait for the writer, the offers that a held fault record is given before the
-- deadline after the first, the writer's health once it has been joined, and whether the signals that
-- were claimed could be given back.
pub record Environment : Type 0 where
  pub clock : ℕ → ℤ
  pub wait_for_room : SpscTelemetryRing TelemetryRecord → SpscTelemetryRing TelemetryRecord
  pub fault_retries : ℕ
  pub writer_ok : Bool
  pub signals_restored : Bool

-- The map of the sessions is keyed by epoch and in ascending order. While a session is in a turn of
-- its own, its entry here is not read.
pub record ServerImpl : Type 0 where
  pub env : Environment
  pub reads : ℕ
  pub cfg : Config
  pub inst : Instrument
  pub codec : Codec
  pub engine : OrderEngine
  pub feed : List FeedEvent
  pub feed_index : ℕ
  pub next_md_seq : ℕ
  pub counters : Counters
  pub conflated_base : ℕ
  pub ring : SpscTelemetryRing TelemetryRecord
  pub recorder : Option BenchRecorder
  pub bench_dump : Option Bytes
  pub pending_fault : Option TelemetryRecord
  pub sessions : List (ℕ × Session)
  pub peak_sessions : ℕ
  pub stopping : Bool
  pub finalized : Bool
  pub telemetry_ok : Bool

-- A session in its turn, with the server.
pub record Turn : Type 0 where
  pub srv : ServerImpl
  pub self : Session

-- The close codes of RFC 6455 that the source names.
abbrev pub no_code : ℕ
no_code = 0

abbrev pub normal : ℕ
normal = 1000

abbrev pub going_away : ℕ
going_away = 1001

abbrev pub protocol_error : ℕ
protocol_error = 1002

abbrev pub abnormal : ℕ
abnormal = 1006

abbrev pub bad_payload : ℕ
bad_payload = 1007

abbrev pub policy_error : ℕ
policy_error = 1008

abbrev pub too_big : ℕ
too_big = 1009

abbrev pub internal_error : ℕ
internal_error = 1011

-- The constructor, with the members' initializers.
unfoldable pub session : Outbox → Session
session outbox = record {
  epoch = 0;
  outbox = outbox;
  out_seq = 1;
  in_seq_expected = 1;
  pending_svc = [];
  reject_latch = 0;
  reject_latch_ns = pos 0;
  retired_acks = 0;
  write_inflight = false;
  write_start_ns = pos 0;
  closing = false;
  drain_then_close = false;
  close_frame_sent = false;
  epoch_retired = false;
  torn_down = false;
  close_code = no_code;
  io = [];
}

-- One more request of the session.
abbrev pub ask : Turn → Io → Turn
ask t request = record t { self = record t.self { io = t.self.io ++ (request ∷ []) } }

-- A reading of the steady clock, and the server after it.
unfoldable pub steady_ns : ServerImpl → ℤ
steady_ns srv = srv.env.clock srv.reads

abbrev pub tick : ServerImpl → ServerImpl
tick srv = record srv { reads = srv.reads + 1 }

unfoldable pub read_next : Turn → Turn
read_next t = ask t async_read

unfoldable pub start : Turn → ℕ → Turn
start t epoch = read_next (record t { self = record t.self { epoch = epoch } })
