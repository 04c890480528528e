-- ===== src/Session/Machine.antt =====
-- What a session promises, apart from how cpp/src/session.cpp and cpp/src/session_close.cpp do it: its
-- latches, what it has written, and the steps that it may take.
use market_maker_proto.Prelude.{ℕ, ◌≡◌, ◌⊎◌, Bool, true, false, List, [], ◌∷◌, ◌++◌, inc_u64}
use market_maker_proto.Protocol.{OutMsg, tob, order_ack, cancel_ack, reject, fill}
use market_maker_proto.Outbox.{holds_tob}
use market_maker_proto.Session.State.{
  Session, Io, async_read, arm_grace, cancel_grace, read_some, close_socket, async_write,
  async_close, too_big,
}

pub record View : Type 0 where
  pub epoch : ℕ
  pub closing : Bool
  pub close_code : ℕ
  pub close_frame_sent : Bool
  pub epoch_retired : Bool
  pub torn_down : Bool
  pub write_inflight : Bool
  pub out_seq : ℕ
  pub sent : List OutMsg

-- The messages handed to the stream, in order.
abbrev pub writes : List Io → List OutMsg
writes [] = []
writes (async_write m payload ∷ io) = m ∷ writes io
writes (async_read ∷ io) = writes io
writes (arm_grace ∷ io) = writes io
writes (cancel_grace ∷ io) = writes io
writes (read_some ∷ io) = writes io
writes (close_socket ∷ io) = writes io
writes (async_close code ∷ io) = writes io

abbrev pub view : Session → View
view s = record {
  epoch = s.epoch;
  closing = s.closing;
  close_code = s.close_code;
  close_frame_sent = s.close_frame_sent;
  epoch_retired = s.epoch_retired;
  torn_down = s.torn_down;
  write_inflight = s.write_inflight;
  out_seq = s.out_seq;
  sent = writes s.io;
}

abbrev pub wire_seq : OutMsg → ℕ
wire_seq (tob m) = m.seq
wire_seq (order_ack m) = m.seq
wire_seq (cancel_ack m) = m.seq
wire_seq (reject m) = m.seq
wire_seq (fill m) = m.seq

abbrev pub wire_epoch : OutMsg → ℕ
wire_epoch (tob m) = m.epoch
wire_epoch (order_ack m) = m.epoch
wire_epoch (cancel_ack m) = m.epoch
wire_epoch (reject m) = m.epoch
wire_epoch (fill m) = m.epoch

-- A step: the latch of a close, which retires the epoch; a close frame; a message on the wire; a
-- sequence number spent on a message that could not be encoded; the end of a write; the teardown.
infix 40 ◌⟶◌ ◌⟶*◌
pub data ◌⟶◌ : View → View → Type 0 where
  latch :
      {v : View} (code : ℕ)
      → v.closing ≡ false
      → v.torn_down ≡ false
      → v ⟶ record v { closing = true; close_code = code; epoch_retired = true }
  frame :
      {v : View}
      → v.closing ≡ true
      → v.torn_down ≡ false
      → (v.write_inflight ≡ false) ⊎ (v.close_code ≡ too_big)
      → v ⟶ record v { close_frame_sent = true }
  write :
      {v : View} (m : OutMsg)
      → v.write_inflight ≡ false
      → v.torn_down ≡ false
      → v.close_frame_sent ≡ false
      → (v.closing ≡ false) ⊎ (holds_tob m ≡ false)
      → wire_seq m ≡ v.out_seq
      → wire_epoch m ≡ v.epoch
      → v
        ⟶ record v { write_inflight = true; out_seq = inc_u64 v.out_seq; sent = v.sent ++ (m ∷ []) }
  spend :
      {v : View}
      → v.write_inflight ≡ false
      → v.torn_down ≡ false
      → v.closing ≡ true
      → v ⟶ record v { out_seq = inc_u64 v.out_seq; close_frame_sent = true }
  land : {v : View} → v ⟶ record v { write_inflight = false }
  tear : {v : View} → v.torn_down ≡ false → v ⟶ record v { torn_down = true; epoch_retired = true }

pub data ◌⟶*◌ : View → View → Type 0 where
  here : {v : View} → v ⟶* v
  more : {u v w : View} → u ⟶ v → v ⟶* w → u ⟶* w

pub trans : {u v w : View} → u ⟶* v → v ⟶* w → u ⟶* w
trans here q = q
trans (more s p) q = more s (trans p q)

pub one : {v w : View} → v ⟶ w → v ⟶* w
one s = more s here
