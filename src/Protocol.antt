-- ===== src/Protocol.antt =====
-- cpp/include/mm/protocol.hpp: the messages, as records with the source's members. Strings are bytes,
-- std::uint64_t is ℕ and std::int64_t is ℤ.
use market_maker_proto.Prelude.{ℕ, Bool}
use market_maker_proto.Prelude.Int.{ℤ}
use market_maker_proto.Prelude.Text.{Bytes}

pub record Tob : Type 0 where
  pub v : ℕ
  pub seq : ℕ
  pub epoch : ℕ
  pub md_seq : ℕ
  pub symbol : Bytes
  pub bid_px : ℤ
  pub bid_qty : ℤ
  pub ask_px : ℤ
  pub ask_qty : ℤ

pub record NewOrder : Type 0 where
  pub v : ℕ
  pub seq : ℕ
  pub epoch : ℕ
  pub md_seq : ℕ
  pub cl_id : Bytes
  pub symbol : Bytes
  pub side : Bytes
  pub px : ℤ
  pub qty : ℤ
  pub post_only : Bool

pub record CancelOrder : Type 0 where
  pub v : ℕ
  pub seq : ℕ
  pub epoch : ℕ
  pub cl_id : Bytes

pub record OrderAck : Type 0 where
  pub v : ℕ
  pub seq : ℕ
  pub epoch : ℕ
  pub cl_id : Bytes
  pub eng_id : ℕ
  pub status : Bytes
  pub svc_ns : ℤ

pub record CancelAck : Type 0 where
  pub v : ℕ
  pub seq : ℕ
  pub epoch : ℕ
  pub cl_id : Bytes
  pub eng_id : ℕ
  pub status : Bytes

pub record Reject : Type 0 where
  pub v : ℕ
  pub seq : ℕ
  pub epoch : ℕ
  pub cl_id : Bytes
  pub code : Bytes
  pub reason : Bytes

pub record Fill : Type 0 where
  pub v : ℕ
  pub seq : ℕ
  pub epoch : ℕ
  pub cl_id : Bytes
  pub eng_id : ℕ
  pub px : ℤ
  pub qty : ℤ
  pub leaves : ℤ
  pub exec_id : ℕ

-- The alternatives of the two variants.
pub data InMsg : Type 0 where
  new_order : NewOrder → InMsg
  cancel_order : CancelOrder → InMsg

pub data OutMsg : Type 0 where
  tob : Tob → OutMsg
  order_ack : OrderAck → OutMsg
  cancel_ack : CancelAck → OutMsg
  reject : Reject → OutMsg
  fill : Fill → OutMsg
