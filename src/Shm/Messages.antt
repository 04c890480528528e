-- ===== src/Shm/Messages.antt =====
-- The 64-byte messages of cpp/include/mm/shm_ring.hpp, without their padding.
use market_maker_proto.Prelude.{ℕ}
use market_maker_proto.Prelude.Int.{ℤ, pos}

-- ShmMsgType.
abbrev pub top_of_book_tag : ℕ
top_of_book_tag = 1

abbrev pub new_order_tag : ℕ
new_order_tag = 2

abbrev pub cancel_order_tag : ℕ
cancel_order_tag = 3

pub record ShmTopOfBook : Type 0 where
  pub tag : ℕ
  pub flags : ℕ
  pub seq : ℕ
  pub epoch : ℕ
  pub md_seq : ℕ
  pub bid_px : ℤ
  pub bid_qty : ℤ
  pub ask_px : ℤ
  pub ask_qty : ℤ
  pub venue_ns : ℤ

pub record ShmNewOrder : Type 0 where
  pub tag : ℕ
  pub side : ℕ
  pub post_only : ℕ
  pub seq : ℕ
  pub epoch : ℕ
  pub md_seq : ℕ
  pub cl_id : ℕ
  pub px : ℤ
  pub qty : ℤ
  pub send_ts_ns : ℤ

pub record ShmCancelOrder : Type 0 where
  pub tag : ℕ
  pub seq : ℕ
  pub epoch : ℕ
  pub cl_id : ℕ
  pub send_ts_ns : ℤ

pub record ShmOrderAck : Type 0 where
  pub tag : ℕ
  pub seq : ℕ
  pub epoch : ℕ
  pub cl_id : ℕ
  pub svc_ns : ℕ
  pub engine_ts_ns : ℤ

pub record ShmOrderFill : Type 0 where
  pub tag : ℕ
  pub seq : ℕ
  pub epoch : ℕ
  pub cl_id : ℕ
  pub md_seq : ℕ
  pub fill_px : ℤ
  pub fill_qty : ℤ

pub record ShmOrderReject : Type 0 where
  pub tag : ℕ
  pub code : ℕ
  pub seq : ℕ
  pub epoch : ℕ
  pub cl_id : ℕ
  pub engine_ts_ns : ℤ

-- The values of the default member initialisers.
abbrev pub no_new_order : ShmNewOrder
no_new_order = record {
  tag = new_order_tag;
  side = 1;
  post_only = 0;
  seq = 0;
  epoch = 0;
  md_seq = 0;
  cl_id = 0;
  px = pos 0;
  qty = pos 0;
  send_ts_ns = pos 0;
}

abbrev pub no_cancel_order : ShmCancelOrder
no_cancel_order = record {
  tag = cancel_order_tag;
  seq = 0;
  epoch = 0;
  cl_id = 0;
  send_ts_ns = pos 0;
}
