-- ===== src/Frame/Tests.antt =====
-- Concrete frames for cpp/src/frame_preflight.cpp.
use market_maker_proto.Prelude.{◌≡◌, refl, [], ◌∷◌, true}
use market_maker_proto.Prelude.Text.{Bytes, bytes}
use market_maker_proto.Frame.Preflight.{frame_preflight, accepted}
use market_maker_proto.Prelude.{none, ◌↔◌}
use market_maker_proto.Prelude.Int.{pos}
use market_maker_proto.Protocol.{NewOrder}
use market_maker_proto.Frame.Utf8.{utf8_valid, utf8_from}
use market_maker_proto.Frame.Lexer.{
  starts_with, skip_ws, scan_string, scan_body, scan_number, scan_integer, some_digits, skip_digits,
  is_dec_digit, scan_fraction, scan_exponent, scan_escape,
}
use market_maker_proto.Frame.Scanner.{value_done}
use market_maker_proto.Frame.Rounds.{
  scan_frame, scan_from, scanner, rounds, round, dispatch, on_key, on_colon, on_value, on_number,
  on_after, close, finish, open_bracket,
}
use market_maker_proto.Frame.Preflight.{
  check_keys, has_escaped_key, any, has_duplicate_key, occurs, check_new_order_strings,
}
use market_maker_proto.Frame.Identifiers.{Fits, check_new_order_strings_iff}
use market_maker_proto.Frame.Decides.{Decided, frame_preflight_decides}

abbrev order_frame : Bytes
order_frame = bytes "{\"t\":\"new\", \"v\":[1,{\"a\":-2.5e3}], \"x\":true}"

frame_preflight_decides_example : Decided order_frame (frame_preflight order_frame)
frame_preflight_decides_example = frame_preflight_decides order_frame

abbrev new_order : NewOrder
new_order = record {
  v = 1;
  seq = 1;
  epoch = 1;
  md_seq = 1;
  cl_id = bytes "a1";
  symbol = bytes "MOCKUSDT";
  side = bytes "B";
  px = pos 100;
  qty = pos 10;
  post_only = true;
}

check_new_order_strings_iff_example :
    (check_new_order_strings new_order ≡ none)
    ↔ (Fits 64 new_order.cl_id × Fits 32 new_order.symbol × Fits 8 new_order.side)
check_new_order_strings_iff_example = check_new_order_strings_iff new_order

accepts_order_frame :
    frame_preflight (bytes "{\"a\":1}")
    ≡ accepted ((record { key = bytes "a"; value = bytes "1" }) ∷ [])
unfolding frame_preflight starts_with utf8_valid utf8_from scan_frame scan_from skip_ws scanner
    rounds round dispatch on_key scan_string scan_body on_colon on_value on_number scan_number
    scan_integer some_digits skip_digits is_dec_digit scan_fraction scan_exponent value_done
    on_after close finish check_keys has_escaped_key any has_duplicate_key occurs open_bracket
    scan_escape
accepts_order_frame = refl
