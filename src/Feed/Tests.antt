-- ===== src/Feed/Tests.antt =====
-- A concrete feed for cpp/src/feed.cpp.
use market_maker_proto.Prelude.{◌≡◌, ◌<◌, refl, false, List, [], ◌∷◌, length}
use market_maker_proto.Prelude.Int.{pos}
use market_maker_proto.Prelude.Text.{Bytes, bytes, bytes_eq}
use market_maker_proto.Frame.Preflight.{is_integer_token, is_unsigned_integer_token, any}
use market_maker_proto.Frame.Preflight.{
  frame_preflight, check_keys, has_escaped_key, has_duplicate_key, occurs,
}
use market_maker_proto.Frame.Utf8.{utf8_valid, utf8_from}
use market_maker_proto.Frame.Lexer.{
  is_dec_digit, starts_with, skip_ws, scan_string, scan_body, scan_number, scan_integer,
  some_digits, skip_digits, scan_fraction, scan_exponent, scan_escape,
}
use market_maker_proto.Frame.Scanner.{value_done}
use market_maker_proto.Frame.Rounds.{
  scan_frame, scan_from, scanner, rounds, round, dispatch, on_key, on_colon, on_value, on_number,
  on_literal, on_after, close, finish, open_bracket,
}
use market_maker_proto.Feed.{
  parsed, feed_set, feed_halt, load_feed_stream, parse_event, parse_set, parse_body, read_fields,
  to_field, to_i64, from_chars, trim, parse_halt, feed_end, load_lines, parse_line, require_true,
}
use market_maker_proto.Feed.Loaded.{Script, load_feed_stream-Script}
use market_maker_proto.Feed.Lines.{Meets}

abbrev lines : List Bytes
lines = bytes "{\"set\":[100, 5, 102, 5]}" ∷ bytes "{\"halt_ms\":250}" ∷ bytes "{\"end\":true}" ∷ []

load_feed_stream-Script_example :
    Meets
      (λ events. Script lines events × (0 < length events))
      (load_feed_stream lines false (bytes "feed.jsonl"))
load_feed_stream-Script_example = load_feed_stream-Script lines false (bytes "feed.jsonl")

parses_set :
    parse_event (bytes "set") (bytes "[100, 5 ,102, 5]")
    ≡ parsed
        (feed_set (record { bid_px = pos 100; bid_qty = pos 5; ask_px = pos 102; ask_qty = pos 5 }))
unfolding parse_event bytes_eq parse_set parse_body read_fields to_field to_i64 from_chars trim
    is_integer_token is_unsigned_integer_token any is_dec_digit
parses_set = refl

parses_halt : parse_event (bytes "halt_ms") (bytes "250") ≡ parsed (feed_halt (pos 250))
unfolding parse_event bytes_eq parse_halt to_i64 from_chars is_integer_token
    is_unsigned_integer_token any is_dec_digit
parses_halt = refl

loads_script :
    load_feed_stream lines false (bytes "feed.jsonl")
    ≡ parsed (
        feed_set (record { bid_px = pos 100; bid_qty = pos 5; ask_px = pos 102; ask_qty = pos 5 })
        ∷ feed_halt (pos 250)
        ∷ feed_end
        ∷ [])
unfolding load_feed_stream load_lines parse_line parse_event bytes_eq parse_set parse_body
    read_fields to_field to_i64 from_chars trim parse_halt require_true is_integer_token
    is_unsigned_integer_token any is_dec_digit frame_preflight starts_with utf8_valid utf8_from
    scan_frame scan_from skip_ws scanner rounds round dispatch on_key scan_string scan_body on_colon
    on_value on_number on_literal open_bracket scan_number scan_integer some_digits skip_digits
    scan_fraction scan_exponent value_done on_after close finish check_keys has_escaped_key
    has_duplicate_key occurs scan_escape
loads_script = refl
