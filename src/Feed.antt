-- ===== src/Feed.antt =====
-- The feed script and its loader (cpp/src/feed.cpp, cpp/include/mm/feed.hpp). A rejection carries its
-- reason; the source and the line are put before it where the line is known.
pub mod Loaded
pub mod Lines
mod Tests
use market_maker_proto.Prelude.{
  ℕ, zero, suc, ◌+◌, ◌-◌, ◌*◌, ◌^◌, Bool, true, false, not, ◌&&◌, ◌||◌, ◌==◌, ltb, leb,
  if◌then◌else◌, List, [], ◌∷◌, ◌++◌, map, length, Option, none, some,
}
use market_maker_proto.Prelude.Int.{ℤ, pos, neg_ℤ, leb_ℤ, ltb_ℤ}
use market_maker_proto.Prelude.Text.{Bytes, bytes, bytes_eq}
use market_maker_proto.Frame.Lexer.{is_ws}
use market_maker_proto.Frame.Scanner.{FrameScan, TopLevelField, decimal}
use market_maker_proto.Frame.Preflight.{
  Verdict, accepted, refused, unfinished, frame_preflight, is_integer_token, sanitized_tag,
}

pub record FeedSet : Type 0 where
  pub bid_px : ℤ
  pub bid_qty : ℤ
  pub ask_px : ℤ
  pub ask_qty : ℤ

pub data FeedEvent : Type 0 where
  feed_set : FeedSet → FeedEvent
  feed_halt : ℤ → FeedEvent
  feed_drop feed_end : FeedEvent

-- A value, or the reason of a rejection.
pub data Parsed {ℓ} (A : Type ℓ) : Type ℓ where
  parsed : A → Parsed A
  failed : Bytes → Parsed A

abbrev pub and_then {ℓ κ} : {A : Type ℓ} {B : Type κ} → Parsed A → (A → Parsed B) → Parsed B
and_then (parsed a) f = f a
and_then (failed why) f = failed why

abbrev pub quoted_name : Bytes → Bytes
quoted_name name = bytes "\"" ++ name ++ bytes "\""

abbrev pub drop_ws : Bytes → Bytes
drop_ws [] = []
drop_ws (c ∷ s) = let rest = drop_ws s in if is_ws c then rest else c ∷ s

abbrev pub is_empty : Bytes → Bool
is_empty [] = true
is_empty (c ∷ s) = false

abbrev pub trim_end : Bytes → Bytes
trim_end [] = []
trim_end (c ∷ s) = let rest = trim_end s in if is_ws c && is_empty rest then [] else c ∷ rest

unfoldable pub trim : Bytes → Bytes
trim s = trim_end (drop_ws s)

-- The value of a string of decimal digits, after `n`.
abbrev pub digits_value : ℕ → Bytes → ℕ
digits_value n [] = n
digits_value n (c ∷ s) = digits_value (n * 10 + (c - 0x30)) s

-- std::from_chars on an integer token; `none` is out of range.
unfoldable pub from_chars : Bytes → Option ℤ
from_chars [] = none
from_chars (c ∷ s) =
    let magnitude = digits_value 0 s in
    let whole = digits_value 0 (c ∷ s) in
    if c == 0x2d
    then if leb magnitude (2 ^ 63) then some (neg_ℤ (pos magnitude)) else none
    else if ltb whole (2 ^ 63)
    then some (pos whole)
    else none

unfoldable pub to_i64 : Bytes → Bytes → Parsed ℤ
to_i64 token name =
    if not (is_integer_token token)
    then failed (quoted_name name ++ bytes " is not an integer")
    else elim (from_chars token) [
      | none ↦ failed (quoted_name name ++ bytes " is out of range for a 64-bit integer")
      | some v ↦ parsed v
    ]

abbrev pub onto_first : ℕ → List Bytes → List Bytes
onto_first c [] = (c ∷ []) ∷ []
onto_first c (t ∷ ts) = (c ∷ t) ∷ ts

-- The pieces between commas, one at least.
abbrev pub split : Bytes → List Bytes
split [] = [] ∷ []
split (c ∷ s) = let rest = split s in if c == 0x2c then [] ∷ rest else onto_first c rest

abbrev pub starts_negative : Bytes → Bool
starts_negative [] = false
starts_negative (c ∷ s) = c == 0x2d

unfoldable pub to_field : Bytes → Bytes → Parsed ℤ
to_field token name = and_then (to_i64 token name) (λ v.
    if starts_negative token
    then failed (quoted_name name ++ bytes " must not be negative")
    else parsed v)

-- The loop over the names and the tokens; a field without a token stays 0.
unfoldable pub read_fields : List Bytes → List Bytes → Parsed (List ℤ)
read_fields [] ts = parsed []
read_fields (n ∷ ns) [] = parsed (map (λ m. pos 0) (n ∷ ns))
read_fields (n ∷ ns) (t ∷ ts) =
    let rest = read_fields ns ts in
    and_then (to_field t n) (λ v. and_then rest (λ vs. parsed (v ∷ vs)))

abbrev pub names : List Bytes
names = bytes "bid_px" ∷ bytes "bid_qty" ∷ bytes "ask_px" ∷ bytes "ask_qty" ∷ []

abbrev pub arity_error : Bytes
arity_error =
    quoted_name (bytes "set")
    ++ bytes " must have exactly four elements [bid_px, bid_qty, ask_px, ask_qty]"

abbrev pub to_set : List ℤ → Parsed FeedEvent
to_set (a ∷ b ∷ c ∷ d ∷ []) =
    parsed (feed_set (record { bid_px = a; bid_qty = b; ask_px = c; ask_qty = d }))
to_set vs = failed arity_error

-- All bytes but the last.
abbrev pub but_last : Bytes → Bytes
but_last [] = []
but_last (c ∷ s) = let rest = but_last s in if is_empty s then [] else c ∷ rest

unfoldable pub parse_body : Bytes → Parsed FeedEvent
parse_body body =
    let tokens = map trim (split body) in
    if is_empty body
    then failed arity_error
    else and_then (read_fields names tokens)
        (λ vs. if length tokens == 4 then to_set vs else failed arity_error)

abbrev pub not_an_array : Bytes
not_an_array =
    quoted_name (bytes "set")
    ++ bytes " must be an array of four integers [bid_px, bid_qty, ask_px, ask_qty]"

unfoldable pub parse_set : Bytes → Parsed FeedEvent
parse_set [] = failed not_an_array
parse_set (c ∷ s) = if not (c == 0x5b) then failed not_an_array else parse_body (trim (but_last s))

abbrev pub max_halt_ms : ℕ
max_halt_ms = 24 * 60 * 60 * 1000

unfoldable pub parse_halt : Bytes → Parsed FeedEvent
parse_halt v = and_then (to_i64 v (bytes "halt_ms")) (λ ms.
    if leb_ℤ ms (pos 0)
    then failed
        (quoted_name (bytes "halt_ms") ++ bytes " must be a positive integer (milliseconds)")
    else if ltb_ℤ (pos max_halt_ms) ms
    then failed (
        quoted_name (bytes "halt_ms")
        ++ bytes " must be at most "
        ++ decimal max_halt_ms
        ++ bytes " milliseconds (24 hours)")
    else parsed (feed_halt ms))

unfoldable pub require_true : Bytes → Bytes → FeedEvent → Parsed FeedEvent
require_true v name event =
    if bytes_eq v (bytes "true")
    then parsed event
    else failed (quoted_name name ++ bytes " must be the literal true")

unfoldable pub parse_event : Bytes → Bytes → Parsed FeedEvent
parse_event key v =
    if bytes_eq key (bytes "set")
    then parse_set v
    else if bytes_eq key (bytes "halt_ms")
    then parse_halt v
    else if bytes_eq key (bytes "drop")
    then require_true v (bytes "drop") feed_drop
    else if bytes_eq key (bytes "end")
    then require_true v (bytes "end") feed_end
    else failed (bytes "unknown event key " ++ quoted_name (sanitized_tag key))

abbrev pub parse_fields : FrameScan → Parsed FeedEvent
parse_fields (f ∷ []) = parse_event f.key f.value
parse_fields scan = failed (bytes "expected exactly one event key, found " ++ decimal (length scan))

-- `unfinished` does not occur.
unfoldable pub parse_line : Bytes → Parsed FeedEvent
parse_line text = elim (frame_preflight text) [
  | accepted scan ↦ parse_fields scan
  | refused e ↦ failed e.detail
  | unfinished ↦ failed []
]

abbrev pub located : Bytes → ℕ → Bytes → Bytes
located source line_no why = source ++ bytes ": line " ++ decimal line_no ++ bytes ": " ++ why

abbrev pub is_end : FeedEvent → Bool
is_end feed_end = true
is_end feed_drop = false
is_end (feed_set s) = false
is_end (feed_halt ms) = false

-- The loop over the lines; `line_no` is of the line before.
unfoldable pub load_lines : Bytes → ℕ → Bool → List Bytes → Parsed (List FeedEvent)
load_lines source line_no ended [] = parsed []
load_lines source line_no ended (line ∷ lines) =
    if ended
    then failed (
        located source (line_no + 1)
          (bytes "content after the " ++ quoted_name (bytes "end") ++ bytes " event"))
    else elim (parse_line line) [
      | failed why ↦ failed (located source (line_no + 1) why)
      | parsed event ↦
          and_then (load_lines source (line_no + 1) (is_end event) lines)
            (λ events. parsed (event ∷ events))
    ]

-- `lines` is what std::getline reads, and `bad` the state of the stream after it.
unfoldable pub load_feed_stream : List Bytes → Bool → Bytes → Parsed (List FeedEvent)
load_feed_stream lines bad source = and_then (load_lines source 0 false lines) (λ events.
    if bad then failed (bytes "error reading feed file " ++ source) else elim events [
      | [] ↦ failed (bytes "feed file " ++ source ++ bytes " contains no events")
      | event ∷ rest ↦ parsed (event ∷ rest)
    ])
