-- ===== src/Frame/Preflight.antt =====
-- frame_preflight and the checks beside it (cpp/src/frame_preflight.cpp).
use Prim.Native.Nat.{bit_and}
use market_maker_proto.Prelude.{
  ℕ, zero, suc, Bool, false, not, ◌||◌, ◌==◌, ltb, leb, if◌then◌else◌, Option, none, some, [], ◌∷◌,
  ◌++◌, map, length, get_elem?,
}
use market_maker_proto.Prelude.Text.{Bytes, bytes, bytes_eq}
use market_maker_proto.Types.{malformed}
use market_maker_proto.Protocol.{NewOrder, CancelOrder}
use market_maker_proto.Frame.Utf8.{utf8_valid}
use market_maker_proto.Frame.Lexer.{is_dec_digit, starts_with}
use market_maker_proto.Frame.Scanner.{DecodeError, FrameScan, next, rejects, stuck, prefix_of}
use market_maker_proto.Frame.Rounds.{scan_frame}

abbrev pub max_cl_id_len : ℕ
max_cl_id_len = 64

abbrev pub max_symbol_len : ℕ
max_symbol_len = 32

abbrev pub max_side_len : ℕ
max_side_len = 8

abbrev pub max_tag_detail_bytes : ℕ
max_tag_detail_bytes = 32

abbrev pub is_control : ℕ → Bool
is_control c = ltb c 0x20 || c == 0x7f

unfoldable pub any : (ℕ → Bool) → Bytes → Bool
any p [] = false
any p (c ∷ s) = p c || any p s

abbrev pub refusal : Bytes → Option DecodeError
refusal detail = some (record { code = malformed; detail = detail })

unfoldable pub check_identifier : Bytes → Bytes → ℕ → Option DecodeError
check_identifier v name cap =
    if ltb cap (length v)
    then refusal (name ++ bytes " exceeds the length cap")
    else if any is_control v
    then refusal (bytes "control byte in " ++ name)
    else none

unfoldable pub check_new_order_strings : NewOrder → Option DecodeError
check_new_order_strings o = elim (check_identifier o.cl_id (bytes "cl_id") max_cl_id_len) [
  | some err ↦ some err
  | none ↦ elim (check_identifier o.symbol (bytes "symbol") max_symbol_len) [
    | some err ↦ some err
    | none ↦ check_identifier o.side (bytes "side") max_side_len
  ]
]

unfoldable pub check_cancel_order_strings : CancelOrder → Option DecodeError
check_cancel_order_strings c = check_identifier c.cl_id (bytes "cl_id") max_cl_id_len

unfoldable pub is_unsigned_integer_token : Bytes → Bool
is_unsigned_integer_token [] = false
is_unsigned_integer_token (c ∷ s) = not (any (λ b. not (is_dec_digit b)) (c ∷ s))

unfoldable pub is_integer_token : Bytes → Bool
is_integer_token [] = is_unsigned_integer_token []
is_integer_token (c ∷ s) =
    if c == 0x2d then is_unsigned_integer_token s else is_unsigned_integer_token (c ∷ s)

-- The test that tag[take] is a continuation byte.
abbrev pub is_continuation : ℕ → Bool
is_continuation b = bit_and b 0xc0 == 0x80

abbrev pub continuation_at : Bytes → ℕ → Bool
continuation_at tag n = elim (get_elem? tag n) [ none ↦ false | some b ↦ is_continuation b ]

-- The loop that moves the cut to the start of a code point.
unfoldable pub cut_at : Bytes → ℕ → ℕ
cut_at tag zero = zero
cut_at tag (suc n) =
    let shorter = cut_at tag n in if continuation_at tag (suc n) then shorter else suc n

abbrev pub ellipsis : Bytes
ellipsis = 0xe2 ∷ 0x80 ∷ 0xa6 ∷ []

unfoldable pub sanitized_tag : Bytes → Bytes
sanitized_tag tag =
    let take =
      cut_at tag
        (if leb (length tag) max_tag_detail_bytes then length tag else max_tag_detail_bytes) in
    map (λ c. if is_control c then 0x3f else c) (prefix_of take tag)
    ++ (if ltb take (length tag) then ellipsis else [])

unfoldable pub has_escaped_key : FrameScan → Bool
has_escaped_key [] = false
has_escaped_key (f ∷ fs) = any (λ b. b == 0x5c) f.key || has_escaped_key fs

unfoldable pub occurs : Bytes → FrameScan → Bool
occurs k [] = false
occurs k (f ∷ fs) = bytes_eq k f.key || occurs k fs

-- Some field has the key of an earlier one.
unfoldable pub has_duplicate_key : FrameScan → Bool
has_duplicate_key [] = false
has_duplicate_key (f ∷ fs) = occurs f.key fs || has_duplicate_key fs

-- A verdict: the scanned fields, the error, or fuel that has run out.
pub data Verdict : Type 0 where
  accepted : FrameScan → Verdict
  refused : DecodeError → Verdict
  unfinished : Verdict

unfoldable pub check_keys : FrameScan → Verdict
check_keys scan =
    if has_escaped_key scan
    then refused (record { code = malformed; detail = bytes "escape sequence in a top-level key" })
    else if has_duplicate_key scan
    then refused (record { code = malformed; detail = bytes "duplicate top-level key" })
    else accepted scan

unfoldable pub frame_preflight : Bytes → Verdict
frame_preflight frame =
    if starts_with (0xef ∷ 0xbb ∷ 0xbf ∷ []) frame
    then refused (record { code = malformed; detail = bytes "UTF-8 BOM" })
    else if not (utf8_valid frame)
    then refused (record { code = malformed; detail = bytes "invalid UTF-8" })
    else elim (scan_frame frame) [
      | next s ↦ check_keys s.out
      | rejects e ↦ refused e
      | stuck ↦ unfinished
    ]
