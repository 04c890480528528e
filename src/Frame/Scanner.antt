-- ===== src/Frame/Scanner.antt =====
-- FrameScanner (cpp/src/frame_preflight.cpp): the state of the machine that reads one
-- frame, its rejections and the end of a value.
use market_maker_proto.Prelude.{
  ℕ, zero, suc, ◌+◌, ◌-◌, ◌/◌, ◌%◌, Bool, true, ◌==◌, ltb, if◌then◌else◌, Option, none, some, List,
  [], ◌∷◌, ◌++◌, length,
}
use market_maker_proto.Prelude.Text.{Bytes, bytes}
use market_maker_proto.Types.{RejectCode, malformed}
use market_maker_proto.Frame.Lexer.{Cursor, Tok, tok_ok, bad, raw_control, unpaired_surrogate}

pub record DecodeError : Type 0 where
  pub code : RejectCode
  pub detail : Bytes

abbrev pub max_nesting_depth : ℕ
max_nesting_depth = 32

abbrev pub max_top_level_keys : ℕ
max_top_level_keys = 32

pub record TopLevelField : Type 0 where
  pub key : Bytes
  pub value : Bytes

-- FrameScan: the fields in the order of the frame, `count` of them.
abbrev pub FrameScan : Type 0
FrameScan = List TopLevelField

pub data St : Type 0 where
  value arr_value_or_close obj_key_or_close obj_key obj_colon after_value : St

-- `pending_key` is none when have_pending_key_ is false; `at` is `i_` with the bytes from there, and
-- `value_start` likewise.
pub record FrameScanner : Type 0 where
  pub at : Cursor
  pub depth : ℕ
  pub object_mask : ℕ
  pub pending_key : Option Bytes
  pub value_start : Cursor
  pub root_is_object : Bool
  pub done : Bool
  pub st : St
  pub out : FrameScan

-- The decimal digits of a number, for std::to_string; the number is enough fuel.
abbrev pub decimal_from : ℕ → ℕ → Bytes → Bytes
decimal_from zero n s = (n % 10 + 0x30) ∷ s
decimal_from (suc fuel) n s =
    let rest = decimal_from fuel (n / 10) ((n % 10 + 0x30) ∷ s) in
    if ltb n 10 then (n % 10 + 0x30) ∷ s else rest

abbrev pub decimal : ℕ → Bytes
decimal n = decimal_from n n []

unfoldable pub reject_at : ℕ → Bytes → DecodeError
reject_at i what = record {
  code = malformed;
  detail = what ++ bytes " (byte " ++ decimal i ++ bytes ")";
}

unfoldable pub string_error : ℕ → Tok → DecodeError
string_error i raw_control = reject_at i (bytes "raw control byte inside a string")
string_error i unpaired_surrogate = reject_at i (bytes "unpaired surrogate escape in a string")
string_error i bad = reject_at i (bytes "invalid string escape or unterminated string")
string_error i tok_ok = reject_at i (bytes "invalid string escape or unterminated string")

-- What a round of the loop comes to: the next state, a rejection, or fuel that has run out.
pub data Outcome : Type 0 where
  next : FrameScanner → Outcome
  rejects : DecodeError → Outcome
  stuck : Outcome

abbrev pub prefix_of : ℕ → Bytes → Bytes
prefix_of zero s = []
prefix_of (suc n) [] = []
prefix_of (suc n) (b ∷ s) = b ∷ prefix_of n s

-- The bytes from one cursor up to an offset.
abbrev pub span : Cursor → ℕ → Bytes
span from i = prefix_of (i - from.0) from.1

abbrev pub finish_value : FrameScanner → FrameScanner
finish_value s = if s.depth == 0 then record s { done = true } else record s { st = after_value }

unfoldable pub value_done : FrameScanner → Outcome
value_done s =
    let recorded : Bytes → FrameScanner = λ key. record s {
      out = s.out ++ ((record { key = key; value = span s.value_start s.at.0 }) ∷ []);
      pending_key = none;
    } in
    if s.depth == 1
    then elim s.pending_key [
      | none ↦ next (finish_value s)
      | some key ↦
          if length s.out == max_top_level_keys
          then rejects (reject_at s.at.0 (bytes "too many top-level keys"))
          else next (finish_value (recorded key))
    ]
    else next (finish_value s)
