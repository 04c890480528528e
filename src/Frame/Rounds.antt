-- ===== src/Frame/Rounds.antt =====
-- FrameScanner::run (cpp/src/frame_preflight.cpp): what each state does with the next byte, and the loop.
use Prim.Native.Nat.{bit_and, bit_or}
use market_maker_proto.Prelude.{
  ℕ, zero, suc, ◌+◌, ◌-◌, ◌/◌, ◌%◌, ◌^◌, Bool, false, not, ◌&&◌, ◌||◌, ◌==◌, ltb, if◌then◌else◌,
  none, some, [], ◌∷◌, length,
}
use market_maker_proto.Prelude.Text.{Bytes, bytes}
use market_maker_proto.Frame.Utf8.{skip}
use market_maker_proto.Frame.Lexer.{
  Cursor, is_dec_digit, skip_ws, scan_number, tok_ok, bad, raw_control, unpaired_surrogate,
  scan_string, starts_with,
}
use market_maker_proto.Frame.Scanner.{
  FrameScanner, Outcome, St, after_value, arr_value_or_close, max_nesting_depth, next, obj_colon,
  obj_key, obj_key_or_close, reject_at, rejects, span, string_error, stuck, value, value_done,
}

abbrev pub moved : FrameScanner → Cursor → FrameScanner
moved s c = record s { at = c }

-- A closing bracket.
unfoldable pub close : FrameScanner → Cursor → Outcome
close s c = value_done (record s { at = c; depth = s.depth - 1 })

-- `at` is the cursor and `rest` what follows its first byte, here and below.
unfoldable pub on_key : FrameScanner → ℕ → ℕ → Bytes → Outcome
on_key s i c rest =
    if not (c == 0x22)
    then rejects (reject_at i (bytes "expected a string key"))
    else elim (scan_string (i, c ∷ rest)) [
      | none ↦ stuck
      | some (t, at) ↦ elim t [
        | tok_ok ↦
            if s.depth == 1 && s.root_is_object
            then next (record s {
              at = at;
              pending_key = some (span (i + 1, rest) (at.0 - 1));
              st = obj_colon;
            })
            else next (record s { at = at; st = obj_colon })
        | bad ↦ rejects (string_error at.0 bad)
        | raw_control ↦ rejects (string_error at.0 raw_control)
        | unpaired_surrogate ↦ rejects (string_error at.0 unpaired_surrogate)
      ]
    ]

unfoldable pub on_colon : FrameScanner → ℕ → ℕ → Bytes → Outcome
on_colon s i c rest =
    if not (c == 0x3a)
    then rejects (reject_at i (bytes "expected ':'"))
    else next (record s { at = (i + 1, rest); st = value })

-- Bit `d` of the mask is set for an object and cleared for an array.
unfoldable pub open_bracket : FrameScanner → ℕ → Bool → Bytes → Outcome
open_bracket s i is_object rest =
    let bit = 2 ^ s.depth in
    if s.depth == max_nesting_depth
    then rejects (reject_at i (bytes "nesting depth exceeds the limit"))
    else next (record s {
      at = (i + 1, rest);
      object_mask =
          if is_object then bit_or s.object_mask bit else bit_and s.object_mask (2 ^ 64 - 1 - bit);
      depth = s.depth + 1;
      st = if is_object then obj_key_or_close else arr_value_or_close;
    })

abbrev pub literal_of : ℕ → Bytes
literal_of c = if c == 0x74 then bytes "true" else if c == 0x66 then bytes "false" else bytes "null"

unfoldable pub on_literal : FrameScanner → ℕ → ℕ → Bytes → Outcome
on_literal s i c rest =
    let lit = literal_of c in
    if not (starts_with lit (c ∷ rest))
    then rejects (reject_at i (bytes "invalid literal"))
    else value_done (moved s (i + length lit, skip (length lit) (c ∷ rest)))

unfoldable pub on_number : FrameScanner → ℕ → ℕ → Bytes → Outcome
on_number s i c rest =
    let r = scan_number (i, c ∷ rest) in
    if not (c == 0x2d) && not (is_dec_digit c)
    then rejects (reject_at i (bytes "invalid number token"))
    else if not r.0
    then rejects (reject_at r.1.0 (bytes "invalid number token"))
    else value_done (moved s r.1)

unfoldable pub on_string : FrameScanner → ℕ → ℕ → Bytes → Outcome
on_string s i c rest = elim (scan_string (i, c ∷ rest)) [
  | none ↦ stuck
  | some (t, at) ↦ elim t [
    | tok_ok ↦ value_done (moved s at)
    | bad ↦ rejects (string_error at.0 bad)
    | raw_control ↦ rejects (string_error at.0 raw_control)
    | unpaired_surrogate ↦ rejects (string_error at.0 unpaired_surrogate)
  ]
]

unfoldable pub on_value : FrameScanner → ℕ → ℕ → Bytes → Outcome
on_value s i c rest =
    let s' =
      if s.depth == 1 && s.root_is_object then record s { value_start = (i, c ∷ rest) } else s in
    if c == 0x7b || c == 0x5b
    then open_bracket s' i (c == 0x7b) rest
    else if c == 0x22
    then on_string s' i c rest
    else if c == 0x74 || c == 0x66 || c == 0x6e
    then on_literal s' i c rest
    else on_number s' i c rest

unfoldable pub on_after : FrameScanner → ℕ → ℕ → Bytes → Outcome
on_after s i c rest =
    let in_object = s.object_mask / 2 ^ (s.depth - 1) % 2 == 1 in
    if c == 0x2c
    then next (record s { at = (i + 1, rest); st = if in_object then obj_key else value })
    else if c == (if in_object then 0x7d else 0x5d)
    then close s (i + 1, rest)
    else rejects (reject_at i (bytes "expected ',' or a matching close bracket"))

unfoldable pub dispatch : St → FrameScanner → ℕ → ℕ → Bytes → Outcome
dispatch obj_key_or_close s i c rest =
    if c == 0x7d then close s (i + 1, rest) else on_key s i c rest
dispatch obj_key s i c rest = on_key s i c rest
dispatch obj_colon s i c rest = on_colon s i c rest
dispatch arr_value_or_close s i c rest =
    if c == 0x5d then close s (i + 1, rest) else on_value s i c rest
dispatch value s i c rest = on_value s i c rest
dispatch after_value s i c rest = on_after s i c rest

-- One round, after the white space.
unfoldable pub round : FrameScanner → Cursor → Outcome
round s (i, []) = rejects (reject_at i (bytes "truncated frame"))
round s (i, c ∷ rest) =
    if ltb c 0x20
    then rejects (reject_at i (bytes "raw control byte outside a string"))
    else dispatch s.st (moved s (i, c ∷ rest)) i c rest

unfoldable pub rounds : ℕ → FrameScanner → Outcome
rounds zero s = stuck
rounds (suc n) s = if s.done then next s else elim (round s (skip_ws s.at.0 s.at.1)) [
  | next s' ↦ rounds n s'
  | rejects e ↦ rejects e
  | stuck ↦ stuck
]

unfoldable pub scanner : Cursor → Bool → FrameScanner
scanner at root_is_object = record {
  at = at;
  depth = 0;
  object_mask = 0;
  pending_key = none;
  value_start = (0, []);
  root_is_object = root_is_object;
  done = false;
  st = value;
  out = [];
}

-- What follows the value.
unfoldable pub finish : FrameScanner → Cursor → Outcome
finish s (i, c ∷ rest) = rejects (
    reject_at i (
      if ltb c 0x20
      then bytes "raw control byte outside a string"
      else bytes "trailing content after the frame"))
finish s (i, []) =
    if not s.root_is_object then rejects (reject_at i (bytes "root is not an object")) else next s

unfoldable pub scan_from : Cursor → Outcome
scan_from (i, []) = rejects (reject_at i (bytes "empty frame"))
scan_from (i, c ∷ rest) =
    elim (rounds (suc (suc (length rest))) (scanner (i, c ∷ rest) (c == 0x7b))) [
      | next s ↦ finish s (skip_ws s.at.0 s.at.1)
      | rejects e ↦ rejects e
      | stuck ↦ stuck
    ]

-- FrameScanner::run; a state is success, with its fields.
unfoldable pub scan_frame : Bytes → Outcome
scan_frame frame = scan_from (skip_ws 0 frame)
