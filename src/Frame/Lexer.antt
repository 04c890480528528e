-- ===== src/Frame/Lexer.antt =====
-- The tokens that FrameScanner reads (cpp/src/frame_preflight.cpp): white space, numbers and strings. A
-- cursor is the offset `i_` with the bytes from there on.
use market_maker_proto.Prelude.{
  ℕ, zero, suc, ◌+◌, ◌-◌, ◌*◌, Bool, true, false, not, ◌&&◌, ◌||◌, ◌==◌, ltb, if◌then◌else◌, Option,
  none, some, [], ◌∷◌, length,
}
use market_maker_proto.Prelude.Text.{Bytes}
use market_maker_proto.Frame.Utf8.{within, skip}

abbrev pub Cursor : Type 0
Cursor = ℕ × Bytes

unfoldable pub is_dec_digit : ℕ → Bool
is_dec_digit c = within 0x30 0x39 c

abbrev pub is_ws : ℕ → Bool
is_ws c = c == 0x20 || c == 0x09 || c == 0x0a || c == 0x0d

unfoldable pub skip_ws : ℕ → Bytes → Cursor
skip_ws i [] = (i, [])
skip_ws i (c ∷ s) = let rest = skip_ws (i + 1) s in if is_ws c then rest else (i, c ∷ s)

unfoldable pub skip_digits : ℕ → Bytes → Cursor
skip_digits i [] = (i, [])
skip_digits i (c ∷ s) =
    let rest = skip_digits (i + 1) s in if is_dec_digit c then rest else (i, c ∷ s)

-- At least one digit; a failure leaves the cursor where it stands.
unfoldable pub some_digits : Cursor → Bool × Cursor
some_digits (i, []) = (false, (i, []))
some_digits (i, c ∷ s) =
    let rest = skip_digits (i + 1) s in if is_dec_digit c then (true, rest) else (false, (i, c ∷ s))

-- A byte that is skipped when it is one of a set.
abbrev pub optional_byte : (ℕ → Bool) → Cursor → Bool × Cursor
optional_byte p (i, []) = (false, (i, []))
optional_byte p (i, c ∷ s) = if p c then (true, (i + 1, s)) else (false, (i, c ∷ s))

unfoldable pub scan_integer : Cursor → Bool × Cursor
scan_integer c =
    let z = optional_byte (λ b. b == 0x30) c in if z.0 then (true, z.1) else some_digits c

unfoldable pub scan_fraction : Cursor → Bool × Cursor
scan_fraction c =
    let dot = optional_byte (λ b. b == 0x2e) c in if dot.0 then some_digits dot.1 else (true, c)

unfoldable pub scan_exponent : Cursor → Bool × Cursor
scan_exponent c =
    let e = optional_byte (λ b. b == 0x65 || b == 0x45) c in
    if e.0 then some_digits (optional_byte (λ b. b == 0x2b || b == 0x2d) e.1).1 else (true, c)

unfoldable pub scan_number : Cursor → Bool × Cursor
scan_number c =
    let whole = scan_integer (optional_byte (λ b. b == 0x2d) c).1 in
    let frac = scan_fraction whole.1 in
    if not whole.0 then whole else if not frac.0 then frac else scan_exponent frac.1

unfoldable pub hex_value : ℕ → Option ℕ
hex_value c =
    if within 0x30 0x39 c
    then some (c - 0x30)
    else if within 0x61 0x66 c
    then some (c - 0x61 + 10)
    else if within 0x41 0x46 c
    then some (c - 0x41 + 10)
    else none

-- The loop over the digits: the code unit so far, and 0x110000 for a byte that is no digit.
unfoldable pub hex_digits : ℕ → ℕ → Cursor → ℕ × Cursor
hex_digits zero cu c = (cu, c)
hex_digits (suc k) cu (i, []) = (0x110000, (i, []))
hex_digits (suc k) cu (i, b ∷ s) = elim (hex_value b) [
  | none ↦ (0x110000, (i, b ∷ s))
  | some d ↦ hex_digits k (cu * 16 + d) (i + 1, s)
]

unfoldable pub scan_hex4 : Cursor → ℕ × Cursor
scan_hex4 c = if ltb (length c.1) 4 then (0x110000, c) else hex_digits 4 0 c

pub data Tok : Type 0 where
  tok_ok bad raw_control unpaired_surrogate : Tok

abbrev pub is_simple_escape : ℕ → Bool
is_simple_escape c =
    c == 0x22
    || c == 0x5c
    || c == 0x2f
    || c == 0x62
    || c == 0x66
    || c == 0x6e
    || c == 0x72
    || c == 0x74

unfoldable pub starts_with : Bytes → Bytes → Bool
starts_with [] s = true
starts_with (b ∷ p) [] = false
starts_with (b ∷ p) (c ∷ s) = b == c && starts_with p s

-- The low half of a surrogate pair, after the high half.
unfoldable pub scan_low : Cursor → Tok × Cursor
scan_low c =
    let lo = scan_hex4 (c.0 + 2, skip 2 c.1) in
    if not (starts_with (0x5c ∷ 0x75 ∷ []) c.1)
    then (unpaired_surrogate, c)
    else if ltb 0xffff lo.0
    then (bad, lo.1)
    else if not (within 0xdc00 0xdfff lo.0)
    then (unpaired_surrogate, lo.1)
    else (tok_ok, lo.1)

-- After `\u`.
unfoldable pub scan_unicode : Cursor → Tok × Cursor
scan_unicode c =
    let cu = scan_hex4 c in
    if ltb 0xffff cu.0
    then (bad, cu.1)
    else if within 0xdc00 0xdfff cu.0
    then (unpaired_surrogate, cu.1)
    else if within 0xd800 0xdbff cu.0
    then scan_low cu.1
    else (tok_ok, cu.1)

-- After a backslash.
unfoldable pub scan_escape : Cursor → Tok × Cursor
scan_escape (i, []) = (bad, (i, []))
scan_escape (i, c ∷ s) =
    if is_simple_escape c
    then (tok_ok, (i + 1, s))
    else if c == 0x75
    then scan_unicode (i + 1, s)
    else (bad, (i, c ∷ s))

-- The loop from after the opening quote; `none` is fuel that has run out.
unfoldable pub scan_body : ℕ → Cursor → Option (Tok × Cursor)
scan_body zero c = none
scan_body (suc n) (i, []) = some (bad, (i, []))
scan_body (suc n) (i, c ∷ s) =
    let esc = scan_escape (i + 1, s) in
    let plain = scan_body n (i + 1, s) in
    let resumed = scan_body n esc.1 in
    if c == 0x22
    then some (tok_ok, (i + 1, s))
    else if ltb c 0x20
    then some (raw_control, (i, c ∷ s))
    else if not (c == 0x5c)
    then plain
    else elim esc.0 [ tok_ok ↦ resumed | _ ↦ some esc ]

-- The cursor is at the opening quote.
unfoldable pub scan_string : Cursor → Option (Tok × Cursor)
scan_string (i, []) = scan_body 1 (i + 1, [])
scan_string (i, c ∷ s) = scan_body (suc (length s)) (i + 1, s)
