-- ===== src/Frame/Total.antt =====
-- FrameScanner (cpp/src/frame_preflight.cpp) comes to an end on every frame: each round of its loop
-- consumes a byte, and so does each round of the string scan.
use market_maker_proto.Prelude.{
  ℕ, zero, suc, ◌≡◌, refl, ◌+◌, ◌≤◌, ◌<◌, Bool, true, ◌||◌, ◌==◌, ltb, arith, Bool-cases,
  Option-cases, ◌*◌, inl, inr, Option, some, [], ◌∷◌, length,
}
use market_maker_proto.Prelude.Text.{Bytes}
use market_maker_proto.Frame.Utf8.{skip}
use market_maker_proto.Frame.Lexer.{
  Cursor, skip_ws, skip_digits, some_digits, optional_byte, scan_integer, scan_fraction,
  scan_exponent, scan_number, hex_value, hex_digits, scan_hex4, Tok, tok_ok, bad, raw_control,
  unpaired_surrogate, scan_low, scan_unicode, scan_escape, scan_body, scan_string,
}

-- The bytes that are left at a cursor.
abbrev pub left : Cursor → ℕ
left c = length c.1

pub left-skip_ws : (i : ℕ) (s : Bytes) → left (skip_ws i s) ≤ length s
unfolding skip_ws
left-skip_ws i [] = omega arith
left-skip_ws i (c ∷ s) = ground (arith, left-skip_ws (i + 1) s)

left-skip_digits : (i : ℕ) (s : Bytes) → left (skip_digits i s) ≤ length s
unfolding skip_digits
left-skip_digits i [] = omega arith
left-skip_digits i (c ∷ s) = ground (arith, left-skip_digits (i + 1) s)

left-some_digits : (c : Cursor) → left (some_digits c).1 ≤ left c
unfolding some_digits
left-some_digits (i, []) = omega arith
left-some_digits (i, c ∷ s) = ground (arith, left-skip_digits (i + 1) s)

some_digits_consume : (c : Cursor) → (some_digits c).0 ≡ true → left (some_digits c).1 < left c
unfolding some_digits
some_digits_consume (i, []) h = ground arith
some_digits_consume (i, c ∷ s) h = ground (arith, left-skip_digits (i + 1) s)

left-optional_byte : (p : ℕ → Bool) (c : Cursor) → left (optional_byte p c).1 ≤ left c
left-optional_byte p (i, []) = omega arith
left-optional_byte p (i, c ∷ s) = ground arith

left-hex_digits : (k cu : ℕ) (c : Cursor) → left (hex_digits k cu c).1 ≤ left c
unfolding hex_digits
left-hex_digits zero cu c = omega arith
left-hex_digits (suc k) cu (i, []) = omega arith
left-hex_digits (suc k) cu (i, b ∷ s) = elim (Option-cases (hex_value b)) [
  | inl e ↦ rw (hex_digits, e) (omega arith)
  | inr (d, e) ↦ rw (hex_digits, e) (omega (arith, left-hex_digits k (cu * 16 + d) (i + 1, s)))
]

pub left-skip : (n : ℕ) (s : Bytes) → length (skip n s) ≤ length s
left-skip zero s = omega arith
left-skip (suc n) [] = omega arith
left-skip (suc n) (b ∷ s) = omega (arith, left-skip n s)

left-scan_hex4 : (c : Cursor) → left (scan_hex4 c).1 ≤ left c
unfolding scan_hex4
left-scan_hex4 c = ground (arith, left-hex_digits 4 0 c)

left-scan_low : (c : Cursor) → left (scan_low c).1 ≤ left c
unfolding scan_low
left-scan_low c = ground (arith, left-scan_hex4 (c.0 + 2, skip 2 c.1), left-skip 2 c.1)

left-scan_unicode : (c : Cursor) → left (scan_unicode c).1 ≤ left c
unfolding scan_unicode
left-scan_unicode c = ground (arith, left-scan_hex4 c, left-scan_low (scan_hex4 c).1)

left-scan_escape : (c : Cursor) → left (scan_escape c).1 ≤ left c
unfolding scan_escape
left-scan_escape (i, []) = omega arith
left-scan_escape (i, c ∷ s) = ground (arith, left-scan_unicode (i + 1, s))

-- Given as much fuel as bytes and one more, the string scan returns and leaves no more than it had.
scan_body-total :
    (n : ℕ) (c : Cursor)
    → left c < n
    → (t : Tok) × (d : Cursor) × (scan_body n c ≡ some (t, d)) × (left d ≤ left c)
unfolding scan_body
scan_body-total zero c h = absurd (omega arith)
scan_body-total (suc n) (i, []) h = (bad, (i, []), refl, omega arith)
scan_body-total (suc n) (i, c ∷ s) h = elim (Bool-cases (c == 0x22)) [
  | inl q ↦ rw (scan_body, q) (tok_ok, (i + 1, s), refl, omega arith)
  | inr q ↦ elim (Bool-cases (ltb c 0x20)) [
    | inl r ↦ rw (scan_body, q, r) (raw_control, (i, c ∷ s), refl, omega arith)
    | inr r ↦ elim (Bool-cases (c == 0x5c)) [
      | inr p ↦ rw (scan_body, q, r, p) (plain (scan_body-total n (i + 1, s) (omega arith)))
      | inl p ↦
          rw (scan_body, q, r, p)
            (escaped (scan_escape (i + 1, s)) (left-scan_escape (i + 1, s))
              (scan_body-total n (scan_escape (i + 1, s)).1))
    ]
  ]
]
  where
    Ends : Option (Tok × Cursor) → Type 0
    Ends o = (t : Tok) × (d : Cursor) × (o ≡ some (t, d)) × (left d ≤ suc (length s))

    plain :
        ((t : Tok) × (d : Cursor) × (scan_body n (i + 1, s) ≡ some (t, d)) × (left d ≤ length s))
        → Ends (scan_body n (i + 1, s))
    plain (t, d, e, l) = (t, d, e, omega arith)

    escaped :
        (x : Tok × Cursor)
        → left x.1 ≤ length s
        → (left x.1 < n
            → (t : Tok) × (d : Cursor) × (scan_body n x.1 ≡ some (t, d)) × (left d ≤ left x.1))
        → Ends (elim x.0 [ tok_ok ↦ scan_body n x.1 | _ ↦ some x ])
    escaped (tok_ok, d) l k = let (t, d', e, m) = k (omega arith) in (t, d', e, omega arith)
    escaped (bad, d) l k = (bad, d, refl, omega arith)
    escaped (raw_control, d) l k = (raw_control, d, refl, omega arith)
    escaped (unpaired_surrogate, d) l k = (unpaired_surrogate, d, refl, omega arith)

-- A string scan from an opening quote returns, and consumes a byte.
pub scan_string-total :
    (i c : ℕ) (s : Bytes)
    → (t : Tok) × (d : Cursor) × (scan_string (i, c ∷ s) ≡ some (t, d)) × (left d < left (i, c ∷ s))
unfolding scan_string
scan_string-total i c s =
    let (t, d, e, l) = scan_body-total (suc (length s)) (i + 1, s) (omega arith) in
    (t, d, e, omega arith)

left-scan_integer : (c : Cursor) → left (scan_integer c).1 ≤ left c
unfolding scan_integer
left-scan_integer c = ground (arith, left-optional_byte (λ b. b == 0x30) c, left-some_digits c)

left-scan_fraction : (c : Cursor) → left (scan_fraction c).1 ≤ left c
unfolding scan_fraction
left-scan_fraction c =
    let dot = optional_byte (λ b. b == 0x2e) c in
    ground (arith, left-optional_byte (λ b. b == 0x2e) c, left-some_digits dot.1)

left-scan_exponent : (c : Cursor) → left (scan_exponent c).1 ≤ left c
unfolding scan_exponent
left-scan_exponent c =
    let e = optional_byte (λ b. b == 0x65 || b == 0x45) c in
    let sg = optional_byte (λ b. b == 0x2b || b == 0x2d) e.1 in
    ground (
      arith,
      left-optional_byte (λ b. b == 0x65 || b == 0x45) c,
      left-optional_byte (λ b. b == 0x2b || b == 0x2d) e.1,
      left-some_digits sg.1,
    )

scan_integer_consumes : (c : Cursor) → (scan_integer c).0 ≡ true → left (scan_integer c).1 < left c
unfolding scan_integer
scan_integer_consumes (i, []) h = ground (arith, some_digits_consume (i, []))
scan_integer_consumes (i, b ∷ s) h = ground (arith, some_digits_consume (i, b ∷ s))

-- A number that is read consumes a byte.
pub scan_number_consumes : (c : Cursor) → (scan_number c).0 ≡ true → left (scan_number c).1 < left c
unfolding scan_number
scan_number_consumes c h =
    let sign = optional_byte (λ b. b == 0x2d) c in
    let whole = scan_integer sign.1 in
    let frac = scan_fraction whole.1 in
    ground (
      arith,
      left-optional_byte (λ b. b == 0x2d) c,
      scan_integer_consumes sign.1,
      left-scan_fraction whole.1,
      left-scan_exponent frac.1,
    )
