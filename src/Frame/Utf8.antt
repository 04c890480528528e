-- ===== src/Frame/Utf8.antt =====
-- utf8_valid of cpp/src/frame_preflight.cpp.
use market_maker_proto.Prelude.{
  ℕ, zero, suc, ◌-◌, Bool, true, false, ◌&&◌, ◌||◌, ◌==◌, ltb, leb, if◌then◌else◌, Option, none,
  some, [], ◌∷◌, length,
}
use market_maker_proto.Prelude.Text.{Bytes}

abbrev pub within : ℕ → ℕ → ℕ → Bool
within lo hi b = leb lo b && leb b hi

-- The length that a lead byte announces, and the bounds of the first continuation byte.
unfoldable pub lead : ℕ → Option (ℕ × ℕ × ℕ)
lead c =
    if within 0xc2 0xdf c
    then some (2, 0x80, 0xbf)
    else if c == 0xe0
    then some (3, 0xa0, 0xbf)
    else if within 0xe1 0xec c || c == 0xee || c == 0xef
    then some (3, 0x80, 0xbf)
    else if c == 0xed
    then some (3, 0x80, 0x9f)
    else if c == 0xf0
    then some (4, 0x90, 0xbf)
    else if within 0xf1 0xf3 c
    then some (4, 0x80, 0xbf)
    else if c == 0xf4
    then some (4, 0x80, 0x8f)
    else none

abbrev pub skip : ℕ → Bytes → Bytes
skip zero s = s
skip (suc n) [] = []
skip (suc n) (b ∷ s) = skip n s

-- The bytes from p[2] on.
unfoldable pub continues : ℕ → Bytes → Bool
continues zero s = true
continues (suc n) [] = false
continues (suc n) (b ∷ s) = within 0x80 0xbf b && continues n s

-- The bytes from p[1] on, of which there are enough.
unfoldable pub tail_valid : ℕ × ℕ × ℕ → Bytes → Bool
tail_valid (len, lo, hi) [] = false
tail_valid (len, lo, hi) (b ∷ s) = within lo hi b && continues (len - 2) s

-- Each round of the loop consumes a byte at least, so the length is enough fuel.
unfoldable pub utf8_from : ℕ → Bytes → Bool
utf8_from n [] = true
utf8_from zero (c ∷ s) = false
utf8_from (suc n) (c ∷ s) =
    let after = utf8_from n s in
    if ltb c 0x80
    then after
    else elim (lead c) [ none ↦ false | some l ↦ tail_valid l s && utf8_from n (skip (l.0 - 1) s) ]

unfoldable pub utf8_valid : Bytes → Bool
utf8_valid s = utf8_from (length s) s
