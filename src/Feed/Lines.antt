-- ===== src/Feed/Lines.antt =====
-- What the lines of a feed script (cpp/src/feed.cpp) parse to.
use market_maker_proto.Prelude.{
  ◌^◌, ◌==◌, ltb, leb, arith, if◌then◌else◌, Bool-cases, inl, inr, List, [], ◌∷◌, ◌++◌, map, length,
  All,
}
use market_maker_proto.Prelude.Int.{ℤ, pos, leb_ℤ, ltb_ℤ, ◌≤ℤ◌, ◌<ℤ◌}
use market_maker_proto.Prelude.Text.{Bytes, bytes, bytes_eq}
use market_maker_proto.Frame.Scanner.{decimal, FrameScan}
use market_maker_proto.Frame.Preflight.{
  Verdict, accepted, refused, unfinished, frame_preflight, is_integer_token,
}
use market_maker_proto.Feed.{
  FeedEvent, feed_set, feed_halt, feed_drop, feed_end, Parsed, parsed, failed, and_then, from_chars,
  to_i64, to_field, read_fields, names, to_set, parse_body, parse_set, parse_halt, max_halt_ms,
  require_true, parse_event, parse_fields, parse_line, quoted_name, trim, split, but_last, is_empty,
  digits_value,
}

-- What is parsed meets `P`.
abbrev pub Meets {ℓ κ} : {A : Type ℓ} → (A → Type κ) → Parsed A → Type κ
Meets P (parsed a) = P a
Meets P (failed why) = Unit

pub and_then-Meets :
    {A : Type 0} {B : Type 0} (P : A → Type 0) (Q : B → Type 0) (x : Parsed A) (f : A → Parsed B)
    → Meets P x
    → ((a : A) → P a → Meets Q (f a))
    → Meets Q (and_then x f)
and_then-Meets P Q (parsed a) f p k = k a p
and_then-Meets P Q (failed why) f p k = tt

abbrev pub Quantity : ℤ → Type 0
Quantity v = (pos 0 ≤ℤ v) × (v <ℤ pos (2 ^ 63))

abbrev pub Valid : FeedEvent → Type 0
Valid (feed_set s) = Quantity s.bid_px × Quantity s.bid_qty × Quantity s.ask_px × Quantity s.ask_qty
Valid (feed_halt ms) = (pos 0 <ℤ ms) × (ms ≤ℤ pos 86400000)
Valid feed_drop = Unit
Valid feed_end = Unit

to_field-Quantity : (token name : Bytes) → Meets Quantity (to_field token name)
unfolding to_field to_i64 from_chars
to_field-Quantity [] name = elim (Bool-cases (is_integer_token [])) [
  | inl e ↦ rw e tt
  | inr e ↦ rw e tt
]
to_field-Quantity (c ∷ s) name = elim (Bool-cases (is_integer_token (c ∷ s))) [
  | inr e ↦ rw e tt
  | inl e ↦ elim (Bool-cases (c == 0x2d)) [
    | inl f ↦ elim (Bool-cases (leb (digits_value 0 s) (2 ^ 63))) [
      | inl g ↦ rw (e, f, g) tt
      | inr g ↦ rw (e, f, g) tt
    ]
    | inr f ↦ elim (Bool-cases (ltb (digits_value 0 (c ∷ s)) (2 ^ 63))) [
      | inl g ↦ rw (e, f, g) (omega arith, ground arith)
      | inr g ↦ rw (e, f, g) tt
    ]
  ]
]

read_fields-Quantity : (ns ts : List Bytes) → Meets (All Quantity) (read_fields ns ts)
unfolding read_fields
read_fields-Quantity [] ts = tt
read_fields-Quantity (n ∷ ns) [] = ((omega arith, omega arith), zeros ns)
  where
    zeros : (ms : List Bytes) → All Quantity (map (λ m. pos 0) ms)
    zeros [] = tt
    zeros (m ∷ ms) = ((omega arith, omega arith), zeros ms)
read_fields-Quantity (n ∷ ns) (t ∷ ts) =
    and_then-Meets Quantity (All Quantity) (to_field t n) _ (to_field-Quantity t n) (λ v p.
      and_then-Meets (All Quantity) (All Quantity) (read_fields ns ts) _
        (read_fields-Quantity ns ts) (λ vs q. (p, q)))

to_set-Valid : (vs : List ℤ) → All Quantity vs → Meets Valid (to_set vs)
to_set-Valid [] q = tt
to_set-Valid (a ∷ []) q = tt
to_set-Valid (a ∷ b ∷ []) q = tt
to_set-Valid (a ∷ b ∷ c ∷ []) q = tt
to_set-Valid (a ∷ b ∷ c ∷ d ∷ []) (p, (q, (r, (s, t)))) = (p, q, r, s)
to_set-Valid (a ∷ b ∷ c ∷ d ∷ e ∷ vs) q = tt

parse_body-Valid : (body : Bytes) → Meets Valid (parse_body body)
unfolding parse_body
parse_body-Valid body = elim (Bool-cases (is_empty body)) [
  | inl e ↦ rw e tt
  | inr e ↦ rw e (
      and_then-Meets (All Quantity) Valid (read_fields names (map trim (split body))) _
        (read_fields-Quantity names (map trim (split body)))
        (λ vs q. elim (Bool-cases (length (map trim (split body)) == 4)) [
          | inl f ↦ rw f (to_set-Valid vs q)
          | inr f ↦ rw f tt
        ]))
]

parse_set-Valid : (v : Bytes) → Meets Valid (parse_set v)
unfolding parse_set
parse_set-Valid [] = tt
parse_set-Valid (c ∷ s) = elim (Bool-cases (c == 0x5b)) [
  | inl e ↦ rw e (parse_body-Valid (trim (but_last s)))
  | inr e ↦ rw e tt
]

abbrev Any : ℤ → Type 0
Any v = Unit

anything : (x : Parsed ℤ) → Meets Any x
anything (parsed a) = tt
anything (failed why) = tt

parse_halt-Valid : (v : Bytes) → Meets Valid (parse_halt v)
unfolding parse_halt
parse_halt-Valid v =
    and_then-Meets Any Valid (to_i64 v (bytes "halt_ms")) _ (anything (to_i64 v (bytes "halt_ms")))
      bounded
  where
    bounded :
        (ms : ℤ)
        → Any ms
        → Meets Valid (
            if leb_ℤ ms (pos 0)
            then failed (
                quoted_name (bytes "halt_ms") ++ bytes " must be a positive integer (milliseconds)")
            else if ltb_ℤ (pos max_halt_ms) ms
            then failed (
                quoted_name (bytes "halt_ms")
                ++ bytes " must be at most "
                ++ decimal max_halt_ms
                ++ bytes " milliseconds (24 hours)")
            else parsed (feed_halt ms))
    bounded ms u = elim (Bool-cases (leb_ℤ ms (pos 0))) [
      | inl e ↦ rw e tt
      | inr e ↦ elim (Bool-cases (ltb_ℤ (pos max_halt_ms) ms)) [
        | inl f ↦ rw (e, f) tt
        | inr f ↦ rw (e, f) (ground arith, ground arith)
      ]
    ]

require_true-Valid :
    (v name : Bytes) (event : FeedEvent) → Valid event → Meets Valid (require_true v name event)
unfolding require_true
require_true-Valid v name event p = elim (Bool-cases (bytes_eq v (bytes "true"))) [
  | inl e ↦ rw e p
  | inr e ↦ rw e tt
]

parse_event-Valid : (key v : Bytes) → Meets Valid (parse_event key v)
unfolding parse_event
parse_event-Valid key v = elim (Bool-cases (bytes_eq key (bytes "set"))) [
  | inl e ↦ rw e (parse_set-Valid v)
  | inr e ↦ elim (Bool-cases (bytes_eq key (bytes "halt_ms"))) [
    | inl f ↦ rw (e, f) (parse_halt-Valid v)
    | inr f ↦ elim (Bool-cases (bytes_eq key (bytes "drop"))) [
      | inl g ↦ rw (e, f, g) (require_true-Valid v (bytes "drop") feed_drop tt)
      | inr g ↦ elim (Bool-cases (bytes_eq key (bytes "end"))) [
        | inl h ↦ rw (e, f, g, h) (require_true-Valid v (bytes "end") feed_end tt)
        | inr h ↦ rw (e, f, g, h) tt
      ]
    ]
  ]
]

pub parse_line-Valid : (text : Bytes) → Meets Valid (parse_line text)
unfolding parse_line
parse_line-Valid text = judged (frame_preflight text)
  where
    one : (scan : FrameScan) → Meets Valid (parse_fields scan)
    one [] = tt
    one (f ∷ []) = parse_event-Valid f.key f.value
    one (f ∷ g ∷ fs) = tt

    judged :
        (v : Verdict)
        → Meets Valid (elim v [
          | accepted scan ↦ parse_fields scan
          | refused e ↦ failed e.detail
          | unfinished ↦ failed []
        ])
    judged (accepted scan) = one scan
    judged (refused e) = tt
    judged unfinished = tt
