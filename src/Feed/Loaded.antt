-- ===== src/Feed/Loaded.antt =====
-- What the loader of cpp/src/feed.cpp lets through.
use market_maker_proto.Prelude.{
  ℕ, suc, ◌≡◌, refl, ap, ◌+◌, ◌<◌, Bool, true, false, arith, if◌then◌else◌, Bool-cases, inl, inr,
  List, [], ◌∷◌, ◌++◌, length, All,
}
use market_maker_proto.Prelude.Text.{Bytes, bytes}
use market_maker_proto.Feed.{
  FeedEvent, Parsed, parsed, failed, and_then, parse_line, is_end, load_lines, load_feed_stream,
  located,
}
use market_maker_proto.Feed.Lines.{and_then-Meets, parse_line-Valid, Meets, Valid}

-- An `end` stands only at the last place.
abbrev pub EndsLast : List FeedEvent → Type 0
EndsLast [] = Unit
EndsLast (event ∷ []) = Unit
EndsLast (event ∷ next ∷ rest) = (is_end event ≡ false) × EndsLast (next ∷ rest)

abbrev pub Script : List Bytes → List FeedEvent → Type 0
Script lines events = All Valid events × EndsLast events × (length events ≡ length lines)

load_lines-Script :
    (source : Bytes) (line_no : ℕ) (ended : Bool) (lines : List Bytes)
    → Meets
        (λ events. Script lines events × (ended ≡ true → events ≡ []))
        (load_lines source line_no ended lines)
unfolding load_lines
load_lines-Script source line_no ended [] = ((tt, tt, refl), λ e. refl)
load_lines-Script source line_no true (line ∷ lines) = tt
load_lines-Script source line_no false (line ∷ lines) =
    read (parse_line line) (parse_line-Valid line)
      (λ event. load_lines-Script source (line_no + 1) (is_end event) lines)
  where
    joined :
        (event : FeedEvent) (events : List FeedEvent)
        → Valid event
        → Script lines events × (is_end event ≡ true → events ≡ [])
        → Script (line ∷ lines) (event ∷ events) × (false ≡ true → event ∷ events ≡ [])
    joined event [] p ((a, b, n), k) = (((p, tt), tt, ap suc n), λ e. ground arith)
    joined event (x ∷ xs) p ((a, b, n), k) = (((p, a), (not_last, b), ap suc n), λ e. ground arith)
      where
        not_last : is_end event ≡ false
        not_last = elim (Bool-cases (is_end event)) [
          | inl e ↦ let z = k e in ground arith
          | inr e ↦ e
        ]

    read :
        (x : Parsed FeedEvent)
        → Meets Valid x
        → ((event : FeedEvent)
            → Meets
                (λ events. Script lines events × (is_end event ≡ true → events ≡ []))
                (load_lines source (line_no + 1) (is_end event) lines))
        → Meets
            (λ events. Script (line ∷ lines) events × (false ≡ true → events ≡ []))
            (elim x [
              | failed why ↦ failed (located source (line_no + 1) why)
              | parsed event ↦
                  and_then
                    (load_lines source (line_no + 1) (is_end event) lines)
                    (λ events. parsed (event ∷ events))
            ])
    read (failed why) p k = tt
    read (parsed event) p k =
        and_then-Meets (λ events. Script lines events × (is_end event ≡ true → events ≡ []))
          (λ events. Script (line ∷ lines) events × (false ≡ true → events ≡ []))
          (load_lines source (line_no + 1) (is_end event) lines) _ (k event)
          (λ events q. joined event events p q)

-- A loaded feed is a valid script: when the loader returns events there is one for each line and at
-- least one, every set is of four quantities from 0 to 2^63 - 1, every halt is of 1 to 86400000
-- milliseconds, and an end stands only on the last line.
pub load_feed_stream-Script :
    (lines : List Bytes) (bad : Bool) (source : Bytes)
    → Meets
        (λ events. Script lines events × (0 < length events))
        (load_feed_stream lines bad source)
unfolding load_feed_stream
load_feed_stream-Script lines bad source =
    and_then-Meets (λ events. Script lines events × (false ≡ true → events ≡ []))
      (λ events. Script lines events × (0 < length events)) (load_lines source 0 false lines) _
      (load_lines-Script source 0 false lines) (λ events p. settled bad events p.0)
  where
    settled :
        (b : Bool) (events : List FeedEvent)
        → Script lines events
        → Meets
            (λ events. Script lines events × (0 < length events))
            (if b then failed (bytes "error reading feed file " ++ source) else elim events [
              | [] ↦ failed (bytes "feed file " ++ source ++ bytes " contains no events")
              | event ∷ rest ↦ parsed (event ∷ rest)
            ])
    settled true events p = tt
    settled false [] p = tt
    settled false (event ∷ rest) p = (p, omega arith)
