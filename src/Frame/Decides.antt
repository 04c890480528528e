-- ===== src/Frame/Decides.antt =====
-- What frame_preflight (cpp/src/frame_preflight.cpp) accepts, and that it decides every frame.
use market_maker_proto.Prelude.{
  ℕ, zero, suc, ◌≡◌, ◌≢◌, refl, inl, inr, ◌≤◌, ◌<◌, true, false, ◌==◌, arith, Bool-cases, [], ◌∷◌,
  length, All,
}
use market_maker_proto.Prelude.Text.{Bytes, bytes_eq, bytes_eq_refl}
use market_maker_proto.Types.{malformed}
use market_maker_proto.Frame.Utf8.{utf8_valid}
use market_maker_proto.Frame.Lexer.{Cursor, skip_ws, starts_with}
use market_maker_proto.Frame.Scanner.{
  FrameScanner, FrameScan, Outcome, next, rejects, stuck, max_top_level_keys, reject_at,
}
use market_maker_proto.Frame.Rounds.{round, rounds, scanner, finish, scan_from, scan_frame}
use market_maker_proto.Frame.Preflight.{
  any, has_escaped_key, occurs, has_duplicate_key, Verdict, accepted, refused, unfinished,
  check_keys, frame_preflight,
}
use market_maker_proto.Frame.Total.{left, left-skip_ws}
use market_maker_proto.Frame.Ends.{Limits, Progress, round-Progress}

rounds-Progress :
    (n m : ℕ) (s : FrameScanner)
    → left s.at < n
    → left s.at < m
    → Limits s
    → Progress m (rounds n s)
unfolding rounds
rounds-Progress zero m s h k l = absurd (omega arith)
rounds-Progress (suc n) m s h k l = elim (Bool-cases s.done) [
  | inl e ↦ rw e (k, l)
  | inr e ↦ simp e (
      onward (round s (skip_ws s.at.0 s.at.1)) (round-Progress s (skip_ws s.at.0 s.at.1) l)
        (λ s' a b.
          rounds-Progress n m s' (let ws = left-skip_ws s.at.0 s.at.1 in omega arith)
            (let ws = left-skip_ws s.at.0 s.at.1 in omega arith) b))
]
  where
    onward :
        (o : Outcome)
        → Progress (left (skip_ws s.at.0 s.at.1)) o
        → ((s' : FrameScanner)
            → left s'.at < left (skip_ws s.at.0 s.at.1)
            → Limits s'
            → Progress m (rounds n s'))
        → Progress m (elim o [ next s' ↦ rounds n s' | rejects e ↦ rejects e | stuck ↦ stuck ])
    onward (next s') (a, b) again = again s' a b
    onward (rejects e) p again = p
    onward stuck p again = absurd (omega arith)

-- A scan ends: in a state within the limits, or in a rejection as malformed.
abbrev pub Ended : Outcome → Type 0
Ended (next s) = Limits s
Ended (rejects e) = e.code ≡ malformed
Ended stuck = 1 ≤ 0

finish-Ended : (s : FrameScanner) (c : Cursor) → Limits s → Ended (finish s c)
unfolding finish reject_at
finish-Ended s (i, c ∷ rest) l = refl
finish-Ended s (i, []) l = elim (Bool-cases s.root_is_object) [ inl e ↦ rw e l | inr e ↦ rw e refl ]

scan_from-Ended : (c : Cursor) → Ended (scan_from c)
unfolding scan_from reject_at scanner
scan_from-Ended (i, []) = refl
scan_from-Ended (i, c ∷ rest) =
    let start = scanner (i, c ∷ rest) (c == 0x7b) in
    let fuel = suc (suc (length rest)) in
    ended (rounds fuel start)
      (rounds-Progress fuel fuel start (omega arith) (omega arith) (omega arith, omega arith))
  where
    ended :
        (o : Outcome)
        → Progress (suc (suc (length rest))) o
        → Ended (elim o [
          | next s ↦ finish s (skip_ws s.at.0 s.at.1)
          | rejects e ↦ rejects e
          | stuck ↦ stuck
        ])
    ended (next s) (h, l) = finish-Ended s (skip_ws s.at.0 s.at.1) l
    ended (rejects e) p = p
    ended stuck p = absurd (omega arith)

-- No byte of a key is a backslash, and no two fields have the same key.
abbrev pub Literal : FrameScan → Type 0
Literal scan = All (λ f. All (λ b. b ≢ 0x5c) f.key) scan

abbrev pub Distinct : FrameScan → Type 0
Distinct [] = Unit
Distinct (f ∷ fs) = All (λ g. f.key ≢ g.key) fs × Distinct fs

none_of : (k : Bytes) → any (λ b. b == 0x5c) k ≡ false → All (λ b. b ≢ 0x5c) k
unfolding any
none_of [] h = tt
none_of (b ∷ k) h = (λ e. ground arith, none_of k (ground arith))

has_escaped_key→Literal : (scan : FrameScan) → has_escaped_key scan ≡ false → Literal scan
unfolding has_escaped_key
has_escaped_key→Literal [] h = tt
has_escaped_key→Literal (f ∷ fs) h =
    (none_of f.key (ground arith), has_escaped_key→Literal fs (ground arith))

occurs→All : (k : Bytes) (fs : FrameScan) → occurs k fs ≡ false → All (λ g. k ≢ g.key) fs
unfolding occurs
occurs→All k [] h = tt
occurs→All k (g ∷ fs) h = (
  λ e. let t : bytes_eq k g.key ≡ true = rw (← e) (bytes_eq_refl k) in ground arith,
  occurs→All k fs (ground arith),
)

has_duplicate_key→Distinct : (scan : FrameScan) → has_duplicate_key scan ≡ false → Distinct scan
unfolding has_duplicate_key
has_duplicate_key→Distinct [] h = tt
has_duplicate_key→Distinct (f ∷ fs) h =
    (occurs→All f.key fs (ground arith), has_duplicate_key→Distinct fs (ground arith))

abbrev pub Decided : Bytes → Verdict → Type 0
Decided frame (accepted scan) =
    (utf8_valid frame ≡ true) × (length scan ≤ max_top_level_keys) × Literal scan × Distinct scan
Decided frame (refused e) = e.code ≡ malformed
Decided frame unfinished = 1 ≤ 0

check_keys-Decided :
    (frame : Bytes) (scan : FrameScan)
    → utf8_valid frame ≡ true
    → length scan ≤ max_top_level_keys
    → Decided frame (check_keys scan)
unfolding check_keys
check_keys-Decided frame scan u h = elim (Bool-cases (has_escaped_key scan)) [
  | inl e ↦ rw e refl
  | inr e ↦ elim (Bool-cases (has_duplicate_key scan)) [
    | inl f ↦ rw (e, f) refl
    | inr f ↦ rw (e, f) (u, h, has_escaped_key→Literal scan e, has_duplicate_key→Distinct scan f)
  ]
]

-- The preflight decides every frame: it accepts one only when the frame is valid UTF-8, at most 32
-- top-level fields were recorded, no key of theirs holds a backslash and no two of them have the same
-- key; otherwise it refuses the frame as malformed; and its loops never run out of the fuel given.
pub frame_preflight_decides : (frame : Bytes) → Decided frame (frame_preflight frame)
unfolding frame_preflight scan_frame
frame_preflight_decides frame = elim (Bool-cases (starts_with (0xef ∷ 0xbb ∷ 0xbf ∷ []) frame)) [
  | inl e ↦ rw e refl
  | inr e ↦ elim (Bool-cases (utf8_valid frame)) [
    | inr f ↦ rw (e, f) refl
    | inl f ↦ rw (e, f) (judged (scan_from (skip_ws 0 frame)) f (scan_from-Ended (skip_ws 0 frame)))
  ]
]
  where
    judged :
        (o : Outcome)
        → utf8_valid frame ≡ true
        → Ended o
        → Decided frame
            (elim o [ next s ↦ check_keys s.out | rejects e ↦ refused e | stuck ↦ unfinished ])
    judged (next s) u l = check_keys-Decided frame s.out u l.1
    judged (rejects e) u p = p
    judged stuck u p = absurd (omega arith)
