-- ===== src/Frame/Ends.antt =====
-- FrameScanner::run (cpp/src/frame_preflight.cpp) decides every frame, within the limits that it sets.
use market_maker_proto.Prelude.{
  ℕ, zero, suc, ◌≡◌, refl, ◌+◌, ◌-◌, ◌/◌, ◌%◌, ◌^◌, ◌≤◌, ◌<◌, Bool, not, ◌&&◌, ◌||◌, ◌==◌, ltb,
  arith, if◌then◌else◌, Bool-cases, Option-cases, inl, inr, none, some, [], ◌∷◌, ◌++◌, length,
  length-append,
}
use market_maker_proto.Prelude.Text.{Bytes}
use market_maker_proto.Types.{malformed}
use market_maker_proto.Frame.Utf8.{skip}
use market_maker_proto.Frame.Lexer.{
  Cursor, scan_number, Tok, tok_ok, bad, raw_control, unpaired_surrogate, starts_with, is_dec_digit,
}
use market_maker_proto.Frame.Scanner.{
  FrameScanner, TopLevelField, St, value, arr_value_or_close, obj_key_or_close, obj_key, obj_colon,
  after_value, Outcome, next, rejects, stuck, value_done, finish_value, max_top_level_keys,
  max_nesting_depth, span, reject_at, string_error,
}
use market_maker_proto.Frame.Rounds.{
  moved, close, on_key, on_colon, open_bracket, literal_of, on_literal, on_number, on_string,
  on_value, on_after, dispatch, round,
}
use market_maker_proto.Frame.Total.{left, left-skip, scan_string-total, scan_number_consumes}

-- What a round keeps: the limits of the depth and of the fields, and the depth at which a value can
-- have ended.
abbrev pub Limits : FrameScanner → Type 0
Limits s = (s.depth ≤ max_nesting_depth) × (length s.out ≤ max_top_level_keys)

-- A round that goes on has consumed a byte of `n` and keeps the limits, one that rejects does so as
-- malformed, and no round is stuck.
abbrev pub Progress : ℕ → Outcome → Type 0
Progress n (next s) = (left s.at < n) × Limits s
Progress n (rejects e) = e.code ≡ malformed
Progress n stuck = 1 ≤ 0

skip_consumes : (n c : ℕ) (s : Bytes) → 0 < n → length (skip n (c ∷ s)) < suc (length s)
skip_consumes zero c s h = absurd (omega arith)
skip_consumes (suc n) c s h = omega (arith, left-skip n s)

literal_pos : (c : ℕ) → 0 < length (literal_of c)
literal_pos c = ground arith

finish-Progress :
    (n : ℕ) (s : FrameScanner) → left s.at < n → Limits s → Progress n (next (finish_value s))
finish-Progress n s h l = elim (Bool-cases (s.depth == 0)) [
  | inl e ↦ rw e (h, l)
  | inr e ↦ rw e (h, l)
]

value_done-Progress :
    (n : ℕ) (s : FrameScanner) → left s.at < n → Limits s → Progress n (value_done s)
unfolding value_done reject_at string_error
value_done-Progress n s h l = elim (Bool-cases (s.depth == 1)) [
  | inr e ↦ rw (value_done, e) (finish-Progress n s h l)
  | inl e ↦ elim (Option-cases s.pending_key) [
    | inl f ↦ rw (value_done, e, f) (finish-Progress n s h l)
    | inr (key, f) ↦ elim (Bool-cases (length s.out == max_top_level_keys)) [
      | inl g ↦ rw (value_done, e, f, g) refl
      | inr g ↦
          let field : TopLevelField = record { key = key; value = span s.value_start s.at.0 } in
          rw (value_done, e, f, g)
            (finish-Progress n (record s { pending_key = none; out = s.out ++ (field ∷ []) }) h
              (l.0, let m = l.1 in let a = length-append s.out (field ∷ []) in ground arith))
    ]
  ]
]

close-Progress :
    (n : ℕ) (s : FrameScanner) (c : Cursor) → left c < n → Limits s → Progress n (close s c)
unfolding close
close-Progress n s c h l = value_done-Progress n _ h (omega arith, l.1)

module _ (s : FrameScanner) (i c : ℕ) (rest : Bytes) (l : Limits s) where
  abbrev here : ℕ
  here = suc (length rest)

  on_key-Progress : Progress here (on_key s i c rest)
  unfolding on_key reject_at string_error
  on_key-Progress = elim (Bool-cases (c == 0x22)) [
    | inr e ↦ rw (on_key, e) refl
    | inl e ↦ let (t, d, f, m) = scan_string-total i c rest in rw (on_key, e, f) (by_tok t d m)
  ]
    where
      by_tok :
          (t : Tok) (d : Cursor)
          → left d < here
          → Progress here (elim t [
            | tok_ok ↦
                if s.depth == 1 && s.root_is_object
                then next (record s {
                  at = d;
                  pending_key = some (span (i + 1, rest) (d.0 - 1));
                  st = obj_colon;
                })
                else next (record s { at = d; st = obj_colon })
            | bad ↦ rejects (string_error d.0 bad)
            | raw_control ↦ rejects (string_error d.0 raw_control)
            | unpaired_surrogate ↦ rejects (string_error d.0 unpaired_surrogate)
          ])
      by_tok tok_ok d m = elim (Bool-cases (s.depth == 1 && s.root_is_object)) [
        | inl g ↦ rw g (m, l)
        | inr g ↦ rw g (m, l)
      ]
      by_tok bad d m = refl
      by_tok raw_control d m = refl
      by_tok unpaired_surrogate d m = refl

  on_colon-Progress : Progress here (on_colon s i c rest)
  unfolding on_colon reject_at string_error
  on_colon-Progress = elim (Bool-cases (c == 0x3a)) [
    | inl e ↦ rw (on_colon, e) (omega arith, l)
    | inr e ↦ rw (on_colon, e) refl
  ]

  open_bracket-Progress : (b : Bool) → Progress here (open_bracket s i b rest)
  unfolding open_bracket reject_at string_error
  open_bracket-Progress b = elim (Bool-cases (s.depth == max_nesting_depth)) [
    | inl e ↦ rw (open_bracket, e) refl
    | inr e ↦ rw (open_bracket, e) (omega arith, (let m = l.0 in ground arith, l.1))
  ]

  on_literal-Progress : Progress here (on_literal s i c rest)
  unfolding on_literal reject_at string_error
  on_literal-Progress = elim (Bool-cases (starts_with (literal_of c) (c ∷ rest))) [
    | inl e ↦
        rw (on_literal, e)
          (value_done-Progress here _ (skip_consumes (length (literal_of c)) c rest (literal_pos c))
            l)
    | inr e ↦ rw (on_literal, e) refl
  ]

  on_number-Progress : Progress here (on_number s i c rest)
  unfolding on_number reject_at string_error
  on_number-Progress = elim (Bool-cases (not (c == 0x2d) && not (is_dec_digit c))) [
    | inl e ↦ rw (on_number, e) refl
    | inr e ↦ elim (Bool-cases (scan_number (i, c ∷ rest)).0) [
      | inr f ↦ rw (on_number, e, f) refl
      | inl f ↦
          rw (on_number, e, f) (value_done-Progress here _ (scan_number_consumes (i, c ∷ rest) f) l)
    ]
  ]

  on_string-Progress : Progress here (on_string s i c rest)
  unfolding on_string reject_at string_error
  on_string-Progress =
      let (t, d, e, m) = scan_string-total i c rest in rw (on_string, e) (by_tok t d m)
    where
      by_tok :
          (t : Tok) (d : Cursor)
          → left d < here
          → Progress here (elim t [
            | tok_ok ↦ value_done (moved s d)
            | bad ↦ rejects (string_error d.0 bad)
            | raw_control ↦ rejects (string_error d.0 raw_control)
            | unpaired_surrogate ↦ rejects (string_error d.0 unpaired_surrogate)
          ])
      by_tok tok_ok d m = value_done-Progress here (moved s d) m l
      by_tok bad d m = refl
      by_tok raw_control d m = refl
      by_tok unpaired_surrogate d m = refl

module _ (s : FrameScanner) (i c : ℕ) (rest : Bytes) (l : Limits s) where
  on_value-Progress : Progress (suc (length rest)) (on_value s i c rest)
  unfolding on_value
  on_value-Progress = elim (Bool-cases (s.depth == 1 && s.root_is_object)) [
    | inl e ↦ rw e (by_byte (record s { value_start = (i, c ∷ rest) }) l)
    | inr e ↦ rw e (by_byte s l)
  ]
    where
      by_byte :
          (s' : FrameScanner)
          → Limits s'
          → Progress (suc (length rest)) (
              if c == 0x7b || c == 0x5b
              then open_bracket s' i (c == 0x7b) rest
              else if c == 0x22
              then on_string s' i c rest
              else if c == 0x74 || c == 0x66 || c == 0x6e
              then on_literal s' i c rest
              else on_number s' i c rest)
      by_byte s' l' = elim (Bool-cases (c == 0x7b || c == 0x5b)) [
        | inl e ↦ rw e (open_bracket-Progress s' i c rest l' (c == 0x7b))
        | inr e ↦ elim (Bool-cases (c == 0x22)) [
          | inl f ↦ rw (e, f) (on_string-Progress s' i c rest l')
          | inr f ↦ elim (Bool-cases (c == 0x74 || c == 0x66 || c == 0x6e)) [
            | inl g ↦ rw (e, f, g) (on_literal-Progress s' i c rest l')
            | inr g ↦ rw (e, f, g) (on_number-Progress s' i c rest l')
          ]
        ]
      ]

  on_after-Progress : Progress (suc (length rest)) (on_after s i c rest)
  unfolding on_after reject_at
  on_after-Progress =
      let in_object = s.object_mask / 2 ^ (s.depth - 1) % 2 == 1 in
      elim (Bool-cases (c == 0x2c)) [
        | inl e ↦ rw e (omega arith, l)
        | inr e ↦ elim (Bool-cases (c == (if in_object then 0x7d else 0x5d))) [
          | inl f ↦ rw (e, f) (close-Progress (suc (length rest)) s (i + 1, rest) (omega arith) l)
          | inr f ↦ rw (e, f) refl
        ]
      ]

  dispatch-Progress : (st : St) → Progress (suc (length rest)) (dispatch st s i c rest)
  unfolding dispatch
  dispatch-Progress value = on_value-Progress
  dispatch-Progress obj_key = on_key-Progress s i c rest l
  dispatch-Progress obj_colon = on_colon-Progress s i c rest l
  dispatch-Progress after_value = on_after-Progress
  dispatch-Progress obj_key_or_close = elim (Bool-cases (c == 0x7d)) [
    | inl e ↦ rw e (close-Progress (suc (length rest)) s (i + 1, rest) (omega arith) l)
    | inr e ↦ rw e (on_key-Progress s i c rest l)
  ]
  dispatch-Progress arr_value_or_close = elim (Bool-cases (c == 0x5d)) [
    | inl e ↦ rw e (close-Progress (suc (length rest)) s (i + 1, rest) (omega arith) l)
    | inr e ↦ rw e on_value-Progress
  ]

pub round-Progress : (s : FrameScanner) (c : Cursor) → Limits s → Progress (left c) (round s c)
unfolding round reject_at
round-Progress s (i, []) l = refl
round-Progress s (i, c ∷ rest) l = elim (Bool-cases (ltb c 0x20)) [
  | inl e ↦ rw e refl
  | inr e ↦ rw e (dispatch-Progress (moved s (i, c ∷ rest)) i c rest l s.st)
]
