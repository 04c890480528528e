-- ===== src/Frame/Identifiers.antt =====
-- The identifier policy and the rendering of a foreign tag (cpp/src/frame_preflight.cpp).
use market_maker_proto.Prelude.{
  ℕ, zero, suc, ◌≡◌, refl, ◌↔◌, inl, inr, ◌≤◌, false, ltb, leb, arith, if◌then◌else◌, Bool-cases,
  Option, none, some, [], ◌∷◌, ◌++◌, map, length, length-append, All,
}
use market_maker_proto.Prelude.Text.{Bytes, bytes}
use market_maker_proto.Protocol.{NewOrder}
use market_maker_proto.Frame.Scanner.{prefix_of, DecodeError}
use market_maker_proto.Frame.Preflight.{
  is_control, any, check_identifier, check_new_order_strings, max_cl_id_len, max_symbol_len,
  max_side_len, cut_at, continuation_at, ellipsis, sanitized_tag, max_tag_detail_bytes,
}

-- No byte is a control byte.
abbrev pub Printable : Bytes → Type 0
Printable s = All (λ b. is_control b ≡ false) s

any_iff : (s : Bytes) → (any is_control s ≡ false) ↔ Printable s
unfolding any
any_iff [] = (λ h. tt, λ h. refl)
any_iff (c ∷ s) = (
  λ h. (ground arith, (any_iff s).0 (ground arith)),
  λ h. let t = (any_iff s).1 h.1 in let u = h.0 in ground arith,
)

-- An identifier within its policy.
abbrev pub Fits : ℕ → Bytes → Type 0
Fits cap v = (length v ≤ cap) × Printable v

check_identifier_iff :
    (v name : Bytes) (cap : ℕ) → (check_identifier v name cap ≡ none) ↔ Fits cap v
unfolding check_identifier
check_identifier_iff v name cap = elim (Bool-cases (ltb cap (length v))) [
  | inl e ↦ (λ h. ground arith, λ h. let l = h.0 in ground arith)
  | inr e ↦ elim (Bool-cases (any is_control v)) [
    | inl f ↦ (λ h. ground arith, λ h. let a = (any_iff v).1 h.1 in ground arith)
    | inr f ↦ (λ h. (ground arith, (any_iff v).0 f), λ h. rw (e, f) refl)
  ]
]

-- The strings of an inbound new order pass exactly when the client id, the symbol and the side are
-- within their lengths of 64, 32 and 8 bytes and hold no control byte.
pub check_new_order_strings_iff :
    (o : NewOrder)
    → (check_new_order_strings o ≡ none)
      ↔ (Fits max_cl_id_len o.cl_id × Fits max_symbol_len o.symbol × Fits max_side_len o.side)
unfolding check_new_order_strings
check_new_order_strings_iff o =
    by_cl_id (check_identifier o.cl_id (bytes "cl_id") max_cl_id_len)
      (check_identifier o.symbol (bytes "symbol") max_symbol_len)
      (check_identifier_iff o.cl_id (bytes "cl_id") max_cl_id_len)
      (check_identifier_iff o.symbol (bytes "symbol") max_symbol_len)
      (check_identifier_iff o.side (bytes "side") max_side_len)
  where
    by_cl_id :
        (a b : Option DecodeError)
        → (a ≡ none) ↔ Fits max_cl_id_len o.cl_id
        → (b ≡ none) ↔ Fits max_symbol_len o.symbol
        → (check_identifier o.side (bytes "side") max_side_len ≡ none) ↔ Fits max_side_len o.side
        → ((elim a [
          | some err ↦ some err
          | none ↦ elim b [
            | some err ↦ some err
            | none ↦ check_identifier o.side (bytes "side") max_side_len
          ]
        ])
            ≡ none)
          ↔ (Fits max_cl_id_len o.cl_id × Fits max_symbol_len o.symbol × Fits max_side_len o.side)
    by_cl_id (some err) b p q r = (λ h. ground arith, λ h. let z = p.1 h.0 in ground arith)
    by_cl_id none (some err) p q r = (λ h. ground arith, λ h. let z = q.1 h.1 in ground arith)
    by_cl_id none none p q r = (λ h. (p.0 refl, q.0 refl, r.0 h), λ h. r.1 h.2)

cut_at_le : (tag : Bytes) (n : ℕ) → cut_at tag n ≤ n
unfolding cut_at
cut_at_le tag zero = omega arith
cut_at_le tag (suc n) = elim (Bool-cases (continuation_at tag (suc n))) [
  | inl e ↦ rw (cut_at, e) (omega (arith, cut_at_le tag n))
  | inr e ↦ rw (cut_at, e) (omega arith)
]

masked-Printable : (s : Bytes) → Printable (map (λ c. if is_control c then 0x3f else c) s)
masked-Printable [] = tt
masked-Printable (c ∷ s) = (
  elim (Bool-cases (is_control c)) [ inl e ↦ rw e refl | inr e ↦ rw (e, e) refl ],
  masked-Printable s,
)

append-Printable : (s t : Bytes) → Printable s → Printable t → Printable (s ++ t)
append-Printable [] t h k = k
append-Printable (c ∷ s) t h k = (h.0, append-Printable s t h.1 k)

length-map : (f : ℕ → ℕ) (s : Bytes) → length (map f s) ≡ length s
length-map f [] = refl
length-map f (c ∷ s) = omega (arith, length-map f s)

length-prefix_of : (n : ℕ) (s : Bytes) → length (prefix_of n s) ≤ n
length-prefix_of zero s = omega arith
length-prefix_of (suc n) [] = omega arith
length-prefix_of (suc n) (c ∷ s) = omega (arith, length-prefix_of n s)

-- A foreign tag is rendered in at most 32 bytes and the three of the ellipsis, with no control byte.
pub sanitized_tag_safe :
    (tag : Bytes) → (length (sanitized_tag tag) ≤ 35) × Printable (sanitized_tag tag)
unfolding sanitized_tag
sanitized_tag_safe tag =
    let cap = if leb (length tag) max_tag_detail_bytes then length tag else max_tag_detail_bytes in
    let capped : cap ≤ 32 = ground arith in
    let take = cut_at tag cap in
    let mask : ℕ → ℕ = λ c. if is_control c then 0x3f else c in
    let body = map mask (prefix_of take tag) in
    let short : length body ≤ 32 =
      omega (
        arith,
        length-map mask (prefix_of take tag),
        length-prefix_of take tag,
        cut_at_le tag cap,
      ) in
    elim (Bool-cases (ltb take (length tag))) [
      | inl e ↦ rw e (
        omega (arith, length-append body ellipsis),
        append-Printable body ellipsis (masked-Printable _) (refl, (refl, (refl, tt))),
      )
      | inr e ↦
          rw e
            (omega (arith, length-append body []), append-Printable body [] (masked-Printable _) tt)
    ]
