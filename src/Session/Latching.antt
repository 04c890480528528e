-- ===== src/Session/Latching.antt =====
-- The latch of the reject events of a session (Session::emit_reject_event in cpp/src/session.cpp): a code
-- that is latched stays so until the window is over.
pub mod Pumping
pub mod Life
use Prim.Native.Nat.{◌<◌}
use native.Mathlib.Nat.{add-div_right, add-mul-div_left, div-div-eq-div-mul, mul_assoc, pow-succ'}
use market_maker_proto.Prelude.{
  ℕ, zero, suc, ◌≡◌, ◌⊎◌, inl, inr, refl, sym, ap, subst, ◌∙◌, ◌+◌, ◌*◌, ◌/◌, ◌%◌, ◌^◌, true, false,
  ◌==◌, if_cases, some, arith,
}
use market_maker_proto.Prelude.Int.{ℤ, pos, ◌-ℤ◌, ◌+ℤ◌, ◌≤ℤ◌, ◌<ℤ◌, leb_ℤ, int_laws}
use market_maker_proto.Prelude.Mask.{two_pow_pos}
use market_maker_proto.Prelude.Text.{bytes_eq}
use market_maker_proto.Types.{
  RejectCode, unsupported_version, unknown_type, malformed, msg_too_large, unknown_symbol, bad_side,
  tick_size, lot_size, qty_limit, price_range, dup_cl_ord_id, post_only_cross, max_live_orders,
  unknown_cl_ord_id, already_terminal, stale_epoch, to_string,
}
use market_maker_proto.Session.State.{Session, Turn, steady_ns}
use market_maker_proto.Session.Events.{
  reject_code_from_wire, emit_reject_event, open_window, is_latched, ordinal, reject_window_ns,
}

odd_next : (q : ℕ) → (q % 2 == 1) ≡ false → ((q + 1) % 2 == 1) ≡ true
odd_next q h = ground (arith, h)

bit_set : (l d : ℕ) → 0 < d → (l / d % 2 == 1) ≡ false → ((l + d) / d % 2 == 1) ≡ true
bit_set l d p h = rw (add-div_right l p) (odd_next (l / d) h)

-- The code of a reject is latched once its event has been handled.
pub latched_after :
    (t : Turn) (code : RejectCode)
    → is_latched (emit_reject_event t code).self.reject_latch code ≡ true
unfolding emit_reject_event is_latched
latched_after t code =
    let s = open_window t.self (steady_ns t.srv) in
    if_cases (λ (u : Turn). is_latched u.self.reject_latch code ≡ true)
      (is_latched s.reject_latch code) _ _ (λ e. e)
      (λ e. bit_set s.reject_latch (2 ^ ordinal code) (two_pow_pos (ordinal code)) e)

pow_split : (i k : ℕ) → 2 ^ (i + suc k) ≡ 2 ^ i * (2 * 2 ^ k)
pow_split zero k = let e : 0 + suc k ≡ suc k = omega arith in rw (e, pow-succ' 2 k) (omega arith)
pow_split (suc i) k =
    let e : suc i + suc k ≡ suc (i + suc k) = omega arith in
    rw (e, pow-succ' 2 (i + suc k), pow_split i k, pow-succ' 2 i)
      (sym (mul_assoc 2 (2 ^ i) (2 * 2 ^ k)))

-- Another power of two is added where its bit is clear: a bit that is set stays set.
higher_bit :
    (l i k : ℕ) → (l / 2 ^ i % 2 == 1) ≡ true → ((l + 2 ^ (i + suc k)) / 2 ^ i % 2 == 1) ≡ true
higher_bit l i k h =
    let e : 2 ^ (i + suc k) ≡ 2 ^ i * (2 * 2 ^ k) = pow_split i k in
    rw (e, add-mul-div_left l (2 * 2 ^ k) (two_pow_pos i)) (ground (arith, h))

lower_bit :
    (l j k : ℕ)
    → (l / 2 ^ j % 2 == 1) ≡ false
    → (l / 2 ^ (j + suc k) % 2 == 1) ≡ true
    → ((l + 2 ^ j) / 2 ^ (j + suc k) % 2 == 1) ≡ true
lower_bit l j k c h =
    let e : 2 ^ (j + suc k) ≡ 2 ^ j * (2 * 2 ^ k) = pow_split j k in
    let split : (m : ℕ) → m / 2 ^ (j + suc k) ≡ m / 2 ^ j / 2 / 2 ^ k = λ m.
      rw (e, ← div-div-eq-div-mul m (2 ^ j) (2 * 2 ^ k), ← div-div-eq-div-mul (m / 2 ^ j) 2 (2 ^ k))
        refl in
    let same : (l + 2 ^ j) / 2 ^ j / 2 ≡ l / 2 ^ j / 2 =
      ground (arith, add-div_right l (two_pow_pos j), c) in
    rw (split (l + 2 ^ j), same, ← split l) h

other_bit :
    (l i j : ℕ)
    → (l / 2 ^ j % 2 == 1) ≡ false
    → (l / 2 ^ i % 2 == 1) ≡ true
    → ((l + 2 ^ j) / 2 ^ i % 2 == 1) ≡ true
other_bit l i j c h = elim (apart i j) [
  | inl (k, e) ↦ rw e (higher_bit l i k h)
  | inr (inl (k, e)) ↦
      subst (λ n. ((l + 2 ^ j) / 2 ^ n % 2 == 1) ≡ true) (sym e)
        (lower_bit l j k c (subst (λ n. (l / 2 ^ n % 2 == 1) ≡ true) e h))
  | inr (inr e) ↦ absurd (
      let g : false ≡ true =
        subst (λ b. b ≡ true) c (subst (λ n. (l / 2 ^ n % 2 == 1) ≡ true) e h) in
      ground (arith, g))
]
  where
    apart : (i j : ℕ) → ((k : ℕ) × (j ≡ i + suc k)) ⊎ (((k : ℕ) × (i ≡ j + suc k)) ⊎ (i ≡ j))
    apart zero zero = inr (inr refl)
    apart zero (suc j) = inl (j, omega arith)
    apart (suc i) zero = inr (inl (i, omega arith))
    apart (suc i) (suc j) = elim (apart i j) [
      | inl (k, e) ↦ inl (k, omega (arith, e))
      | inr (inl (k, e)) ↦ inr (inl (k, omega (arith, e)))
      | inr (inr e) ↦ inr (inr (ap suc e))
    ]

-- The reject of the code is latched in the window that opened at `start`, or that window is over and
-- another one has been opened.
abbrev pub Latched : RejectCode → ℤ → Session → Type 0
Latched code start s =
    ((s.reject_latch_ns ≡ start) × (is_latched s.reject_latch code ≡ true))
    ⊎ ((start +ℤ reject_window_ns) ≤ℤ s.reject_latch_ns)

pub open_window-Latched :
    (code : RejectCode) (start : ℤ) (s : Session) (now : ℤ)
    → Latched code start s
    → Latched code start (open_window s now)
unfolding open_window
open_window-Latched code start s now h =
    if_cases (Latched code start) (leb_ℤ reject_window_ns (now -ℤ s.reject_latch_ns)) _ _
      (λ e. inr (elim h [
        | inl k ↦ opens s.reject_latch_ns now start e (inl k.0)
        | inr k ↦ opens s.reject_latch_ns now start e (inr k)
      ]))
      (λ e. h)
  where
    opens :
        (from now start : ℤ)
        → leb_ℤ reject_window_ns (now -ℤ from) ≡ true
        → ((from ≡ start) ⊎ ((start +ℤ reject_window_ns) ≤ℤ from))
        → (start +ℤ reject_window_ns) ≤ℤ now
    opens from now start e (inl k) =
        let f : reject_window_ns ≤ℤ (now -ℤ from) = ground arith in rw (← k) (omega (int_laws, f))
    opens from now start e (inr k) =
        let f : reject_window_ns ≤ℤ (now -ℤ from) = ground arith in omega (int_laws, f, k)

pub emit_reject_event-Latched :
    (code : RejectCode) (start : ℤ) (t : Turn) (other : RejectCode)
    → Latched code start t.self
    → Latched code start (emit_reject_event t other).self
unfolding emit_reject_event is_latched
emit_reject_event-Latched code start t other h =
    let s = open_window t.self (steady_ns t.srv) in
    let g = open_window-Latched code start t.self (steady_ns t.srv) h in
    if_cases (λ (u : Turn). Latched code start u.self) (is_latched s.reject_latch other) _ _
      (λ e. g)
      (λ e. elim g [
        | inl k ↦ inl (k.0, other_bit s.reject_latch (ordinal code) (ordinal other) e k.1)
        | inr k ↦ inr k
      ])
