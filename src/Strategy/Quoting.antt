-- ===== src/Strategy/Quoting.antt =====
-- What the quoting of cpp/include/mm/strategy_native.hpp leaves working on each side.
use market_maker_proto.Prelude.{
  ℕ, ◌≡◌, ◌≢◌, ◌<◌, ◌+◌, ◌^◌, ◌↔◌, Bool, true, false, not, ◌&&◌, arith, if◌then◌else◌, Bool-cases,
  inl, inr,
}
use market_maker_proto.Prelude.Int.{
  ℤ, pos, ◌<ℤ◌, ltb_ℤ, neg_ℤ, quot_ℤ, ◌+ℤ◌, ◌-ℤ◌, ◌*ℤ◌, eq_of_parts, int_laws,
}
use market_maker_proto.Shm.Messages.{ShmTopOfBook}
use market_maker_proto.Strategy.{
  NativeMarketMaker, Step, no_decision, pull_bid, pull_ask, post_bid, post_ask, manage_bid,
  manage_ask, cancel_all, is_invalid, target_bid_px, target_ask_px, mid_px, position_skew,
  quotes_bid, quotes_ask, manage, seen, on_tob,
}

-- What is known of a side after its block: the working order is at the target, or there is none.
abbrev pub Settled : Type 0 → ℤ → ℕ → ℤ → Type 0
Settled quoting px cl_id active_px = ((cl_id ≢ 0) ↔ quoting) × (cl_id ≢ 0 → active_px ≡ px)

module _ (quoting : Bool) (md_seq : ℕ) (px : ℤ) (s : Step) (fresh : s.0.next_cl_id ≢ 0) where
  manage_bid-Settled :
      let r = manage_bid quoting md_seq px s in
      Settled (quoting ≡ true) px r.0.active_bid_cl_id r.0.active_bid_px
  unfolding manage_bid pull_bid post_bid
  manage_bid-Settled = ground (arith, eq_of_parts s.0.active_bid_px px)

  manage_ask-Settled :
      let r = manage_ask quoting md_seq px s in
      Settled (quoting ≡ true) px r.0.active_ask_cl_id r.0.active_ask_px
  unfolding manage_ask pull_ask post_ask
  manage_ask-Settled = ground (arith, eq_of_parts s.0.active_ask_px px)

module _ (quoting : Bool) (md_seq : ℕ) (px : ℤ) (s : Step) where
  manage_ask_keeps :
      let r = manage_ask quoting md_seq px s in
      (r.0.active_bid_cl_id ≡ s.0.active_bid_cl_id) × (r.0.active_bid_px ≡ s.0.active_bid_px)
  unfolding manage_ask pull_ask post_ask
  manage_ask_keeps = (ground arith, ground arith)

  manage_bid_next :
      s.0.next_cl_id ≢ 0
      → s.0.next_cl_id + 1 < 2 ^ 64
      → (manage_bid quoting md_seq px s).0.next_cl_id ≢ 0
  unfolding manage_bid pull_bid post_bid
  manage_bid_next z b = ground arith

cancel_all-none :
    (m : NativeMarketMaker)
    → ((cancel_all m).0.active_bid_cl_id ≡ 0) × ((cancel_all m).0.active_ask_cl_id ≡ 0)
unfolding cancel_all pull_bid pull_ask
cancel_all-none m = (ground arith, ground arith)

-- The book is usable and the position and the target allow a quote.
abbrev pub wants_bid : NativeMarketMaker → ShmTopOfBook → Bool
wants_bid m tob = not (is_invalid tob) && quotes_bid m (target_bid_px m tob) tob.ask_px

abbrev pub wants_ask : NativeMarketMaker → ShmTopOfBook → Bool
wants_ask m tob = not (is_invalid tob) && quotes_ask m (target_ask_px m tob) tob.bid_px

invalid-Settled :
    (px : ℤ) (cl_id : ℕ) (active_px : ℤ) → cl_id ≡ 0 → Settled (false ≡ true) px cl_id active_px
invalid-Settled px cl_id active_px z = ground arith

tob-Settled :
    (m : NativeMarketMaker) (tob : ShmTopOfBook) (now_ns : ℤ)
    → m.next_cl_id ≢ 0
    → m.next_cl_id + 1 < 2 ^ 64
    → let r = (on_tob m tob now_ns).0 in
      Settled (wants_bid m tob ≡ true) (target_bid_px m tob) r.active_bid_cl_id r.active_bid_px
      × Settled (wants_ask m tob ≡ true) (target_ask_px m tob) r.active_ask_cl_id r.active_ask_px
unfolding on_tob manage quotes_bid quotes_ask target_bid_px target_ask_px position_skew
tob-Settled m tob now_ns z b =
    let m' = seen m tob.md_seq (if ltb_ℤ (pos 0) now_ns then now_ns else tob.venue_ns) in
    let tb = target_bid_px m tob in
    let ta = target_ask_px m tob in
    let qb = quotes_bid m tb tob.ask_px in
    let qa = quotes_ask m ta tob.bid_px in
    let bids = manage_bid qb tob.md_seq tb (m', no_decision) in
    elim (Bool-cases (is_invalid tob)) [
      | inl e ↦
          let (nb, na) = cancel_all-none m' in
          rw e (
            invalid-Settled tb _ (cancel_all m').0.active_bid_px nb,
            invalid-Settled ta _ (cancel_all m').0.active_ask_px na,
          )
      | inr e ↦
          let (kb, kp) = manage_ask_keeps qa tob.md_seq ta bids in
          rw (e, kb, kp)
            (
              manage_bid-Settled qb tob.md_seq tb (m', no_decision) z,
              manage_ask-Settled qa tob.md_seq ta bids
                  (manage_bid_next qb tob.md_seq tb (m', no_decision) z b),
            )
    ]

-- The two quotes: the middle of the book less and more the half spread, both moved by a fifth of the
-- position, against it. Quotients are rounded towards zero.
abbrev pub bid_quote : NativeMarketMaker → ShmTopOfBook → ℤ
bid_quote m tob =
    quot_ℤ (tob.bid_px +ℤ tob.ask_px) (pos 2)
    -ℤ m.config.half_spread
    -ℤ quot_ℤ (m.position *ℤ pos 2) (pos 10)

abbrev pub ask_quote : NativeMarketMaker → ShmTopOfBook → ℤ
ask_quote m tob =
    quot_ℤ (tob.bid_px +ℤ tob.ask_px) (pos 2)
    +ℤ m.config.half_spread
    -ℤ quot_ℤ (m.position *ℤ pos 2) (pos 10)

-- A book with two positive prices that are not crossed.
abbrev pub IsUsable : ShmTopOfBook → Type 0
IsUsable tob = (pos 0 <ℤ tob.bid_px) × (pos 0 <ℤ tob.ask_px) × (tob.bid_px <ℤ tob.ask_px)

abbrev pub WantsBid : NativeMarketMaker → ShmTopOfBook → Type 0
WantsBid m tob =
    IsUsable tob × (m.position <ℤ m.config.max_position) × (bid_quote m tob <ℤ tob.ask_px)

abbrev pub WantsAsk : NativeMarketMaker → ShmTopOfBook → Type 0
WantsAsk m tob =
    IsUsable tob × (neg_ℤ m.config.max_position <ℤ m.position) × (tob.bid_px <ℤ ask_quote m tob)

wants_bid_iff :
    (m : NativeMarketMaker) (tob : ShmTopOfBook) → (wants_bid m tob ≡ true) ↔ WantsBid m tob
unfolding is_invalid quotes_bid target_bid_px mid_px position_skew
wants_bid_iff m tob = ground arith

wants_ask_iff :
    (m : NativeMarketMaker) (tob : ShmTopOfBook) → (wants_ask m tob ≡ true) ↔ WantsAsk m tob
unfolding is_invalid quotes_ask target_ask_px mid_px position_skew
wants_ask_iff m tob = ground arith

Settled_iff :
    {P Q : Type 0} (px : ℤ) (cl_id : ℕ) (active_px : ℤ)
    → P ↔ Q
    → Settled P px cl_id active_px
    → Settled Q px cl_id active_px
Settled_iff px cl_id active_px e s = ((λ c. e.0 (s.0.0 c), λ q. s.0.1 (e.1 q)), s.1)

-- While order ids remain, a tick leaves a bid working just when both prices of the book are positive,
-- its bid is below its ask, the position is below its maximum and the bid quote is below the best
-- ask; and then the bid stands at the quote. It leaves an ask working just when both prices are
-- positive, the bid is below the ask, the position is above minus the maximum and the ask quote is
-- above the best bid; and then the ask stands at the quote. The quotes are the middle of the book
-- less and more the half spread, both less a fifth of the position, rounded towards zero.
pub on_tob_quotes :
    (m : NativeMarketMaker) (tob : ShmTopOfBook) (now_ns : ℤ)
    → m.next_cl_id ≢ 0
    → m.next_cl_id + 1 < 2 ^ 64
    → let r = (on_tob m tob now_ns).0 in
      Settled (WantsBid m tob) (bid_quote m tob) r.active_bid_cl_id r.active_bid_px
      × Settled (WantsAsk m tob) (ask_quote m tob) r.active_ask_cl_id r.active_ask_px
unfolding target_bid_px target_ask_px mid_px position_skew
on_tob_quotes m tob now_ns z b =
    let r = (on_tob m tob now_ns).0 in
    let (sb, sa) = tob-Settled m tob now_ns z b in
    (
      Settled_iff (bid_quote m tob) r.active_bid_cl_id r.active_bid_px (wants_bid_iff m tob) sb,
      Settled_iff (ask_quote m tob) r.active_ask_cl_id r.active_ask_px (wants_ask_iff m tob) sa,
    )

below_ask :
    (m : NativeMarketMaker) (tob : ShmTopOfBook)
    → wants_bid m tob ≡ true
    → target_bid_px m tob <ℤ tob.ask_px
unfolding quotes_bid
below_ask m tob h = ground arith

above_bid :
    (m : NativeMarketMaker) (tob : ShmTopOfBook)
    → wants_ask m tob ≡ true
    → tob.bid_px <ℤ target_ask_px m tob
unfolding quotes_ask
above_bid m tob h = ground arith

-- While order ids remain and the half spread is positive, when a tick leaves quotes on both sides,
-- the bid is below the ask,
-- the bid is below the best ask and the ask is above the best bid: the two quotes can neither trade
-- with one another nor cross the book.
pub on_tob-no_cross :
    (m : NativeMarketMaker) (tob : ShmTopOfBook) (now_ns : ℤ)
    → m.next_cl_id ≢ 0
    → m.next_cl_id + 1 < 2 ^ 64
    → pos 0 <ℤ m.config.half_spread
    → let r = (on_tob m tob now_ns).0 in
      r.active_bid_cl_id ≢ 0
      → r.active_ask_cl_id ≢ 0
      → (r.active_bid_px <ℤ r.active_ask_px)
        × (r.active_bid_px <ℤ tob.ask_px)
        × (tob.bid_px <ℤ r.active_ask_px)
on_tob-no_cross m tob now_ns z b h wb wa =
    let (sb, sa) = tob-Settled m tob now_ns z b in
    let pb = sb.1 wb in
    let pa = sa.1 wa in
    rw (pb, pa) (spread, below_ask m tob (sb.0.0 wb), above_bid m tob (sa.0.0 wa))
  where
    spread : target_bid_px m tob <ℤ target_ask_px m tob
    spread = unfold target_bid_px in unfold target_ask_px in omega int_laws
