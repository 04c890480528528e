-- ===== src/Strategy/Orders.antt =====
-- The messages that the strategy of cpp/include/mm/strategy_native.hpp sends: their numbers, and how
-- they account for the order that is working on each side.
use market_maker_proto.Prelude.{
  ℕ, ◌≡◌, ◌≢◌, refl, ◌⊎◌, inl, inr, Bool, true, arith, inc_u64, if◌then◌else◌, Bool-cases, List, [],
  ◌∷◌, ◌++◌,
}
use market_maker_proto.Prelude.Int.{ℤ, pos, ltb_ℤ}
use market_maker_proto.Shm.Messages.{ShmTopOfBook, ShmOrderAck, ShmOrderFill, ShmOrderReject}
use market_maker_proto.Strategy.{
  StrategyDecision, NativeMarketMaker, Step, no_decision, inc_u32, pull_bid, pull_ask, post_bid,
  post_ask, manage_bid, manage_ask, cancel_all, is_invalid, manage, seen, on_tob, PricedDepth,
  on_depth, on_ack, on_fill, on_reject,
}

-- The sequence numbers of a decision's messages, in the order in which they are written.
abbrev pub when : Bool → ℕ → List ℕ
when b n = if b then n ∷ [] else []

abbrev pub seqs : StrategyDecision → List ℕ
seqs d =
    when d.has_bid_cancel d.cancel_bid.seq
    ++ when d.has_bid_order d.new_bid.seq
    ++ when d.has_ask_cancel d.cancel_ask.seq
    ++ when d.has_ask_order d.new_ask.seq

-- The client ids of the orders that a decision sends.
abbrev pub new_ids : StrategyDecision → List ℕ
new_ids d = when d.has_bid_order d.new_bid.cl_id ++ when d.has_ask_order d.new_ask.cl_id

-- `xs` counts up from `a` by `next` and leaves off at `b`.
abbrev pub Counts : (ℕ → ℕ) → ℕ → List ℕ → ℕ → Type 0
Counts next a [] b = a ≡ b
Counts next a (x ∷ xs) b = (x ≡ a) × Counts next (next a) xs b

-- How a decision accounts for a side: what it cancels was working, what it sends finds the side free,
-- and what works afterwards is what it sent, nothing if it cancelled alone, or what worked before.
abbrev pub Accounts : Bool → ℕ → Bool → ℕ → ℕ → ℕ → Type 0
Accounts cancels cancelled sends sent before after =
    (cancels ≡ true → (before ≢ 0) × (cancelled ≡ before))
    × (sends ≡ true → (before ≡ 0) ⊎ (cancels ≡ true))
    × (after ≡ (if sends then sent else if cancels then 0 else before))

abbrev pub AccountsBid : NativeMarketMaker → Step → Type 0
AccountsBid m r =
    Accounts r.1.has_bid_cancel r.1.cancel_bid.cl_id r.1.has_bid_order r.1.new_bid.cl_id
      m.active_bid_cl_id r.0.active_bid_cl_id

abbrev pub AccountsAsk : NativeMarketMaker → Step → Type 0
AccountsAsk m r =
    Accounts r.1.has_ask_cancel r.1.cancel_ask.cl_id r.1.has_ask_order r.1.new_ask.cl_id
      m.active_ask_cl_id r.0.active_ask_cl_id

-- What holds of one call that answers a decision.
abbrev pub Numbered : NativeMarketMaker → Step → Type 0
Numbered m r =
    Counts inc_u32 m.seq (seqs r.1) r.0.seq
    × Counts inc_u64 m.next_cl_id (new_ids r.1) r.0.next_cl_id

module _ (m : NativeMarketMaker) (md_seq : ℕ) (bid_px ask_px target_bid target_ask : ℤ) where
  manage-Numbered : Numbered m (manage m md_seq bid_px ask_px target_bid target_ask)
  unfolding manage manage_bid manage_ask pull_bid pull_ask post_bid post_ask
  manage-Numbered = ground arith

  manage-Accounts :
      let r = manage m md_seq bid_px ask_px target_bid target_ask in
      AccountsBid m r × AccountsAsk m r
  unfolding manage manage_bid manage_ask pull_bid pull_ask post_bid post_ask
  manage-Accounts = ground arith

cancel_all-Numbered : (m : NativeMarketMaker) → Numbered m (cancel_all m)
unfolding cancel_all pull_bid pull_ask
cancel_all-Numbered m = ground arith

cancel_all-Accounts :
    (m : NativeMarketMaker) → AccountsBid m (cancel_all m) × AccountsAsk m (cancel_all m)
unfolding cancel_all pull_bid pull_ask
cancel_all-Accounts m = ground arith

-- A call of `on_tob` or `on_depth` records the tick and then cancels or manages both sides.
module _ (m : NativeMarketMaker) (P : Step → Type 0) where
  abbrev pub Handles : ℕ → Type 0
  Handles md_seq =
      ((ns : ℤ) → P (cancel_all (seen m md_seq ns)))
      × ((ns bid_px ask_px target_bid target_ask : ℤ)
          → P (manage (seen m md_seq ns) md_seq bid_px ask_px target_bid target_ask))

  pub on_tob_cases :
      (tob : ShmTopOfBook) (now_ns : ℤ) → Handles tob.md_seq → P (on_tob m tob now_ns)
  unfolding on_tob
  on_tob_cases tob now_ns (cancels, manages) =
      let ns = if ltb_ℤ (pos 0) now_ns then now_ns else tob.venue_ns in
      elim (Bool-cases (is_invalid tob)) [
        | inl e ↦ rw e (cancels ns)
        | inr e ↦ rw e (manages ns tob.bid_px tob.ask_px _ _)
      ]

  pub on_depth_cases :
      (depth : PricedDepth) (md_seq : ℕ) (now_ns clock_ns : ℤ)
      → Handles md_seq
      → P (on_depth m depth md_seq now_ns clock_ns)
  unfolding on_depth
  on_depth_cases depth md_seq now_ns clock_ns (cancels, manages) =
      let ns = if ltb_ℤ (pos 0) now_ns then now_ns else clock_ns in
      elim (Bool-cases depth.invalid) [
        | inl e ↦ rw e (cancels ns)
        | inr e ↦ rw e (manages ns depth.bid_px depth.ask_px _ _)
      ]

Numbered-Handles : (m : NativeMarketMaker) (md_seq : ℕ) → Handles m (Numbered m) md_seq
Numbered-Handles m md_seq = (
  λ ns. cancel_all-Numbered (seen m md_seq ns),
  λ ns b a tb ta. manage-Numbered (seen m md_seq ns) md_seq b a tb ta,
)

-- A tick accounts for the orders: on each side it cancels only the order that was working, sends one
-- only when the side is free or was just cancelled, and remembers as working exactly what it sent, or
-- nothing after a cancel alone, or what worked before.
pub on_tob_accounts :
    (m : NativeMarketMaker) (tob : ShmTopOfBook) (now_ns : ℤ)
    → AccountsBid m (on_tob m tob now_ns) × AccountsAsk m (on_tob m tob now_ns)
on_tob_accounts m tob now_ns =
    on_tob_cases m (λ r. AccountsBid m r × AccountsAsk m r) tob now_ns
      (
        λ ns. cancel_all-Accounts (seen m tob.md_seq ns),
        λ ns b a tb ta. manage-Accounts (seen m tob.md_seq ns) tob.md_seq b a tb ta,
      )

pub data Event : Type 0 where
  tob_event : ShmTopOfBook → ℤ → Event
  depth_event : PricedDepth → ℕ → ℤ → ℤ → Event
  cancel_event : Event
  ack_event : ShmOrderAck → Event
  fill_event : ShmOrderFill → Event
  reject_event : ShmOrderReject → Event

unfoldable pub handle : NativeMarketMaker → Event → Step
handle m (tob_event tob now_ns) = on_tob m tob now_ns
handle m (depth_event depth md_seq now_ns clock_ns) = on_depth m depth md_seq now_ns clock_ns
handle m cancel_event = cancel_all m
handle m (ack_event ack) = (on_ack m ack, no_decision)
handle m (fill_event fill) = (on_fill m fill, no_decision)
handle m (reject_event reject) = (on_reject m reject, no_decision)

unfoldable pub run : NativeMarketMaker → List Event → NativeMarketMaker × List StrategyDecision
run m [] = (m, [])
run m (ev ∷ evs) = let s = handle m ev in let rest = run s.0 evs in (rest.0, s.1 ∷ rest.1)

abbrev pub gather : (StrategyDecision → List ℕ) → List StrategyDecision → List ℕ
gather f [] = []
gather f (d ∷ ds) = f d ++ gather f ds

Counts-append :
    (next : ℕ → ℕ) (a b c : ℕ) (xs ys : List ℕ)
    → Counts next a xs b
    → Counts next b ys c
    → Counts next a (xs ++ ys) c
Counts-append next a b c [] ys h k = rw h k
Counts-append next a b c (x ∷ xs) ys h k = (h.0, Counts-append next (next a) b c xs ys h.1 k)

handle-Numbered : (m : NativeMarketMaker) (ev : Event) → Numbered m (handle m ev)
unfolding handle on_ack on_fill on_reject
handle-Numbered m (tob_event tob now_ns) =
    on_tob_cases m (Numbered m) tob now_ns (Numbered-Handles m tob.md_seq)
handle-Numbered m (depth_event depth md_seq now_ns clock_ns) =
    on_depth_cases m (Numbered m) depth md_seq now_ns clock_ns (Numbered-Handles m md_seq)
handle-Numbered m cancel_event = cancel_all-Numbered m
handle-Numbered m (ack_event ack) = ground arith
handle-Numbered m (fill_event fill) = ground arith
handle-Numbered m (reject_event reject) = ground arith

-- Over any sequence of events the messages of all decisions carry consecutive sequence numbers modulo
-- 2^32 in the order in which they are written, and the orders sent carry consecutive client ids modulo
-- 2^64, each from the counter at the start to the counter at the end.
pub run-Counts :
    (m : NativeMarketMaker) (evs : List Event)
    → let r = run m evs in
      Counts inc_u32 m.seq (gather seqs r.1) r.0.seq
      × Counts inc_u64 m.next_cl_id (gather new_ids r.1) r.0.next_cl_id
unfolding run
run-Counts m [] = (refl, refl)
run-Counts m (ev ∷ evs) =
    let s = handle m ev in
    let r = run s.0 evs in
    let (h, k) = handle-Numbered m ev in
    let (p, q) = run-Counts s.0 evs in
    (
      Counts-append inc_u32 m.seq s.0.seq r.0.seq (seqs s.1) (gather seqs r.1) h p,
      Counts-append inc_u64 m.next_cl_id s.0.next_cl_id r.0.next_cl_id (new_ids s.1)
          (gather new_ids r.1) k q,
    )
