-- ===== src/Engine/Invariant.antt =====
-- The well-formedness of an OrderEngine (cpp/include/mm/engine.hpp) between two calls, and that
-- construction, on_new and on_cancel establish or keep it.
pub mod Sweep
pub mod Session
pub mod Runs
pub mod LifeCycle
pub mod Evolution
use market_maker_proto.Prelude.{
  ℕ, suc, ◌+◌, ◌%◌, ◌^◌, ◌≤◌, ◌<◌, ◌≡◌, refl, sym, ap, ◌∙◌, Bool, true, false, ◌&&◌, arith, ◌==◌,
  inc_u64, if◌then◌else◌, Bool-cases, inl, inr, List, [], ◌∷◌, Option, none, some, All,
}
use market_maker_proto.Prelude.Int.{ℤ, pos, ◌≤ℤ◌, ◌<ℤ◌, to_u64, quot-mul_of_rem}
use market_maker_proto.Prelude.Text.{Bytes}
use market_maker_proto.Types.{Side, bid, ask, Instrument, RejectCode}
use market_maker_proto.Types.Validation.{IsValidOrder}
use market_maker_proto.Protocol.{NewOrder, CancelOrder}
use market_maker_proto.Engine.Keys.{OrderKey, IsSorted}
use market_maker_proto.Engine.Containers.{Map, keys, find, emplace, update_at, idx_erase}
use market_maker_proto.Engine.State.{
  OrdState, live, filled, cancelled, rejected, Order, OrderEngine, is_live, live_index,
  with_live_index, Construction, engine, construct, initial, live_count, entry_count, count_entry,
  same_side,
}
use market_maker_proto.Engine.Live.{
  live_keys, is_live_on, emplace-IsSorted, keys-update_at, live_keys-emplace, live_keys-update_at,
  live_keys-update_at_end,
}
use market_maker_proto.Engine.Counts.{
  count_where, in_session, live_in, count_where-emplace, count_where-update_at_le,
  count_where-update_at, All-emplace, All-update_at, All-find, live_count_lem,
}
use market_maker_proto.Engine.Entry.{
  to_raw_px, to_ticks, reject_new, accept, accepted_order, tombstone, cancel, cancel_found, on_new,
  on_cancel,
}
use market_maker_proto.Engine.Entry.Answers.{Valid, Accepts, on_new_cases, on_cancel_cases}

-- What holds of a retained order, by its state: a live one rests inside the price range with a
-- positive remainder, a filled one has none left.
abbrev pub SoundAt : Instrument → ℤ → ℤ → OrdState → Type 0
SoundAt inst leaves px live =
    (pos 0 <ℤ leaves)
    × (leaves ≤ℤ inst.max_order_qty)
    × (inst.min_price ≤ℤ px)
    × (px ≤ℤ inst.max_price)
SoundAt inst leaves px filled = leaves ≡ pos 0
SoundAt inst leaves px cancelled = pos 0 <ℤ leaves
SoundAt inst leaves px rejected = Unit {0}

abbrev pub IsSound : Instrument → OrderKey × Order → Type 0
IsSound inst x = SoundAt inst x.1.leaves (to_raw_px inst x.1.px) x.1.st

pub record Inv (e : OrderEngine) : Type 0 where
  pub sorted : IsSorted (keys e.orders)
  pub bids : e.live_bids ≡ live_keys bid e.orders
  pub asks : e.live_asks ≡ live_keys ask e.orders
  pub counted : (s : ℕ) → entry_count e s ≡ count_where (in_session s) e.orders % 2 ^ 64
  pub capped : (s : ℕ) → count_where (live_in s) e.orders ≤ to_u64 e.inst.max_live_orders
  pub sound : All (IsSound e.inst) e.orders

pub initial-Inv : (inst : Instrument) (cap : ℕ) → Inv (initial inst cap)
unfolding initial entry_count
initial-Inv inst cap = record {
  sorted = tt;
  bids = refl;
  asks = refl;
  counted = λ s. refl;
  capped = λ s. omega arith;
  sound = tt;
}

-- The counter of an entry that is recorded under a new key.
counted_entry :
    (e : OrderEngine) (session : ℕ) (x : Bytes) (o : Order) (s : ℕ)
    → find (session, x) e.orders ≡ none
    → entry_count e s ≡ count_where (in_session s) e.orders % 2 ^ 64
    → entry_count (record e { entries_by_session = count_entry e.entries_by_session session }) s
      ≡ count_where (in_session s) (emplace (session, x) o e.orders) % 2 ^ 64
unfolding entry_count count_entry
counted_entry e session x o s f h =
    ground (arith, count_where-emplace (in_session s) (session, x) o e.orders f)

reject_new-Inv :
    {e : OrderEngine} (session : ℕ) (order : NewOrder) (code : RejectCode) (reason : Bytes)
    → Inv e
    → find (session, order.cl_id) e.orders ≡ none
    → Inv (reject_new e session order code reason).0
unfolding reject_new entry_count
reject_new-Inv {e} session order code reason v f = record {
  sorted = emplace-IsSorted key tombstone e.orders v.sorted;
  bids = v.bids ∙ sym (live_keys-emplace bid key tombstone e.orders v.sorted f);
  asks = v.asks ∙ sym (live_keys-emplace ask key tombstone e.orders v.sorted f);
  counted = λ s. counted_entry e session order.cl_id tombstone s f (v.counted s);
  capped =
      λ s. ground (arith, v.capped s, count_where-emplace (live_in s) key tombstone e.orders f);
  sound = All-emplace (IsSound e.inst) key tombstone e.orders tt v.sound;
}
  where
    key : OrderKey
    key = (session, order.cl_id)

-- An accepted price is stored and read back without loss, since it lies on a tick.
pub to_raw_px-to_ticks :
    (e : OrderEngine) (order : NewOrder)
    → Valid e order
    → to_raw_px e.inst (to_ticks e.inst order.px) ≡ order.px
unfolding to_raw_px to_ticks
to_raw_px-to_ticks e order v = quot-mul_of_rem order.px e.inst.tick_size v.tick_pos v.on_tick

accepted-IsSound :
    (e : OrderEngine) (k : OrderKey) (side : Side) (order : NewOrder)
    → Valid e order
    → IsSound e.inst (k, accepted_order e side order)
unfolding accepted_order
accepted-IsSound e k side order v =
    rw (to_raw_px-to_ticks e order v) (v.qty_pos, v.qty_capped, v.px_low, v.px_high)

module _ {e : OrderEngine} (session : ℕ) (order : NewOrder) (v : Inv e)
    (f : find (session, order.cl_id) e.orders ≡ none) where
  accept-Inv : (side : Side) → Accepts e session order side → Inv (accept e session order side).0
  unfolding accept accepted_order entry_count
  accept-Inv bid a =
      let o = accepted_order e bid order in
      let key : OrderKey = (session, order.cl_id) in
      record {
        sorted = emplace-IsSorted key o e.orders v.sorted;
        bids = rw v.bids (sym (live_keys-emplace bid key o e.orders v.sorted f));
        asks = v.asks ∙ sym (live_keys-emplace ask key o e.orders v.sorted f);
        counted = λ s. counted_entry e session order.cl_id o s f (v.counted s);
        capped = λ s. ground (
          arith,
          v.capped s,
          a.room,
          live_count_lem e session v.sorted v.bids v.asks,
          count_where-emplace (live_in s) key o e.orders f,
        );
        sound =
            All-emplace (IsSound e.inst) key o e.orders (accepted-IsSound e key bid order a.valid)
              v.sound;
      }
  accept-Inv ask a =
      let o = accepted_order e ask order in
      let key : OrderKey = (session, order.cl_id) in
      record {
        sorted = emplace-IsSorted key o e.orders v.sorted;
        bids = v.bids ∙ sym (live_keys-emplace bid key o e.orders v.sorted f);
        asks = rw v.asks (sym (live_keys-emplace ask key o e.orders v.sorted f));
        counted = λ s. counted_entry e session order.cl_id o s f (v.counted s);
        capped = λ s. ground (
          arith,
          v.capped s,
          a.room,
          live_count_lem e session v.sorted v.bids v.asks,
          count_where-emplace (live_in s) key o e.orders f,
        );
        sound =
            All-emplace (IsSound e.inst) key o e.orders (accepted-IsSound e key ask order a.valid)
              v.sound;
      }

-- A new order, whatever its branch, keeps the engine well formed.
pub on_new-Inv :
    {e : OrderEngine} (session : ℕ) (order : NewOrder) → Inv e → Inv (on_new e session order).0
on_new-Inv {e} session order v =
    on_new_cases e session order (λ r. Inv r.0) v.sorted (λ p. v)
      (λ f code reason. reject_new-Inv session order code reason v f)
      (λ f side a. accept-Inv session order v f side a)

-- A cancel that finds a live order keeps the engine well formed.
module _ {e : OrderEngine} (session : ℕ) (c : CancelOrder) (v : Inv e) where
  abbrev cancelled_orders : Map Order
  cancelled_orders = update_at (session, c.cl_id) cancel e.orders

  cancelled-IsSound :
      (ord : Order)
      → find (session, c.cl_id) e.orders ≡ some ord
      → is_live ord.st ≡ true
      → All (IsSound e.inst) cancelled_orders
  cancelled-IsSound ord f l =
      let here = All-find (IsSound e.inst) (session, c.cl_id) ord e.orders v.sound f in
      All-update_at (IsSound e.inst) (session, c.cl_id) cancel ord e.orders f (ground arith) v.sound

  cancelled_counts :
      (s : ℕ)
      → (count_where (in_session s) cancelled_orders ≡ count_where (in_session s) e.orders)
        × (count_where (live_in s) cancelled_orders ≤ count_where (live_in s) e.orders)
  cancelled_counts s = (
    count_where-update_at (in_session s) (session, c.cl_id) cancel e.orders (λ j o. refl),
    count_where-update_at_le (live_in s) (session, c.cl_id) cancel e.orders (λ j o h. ground arith),
  )

  -- An order leaves the index of its own side only.
  cancelled_keys :
      (side : Side) (ord : Order)
      → find (session, c.cl_id) e.orders ≡ some ord
      → is_live ord.st ≡ true
      → live_keys side cancelled_orders ≡ (
          if same_side ord.side side
          then idx_erase (session, c.cl_id) (live_keys side e.orders)
          else live_keys side e.orders)
  cancelled_keys side ord f l = elim (Bool-cases (same_side ord.side side)) [
    | inl mine ↦ rw mine (
        live_keys-update_at_end side (session, c.cl_id) cancel ord e.orders f (ground arith)
          (ground arith))
    | inr other ↦
        rw other (live_keys-update_at side (session, c.cl_id) cancel ord e.orders f (ground arith))
  ]

  cancel_found-Inv :
      (side : Side) (ord : Order)
      → ord.side ≡ side
      → find (session, c.cl_id) e.orders ≡ some ord
      → is_live ord.st ≡ true
      → Inv (cancel_found e session c ord).0
  unfolding cancel_found entry_count
  cancel_found-Inv bid ord i f l =
      rw (l, i, cancel_found)
        record {
          sorted = rw (keys-update_at (session, c.cl_id) cancel e.orders) v.sorted;
          bids = ground (arith, v.bids, cancelled_keys bid ord f l);
          asks = ground (arith, v.asks, cancelled_keys ask ord f l);
          counted = λ s. ground (arith, v.counted s, cancelled_counts s);
          capped = λ s. ground (arith, v.capped s, cancelled_counts s);
          sound = cancelled-IsSound ord f l;
        }
  cancel_found-Inv ask ord i f l =
      rw (l, i, cancel_found)
        record {
          sorted = rw (keys-update_at (session, c.cl_id) cancel e.orders) v.sorted;
          bids = ground (arith, v.bids, cancelled_keys bid ord f l);
          asks = ground (arith, v.asks, cancelled_keys ask ord f l);
          counted = λ s. ground (arith, v.counted s, cancelled_counts s);
          capped = λ s. ground (arith, v.capped s, cancelled_counts s);
          sound = cancelled-IsSound ord f l;
        }

  -- A cancel, whatever its branch, keeps the engine well formed.
  pub on_cancel-Inv : Inv (on_cancel e session c).0
  on_cancel-Inv =
      on_cancel_cases e session c (λ r. Inv r.0) (λ code reason. v)
        (λ ord f l. cancel_found-Inv ord.side ord refl f l)
