-- ===== src/Engine/State.antt =====
-- The types and the state of OrderEngine (cpp/include/mm/engine.hpp), its constructor and its
-- accessors (cpp/src/engine.cpp). A live index is the list of the keys that its iterators point at.
-- A counter is a std::uint64_t and wraps; int64 prices and quantities are unbounded integers.
use market_maker_proto.Prelude.{
  ℕ, ◌+◌, Bool, true, false, ◌||◌, ◌==◌, leb, inc_u64, if◌then◌else◌, Option, none, some, List, [],
  length,
}
use market_maker_proto.Prelude.Int.{ℤ, pos, leb_ℤ, ltb_ℤ}
use market_maker_proto.Prelude.Text.{Bytes, bytes}
use market_maker_proto.Types.{Ticks, Side, bid, ask, Instrument}
use market_maker_proto.Protocol.{OutMsg}
use market_maker_proto.Engine.Keys.{OrderKey}
use market_maker_proto.Engine.Containers.{Map, session_range}

pub data OrdState : Type 0 where
  live filled cancelled rejected : OrdState

pub record Order : Type 0 where
  pub eng_id : ℕ
  pub side : Side
  pub px : Ticks
  pub leaves : ℤ
  pub st : OrdState

pub record Book : Type 0 where
  pub bid_px : ℤ
  pub bid_qty : ℤ
  pub ask_px : ℤ
  pub ask_qty : ℤ
  pub md_seq : ℕ

pub record Routed : Type 0 where
  pub session : ℕ
  pub msg : OutMsg

pub record OrderEngine : Type 0 where
  pub inst : Instrument
  pub book : Book
  pub book_seen : Bool
  pub next_eng_id : ℕ
  pub next_exec_id : ℕ
  pub stale_books_ignored : ℕ
  pub max_session_entries : ℕ
  pub orders : Map Order
  pub live_bids : List OrderKey
  pub live_asks : List OrderKey
  pub entries_by_session : ℕ → Option ℕ

abbrev pub same_side : Side → Side → Bool
same_side bid bid = true
same_side ask ask = true
same_side bid ask = false
same_side ask bid = false

abbrev pub is_live : OrdState → Bool
is_live live = true
is_live filled = false
is_live cancelled = false
is_live rejected = false

abbrev pub live_index : Side → OrderEngine → List OrderKey
live_index bid e = e.live_bids
live_index ask e = e.live_asks

-- `live_index(side) = idx`, for the updates through the reference that live_index returns.
abbrev pub with_live_index : Side → List OrderKey → OrderEngine → OrderEngine
with_live_index bid idx e = record e { live_bids = idx }
with_live_index ask idx e = record e { live_asks = idx }

-- std::invalid_argument, by its message, or the engine.
pub data Construction : Type 0 where
  engine : OrderEngine → Construction
  invalid_argument : Bytes → Construction

abbrev pub no_book : Book
no_book = record { bid_px = pos 0; bid_qty = pos 0; ask_px = pos 0; ask_qty = pos 0; md_seq = 0 }

unfoldable pub initial : Instrument → ℕ → OrderEngine
initial inst cap = record {
  inst = inst;
  book = no_book;
  book_seen = false;
  next_eng_id = 1;
  next_exec_id = 1;
  stale_books_ignored = 0;
  max_session_entries = cap;
  orders = [];
  live_bids = [];
  live_asks = [];
  entries_by_session = λ _. none;
}

-- OrderEngine::OrderEngine.
unfoldable pub construct : Instrument → ℕ → Construction
construct inst cap =
    if leb_ℤ inst.tick_size (pos 0) || leb_ℤ inst.lot_size (pos 0)
    then invalid_argument (bytes "OrderEngine: Instrument tick_size and lot_size must be > 0")
    else if ltb_ℤ inst.max_live_orders (pos 0)
    then invalid_argument (bytes "OrderEngine: Instrument max_live_orders must be >= 0")
    else if leb_ℤ inst.max_order_qty (pos 0)
    then invalid_argument (bytes "OrderEngine: Instrument max_order_qty must be > 0")
    else if ltb_ℤ inst.max_price inst.min_price
    then invalid_argument (bytes "OrderEngine: Instrument min_price must be <= max_price")
    else if cap == 0
    then invalid_argument (bytes "OrderEngine: max_session_entries must be > 0")
    else engine (initial inst cap)

unfoldable pub live_count : OrderEngine → ℕ → ℕ
live_count e session =
    length (session_range (λ k. k) session e.live_bids)
    + length (session_range (λ k. k) session e.live_asks)

abbrev pub get_or {ℓ} : {A : Type ℓ} → Option A → A → A
get_or none d = d
get_or (some a) d = a

unfoldable pub entry_count : OrderEngine → ℕ → ℕ
entry_count e session = get_or (e.entries_by_session session) 0

unfoldable pub entry_cap_breached : OrderEngine → ℕ → Bool
unfolding entry_count
entry_cap_breached e session = leb e.max_session_entries (entry_count e session)

-- A write to std::map by its key.
abbrev pub update : (ℕ → Option ℕ) → ℕ → Option ℕ → ℕ → Option ℕ
update m k v j = if j == k then v else m j

-- try_emplace(session, 0) and the increment that commits the entry.
unfoldable pub count_entry : (ℕ → Option ℕ) → ℕ → ℕ → Option ℕ
count_entry m session = update m session (some (inc_u64 (get_or (m session) 0)))
