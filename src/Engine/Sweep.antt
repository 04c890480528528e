-- ===== src/Engine/Sweep.antt =====
-- OrderEngine::on_book (cpp/src/engine.cpp): the idempotency guard, the staged fill sweep over the
-- live indexes and its commit. `none` is the dereference of an iterator whose node is gone.
pub mod Reference
pub mod Commit
pub mod Equivalence
pub mod Swept
use market_maker_proto.Prelude.{
  ℕ, ◌≡◌, Bool, true, false, ◌||◌, ◌&&◌, leb, inc_u64, if◌then◌else◌, Option, none, some, ◌>>=◌,
  List, [], ◌∷◌, ◌++◌,
}
use market_maker_proto.Prelude.Int.{ℤ, pos, leb_ℤ, eqb_ℤ, min_ℤ, ◌-ℤ◌}
use market_maker_proto.Types.{Side, bid, ask, Instrument}
use market_maker_proto.Protocol.{Fill, OutMsg, fill}
use market_maker_proto.Engine.Keys.{OrderKey}
use market_maker_proto.Engine.Containers.{Map, find, update_at, idx_erase}
use market_maker_proto.Engine.State.{
  OrdState, filled, Order, Book, Routed, OrderEngine, live_index, with_live_index,
}
use market_maker_proto.Engine.Entry.{to_raw_px}

pub record StagedFill : Type 0 where
  pub lit : OrderKey
  pub side : Side
  pub leaves_after : ℤ

-- The staged batch, the reports and the next exec_id.
abbrev pub Batch : Type 0
Batch = List StagedFill × List Routed × ℕ

abbrev pub opp_px : Side → Book → ℤ
opp_px bid book = book.ask_px
opp_px ask book = book.bid_px

abbrev pub opp_qty : Side → Book → ℤ
opp_qty bid book = book.ask_qty
opp_qty ask book = book.bid_qty

unfoldable pub is_crossed : Instrument → Side → Book → Order → Bool
is_crossed inst bid book ord = leb_ℤ book.ask_px (to_raw_px inst ord.px)
is_crossed inst ask book ord = leb_ℤ (to_raw_px inst ord.px) book.bid_px

unfoldable pub fill_qty : Side → Book → Order → ℤ
fill_qty side book ord = min_ℤ ord.leaves (opp_qty side book)

unfoldable pub leaves_after : Side → Book → Order → ℤ
unfolding fill_qty
leaves_after side book ord = ord.leaves -ℤ fill_qty side book ord

unfoldable pub fill_report : Instrument → Side → Book → OrderKey → Order → ℕ → Routed
fill_report inst side book key ord exec_id = record {
  session = key.0;
  msg = fill (record {
    v = 1;
    seq = 0;
    epoch = 0;
    cl_id = key.1;
    eng_id = ord.eng_id;
    px = to_raw_px inst ord.px;
    qty = fill_qty side book ord;
    leaves = leaves_after side book ord;
    exec_id = exec_id;
  });
}

abbrev pub stage : Instrument → Side → Book → OrderKey → Order → ℕ → Batch → Batch
stage inst side book key ord exec_id rest = (
  record { lit = key; side = side; leaves_after = leaves_after side book ord } ∷ rest.0,
  fill_report inst side book key ord exec_id ∷ rest.1,
  rest.2,
)

-- The loop over one live index: an uncrossed order is passed over.
unfoldable pub sweep_index : Instrument → Side → Book → Map Order → List OrderKey → ℕ → Option Batch
sweep_index inst side book orders [] exec_id = some ([], [], exec_id)
sweep_index inst side book orders (k ∷ ks) exec_id = find k orders >>= λ ord.
    let hit = is_crossed inst side book ord in
    sweep_index inst side book orders ks (if hit then inc_u64 exec_id else exec_id) >>= λ rest.
    some (if hit then stage inst side book k ord exec_id rest else rest)

unfoldable pub is_absent : Side → Book → Bool
is_absent side book = leb_ℤ (opp_qty side book) (pos 0) || leb_ℤ (opp_px side book) (pos 0)

unfoldable pub sweep_side : OrderEngine → Side → Book → ℕ → Option Batch
sweep_side e side book exec_id =
    if is_absent side book
    then some ([], [], exec_id)
    else sweep_index e.inst side book e.orders (live_index side e) exec_id

unfoldable pub settle : ℤ → Order → Order
settle rest o =
    if eqb_ℤ rest (pos 0)
    then record o { leaves = rest; st = filled }
    else record o { leaves = rest }

unfoldable pub commit_fill : OrderEngine → StagedFill → OrderEngine
commit_fill e s =
    let e' = record e { orders = update_at s.lit (settle s.leaves_after) e.orders } in
    if eqb_ℤ s.leaves_after (pos 0)
    then with_live_index s.side (idx_erase s.lit (live_index s.side e')) e'
    else e'

unfoldable pub commit : OrderEngine → List StagedFill → OrderEngine
commit e [] = e
commit e (s ∷ staged) = commit (commit_fill e s) staged

unfoldable pub install : OrderEngine → Book → ℕ → OrderEngine
install e book exec_id = record e { book_seen = true; book = book; next_exec_id = exec_id }

unfoldable pub on_book : OrderEngine → Book → Option (OrderEngine × List Routed)
on_book e book =
    if e.book_seen && leb book.md_seq e.book.md_seq
    then some (record e { stale_books_ignored = inc_u64 e.stale_books_ignored }, [])
    else sweep_side e bid book e.next_exec_id >>= λ bids. sweep_side e ask book bids.2 >>= λ asks.
        some (commit (install e book asks.2) (bids.0 ++ asks.0), bids.1 ++ asks.1)
