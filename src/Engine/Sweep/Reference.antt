-- ===== src/Engine/Sweep/Reference.antt =====
-- The sweep of on_book (cpp/src/engine.cpp) without its live indexes: every order of the full map is
-- visited and filled in place. The staged sweep over an index finds the same fills.
use market_maker_proto.Prelude.{
  ℕ, ◌≡◌, refl, Bool, not, ◌&&◌, arith, inc_u64, if◌then◌else◌, Bool-cases, inl, inr, List, [], ◌∷◌,
  ◌++◌, some, All,
}
use market_maker_proto.Types.{Side, bid, ask, Instrument}
use market_maker_proto.Engine.Keys.{OrderKey, Above, IsSorted, key_eq_refl, key_eq_of_lt}
use market_maker_proto.Engine.Containers.{Map, keys, find}
use market_maker_proto.Engine.State.{Order, Book, Routed, OrderEngine, live_index}
use market_maker_proto.Engine.Live.{live_keys, is_live_on}
use market_maker_proto.Engine.Sweep.{
  Batch, is_crossed, leaves_after, stage, sweep_index, sweep_side, is_absent, settle,
}

abbrev pub is_hit : Instrument → Side → Book → Order → Bool
is_hit inst side book o = is_live_on side o && is_crossed inst side book o

-- The order after a book, on its own.
unfoldable pub fill_order : Instrument → Side → Book → Order → Order
fill_order inst side book o =
    if not (is_absent side book) && is_hit inst side book o
    then settle (leaves_after side book o) o
    else o

-- The batch of one side, from the full map.
unfoldable pub stage_all : Instrument → Side → Book → Map Order → ℕ → Batch
stage_all inst side book [] exec_id = ([], [], exec_id)
stage_all inst side book ((k, o) ∷ m) exec_id =
    let hit = is_hit inst side book o in
    let rest = stage_all inst side book m (if hit then inc_u64 exec_id else exec_id) in
    if hit then stage inst side book k o exec_id rest else rest

unfoldable pub reference_side : OrderEngine → Side → Book → ℕ → Batch
reference_side e side book exec_id =
    if is_absent side book then ([], [], exec_id) else stage_all e.inst side book e.orders exec_id

-- Every entry is what a look-up of its key in `whole` finds.
abbrev pub Found : Map Order → Map Order → Type 0
Found whole = All (λ x. find x.0 whole ≡ some x.1)

Found-cons :
    (k : OrderKey) (o : Order) (whole m : Map Order)
    → Above k (keys m)
    → Found whole m
    → Found ((k, o) ∷ whole) m
unfolding find
Found-cons k o whole [] a f = tt
Found-cons k o whole ((j, p) ∷ m) a f =
    (rw (key_eq_of_lt k j a.0) f.0, Found-cons k o whole m a.1 f.1)

pub Found-self : (m : Map Order) → IsSorted (keys m) → Found m m
unfolding find
Found-self [] s = tt
Found-self ((k, o) ∷ m) s = (rw (key_eq_refl k) refl, Found-cons k o m m s.0 (Found-self m s.1))

sweep_index-live_keys :
    (inst : Instrument) (side : Side) (book : Book) (whole m : Map Order) (exec_id : ℕ)
    → Found whole m
    → sweep_index inst side book whole (live_keys side m) exec_id
      ≡ some (stage_all inst side book m exec_id)
unfolding sweep_index stage_all
sweep_index-live_keys inst side book whole [] exec_id f = refl
sweep_index-live_keys inst side book whole ((k, o) ∷ m) exec_id f =
    elim (Bool-cases (is_live_on side o)) [
      | inr rests ↦ rw (rests, stage_all) (sweep_index-live_keys inst side book whole m exec_id f.1)
      | inl lives ↦
          rw
            (
              lives,
              sweep_index,
              f.0,
              sweep_index-live_keys inst side book whole m
                  (if is_crossed inst side book o then inc_u64 exec_id else exec_id) f.1,
            )
            (ground arith)
    ]

-- With the index in step with the map, the sweep never meets a dead iterator and stages the fills of
-- the full map.
pub sweep_side_lem :
    (e : OrderEngine) (side : Side) (book : Book) (exec_id : ℕ)
    → IsSorted (keys e.orders)
    → live_index side e ≡ live_keys side e.orders
    → sweep_side e side book exec_id ≡ some (reference_side e side book exec_id)
unfolding sweep_side reference_side
sweep_side_lem e side book exec_id s i = elim (Bool-cases (is_absent side book)) [
  | inl gone ↦ rw (gone, sweep_side)
  | inr there ↦ rw (
    there,
    i,
    sweep_side,
    sweep_index-live_keys e.inst side book e.orders e.orders exec_id (Found-self e.orders s),
  )
]

-- Both sides of a book, on one order: bids first.
abbrev pub fill_both : Instrument → Book → Order → Order
fill_both inst book o = fill_order inst ask book (fill_order inst bid book o)

abbrev pub reference_bids : OrderEngine → Book → Batch
reference_bids e book = reference_side e bid book e.next_exec_id

abbrev pub reference_asks : OrderEngine → Book → Batch
reference_asks e book = reference_side e ask book (reference_bids e book).2

-- The reports of the reference sweep: the bids' before the asks', in key order.
abbrev pub reference_reports : OrderEngine → Book → List Routed
reference_reports e book = (reference_bids e book).1 ++ (reference_asks e book).1
