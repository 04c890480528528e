-- ===== src/Engine/Sweep/Swept.antt =====
-- The whole of on_book (cpp/src/engine.cpp): a fresh book sweeps the full map.
use market_maker_proto.Prelude.{
  ℕ, ◌≡◌, refl, sym, ap, ◌∙◌, true, false, arith, Bool-cases, inl, inr, [], ◌∷◌, ◌++◌,
}
use market_maker_proto.Types.{Side, bid, ask, Instrument}
use market_maker_proto.Engine.Keys.{IsSorted}
use market_maker_proto.Engine.Containers.{Map, keys, map_vals}
use market_maker_proto.Engine.State.{Order, Book, OrderEngine, same_side}
use market_maker_proto.Engine.Live.{live_keys, is_live_on}
use market_maker_proto.Engine.Sweep.{is_absent, settle, commit, install}
use market_maker_proto.Engine.Sweep.Reference.{
  fill_order, fill_both, reference_side, reference_bids, reference_asks,
}
use market_maker_proto.Engine.Sweep.Commit.{
  OnSide, stage_all-OnSide, commit_orders, commit_index, commit-orders, commit-index,
  commit_orders-append, commit_index-append, commit_index_other,
}
use market_maker_proto.Engine.Sweep.Equivalence.{
  Spares, commit_orders-stage_all, commit_index-stage_all,
}

map_vals_ext :
    {V : Type 0} (f g : V → V) (m : Map V) → ((v : V) → f v ≡ g v) → map_vals f m ≡ map_vals g m
map_vals_ext f g [] h = refl
map_vals_ext f g ((k, v) ∷ m) h = ground (arith, map_vals_ext f g m h, h v)

map_vals_id : {V : Type 0} (m : Map V) → map_vals (λ v. v) m ≡ m
map_vals_id [] = refl
map_vals_id ((k, v) ∷ m) = ap (◌∷◌ (k, v)) (map_vals_id m)

live_keys-map_vals :
    (side : Side) (f g : Order → Order) (m : Map Order)
    → ((o : Order) → is_live_on side (f o) ≡ is_live_on side (g o))
    → live_keys side (map_vals f m) ≡ live_keys side (map_vals g m)
live_keys-map_vals side f g [] h = refl
live_keys-map_vals side f g ((k, o) ∷ m) h = ground (arith, live_keys-map_vals side f g m h, h o)

fill_absent :
    (inst : Instrument) (side : Side) (book : Book) (o : Order)
    → is_absent side book ≡ true
    → fill_order inst side book o ≡ o
unfolding fill_order
fill_absent inst side book o h = rw h refl

fill_bid-ask : (inst : Instrument) (book : Book) → Spares ask (fill_order inst bid book)
unfolding fill_order settle
fill_bid-ask inst book o = (λ h. ground arith, λ h. ground arith)

-- A fill of one side does not make an order of the other live or not live.
pub fill_ask-bid :
    (inst : Instrument) (book : Book) (o : Order)
    → is_live_on bid (fill_order inst ask book o) ≡ is_live_on bid o
unfolding fill_order settle
fill_ask-bid inst book o = ground arith

fill_ask-fill_bid :
    (inst : Instrument) (book : Book) (o : Order)
    → is_live_on ask (fill_order inst ask book o) ≡ is_live_on ask (fill_both inst book o)
fill_ask-fill_bid inst book o = elim (Bool-cases (same_side o.side ask)) [
  | inl on ↦ rw ((fill_bid-ask inst book o).0 on) refl
  | inr off ↦ ground (
    arith,
    (fill_bid-ask inst book o).1 off,
    off_side o off,
    off_side (fill_order inst bid book o),
  )
]
  where
    off_side :
        (p : Order)
        → same_side p.side ask ≡ false
        → is_live_on ask (fill_order inst ask book p) ≡ false
    off_side p h = unfold fill_order settle in ground arith

module _ (e : OrderEngine) (side : Side) (book : Book) (x : ℕ) (s : IsSorted (keys e.orders)) where
  side_orders :
      (g : Order → Order)
      → Spares side g
      → commit_orders (reference_side e side book x).0 (map_vals g e.orders)
        ≡ map_vals (λ o. fill_order e.inst side book (g o)) e.orders
  unfolding reference_side
  side_orders g h = elim (Bool-cases (is_absent side book)) [
    | inl gone ↦
        rw (gone, reference_side)
          (unfold commit_orders in
            map_vals_ext g _ e.orders (λ o. sym (fill_absent e.inst side book (g o) gone)))
    | inr there ↦
        rw (there, reference_side) (commit_orders-stage_all e.inst side book there g e.orders x h s)
  ]

  side_index :
      commit_index side (reference_side e side book x).0 (live_keys side e.orders)
      ≡ live_keys side (map_vals (fill_order e.inst side book) e.orders)
  unfolding reference_side
  side_index = elim (Bool-cases (is_absent side book)) [
    | inl gone ↦
        rw (gone, reference_side)
          (unfold commit_index in
            ap (live_keys side) (
              sym (map_vals_id e.orders)
              ∙ map_vals_ext (λ o. o) _ e.orders (λ o. sym (fill_absent e.inst side book o gone))))
    | inr there ↦
        rw (there, reference_side) (commit_index-stage_all e.inst side book there e.orders x s)
  ]

  side_OnSide : OnSide side (reference_side e side book x).0
  unfolding reference_side
  side_OnSide = elim (Bool-cases (is_absent side book)) [
    | inl gone ↦ rw (gone, reference_side) tt
    | inr there ↦ rw (there, reference_side) (stage_all-OnSide e.inst side book e.orders x)
  ]

-- The engine after a fresh book.
abbrev pub swept : OrderEngine → Book → OrderEngine
swept e book =
    commit (install e book (reference_asks e book).2)
      ((reference_bids e book).0 ++ (reference_asks e book).0)

module _ (e : OrderEngine) (book : Book) (s : IsSorted (keys e.orders)) where
  -- Every order of the map is filled as if it had been visited on its own.
  pub swept-orders : (swept e book).orders ≡ map_vals (fill_both e.inst book) e.orders
  unfolding install
  swept-orders =
      commit-orders _ ((reference_bids e book).0 ++ (reference_asks e book).0)
      ∙ commit_orders-append (reference_bids e book).0 (reference_asks e book).0 e.orders
      ∙ ap (commit_orders (reference_asks e book).0) (
          ap (commit_orders (reference_bids e book).0) (sym (map_vals_id e.orders))
          ∙ side_orders e bid book e.next_exec_id s (λ o. o) (λ o. (λ h. refl, λ h. h)))
      ∙ side_orders e ask book (reference_bids e book).2 s (fill_order e.inst bid book)
          (fill_bid-ask e.inst book)

  pub swept-live_bids :
      e.live_bids ≡ live_keys bid e.orders
      → (swept e book).live_bids ≡ live_keys bid (map_vals (fill_both e.inst book) e.orders)
  unfolding install
  swept-live_bids i =
      commit-index _ bid ((reference_bids e book).0 ++ (reference_asks e book).0)
      ∙ commit_index-append bid (reference_bids e book).0 (reference_asks e book).0 e.live_bids
      ∙ commit_index_other bid ask (reference_asks e book).0 _ refl
          (side_OnSide e ask book (reference_bids e book).2 s)
      ∙ ap (commit_index bid (reference_bids e book).0) i
      ∙ side_index e bid book e.next_exec_id s
      ∙ live_keys-map_vals bid _ _ e.orders
          (λ o. sym (fill_ask-bid e.inst book (fill_order e.inst bid book o)))

  pub swept-live_asks :
      e.live_asks ≡ live_keys ask e.orders
      → (swept e book).live_asks ≡ live_keys ask (map_vals (fill_both e.inst book) e.orders)
  unfolding install
  swept-live_asks i =
      commit-index _ ask ((reference_bids e book).0 ++ (reference_asks e book).0)
      ∙ commit_index-append ask (reference_bids e book).0 (reference_asks e book).0 e.live_asks
      ∙ ap (commit_index ask (reference_asks e book).0) (
          commit_index_other ask bid (reference_bids e book).0 _ refl
            (side_OnSide e bid book e.next_exec_id s)
          ∙ i)
      ∙ side_index e ask book (reference_bids e book).2 s
      ∙ live_keys-map_vals ask _ _ e.orders (fill_ask-fill_bid e.inst book)
