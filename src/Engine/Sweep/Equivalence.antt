-- ===== src/Engine/Sweep/Equivalence.antt =====
-- on_book (cpp/src/engine.cpp) against the reference sweep of the full map: the same orders, the
-- same reports, indexes in step, and no dead iterator.
use market_maker_proto.Prelude.{
  ℕ, ◌≡◌, refl, ap, ◌∙◌, true, false, not, ◌&&◌, arith, inc_u64, Bool-cases, inl, inr, [], ◌∷◌,
}
use market_maker_proto.Prelude.Int.{pos, eqb_ℤ}
use market_maker_proto.Types.{Side, Instrument}
use market_maker_proto.Engine.Keys.{IsSorted}
use market_maker_proto.Engine.Containers.{Map, keys, map_vals}
use market_maker_proto.Engine.State.{Order, Book, same_side}
use market_maker_proto.Engine.Live.{live_keys, is_live_on}
use market_maker_proto.Engine.Sweep.{leaves_after, is_absent, settle}
use market_maker_proto.Engine.Sweep.Reference.{is_hit, fill_order, stage_all}
use market_maker_proto.Engine.Sweep.Commit.{
  stage_all-Above, commit_orders, commit_index, commit_orders-Above, commit_index-Above,
  commit_orders-hit, commit_index-hit, same_side_refl,
}

-- A change of orders that leaves those of a side alone and moves none onto it.
abbrev pub Spares : Side → (Order → Order) → Type 0
Spares side g =
    (o : Order)
    → (same_side o.side side ≡ true → g o ≡ o)
      × (same_side o.side side ≡ false → same_side (g o).side side ≡ false)

module _ (inst : Instrument) (side : Side) (book : Book) (here : is_absent side book ≡ false) where
  fill_hit :
      (o : Order)
      → is_hit inst side book o ≡ true
      → fill_order inst side book o ≡ settle (leaves_after side book o) o
  unfolding fill_order
  fill_hit o h = rw (here, h) refl

  fill_miss : (o : Order) → is_hit inst side book o ≡ false → fill_order inst side book o ≡ o
  unfolding fill_order
  fill_miss o h = rw h (ground arith)

  spared_miss :
      (g : Order → Order) (o : Order)
      → Spares side g
      → is_hit inst side book o ≡ false
      → is_hit inst side book (g o) ≡ false
  spared_miss g o s h = elim (Bool-cases (same_side o.side side)) [
    | inl on ↦ rw ((s o).0 on) h
    | inr off ↦ rw ((s o).1 off) refl
  ]

  -- Committing the batch of the side fills the side's orders, in a map that other writes have
  -- changed only elsewhere.
  pub commit_orders-stage_all :
      (g : Order → Order) (m : Map Order) (x : ℕ)
      → Spares side g
      → IsSorted (keys m)
      → commit_orders (stage_all inst side book m x).0 (map_vals g m)
        ≡ map_vals (λ o. fill_order inst side book (g o)) m
  unfolding stage_all
  commit_orders-stage_all g [] x s h = unfold commit_orders in refl
  commit_orders-stage_all g ((k, o) ∷ m) x s h = elim (Bool-cases (is_hit inst side book o)) [
    | inl hit ↦
        let same : g o ≡ o = (s o).0 (ground arith) in
        let rest = commit_orders-stage_all g m (inc_u64 x) s h.1 in
        rw (hit, stage_all, same, fill_hit o hit)
          (commit_orders-hit side
              (record { lit = k; side = side; leaves_after = leaves_after side book o }) o _
              (map_vals g m) (stage_all-Above inst side book k m (inc_u64 x) h.0)
            ∙ ap (◌∷◌ (k, settle (leaves_after side book o) o)) rest)
    | inr miss ↦
        rw (miss, stage_all, fill_miss (g o) (spared_miss g o s miss))
          (commit_orders-Above side k (g o) _ (map_vals g m)
              (stage_all-Above inst side book k m x h.0)
            ∙ ap (◌∷◌ (k, g o)) (commit_orders-stage_all g m x s h.1))
  ]

  not_live :
      (o : Order)
      → is_live_on side (settle (leaves_after side book o) o)
        ≡ (is_live_on side o && not (eqb_ℤ (leaves_after side book o) (pos 0)))
  unfolding settle
  not_live o = ground arith

  -- Committing the batch of the side takes the filled orders out of its index.
  pub commit_index-stage_all :
      (m : Map Order) (x : ℕ)
      → IsSorted (keys m)
      → commit_index side (stage_all inst side book m x).0 (live_keys side m)
        ≡ live_keys side (map_vals (fill_order inst side book) m)
  unfolding stage_all
  commit_index-stage_all [] x h = unfold commit_index in refl
  commit_index-stage_all ((k, o) ∷ m) x h = elim (Bool-cases (is_hit inst side book o)) [
    | inl hit ↦
        let lives : is_live_on side o ≡ true = ground arith in
        let rest = commit_index-stage_all m (inc_u64 x) h.1 in
        rw (hit, stage_all, fill_hit o hit, not_live o, lives)
          (commit_index-hit side
              (record { lit = k; side = side; leaves_after = leaves_after side book o }) _
              (live_keys side m) (same_side_refl side)
              (stage_all-Above inst side book k m (inc_u64 x) h.0)
            ∙ ground (arith, rest))
    | inr miss ↦ elim (Bool-cases (is_live_on side o)) [
      | inl lives ↦
          rw (miss, stage_all, fill_miss o miss, lives)
            (commit_index-Above side k _ (live_keys side m)
                (stage_all-Above inst side book k m x h.0)
              ∙ ap (◌∷◌ k) (commit_index-stage_all m x h.1))
      | inr rests ↦ rw (miss, stage_all, fill_miss o miss, rests) (commit_index-stage_all m x h.1)
    ]
  ]
