-- ===== src/Engine/Invariant/Evolution.antt =====
-- How a retained order of an OrderEngine (cpp/src/engine.cpp) may change from one call to the next.
use market_maker_proto.Prelude.{
  ◌≡◌, refl, ◌∙◌, true, false, not, ◌&&◌, arith, Bool-cases, inl, inr, none, some,
}
use market_maker_proto.Prelude.Int.{ℤ, ◌≤ℤ◌, pos, eqb_ℤ}
use market_maker_proto.Types.{Side, Instrument}
use market_maker_proto.Engine.Keys.{OrderKey, key_eq, key_eq→eq}
use market_maker_proto.Engine.Containers.{Map, find, emplace}
use market_maker_proto.Engine.State.{Order, Book, is_live}
use market_maker_proto.Engine.Lookup.{find-emplace}
use market_maker_proto.Engine.Sweep.{leaves_after, is_absent, settle}
use market_maker_proto.Engine.Sweep.Reference.{is_hit, fill_order}
use market_maker_proto.Engine.Invariant.{IsSound}
use market_maker_proto.Engine.Invariant.Sweep.{leaves_after_bounds, live_leaves}

-- The life cycle of a retained order.
pub record Evolves (o p : Order) : Type 0 where
  pub eng_id : p.eng_id ≡ o.eng_id
  pub side : p.side ≡ o.side
  pub px : p.px ≡ o.px
  pub leaves : p.leaves ≤ℤ o.leaves
  pub absorbed : is_live o.st ≡ false → p ≡ o

pub Evolves-refl : (o : Order) → Evolves o o
Evolves-refl o = record {
  eng_id = refl;
  side = refl;
  px = refl;
  leaves = omega arith;
  absorbed = λ h. refl;
}

pub Evolves-trans : (o p q : Order) → Evolves o p → Evolves p q → Evolves o q
Evolves-trans o p q a b = record {
  eng_id = b.eng_id ∙ a.eng_id;
  side = b.side ∙ a.side;
  px = b.px ∙ a.px;
  leaves = omega (arith, a.leaves, b.leaves);
  absorbed = λ h. let e = a.absorbed h in b.absorbed (rw e h) ∙ e;
}

settle-Evolves :
    (rest : ℤ) (o : Order) → is_live o.st ≡ true → rest ≤ℤ o.leaves → Evolves o (settle rest o)
unfolding settle
settle-Evolves rest o l h = elim (Bool-cases (eqb_ℤ rest (pos 0))) [
  | inl e ↦
      rw (e, settle)
        record { eng_id = refl; side = refl; px = refl; leaves = h; absorbed = λ d. cc }
  | inr e ↦
      rw (e, settle)
        record { eng_id = refl; side = refl; px = refl; leaves = h; absorbed = λ d. cc }
]

pub fill-Evolves :
    (inst : Instrument) (side : Side) (book : Book) (k : OrderKey) (o : Order)
    → IsSound inst (k, o)
    → Evolves o (fill_order inst side book o)
unfolding fill_order
fill-Evolves inst side book k o s =
    elim (Bool-cases (not (is_absent side book) && is_hit inst side book o)) [
      | inr miss ↦ rw (miss, fill_order) (Evolves-refl o)
      | inl hit ↦
          let l : is_live o.st ≡ true = ground arith in
          rw (hit, fill_order)
            (settle-Evolves (leaves_after side book o) o l (
              omega (
                arith,
                (leaves_after_bounds side book o (ground arith) (live_leaves inst k o l s)).1,
              )))
    ]

-- The entry at `k` is still there, and has evolved from `o`.
abbrev pub Kept : OrderKey → Order → Map Order → Type 0
Kept k o m = (p : Order) × (find k m ≡ some p) × Evolves o p

pub emplace-Kept :
    (k j : OrderKey) (o n : Order) (m : Map Order)
    → find k m ≡ some o
    → find j m ≡ none
    → Kept k o (emplace j n m)
emplace-Kept k j o n m f g = elim (Bool-cases (key_eq j k)) [
  | inl e ↦ let absent : find k m ≡ none = rw (← key_eq→eq j k e) g in absurd (cc)
  | inr e ↦ (o, rw (find-emplace k j n m g, e) f, Evolves-refl o)
]
