-- ===== src/Types/Validation.antt =====
-- validate_order of cpp/include/mm/types.hpp against the conditions of a valid order.
use market_maker_proto.Prelude.{◌≡◌, ◌↔◌, ◌⊎◌, inl, inr, true, none, arith}
use market_maker_proto.Prelude.Int.{ℤ, pos, ◌≤ℤ◌, ◌<ℤ◌, rem_ℤ, eq_of_parts, eqb_ℤ}
use market_maker_proto.Prelude.Text.{Bytes, bytes, bytes_eq, bytes_eq→eq, bytes_eq_refl}
use market_maker_proto.Types.{Instrument, validate_order}

-- What an order has to meet, independently of the order of the checks.
pub record IsValidOrder (inst : Instrument) (symbol side : Bytes) (px qty : ℤ) : Type 0 where
  pub symbol_known : symbol ≡ inst.symbol
  pub side_known : (side ≡ bytes "B") ⊎ (side ≡ bytes "S")
  pub tick_pos : pos 0 <ℤ inst.tick_size
  pub on_tick : rem_ℤ px inst.tick_size ≡ pos 0
  pub lot_pos : pos 0 <ℤ inst.lot_size
  pub on_lot : rem_ℤ qty inst.lot_size ≡ pos 0
  pub qty_pos : pos 0 <ℤ qty
  pub qty_capped : qty ≤ℤ inst.max_order_qty
  pub px_low : inst.min_price ≤ℤ px
  pub px_high : px ≤ℤ inst.max_price

eqb_ℤ→eq : (a b : ℤ) → eqb_ℤ a b ≡ true → a ≡ b
eqb_ℤ→eq a b h = ground (arith, eq_of_parts a b)

module _ (inst : Instrument) (symbol side : Bytes) (px qty : ℤ) where
  -- An order that passes every check meets every condition.
  pub validate_order-IsValidOrder :
      validate_order inst symbol side px qty ≡ none → IsValidOrder inst symbol side px qty
  unfolding validate_order
  validate_order-IsValidOrder h = ground (
    arith,
    bytes_eq→eq symbol inst.symbol,
    bytes_eq→eq side (bytes "B"),
    bytes_eq→eq side (bytes "S"),
    eqb_ℤ→eq (rem_ℤ px inst.tick_size) (pos 0),
    eqb_ℤ→eq (rem_ℤ qty inst.lot_size) (pos 0),
  )

  symbol_accepted : IsValidOrder inst symbol side px qty → bytes_eq symbol inst.symbol ≡ true
  symbol_accepted v = rw v.symbol_known (bytes_eq_refl inst.symbol)

  side_accepted :
      IsValidOrder inst symbol side px qty
      → (bytes_eq side (bytes "B") ≡ true) ⊎ (bytes_eq side (bytes "S") ≡ true)
  side_accepted v = elim v.side_known [
    | inl e ↦ inl (rw e (bytes_eq_refl (bytes "B")))
    | inr e ↦ inr (rw e (bytes_eq_refl (bytes "S")))
  ]

  -- No valid order is refused.
  pub validate_order-none :
      IsValidOrder inst symbol side px qty → validate_order inst symbol side px qty ≡ none
  unfolding validate_order
  validate_order-none v = ground (arith, symbol_accepted v, side_accepted v)

  -- The checks decide the conditions: an order passes exactly when it is valid.
  pub validate_order_iff :
      (validate_order inst symbol side px qty ≡ none) ↔ IsValidOrder inst symbol side px qty
  validate_order_iff = (validate_order-IsValidOrder, validate_order-none)
