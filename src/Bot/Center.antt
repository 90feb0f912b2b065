-- ===== src/Bot/Center.antt =====
-- The price around which `make_random_order` of Bot/src/random_strategy.cpp prices an order.
use osborne_x.Base.{ℕ, zero, suc, ◌<◌, ◌≡◌, refl, ◌⊎◌, inl, inr, Option, none, some, arith}
use osborne_x.Base.Price.{Price}
use osborne_x.Messages.{TopOfBookUpdate, has_bid, has_ask}
use osborne_x.Bot.{Chance, center_of}

zero_or_pos : (n : ℕ) → (n ≡ 0) ⊎ (0 < n)
zero_or_pos zero = inl refl
zero_or_pos (suc n) = inr (omega arith)

module _ {G : Type 0} (chance : Chance G) where
  -- The price around which orders of a symbol are priced, by the last update seen of the symbol: a side
  -- with no quantity is not there.
  pub data IsCenter (seen : Option TopOfBookUpdate) (default_price center : Price) : Type 0 where
    unseen : seen ≡ none → center ≡ default_price → IsCenter seen default_price center
    no_side :
        (u : TopOfBookUpdate)
        → seen ≡ some u
        → u.bid_quantity ≡ 0
        → u.ask_quantity ≡ 0
        → center ≡ default_price
        → IsCenter seen default_price center
    bid_only :
        (u : TopOfBookUpdate)
        → seen ≡ some u
        → 0 < u.bid_quantity
        → u.ask_quantity ≡ 0
        → center ≡ u.bid_price
        → IsCenter seen default_price center
    ask_only :
        (u : TopOfBookUpdate)
        → seen ≡ some u
        → u.bid_quantity ≡ 0
        → 0 < u.ask_quantity
        → center ≡ u.ask_price
        → IsCenter seen default_price center
    both_sides :
        (u : TopOfBookUpdate)
        → seen ≡ some u
        → 0 < u.bid_quantity
        → 0 < u.ask_quantity
        → center ≡ chance.middle u.bid_price u.ask_price
        → IsCenter seen default_price center

  center_of-none : (p : Price) → center_of chance none p ≡ p
  unfolding center_of
  center_of-none p = refl

  center_of-both :
      (u : TopOfBookUpdate) (p : Price)
      → 0 < u.bid_quantity
      → 0 < u.ask_quantity
      → center_of chance (some u) p ≡ chance.middle u.bid_price u.ask_price
  unfolding center_of has_bid has_ask
  center_of-both u p h k = ground arith

  center_of-bid :
      (u : TopOfBookUpdate) (p : Price)
      → 0 < u.bid_quantity
      → u.ask_quantity ≡ 0
      → center_of chance (some u) p ≡ u.bid_price
  unfolding center_of has_bid has_ask
  center_of-bid u p h k = ground arith

  center_of-ask :
      (u : TopOfBookUpdate) (p : Price)
      → u.bid_quantity ≡ 0
      → 0 < u.ask_quantity
      → center_of chance (some u) p ≡ u.ask_price
  unfolding center_of has_bid has_ask
  center_of-ask u p h k = ground arith

  center_of-default :
      (u : TopOfBookUpdate) (p : Price)
      → u.bid_quantity ≡ 0
      → u.ask_quantity ≡ 0
      → center_of chance (some u) p ≡ p
  unfolding center_of has_bid has_ask
  center_of-default u p h k = ground arith

  pub center_of-IsCenter :
      (seen : Option TopOfBookUpdate) (p : Price) → IsCenter seen p (center_of chance seen p)
  center_of-IsCenter none p = unseen refl (center_of-none p)
  center_of-IsCenter (some u) p = elim (zero_or_pos u.bid_quantity) [
    | inl e ↦ elim (zero_or_pos u.ask_quantity) [
      | inl f ↦ no_side u refl e f (center_of-default u p e f)
      | inr f ↦ ask_only u refl e f (center_of-ask u p e f)
    ]
    | inr e ↦ elim (zero_or_pos u.ask_quantity) [
      | inl f ↦ bid_only u refl e f (center_of-bid u p e f)
      | inr f ↦ both_sides u refl e f (center_of-both u p e f)
    ]
  ]
