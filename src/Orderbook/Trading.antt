-- ===== src/Orderbook/Trading.antt =====
-- How much `AddOrder` of Orderbook/src/orderbook.cpp trades.
use osborne_x.Base.{
  ◌<◌, ◌≡◌, ap, ◌∙◌, inl, inr, Bool, true, false, List, [], ◌∷◌, arith, min, Bool-cases,
}
use osborne_x.Base.Price.{Price, le_price}
use osborne_x.Orderbook.Types.{Side, buy, sell, Order, Trade}
use osborne_x.Orderbook.Levels.{Level, push_order}
use osborne_x.Orderbook.Book.{Orderbook, levels_of, can_match}
use osborne_x.Orderbook.Matching.{match_orders, level_count}
use osborne_x.Orderbook.Operations.{opposite, insert_order, add_order}
use osborne_x.Orderbook.Exhaust.{IsUncrossed}
use osborne_x.Orderbook.Sorted.{AreLevels}
use osborne_x.Orderbook.Filing.{IsFiled, IsPriced, entered-IsFiled, price_market_pos}
use osborne_x.Orderbook.Rounds.{IsPricedAs}
use osborne_x.Orderbook.Uncrossed.{AreApart, match_loop-AreApart}
use osborne_x.Orderbook.Patient.{IsPatient, IsCalm}
use osborne_x.Orderbook.Admission.{is_admitted, add_order_admits}
use osborne_x.Orderbook.Conserving.{price_market-same, price_market-IsPatient}
use osborne_x.Orderbook.Priority.{traded}
use osborne_x.Orderbook.Immediate.{entered-levels, matched-side}
use osborne_x.Orderbook.Reach.{reach}
use osborne_x.Orderbook.Filling.{far_asks, far_bids, crossing_buy, crossing_sell}

-- A price alone, as a level.
abbrev at : Price → List Level
at p = record { price = p; orders = [] } ∷ []

push_order-apart_buy :
    (p : Price) (o : Order) (ls asks : List Level)
    → IsUncrossed ls asks
    → IsUncrossed (at p) asks
    → IsUncrossed (push_order buy p o ls) asks
unfolding push_order
push_order-apart_buy p o [] [] h a = tt
push_order-apart_buy p o [] (k ∷ ks) h a = a
push_order-apart_buy p o (l ∷ ls) [] h a = ground arith
push_order-apart_buy p o (l ∷ ls) (k ∷ ks) h a = ground arith

push_order-apart_sell :
    (p : Price) (o : Order) (bids ks : List Level)
    → IsUncrossed bids ks
    → IsUncrossed bids (at p)
    → IsUncrossed bids (push_order sell p o ks)
unfolding push_order
push_order-apart_sell p o [] ks h a = tt
push_order-apart_sell p o (l ∷ ls) [] h a = a
push_order-apart_sell p o (l ∷ ls) (k ∷ ks) h a = ground arith

-- An order that matches nothing stays apart from the other side.
missed_buy :
    (o : Order) (b : Orderbook)
    → 0 < o.price
    → AreLevels sell b.asks
    → can_match buy o.price b ≡ false
    → IsUncrossed (at o.price) b.asks
unfolding can_match
missed_buy o b h v c = far b.asks v (ground arith)
  where
    far :
        (asks : List Level)
        → AreLevels sell asks
        → elim asks as (λ _. Bool) [ [] ↦ false | l ∷ _ ↦ le_price l.price o.price ] ≡ false
        → IsUncrossed (at o.price) asks
    far [] v c = tt
    far (k ∷ ks) v c = ground (arith, v.levels.0.0)

missed_sell :
    (o : Order) (b : Orderbook)
    → 0 < o.price
    → AreLevels buy b.bids
    → can_match sell o.price b ≡ false
    → IsUncrossed b.bids (at o.price)
unfolding can_match
missed_sell o b h v c = far b.bids v (ground arith)
  where
    far :
        (bids : List Level)
        → AreLevels buy bids
        → elim bids as (λ _. Bool) [ [] ↦ false | l ∷ _ ↦ le_price o.price l.price ] ≡ false
        → IsUncrossed bids (at o.price)
    far [] v c = tt
    far (k ∷ ks) v c = ground (arith, v.levels.0.0)

apart-trades_nothing : (b : Orderbook) → AreApart b → traded (match_orders b).1 ≡ 0
unfolding match_orders
apart-trades_nothing b h =
    ap (λ (r : Orderbook × List Trade). traded r.1) (match_loop-AreApart (level_count b) b [] h)

entered-trades :
    (s : Side) (o : Order) (b : Orderbook)
    → o.side ≡ s
    → 0 < o.price
    → IsPatient o
    → IsFiled (insert_order o b)
    → IsFiled b
    → IsCalm b
    → AreApart b
    → traded (match_orders (insert_order o b)).1
      ≡ min o.remaining_quantity (reach s o.price (levels_of (opposite s) b))
unfolding can_match
entered-trades buy o b s h patient v w calm apart = elim (Bool-cases (can_match buy o.price b)) [
  | inl c ↦
      let (k, ks, e) = matched-side buy o b c in
      crossing_buy o b k ks s patient v calm apart e (rw e at c)
  | inr c ↦
      let far = missed_buy o b h w.asks c in
      let levels = entered-levels buy o b s in
      let none_reached = far_asks o.price b.asks w.asks far in
      let still : AreApart (insert_order o b) =
        rw (levels.0, levels.1) (push_order-apart_buy o.price o b.bids b.asks apart far) in
      ground (arith, none_reached, apart-trades_nothing (insert_order o b) still)
]
entered-trades sell o b s h patient v w calm apart = elim (Bool-cases (can_match sell o.price b)) [
  | inl c ↦
      let (l, ls, e) = matched-side sell o b c in
      crossing_sell o b l ls s patient v calm apart e (rw e at c)
  | inr c ↦
      let far = missed_sell o b h w.bids c in
      let levels = entered-levels sell o b s in
      let none_reached = far_bids o.price b.bids w.bids far in
      let still : AreApart (insert_order o b) =
        rw (levels.0, levels.1) (push_order-apart_sell o.price o b.bids b.asks apart far) in
      ground (arith, none_reached, apart-trades_nothing (insert_order o b) still)
]

-- An order that is let in, and that is no fill-and-kill order, trades the smaller of its quantity and of
-- all that rests on the other side at prices that it meets; a market order meets as many as the worst
-- price lets it. The book is filed, not crossed and without fill-and-kill orders, and the order has a
-- price or is a market order.
pub add_order-trades :
    (o : Order) (b : Orderbook)
    → is_admitted o b ≡ true
    → IsPatient o
    → IsPriced o
    → IsFiled b
    → IsCalm b
    → AreApart b
    → (o' : Order) × IsPricedAs b o o'
      × (traded (add_order o b).1
          ≡ min o.remaining_quantity (reach o.side o'.price (levels_of (opposite o.side) b)))
add_order-trades o b a patient h v calm apart =
    add_order_admits
      (λ r.
        (o' : Order) × IsPricedAs b o o'
        × (traded r.1
            ≡ min o.remaining_quantity (reach o.side o'.price (levels_of (opposite o.side) b))))
      o b (λ refused. absurd cc)
      (λ o' _ p.
        let (quantity, side) = price_market-same b o o' p in
        (
          o',
          p,
          entered-trades o.side o' b side (price_market_pos b o o' v h p)
                (price_market-IsPatient b o o' p patient) (entered-IsFiled o o' b h v p) v calm
                apart
              ∙ ap (λ q. min q (reach o.side o'.price (levels_of (opposite o.side) b))) quantity,
        ))
