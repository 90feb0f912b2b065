-- ===== src/Orderbook/Immediate.antt =====
-- What `AddOrder` of Orderbook/src/orderbook.cpp makes of a fill-and-kill order.
use osborne_x.Base.{
  List-cases, inr, suc, ◌-◌, ◌<◌, ◌≡◌, refl, sym, subst, ap, ◌∙◌, inl, true, false, List, [], ◌∷◌,
  arith, length,
}
use osborne_x.Base.Price.{Price, le_price}
use osborne_x.Orderbook.Types.{Side, buy, sell, Order, is_fill_and_kill}
use osborne_x.Orderbook.Levels.{Level, push_order}
use osborne_x.Orderbook.Book.{Orderbook, levels_of, contains, can_match}
use osborne_x.Orderbook.Matching.{match_loop, match_orders, level_count}
use osborne_x.Orderbook.Operations.{price_market, opposite, insert_order, add_order}
use osborne_x.Orderbook.Exhaust.{IsUncrossed}
use osborne_x.Orderbook.Filing.{IsFiled, entered-IsFiled}
use osborne_x.Orderbook.Rounds.{IsPricedAs}
use osborne_x.Orderbook.Tallied.{insert_order-IsIndexed}
use osborne_x.Orderbook.Uncrossed.{AreApart}
use osborne_x.Orderbook.Tally.{IsKept}
use osborne_x.Orderbook.Everywhere.{Everywhere}
use osborne_x.Orderbook.Patient.{IsPatient, IsCalm}
use osborne_x.Orderbook.Admission.{is_admitted, add_order_admits}
use osborne_x.Orderbook.FillAndKill.{IsKilled, round_buy, round_sell}

-- The new level of an order that crosses the best price of the other side comes first.
pub push_order-leads_buy :
    (p : Price) (o : Order) (ls : List Level) (k : Level) (ks : List Level)
    → IsUncrossed ls (k ∷ ks)
    → le_price k.price p ≡ true
    → push_order buy p o ls ≡ record { price = p; orders = o ∷ [] } ∷ ls
unfolding push_order
push_order-leads_buy p o [] k ks h c = refl
push_order-leads_buy p o (l ∷ ls) k ks h c = ground arith

pub push_order-leads_sell :
    (p : Price) (o : Order) (l : Level) (ls ks : List Level)
    → IsUncrossed (l ∷ ls) ks
    → le_price p l.price ≡ true
    → push_order sell p o ks ≡ record { price = p; orders = o ∷ [] } ∷ ks
unfolding push_order
push_order-leads_sell p o l ls [] h c = refl
push_order-leads_sell p o l ls (k ∷ ks) h c = ground arith

pub match_orders-first :
    (b : Orderbook) → 0 < level_count b → match_orders b ≡ match_loop (suc (level_count b - 1)) b []
unfolding match_orders
match_orders-first b h =
    let more : level_count b ≡ suc (level_count b - 1) = omega arith in
    ap (λ n. match_loop n b []) more

pub entered-levels :
    (s : Side) (o : Order) (b : Orderbook)
    → o.side ≡ s
    → (levels_of s (insert_order o b) ≡ push_order s o.price o (levels_of s b))
      × (levels_of (opposite s) (insert_order o b) ≡ levels_of (opposite s) b)
unfolding insert_order
entered-levels buy o b e = (ground arith, ground arith)
entered-levels sell o b e = (ground arith, ground arith)

-- The round after a fill-and-kill order has entered the bids.
entered_buy :
    (o : Order) (b : Orderbook) (k : Level) (ks : List Level)
    → o.side ≡ buy
    → IsKept (insert_order o b)
    → is_fill_and_kill o.order_type ≡ true
    → IsCalm b
    → AreApart b
    → b.asks ≡ k ∷ ks
    → can_match buy o.price b ≡ true
    → IsKilled buy b.bids k ks o.remaining_quantity (match_orders (insert_order o b))
unfolding can_match
entered_buy o b k ks s v kill calm apart e c =
    let b' = insert_order o b in
    let crossed : le_price k.price o.price ≡ true = rw e at c in
    let uncrossed : IsUncrossed b.bids (k ∷ ks) = rw e at apart in
    let l : Level = record { price = o.price; orders = o ∷ [] } in
    let bids : b'.bids ≡ l ∷ b.bids =
      (entered-levels buy o b s).0 ∙ push_order-leads_buy o.price o b.bids k ks uncrossed crossed in
    let asks : b'.asks ≡ k ∷ ks = (entered-levels buy o b s).1 ∙ e in
    let some_level : 0 < level_count b' = omega (arith, ap length bids) in
    subst (IsKilled buy b.bids k ks o.remaining_quantity) (sym (match_orders-first b' some_level)) (
      round_buy (level_count b' - 1) b' o l b.bids k ks v bids asks refl kill calm.bids
        (subst (Everywhere IsPatient) e calm.asks) (ground arith) uncrossed)

-- The round after a fill-and-kill order has entered the asks.
entered_sell :
    (o : Order) (b : Orderbook) (l : Level) (ls : List Level)
    → o.side ≡ sell
    → IsKept (insert_order o b)
    → is_fill_and_kill o.order_type ≡ true
    → IsCalm b
    → AreApart b
    → b.bids ≡ l ∷ ls
    → can_match sell o.price b ≡ true
    → IsKilled sell b.asks l ls o.remaining_quantity (match_orders (insert_order o b))
unfolding can_match
entered_sell o b l ls s v kill calm apart e c =
    let b' = insert_order o b in
    let crossed : le_price o.price l.price ≡ true = rw e at c in
    let uncrossed : IsUncrossed (l ∷ ls) b.asks = rw e at apart in
    let k : Level = record { price = o.price; orders = o ∷ [] } in
    let asks : b'.asks ≡ k ∷ b.asks =
      (entered-levels sell o b s).0
      ∙ push_order-leads_sell o.price o l ls b.asks uncrossed crossed in
    let bids : b'.bids ≡ l ∷ ls = (entered-levels sell o b s).1 ∙ e in
    let some_level : 0 < level_count b' = omega (arith, ap length bids) in
    subst (IsKilled sell b.asks l ls o.remaining_quantity) (sym (match_orders-first b' some_level))
      (round_sell (level_count b' - 1) b' o l ls k b.asks v bids asks refl kill
        (subst (Everywhere IsPatient) e calm.bids) calm.asks (ground arith) uncrossed)

entered-IsKilled :
    (s : Side) (o : Order) (b : Orderbook) (k : Level) (ks : List Level)
    → o.side ≡ s
    → IsKept (insert_order o b)
    → is_fill_and_kill o.order_type ≡ true
    → IsCalm b
    → AreApart b
    → levels_of (opposite s) b ≡ k ∷ ks
    → can_match s o.price b ≡ true
    → IsKilled s (levels_of s b) k ks o.remaining_quantity (match_orders (insert_order o b))
entered-IsKilled buy o b k ks s v kill calm apart e c = entered_buy o b k ks s v kill calm apart e c
entered-IsKilled sell o b k ks s v kill calm apart e c =
    entered_sell o b k ks s v kill calm apart e c

-- Where an order matches, the other side has a level.
pub matched-side :
    (s : Side) (o : Order) (b : Orderbook)
    → can_match s o.price b ≡ true
    → (k : Level) × (ks : List Level) × (levels_of (opposite s) b ≡ k ∷ ks)
unfolding can_match
matched-side buy o b h = elim (List-cases b.asks) [ inl e ↦ absurd (ground arith) | inr x ↦ x ]
matched-side sell o b h = elim (List-cases b.bids) [ inl e ↦ absurd (ground arith) | inr x ↦ x ]

unpriced-same :
    (b : Orderbook) (o o' : Order)
    → IsPricedAs b o o'
    → is_fill_and_kill o.order_type ≡ true
    → o ≡ o'
unfolding price_market
unpriced-same b o o' p h = ground arith

pub admitted-crosses :
    (o : Order) (b : Orderbook)
    → is_admitted o b ≡ true
    → is_fill_and_kill o.order_type ≡ true
    → (contains o.order_id b.orders ≡ false) × (can_match o.side o.price b ≡ true)
admitted-crosses o b a h = ground arith

-- A fill-and-kill order that is let in meets the best level of the other side: it trades the smaller of
-- the two volumes with it, and nothing with the levels behind it, whatever is left of the order then.
-- Its own side has the levels that it had before, and no fill-and-kill order rests in the book. The book
-- is filed, indexed, not crossed and without fill-and-kill orders, and the order has a price.
pub add_order-IsKilled :
    (o : Order) (b : Orderbook) (k : Level) (ks : List Level)
    → is_fill_and_kill o.order_type ≡ true
    → is_admitted o b ≡ true
    → levels_of (opposite o.side) b ≡ k ∷ ks
    → 0 < o.price
    → IsKept b
    → AreApart b
    → IsCalm b
    → IsKilled o.side (levels_of o.side b) k ks o.remaining_quantity (add_order o b)
add_order-IsKilled o b k ks h a e p (v, x) apart calm =
    let (new, crossed) = admitted-crosses o b a h in
    add_order_admits (IsKilled o.side (levels_of o.side b) k ks o.remaining_quantity) o b
      (λ r. absurd cc)
      (λ o' _ q.
        let same : o ≡ o' = unpriced-same b o o' q h in
        let kept : IsKept (insert_order o b) = (
          subst (λ (n : Order). IsFiled (insert_order n b)) (sym same)
              (entered-IsFiled o o' b (inl p) v q),
          insert_order-IsIndexed o b new p v x,
        ) in
        subst
          (λ (n : Order).
            IsKilled o.side (levels_of o.side b) k ks o.remaining_quantity
              (match_orders (insert_order n b)))
          same (entered-IsKilled o.side o b k ks refl kept h calm apart e crossed))
