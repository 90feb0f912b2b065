-- ===== src/Orderbook/Filling.antt =====
-- How much an order trades when it enters a book of Orderbook/src/orderbook.cpp.
use osborne_x.Base.{ℕ, ◌≡◌, refl, sym, subst, ap, ◌∙◌, inl, inr, true, List, [], ◌∷◌, arith, min}
use osborne_x.Base.Price.{Price, le_price}
use osborne_x.Orderbook.Types.{buy, sell, Order, Trade}
use osborne_x.Orderbook.Levels.{Level}
use osborne_x.Orderbook.Book.{Orderbook}
use osborne_x.Orderbook.Matching.{match_orders}
use osborne_x.Orderbook.Operations.{insert_order}
use osborne_x.Orderbook.Exhaust.{IsUncrossed, match_orders-uncrosses}
use osborne_x.Orderbook.Sorted.{AreLevels}
use osborne_x.Orderbook.Filing.{IsFiled}
use osborne_x.Orderbook.Rounds.{match_orders-kills}
use osborne_x.Orderbook.Uncrossed.{AreApart}
use osborne_x.Orderbook.Everywhere.{insert_order-AllOrders}
use osborne_x.Orderbook.Patient.{IsPatient, IsCalm, kill_front-IsCalm, levels_of-IsCalm}
use osborne_x.Orderbook.Priority.{traded}
use osborne_x.Orderbook.Immediate.{push_order-leads_buy, push_order-leads_sell, entered-levels}
use osborne_x.Orderbook.Reach.{reach, reach-far_buy, reach-far_sell}
use osborne_x.Orderbook.Buying.{FillsBuy, settle-FillsBuy}
use osborne_x.Orderbook.Selling.{FillsSell, settle-FillsSell}

pub far_asks :
    (p : Price) (asks : List Level)
    → AreLevels sell asks
    → IsUncrossed (record { price = p; orders = [] } ∷ []) asks
    → reach buy p asks ≡ 0
far_asks p [] v h = refl
far_asks p (k ∷ ks) v h = reach-far_buy p k ks h v.sorted

pub far_bids :
    (p : Price) (bids : List Level)
    → AreLevels buy bids
    → IsUncrossed bids (record { price = p; orders = [] } ∷ [])
    → reach sell p bids ≡ 0
far_bids p [] v h = refl
far_bids p (l ∷ ls) v h = reach-far_sell p l ls h v.sorted

-- Where `MatchOrders` ends, the order has traded all of it, or nothing more is in its reach.
done_buy :
    (p : Price) (q n : ℕ) (old : List Level) (b : Orderbook) (ts : List Trade)
    → FillsBuy p q n old b ts
    → AreApart b
    → traded ts ≡ min q n
done_buy p q n old b ts v apart = elim v.front [
  | inl (_, t) ↦ ground (arith, v.reached)
  | inr (o, g, h) ↦
      let far : IsUncrossed (record { price = p; orders = [] } ∷ []) b.asks =
        alone o b.asks (subst (λ us. IsUncrossed us b.asks) g apart) in
      ground (arith, v.reached, far_asks p b.asks v.filed.asks far)
]
  where
    alone :
        (o : Order) (asks : List Level)
        → IsUncrossed (record { price = p; orders = o ∷ [] } ∷ old) asks
        → IsUncrossed (record { price = p; orders = [] } ∷ []) asks
    alone o [] h = tt
    alone o (k ∷ ks) h = h

done_sell :
    (p : Price) (q n : ℕ) (old : List Level) (b : Orderbook) (ts : List Trade)
    → FillsSell p q n old b ts
    → AreApart b
    → traded ts ≡ min q n
done_sell p q n old b ts v apart = elim v.front [
  | inl (_, t) ↦ ground (arith, v.reached)
  | inr (o, g, h) ↦
      let far : IsUncrossed b.bids (record { price = p; orders = [] } ∷ []) =
        alone o b.bids (subst (λ us. IsUncrossed b.bids us) g apart) in
      ground (arith, v.reached, far_bids p b.bids v.filed.bids far)
]
  where
    alone :
        (o : Order) (bids : List Level)
        → IsUncrossed bids (record { price = p; orders = o ∷ [] } ∷ old)
        → IsUncrossed bids (record { price = p; orders = [] } ∷ [])
    alone o [] h = tt
    alone o (k ∷ ks) h = h

-- An order that matches, from the book that it has entered.
pub crossing_buy :
    (o : Order) (b : Orderbook) (k : Level) (ks : List Level)
    → o.side ≡ buy
    → IsPatient o
    → IsFiled (insert_order o b)
    → IsCalm b
    → AreApart b
    → b.asks ≡ k ∷ ks
    → le_price k.price o.price ≡ true
    → traded (match_orders (insert_order o b)).1
      ≡ min o.remaining_quantity (reach buy o.price b.asks)
crossing_buy o b k ks s patient v calm apart e c =
    let b' = insert_order o b in
    let q = o.remaining_quantity in
    let n = reach buy o.price b.asks in
    let uncrossed : IsUncrossed b.bids (k ∷ ks) = rw e at apart in
    let bids : b'.bids ≡ record { price = o.price; orders = o ∷ [] } ∷ b.bids =
      (entered-levels buy o b s).0 ∙ push_order-leads_buy o.price o b.bids k ks uncrossed c in
    let asks : b'.asks ≡ b.asks = (entered-levels buy o b s).1 in
    let start : FillsBuy o.price q n b.bids b' [] = record {
      filed = v;
      calm = insert_order-AllOrders IsPatient o b patient calm;
      front = inr (o, bids, omega arith);
      reached = omega (arith, ap (reach buy o.price) asks);
      apart = subst (IsUncrossed b.bids) (sym asks) apart;
    } in
    let done =
      match_orders-kills (FillsBuy o.price q n b.bids) (settle-FillsBuy o.price q n b.bids)
        (λ t d trades h.
          subst (λ (x : Orderbook). FillsBuy o.price q n b.bids x trades)
            (sym (kill_front-IsCalm t d (levels_of-IsCalm t d h.calm))) h)
        b' start in
    done_buy o.price q n b.bids _ _ done (match_orders-uncrosses b')

pub crossing_sell :
    (o : Order) (b : Orderbook) (l : Level) (ls : List Level)
    → o.side ≡ sell
    → IsPatient o
    → IsFiled (insert_order o b)
    → IsCalm b
    → AreApart b
    → b.bids ≡ l ∷ ls
    → le_price o.price l.price ≡ true
    → traded (match_orders (insert_order o b)).1
      ≡ min o.remaining_quantity (reach sell o.price b.bids)
crossing_sell o b l ls s patient v calm apart e c =
    let b' = insert_order o b in
    let q = o.remaining_quantity in
    let n = reach sell o.price b.bids in
    let uncrossed : IsUncrossed (l ∷ ls) b.asks = rw e at apart in
    let asks : b'.asks ≡ record { price = o.price; orders = o ∷ [] } ∷ b.asks =
      (entered-levels sell o b s).0 ∙ push_order-leads_sell o.price o l ls b.asks uncrossed c in
    let bids : b'.bids ≡ b.bids = (entered-levels sell o b s).1 in
    let start : FillsSell o.price q n b.asks b' [] = record {
      filed = v;
      calm = insert_order-AllOrders IsPatient o b patient calm;
      front = inr (o, asks, omega arith);
      reached = omega (arith, ap (reach sell o.price) bids);
      apart = subst (λ us. IsUncrossed us b.asks) (sym bids) apart;
    } in
    let done =
      match_orders-kills (FillsSell o.price q n b.asks) (settle-FillsSell o.price q n b.asks)
        (λ t d trades h.
          subst (λ (x : Orderbook). FillsSell o.price q n b.asks x trades)
            (sym (kill_front-IsCalm t d (levels_of-IsCalm t d h.calm))) h)
        b' start in
    done_sell o.price q n b.asks _ _ done (match_orders-uncrosses b')
