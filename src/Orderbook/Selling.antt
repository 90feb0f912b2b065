-- ===== src/Orderbook/Selling.antt =====
-- The rounds of `MatchOrders` of Orderbook/src/orderbook.cpp in which a sell order fills.
use osborne_x.Base.{
  ℕ, ◌+◌, ◌<◌, ◌≡◌, refl, sym, subst, ap, ◌∙◌, inl, inr, true, List, [], ◌∷◌, arith,
}
use osborne_x.Base.Price.{Price, lt_price}
use osborne_x.Orderbook.Types.{buy, sell, Trade}
use osborne_x.Orderbook.Levels.{Level, keep_level}
use osborne_x.Orderbook.Book.{Orderbook, entry_of}
use osborne_x.Orderbook.Matching.{run_level, settle}
use osborne_x.Orderbook.Exhaust.{IsUncrossed}
use osborne_x.Orderbook.Sorted.{AreLevels}
use osborne_x.Orderbook.Filing.{IsFiled, settle-IsFiled}
use osborne_x.Orderbook.Rounds.{Settles}
use osborne_x.Orderbook.Uncrossed.{keep_level-bids}
use osborne_x.Orderbook.Everywhere.{settle-AllOrders}
use osborne_x.Orderbook.Patient.{IsPatient, IsCalm, fill-IsPatient}
use osborne_x.Orderbook.Priority.{volume, traded}
use osborne_x.Orderbook.Killing.{run_level-Holds}
use osborne_x.Orderbook.Reach.{reach, reach-keep_level, run_level-volumes, Front, Front-next}

pub record FillsSell (p : Price) (q n : ℕ) (old : List Level) (b : Orderbook) (trades : List Trade)
    : Type 0 where
  pub filed : IsFiled b
  pub calm : IsCalm b
  pub front : Front p q old b.asks trades
  pub reached : reach sell p b.bids + traded trades ≡ n
  pub apart : IsUncrossed b.bids old

pub settle-FillsSell : (p : Price) (q n : ℕ) (old : List Level) → Settles (FillsSell p q n old)
unfolding settle
settle-FillsSell p q n old b trades l ls k ks e f crossed v =
    let m = run_level l k b trades in
    let (xs, ys) = run_level-volumes l k b trades in
    let bids : AreLevels buy (l ∷ ls) = subst (AreLevels buy) e v.filed.bids in
    let asks : AreLevels sell (k ∷ ks) = subst (AreLevels sell) f v.filed.asks in
    let apart : IsUncrossed (l ∷ ls) old = rw e at v.apart in
    elim v.front [
      | inl (g, _) ↦
          let same : k ∷ ks ≡ old = sym f ∙ g in
          let far : lt_price l.price k.price ≡ true =
            subst (IsUncrossed (l ∷ ls)) (sym same) apart in
          absurd cc
      | inr (o, g, h) ↦
          let same : k ∷ ks ≡ record { price = p; orders = o ∷ [] } ∷ old = sym f ∙ g in
          let level : k ≡ record { price = p; orders = o ∷ [] } = cc in
          let behind : ks ≡ old = cc in
          let alone : k.orders ≡ o ∷ [] = ap (λ (x : Level). x.orders) level in
          let price : k.price ≡ p = ap (λ (x : Level). x.price) level in
          let one = (run_level-Holds (entry_of o) l k b trades).1 (inr (o, alone, refl)) in
          let positive : (0 < l.price) × (0 < k.price) = (bids.levels.0.0, asks.levels.0.0) in
          let reached : reach sell p (l ∷ ls) + traded trades ≡ n =
            ap (λ us. reach sell p us + traded trades) (sym e) ∙ v.reached in
          record {
            filed = settle-IsFiled b trades l ls k ks bids asks;
            calm =
                settle-AllOrders IsPatient fill-IsPatient b trades l ls k ks (rw e at v.calm.bids)
                  (rw f at v.calm.asks);
            front =
                subst
                  (λ (x : Level).
                    Front p q old (keep_level (record x { orders = m.asks_at }) ks) m.trades)
                  (sym level)
                  (subst
                    (λ us.
                      Front p q old (keep_level (record { price = p; orders = m.asks_at }) us)
                        m.trades)
                    (sym behind)
                    (Front-next p q old m.asks_at o m.trades one
                      (omega (arith, ys, h, ap volume alone))));
            reached = ground (
              arith,
              reached,
              xs,
              positive,
              price,
              reach-keep_level sell p (record l { orders = m.bids_at }) ls,
            );
            apart = keep_level-bids l m.bids_at ls old bids.sorted apart;
          }
    ]
