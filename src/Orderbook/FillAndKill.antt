-- ===== src/Orderbook/FillAndKill.antt =====
-- A fill-and-kill order in `AddOrder` of Orderbook/src/orderbook.cpp.
use osborne_x.Base.{
  ℕ, suc, ◌+◌, ◌≡◌, refl, sym, subst, ap, ◌∙◌, inl, inr, true, false, List, [], ◌∷◌, some, arith,
  length, min, All,
}
use osborne_x.Base.Price.{lt_price}
use osborne_x.Orderbook.Types.{Side, buy, sell, Order, Trade, fill, is_fill_and_kill}
use osborne_x.Orderbook.Levels.{Level, keep_level}
use osborne_x.Orderbook.Book.{Orderbook, entry_of, levels_of}
use osborne_x.Orderbook.Matching.{match_round, run_level, settle, kill_front, match_loop}
use osborne_x.Orderbook.Operations.{opposite}
use osborne_x.Orderbook.Exhaust.{IsUncrossed, run_level-exhausts}
use osborne_x.Orderbook.Sorted.{AreLevels}
use osborne_x.Orderbook.Standing.{match_level-All}
use osborne_x.Orderbook.Uncrossed.{AreApart, keep_level-bids, keep_level-asks, match_loop-AreApart}
use osborne_x.Orderbook.Tally.{IsKept, settle-IsKept}
use osborne_x.Orderbook.Everywhere.{Everywhere, keep_level-Everywhere}
use osborne_x.Orderbook.Patient.{IsPatient, IsCalm, kill_front-IsCalm}
use osborne_x.Orderbook.Priority.{volume, traded}
use osborne_x.Orderbook.Volume.{volume-match_level}
use osborne_x.Orderbook.Killing.{Holds, run_level-Holds, kill_front-clears}

fill-IsPatient_alone : (o : Order) (q : ℕ) → IsPatient o → IsPatient (fill o q)
unfolding fill
fill-IsPatient_alone o q h = ground arith

All-Unit : (os : List Order) → All (λ (_ : Order). Unit {0}) os
All-Unit [] = tt
All-Unit (o ∷ os) = (tt, All-Unit os)

pub run_level-IsPatient_asks :
    (l k : Level) (b : Orderbook) (trades : List Trade)
    → All IsPatient k.orders
    → All IsPatient (run_level l k b trades).asks_at
unfolding run_level
run_level-IsPatient_asks l k b trades a =
    (match_level-All (λ (_ : Order). Unit {0}) IsPatient (λ o q h. tt) fill-IsPatient_alone _
      l.orders k.orders _ (All-Unit l.orders) a).1

pub run_level-IsPatient_bids :
    (l k : Level) (b : Orderbook) (trades : List Trade)
    → All IsPatient l.orders
    → All IsPatient (run_level l k b trades).bids_at
unfolding run_level
run_level-IsPatient_bids l k b trades a =
    (match_level-All IsPatient (λ (_ : Order). Unit {0}) fill-IsPatient_alone (λ o q h. tt) _
      l.orders k.orders _ a (All-Unit k.orders)).0

-- What the level of one order and another level trade: the smaller of the two volumes.
run_level-traded :
    (l k : Level) (b : Orderbook)
    → let m = run_level l k b [] in
      (volume m.asks_at + traded m.trades ≡ volume k.orders)
      × (volume m.bids_at + traded m.trades ≡ volume l.orders)
      × (traded m.trades ≡ min (volume l.orders) (volume k.orders))
unfolding run_level
run_level-traded l k b =
    let m = run_level l k b [] in
    let (x, y) =
      volume-match_level (length l.orders + length k.orders) l.orders k.orders
        (record { orders = b.orders; level_data = b.level_data; trades = [] }) in
    let x' : volume m.bids_at + traded m.trades ≡ volume l.orders = omega (arith, x) in
    let y' : volume m.asks_at + traded m.trades ≡ volume k.orders = omega (arith, y) in
    (
      y',
      x',
      elim (run_level-exhausts l k b []) [
        | inl e ↦ let gone : volume m.bids_at ≡ 0 = ap volume e in ground arith
        | inr e ↦ let gone : volume m.asks_at ≡ 0 = ap volume e in ground arith
      ],
    )

-- What becomes of a quantity that meets the best level `k` of the other side, before the levels `ks`, and
-- is killed then: its own side has the levels `ls` again, the other side loses what is traded from that
-- level only, and that is the smaller of the two volumes.
pub record IsKilled (s : Side) (ls : List Level) (k : Level) (ks : List Level) (q : ℕ)
    (r : Orderbook × List Trade) : Type 0 where
  pub own : levels_of s r.0 ≡ ls
  pub rest : List Order
  pub other : levels_of (opposite s) r.0 ≡ keep_level (record k { orders = rest }) ks
  pub left : volume rest + traded r.1 ≡ volume k.orders
  pub traded_once : traded r.1 ≡ min q (volume k.orders)
  pub patient : IsCalm r.0

match_round-some :
    (b : Orderbook) (l : Level) (ls : List Level) (k : Level) (ks : List Level)
    → lt_price l.price k.price ≡ false
    → let m = run_level l k b [] in
      match_round b [] (l ∷ ls) (k ∷ ks)
      ≡ some (kill_front sell (kill_front buy (settle l ls k ks m)), m.trades)
unfolding match_round
match_round-some b l ls k ks x = rw x refl

-- One round is all where it ends with the prices apart.
round-some :
    (fuel : ℕ) (b c : Orderbook) (l : Level) (ls : List Level) (k : Level) (ks : List Level)
    → b.bids ≡ l ∷ ls
    → b.asks ≡ k ∷ ks
    → lt_price l.price k.price ≡ false
    → kill_front sell (kill_front buy (settle l ls k ks (run_level l k b []))) ≡ c
    → AreApart c
    → match_loop (suc fuel) b [] ≡ (c, (run_level l k b []).trades)
unfolding match_loop
round-some fuel b c l ls k ks e f x y apart =
    let m = run_level l k b [] in
    let step : match_round b [] b.bids b.asks ≡ some (c, m.trades) =
      ap (λ us. match_round b [] us b.asks) e
      ∙ ap (λ us. match_round b [] (l ∷ ls) us) f
      ∙ match_round-some b l ls k ks x
      ∙ ap (λ (d : Orderbook). some (d, m.trades)) y in
    rw (step, match_loop) (match_loop-AreApart fuel c m.trades apart)

-- A fill-and-kill order that is alone at the best bid.
pub round_buy :
    (fuel : ℕ) (b : Orderbook) (o : Order) (l : Level) (ls : List Level) (k : Level)
    (ks : List Level)
    → IsKept b
    → b.bids ≡ l ∷ ls
    → b.asks ≡ k ∷ ks
    → l.orders ≡ o ∷ []
    → is_fill_and_kill o.order_type ≡ true
    → Everywhere IsPatient ls
    → Everywhere IsPatient (k ∷ ks)
    → lt_price l.price k.price ≡ false
    → IsUncrossed ls (k ∷ ks)
    → IsKilled buy ls k ks o.remaining_quantity (match_loop (suc fuel) b [])
unfolding settle
round_buy fuel b o l ls k ks v e f alone kill a c x apart =
    let m = run_level l k b [] in
    let settled = settle l ls k ks m in
    let one : Holds (entry_of o) m.bids_at =
      (run_level-Holds (entry_of o) l k b []).0 (inr (o, alone, refl)) in
    let cleared =
      kill_front-clears buy settled l ls m.bids_at (entry_of o) (settle-IsKept b [] l ls k ks e f v)
        refl one kill a in
    let asks' = keep_level (record k { orders = m.asks_at }) ks in
    let killed = kill_front buy settled in
    let patient : Everywhere IsPatient asks' =
      keep_level-Everywhere IsPatient _ ks (run_level-IsPatient_asks l k b [] c.0) c.1 in
    let bids : killed.bids ≡ ls = cleared.0 in
    let asks : killed.asks ≡ asks' = cleared.1 in
    let same : kill_front sell killed ≡ killed = kill_front-IsCalm sell killed (rw asks patient) in
    let sorted : AreLevels sell (k ∷ ks) = subst (AreLevels sell) f v.0.asks in
    let done =
      round-some fuel b killed l ls k ks e f x same
        (rw (bids, asks) (keep_level-asks ls k m.asks_at ks sorted.sorted apart)) in
    let (left, _, once) = run_level-traded l k b in
    subst (IsKilled buy ls k ks o.remaining_quantity) (sym done) (record {
      own = bids;
      rest = m.asks_at;
      other = asks;
      left = left;
      traded_once = once ∙ ap (λ os. min (volume os) (volume k.orders)) alone ∙ ground arith;
      patient = record { bids = rw bids a; asks = rw asks patient };
    })

-- A fill-and-kill order that is alone at the best ask.
pub round_sell :
    (fuel : ℕ) (b : Orderbook) (o : Order) (l : Level) (ls : List Level) (k : Level)
    (ks : List Level)
    → IsKept b
    → b.bids ≡ l ∷ ls
    → b.asks ≡ k ∷ ks
    → k.orders ≡ o ∷ []
    → is_fill_and_kill o.order_type ≡ true
    → Everywhere IsPatient (l ∷ ls)
    → Everywhere IsPatient ks
    → lt_price l.price k.price ≡ false
    → IsUncrossed (l ∷ ls) ks
    → IsKilled sell ks l ls o.remaining_quantity (match_loop (suc fuel) b [])
unfolding settle
round_sell fuel b o l ls k ks v e f alone kill a c x apart =
    let m = run_level l k b [] in
    let settled = settle l ls k ks m in
    let one : Holds (entry_of o) m.asks_at =
      (run_level-Holds (entry_of o) l k b []).1 (inr (o, alone, refl)) in
    let bids' = keep_level (record l { orders = m.bids_at }) ls in
    let patient : Everywhere IsPatient bids' =
      keep_level-Everywhere IsPatient _ ls (run_level-IsPatient_bids l k b [] a.0) a.1 in
    let untouched : kill_front buy settled ≡ settled = kill_front-IsCalm buy settled patient in
    let cleared =
      kill_front-clears sell settled k ks m.asks_at (entry_of o)
        (settle-IsKept b [] l ls k ks e f v) refl one kill c in
    let killed = kill_front sell settled in
    let asks : killed.asks ≡ ks = cleared.0 in
    let bids : killed.bids ≡ bids' = cleared.1 in
    let sorted : AreLevels buy (l ∷ ls) = subst (AreLevels buy) e v.0.bids in
    let done =
      round-some fuel b killed l ls k ks e f x (ap (kill_front sell) untouched)
        (rw (bids, asks) (keep_level-bids l m.bids_at ls ks sorted.sorted apart)) in
    let (_, left, once) = run_level-traded l k b in
    subst (IsKilled sell ks l ls o.remaining_quantity) (sym done) (record {
      own = asks;
      rest = m.bids_at;
      other = bids;
      left = left;
      traded_once = once ∙ ap (λ os. min (volume l.orders) (volume os)) alone ∙ ground arith;
      patient = record { bids = rw bids patient; asks = rw asks c };
    })
