-- ===== src/Sharding/Tops.antt =====
-- The update of the top of a book that `process` of Sharding/src/shard.cpp makes.
use osborne_x.Base.{
  ℕ, ◌%◌, ◌<◌, ◌≡◌, refl, sym, ap, subst, ◌∙◌, List, [], ◌∷◌, map, Option, none, some, arith,
  lookup, insert, lookup-insert,
}
use osborne_x.Base.Price.{Price, invalid_price}
use osborne_x.Messages.{OrderMessage, TopOfBookUpdate}
use osborne_x.Orderbook.Types.{Side, buy, sell}
use osborne_x.Orderbook.Levels.{Level}
use osborne_x.Orderbook.LevelData.{word}
use osborne_x.Orderbook.Book.{Orderbook, empty_book}
use osborne_x.Orderbook.Operations.{create_level_info, get_order_infos}
use osborne_x.Orderbook.Exhaust.{IsUncrossed}
use osborne_x.Orderbook.Sorted.{AreLevels}
use osborne_x.Orderbook.Tops.{IsBest, depth, first-IsBest, create_level_info-volume}
use osborne_x.Orderbook.Sound.{IsSound}
use osborne_x.Sharding.Shard.{
  Shard, book_of, apply_action, process, update_of, make_top_of_book, top_of, front_info,
}
use osborne_x.Sharding.Books.{HasPrice, AreSound, apply_action-IsSound, lookup_or-IsSound}

-- A price and a quantity tell the best of a side: all that rests at its best price, in a 32-bit word, or
-- nothing at no price.
pub data Tells (s : Side) (ls : List Level) (p : Price) (q : ℕ) : Type 0 where
  nothing : ls ≡ [] → p ≡ invalid_price → q ≡ 0 → Tells s ls p q
  best :
      0 < p
      → IsBest s p ls
      → (l : Level) × (rest : List Level) × (ls ≡ l ∷ rest) × (l.price ≡ p)
      → q ≡ depth p ls % word
      → Tells s ls p q

-- What an update is to tell of a book: the best of each side; and where both have one, they do not cross.
pub record IsTop (b : Orderbook) (u : TopOfBookUpdate) : Type 0 where
  pub bid : Tells buy b.bids u.bid_price u.bid_quantity
  pub ask : Tells sell b.asks u.ask_price u.ask_quantity
  pub apart : 0 < u.bid_price → 0 < u.ask_price → u.bid_price < u.ask_price

tells :
    (s : Side) (ls : List Level)
    → AreLevels s ls
    → let i = front_info (map create_level_info ls) in Tells s ls i.price i.quantity
unfolding front_info create_level_info
tells s [] v = nothing refl refl refl
tells s (l ∷ ls) v =
    let (top, all) = first-IsBest s l ls v.sorted in
    best v.levels.0.0 top (l, ls, refl, refl)
      (create_level_info-volume l ∙ ap (λ n. n % word) (sym all))

-- The prices of the two front levels do not cross.
fronts_apart :
    (bids asks : List Level)
    → IsUncrossed bids asks
    → let i = front_info (map create_level_info bids) in
      let j = front_info (map create_level_info asks) in
      0 < i.price → 0 < j.price → i.price < j.price
unfolding front_info create_level_info
fronts_apart [] asks h p q = absurd (omega arith)
fronts_apart (l ∷ ls) [] h p q = absurd (omega arith)
fronts_apart (l ∷ ls) (k ∷ ks) h p q = ground arith

top_of-IsTop : (symbol n : ℕ) (b : Orderbook) → IsSound b → IsTop b (top_of symbol n (some b))
unfolding top_of get_order_infos
top_of-IsTop symbol n b v = record {
  bid = tells buy b.bids v.filed.bids;
  ask = tells sell b.asks v.filed.asks;
  apart = fronts_apart b.bids b.asks v.apart;
}

-- The update that `process` makes of the top of the message's book tells the best bid and the best ask
-- that rest in that book afterwards, each with all that rests at its price, as a 32-bit word, or that a
-- side is empty; and the two prices do not cross. The message names a price that is no NaN, where it is
-- to be read, and the books are sound.
pub process-IsTop :
    (m : OrderMessage) (s : Shard)
    → HasPrice m.action m
    → AreSound s.books
    → IsTop (book_of m.symbol (process m s)) (update_of m s)
unfolding process make_top_of_book
process-IsTop m s h v =
    let b = book_of m.symbol s in
    let b' = (apply_action m.action m b).0 in
    let sound : IsSound b' =
      (apply_action-IsSound m.action m b h (lookup_or-IsSound m.symbol s.books v)).0 in
    let at : lookup m.symbol (insert m.symbol b' s.books) ≡ some b' =
      ground (arith, lookup-insert m.symbol m.symbol b' s.books) in
    let book : book_of m.symbol (process m s) ≡ b' =
      ap (λ (o : Option Orderbook). elim o as (λ _. Orderbook) [ none ↦ empty_book | some c ↦ c ])
        at in
    subst (λ (c : Orderbook). IsTop c (update_of m s)) (sym book)
      (subst (IsTop b') (sym (ap (top_of m.symbol m.ingress_sequence) at))
        (top_of-IsTop m.symbol m.ingress_sequence b' sound))
