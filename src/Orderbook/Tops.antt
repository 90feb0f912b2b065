-- ===== src/Orderbook/Tops.antt =====
-- `GetOrderInfos` of Orderbook/src/orderbook.cpp against the orders that rest in the book.
use osborne_x.Base.{
  ℕ, ◌+◌, ◌%◌, ◌<◌, ◌≤◌, ◌≡◌, refl, List, [], ◌∷◌, All, arith, if◌then◌else◌, ◌==◌,
}
use osborne_x.Base.Price.{Price}
use osborne_x.Orderbook.Types.{Side, buy, sell, Order}
use osborne_x.Orderbook.Levels.{Level}
use osborne_x.Orderbook.LevelData.{word}
use osborne_x.Orderbook.Operations.{accumulate, create_level_info}
use osborne_x.Orderbook.Sorted.{Chain, Chain-mono, IsSorted}
use osborne_x.Orderbook.Priority.{volume}
use osborne_x.Orderbook.Index.{before_ne}

accumulate-volume :
    (sum : ℕ) (os : List Order) → sum < word → accumulate sum os ≡ (sum + volume os) % word
unfolding accumulate
accumulate-volume sum [] h = omega arith
accumulate-volume sum (o ∷ os) h =
    omega (arith, accumulate-volume ((sum + o.remaining_quantity) % word) os (omega arith))

pub create_level_info-volume : (l : Level) → (create_level_info l).quantity ≡ volume l.orders % word
unfolding create_level_info
create_level_info-volume l = omega (arith, accumulate-volume 0 l.orders (omega arith))

-- What rests at a price.
abbrev pub depth : Price → List Level → ℕ
depth p [] = 0
depth p (l ∷ ls) = (if l.price == p then volume l.orders else 0) + depth p ls

depth-Chain : (s : Side) (p : Price) (ls : List Level) → Chain s p ls → depth p ls ≡ 0
depth-Chain s p [] c = refl
depth-Chain s p (l ∷ ls) c =
    ground
      (arith, before_ne s p l.price c.0, depth-Chain s p ls (Chain-mono s p l.price ls c.0 c.1))

-- No level of a side is better than a price.
abbrev pub IsBest : Side → Price → List Level → Type 0
IsBest buy p ls = All (λ (l : Level). l.price ≤ p) ls
IsBest sell p ls = All (λ (l : Level). p ≤ l.price) ls

Chain-IsBest : (s : Side) (p : Price) (ls : List Level) → Chain s p ls → IsBest s p ls
Chain-IsBest buy p [] c = tt
Chain-IsBest buy p (l ∷ ls) c =
    (ground (arith, c.0), Chain-IsBest buy p ls (Chain-mono buy p l.price ls c.0 c.1))
Chain-IsBest sell p [] c = tt
Chain-IsBest sell p (l ∷ ls) c =
    (ground (arith, c.0), Chain-IsBest sell p ls (Chain-mono sell p l.price ls c.0 c.1))

-- The first level of a sorted side.
pub first-IsBest :
    (s : Side) (l : Level) (ls : List Level)
    → IsSorted s (l ∷ ls)
    → IsBest s l.price (l ∷ ls) × (depth l.price (l ∷ ls) ≡ volume l.orders)
first-IsBest buy l ls c =
    ((omega arith, Chain-IsBest buy l.price ls c), ground (arith, depth-Chain buy l.price ls c))
first-IsBest sell l ls c =
    ((omega arith, Chain-IsBest sell l.price ls c), ground (arith, depth-Chain sell l.price ls c))
