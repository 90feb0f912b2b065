-- ===== src/Orderbook/Released.antt =====
-- The aggregates of Orderbook/src/orderbook.cpp after an order left.
use osborne_x.Base.{
  ℕ, suc, ◌+◌, ◌-◌, ◌%◌, ◌<◌, ◌≡◌, ◌≢◌, refl, sym, ◌⊎◌, inl, inr, [], ◌∷◌, arith, if◌then◌else◌,
  ◌==◌, Bool-cases,
}
use osborne_x.Base.Price.{Price, eq_price}
use osborne_x.Orderbook.Types.{Order}
use osborne_x.Orderbook.LevelData.{
  LevelData, LevelDataMap, word, data_at, put_data, erase_data, next_count, next_quantity,
  update_level_data,
}
use osborne_x.Orderbook.Book.{on_order_cancelled}

-- How many aggregates a price has.
abbrev pub key_count : Price → LevelDataMap → ℕ
key_count p [] = 0
key_count p ((k, d) ∷ m) = if k == p then suc (key_count p m) else key_count p m

-- The aggregates after an order left: at its price one order less, and its remaining quantity less, both
-- modulo 2 to the power of 32. Where no order is left an entry is gone. At other prices nothing changes.
pub record IsReleased (o : Order) (m m' : LevelDataMap) : Type 0 where
  pub elsewhere :
      (p : Price) → p ≢ o.price → (data_at p m' ≡ data_at p m) × (key_count p m' ≡ key_count p m)
  pub here :
      let d = data_at o.price m in
      let left = (d.count + word - 1) % word in
      ((left ≡ 0) × (key_count o.price m' ≡ key_count o.price m - 1))
      ⊎ ((left ≢ 0)
          × (data_at o.price m' ≡ record {
            quantity = (d.quantity + word - o.remaining_quantity) % word;
            count = left;
          }))

data_at-put_data :
    (p q : Price) (d : LevelData) (m : LevelDataMap)
    → 0 < p
    → data_at q (put_data p d m) ≡ (if eq_price p q then d else data_at q m)
unfolding data_at put_data
data_at-put_data p q d [] h = ground arith
data_at-put_data p q d ((k, e) ∷ m) h = ground (arith, data_at-put_data p q d m h)

key_count-put_data :
    (p q : Price) (d : LevelData) (m : LevelDataMap)
    → 0 < p
    → p ≢ q
    → key_count q (put_data p d m) ≡ key_count q m
unfolding put_data
key_count-put_data p q d [] h e = ground arith
key_count-put_data p q d ((k, c) ∷ m) h e = ground (arith, key_count-put_data p q d m h e)

data_at-erase_data :
    (p q : Price) (m : LevelDataMap) → 0 < p → p ≢ q → data_at q (erase_data p m) ≡ data_at q m
unfolding data_at erase_data
data_at-erase_data p q [] h e = refl
data_at-erase_data p q ((k, c) ∷ m) h e = ground (arith, data_at-erase_data p q m h e)

key_count-erase_data :
    (p q : Price) (m : LevelDataMap)
    → 0 < p
    → key_count q (erase_data p m) ≡ (if p == q then key_count q m - 1 else key_count q m)
unfolding erase_data
key_count-erase_data p q [] h = ground arith
key_count-erase_data p q ((k, c) ∷ m) h = ground (arith, key_count-erase_data p q m h)

pub update-IsReleased :
    (o : Order) (m : LevelDataMap) → 0 < o.price → IsReleased o m (on_order_cancelled o m)
unfolding on_order_cancelled update_level_data next_count next_quantity
update-IsReleased o m h =
    let d = data_at o.price m in
    let left : LevelData = record {
      quantity = (d.quantity + word - o.remaining_quantity) % word;
      count = (d.count + word - 1) % word;
    } in
    elim (Bool-cases ((d.count + word - 1) % word == 0)) [
      | inl e ↦ rw e (record {
        elsewhere = λ p n. (
          data_at-erase_data o.price p m h (λ f. n (sym f)),
          ground (arith, key_count-erase_data o.price p m h),
        );
        here = inl (ground arith, ground (arith, key_count-erase_data o.price o.price m h));
      })
      | inr e ↦ rw e (record {
        elsewhere = λ p n. (
          ground (arith, data_at-put_data o.price p left m h),
          key_count-put_data o.price p left m h (λ f. n (sym f)),
        );
        here = inr (ground arith, ground (arith, data_at-put_data o.price o.price left m h));
      })
    ]
