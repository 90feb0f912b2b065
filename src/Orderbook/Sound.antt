-- ===== src/Orderbook/Sound.antt =====
-- What every member of Orderbook/src/orderbook.cpp keeps of a book.
use osborne_x.Base.{ℕ, ◌<◌, ◌≡◌, inl, inr, true, arith, Bool-cases}
use osborne_x.Orderbook.Types.{Order, OrderModify, is_fill_and_kill, to_order}
use osborne_x.Orderbook.Book.{Orderbook, empty_book, cancel_order}
use osborne_x.Orderbook.Operations.{add_order, modify_order}
use osborne_x.Orderbook.Filing.{
  IsFiled, IsPriced, empty-IsFiled, cancel_order-IsFiled, add_order-IsFiled,
}
use osborne_x.Orderbook.Rounds.{modify_order_cases}
use osborne_x.Orderbook.Index.{IsIndexed}
use osborne_x.Orderbook.Indexed.{cancel_order-IsIndexed}
use osborne_x.Orderbook.Tallied.{empty-IsIndexed, add_order-IsIndexed}
use osborne_x.Orderbook.Uncrossed.{AreApart, cancel_order-AreApart, add_order-AreApart}
use osborne_x.Orderbook.Everywhere.{cancel_order-AllOrders}
use osborne_x.Orderbook.Patient.{IsPatient, IsCalm}
use osborne_x.Orderbook.Admission.{is_admitted, add_order_admits}
use osborne_x.Orderbook.Conserving.{add_order-Balances}
use osborne_x.Orderbook.Immediate.{matched-side, admitted-crosses, add_order-IsKilled}

pub record IsSound (b : Orderbook) : Type 0 where
  pub filed : IsFiled b
  pub indexed : IsIndexed b
  pub apart : AreApart b
  pub calm : IsCalm b

pub empty-IsSound : IsSound empty_book
empty-IsSound = record {
  filed = empty-IsFiled;
  indexed = empty-IsIndexed;
  apart = tt;
  calm = record { bids = tt; asks = tt };
}

immediate-price : (o : Order) → IsPriced o → is_fill_and_kill o.order_type ≡ true → 0 < o.price
immediate-price o (inl h) k = h
immediate-price o (inr h) k = absurd (ground arith)

immediate-IsCalm :
    (o : Order) (b : Orderbook)
    → IsPriced o
    → is_fill_and_kill o.order_type ≡ true
    → IsSound b
    → IsCalm (add_order o b).0
immediate-IsCalm o b h kill v = elim (Bool-cases (is_admitted o b)) [
  | inl a ↦
      let (k, ks, e) = matched-side o.side o b (admitted-crosses o b a kill).1 in
      (add_order-IsKilled o b k ks kill a e (immediate-price o h kill) (v.filed, v.indexed) v.apart
        v.calm).patient
  | inr a ↦ add_order_admits (λ r. IsCalm r.0) o b (λ _. v.calm) (λ o' r _. absurd cc)
]

-- `AddOrder` keeps a book sound: sorted and filed right, in step with its index, not crossed, and without
-- a fill-and-kill order. The order has a price or is a market order.
pub add_order-IsSound :
    (o : Order) (b : Orderbook) → IsPriced o → IsSound b → IsSound (add_order o b).0
add_order-IsSound o b h v = record {
  filed = add_order-IsFiled o b h v.filed;
  indexed = add_order-IsIndexed o b h v.filed v.indexed;
  apart = add_order-AreApart o b v.apart;
  calm = elim (Bool-cases (is_fill_and_kill o.order_type)) [
    | inl k ↦ immediate-IsCalm o b h k v
    | inr k ↦ (add_order-Balances o b k v.calm).1
  ];
}

pub cancel_order-IsSound : (i : ℕ) (b : Orderbook) → IsSound b → IsSound (cancel_order i b)
cancel_order-IsSound i b v = record {
  filed = cancel_order-IsFiled i b v.filed;
  indexed = cancel_order-IsIndexed i b v.filed v.indexed;
  apart = cancel_order-AreApart i b v.filed v.apart;
  calm = cancel_order-AllOrders IsPatient i b v.calm;
}

pub modify_order-IsSound :
    (m : OrderModify) (b : Orderbook) → 0 < m.price → IsSound b → IsSound (modify_order m b).0
modify_order-IsSound m b h v =
    modify_order_cases (λ r. IsSound r.0) m b v
      (λ e _.
        add_order-IsSound (to_order m e.order_type) (cancel_order m.order_id b) (inl h)
          (cancel_order-IsSound m.order_id b v))
