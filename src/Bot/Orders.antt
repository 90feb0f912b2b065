-- ===== src/Bot/Orders.antt =====
-- The orders that a strategy of Bot/src/random_strategy.cpp sends.
use osborne_x.Base.{
  ℕ, zero, suc, ◌+◌, ◌-◌, ◌%◌, ◌^◌, ◌≤◌, ◌<◌, ◌≡◌, refl, sym, ap, ◌∙◌, inl, inr, List, [], ◌∷◌,
  none, some, arith, length, get_elem?, lookup, Option-cases,
}
use osborne_x.Orderbook.Types.{good_till_cancel}
use osborne_x.Base.Price.{Price}
use osborne_x.Messages.{OrderMessage, add}
use osborne_x.Queue.RingBuffer.{word}
use osborne_x.Bot.{
  RandomStrategyOptions, RandomStrategy, Chance, make_strategy, local_id_bits, order_id_of,
  center_of, make_random_order,
}
use osborne_x.Bot.Center.{IsCenter, center_of-IsCenter}

get_elem?_inside :
    {A : Type 0} (xs : List A) (i : ℕ) → i < length xs → (x : A) × (get_elem? xs i ≡ some x)
get_elem?_inside [] i h = absurd (omega arith)
get_elem?_inside (x ∷ xs) zero h = (x, refl)
get_elem?_inside (x ∷ xs) (suc i) h = get_elem?_inside xs i (omega arith)

-- Ids of two sources of 16 bits are different, and so are those of two counters of 48 bits.
order_id_of-injective :
    (a b c d : ℕ)
    → a < 2 ^ 16
    → b < 2 ^ 16
    → c < 2 ^ local_id_bits
    → d < 2 ^ local_id_bits
    → order_id_of a c ≡ order_id_of b d
    → (a ≡ b) × (c ≡ d)
unfolding order_id_of
order_id_of-injective a b c d p q r s e = (omega arith, omega arith)

-- What is documented of an integer distribution.
pub record IsUniform {G : Type 0} (chance : Chance G) : Type 0 where
  pub within :
      (lo hi : ℕ) (g : G)
      → lo ≤ hi
      → (lo ≤ (chance.uniform lo hi g).0) × ((chance.uniform lo hi g).0 ≤ hi)

module _ {G : Type 0} (chance : Chance G) where
  -- The orders of so many rounds of `run`.
  unfoldable pub generate : ℕ → RandomStrategy G → List OrderMessage
  generate zero s = []
  generate (suc n) s = elim (make_random_order chance s) [
    | none ↦ []
    | some (m, s') ↦ m ∷ generate n s'
  ]

  -- What an order of a strategy is like. Its price is drawn around the center for its symbol.
  pub record IsRandom (s : RandomStrategy G) (m : OrderMessage) : Type 0 where
    pub listed : (i : ℕ) × (get_elem? s.options.symbols i ≡ some m.symbol)
    pub sized : (s.options.min_quantity ≤ m.quantity) × (m.quantity ≤ s.options.max_quantity)
    pub center : Price
    pub is_center :
        IsCenter chance (lookup m.symbol s.last_known_tops) s.options.default_price center
    pub priced : (g : G) × (m.price ≡ (chance.perturb center g).0)
    pub kind : (m.order_type ≡ good_till_cancel) × (m.action ≡ add)

  -- A strategy with symbols always makes an order: good till cancelled, for a symbol of its own, of a
  -- quantity within its bounds, and priced by a perturbation of a center. By the last update that it saw
  -- of that symbol, the center is the middle of the two prices, the price of the only side that is there,
  -- or the default where no side is or no update was seen. The bounds are in order, and so are the
  -- integers that are drawn.
  pub make_random_order-IsRandom :
      (s : RandomStrategy G)
      → IsUniform chance
      → 0 < length s.options.symbols
      → s.options.min_quantity ≤ s.options.max_quantity
      → (m : OrderMessage) × (s' : RandomStrategy G) × (make_random_order chance s ≡ some (m, s'))
        × IsRandom s m
  unfolding make_random_order
  make_random_order-IsRandom s u pos h =
      let drawn = u.within 0 (length s.options.symbols - 1) s.rng (omega arith) in
      let (symbol, e) =
        get_elem?_inside s.options.symbols (chance.uniform 0 (length s.options.symbols - 1) s.rng).0
          (omega (arith, drawn.1)) in
      rw (e, make_random_order)
        (
          _,
          _,
          refl,
          record {
            listed = (_, e);
            sized = u.within s.options.min_quantity s.options.max_quantity _ h;
            center = center_of chance (lookup symbol s.last_known_tops) s.options.default_price;
            is_center =
                center_of-IsCenter chance (lookup symbol s.last_known_tops) s.options.default_price;
            priced = (_, refl);
            kind = (refl, refl);
          },
        )

  make_random_order-id :
      (s s' : RandomStrategy G) (m : OrderMessage)
      → make_random_order chance s ≡ some (m, s')
      → (m.order_id ≡ order_id_of s.options.source s.next_order_id)
        × (s'.options ≡ s.options)
        × (s'.next_order_id ≡ (s.next_order_id + 1) % word)
  unfolding make_random_order
  make_random_order-id s s' m e =
      elim (Option-cases
        (get_elem? s.options.symbols (chance.uniform 0 (length s.options.symbols - 1) s.rng).0)) [
          | inl n ↦ absurd (ground arith)
          | inr (symbol, n) ↦ ground arith
        ]

  generate-next :
      (n i : ℕ) (s s' : RandomStrategy G) (m m' : OrderMessage)
      → s.next_order_id + suc n < word
      → make_random_order chance s ≡ some (m', s')
      → get_elem? (m' ∷ generate n s') i ≡ some m
      → ((k : ℕ)
          → get_elem? (generate n s') k ≡ some m
          → (m.order_id ≡ order_id_of s'.options.source (s'.next_order_id + k)) × (k < n))
      → (m.order_id ≡ order_id_of s.options.source (s.next_order_id + i)) × (i < suc n)
  generate-next n zero s s' m m' h p e ih =
      let (id, _, _) = make_random_order-id s s' m' p in
      let same : m' ≡ m = ground arith in
      (
        ap (λ (o : OrderMessage). o.order_id) (sym same)
            ∙ id
            ∙ ap (order_id_of s.options.source) (omega arith),
        omega arith,
      )
  generate-next n (suc i) s s' m m' h p e ih =
      let (_, options, next) = make_random_order-id s s' m' p in
      let (id, inside) = ih i e in
      let here : s'.next_order_id + i ≡ s.next_order_id + suc i = omega (arith, next) in
      (
        id
            ∙ ap (λ (o : RandomStrategyOptions). order_id_of o.source (s'.next_order_id + i))
                options
            ∙ ap (order_id_of s.options.source) here,
        omega (arith, inside),
      )

  generate-id :
      (n i : ℕ) (s : RandomStrategy G) (m : OrderMessage)
      → s.next_order_id + n < word
      → get_elem? (generate n s) i ≡ some m
      → (m.order_id ≡ order_id_of s.options.source (s.next_order_id + i)) × (i < n)
  unfolding generate
  generate-id zero i s m h e = cc
  generate-id (suc n) i s m h e = elim (Option-cases (make_random_order chance s)) [
    | inl p ↦ absurd (ground arith)
    | inr ((m', s'), p) ↦
        let (_, _, next) = make_random_order-id s s' m' p in
        generate-next n i s s' m m' h p (ground arith)
          (λ k f. generate-id n k s' m (omega (arith, next)) f)
  ]

  -- Two bots of different sources never send the same order id, and no bot sends one twice: where the ids
  -- of two orders are the same, they are of one source and of one round. Sources have 16 bits, and a bot sends fewer than
  -- 2 to the power of 48 orders.
  pub generate-distinct :
      (n n' i j : ℕ) (o o' : RandomStrategyOptions) (g g' : G) (m m' : OrderMessage)
      → o.source < 2 ^ 16
      → o'.source < 2 ^ 16
      → n + 1 < 2 ^ local_id_bits
      → n' + 1 < 2 ^ local_id_bits
      → get_elem? (generate n (make_strategy o g)) i ≡ some m
      → get_elem? (generate n' (make_strategy o' g')) j ≡ some m'
      → m.order_id ≡ m'.order_id
      → (o.source ≡ o'.source) × (i ≡ j)
  unfolding make_strategy
  generate-distinct n n' i j o o' g g' m m' p p' q q' e e' same =
      let (id, inside) = generate-id n i (make_strategy o g) m (omega arith) e in
      let (id', inside') = generate-id n' j (make_strategy o' g') m' (omega arith) e' in
      let (sources, counters) =
        order_id_of-injective o.source o'.source (1 + i) (1 + j) p p' (omega arith) (omega arith)
          (sym id ∙ same ∙ id') in
      (sources, omega arith)
