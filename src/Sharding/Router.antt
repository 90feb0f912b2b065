-- ===== src/Sharding/Router.antt =====
-- `Router` of Sharding/inc/Sharding/router.hpp and Sharding/src/router.cpp. `std::hash<SymbolId>` is
-- the parameter `hash`.
use osborne_x.Base.{
  ℕ, ◌+◌, ◌%◌, ◌<◌, ◌≡◌, refl, sym, ◌≢◌, inl, inr, subst, zero, suc, Option-cases, List, [], ◌∷◌,
  ◌++◌, Option, none, some, arith, length, get_elem?, set, get_elem?-set_self, get_elem?-set_ne,
}
use osborne_x.Messages.{OrderMessage}
use osborne_x.Queue.RingBuffer.{RingBuffer, word, push_blocking}
use osborne_x.Queue.History.{Holds, push_blocking-Holds}
use osborne_x.Sharding.Shard.{Shard, enqueue}

module _ (hash : ℕ → ℕ) where
  unfoldable pub shard_for_symbol : ℕ → ℕ → ℕ
  shard_for_symbol symbol shard_count = hash symbol % shard_count

  -- `route`; `none` means that the call spins in `enqueue`, or that there is no shard at all.
  unfoldable pub route : OrderMessage → List Shard → Option (List Shard)
  route m shards =
      let shard_id = shard_for_symbol m.symbol (length shards) in
      elim (get_elem? shards shard_id) [
        | none ↦ none
        | some s ↦ elim (enqueue m s) [ none ↦ none | some s' ↦ some (set shards shard_id s') ]
      ]

-- What a message does to the shard that it is for.
pub record Delivers (k : ℕ) (history : List OrderMessage) (m : OrderMessage) (s s' : Shard)
    : Type 0 where
  pub held : Holds k (history ++ m ∷ []) s'.inbound
  pub same_books : s'.books ≡ s.books
  pub same_tops : s'.last_top ≡ s.last_top

pub enqueued :
    (m : OrderMessage) (s s' : Shard)
    → enqueue m s ≡ some s'
    → (r : RingBuffer OrderMessage) × (push_blocking m s.inbound ≡ some r)
      × (s' ≡ record s { inbound = r })
unfolding enqueue
enqueued m s s' e = elim (Option-cases (push_blocking m s.inbound)) [
  | inl h ↦ absurd (ground arith)
  | inr (r, h) ↦ (r, h, ground arith)
]

enqueue-Delivers :
    (k : ℕ) (history : List OrderMessage) (m : OrderMessage) (s s' : Shard)
    → length history + 1 < word
    → Holds k history s.inbound
    → enqueue m s ≡ some s'
    → Delivers k history m s s'
enqueue-Delivers k history m s s' fits h e =
    let (r, pushed, same) = enqueued m s s' e in
    subst (Delivers k history m s) (sym same) (record {
      held = push_blocking-Holds k history m s.inbound r fits h pushed;
      same_books = refl;
      same_tops = refl;
    })

pub get_elem?-below :
    (shards : List Shard) (i : ℕ) (s : Shard) → get_elem? shards i ≡ some s → i < length shards
get_elem?-below [] i s h = absurd (ground arith)
get_elem?-below (x ∷ xs) zero s h = omega arith
get_elem?-below (x ∷ xs) (suc i) s h = omega (arith, get_elem?-below xs i s h)

-- What a message does to all the shards, the number of its own shard given.
pub record Routes (k i : ℕ) (history : List OrderMessage) (m : OrderMessage) (s : Shard)
    (shards shards' : List Shard) : Type 0 where
  pub arrives : (s' : Shard) × (get_elem? shards' i ≡ some s') × Delivers k history m s s'
  pub elsewhere : (j : ℕ) → i ≢ j → get_elem? shards' j ≡ get_elem? shards j

module _ (hash : ℕ → ℕ) where
  pub route-enqueue :
      (m : OrderMessage) (shards shards' : List Shard) (s : Shard)
      → get_elem? shards (shard_for_symbol hash m.symbol (length shards)) ≡ some s
      → route hash m shards ≡ some shards'
      → (s' : Shard) × (enqueue m s ≡ some s')
        × (shards' ≡ set shards (shard_for_symbol hash m.symbol (length shards)) s')
  unfolding route
  route-enqueue m shards shards' s at e = elim (Option-cases (enqueue m s)) [
    | inl h ↦ absurd (ground arith)
    | inr (s', h) ↦ (s', h, ground arith)
  ]

  -- A message that is routed arrives behind the others in the inbound buffer of the shard of its
  -- symbol, and changes neither the books there nor any other shard. The buffer holds the last values
  -- of some history, the sequences have not yet wrapped, and the call returns.
  pub route-Routes :
      (k : ℕ) (history : List OrderMessage) (m : OrderMessage) (shards shards' : List Shard)
      (s : Shard)
      → length history + 1 < word
      → get_elem? shards (shard_for_symbol hash m.symbol (length shards)) ≡ some s
      → Holds k history s.inbound
      → route hash m shards ≡ some shards'
      → Routes k (shard_for_symbol hash m.symbol (length shards)) history m s shards shards'
  route-Routes k history m shards shards' s fits at h e =
      let i : ℕ = shard_for_symbol hash m.symbol (length shards) in
      let (s', queued, same) = route-enqueue m shards shards' s at e in
      subst (Routes k i history m s shards) (sym same) (record {
        arrives = (
          s',
          get_elem?-set_self shards i s' (get_elem?-below shards i s at),
          enqueue-Delivers k history m s s' fits h queued,
        );
        elsewhere = λ j ne. get_elem?-set_ne shards i j s' ne;
      })
