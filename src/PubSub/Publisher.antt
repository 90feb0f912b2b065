-- ===== src/PubSub/Publisher.antt =====
-- `MarketDataPublisher` of PubSub/inc/PubSub/publisher.hpp and PubSub/src/publisher.cpp. A producer is
-- its place in the list of producers, and a source of a subscriber is a producer with the number of
-- the cursor there. The assertions of debug builds are not modelled.
use osborne_x.Base.{
  ℕ, zero, suc, ◌+◌, ◌≡◌, refl, sym, ap, ◌∙◌, Bool, true, List, [], ◌∷◌, ◌++◌, map, arith, All,
  length, length-append, subst, All-append,
}
use mathlib.Core.List.{map-append}
use osborne_x.Queue.RingBuffer.{RingBuffer, lossy, add_consumer}

abbrev pub Sources : Type 0
Sources = List (ℕ × ℕ)

pub record Publisher {ℓ} (A : Type ℓ) : Type ℓ where
  pub frozen : Bool
  pub subscribers : List Sources
  pub producers : List (RingBuffer A)

module _ {ℓ} {A : Type ℓ} where
  -- The producers from a place on, each with a new cursor, and the sources that these are.
  unfoldable pub register_all : ℕ → List (RingBuffer A) → List (RingBuffer A) × Sources
  register_all i [] = ([], [])
  register_all i (r ∷ rs) =
      let (rs', sources) = register_all (suc i) rs in
      (add_consumer lossy r ∷ rs', (i, length r.consumers) ∷ sources)

  unfoldable pub add_subscriber : Publisher A → Publisher A
  add_subscriber p =
      let (producers, sources) = register_all 0 p.producers in
      record p { subscribers = p.subscribers ++ sources ∷ []; producers = producers }

  -- The subscribers, each with a new cursor at the producer in place `i`, and that producer.
  unfoldable pub register_at : ℕ → RingBuffer A → List Sources → RingBuffer A × List Sources
  register_at i r [] = (r, [])
  register_at i r (s ∷ ss) =
      let (r', ss') = register_at i (add_consumer lossy r) ss in
      (r', (s ++ (i, length r.consumers) ∷ []) ∷ ss')

  unfoldable pub add_producer : RingBuffer A → Publisher A → Publisher A
  add_producer r p =
      let (r', subscribers) = register_at (length p.producers) r p.subscribers in
      record p { subscribers = subscribers; producers = p.producers ++ r' ∷ [] }

  unfoldable pub freeze : Publisher A → Publisher A
  freeze p = record p { frozen = true }

-- The places from one on, so many.
abbrev pub places : ℕ → ℕ → List ℕ
places i zero = []
places i (suc n) = i ∷ places (suc i) n

-- A subscriber reads from each of so many producers by one cursor, in their order.
abbrev pub Covers : ℕ → Sources → Type 0
Covers n sources = map (λ e. e.0) sources ≡ places 0 n

abbrev pub IsWired {ℓ} : {A : Type ℓ} → Publisher A → Type 0
IsWired p = All (Covers (length p.producers)) p.subscribers

All-Covers : (n m : ℕ) (ss : List Sources) → n ≡ m → All (Covers n) ss → All (Covers m) ss
All-Covers n m ss e = subst (λ k. All (Covers k) ss) e

places_last : (i n : ℕ) → places i (suc n) ≡ places i n ++ (i + n) ∷ []
places_last i zero = ap (λ k. k ∷ []) (omega arith)
places_last i (suc n) =
    ap (◌∷◌ i) (places_last (suc i) n ∙ ap (λ k. places (suc i) n ++ k ∷ []) (omega arith))

Covers-append : (n c : ℕ) (s : Sources) → Covers n s → Covers (suc n) (s ++ (n, c) ∷ [])
Covers-append n c s h =
    map-append (λ e. e.0) s ((n, c) ∷ [])
    ∙ ap (λ l. l ++ n ∷ []) h
    ∙ ap (λ k. places 0 n ++ k ∷ []) (omega arith)
    ∙ sym (places_last 0 n)

module _ {ℓ} {A : Type ℓ} where
  register_all-places :
      (i : ℕ) (rs : List (RingBuffer A))
      → map (λ e. e.0) (register_all i rs).1 ≡ places i (length rs)
  unfolding register_all
  register_all-places i [] = refl
  register_all-places i (r ∷ rs) = ap (◌∷◌ i) (register_all-places (suc i) rs)

  length-register_all :
      (i : ℕ) (rs : List (RingBuffer A)) → length (register_all i rs).0 ≡ length rs
  unfolding register_all
  length-register_all i [] = refl
  length-register_all i (r ∷ rs) = ap suc (length-register_all (suc i) rs)

  -- A new subscriber gets one cursor at each producer, in their order, and the others keep theirs.
  pub add_subscriber-IsWired : (p : Publisher A) → IsWired p → IsWired (add_subscriber p)
  unfolding add_subscriber
  add_subscriber-IsWired p w =
      All-Covers (length p.producers) (length (register_all 0 p.producers).0)
        (p.subscribers ++ (register_all 0 p.producers).1 ∷ [])
        (sym (length-register_all 0 p.producers))
        (All-append (Covers (length p.producers)) p.subscribers
          ((register_all 0 p.producers).1 ∷ []) w (register_all-places 0 p.producers, tt))

  register_at-Covers :
      (n : ℕ) (r : RingBuffer A) (ss : List Sources)
      → All (Covers n) ss
      → All (Covers (suc n)) (register_at n r ss).1
  unfolding register_at
  register_at-Covers n r [] h = tt
  register_at-Covers n r (s ∷ ss) h = (
    Covers-append n (length r.consumers) s h.0,
    register_at-Covers n (add_consumer lossy r) ss h.1,
  )

  -- Every subscriber gets one cursor at a new producer, behind those that it has.
  pub add_producer-IsWired :
      (r : RingBuffer A) (p : Publisher A) → IsWired p → IsWired (add_producer r p)
  unfolding add_producer
  add_producer-IsWired r p w =
      let added = register_at (length p.producers) r p.subscribers in
      All-Covers (suc (length p.producers)) (length (p.producers ++ added.0 ∷ [])) added.1
        (omega (arith, length-append p.producers (added.0 ∷ [])))
        (register_at-Covers (length p.producers) r p.subscribers w)
