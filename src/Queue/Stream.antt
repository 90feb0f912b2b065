-- ===== src/Queue/Stream.antt =====
-- A lossless consumer of Queue/inc/Queue/ring_buffer.hpp against the history of the buffer.
use osborne_x.Base.{
  ℕ, zero, suc, ◌+◌, ◌^◌, ◌≤◌, ◌<◌, ◌≡◌, ◌≢◌, refl, sym, ap, subst, ◌∙◌, inl, inr, true, List, [],
  ◌∷◌, ◌++◌, Option, none, some, arith, length, length-append, get_elem?, set, get_elem?-set_self,
  get_elem?-set_ne, Option-cases,
}
use mathlib.Core.List.{append_assoc}
use osborne_x.Queue.RingBuffer.{
  word, RingBuffer, Consumer, lossless, ReadResult, ok, empty, capacity, is_free, push_blocking,
  try_read, read_consumer,
}
use osborne_x.Queue.History.{Holds, push_blocking-Holds}
use osborne_x.Queue.Gating.{push_blocking-free}
use osborne_x.Queue.Reading.{target, advanced, try_read-empty, try_read_lem}

-- The consumer with a number is lossless, and has read the values of the history but for `rest`.
pub record IsTracked {ℓ} {A : Type ℓ} (k : ℕ) (history rest : List A) (n : ℕ) (r : RingBuffer A)
    : Type ℓ where
  pub held : Holds k history r
  pub reader :
      (c : Consumer) × (get_elem? r.consumers n ≡ some c)
      × (c.policy ≡ lossless)
      × (c.sequence + length rest ≡ length history)
      × (c.dropped_count ≡ 0)
  pub kept : length rest ≤ 2 ^ k
  pub behind : (outs : List A) × (history ≡ outs ++ rest)

is_free-gates :
    (seq size n : ℕ) (cs : List Consumer) (c : Consumer)
    → seq < word
    → get_elem? cs n ≡ some c
    → c.policy ≡ lossless
    → c.sequence ≤ seq
    → is_free seq size cs ≡ true
    → seq < c.sequence + size
unfolding is_free
is_free-gates seq size n [] c h e p q f = cc
is_free-gates seq size zero (x ∷ cs) c h e p q f = ground arith
is_free-gates seq size (suc n) (x ∷ cs) c h e p q f =
    is_free-gates seq size n cs c h e p q (ground arith)

pub get_elem?-below :
    {A : Type 0} (xs : List A) (i : ℕ) (x : A) → get_elem? xs i ≡ some x → i < length xs
get_elem?-below [] i x h = cc
get_elem?-below (y ∷ xs) zero x h = omega arith
get_elem?-below (y ∷ xs) (suc i) x h = omega (arith, get_elem?-below xs i x h)

module _ {ℓ} {A : Type ℓ} where
  pub Holds-consumers :
      (k : ℕ) (history : List A) (r : RingBuffer A) (cs : List Consumer)
      → Holds k history r
      → Holds k history (record r { consumers = cs })
  Holds-consumers k history r cs h = record {
    sized = h.sized;
    slotted = h.slotted;
    claimed = h.claimed;
    produced = h.produced;
    kept = h.kept;
  }

  get_elem?-rest :
      (outs : List A) (v : A) (rest : List A) → get_elem? (outs ++ v ∷ rest) (length outs) ≡ some v
  get_elem?-rest [] v rest = refl
  get_elem?-rest (x ∷ outs) v rest = get_elem?-rest outs v rest

  pub read_consumer_at :
      (n : ℕ) (r : RingBuffer A) (c : Consumer) (result : ReadResult) (value : Option A)
      (c' : Consumer)
      → get_elem? r.consumers n ≡ some c
      → try_read r r r c ≡ (result, value, c')
      → read_consumer n r ≡ (result, value, record r { consumers = set r.consumers n c' })
  unfolding read_consumer
  read_consumer_at n r c result value c' e h =
      rw (e, read_consumer)
        (ap
          (λ (t : ReadResult × Option A × Consumer).
            (t.0, t.1, record r { consumers = set r.consumers n t.2 }))
          h)

  -- The consumer's next value is the front of the rest, and a read takes just that.
  pub read_consumer-next :
      (k : ℕ) (history rest : List A) (v : A) (n : ℕ) (r : RingBuffer A)
      → length history < word
      → IsTracked k history (v ∷ rest) n r
      → (r' : RingBuffer A) × (read_consumer n r ≡ (ok, some v, r')) × IsTracked k history rest n r'
  read_consumer-next k history rest v n r fits t =
      let (c, at, policy, sequence, dropped) = t.reader in
      let (outs, split) = t.behind in
      let past : length outs ≡ c.sequence =
        omega (arith, ap length split, length-append outs (v ∷ rest), sequence) in
      let (w, e, tried) = try_read_lem k history r c fits t.held (record {
        behind = omega (arith, sequence);
        gated = inr (omega (arith, sequence, t.kept));
        counted = omega (arith, dropped);
      }) in
      let here : target (length history) (2 ^ k) c ≡ length outs =
        ground (arith, sequence, t.kept, past) in
      let same : some w ≡ some v =
        sym e
        ∙ ap (get_elem? history) here
        ∙ ap (λ l. get_elem? l (length outs)) split
        ∙ get_elem?-rest outs v rest in
      (
        record r { consumers = set r.consumers n (advanced (length history) (2 ^ k) c) },
        read_consumer_at n r c ok (some v) _ at
            (tried ∙ ap (λ o. (ok, o, advanced (length history) (2 ^ k) c)) same),
        record {
          held = Holds-consumers k history r _ t.held;
          reader = (
            advanced (length history) (2 ^ k) c,
            get_elem?-set_self r.consumers n _ (get_elem?-below r.consumers n c at),
            policy,
            omega (arith, sequence, here, past),
            ground (arith, dropped, here, past),
          );
          kept = omega (arith, t.kept);
          behind = (outs ++ v ∷ [], split ∙ sym (append_assoc outs (v ∷ []) rest));
        },
      )

  -- A consumer that has read everything gets nothing.
  pub read_consumer-end :
      (k : ℕ) (history : List A) (n : ℕ) (r : RingBuffer A)
      → IsTracked k history [] n r
      → (r' : RingBuffer A) × (read_consumer n r ≡ (empty, none, r')) × IsTracked k history [] n r'
  read_consumer-end k history n r t =
      let (c, at, policy, sequence, dropped) = t.reader in
      (
        record r { consumers = set r.consumers n c },
        read_consumer_at n r c empty none c at
            (try_read-empty r r r c (omega (arith, t.held.produced, sequence))),
        record {
          held = Holds-consumers k history r _ t.held;
          reader = (
            c,
            get_elem?-set_self r.consumers n c (get_elem?-below r.consumers n c at),
            policy,
            sequence,
            dropped,
          );
          kept = t.kept;
          behind = t.behind;
        },
      )

  read_consumer-other :
      (n j : ℕ) (r : RingBuffer A)
      → (cs : List Consumer) × ((read_consumer j r).2 ≡ record r { consumers = cs })
        × (j ≢ n → get_elem? cs n ≡ get_elem? r.consumers n)
  unfolding read_consumer
  read_consumer-other n j r = elim (Option-cases (get_elem? r.consumers j)) [
    | inl e ↦ (r.consumers, rw (e, read_consumer) refl, λ h. refl)
    | inr (c, e) ↦ (
      set r.consumers j (try_read r r r c).2,
      rw (e, read_consumer) refl,
      λ h. get_elem?-set_ne r.consumers j n (try_read r r r c).2 h,
    )
  ]

  pub push_blocking-IsTracked :
      (k : ℕ) (history rest : List A) (v : A) (n : ℕ) (r r' : RingBuffer A)
      → length history + 1 < word
      → IsTracked k history rest n r
      → push_blocking v r ≡ some r'
      → IsTracked k (history ++ v ∷ []) (rest ++ v ∷ []) n r'
  push_blocking-IsTracked k history rest v n r r' fits t e =
      let (c, at, policy, sequence, dropped) = t.reader in
      let (outs, split) = t.behind in
      let (free, same) = push_blocking-free v r r' e in
      let gated : r.next_to_claim < c.sequence + capacity r =
        is_free-gates r.next_to_claim (capacity r) n r.consumers c (omega (arith, t.held.claimed))
          at policy (omega (arith, sequence, t.held.claimed)) free in
      record {
        held = push_blocking-Holds k history v r r' fits t.held e;
        reader = (
          c,
          ap (λ (cs : List Consumer). get_elem? cs n) same ∙ at,
          policy,
          omega (arith, sequence, length-append history (v ∷ []), length-append rest (v ∷ [])),
          dropped,
        );
        kept =
            omega
              (arith, gated, t.held.sized, t.held.claimed, sequence, length-append rest (v ∷ []));
        behind = (outs, ap (λ l. l ++ v ∷ []) split ∙ append_assoc outs rest (v ∷ []));
      }

  pub read_consumer-others :
      (k : ℕ) (history rest : List A) (n j : ℕ) (r : RingBuffer A)
      → j ≢ n
      → IsTracked k history rest n r
      → IsTracked k history rest n (read_consumer j r).2
  read_consumer-others k history rest n j r ne t =
      let (cs, e, others) = read_consumer-other n j r in
      let (c, at, policy, sequence, dropped) = t.reader in
      subst (IsTracked k history rest n) (sym e) (record {
        held = Holds-consumers k history r cs t.held;
        reader = (c, others ne ∙ at, policy, sequence, dropped);
        kept = t.kept;
        behind = t.behind;
      })
