-- ===== src/Queue/Delivery.antt =====
-- Any interleaving of the blocking pushes of the producer of Queue/inc/Queue/ring_buffer.hpp with the
-- reads of its consumers, each call as one step.
use osborne_x.Base.{
  ℕ, ◌<◌, ◌≡◌, ◌≢◌, refl, sym, ap, ◌∙◌, List, [], ◌∷◌, ◌++◌, some, arith, length, length-append,
}
use mathlib.Core.List.{append_assoc, append-nil}
use osborne_x.Queue.RingBuffer.{word, RingBuffer, push_blocking, read_consumer}
use osborne_x.Queue.Monitor.{handed}
use osborne_x.Queue.Stream.{
  IsTracked, read_consumer-next, read_consumer-end, read_consumer-others, push_blocking-IsTracked,
}

module _ {ℓ} {A : Type ℓ} where
  -- A step, with the values that it pushes and those that the consumer `n` reads by it.
  pub data Step (n : ℕ) (r : RingBuffer A) (ins outs : List A) (r' : RingBuffer A) : Type ℓ where
    pushes : (v : A) → push_blocking v r ≡ some r' → ins ≡ v ∷ [] → outs ≡ [] → Step n r ins outs r'
    reads :
        r' ≡ (read_consumer n r).2
        → ins ≡ []
        → outs ≡ handed (read_consumer n r).1
        → Step n r ins outs r'
    others_read :
        (j : ℕ) → j ≢ n → r' ≡ (read_consumer j r).2 → ins ≡ [] → outs ≡ [] → Step n r ins outs r'

  pub data Run (n : ℕ) (start : RingBuffer A) : List A → List A → RingBuffer A → Type ℓ where
    starts :
        {r : RingBuffer A} {ins outs : List A}
        → r ≡ start
        → ins ≡ []
        → outs ≡ []
        → Run n start ins outs r
    goes_on :
        {ins outs ins' outs' all all' : List A} {r r' : RingBuffer A}
        → Run n start ins outs r
        → Step n r ins' outs' r'
        → all ≡ ins ++ ins'
        → all' ≡ outs ++ outs'
        → Run n start all all' r'

  -- What is left to read.
  abbrev Follows : ℕ → ℕ → List A → List A → RingBuffer A → Type ℓ
  Follows k n ins outs r = (rest : List A) × (ins ≡ outs ++ rest) × IsTracked k ins rest n r

  Follows-reads :
      (k n : ℕ) (ins outs rest : List A) (r : RingBuffer A)
      → length ins < word
      → ins ≡ outs ++ rest
      → IsTracked k ins rest n r
      → Follows k n ins (outs ++ handed (read_consumer n r).1) (read_consumer n r).2
  Follows-reads k n ins outs [] r fits e t =
      let (r', h, t') = read_consumer-end k ins n r t in rw (h, append-nil outs) ([], e, t')
  Follows-reads k n ins outs (v ∷ rest) r fits e t =
      let (r', h, t') = read_consumer-next k ins rest v n r fits t in
      rw h (rest, e ∙ sym (append_assoc outs (v ∷ []) rest), t')

  Follows-Step :
      (k n : ℕ) (ins outs ins' outs' : List A) (r r' : RingBuffer A)
      → length (ins ++ ins') < word
      → Follows k n ins outs r
      → Step n r ins' outs' r'
      → Follows k n (ins ++ ins') (outs ++ outs') r'
  Follows-Step k n ins outs ins' outs' r r' fits (rest, e, t) (pushes v h p q) =
      rw (p, q, append-nil outs)
        (
          rest ++ v ∷ [],
          ap (λ l. l ++ v ∷ []) e ∙ append_assoc outs rest (v ∷ []),
          push_blocking-IsTracked k ins rest v n r r'
              (omega (arith, fits, ap length p, length-append ins ins')) t h,
        )
  Follows-Step k n ins outs ins' outs' r r' fits (rest, e, t) (reads h p q) =
      rw (h, p, q, append-nil ins)
        (Follows-reads k n ins outs rest r (omega (arith, fits, length-append ins ins')) e t)
  Follows-Step k n ins outs ins' outs' r r' fits (rest, e, t) (others_read j ne h p q) =
      rw (h, p, q, append-nil ins, append-nil outs)
        (rest, e, read_consumer-others k ins rest n j r ne t)

  -- Whatever the interleaving, the values that a lossless consumer has read are the first ones of those
  -- that were pushed, each once and in their order; what is left is at most a whole buffer, and the
  -- next reads return it. The buffer is empty at the start, no step of it overwrites, and its sequences
  -- have not yet wrapped.
  pub Run-delivers :
      {n : ℕ} {start r : RingBuffer A} {ins outs : List A} (k : ℕ)
      → IsTracked k [] [] n start
      → Run n start ins outs r
      → length ins < word
      → (rest : List A) × (ins ≡ outs ++ rest) × IsTracked k ins rest n r
  Run-delivers {n} k t (starts e p q) fits = rw (e, p, q) ([], refl, t)
  Run-delivers {n} k t
        (goes_on {ins = is} {outs = os} {ins' = is'} {outs' = os'} {r = s} {r' = s'} run step p q)
        fits =
      rw (p, q)
        (Follows-Step k n is os is' os' s s' (omega (arith, fits, ap length p))
          (Run-delivers k t run (omega (arith, fits, ap length p, length-append is is'))) step)
