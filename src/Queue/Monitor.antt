-- ===== src/Queue/Monitor.antt =====
-- Any interleaving of the calls of Queue/inc/Queue/mpsc_queue.hpp by any number of threads.
use osborne_x.Base.{
  ℕ, ◌≤◌, ◌≡◌, refl, sym, ap, ◌∙◌, false, List, [], ◌∷◌, ◌++◌, ◌↔◌, Option, none, some, arith,
  length, length-append, if◌then◌else◌, ◌==◌,
}
use mathlib.Core.List.{append_assoc, append-nil}
use osborne_x.Queue.MpscQueue.{
  MpscQueue, blocks, returns, make_queue, push, pop_blocking, take_front, close,
}

module _ {ℓ} {A : Type ℓ} where
  -- A step is a call that returns. What it adds to the values accepted and to those handed out:
  abbrev pub accepted : A → MpscQueue A → List A
  accepted v q = if q.closed then [] else v ∷ []

  abbrev pub handed : Option A → List A
  handed none = []
  handed (some v) = v ∷ []

  pub data Step (q : MpscQueue A) (ins outs : List A) (q' : MpscQueue A) : Type ℓ where
    pushes : (v : A) → push v q ≡ returns q' → ins ≡ accepted v q → outs ≡ [] → Step q ins outs q'
    pops :
        (o : Option A)
        → pop_blocking q ≡ returns (o, q')
        → ins ≡ []
        → outs ≡ handed o
        → Step q ins outs q'
    closes : q' ≡ close q → ins ≡ [] → outs ≡ [] → Step q ins outs q'

  -- Steps one after another, from a new queue, with all that was accepted and handed out.
  pub data Run (n : ℕ) : List A → List A → MpscQueue A → Type ℓ where
    starts : Run n [] [] (make_queue n)
    goes_on :
        {ins outs ins' outs' all all' : List A} {q q' : MpscQueue A}
        → Run n ins outs q
        → Step q ins' outs' q'
        → all ≡ ins ++ ins'
        → all' ≡ outs ++ outs'
        → Run n all all' q'

  pub push-conserves :
      (v : A) (q q' : MpscQueue A) → push v q ≡ returns q' → q.items ++ accepted v q ≡ q'.items
  unfolding push
  push-conserves v q q' e = ground (arith, append-nil q.items)

  take_front-conserves :
      (vs : List A) (q : MpscQueue A)
      → q.items ≡ vs
      → q.items ≡ handed (take_front vs q).0 ++ (take_front vs q).1.items
  unfolding take_front
  take_front-conserves [] q e = refl
  take_front-conserves (v ∷ vs) q e = e

  pub pop-conserves :
      (o : Option A) (q q' : MpscQueue A)
      → pop_blocking q ≡ returns (o, q')
      → q.items ≡ handed o ++ q'.items
  unfolding pop_blocking
  pop-conserves o q q' e = ground (arith, take_front-conserves q.items q refl)

  Step-conserves :
      {q q' : MpscQueue A} {ins outs : List A}
      → Step q ins outs q'
      → q.items ++ ins ≡ outs ++ q'.items
  unfolding close
  Step-conserves {q} {q'} (pushes v e f g) = rw (f, g) (push-conserves v q q' e)
  Step-conserves {q} {q'} (pops o e f g) = rw (f, g, append-nil q.items) (pop-conserves o q q' e)
  Step-conserves {q} (closes e f g) = rw (e, f, g) (append-nil q.items)

  -- First in, first out, over all threads: at any time the values accepted are those handed out
  -- followed by those in the queue, in one order.
  pub Run-fifo :
      {n : ℕ} {ins outs : List A} {q : MpscQueue A} → Run n ins outs q → ins ≡ outs ++ q.items
  unfolding make_queue
  Run-fifo starts = refl
  Run-fifo (goes_on {ins = is} {outs = os} {ins' = is'} {outs' = os'} {q = q} {q' = q'} r s e f) =
      e
      ∙ ap (λ l. l ++ is') (Run-fifo r)
      ∙ append_assoc os q.items is'
      ∙ ap (◌++◌ os) (Step-conserves s)
      ∙ sym (append_assoc os os' q'.items)
      ∙ ap (λ l. l ++ q'.items) (sym f)

  -- How many values there are, against the capacity that was asked for.
  pub record IsBounded (n : ℕ) (q : MpscQueue A) : Type ℓ where
    pub asked : q.capacity ≡ (if n == 0 then 1 else n)
    pub fits : length q.items ≤ q.capacity

  push-IsBounded :
      (n : ℕ) (v : A) (q q' : MpscQueue A) → push v q ≡ returns q' → IsBounded n q → IsBounded n q'
  unfolding push
  push-IsBounded n v q q' e b = ground (arith, length-append q.items (v ∷ []))

  take_front-IsBounded :
      (n : ℕ) (vs : List A) (q : MpscQueue A)
      → q.items ≡ vs
      → IsBounded n q
      → IsBounded n (take_front vs q).1
  unfolding take_front
  take_front-IsBounded n [] q e b = b
  take_front-IsBounded n (v ∷ vs) q e b = record {
    asked = b.asked;
    fits = omega (arith, ap length e, b.fits);
  }

  pop-IsBounded :
      (n : ℕ) (o : Option A) (q q' : MpscQueue A)
      → pop_blocking q ≡ returns (o, q')
      → IsBounded n q
      → IsBounded n q'
  unfolding pop_blocking
  pop-IsBounded n o q q' e b = ground (arith, take_front-IsBounded n q.items q refl b)

  -- Whatever the threads do, the queue holds at most its capacity, which is the one asked for, or 1
  -- for 0.
  pub Run-IsBounded :
      {n : ℕ} {ins outs : List A} {q : MpscQueue A} → Run n ins outs q → IsBounded n q
  unfolding make_queue close
  Run-IsBounded {n} starts = record { asked = refl; fits = ground arith }
  Run-IsBounded {n} (goes_on {q = q} {q' = q'} r (pushes v e f g) _ _) =
      push-IsBounded n v q q' e (Run-IsBounded r)
  Run-IsBounded {n} (goes_on {q = q} {q' = q'} r (pops o e f g) _ _) =
      pop-IsBounded n o q q' e (Run-IsBounded r)
  Run-IsBounded {n} (goes_on r (closes e f g) _ _) =
      let b = Run-IsBounded r in rw e (record { asked = b.asked; fits = b.fits })

  -- A push blocks exactly while the queue is open and full.
  pub push-blocks :
      (v : A) (q : MpscQueue A)
      → (push v q ≡ blocks) ↔ ((q.closed ≡ false) × (q.capacity ≤ length q.items))
  unfolding push
  push-blocks v q = (λ e. ground arith, λ h. ground arith)

  -- A pop blocks exactly while the queue is open and empty.
  pub pop-blocks :
      (q : MpscQueue A) → (pop_blocking q ≡ blocks) ↔ ((q.closed ≡ false) × (q.items ≡ []))
  unfolding pop_blocking
  pop-blocks q = (λ e. ground arith, λ h. ground arith)
