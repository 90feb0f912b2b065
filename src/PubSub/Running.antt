-- ===== src/PubSub/Running.antt =====
-- What a subscriber of PubSub/src/subscriber.cpp has got when it is stopped, whatever went before.
use osborne_x.Base.{
  ℕ, ◌≤◌, ◌<◌, ◌≡◌, refl, ap, subst, inl, inr, true, false, List, none, some, arith,
}
use osborne_x.Queue.RingBuffer.{word}
use osborne_x.PubSub.Polling.{Source, Subscriber}
use osborne_x.PubSub.Reader.{
  Reader, make_reader, no_values, start, work, catch_up, stop, Step, starts, works, stops, pushes,
  Run, begins, goes_on,
}
use osborne_x.PubSub.Totals.{AreAccounted, AreAccounted-push, total-push}
use osborne_x.PubSub.Sequences.{total, total-append_at, as_before}
use osborne_x.PubSub.Accounting.{IsReading, IsSettled, work-IsReading, catch_up-settles}

module _ {ℓ} {A : Type ℓ} where
  start-IsReading :
      (id : ℕ) (first ps : List (List A)) (r : Reader A)
      → IsReading first ps r
      → (r' : Reader A) × (start id r ≡ some r') × IsReading first ps r'
  unfolding start
  start-IsReading id first ps r v = elim v.threads [
    | inl (e, f) ↦ (
      record r { running = true; thread = some id },
      ground arith,
      record { booked = v.booked; threads = inr (id, refl, refl) },
    )
    | inr (j, e, f) ↦ (r, ground arith, v)
  ]

  stop-settled :
      (k : ℕ) (r : Reader A) (s : Subscriber A)
      → r.running ≡ true
      → catch_up (work k r).subscriber ≡ some s
      → stop k r ≡ some (record { subscriber = s; running = false; thread = none })
  unfolding stop
  stop-settled k r s e f = ground arith

  stop-idle : (k : ℕ) (r : Reader A) → r.running ≡ false → stop k r ≡ some r
  unfolding stop
  stop-idle k r e = ground arith

  -- After a stop no thread is left, and if the reader ran, all that was pushed was read or dropped.
  pub record IsStopped (first ps : List (List A)) (r r' : Reader A) : Type ℓ where
    pub flag : r'.running ≡ false
    pub thread : r'.thread ≡ none
    pub settled : r.running ≡ true → IsSettled first ps r'.subscriber

  stop-IsStopped :
      (k : ℕ) (first ps : List (List A)) (r : Reader A)
      → total ps < word
      → IsReading first ps r
      → (r' : Reader A) × (stop k r ≡ some r') × IsReading first ps r' × IsStopped first ps r r'
  stop-IsStopped k first ps r fits v = elim v.threads [
    | inl (e, f) ↦
        (r, stop-idle k r e, v, record { flag = e; thread = f; settled = λ h. absurd cc })
    | inr (id, e, f) ↦
        let (s, caught, kept, all) =
          catch_up-settles first ps (work k r).subscriber fits
            (work-IsReading k first ps r fits v).booked in
        (
          record { subscriber = s; running = false; thread = none },
          stop-settled k r s e caught,
          record { booked = kept; threads = inl (refl, refl) },
          record { flag = refl; thread = refl; settled = λ _. all },
        )
  ]

  Step-total : (ps ps' : List (List A)) (r r' : Reader A) → Step r ps r' ps' → total ps ≤ total ps'
  Step-total ps ps' r r' (starts id e p) = omega (arith, ap total p)
  Step-total ps ps' r r' (works k e p) = omega (arith, ap total p)
  Step-total ps ps' r r' (stops k e p) = omega (arith, ap total p)
  Step-total ps ps' r r' (pushes i x s at e p) = omega (arith, ap total p, total-append_at i x ps)

  Step-IsReading :
      (first ps ps' : List (List A)) (r r' : Reader A)
      → total ps' < word
      → IsReading first ps r
      → Step r ps r' ps'
      → IsReading first ps' r'
  Step-IsReading first ps ps' r r' fits v (starts id e p) =
      let (x, f, h) = start-IsReading id first ps r v in
      let same : x ≡ r' = ground arith in rw p (subst (IsReading first ps) same h)
  Step-IsReading first ps ps' r r' fits v (works k e p) =
      rw (p, e) (work-IsReading k first ps r (omega (arith, fits, ap total p)) v)
  Step-IsReading first ps ps' r r' fits v (stops k e p) =
      let (x, f, h, _) = stop-IsStopped k first ps r (omega (arith, fits, ap total p)) v in
      let same : x ≡ r' = ground arith in rw p (subst (IsReading first ps) same h)
  Step-IsReading first ps ps' r r' fits v (pushes i x s at e p) =
      let more = total-push i x s r.subscriber.sources ps v.booked.reads at v.booked.accounts in
      rw (p, e)
        (record {
          booked = record {
            reads = v.booked.reads;
            accounts =
                AreAccounted-push i x s r.subscriber.sources ps v.booked.reads
                  (omega (arith, fits, ap total p, more)) at v.booked.accounts;
            grown = v.booked.grown;
          };
          threads = v.threads;
        })

  Run-IsReading :
      (ss : List (Source A)) (ps : List (List A)) (r : Reader A)
      → AreAccounted ss (no_values ss) (no_values ss)
      → Run (make_reader ss) ps r
      → total ps < word
      → IsReading (no_values ss) ps r
  Run-IsReading ss _ _ a begins fits = record {
    booked = record { reads = no_values ss; accounts = a; grown = as_before };
    threads = inl (refl, refl);
  }
  Run-IsReading ss _ _ a (goes_on {ps = ps} {ps' = ps'} {r = r0} {r' = r1} run step) fits =
      Step-IsReading (no_values ss) ps ps' r0 r1 fits
        (Run-IsReading ss ps r0 a run (omega (arith, fits, Step-total ps ps' r0 r1 step))) step

  -- Whatever sequence of starts, stops, polls of the thread and pushes to the sources has gone before, a
  -- start returns, and a stop returns with no thread. If the reader ran, then of each source some of the
  -- values pushed to it were read, in the order in which they were pushed, and the other values are
  -- counted as dropped; and the events that it has had are the values read, each once, in an order that
  -- keeps that of each source. It reads as a lossy consumer from buffers that are empty at first, and
  -- fewer than 2 to the power of 64 values are pushed.
  pub Run-accounts :
      (ss : List (Source A)) (ps : List (List A)) (r : Reader A)
      → AreAccounted ss (no_values ss) (no_values ss)
      → Run (make_reader ss) ps r
      → total ps < word
      → (id k : ℕ)
      → ((r' : Reader A) × (start id r ≡ some r'))
        × ((r' : Reader A) × (stop k r ≡ some r') × IsStopped (no_values ss) ps r r')
  Run-accounts ss ps r a run fits id k =
      let v = Run-IsReading ss ps r a run fits in
      let (r', e, _) = start-IsReading id (no_values ss) ps r v in
      let (r'', f, _, stopped) = stop-IsStopped k (no_values ss) ps r fits v in
      ((r', e), (r'', f, stopped))
