-- ===== src/PubSub/Accounting.antt =====
-- A subscriber of PubSub/src/subscriber.cpp with its thread, over any run.
use osborne_x.Base.{
  ℕ, suc, ◌+◌, ◌%◌, ◌<◌, ◌≡◌, refl, sym, ap, subst, inl, inr, ◌⊎◌, true, false, List, [], ◌∷◌, map,
  none, some, arith, length,
}
use osborne_x.Queue.Bits.{two-pow_pos}
use osborne_x.Queue.RingBuffer.{word}
use osborne_x.PubSub.Polling.{Source, Subscriber, dropped_at, dropped_from, dropped_count}
use osborne_x.PubSub.Catching.{AreFollowed, source, poll_until_quiet, poll_until_quiet-IsCaught}
use osborne_x.PubSub.Unread.{IsFollowed}
use osborne_x.PubSub.Reader.{Reader, most, work, run_polls, catch_up}
use osborne_x.PubSub.Accounts.{IsAccounted, IsAccounted-long}
use osborne_x.PubSub.Sequences.{IsPart, IsPart-more, total, HaveGrown}
use osborne_x.PubSub.Totals.{
  AreAccounted, nowhere, at_source, IsBooked, run_polls-IsBooked, quiet-IsBooked,
  AreAccounted-AreFollowed,
}

module _ {ℓ} {A : Type ℓ} where
  -- Where nothing is left to read, what was pushed was read or dropped.
  settled_at :
      (s : Source A) (p e : List A)
      → IsAccounted s p e
      → IsFollowed s 0
      → length p ≡ length e + dropped_at s
  settled_at s p e a f =
      let (c, at, policy, counted, seen) = a.reader in
      let (d, at', place) = f.reader in
      ground (
        arith,
        IsAccounted-long s p e a,
        a.held.produced,
        a.held.sized,
        f.held.produced,
        f.held.sized,
        place.behind,
        place.unread,
        two-pow_pos f.size,
      )

  settled :
      (ss : List (Source A)) (ns : List ℕ) (ps es : List (List A)) (t : ℕ)
      → t + total ps < word
      → AreAccounted ss ps es
      → AreFollowed ss (map (λ _. 0) ns)
      → dropped_from t ss + total es ≡ t + total ps
  unfolding dropped_from
  settled [] ns _ _ t fits nowhere f = omega arith
  settled (s ∷ ss) [] ps es t fits a f = elim f [ ]
  settled (s ∷ ss) (k ∷ ns) _ _ t fits (at_source {p = p} {e = e} {ps = ps} {es = es} a bs)
        (source h hs) =
      let one = settled_at s p e a h in
      let fold : (t + dropped_at s) % word ≡ t + dropped_at s = omega (arith, one, fits) in
      omega (
        arith,
        one,
        fold,
        ap (λ u. dropped_from u ss) fold,
        settled ss ns ps es (t + dropped_at s) (omega (arith, one, fits)) bs hs,
      )

  -- Between calls: the accounts are right, and the flag tells whether there is a thread.
  pub record IsReading (first ps : List (List A)) (r : Reader A) : Type ℓ where
    pub booked : IsBooked first ps r.subscriber
    pub threads :
        ((r.running ≡ false) × (r.thread ≡ none))
        ⊎ ((id : ℕ) × (r.running ≡ true) × (r.thread ≡ some id))

  pub work-IsReading :
      (k : ℕ) (first ps : List (List A)) (r : Reader A)
      → total ps < word
      → IsReading first ps r
      → IsReading first ps (work k r)
  unfolding work
  work-IsReading k first ps r fits v = elim v.threads [
    | inl (e, f) ↦ subst (IsReading first ps) (work_idle k r f) v
    | inr (id, e, f) ↦ subst (IsReading first ps) (work_alive k id r f) (record {
      booked = run_polls-IsBooked k first ps r.subscriber fits v.booked;
      threads = inr (id, e, f);
    })
  ]
    where
      work_idle : (k : ℕ) (r : Reader A) → r.thread ≡ none → r ≡ work k r
      work_idle k r f = ground arith

      work_alive :
          (k id : ℕ) (r : Reader A)
          → r.thread ≡ some id
          → record r { subscriber = run_polls k r.subscriber } ≡ work k r
      work_alive k id r f = ground arith

  -- A value was read from each source only if it was pushed there, and in the same order.
  pub data AreParts : List (List A) → List (List A) → Type ℓ where
    no_list : AreParts [] []
    part :
        {xs ys : List A} {xss yss : List (List A)}
        → IsPart xs ys
        → AreParts xss yss
        → AreParts (xs ∷ xss) (ys ∷ yss)

  AreAccounted-AreParts :
      (ss : List (Source A)) (ps es : List (List A)) → AreAccounted ss ps es → AreParts es ps
  AreAccounted-AreParts [] _ _ nowhere = no_list
  AreAccounted-AreParts (s ∷ ss) _ _ (at_source {p = p} {e = e} {ps = ps} {es = es} a bs) =
      part (subst (IsPart e) (sym a.split) (IsPart-more a.rest a.part))
        (AreAccounted-AreParts ss ps es bs)

  -- What was read of the sources: of each some of the values pushed to it, in their order. The events are
  -- these values, each once, in an order that keeps that of each source, and the rest was dropped.
  pub record IsSettled (first ps : List (List A)) (s : Subscriber A) : Type ℓ where
    pub reads : List (List A)
    pub parts : AreParts reads ps
    pub events : HaveGrown first s.events reads
    pub dropped : dropped_count s + total reads ≡ total ps

  -- The loop of `stop` ends, and then what was pushed was read or dropped.
  pub catch_up-settles :
      (first ps : List (List A)) (s : Subscriber A)
      → total ps < word
      → IsBooked first ps s
      → (s' : Subscriber A) × (catch_up s ≡ some s') × IsBooked first ps s' × IsSettled first ps s'
  unfolding catch_up dropped_count
  catch_up-settles first ps s fits a =
      let (ns, f, below) = AreAccounted-AreFollowed s.sources ps a.reads fits a.accounts in
      let caught = poll_until_quiet-IsCaught (suc (most s.sources)) s ns f (omega (arith, below)) in
      let kept = quiet-IsBooked (suc (most s.sources)) first ps s fits a in
      let s' = (poll_until_quiet (suc (most s.sources)) s).0 in
      (
        s',
        rw caught.quiet refl,
        kept,
        record {
          reads = kept.reads;
          parts = AreAccounted-AreParts s'.sources ps kept.reads kept.accounts;
          events = kept.grown;
          dropped = omega (
            arith,
            settled s'.sources ns ps kept.reads 0 (omega (arith, fits)) kept.accounts
                caught.emptied,
          );
        },
      )
