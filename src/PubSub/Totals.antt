-- ===== src/PubSub/Totals.antt =====
-- The accounts of all sources of a subscriber of PubSub/src/subscriber.cpp, while it polls.
use osborne_x.Base.{
  ℕ, zero, suc, ◌+◌, ◌-◌, ◌^◌, ◌≤◌, ◌<◌, ◌≡◌, inl, inr, List, ◌++◌, [], ◌∷◌, some, arith, length,
  length-append, get_elem?, Bool-cases,
}
use osborne_x.Queue.RingBuffer.{word, capacity}
use osborne_x.Queue.Reading.{target}
use osborne_x.PubSub.Polling.{Source, Subscriber, poll, poll_all_sources_once}
use osborne_x.PubSub.Catching.{AreFollowed, source, no_source, poll_until_quiet}
use osborne_x.PubSub.Unread.{IsFollowed, largest}
use osborne_x.PubSub.Sequences.{
  append_at, total, HaveGrown, as_before, HaveGrown-trans, HaveGrown-behind, HaveGrown-taken,
}
use osborne_x.PubSub.Reader.{push_at, most, run_polls}
use osborne_x.PubSub.Accounts.{
  IsAccounted, IsAccounted-long, IsAccounted-push, takes, ends, IsAccounted-Reads,
}

module _ {ℓ} {A : Type ℓ} where
  -- The sources, each with the values that were pushed to it and those that were read from it.
  pub data AreAccounted : List (Source A) → List (List A) → List (List A) → Type ℓ where
    nowhere : AreAccounted [] [] []
    at_source :
        {s : Source A} {ss : List (Source A)} {p e : List A} {ps es : List (List A)}
        → IsAccounted s p e
        → AreAccounted ss ps es
        → AreAccounted (s ∷ ss) (p ∷ ps) (e ∷ es)

  pub AreAccounted-push :
      (i : ℕ) (v : A) (x : Source A) (ss : List (Source A)) (ps es : List (List A))
      → total ps + 1 < word
      → get_elem? ss i ≡ some x
      → AreAccounted ss ps es
      → AreAccounted (push_at i v ss) (append_at i v ps) es
  unfolding push_at
  AreAccounted-push i v x [] _ _ fits e nowhere = absurd cc
  AreAccounted-push zero v x (s ∷ ss) _ _ fits e (at_source {p = p} {e = d} a bs) =
      at_source (IsAccounted-push s p d v (omega (arith, fits)) a) bs
  AreAccounted-push (suc i) v x (s ∷ ss) _ _ fits e (at_source {ps = ps} {es = es} a bs) =
      at_source a (AreAccounted-push i v x ss ps es (omega (arith, fits)) e bs)

  pub total-push :
      (i : ℕ) (v : A) (x : Source A) (ss : List (Source A)) (ps es : List (List A))
      → get_elem? ss i ≡ some x
      → AreAccounted ss ps es
      → total (append_at i v ps) ≡ total ps + 1
  total-push i v x [] _ _ e nowhere = absurd (ground arith)
  total-push zero v x (s ∷ ss) _ _ e (at_source {p = p} a bs) =
      omega (arith, length-append p (v ∷ []))
  total-push (suc i) v x (s ∷ ss) _ _ e (at_source {ps = ps} {es = es} a bs) =
      omega (arith, total-push i v x ss ps es e bs)

  -- A poll reads from each source at most once, and every event is a value that was read.
  pub poll-AreAccounted :
      (ss : List (Source A)) (ps es : List (List A))
      → total ps < word
      → AreAccounted ss ps es
      → (es' : List (List A)) × AreAccounted (poll ss).0 ps es' × HaveGrown es (poll ss).1 es'
  unfolding poll
  poll-AreAccounted [] _ _ fits nowhere = ([], nowhere, as_before)
  poll-AreAccounted (s ∷ ss) _ _ fits (at_source {p = p} {e = d} {ps = ps} {es = es} a bs) =
      let (es', rest, grown) = poll-AreAccounted ss ps es (omega (arith, fits)) bs in
      elim (IsAccounted-Reads s p d (omega (arith, fits)) a) [
        | takes v r e b ↦
            rw e (
              (d ++ v ∷ []) ∷ es',
              at_source b rest,
              (HaveGrown-taken v d es (poll ss).1 es' grown),
            )
        | ends r e b ↦ rw e (d ∷ es', at_source b rest, HaveGrown-behind d es (poll ss).1 es' grown)
      ]

  -- The accounts of a subscriber: its events are what was read from its sources since the first lists.
  pub record IsBooked (first ps : List (List A)) (s : Subscriber A) : Type ℓ where
    pub reads : List (List A)
    pub accounts : AreAccounted s.sources ps reads
    pub grown : HaveGrown first s.events reads

  pub poll_all-IsBooked :
      (first ps : List (List A)) (s : Subscriber A)
      → total ps < word
      → IsBooked first ps s
      → IsBooked first ps (poll_all_sources_once s).0
  unfolding poll_all_sources_once
  poll_all-IsBooked first ps s fits a =
      let (es, kept, grown) = poll-AreAccounted s.sources ps a.reads fits a.accounts in
      record {
        reads = es;
        accounts = kept;
        grown = HaveGrown-trans first s.events a.reads (poll s.sources).1 es a.grown grown;
      }

  pub run_polls-IsBooked :
      (k : ℕ) (first ps : List (List A)) (s : Subscriber A)
      → total ps < word
      → IsBooked first ps s
      → IsBooked first ps (run_polls k s)
  unfolding run_polls
  run_polls-IsBooked zero first ps s fits a = a
  run_polls-IsBooked (suc k) first ps s fits a =
      run_polls-IsBooked k first ps (poll_all_sources_once s).0 fits
        (poll_all-IsBooked first ps s fits a)

  pub quiet-IsBooked :
      (fuel : ℕ) (first ps : List (List A)) (s : Subscriber A)
      → total ps < word
      → IsBooked first ps s
      → IsBooked first ps (poll_until_quiet fuel s).0
  unfolding poll_until_quiet
  quiet-IsBooked zero first ps s fits a = a
  quiet-IsBooked (suc fuel) first ps s fits a =
      let once = poll_all-IsBooked first ps s fits a in
      elim (Bool-cases (poll_all_sources_once s).1) [
        | inl e ↦ rw e (quiet-IsBooked fuel first ps (poll_all_sources_once s).0 fits once)
        | inr e ↦ rw e once
      ]

  -- What a source still has to read, and no more than its buffer holds.
  IsAccounted-IsFollowed :
      (s : Source A) (p e : List A)
      → length p < word
      → IsAccounted s p e
      → (n : ℕ) × IsFollowed s n × (n ≤ capacity s.buffer)
  IsAccounted-IsFollowed s p e fits a =
      let (c, at, policy, counted, seen) = a.reader in
      let behind : c.sequence ≤ length p = omega (arith, seen, IsAccounted-long s p e a) in
      (
        length p - target (length p) (2 ^ a.size) c,
        record {
          history = p;
          size = a.size;
          fits = fits;
          held = a.held;
          reader = (
            c,
            at,
            record {
              behind = behind;
              unread = ground (arith, behind);
              gated = inl policy;
              counted = omega (arith, counted, behind, fits);
            },
          );
        },
        ground (arith, behind, a.held.sized),
      )

  pub AreAccounted-AreFollowed :
      (ss : List (Source A)) (ps es : List (List A))
      → total ps < word
      → AreAccounted ss ps es
      → (ns : List ℕ) × AreFollowed ss ns × (largest ns ≤ most ss)
  AreAccounted-AreFollowed [] _ _ fits nowhere = ([], no_source, omega arith)
  AreAccounted-AreFollowed (s ∷ ss) _ _ fits (at_source {p = p} {e = d} {ps = ps} {es = es} a bs) =
      let (k, h, below) = IsAccounted-IsFollowed s p d (omega (arith, fits)) a in
      let (ks, hs, rest) = AreAccounted-AreFollowed ss ps es (omega (arith, fits)) bs in
      (k ∷ ks, source h hs, ground (arith, below, rest))
