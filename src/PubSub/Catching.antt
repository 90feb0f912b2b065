-- ===== src/PubSub/Catching.antt =====
-- The polling that PubSub/src/subscriber.cpp and Server/src/trade_stream_reader.cpp do once they are
-- stopped.
use osborne_x.Base.{
  ℕ, zero, suc, ◌+◌, ◌<◌, ◌≡◌, refl, sym, ap, subst, ◌∙◌, inl, inr, Bool, true, false, List, [],
  ◌∷◌, map, arith, if◌then◌else◌, length, length-append, Bool-cases, ltb,
}
use osborne_x.PubSub.Polling.{Source, Subscriber, poll, poll_all_sources_once}
use osborne_x.PubSub.Unread.{
  after, live, sum, largest, sum-after, largest-after, live-largest, zeros-after, none_live,
  IsFollowed, IsFollowed-read, IsFollowed-end,
}

module _ {ℓ} {A : Type ℓ} where
  -- The loop at the end of `stop`, a round for each unit of fuel, and whether it ended.
  unfoldable pub poll_until_quiet : ℕ → Subscriber A → Subscriber A × Bool
  poll_until_quiet zero s = (s, false)
  poll_until_quiet (suc fuel) s =
      let (s', progressed) = poll_all_sources_once s in
      let rest = poll_until_quiet fuel s' in if progressed then rest else (s', true)

  -- Each source with the number of values that its buffer still holds for it.
  pub data AreFollowed : List (Source A) → List ℕ → Type ℓ where
    no_source : AreFollowed [] []
    source :
        {s : Source A} {n : ℕ} {ss : List (Source A)} {ns : List ℕ}
        → IsFollowed s n
        → AreFollowed ss ns
        → AreFollowed (s ∷ ss) (n ∷ ns)

  poll-AreFollowed :
      (ss : List (Source A)) (ns : List ℕ)
      → AreFollowed ss ns
      → AreFollowed (poll ss).0 (after ns)
        × (length (poll ss).1 ≡ live ns)
        × ((poll ss).2 ≡ ltb 0 (live ns))
  unfolding poll
  poll-AreFollowed [] [] no_source = (no_source, refl, refl)
  poll-AreFollowed [] (n ∷ ns) f = elim f [ ]
  poll-AreFollowed (s ∷ ss) [] f = elim f [ ]
  poll-AreFollowed (s ∷ ss) (zero ∷ ns) (source f fs) =
      let (r, e, g) = IsFollowed-end s f in
      let (gs, counted, progressed) = poll-AreFollowed ss ns fs in
      rw e (source g gs, counted, progressed)
  poll-AreFollowed (s ∷ ss) (suc n ∷ ns) (source f fs) =
      let (v, r, e, g) = IsFollowed-read s n f in
      let (gs, counted, progressed) = poll-AreFollowed ss ns fs in
      rw e (source g gs, ap suc counted, ground arith)

  -- What the loop is to leave: nothing unread, and one event for each value that the buffers held.
  pub record IsCaught (ns : List ℕ) (s s' : Subscriber A) (ended : Bool) : Type ℓ where
    pub quiet : ended ≡ true
    pub emptied : AreFollowed s'.sources (map (λ _. 0) ns)
    pub counted : length s'.events ≡ length s.events + sum ns

  poll_until_quiet-step :
      (fuel : ℕ) (s : Subscriber A)
      → poll_until_quiet (suc fuel) s ≡ (
          if (poll_all_sources_once s).1
          then poll_until_quiet fuel (poll_all_sources_once s).0
          else ((poll_all_sources_once s).0, true))
  unfolding poll_until_quiet
  poll_until_quiet-step fuel s = refl

  -- The polling after a stop ends, and by then each subscriber has had one event for each value that its
  -- buffers still held for it, and has none left to read. Each buffer holds the last values of a history
  -- whose sequences have not yet wrapped, and there is more fuel than a buffer holds values.
  pub poll_until_quiet-IsCaught :
      (fuel : ℕ) (s : Subscriber A) (ns : List ℕ)
      → AreFollowed s.sources ns
      → largest ns < fuel
      → IsCaught ns s (poll_until_quiet fuel s).0 (poll_until_quiet fuel s).1
  unfolding poll_all_sources_once
  poll_until_quiet-IsCaught zero s ns f h = absurd (omega arith)
  poll_until_quiet-IsCaught (suc fuel) s ns f h =
      let (fs, counted, progressed) = poll-AreFollowed s.sources ns f in
      let s' : Subscriber A = (poll_all_sources_once s).0 in
      let more : length s'.events ≡ length s.events + live ns =
        omega (arith, length-append s.events (poll s.sources).1, counted) in
      let same : (b : Bool)
          → (poll_all_sources_once s).1 ≡ b
          → poll_until_quiet (suc fuel) s ≡ (if b then poll_until_quiet fuel s' else (s', true)) =
        λ b e.
          poll_until_quiet-step fuel s
          ∙ ap (λ (c : Bool). if c then poll_until_quiet fuel s' else (s', true)) e in
      elim (Bool-cases (ltb 0 (live ns))) [
        | inl l ↦
            let rest =
              poll_until_quiet-IsCaught fuel s' (after ns) fs
                (omega (arith, h, largest-after ns, live-largest ns l)) in
            subst (λ (t : Subscriber A × Bool). IsCaught ns s t.0 t.1)
              (sym (same true (progressed ∙ l)))
              (record {
                quiet = rest.quiet;
                emptied = subst (AreFollowed _) (zeros-after ns) rest.emptied;
                counted = omega (arith, rest.counted, more, sum-after ns);
              })
        | inr l ↦
            subst (λ (t : Subscriber A × Bool). IsCaught ns s t.0 t.1)
              (sym (same false (progressed ∙ l)))
              (record {
                quiet = refl;
                emptied = subst (AreFollowed (poll s.sources).0) (none_live ns l).0 fs;
                counted = omega (arith, more, sum-after ns, (none_live ns l).1);
              })
      ]
