-- ===== src/Sharding/Rounds.antt =====
-- The two loops over the inbound buffer of Sharding/src/shard.cpp, `run` and `drain`, on the thread that is
-- to push.
use osborne_x.Base.{
  ℕ, zero, suc, ◌<◌, ◌≡◌, refl, sym, ap, subst, ◌∙◌, List, [], ◌∷◌, Option, none, some, ◌>>=◌,
  arith, length,
}
use osborne_x.Messages.{OrderMessage}
use osborne_x.Queue.RingBuffer.{word, RingBuffer, ReadResult, read_consumer}
use osborne_x.Queue.Stream.{read_consumer-next, read_consumer-end}
use osborne_x.Sharding.Shard.{Shard}
use osborne_x.Sharding.Worker.{Worker, process_on, drain_on, run_rounds}
use osborne_x.Sharding.Working.{IsOwned, process_on-Acts, IsFed, IsFed-process, IsFed-read}

-- What is read decides about the rest of a loop.
abbrev reads :
    (OrderMessage → Worker → Option Worker)
    → (Worker → Option Worker)
    → Worker
    → ReadResult × Option OrderMessage × RingBuffer OrderMessage
    → Option Worker
reads more done w t =
    let w' : Worker = record w { shard = record w.shard { inbound = t.2 } } in
    elim t.1 [ none ↦ done w' | some m ↦ more m w' ]

drain_on-reads :
    (fuel id : ℕ) (w : Worker)
    → drain_on (suc fuel) id w
      ≡ reads
          (λ m w'. process_on id m w' >>= drain_on fuel id)
          some
          w
          (read_consumer 0 w.shard.inbound)
unfolding drain_on
drain_on-reads fuel id w = refl

run_rounds-reads :
    (n id : ℕ) (w : Worker)
    → run_rounds (suc n) id w
      ≡ reads
          (λ m w'. process_on id m w' >>= run_rounds n id)
          (run_rounds n id)
          w
          (read_consumer 0 w.shard.inbound)
unfolding run_rounds
run_rounds-reads n id w = refl

-- The worker goes on: no assertion failed, and a rest of the messages waits.
pub record GoesOn (k : ℕ) (first : Shard) (ins : List OrderMessage) (Q : List OrderMessage → Type 0)
    (id : ℕ) (w : Worker) (o : Option Worker) : Type 0 where
  pub rest : List OrderMessage
  pub is_rest : Q rest
  pub after : Worker
  pub returns : o ≡ some after
  pub fed : IsFed k first ins rest after.shard
  pub running : after.running ≡ w.running
  pub thread : after.thread ≡ w.thread
  pub inbound : after.inbound_producer ≡ w.inbound_producer
  pub owned : IsOwned id after

module _ (k id : ℕ) (first : Shard) (ins : List OrderMessage) (fits : length ins < word) where
  -- A round that reads a message processes it, and the loop goes on with the rest.
  GoesOn-next :
      (Q : List OrderMessage → Type 0) (m : OrderMessage) (rest : List OrderMessage) (w : Worker)
      (o : Option Worker) (more : Worker → Option Worker) (done : Worker → Option Worker)
      → IsOwned id w
      → IsFed k first ins (m ∷ rest) w.shard
      → o ≡ reads (λ m w'. process_on id m w' >>= more) done w (read_consumer 0 w.shard.inbound)
      → ((w' : Worker)
          → IsOwned id w'
          → IsFed k first ins rest w'.shard
          → GoesOn k first ins Q id w' (more w'))
      → GoesOn k first ins Q id w o
  GoesOn-next Q m rest w o more done owned fed e on =
      let (r, read, t) = read_consumer-next k ins rest m 0 w.shard.inbound fits fed.tracked in
      let w1 : Worker = record w { shard = record w.shard { inbound = r } } in
      let (w2, acted, acts) = process_on-Acts id m w1 owned in
      let g = on w2 acts.owned (
        subst (IsFed k first ins rest) (sym acts.shard)
          (IsFed-process k first ins rest m w.shard r fed t)) in
      record {
        rest = g.rest;
        is_rest = g.is_rest;
        after = g.after;
        returns =
            e
            ∙ ap (reads (λ m w'. process_on id m w' >>= more) done w) read
            ∙ ap (λ u. u >>= more) acted
            ∙ g.returns;
        fed = g.fed;
        running = g.running ∙ acts.running;
        thread = g.thread ∙ acts.thread;
        inbound = g.inbound ∙ acts.inbound;
        owned = g.owned;
      }

  pub drain_on-GoesOn :
      (fuel : ℕ) (rest : List OrderMessage) (w : Worker)
      → IsOwned id w
      → IsFed k first ins rest w.shard
      → length rest < fuel
      → GoesOn k first ins (λ l. l ≡ []) id w (drain_on fuel id w)
  drain_on-GoesOn zero rest w owned fed h = absurd (omega arith)
  drain_on-GoesOn (suc fuel) [] w owned fed h =
      let (r, read, t) = read_consumer-end k ins 0 w.shard.inbound fed.tracked in
      record {
        rest = [];
        is_rest = refl;
        after = record w { shard = record w.shard { inbound = r } };
        returns =
            drain_on-reads fuel id w
            ∙ ap (reads (λ m w'. process_on id m w' >>= drain_on fuel id) some w) read;
        fed = IsFed-read k first ins w.shard r fed t;
        running = refl;
        thread = refl;
        inbound = refl;
        owned = owned;
      }
  drain_on-GoesOn (suc fuel) (m ∷ rest) w owned fed h =
      GoesOn-next (λ l. l ≡ []) m rest w _ (drain_on fuel id) some owned fed
        (drain_on-reads fuel id w) (λ w' o f. drain_on-GoesOn fuel rest w' o f (omega arith))

  pub run_rounds-GoesOn :
      (n : ℕ) (rest : List OrderMessage) (w : Worker)
      → IsOwned id w
      → IsFed k first ins rest w.shard
      → GoesOn k first ins (λ l. Unit {0}) id w (run_rounds n id w)
  unfolding run_rounds
  run_rounds-GoesOn zero rest w owned fed = record {
    rest = rest;
    is_rest = tt;
    after = w;
    returns = refl;
    fed = fed;
    running = refl;
    thread = refl;
    inbound = refl;
    owned = owned;
  }
  run_rounds-GoesOn (suc n) [] w owned fed =
      let (r, read, t) = read_consumer-end k ins 0 w.shard.inbound fed.tracked in
      let w' : Worker = record w { shard = record w.shard { inbound = r } } in
      let g = run_rounds-GoesOn n [] w' owned (IsFed-read k first ins w.shard r fed t) in
      record {
        rest = g.rest;
        is_rest = tt;
        after = g.after;
        returns =
            run_rounds-reads n id w
            ∙ ap (reads (λ m w'. process_on id m w' >>= run_rounds n id) (run_rounds n id) w) read
            ∙ g.returns;
        fed = g.fed;
        running = g.running;
        thread = g.thread;
        inbound = g.inbound;
        owned = g.owned;
      }
  run_rounds-GoesOn (suc n) (m ∷ rest) w owned fed =
      GoesOn-next (λ l. Unit {0}) m rest w _ (run_rounds n id) (run_rounds n id) owned fed
        (run_rounds-reads n id w) (λ w' o f. run_rounds-GoesOn n rest w' o f)
