-- ===== src/Sharding/Draining.antt =====
-- `drain` of Sharding/src/shard.cpp, and its `run`, against the messages that wait in the inbound
-- buffer.
use osborne_x.Base.{
  ℕ, zero, suc, ◌++◌, ◌<◌, ◌≡◌, refl, sym, ap, subst, ◌∙◌, List, [], ◌∷◌, Option, none, some, arith,
  length,
}
use osborne_x.Messages.{OrderMessage}
use osborne_x.Queue.RingBuffer.{word, RingBuffer, ReadResult, ok, empty, read_consumer}
use osborne_x.Queue.Stream.{IsTracked, read_consumer-next, read_consumer-end}
use osborne_x.Sharding.Shard.{Shard, process, drain}

-- `process` of each message in turn.
unfoldable pub process_all : List OrderMessage → Shard → Shard
process_all [] s = s
process_all (m ∷ ms) s = process_all ms (process m s)

pub process-inbound :
    (m : OrderMessage) (s : Shard) (r : RingBuffer OrderMessage)
    → process m (record s { inbound = r }) ≡ record (process m s) { inbound = r }
unfolding process
process-inbound m s r = refl

pub process_all-inbound :
    (ms : List OrderMessage) (s : Shard) (r : RingBuffer OrderMessage)
    → process_all ms (record s { inbound = r }) ≡ record (process_all ms s) { inbound = r }
unfolding process_all
process_all-inbound [] s r = refl
process_all-inbound (m ∷ ms) s r =
    ap (process_all ms) (process-inbound m s r) ∙ process_all-inbound ms (process m s) r

pub process_all-append :
    (ms ns : List OrderMessage) (s : Shard)
    → process_all (ms ++ ns) s ≡ process_all ns (process_all ms s)
unfolding process_all
process_all-append [] ns s = refl
process_all-append (m ∷ ms) ns s = process_all-append ms ns (process m s)

-- What draining is to do, given the messages that wait.
pub record IsDrained (k : ℕ) (history rest : List OrderMessage) (s s' : Shard) : Type 0 where
  pub emptied : IsTracked k history [] 0 s'.inbound
  pub processed : s' ≡ record (process_all rest s) { inbound = s'.inbound }

drain-some :
    (fuel : ℕ) (s : Shard) (m : OrderMessage) (r : RingBuffer OrderMessage)
    → read_consumer 0 s.inbound ≡ (ok, some m, r)
    → drain (suc fuel) s ≡ drain fuel (process m (record s { inbound = r }))
unfolding drain
drain-some fuel s m r e =
    ap
      (λ (t : ReadResult × Option OrderMessage × RingBuffer OrderMessage).
        let s' : Shard = record s { inbound = t.2 } in
        let result : Shard = elim t.1 [ none ↦ s' | some m ↦ drain fuel (process m s') ] in result)
      e

drain-none :
    (fuel : ℕ) (s : Shard) (r : RingBuffer OrderMessage)
    → read_consumer 0 s.inbound ≡ (empty, none, r)
    → drain (suc fuel) s ≡ record s { inbound = r }
unfolding drain
drain-none fuel s r e =
    ap
      (λ (t : ReadResult × Option OrderMessage × RingBuffer OrderMessage).
        let s' : Shard = record s { inbound = t.2 } in
        let result : Shard = elim t.1 [ none ↦ s' | some m ↦ drain fuel (process m s') ] in result)
      e

-- `drain` ends, and by then has processed every message that waited, each once and in the order in
-- which they were enqueued. The inbound buffer is followed by its cursor, its sequences have not yet
-- wrapped, and there is more fuel than messages.
pub drain-IsDrained :
    (fuel k : ℕ) (history rest : List OrderMessage) (s : Shard)
    → length history < word
    → IsTracked k history rest 0 s.inbound
    → length rest < fuel
    → IsDrained k history rest s (drain fuel s)
unfolding process_all
drain-IsDrained zero k history rest s fits t h = absurd (omega arith)
drain-IsDrained (suc fuel) k history [] s fits t h =
    let (r, e, t') = read_consumer-end k history 0 s.inbound t in
    rw (drain-none fuel s r e) (record { emptied = t'; processed = refl })
drain-IsDrained (suc fuel) k history (m ∷ rest) s fits t h =
    let (r, e, t') = read_consumer-next k history rest m 0 s.inbound fits t in
    let s' : Shard = record (process m s) { inbound = r } in
    let done = drain-IsDrained fuel k history rest s' fits t' (omega arith) in
    let same : drain (suc fuel) s ≡ drain fuel s' =
      drain-some fuel s m r e ∙ ap (drain fuel) (process-inbound m s r) in
    subst (IsDrained k history (m ∷ rest) s) (sym same) (record {
      emptied = done.emptied;
      processed =
          done.processed
          ∙ ap (λ (u : Shard). record u { inbound = (drain fuel s').inbound })
              (process_all-inbound rest (process m s) r);
    })
