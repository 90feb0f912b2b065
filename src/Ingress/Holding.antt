-- ===== src/Ingress/Holding.antt =====
-- The books of the shards of Simulation/src/simulation.cpp, over any interleaving of `submit` with the
-- draining of shards.
use osborne_x.Base.{
  ℕ, ◌<◌, ◌≡◌, sym, ap, subst, ◌∙◌, List, [], ◌∷◌, ◌++◌, some, All, length, get_elem?, arith,
}
use osborne_x.Messages.{OrderMessage}
use osborne_x.Queue.RingBuffer.{word}
use osborne_x.Queue.Stream.{IsTracked}
use osborne_x.Sharding.Shard.{Shard}
use osborne_x.Sharding.Books.{AreSound, HasPrice, books-AreSound}
use osborne_x.Sharding.Draining.{process_all}
use osborne_x.Ingress.Submit.{Simulation}
use osborne_x.Ingress.Flow.{Run}
use osborne_x.Ingress.Interleaving.{Run-Flows}

abbrev pub ArePriced : List OrderMessage → Type 0
ArePriced = All (λ (m : OrderMessage). HasPrice m.action m)

process_all-AreSound :
    (ms : List OrderMessage) (s : Shard)
    → ArePriced ms
    → AreSound s.books
    → AreSound (process_all ms s).books
unfolding process_all
process_all-AreSound [] s h v = v
process_all-AreSound (m ∷ ms) s h v = process_all-AreSound ms _ h.1 (books-AreSound m s h.0 v).0

first-ArePriced : (outs rest : List OrderMessage) → ArePriced (outs ++ rest) → ArePriced outs
first-ArePriced [] rest h = tt
first-ArePriced (m ∷ outs) rest h = (h.0, first-ArePriced outs rest h.1)

-- Over any interleaving of submissions with the draining of shards, the books of a shard stay sound: each
-- is sorted, filed right, in step with its index, not crossed, and without a fill-and-kill order. They are
-- so at the start, when the shard's inbound buffer is empty; its sequences have not yet wrapped; and the
-- messages name prices that are no NaN, where these are to be read.
pub Run-AreSound :
    (hash : ℕ → ℕ) (i k : ℕ) (start : Simulation) (before after : Shard) (ins : List OrderMessage)
    (s : Simulation)
    → get_elem? start.shards i ≡ some before
    → IsTracked k [] [] 0 before.inbound
    → AreSound before.books
    → Run hash i start ins s
    → length ins < word
    → ArePriced ins
    → get_elem? s.shards i ≡ some after
    → AreSound after.books
Run-AreSound hash i k start before after ins s at tracked v run fits priced now =
    let f = Run-Flows hash i k start before ins s at tracked run fits in
    let same : f.shard ≡ after = ground (arith, f.at) in
    let books : after.books ≡ (process_all f.outs before).books =
      ap (λ (t : Shard). t.books) (sym same ∙ f.processed) in
    subst AreSound (sym books) (
      process_all-AreSound f.outs before
        (first-ArePriced f.outs f.rest (subst ArePriced f.split priced)) v)
