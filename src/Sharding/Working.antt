-- ===== src/Sharding/Working.antt =====
-- What the thread of a shard of Sharding/src/shard.cpp does to the messages that wait, and to the recorded
-- producers of the buffers.
use osborne_x.Base.{
  ℕ, ◌≡◌, refl, sym, ap, subst, ◌∙◌, inl, inr, ◌⊎◌, List, [], ◌∷◌, ◌++◌, none, some, ◌>>=◌, arith,
  if◌then◌else◌, Bool-cases,
}
use mathlib.Core.List.{append_assoc}
use osborne_x.Messages.{OrderMessage}
use osborne_x.Orderbook.Types.{Trade}
use osborne_x.Queue.RingBuffer.{RingBuffer}
use osborne_x.Queue.Stream.{IsTracked}
use osborne_x.Sharding.Shard.{Shard, process, trades_of, top_changed}
use osborne_x.Sharding.Draining.{process_all, process_all-append, process-inbound}
use osborne_x.Sharding.Worker.{Producer, Worker, assert_producer_thread, assert_pushes, process_on}

-- The buffer has no recorded producer but this thread.
abbrev pub IsFor : ℕ → Producer → Type 0
IsFor id p = (p ≡ none) ⊎ (p ≡ some id)

abbrev pub IsOwned : ℕ → Worker → Type 0
IsOwned id w = IsFor id w.top_producer × IsFor id w.trade_producer

pub assert_producer_thread-IsFor :
    (id : ℕ) (p : Producer) → IsFor id p → assert_producer_thread id p ≡ some (some id)
unfolding assert_producer_thread
assert_producer_thread-IsFor id none h = refl
assert_producer_thread-IsFor id (some p) (inl h) = absurd cc
assert_producer_thread-IsFor id (some p) (inr h) = ground arith

assert_pushes-IsFor :
    (id : ℕ) (ts : List Trade) (p : Producer)
    → IsFor id p
    → (p' : Producer) × (assert_pushes id ts p ≡ some p') × IsFor id p'
unfolding assert_pushes
assert_pushes-IsFor id [] p h = (p, refl, h)
assert_pushes-IsFor id (t ∷ ts) p h =
    let (p', e, f) = assert_pushes-IsFor id ts (some id) (inr refl) in
    (p', ap (λ o. o >>= assert_pushes id ts) (assert_producer_thread-IsFor id p h) ∙ e, f)

-- A step of a thread: the shard changes as it is to, and only this thread has pushed.
pub record Acts (id : ℕ) (w : Worker) (s : Shard) (w' : Worker) : Type 0 where
  pub shard : w'.shard ≡ s
  pub running : w'.running ≡ w.running
  pub thread : w'.thread ≡ w.thread
  pub inbound : w'.inbound_producer ≡ w.inbound_producer
  pub owned : IsOwned id w'

top-IsFor :
    (id : ℕ) (m : OrderMessage) (w : Worker)
    → IsFor id w.top_producer
    → (p : Producer) × ((if top_changed m w.shard
          then assert_producer_thread id w.top_producer
          else some w.top_producer)
        ≡ some p)
      × IsFor id p
top-IsFor id m w h = elim (Bool-cases (top_changed m w.shard)) [
  | inl e ↦ (some id, rw e (assert_producer_thread-IsFor id w.top_producer h), inr refl)
  | inr e ↦ (w.top_producer, rw e refl, h)
]

pub process_on-Acts :
    (id : ℕ) (m : OrderMessage) (w : Worker)
    → IsOwned id w
    → (w' : Worker) × (process_on id m w ≡ some w') × Acts id w (process m w.shard) w'
unfolding process_on
process_on-Acts id m w (top, trade) =
    let (p, e, f) = assert_pushes-IsFor id (trades_of m w.shard) w.trade_producer trade in
    let (q, g, h) = top-IsFor id m w top in
    (
      record w { shard = process m w.shard; trade_producer = p; top_producer = q },
      rw (e, g) refl,
      record { shard = refl; running = refl; thread = refl; inbound = refl; owned = (h, f) },
    )

-- The shard has processed the first of the messages that were brought, and the rest waits.
pub record IsFed (k : ℕ) (first : Shard) (ins rest : List OrderMessage) (s : Shard) : Type 0 where
  pub outs : List OrderMessage
  pub split : ins ≡ outs ++ rest
  pub tracked : IsTracked k ins rest 0 s.inbound
  pub processed : s ≡ record (process_all outs first) { inbound = s.inbound }

pub IsFed-process :
    (k : ℕ) (first : Shard) (ins rest : List OrderMessage) (m : OrderMessage) (s : Shard)
    (r : RingBuffer OrderMessage)
    → IsFed k first ins (m ∷ rest) s
    → IsTracked k ins rest 0 r
    → IsFed k first ins rest (process m (record s { inbound = r }))
unfolding process_all
IsFed-process k first ins rest m s r f t =
    let step : process_all (f.outs ++ m ∷ []) first ≡ process m (process_all f.outs first) =
      process_all-append f.outs (m ∷ []) first in
    let same : process m (record s { inbound = r })
        ≡ record (process_all (f.outs ++ m ∷ []) first) { inbound = r } =
      ap (λ (u : Shard). process m (record u { inbound = r })) f.processed
      ∙ process-inbound m (process_all f.outs first) r
      ∙ ap (λ (u : Shard). record u { inbound = r }) (sym step) in
    let kept : (process m (record s { inbound = r })).inbound ≡ r =
      ap (λ (u : Shard). u.inbound) same in
    record {
      outs = f.outs ++ m ∷ [];
      split = f.split ∙ sym (append_assoc f.outs (m ∷ []) rest);
      tracked = subst (IsTracked k ins rest 0) (sym kept) t;
      processed =
          same
          ∙ ap
              (λ (q : RingBuffer OrderMessage). record (process_all (f.outs ++ m ∷ []) first) {
                inbound = q;
              })
              (sym kept);
    }

pub IsFed-read :
    (k : ℕ) (first : Shard) (ins : List OrderMessage) (s : Shard) (r : RingBuffer OrderMessage)
    → IsFed k first ins [] s
    → IsTracked k ins [] 0 r
    → IsFed k first ins [] (record s { inbound = r })
IsFed-read k first ins s r f t = record {
  outs = f.outs;
  split = f.split;
  tracked = t;
  processed = ap (λ (u : Shard). record u { inbound = r }) f.processed;
}
