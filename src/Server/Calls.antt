-- ===== src/Server/Calls.antt =====
-- The messages of a server of Server/src/server.cpp over any sequence of calls of it.
use osborne_x.Base.{
  ◌≡◌, refl, sym, ◌∙◌, ◌⊎◌, inl, inr, Bool, true, false, List, [], ◌∷◌, ◌++◌, none, some, arith,
  Bool-cases, Option-cases, if◌then◌else◌,
}
use mathlib.Core.List.{append_assoc, append-nil}
use osborne_x.Messages.{OrderMessage}
use osborne_x.Queue.MpscQueue.{Outcome-cases, MpscQueue, push, pop_blocking, close}
use osborne_x.Queue.Monitor.{accepted, push-conserves, pop-conserves}
use osborne_x.Net
use osborne_x.Net.Listener.{Answers, Listener}
use osborne_x.Server.{
  Server, start, finish_start, stop, start_pump, stop_pump, stop_consumers, receive_order,
  pump_once, Call, starts, stops, receives, pumps, perform, perform_all,
}
use osborne_x.Server.Lifecycle.{begun, start-begun, stop-running}
use osborne_x.Server.Pump.{emptied, stop_consumers-drained}

-- The messages that were submitted, then those that wait for the pump.
abbrev pub taken_in : Server → List OrderMessage
taken_in s = s.pump.submitted ++ s.inbound_queue.items

-- What a call adds to them: an order that is received while the queue is open.
abbrev pub adds : Call → Server → List OrderMessage
adds (receives m) s = accepted m s.inbound_queue
adds _ s = []

unfoldable pub adds_all : List Call → Server → List OrderMessage
adds_all [] s = []
adds_all (c ∷ cs) s = adds c s ++ (elim (perform c s) [ none ↦ [] | some s' ↦ adds_all cs s' ])

-- What stopping the consumers does to the messages.
abbrev pub queue_after : Server → MpscQueue OrderMessage
queue_after s = if s.pump.joinable then emptied s.inbound_queue else close s.inbound_queue

abbrev pub submitted_after : Server → List OrderMessage
submitted_after s = if s.pump.joinable then taken_in s else s.pump.submitted

pub stop_consumers-after :
    (s s' : Server)
    → stop_consumers s ≡ some s'
    → (s'.inbound_queue ≡ queue_after s) × (s'.pump.submitted ≡ submitted_after s)
unfolding stop_consumers stop_pump
stop_consumers-after s s' e = elim (Bool-cases s.pump.joinable) [
  | inl j ↦ ground (arith, stop_consumers-drained s j)
  | inr j ↦ ground arith
]

taken_in-after : (s s' : Server) → stop_consumers s ≡ some s' → taken_in s' ≡ taken_in s
unfolding close
taken_in-after s s' e = ground (arith, stop_consumers-after s s' e, append-nil (taken_in s))

-- The messages of a call of `start` are those before it, or those after the consumers were stopped.
abbrev pub IsLike : Server → Server → Type 0
IsLike s s' = (s'.inbound_queue ≡ s.inbound_queue) × (s'.pump.submitted ≡ s.pump.submitted)

abbrev pub StartsLike : Server → Server → Type 0
StartsLike s s' = IsLike s s' ⊎ ((t : Server) × IsLike s t × (stop_consumers t ≡ some s'))

finish_start-after :
    (s s' : Server) (l : Listener) (started r : Bool)
    → finish_start s (l, started) ≡ some (s', r)
    → StartsLike s s'
unfolding finish_start
finish_start-after s s' l true r e = inl (ground arith)
finish_start-after s s' l false r e =
    elim (Option-cases (stop_consumers (record s { listener = l }))) [
      | inl n ↦ absurd (ground arith)
      | inr (t, n) ↦ inr (record s { listener = l }, (refl, refl), ground arith)
    ]

start-after : (a : Answers) (s s' : Server) (r : Bool) → start a s ≡ some (s', r) → StartsLike s s'
unfolding start start_pump
start-after a s s' r e = elim (Bool-cases s.running) [
  | inl h ↦ inl (ground arith)
  | inr h ↦ elim (Bool-cases s.pump.joinable) [
    | inl j ↦ absurd (ground arith)
    | inr j ↦
        finish_start-after (begun s) s' (Net.Listener.start a s.listener).0
          (Net.Listener.start a s.listener).1 r (sym (start-begun a s j h) ∙ e)
  ]
]

pub starts-after : (a : Answers) (s s' : Server) → perform (starts a) s ≡ some s' → StartsLike s s'
unfolding perform
starts-after a s s' e = elim (Option-cases (start a s)) [
  | inl n ↦ absurd (ground arith)
  | inr ((t, r), n) ↦ start-after a s s' r (ground arith)
]

pub stop-after : (s s' : Server) → stop s ≡ some s' → StartsLike s s'
unfolding stop
stop-after s s' e = elim (Bool-cases s.running) [
  | inl h ↦ inr (
    record s { listener = Net.Listener.stop s.listener },
    (refl, refl),
    sym (stop-running s h) ∙ e,
  )
  | inr h ↦ inl (ground arith)
]

taken_in-like : (s s' : Server) → StartsLike s s' → taken_in s' ≡ taken_in s
taken_in-like s s' (inl (q, p)) = rw (q, p) refl
taken_in-like s s' (inr (t, (q, p), e)) = taken_in-after t s' e ∙ rw (q, p) refl

receive_order-conserves :
    (m : OrderMessage) (s s' : Server)
    → receive_order m s ≡ some s'
    → taken_in s' ≡ taken_in s ++ accepted m s.inbound_queue
unfolding receive_order
receive_order-conserves m s s' e = elim (Outcome-cases (push m s.inbound_queue)) [
  | inl n ↦ absurd (ground arith)
  | inr (q, n) ↦ ground (
    arith,
    push-conserves m s.inbound_queue q n,
    append_assoc s.pump.submitted s.inbound_queue.items (accepted m s.inbound_queue),
  )
]

pump_once-conserves : (s s' : Server) → pump_once s ≡ some s' → taken_in s' ≡ taken_in s
unfolding pump_once
pump_once-conserves s s' e = elim (Outcome-cases (pop_blocking s.inbound_queue)) [
  | inl n ↦ absurd (ground arith)
  | inr ((none, q), n) ↦ ground (arith, pop-conserves none s.inbound_queue q n)
  | inr ((some m, q), n) ↦ ground (
    arith,
    pop-conserves (some m) s.inbound_queue q n,
    append_assoc s.pump.submitted (m ∷ []) q.items,
  )
]

perform-conserves :
    (c : Call) (s s' : Server) → perform c s ≡ some s' → taken_in s' ≡ taken_in s ++ adds c s
unfolding perform
perform-conserves (starts a) s s' e =
    taken_in-like s s' (starts-after a s s' e) ∙ sym (append-nil (taken_in s))
perform-conserves stops s s' e =
    taken_in-like s s' (stop-after s s' e) ∙ sym (append-nil (taken_in s))
perform-conserves (receives m) s s' e = receive_order-conserves m s s' e
perform-conserves pumps s s' e = pump_once-conserves s s' e ∙ sym (append-nil (taken_in s))

-- No message is lost, doubled or reordered by any sequence of starts, stops, received orders and rounds
-- of the pump: what was submitted and what waits is, in this order, what it was before the calls, and
-- then the orders that were received while the queue was open. Every call returns.
pub perform_all-conserves :
    (cs : List Call) (s s' : Server)
    → perform_all cs s ≡ some s'
    → taken_in s' ≡ taken_in s ++ adds_all cs s
unfolding perform_all adds_all
perform_all-conserves [] s s' e = ground (arith, append-nil (taken_in s))
perform_all-conserves (c ∷ cs) s s' e = elim (Option-cases (perform c s)) [
  | inl n ↦ absurd (ground arith)
  | inr (t, n) ↦ ground (
    arith,
    perform-conserves c s t n,
    perform_all-conserves cs t s',
    append_assoc (taken_in s) (adds c s) (adds_all cs t),
  )
]
