-- ===== src/Server/Coherence.antt =====
-- That the parts of a server of Server/src/server.cpp agree, over any sequence of calls of it.
use osborne_x.Base.{
  ◌≡◌, subst, inl, inr, false, List, [], ◌∷◌, ◌++◌, none, some, arith, Bool-cases, Option-cases,
}
use osborne_x.Messages.{OrderMessage}
use osborne_x.Queue.MpscQueue.{Outcome-cases, MpscQueue, push, pop_blocking}
use osborne_x.Server.{
  Server, stop, receive_order, pump_once, Call, starts, stops, receives, pumps, perform,
  perform_all,
}
use osborne_x.Server.Lifecycle.{IsCoherent, start-Returns, stop-Returns}

stop-idle : (s : Server) → s.running ≡ false → stop s ≡ some s
unfolding stop
stop-idle s e = ground arith

IsCoherent-queue :
    (s : Server) (q : MpscQueue OrderMessage) (ms : List OrderMessage)
    → IsCoherent s
    → IsCoherent (record s {
      inbound_queue = q;
      pump = record { joinable = s.pump.joinable; submitted = ms };
    })
IsCoherent-queue s q ms h = record {
  simulating = h.simulating;
  sharded = h.sharded;
  pumping = h.pumping;
  reading = h.reading;
  listening = h.listening;
}

perform-IsCoherent :
    (c : Call) (s s' : Server) → IsCoherent s → perform c s ≡ some s' → IsCoherent s'
unfolding perform receive_order pump_once
perform-IsCoherent (starts a) s s' h e =
    let (t, r, f, _, k) = (start-Returns a s h).returned in subst IsCoherent (ground (arith, f)) k
perform-IsCoherent stops s s' h e = elim (Bool-cases s.running) [
  | inl p ↦ let (t, f, _, k, _, _) = stop-Returns s h p in subst IsCoherent (ground (arith, f)) k
  | inr p ↦ subst IsCoherent (ground (arith, stop-idle s p)) h
]
perform-IsCoherent (receives m) s s' h e = elim (Outcome-cases (push m s.inbound_queue)) [
  | inl n ↦ absurd (ground arith)
  | inr (q, n) ↦ subst IsCoherent (ground arith) (IsCoherent-queue s q s.pump.submitted h)
]
perform-IsCoherent pumps s s' h e = elim (Outcome-cases (pop_blocking s.inbound_queue)) [
  | inl n ↦ absurd (ground arith)
  | inr ((none, q), n) ↦ subst IsCoherent (ground arith) (IsCoherent-queue s q s.pump.submitted h)
  | inr ((some m, q), n) ↦
      subst IsCoherent (ground arith) (IsCoherent-queue s q (s.pump.submitted ++ m ∷ []) h)
]

-- After any sequence of calls all parts of a server run or none does, as its flag tells: a `start` that
-- fails does not leave it half running. Every call returns.
pub perform_all-IsCoherent :
    (cs : List Call) (s s' : Server) → IsCoherent s → perform_all cs s ≡ some s' → IsCoherent s'
unfolding perform_all
perform_all-IsCoherent [] s s' h e = subst IsCoherent (ground arith) h
perform_all-IsCoherent (c ∷ cs) s s' h e = elim (Option-cases (perform c s)) [
  | inl n ↦ absurd (ground arith)
  | inr (t, n) ↦ perform_all-IsCoherent cs t s' (perform-IsCoherent c s t h n) (ground arith)
]
