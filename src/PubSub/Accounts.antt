-- ===== src/PubSub/Accounts.antt =====
-- A lossy cursor of PubSub/src/subscriber.cpp keeps account: what was pushed it has read, or counted as
-- dropped, or has still before it.
use osborne_x.Base.{
  ℕ, ◌+◌, ◌≤◌, ◌<◌, ◌≡◌, ap, sym, subst, ◌^◌, ◌∙◌, inl, inr, List, [], ◌∷◌, ◌++◌, none, some, arith,
  length, length-append, get_elem?, get_elem?-set_self, ltb, Bool-cases,
}
use mathlib.Core.List.{append_assoc}
use osborne_x.Queue.RingBuffer.{
  word, RingBuffer, Consumer, ok, empty, lossy, read_consumer, push_overwrite, publish, write_value,
  write_seq,
}
use osborne_x.Queue.History.{Holds, push_overwrite-Holds}
use osborne_x.Queue.Reading.{target, try_read-empty, try_read_lem}
use osborne_x.Queue.Stream.{Holds-consumers, read_consumer_at, get_elem?-below}
use osborne_x.PubSub.Polling.{Source}
use osborne_x.PubSub.Sequences.{IsPart, IsPart-more, IsPart-append, split_behind}

module _ {ℓ} {A : Type ℓ} where
  -- A source with the values that were pushed to it and those that were read from it: some of those that
  -- the cursor has passed, in their order; it counts the others as dropped.
  pub record IsAccounted (s : Source A) (pushed read : List A) : Type ℓ where
    pub size : ℕ
    pub held : Holds size pushed s.buffer
    pub seen : List A
    pub rest : List A
    pub split : pushed ≡ seen ++ rest
    pub part : IsPart read seen
    pub reader :
        (c : Consumer) × (get_elem? s.buffer.consumers s.consumer ≡ some c)
        × (c.policy ≡ lossy)
        × (c.sequence ≡ length read + c.dropped_count)
        × (c.sequence ≡ length seen)

  pub IsAccounted-long :
      (s : Source A) (pushed read : List A) (a : IsAccounted s pushed read)
      → length pushed ≡ length a.seen + length a.rest
  IsAccounted-long s pushed read a = omega (arith, ap length a.split, length-append a.seen a.rest)

  push_overwrite-consumers :
      (v : A) (r : RingBuffer A) → (push_overwrite v r).consumers ≡ r.consumers
  unfolding push_overwrite publish write_value write_seq
  push_overwrite-consumers v r = ground arith

  pub IsAccounted-push :
      (s : Source A) (pushed read : List A) (v : A)
      → length pushed + 1 < word
      → IsAccounted s pushed read
      → IsAccounted (record s { buffer = push_overwrite v s.buffer }) (pushed ++ v ∷ []) read
  IsAccounted-push s pushed read v fits a =
      let (c, at, policy, counted, behind) = a.reader in
      record {
        size = a.size;
        held = push_overwrite-Holds a.size pushed v s.buffer fits a.held;
        seen = a.seen;
        rest = a.rest ++ v ∷ [];
        split = ap (λ l. l ++ v ∷ []) a.split ∙ append_assoc a.seen a.rest (v ∷ []);
        part = a.part;
        reader = (
          c,
          ap (λ cs. get_elem? cs s.consumer) (push_overwrite-consumers v s.buffer) ∙ at,
          policy,
          counted,
          behind,
        );
      }

  -- What a read does: it gives a value, where there is one.
  pub data Reads (s : Source A) (pushed read : List A) : Type ℓ where
    takes :
        (v : A) (r : RingBuffer A)
        → read_consumer s.consumer s.buffer ≡ (ok, some v, r)
        → IsAccounted (record s { buffer = r }) pushed (read ++ v ∷ [])
        → Reads s pushed read
    ends :
        (r : RingBuffer A)
        → read_consumer s.consumer s.buffer ≡ (empty, none, r)
        → IsAccounted (record s { buffer = r }) pushed read
        → Reads s pushed read

  takes-Reads :
      (s : Source A) (pushed read : List A) (a : IsAccounted s pushed read)
      → length pushed < word
      → a.reader.0.sequence < length pushed
      → Reads s pushed read
  takes-Reads s pushed read a fits h =
      let (c, at, policy, counted, behind) = a.reader in
      let below = get_elem?-below s.buffer.consumers s.consumer c at in
      let (v, found, tried) =
        try_read_lem a.size pushed s.buffer c fits a.held
          (record { behind = h; gated = inl policy; counted = omega (arith, counted, h, fits) }) in
      let t = target (length pushed) (2 ^ a.size) c in
      let ahead : length a.seen ≤ t = ground (arith, behind, h) in
      let (mid, after, cut, place) =
        split_behind a.seen a.rest t v ahead (subst (λ l. get_elem? l t ≡ some v) a.split found) in
      takes v _ (read_consumer_at s.consumer s.buffer c ok (some v) _ at tried) (record {
        size = a.size;
        held = Holds-consumers a.size pushed s.buffer _ a.held;
        seen = (a.seen ++ mid) ++ v ∷ [];
        rest = after;
        split =
            a.split
            ∙ ap (λ l. a.seen ++ l) cut
            ∙ sym (append_assoc a.seen mid (v ∷ after))
            ∙ sym (append_assoc (a.seen ++ mid) (v ∷ []) after);
        part = IsPart-append v (IsPart-more mid a.part);
        reader = (
          _,
          get_elem?-set_self s.buffer.consumers s.consumer _ below,
          policy,
          ground (arith, counted, h, fits, length-append read (v ∷ [])),
          omega (arith, place, length-append (a.seen ++ mid) (v ∷ []), length-append a.seen mid),
        );
      })

  pub IsAccounted-Reads :
      (s : Source A) (pushed read : List A)
      → length pushed < word
      → IsAccounted s pushed read
      → Reads s pushed read
  IsAccounted-Reads s pushed read fits a =
      let (c, at, policy, counted, behind) = a.reader in
      let below = get_elem?-below s.buffer.consumers s.consumer c at in
      elim (Bool-cases (ltb c.sequence (length pushed))) [
        | inl h ↦ takes-Reads s pushed read a fits (ground arith)
        | inr h ↦
            ends _
              (read_consumer_at s.consumer s.buffer c empty none c at
                (try_read-empty s.buffer s.buffer s.buffer c (ground (arith, a.held.produced))))
              (record {
                size = a.size;
                held = Holds-consumers a.size pushed s.buffer _ a.held;
                seen = a.seen;
                rest = a.rest;
                split = a.split;
                part = a.part;
                reader = (
                  c,
                  get_elem?-set_self s.buffer.consumers s.consumer c below,
                  policy,
                  counted,
                  behind,
                );
              })
      ]
