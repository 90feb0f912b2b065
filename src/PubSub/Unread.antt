-- ===== src/PubSub/Unread.antt =====
-- How much a cursor of PubSub/src/subscriber.cpp or Server/src/trade_stream_reader.cpp has still to read.
use osborne_x.Base.{
  ℕ, zero, suc, ◌+◌, ◌-◌, ◌^◌, ◌≤◌, ◌<◌, ◌≡◌, refl, ap, ◌⊎◌, true, false, List, [], ◌∷◌, map, none,
  some, arith, if◌then◌else◌, length, get_elem?, get_elem?-set_self, ltb,
}
use native.Mathlib.Nat.{mod-lt}
use osborne_x.Queue.Bits.{two-pow_pos}
use osborne_x.Queue.RingBuffer.{word, RingBuffer, Consumer, ok, empty, lossy, read_consumer}
use osborne_x.Queue.History.{Holds}
use osborne_x.Queue.Reading.{target, advanced, try_read-empty, try_read_lem}
use osborne_x.Queue.Stream.{Holds-consumers, read_consumer_at, get_elem?-below}
use osborne_x.PubSub.Polling.{Source}

-- What is left after one value was read wherever there is one, and how many that are.
abbrev pub after : List ℕ → List ℕ
after [] = []
after (zero ∷ ns) = 0 ∷ after ns
after (suc n ∷ ns) = n ∷ after ns

abbrev pub live : List ℕ → ℕ
live [] = 0
live (zero ∷ ns) = live ns
live (suc n ∷ ns) = suc (live ns)

abbrev pub sum : List ℕ → ℕ
sum [] = 0
sum (n ∷ ns) = n + sum ns

abbrev pub largest : List ℕ → ℕ
largest [] = 0
largest (n ∷ ns) = if ltb n (largest ns) then largest ns else n

pub sum-after : (ns : List ℕ) → sum ns ≡ live ns + sum (after ns)
sum-after [] = refl
sum-after (zero ∷ ns) = omega (arith, sum-after ns)
sum-after (suc n ∷ ns) = omega (arith, sum-after ns)

pub largest-after : (ns : List ℕ) → largest (after ns) ≡ largest ns - 1
largest-after [] = refl
largest-after (zero ∷ ns) = ground (arith, largest-after ns)
largest-after (suc n ∷ ns) = ground (arith, largest-after ns)

pub live-largest : (ns : List ℕ) → ltb 0 (live ns) ≡ true → 0 < largest ns
live-largest [] h = cc
live-largest (zero ∷ ns) h = ground (arith, live-largest ns)
live-largest (suc n ∷ ns) h = ground arith

pub zeros-after : (ns : List ℕ) → map (λ (_ : ℕ). zero) (after ns) ≡ map (λ (_ : ℕ). zero) ns
zeros-after [] = refl
zeros-after (zero ∷ ns) = ap (◌∷◌ 0) (zeros-after ns)
zeros-after (suc n ∷ ns) = ap (◌∷◌ 0) (zeros-after ns)

pub none_live :
    (ns : List ℕ) → ltb 0 (live ns) ≡ false → (after ns ≡ map (λ (_ : ℕ). zero) ns) × (sum ns ≡ 0)
none_live [] h = (refl, refl)
none_live (zero ∷ ns) h = (ap (◌∷◌ 0) (none_live ns h).0, omega (arith, (none_live ns h).1))
none_live (suc n ∷ ns) h = absurd (ground arith)

-- A cursor for which so many values are still held.
pub record IsAt (produced size : ℕ) (c : Consumer) (n : ℕ) : Type 0 where
  pub behind : c.sequence ≤ produced
  pub unread : produced ≡ target produced size c + n
  pub gated : (c.policy ≡ lossy) ⊎ (produced ≤ c.sequence + size)
  pub counted : c.dropped_count < word

IsAt-behind :
    (produced size n : ℕ) (c : Consumer)
    → 0 < size
    → IsAt produced size c (suc n)
    → c.sequence < produced
IsAt-behind produced size n c h a = ground (arith, a.behind, a.unread)

IsAt-advanced :
    (produced size n : ℕ) (c : Consumer)
    → 0 < size
    → IsAt produced size c (suc n)
    → IsAt produced size (advanced produced size c) n
IsAt-advanced produced size n c h a = record {
  behind = ground (arith, a.unread);
  unread = ground (arith, a.behind, a.unread);
  gated = ground (arith, a.behind, a.unread, a.gated);
  counted = mod-lt (c.dropped_count + (target produced size c - c.sequence)) (omega arith);
}

IsAt-end :
    (produced size : ℕ) (c : Consumer) → 0 < size → IsAt produced size c 0 → produced ≤ c.sequence
IsAt-end produced size c h a = ground (arith, a.unread)

module _ {ℓ} {A : Type ℓ} where
  -- A cursor for which its buffer still holds so many values.
  pub record IsFollowed (s : Source A) (n : ℕ) : Type ℓ where
    pub history : List A
    pub size : ℕ
    pub fits : length history < word
    pub held : Holds size history s.buffer
    pub reader :
        (c : Consumer) × (get_elem? s.buffer.consumers s.consumer ≡ some c)
        × IsAt (length history) (2 ^ size) c n

  pub IsFollowed-read :
      (s : Source A) (n : ℕ)
      → IsFollowed s (suc n)
      → (v : A) × (r : RingBuffer A) × (read_consumer s.consumer s.buffer ≡ (ok, some v, r))
        × IsFollowed (record s { buffer = r }) n
  IsFollowed-read s n f =
      let (c, at, place) = f.reader in
      let (v, _, tried) = try_read_lem f.size f.history s.buffer c f.fits f.held (record {
        behind = IsAt-behind (length f.history) (2 ^ f.size) n c (two-pow_pos f.size) place;
        gated = place.gated;
        counted = place.counted;
      }) in
      (
        v,
        _,
        read_consumer_at s.consumer s.buffer c ok (some v) _ at tried,
        record {
          history = f.history;
          size = f.size;
          fits = f.fits;
          held = Holds-consumers f.size f.history s.buffer _ f.held;
          reader = (
            _,
            get_elem?-set_self s.buffer.consumers s.consumer _
                (get_elem?-below s.buffer.consumers s.consumer c at),
            IsAt-advanced (length f.history) (2 ^ f.size) n c (two-pow_pos f.size) place,
          );
        },
      )

  pub IsFollowed-end :
      (s : Source A)
      → IsFollowed s 0
      → (r : RingBuffer A) × (read_consumer s.consumer s.buffer ≡ (empty, none, r))
        × IsFollowed (record s { buffer = r }) 0
  IsFollowed-end s f =
      let (c, at, place) = f.reader in
      (
        _,
        read_consumer_at s.consumer s.buffer c empty none c at (
            try_read-empty s.buffer s.buffer s.buffer c (
              omega (
                arith,
                f.held.produced,
                IsAt-end (length f.history) (2 ^ f.size) c (two-pow_pos f.size) place,
              ))),
        record {
          history = f.history;
          size = f.size;
          fits = f.fits;
          held = Holds-consumers f.size f.history s.buffer _ f.held;
          reader = (
            c,
            get_elem?-set_self s.buffer.consumers s.consumer c
                (get_elem?-below s.buffer.consumers s.consumer c at),
            place,
          );
        },
      )
