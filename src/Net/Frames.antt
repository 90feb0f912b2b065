-- ===== src/Net/Frames.antt =====
-- The frames of Net/inc/Net/wire/frame.hpp, and `recv_all` of Net/src/order_entry_listener.cpp. Here
-- a stream and a datagram are lists of bytes, and `running_` stays set; Receiving has the polls. How a
-- compiler lays a packed struct out is a parameter of what follows.
use osborne_x.Base.{
  ℕ, zero, suc, ◌<◌, ◌≡◌, refl, sym, ap, ◌∙◌, Bool, ◌&&◌, List, [], ◌∷◌, ◌++◌, subst, Option, none,
  some, ◌>>=◌, arith, ◌==◌, length,
}
use mathlib.Core.List.{append-nil}

-- The values of `MessageType`.
abbrev pub order_entry : ℕ
order_entry = 1

abbrev pub top_of_book_message : ℕ
top_of_book_message = 2

abbrev pub trade_execution : ℕ
trade_execution = 3

abbrev pub frame_magic : ℕ
frame_magic = 1331187249

abbrev pub frame_version : ℕ
frame_version = 1

pub record FrameHeader : Type 0 where
  pub magic : ℕ
  pub version : ℕ
  pub message_type : ℕ
  pub payload_length : ℕ

abbrev pub make_header : ℕ → ℕ → FrameHeader
make_header message_type payload_length = record {
  magic = frame_magic;
  version = frame_version;
  message_type = message_type;
  payload_length = payload_length;
}

-- The bytes of a packed struct: what `memcpy` copies out of it, and what it makes of bytes.
pub record Layout (S : Type 0) : Type 0 where
  pub size : ℕ
  pub bytes : S → List ℕ
  pub read : List ℕ → S

-- A struct has its size in bytes, and comes back from them whatever stands behind them.
pub record IsPacked {S : Type 0} (l : Layout S) : Type 0 where
  pub sized : (s : S) → length (l.bytes s) ≡ l.size
  pub restored : (s : S) (rest : List ℕ) → l.read (l.bytes s ++ rest) ≡ s

-- `recv_all` of so many bytes, and the stream behind them; `none` where the peer closes before.
unfoldable pub recv_all : ℕ → List ℕ → Option (List ℕ × List ℕ)
recv_all zero stream = some ([], stream)
recv_all (suc n) [] = none
recv_all (suc n) (b ∷ stream) = do (bytes, rest) ← recv_all n stream; some (b ∷ bytes, rest)

unfoldable pub drop : ℕ → List ℕ → List ℕ
drop zero bytes = bytes
drop (suc n) [] = []
drop (suc n) (b ∷ bytes) = drop n bytes

abbrev pub is_ours : FrameHeader → Bool
is_ours h = h.magic == frame_magic && h.version == frame_version

recv_all-bytes :
    (bytes rest : List ℕ) → recv_all (length bytes) (bytes ++ rest) ≡ some (bytes, rest)
unfolding recv_all
recv_all-bytes [] rest = refl
recv_all-bytes (b ∷ bytes) rest = rw (recv_all-bytes bytes rest) refl

pub recv_all-closed : (n : ℕ) → 0 < n → recv_all n [] ≡ none
unfolding recv_all
recv_all-closed zero h = absurd (omega arith)
recv_all-closed (suc n) h = refl

pub recv_all-struct :
    {S : Type 0} (l : Layout S)
    → IsPacked l
    → (s : S) (rest : List ℕ) → recv_all l.size (l.bytes s ++ rest) ≡ some (l.bytes s, rest)
recv_all-struct l p s rest =
    subst (λ n. recv_all n (l.bytes s ++ rest) ≡ some (l.bytes s, rest)) (p.sized s)
      (recv_all-bytes (l.bytes s) rest)

drop-bytes : (bytes rest : List ℕ) → drop (length bytes) (bytes ++ rest) ≡ rest
unfolding drop
drop-bytes [] rest = refl
drop-bytes (b ∷ bytes) rest = drop-bytes bytes rest

pub drop-struct :
    {S : Type 0} (l : Layout S)
    → IsPacked l
    → (s : S) (rest : List ℕ) → drop l.size (l.bytes s ++ rest) ≡ rest
drop-struct l p s rest =
    subst (λ n. drop n (l.bytes s ++ rest) ≡ rest) (p.sized s) (drop-bytes (l.bytes s) rest)

pub read-struct : {S : Type 0} (l : Layout S) → IsPacked l → (s : S) → l.read (l.bytes s) ≡ s
read-struct l p s = ap l.read (sym (append-nil (l.bytes s))) ∙ p.restored s []
