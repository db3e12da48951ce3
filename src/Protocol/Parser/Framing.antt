-- ===== src/Protocol/Parser/Framing.antt =====
-- Laws of the stream specification: frames of longer streams, composition, and encoded packets.
use protocol_design.Prelude.{
  ℕ, zero, suc, ◌≤◌, ◌<◌, ◌≡◌, refl, sym, ◌∙◌, List, [], ◌∷◌, ◌++◌, length, drop, arith,
  append_assoc, length-append, length-drop, take-append_left, drop-append_left, take-append_self,
  drop-append_self, All,
}
use protocol_design.Protocol.{
  Header, Packet, protocol_magic, max_body_length, serialize_header, deserialize_header,
}
use protocol_design.Protocol.Wire.{
  IsHeader, deserialize-append, deserialize-serialize, length-serialize_header,
}
use protocol_design.Protocol.Parser.Stream.{
  Frame, need_more, violation, packet, frame, frame_body, Stream, live, dead, Frames, stalled,
  broken, next, encode, encode_all,
}

frame_body-append :
    (h : Header) (r t : List ℕ) (k : Packet) (rest : List ℕ)
    → frame_body h r ≡ packet k rest
    → frame_body h (r ++ t) ≡ packet k (rest ++ t)
unfolding frame_body
frame_body-append h r t k rest e = ground (
  arith,
  length-append r t,
  take-append_left h.body_length r t,
  drop-append_left h.body_length r t,
)

-- A packet that has arrived whole is not changed by what arrives later.
pub frame-append_packet :
    (s t : List ℕ) {k : Packet} {rest : List ℕ}
    → frame s ≡ packet k rest
    → frame (s ++ t) ≡ packet k (rest ++ t)
unfolding frame
frame-append_packet s t {k} {rest} e = ground (
  arith,
  length-append s t,
  deserialize-append s t,
  drop-append_left 13 s t,
  frame_body-append (deserialize_header s) (drop 13 s) t k rest,
)

-- Nor is a violation.
pub frame-append_violation : (s t : List ℕ) → frame s ≡ violation → frame (s ++ t) ≡ violation
unfolding frame frame_body
frame-append_violation s t e = ground (arith, length-append s t, deserialize-append s t)

-- Every packet takes at least a header from the stream.
pub frame-shrinks :
    (s : List ℕ) {k : Packet} {rest : List ℕ} → frame s ≡ packet k rest → length rest < length s
unfolding frame frame_body
frame-shrinks s {k} {rest} e =
    ground (arith, length-drop 13 s, length-drop (deserialize_header s).body_length (drop 13 s))

-- A packet whose header is right: the magic number, the ranges, and the length of its body.
pub record IsPacket (k : Packet) : Type 0 where
  pub header_ok : IsHeader k.header
  pub magic_ok : k.header.magic ≡ protocol_magic
  pub length_ok : k.header.body_length ≡ length k.body
  pub size_ok : k.header.body_length ≤ max_body_length

pub frame_parts :
    (s : List ℕ) {h : Header} {r : List ℕ}
    → 13 ≤ length s
    → deserialize_header s ≡ h
    → drop 13 s ≡ r
    → frame s ≡ frame_body h r
unfolding frame
frame_parts s l p q = ground arith

frame_body-encode :
    (k : Packet) (rest : List ℕ) → IsPacket k → frame_body k.header (k.body ++ rest) ≡ packet k rest
unfolding frame_body
frame_body-encode k rest v = ground (
  arith,
  length-append k.body rest,
  take-append_self k.header.body_length k.body rest,
  drop-append_self k.header.body_length k.body rest,
)

-- The first frame of a packet's wire form is that packet, whatever follows.
pub frame-encode :
    (k : Packet) (rest : List ℕ) → IsPacket k → frame (encode k ++ rest) ≡ packet k rest
frame-encode k rest v =
    let head = serialize_header k.header in
    let tail = k.body ++ rest in
    rw (append_assoc head k.body rest) (
      frame_parts (head ++ tail)
        (omega (arith, length-append head tail, length-serialize_header k.header))
        (deserialize-serialize k.header tail v.header_ok)
        (drop-append_self 13 head tail (sym (length-serialize_header k.header)))
      ∙ frame_body-encode k rest v)

Frames-within :
    (n : ℕ) (s : List ℕ) → length s < n → (ks : List Packet) × (e : Stream) × Frames s ks e
Frames-within zero s h = absurd (omega arith)
Frames-within (suc n) s h = go (frame s) refl (Frames-within n)
  where
    go :
        (f : Frame)
        → frame s ≡ f
        → ((r : List ℕ) → length r < n → (ks : List Packet) × (e : Stream) × Frames r ks e)
        → (ks : List Packet) × (e : Stream) × Frames s ks e
    go need_more e rec = ([], live s, stalled s e)
    go violation e rec = ([], dead, broken s e)
    go (packet k rest) e rec =
        let (ks, e', fs) = rec rest (omega (arith, frame-shrinks s e)) in (k ∷ ks, e', next e fs)

-- Every stream has its frames.
pub Frames-exist : (s : List ℕ) → (ks : List Packet) × (e : Stream) × Frames s ks e
Frames-exist s = Frames-within (suc (length s)) s (omega arith)

-- Frames of a part and frames of what is left with the next part are frames of the whole.
pub Frames-append :
    {s r : List ℕ} (t : List ℕ) {ks js : List Packet} {e : Stream}
    → Frames s ks (live r)
    → Frames (r ++ t) js e
    → Frames (s ++ t) (ks ++ js) e
Frames-append t (stalled _ _) f = f
Frames-append t (next {s = s} p g) f = next (frame-append_packet s t p) (Frames-append t g f)

pub Frames-append_dead :
    {s : List ℕ} (t : List ℕ) {ks : List Packet} → Frames s ks dead → Frames (s ++ t) ks dead
Frames-append_dead t (broken s p) = broken (s ++ t) (frame-append_violation s t p)
Frames-append_dead t (next {s = s} p g) = next (frame-append_packet s t p) (Frames-append_dead t g)

pub Frames-encode_all : (ks : List Packet) → All IsPacket ks → Frames (encode_all ks) ks (live [])
Frames-encode_all [] v = stalled [] (unfold frame in refl)
Frames-encode_all (k ∷ ks) v = next (frame-encode k (encode_all ks) v.0) (Frames-encode_all ks v.1)
