-- ===== src/Reading/Chunks.antt =====
-- How the stream was cut into pieces on the way plays no part.
use linux.Base.{
  ℕ, ◌+◌, ◌^◌, ◌≤◌, ◌<◌, ◌≡◌, refl, sym, ap, ◌∙◌, true, false, some, List, [], ◌∷◌, ◌++◌,
  append-nil, append_assoc, arith, Bytes, All, length, length-append,
}
use linux.RecvBuffer
use linux.RecvBuffer.{RecvBuffer}
use linux.RecvBuffer.Inv.{IsValid, contents, length-contents}
use linux.RecvBuffer.Append.{contents-append}
use linux.Framing.{Packet}
use linux.Framing.Cut.{front, part}
use linux.Framing.Stream.{IsPacket, stream, decoded, unpack-stream}
use linux.Reading.{Recv, received, closed, receive, Outcome, hand_on, unpacked, handle_read}

abbrev pub chunks : List Bytes → List Recv
chunks [] = []
chunks (b ∷ bs) = received b ∷ chunks bs

-- The pieces, and then the end of the connection.
abbrev pub close_after : List Bytes → List Recv
close_after [] = closed ∷ []
close_after (b ∷ bs) = received b ∷ close_after bs

abbrev pub joined : List Bytes → Bytes
joined [] = []
joined (b ∷ bs) = b ++ joined bs

receive-chunks :
    (bs : List Bytes) (r : RecvBuffer)
    → IsValid r
    → r.size + length (joined bs) ≤ 2 ^ 63
    → IsValid (receive (chunks bs) r).0
      × (contents (receive (chunks bs) r).0 ≡ contents r ++ joined bs)
      × ((receive (chunks bs) r).1 ≡ false)
unfolding receive
receive-chunks [] r v h = (v, sym (append-nil (contents r)), refl)
receive-chunks (b ∷ bs) r v h =
    let long = length-append b (joined bs) in
    let (v', same) = contents-append r b v (omega (arith, long)) in
    let size : (RecvBuffer.append b r).size ≡ r.size + length b =
      sym (length-contents (RecvBuffer.append b r))
      ∙ ap length same
      ∙ length-append (contents r) b
      ∙ ap (λ n. n + length b) (length-contents r) in
    let (v'', same', open_) =
      receive-chunks bs (RecvBuffer.append b r) v' (omega (arith, long, size)) in
    (v'', same' ∙ ap (λ d. d ++ joined bs) same ∙ append_assoc (contents r) b (joined bs), open_)

-- However the bytes of whole packets and the start of another arrive, in one piece or in many, behind what an
-- earlier run left in the buffer: `handleRead` hands on the decoded packets in order, does not disconnect, and
-- keeps the start of the packet that is not complete.
pub handle_read-chunks :
    (decode : ℕ → Bytes → Bytes) (bs : List Bytes) (ps : List Packet) (tail : Bytes) (fuel : ℕ)
    (r : RecvBuffer) (o : Outcome)
    → IsValid r
    → r.size + length (joined bs) ≤ 2 ^ 63
    → All IsPacket ps
    → contents r ++ joined bs ≡ stream ps ++ tail
    → front tail ≡ part
    → length ps < fuel
    → (out : RecvBuffer) × (handle_read decode fuel (chunks bs) r o
        ≡ some (out, hand_on (decoded decode ps) o))
      × (contents out ≡ tail)
      × IsValid out
unfolding handle_read unpacked
handle_read-chunks decode bs ps tail fuel r o v small legal same incomplete enough =
    let (v', all, open_) = receive-chunks bs r v small in
    let (out, e, rest, v'') =
      unpack-stream decode ps tail fuel (receive (chunks bs) r).0 v' legal (all ∙ same) incomplete
        enough in
    (out, rw (open_, e) refl, rest, v'')

-- When the peer has closed the connection, the packets that arrived in the same run are not handed on: the
-- thread pool and the answers are as before.
pub handle_read_closed :
    (decode : ℕ → Bytes → Bytes) (fuel : ℕ) (bs : List Bytes) (r : RecvBuffer) (o : Outcome)
    → (out : RecvBuffer) × (handle_read decode fuel (close_after bs) r o
        ≡ some (out, record o { disconnects = true }))
unfolding handle_read receive
handle_read_closed decode fuel bs r o = shut bs r
  where
    shut :
        (bs : List Bytes) (r : RecvBuffer)
        → (out : RecvBuffer) × (handle_read decode fuel (close_after bs) r o
            ≡ some (out, record o { disconnects = true }))
    shut [] r = (r, refl)
    shut (b ∷ bs) r = shut bs (RecvBuffer.append b r)
