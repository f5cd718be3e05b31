-- ===== src/Framing/Cut.antt =====
-- The unpacking loop on plain bytes, and the proof that the loop over the ring buffer does the same.
use linux.Base.{
  ℕ, ◌-◌, ◌≤◌, ◌≡◌, refl, ap, inl, inr, false, ◌||◌, some, arith, Bytes, ltb, if◌then◌else◌,
  Bool-cases, length, take, drop,
}
use linux.RecvBuffer.{RecvBuffer}
use linux.RecvBuffer.Inv.{IsValid, contents, length-contents}
use linux.RecvBuffer.Refine.{peek_stored, peek_string_lem, contents-consume}
use linux.Framing.{
  Round, wait, illegal, got, max_packet_size, ntohl, ntohs, take_body, take_packet, unpack_round,
}

-- What stands at the front of the received bytes.
pub data Front : Type 0 where
  part : Front
  wrong : Front
  whole : ℕ → Bytes → Bytes → Front

unfoldable pub front : Bytes → Front
front bs =
    if ltb (length bs) 4
    then part
    else let total = ntohl (take 4 bs) in
      if ltb total 6 || ltb max_packet_size total
      then wrong
      else if ltb (length bs) total
      then part
      else whole (ntohs (take 2 (drop 4 bs))) (take (total - 6) (drop 6 bs)) (drop total bs)

module _ (decode : ℕ → Bytes → Bytes) where
  -- The ring's round against the front of its contents.
  abbrev pub Agrees : Round → Front → Type 0
  Agrees wait part = Unit {0}
  Agrees illegal wrong = Unit {0}
  Agrees (got t b r) (whole t' b' rest) =
      (t ≡ t') × (b ≡ decode t' b') × (contents r ≡ rest) × IsValid r
  Agrees _ _ = ⊥

  -- From the length on, once four bytes are there.
  take_packet-Agrees :
      (r : RecvBuffer)
      → IsValid r
      → 4 ≤ r.size
      → Agrees (take_packet decode r (some (take 4 (contents r)))) (front (contents r))
  unfolding take_packet take_body front
  take_packet-Agrees r v h =
      let total = ntohl (take 4 (contents r)) in
      let enough : ltb r.size 4 ≡ false = ground arith in
      rw (length-contents r, enough)
        (elim (Bool-cases (ltb total 6 || ltb max_packet_size total)) [
          | inl bad ↦ rw bad tt
          | inr fine ↦ elim (Bool-cases (ltb r.size total)) [
            | inl short ↦ rw (fine, short) tt
            | inr all ↦
                let bounds : (6 ≤ total) × (total ≤ r.size) = ground arith in
                let (valid, rest) = contents-consume r total v in
                rw (fine, all, peek_stored r 2 4 v (omega arith))
                  (
                    refl,
                    ap (decode (ntohs (take 2 (drop 4 (contents r)))))
                        (peek_string_lem r 6 (total - 6) v (omega arith)),
                    rest,
                    valid,
                  )
          ]
        ])

  -- A round of the loop over the ring buffer does what the front of the contents says, and leaves the ring
  -- holding the rest.
  pub unpack_round-Agrees :
      (r : RecvBuffer) → IsValid r → Agrees (unpack_round decode r) (front (contents r))
  unfolding unpack_round
  unpack_round-Agrees r v = elim (Bool-cases (ltb r.size 4)) [
    | inl few ↦ unfold front in rw (few, length-contents r, few) tt
    | inr enough ↦
        let h : 4 ≤ r.size = ground arith in
        rw (enough, peek_stored r 4 0 v (omega arith)) (take_packet-Agrees r v h)
  ]
