-- ===== src/Fib/Sends.antt =====
-- What the arms send carries the packet that came in.
use rt_fogros.Prelude.{
  Text, Bool-cases, inl, inr, List, [], ◌∷◌, All, All-append, option_eq, Ensures, Ensures-bind,
  arith,
}
use rt_fogros.Packet.Name.{name_eq}
use rt_fogros.Packet.Types.{GdpPacket}
use rt_fogros.Fib.Types.{FibConnection, FibConnectionType, request_receiver}
use rt_fogros.Fib.Table.{Delivery, is_open, deliver}
use rt_fogros.Fib.Request.{send_request, send_requests}

module _ (P : GdpPacket → Type 0) (pkt : GdpPacket) (p : P pkt) where
  pub deliver-All :
      (kind : FibConnectionType) (rs : List FibConnection)
      → All (λ d. P d.packet) (deliver kind pkt rs)
  unfolding deliver
  deliver-All kind [] = tt
  deliver-All kind (dst ∷ rest) = elim (Bool-cases (is_open kind dst)) [
    | inl open_dst ↦ rw open_dst (p, deliver-All kind rest)
    | inr shut_dst ↦ rw shut_dst (deliver-All kind rest)
  ]

  pub send_request-All :
      (i : Text) (dst : FibConnection) → Ensures (All (λ d. P d.packet)) (send_request i pkt dst)
  unfolding send_request
  send_request-All i dst = ground (arith, p)

  pub send_requests-All :
      (i : Text) (rs : List FibConnection)
      → Ensures (All (λ d. P d.packet)) (send_requests i pkt rs)
  unfolding send_requests
  send_requests-All i [] = tt
  send_requests-All i (dst ∷ rest) = elim (Bool-cases (is_open request_receiver dst)) [
    | inr shut_dst ↦ rw shut_dst (send_requests-All i rest)
    | inl open_dst ↦ rw open_dst (
        Ensures-bind _ _ (send_request i pkt dst) _ (send_request-All i dst) (λ now n.
          Ensures-bind _ _ (send_requests i pkt rest) _ (send_requests-All i rest)
            (λ more m. All-append (λ (d : Delivery). P d.packet) now more n m)))
  ]
