-- ===== src/Protocol/Negotiate/Agreement.antt =====
-- What a successful negotiation promises both sides, and when it is refused.
use holdfast.Base.{leb, if◌then◌else◌, ok, ℕ, ◌≤◌, min, ◌≡◌, Bool, true, ◌&&◌, List, [], ◌∷◌, arith}
use holdfast.Protocol.Constants.{
  protocol_major, protocol_minor, frame_bytes_floor, frame_bytes_ceiling,
}
use holdfast.Protocol.Negotiate.{
  Capability, datagrams, file_transfer, tcp_forward, code, utf8_code, ClientHello, Negotiated,
  contains, select_capabilities, negotiate_server,
}

-- When the protocol at minor `m` and the transport know the capability.
pub supported : ℕ → Bool → Capability → Bool
supported m datagram_transport datagrams = datagram_transport
supported m datagram_transport file_transfer = leb 2 m
supported m datagram_transport tcp_forward = leb 3 m
supported m datagram_transport _ = true

-- The capabilities in the server's order, tested once each.
pub agreed : ClientHello → List Capability → ℕ → Bool → List Capability
agreed hello [] m d = []
agreed hello (c ∷ cs) m d =
    if contains hello.capabilities (code c) && supported m d c
    then c ∷ agreed hello cs m d
    else agreed hello cs m d

select_capabilities-agreed :
    (hello : ClientHello) (cs : List Capability) (m : ℕ) (d : Bool)
    → select_capabilities hello cs m d ≡ agreed hello cs m d
unfolding select_capabilities agreed supported code
select_capabilities-agreed hello [] m d = ground arith
select_capabilities-agreed hello (datagrams ∷ cs) m d =
    ground (arith, select_capabilities-agreed hello cs m d)
select_capabilities-agreed hello (c ∷ cs) m d =
    ground (arith, select_capabilities-agreed hello cs m d)

-- The conditions under which a hello is accepted.
pub record IsAcceptable (hello : ClientHello) : Type 0 where
  pub same_major : hello.major ≡ protocol_major
  pub speaks_utf8 : contains hello.encodings utf8_code ≡ true
  pub frame_fits : frame_bytes_floor ≤ hello.max_frame_bytes

-- What the negotiated values are, by an independent description.
pub record IsAgreement (hello : ClientHello) (caps : List Capability) (frame datagram : ℕ)
    (d : Bool) (n : Negotiated) : Type 0 where
  pub capabilities : n.capabilities ≡ agreed hello caps n.minor d
  pub minor_client : n.minor ≤ hello.minor
  pub minor_server : n.minor ≤ protocol_minor
  pub frame_client : n.max_frame_bytes ≤ hello.max_frame_bytes
  pub frame_server : n.max_frame_bytes ≤ frame
  pub frame_ceiling : n.max_frame_bytes ≤ frame_bytes_ceiling
  pub datagram_client : n.max_datagram_bytes ≤ hello.max_datagram_bytes
  pub datagram_server : n.max_datagram_bytes ≤ datagram

module _ (hello : ClientHello) (caps : List Capability) (frame datagram : ℕ) (d : Bool) where
  -- Negotiation succeeds on every acceptable hello. The result is within the limits of both sides
  -- and of the protocol, and enables exactly the server's capabilities that the client listed and
  -- that the selected minor and the transport support.
  pub negotiate_server-accepts :
      IsAcceptable hello
      → (n : Negotiated) × (negotiate_server hello caps frame datagram d ≡ ok n)
        × IsAgreement hello caps frame datagram d n
  unfolding negotiate_server
  negotiate_server-accepts h =
      let m = min hello.minor protocol_minor in
      (
        record {
          major = protocol_major;
          minor = m;
          capabilities = select_capabilities hello caps m d;
          max_frame_bytes = min (min hello.max_frame_bytes frame) frame_bytes_ceiling;
          max_datagram_bytes = min hello.max_datagram_bytes datagram;
        },
        ground arith,
        record {
          capabilities = select_capabilities-agreed hello caps m d;
          minor_client = omega arith;
          minor_server = omega arith;
          frame_client = omega arith;
          frame_server = omega arith;
          frame_ceiling = omega arith;
          datagram_client = omega arith;
          datagram_server = omega arith;
        },
      )

  -- A negotiation that succeeds had an acceptable hello: every other one is refused.
  pub negotiate_server_sound :
      (n : Negotiated) → negotiate_server hello caps frame datagram d ≡ ok n → IsAcceptable hello
  unfolding negotiate_server
  negotiate_server_sound n e = ground arith
