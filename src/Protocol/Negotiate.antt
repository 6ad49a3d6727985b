-- ===== src/Protocol/Negotiate.antt =====
-- crates/protocol/src/negotiate.rs: version and capability negotiation. The wire carries enum
-- values as numbers, and a client may list numbers that this server does not know.
pub mod Agreement
mod Examples
use holdfast.Base.{
  ltb, leb, ◌==◌, if◌then◌else◌, any, all, retain, Result, ◌>>=◌, ◌>>◌, refuse, ok, ℕ, ◌-◌, ◌*◌,
  ◌/◌, min, max, ap, Bool, not, ◌||◌, List, map,
}
use holdfast.Protocol.Constants.{
  protocol_major, protocol_minor, tcp_forward_protocol_minor, file_transfer_protocol_minor,
  frame_bytes_floor, frame_bytes_ceiling,
}

-- The generated enum `Capability` of protocol/messages.proto, and `*c as i32`.
pub data Capability : Type 0 where
  unspecified datagrams clipboard file_transfer tcp_forward : Capability

pub code : Capability → ℕ
code unspecified = 0
code datagrams = 1
code clipboard = 2
code file_transfer = 3
code tcp_forward = 4

abbrev pub utf8_code : ℕ
utf8_code = 1

pub record ClientHello : Type 0 where
  pub major : ℕ
  pub minor : ℕ
  pub capabilities : List ℕ
  pub max_frame_bytes : ℕ
  pub max_datagram_bytes : ℕ
  pub encodings : List ℕ

pub record Negotiated : Type 0 where
  pub major : ℕ
  pub minor : ℕ
  pub capabilities : List Capability
  pub max_frame_bytes : ℕ
  pub max_datagram_bytes : ℕ

pub record ServerHello : Type 0 where
  pub major : ℕ
  pub minor : ℕ
  pub capabilities : List ℕ
  pub max_frame_bytes : ℕ
  pub max_datagram_bytes : ℕ
  pub keepalive_interval_ms : ℕ

pub data NegotiationError : Type 0 where
  major_version : ℕ → ℕ → NegotiationError
  no_utf8 : NegotiationError
  frame_limit_too_small : ℕ → NegotiationError

-- `list.contains(&n)`
abbrev pub contains : List ℕ → ℕ → Bool
contains xs n = any (λ x. x == n) xs

-- The derived equality of the enum, through its numbers.
abbrev pub is : Capability → Capability → Bool
is c d = code c == code d

select_capabilities : ClientHello → List Capability → ℕ → Bool → List Capability
select_capabilities hello server_capabilities selected_minor transport_supports_datagrams =
    let offered = retain (λ c. contains hello.capabilities (code c)) server_capabilities in
    let known_transfer =
      retain (λ c. not (is c file_transfer) || leb file_transfer_protocol_minor selected_minor)
        offered in
    let known =
      retain (λ c. not (is c tcp_forward) || leb tcp_forward_protocol_minor selected_minor)
        known_transfer in
    if not transport_supports_datagrams then retain (λ c. not (is c datagrams)) known else known

pub negotiate_server :
    ClientHello → List Capability → ℕ → ℕ → Bool → Result Negotiated NegotiationError
negotiate_server hello server_capabilities server_max_frame_bytes server_max_datagram_bytes
      datagram_transport =
    do
      refuse (not (hello.major == protocol_major)) (major_version hello.major protocol_major)
      refuse (not (contains hello.encodings utf8_code)) no_utf8
      refuse (ltb hello.max_frame_bytes frame_bytes_floor)
          (frame_limit_too_small hello.max_frame_bytes)
      let selected_minor = min hello.minor protocol_minor
      ok (record {
        major = protocol_major;
        minor = selected_minor;
        capabilities =
            select_capabilities hello server_capabilities selected_minor datagram_transport;
        max_frame_bytes =
            min (min hello.max_frame_bytes server_max_frame_bytes) frame_bytes_ceiling;
        max_datagram_bytes = min hello.max_datagram_bytes server_max_datagram_bytes;
      })

pub server_hello : Negotiated → ℕ → ServerHello
server_hello n keepalive_interval_ms = record {
  major = n.major;
  minor = n.minor;
  capabilities = map code n.capabilities;
  max_frame_bytes = n.max_frame_bytes;
  max_datagram_bytes = n.max_datagram_bytes;
  keepalive_interval_ms = keepalive_interval_ms;
}
