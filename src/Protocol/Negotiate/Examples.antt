-- ===== src/Protocol/Negotiate/Examples.antt =====
-- The hello of the source's tests.
use holdfast.Base.{ok, ◌*◌, ◌≡◌, refl, true, List, [], ◌∷◌, arith}
use holdfast.Protocol.Negotiate.{
  Capability, datagrams, tcp_forward, code, ClientHello, Negotiated, negotiate_server,
  select_capabilities,
}
use holdfast.Protocol.Negotiate.Agreement.{
  IsAcceptable, IsAgreement, negotiate_server-accepts, negotiate_server_sound,
}

abbrev hello : ClientHello
hello = record {
  major = 0;
  minor = 7;
  capabilities = 1 ∷ 2 ∷ [];
  max_frame_bytes = 512 * 1024;
  max_datagram_bytes = 1400;
  encodings = 1 ∷ [];
}

abbrev server_capabilities : List Capability
server_capabilities = datagrams ∷ tcp_forward ∷ []

abbrev outcome : Negotiated
outcome = record {
  major = 0;
  minor = 3;
  capabilities = datagrams ∷ [];
  max_frame_bytes = 256 * 1024;
  max_datagram_bytes = 1200;
}

happy_path : negotiate_server hello server_capabilities (256 * 1024) 1200 true ≡ ok outcome
unfolding negotiate_server select_capabilities code
happy_path = refl

negotiate_server-accepts_example :
    (n : Negotiated) × (negotiate_server hello server_capabilities (256 * 1024) 1200 true ≡ ok n)
    × IsAgreement hello server_capabilities (256 * 1024) 1200 true n
negotiate_server-accepts_example =
    negotiate_server-accepts hello server_capabilities (256 * 1024) 1200 true
      (record { same_major = refl; speaks_utf8 = refl; frame_fits = omega arith })

negotiate_server_sound_example : IsAcceptable hello
negotiate_server_sound_example =
    negotiate_server_sound hello server_capabilities (256 * 1024) 1200 true outcome happy_path
