-- ===== src/Authenticators.antt =====
-- crates/daemon/src/auth.rs: how the daemon authenticates clients. A user's SSH keys and the password
-- back end are interfaces, whose implementations (crates/auth/src/ssh.rs, pam.rs) stand behind them.
use holdfast.Base.{if◌then◌else◌, Bytes, bytes_eq, any, Bool, true, false, Option, none, some, List}
use holdfast.Base.Map
use holdfast.Base.Map.{Map, bytes_key}
use holdfast.Grant.{Scheme}

-- One user's `SshVerifier`: whether the offered key, read by
-- `from_utf8_lossy`, is authorized, and whether a signature over the
-- channel binding and the challenge is by an authorized key.
pub record SshVerifier : Type 0 where
  pub is_authorized : Bytes → Bool
  pub verify_response : Bytes → Bytes → Bytes → Bool

pub data AuthMode : Type 0 where
  dev_insecure : AuthMode
  ssh_keys : Map Bytes SshVerifier → AuthMode

-- The allowlisted users, and `PasswordVerifier::verify` of a user and a password.
pub record PasswordAuth : Type 0 where
  pub users : List Bytes
  pub verifier : Bytes → Bytes → Bool

-- The limiter, which changes, is part of the connection's world.
pub record AuthState (scheme : Scheme) : Type 0 where
  pub mode : AuthMode
  pub password : Option PasswordAuth
  pub grant_signer : scheme.SigningKey
  pub grant_verifier : scheme.VerifyingKey
  pub audience : Bytes

-- `GrantSigner::from_bytes` and `GrantSigner::generate` give the key.
pub new :
    (scheme : Scheme)
    → AuthMode
    → Option PasswordAuth
    → Bytes
    → scheme.SigningKey
    → AuthState scheme
new scheme mode password audience key = record {
  mode = mode;
  password = password;
  grant_signer = key;
  grant_verifier = scheme.verifying_key key;
  audience = audience;
}

unfoldable pub verifier_in : AuthMode → Bytes → Option SshVerifier
verifier_in (ssh_keys users) username = Map.get users username
verifier_in dev_insecure username = none

unfoldable pub ssh_verifier : {scheme : Scheme} → AuthState scheme → Bytes → Option SshVerifier
ssh_verifier auth username = verifier_in auth.mode username

-- Only for allowlisted users.
unfoldable pub password_verifier :
    {scheme : Scheme} → AuthState scheme → Bytes → Option (Bytes → Bytes → Bool)
password_verifier auth username = elim auth.password [
  | none ↦ none
  | some p ↦ if any (λ u. bytes_eq u username) p.users then some p.verifier else none
]

unfoldable pub is_dev : AuthMode → Bool
is_dev dev_insecure = true
is_dev (ssh_keys users) = false
