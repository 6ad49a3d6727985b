-- ===== src/Conn/Examples.antt =====
-- Alice and Bob at a daemon with a password back end and one shell, which is Alice's.
use holdfast.Base.{
  Bytes, bytes_eq, replicate, text, ok, ℕ, ◌≡◌, refl, true, false, none, some, [], ◌∷◌, arith,
}
use holdfast.Base.Map
use holdfast.Base.Map.{Map, nat_key, bytes_key}
use holdfast.Grant.Examples.{toy as toy_scheme}
use holdfast.RateLimiter
use holdfast.RateLimiter.{default_policy, check}
use holdfast.Session.Examples.{
  toy as toy_terminal, toy_hash, config, starts, shell, alice_shell, request, with_shell, reached,
  opened_shell,
}
use holdfast.Session.Policy.{allow_all}
use holdfast.Session.Steps.{new, Reachable-IsConsistent}
use holdfast.Messages.{Method, Msg, Envelope}
use holdfast.Authenticators.{SshVerifier, AuthMode, is_dev, password_verifier}
use holdfast.Conn.State.{permits, Binding, Conn, App, World, Draws}
use holdfast.Conn.Authenticate.Challenge.{challenge_once}
use holdfast.Conn.Authenticate.{
  handle_authenticate, with_method, with_password, password_accepted, succeed_issuing_grant,
  logged_in,
}
use holdfast.Conn.Shells
use holdfast.Conn.Replies
use holdfast.Session.Attaching
use holdfast.Session.Manager
use holdfast.Session.Types.{is_running}
use holdfast.Conn.Attachments.{attach, attach_bound, token_from_wire, bind}
use holdfast.Conn.Replies.{send}
use holdfast.Session.Manager.{
  open_shell, existing_shell, open_new, over_limit, live_shells, owned_shells, spawner_target,
  register,
}
use holdfast.Conn.Dispatch.{
  live_uploads, is_pre_auth, route, route_control, authenticate, dispatch, dispatch_message,
}
use holdfast.Conn.Dispatch.Effects.{SameShared, unauthenticated_harmless}
use holdfast.Conn.Dispatch.Login.{Admitted, authenticated_by_evidence}
use holdfast.Conn.Dispatch.Limits.{IsBounded, dispatch-IsBounded}
use holdfast.Conn.Dispatch.Isolation.{is_attached_to, dispatch_isolated}
use holdfast.Conn.Dispatch.Scope.{asked_op, scope_enforced}
use holdfast.Conn.Dispatch.Refusals.{Refused}

abbrev pub only_alice : SshVerifier
only_alice = record {
  is_authorized = λ key. bytes_eq key (text "key");
  verify_response = λ binding challenge signature. bytes_eq challenge signature;
}

abbrev pub daemon : App
daemon = record {
  terminal = toy_terminal;
  token_hash = toy_hash;
  scheme = toy_scheme;
  auth = record {
    mode = AuthMode.ssh_keys ((text "alice", only_alice) ∷ []);
    password =
        some
          (record { users = text "bob" ∷ []; verifier = λ user given. bytes_eq given (text "pw") });
    grant_signer = 7;
    grant_verifier = 7;
    audience = text "srv";
  };
  server_id = 3 ∷ [];
  is_ip = λ host. false;
  is_utf8 = λ bytes. true;
  session_text = λ e. "";
  upload_text = λ e. "";
  negotiation_text = λ e. "";
}

abbrev pub drawn : Draws toy_terminal.Screen
drawn = record {
  now = 10;
  failed_at = 10;
  now_ms = 2000;
  expiry_now_ms = 2000;
  token = 2 ∷ [];
  shell_id = 4 ∷ [];
  challenge = text "nonce";
  jti = text "1";
  start = starts;
  resize_ok = true;
  write = λ bytes. (bytes, true);
  kill_ok = true;
  meanwhile = λ rt. rt;
  backend_begin = λ account limit. ok (record { upload_id = 1 ∷ []; maximum_chunk_bytes = limit });
  actor_receives = λ channel. true;
  command_taken = true;
}

abbrev pub greeted : Conn
greeted = record {
  peer_ip = 1;
  negotiated = some (record {
    major = 1;
    minor = 3;
    capabilities = [];
    max_frame_bytes = 65536;
    max_datagram_bytes = 1200;
  });
  authenticated = false;
  user_id = [];
  op_scope = none;
  channel_binding = [];
  pending_challenge = some (text "alice", text "nonce");
  transport_datagrams = false;
  attachments = [];
  uploads = [];
  forwards = [];
}

abbrev pub fresh : World toy_terminal.Screen
fresh = record {
  conn = greeted;
  manager = with_shell;
  rate_limiter = RateLimiter.new default_policy;
  uploads = none;
  forwards = record { users = []; active = [] };
  audit = [];
  sent = [];
  commands = [];
  writer_open = true;
}

-- Bob, who may only list.
abbrev as_bob : World toy_terminal.Screen
as_bob = record fresh {
  conn = record greeted {
    authenticated = true;
    user_id = text "bob";
    op_scope = some (text "list" ∷ []);
  };
}

abbrev terminate_it : Envelope
terminate_it = record {
  request_id = 5;
  server_id = [];
  shell_id = shell;
  message = some Msg.terminate_shell;
}

abbrev bob_password : Method
bob_password = Method.password_request (text "bob") (text "pw")

abbrev log_in : Envelope
log_in = record {
  request_id = 4;
  server_id = [];
  shell_id = [];
  message = some (Msg.authenticate (some bob_password));
}

unauthenticated_harmless_example : SameShared fresh (dispatch daemon fresh drawn 0 terminate_it).0
unauthenticated_harmless_example = unauthenticated_harmless daemon fresh drawn 0 terminate_it refl

bob_logged_in : (dispatch daemon fresh drawn 0 log_in).0.conn.authenticated ≡ true
unfolding dispatch live_uploads dispatch_message is_pre_auth route route_control authenticate
    handle_authenticate with_method with_password password_accepted succeed_issuing_grant logged_in
    send check RateLimiter.new is_dev password_verifier Map.get bytes_eq
bob_logged_in = refl

authenticated_by_evidence_example :
    (message : Msg) × (log_in.message ≡ some message)
    × Admitted daemon fresh drawn 0 message (dispatch daemon fresh drawn 0 log_in).0.conn
authenticated_by_evidence_example =
    authenticated_by_evidence daemon fresh drawn 0 log_in refl bob_logged_in

-- Alice answers her challenge wrongly, then rightly.
challenge_once_example :
    let after =
      (handle_authenticate daemon fresh drawn 1
        (some (Method.ssh_challenge_response (text "nonce") []))).0 in
    (handle_authenticate daemon after drawn 2
      (some (Method.ssh_challenge_response (text "nonce") (text "nonce")))).0.conn
    ≡ after.conn
unfolding check RateLimiter.new is_dev Map.get
challenge_once_example =
    challenge_once daemon fresh drawn drawn 1 2 (text "nonce") [] (text "nonce") (text "nonce") refl
      refl

scope_enforced_example :
    Refused as_bob (dispatch_message daemon as_bob drawn 0 terminate_it Msg.terminate_shell).0 0
unfolding asked_op permits Map.get bytes_eq
scope_enforced_example =
    scope_enforced daemon as_bob drawn 0 terminate_it Msg.terminate_shell (text "terminate") refl
      refl refl

as_bob-IsBounded : IsBounded as_bob.conn
as_bob-IsBounded = record { uploads = omega arith; forwards = omega arith }

dispatch-IsBounded_example : IsBounded (dispatch daemon as_bob drawn 0 terminate_it).0.conn
dispatch-IsBounded_example = dispatch-IsBounded daemon as_bob drawn 0 terminate_it as_bob-IsBounded

fresh_id : Map.get with_shell.shells (4 ∷ []) ≡ none
unfolding open_shell existing_shell open_new over_limit owned_shells spawner_target register new
    Map.get bytes_eq Map.insert allow_all live_shells
fresh_id = refl

dispatch_isolated_example :
    Map.get (dispatch daemon as_bob drawn 0 terminate_it).0.manager.shells shell ≡ some alice_shell
unfolding bytes_eq is_attached_to Map.get
dispatch_isolated_example =
    dispatch_isolated daemon as_bob drawn 0 terminate_it shell alice_shell
      (Reachable-IsConsistent toy_terminal toy_hash config allow_all with_shell reached) fresh_id
      opened_shell refl refl

-- Alice, whose shell was opened with a token of 32 bytes, attaches with it; a shorter one is malformed.
abbrev as_alice : World toy_terminal.Screen
as_alice = record fresh {
  conn = record greeted { authenticated = true; user_id = text "alice" };
  manager =
      (open_shell toy_terminal toy_hash (new config allow_all) request (replicate 32 2) shell 5
        starts).0;
}

abbrev attach_it : Envelope
attach_it = record terminate_it { message = none }

abbrev attached_with : Bytes → Map ℕ Binding
attached_with given =
    (attach daemon as_alice drawn 7 attach_it
      (record { resume_token = given; cols = 0; rows = 0 })).0.conn.attachments

token_lengths :
    (attached_with (replicate 32 2) ≡ (7, record { shell_id = shell; attachment_id = 1 }) ∷ [])
    × (attached_with (replicate 16 2) ≡ [])
unfolding attach attach_bound token_from_wire Shells.from_wire Shells.rejected permits Map.get
    Map.insert bytes_eq Attaching.attach Attaching.with_owned Attaching.attach_with_token
    Attaching.attach_runtime Attaching.fit_to_client Attaching.joined new open_shell existing_shell
    open_new allow_all over_limit live_shells owned_shells register spawner_target
    Manager.new_runtime Manager.open_dims Manager.clamp_dims Manager.rotate_token
    Manager.push_superseded Manager.put_runtime is_running bind send Replies.reply_error
token_lengths = (refl, refl)
