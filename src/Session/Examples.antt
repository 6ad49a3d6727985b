-- ===== src/Session/Examples.antt =====
-- A manager with a toy terminal, one user's shell and a second attachment.
use holdfast.Base.{
  Bytes, bytes_eq, length, replicate, any, text, ok, err, ℕ, ◌≤◌, ◌<◌, ◌≡◌, refl, ◌⊎◌, true, false,
  none, some, List, [], ◌∷◌, ◌++◌, arith,
}
use holdfast.Base.Map
use holdfast.Base.Map.{Map, nat_key, bytes_key, pair_key}
use holdfast.Session.Policy.{resolve_in, allow_all, static_policy, static_policy_sound}
use holdfast.Session.Types.{
  is_running, ShellId, Token, SessionCoreConfig, TerminalModel, Runtime, Sender, ShellEntry,
  ShellManager, OpenShellRequest, OpenedShell, Attachment, superseded_token_history, running,
  output, token_replayed,
}
use holdfast.Session.Manager.{
  open_new, over_limit, owned_shells, spawner_target, register, new_runtime, open_dims, clamp_dims,
  rotate_token, push_superseded, Start, live_shells, open_shell, existing_shell,
}
use holdfast.Session.Attaching.{
  with_owned, attach_with_token, attach_runtime, fit_to_client, same_size, resize_both, joined,
  attach,
}
use holdfast.Session.Attaching.Tokens.{attach_once}
use holdfast.Session.Manager.Reopening.{open_shell_idempotent}
use holdfast.Session.Pump.{pump_chunk}
use holdfast.Session.Pump.Delivery.{pump_chunk_delivers}
use holdfast.Session.Steps.{
  new, opened, Reachable, initial, further, live_shells_bounded, shell_bounded, idempotency_scoped,
}

abbrev alices : Map Bytes (List Bytes)
alices = (text "alice", text "web" ∷ text "db" ∷ []) ∷ []

static_policy_sound_example :
    (accounts : List Bytes) × (Map.get alices (text "alice") ≡ some accounts)
    × (any (λ a. bytes_eq (text "db") a) accounts ≡ true)
unfolding static_policy resolve_in Map.get bytes_eq
static_policy_sound_example =
    static_policy_sound alices (text "alice") (some (text "db")) (text "db") refl

-- The screen is all output and its size.
abbrev pub toy : TerminalModel
toy = record {
  Screen = Bytes × (ℕ × ℕ);
  create = λ cols rows lines bytes. ([], (cols, rows));
  feed = λ s chunk. (s.0 ++ chunk, s.1);
  resize = λ s cols rows. (s.0, (cols, rows));
  size = λ s. s.1;
  snapshot = λ s. s.0;
  revision = λ s. length s.0;
  oldest_line_id = λ s. 0;
  newest_line_id = λ s. 0;
  history_range = λ s before lines bytes. record {
    first_line_id = 0;
    lines = [];
    truncated_by_eviction = false;
  };
}

abbrev pub toy_hash : Token → Bytes
toy_hash token = 0 ∷ token

abbrev pub config : SessionCoreConfig
config = record {
  max_shells = 2;
  max_shells_per_user = 1;
  max_attachments_per_shell = 1;
  max_queued_chunks = 2;
  scrollback_max_lines = 10;
  scrollback_max_bytes = 100;
  privilege_drop = false;
  spawner_socket = none;
}

abbrev pub empty : ShellManager toy.Screen
empty = new config allow_all

abbrev pub request : OpenShellRequest
request = record {
  user = text "alice";
  requested_account = none;
  command = none;
  args = [];
  cols = 0;
  rows = 0;
  idempotency_key = replicate 16 1;
}

abbrev pub starts : Start
starts target account req dims = ok (record { winsize = dims; input = []; killed = false })

abbrev pub shell : ShellId
shell = replicate 16 9

abbrev pub token_a : Token
token_a = 1 ∷ []

abbrev token_b : Token
token_b = 2 ∷ []

abbrev pub with_shell : ShellManager toy.Screen
with_shell = (open_shell toy toy_hash empty request token_a shell 5 starts).0

fresh_shell : Map.get empty.shells shell ≡ none
unfolding new Map.get
fresh_shell = refl

pub reached : Reachable toy toy_hash config allow_all with_shell
reached = further empty with_shell initial (opened request token_a shell 5 starts fresh_shell)

live_shells_bounded_example : length (live_shells with_shell) ≤ with_shell.config.max_shells
live_shells_bounded_example = live_shells_bounded toy toy_hash config allow_all with_shell reached

abbrev pub fresh_runtime : Runtime toy.Screen
fresh_runtime = record {
  state = running;
  model = ([], (80, 24));
  process = some (record { winsize = (80, 24); input = []; killed = false });
  attachments = [];
  next_attachment_id = 1;
  token_hash = toy_hash token_a;
  superseded_token_hashes = [];
  exit = none;
  last_attached_at_ms = 0;
}

abbrev pub alice_shell : ShellEntry toy.Screen
alice_shell = record {
  id = shell;
  created_at_ms = 5;
  owner = text "alice";
  account = none;
  runtime = fresh_runtime;
}

pub opened_shell : Map.get with_shell.shells shell ≡ some alice_shell
unfolding Map.get Map.insert bytes_eq new open_shell existing_shell open_new over_limit owned_shells
    live_shells spawner_target register new_runtime open_dims clamp_dims allow_all
opened_shell = refl

shell_bounded_example :
    (length fresh_runtime.attachments ≤ with_shell.config.max_attachments_per_shell)
    × (length fresh_runtime.superseded_token_hashes ≤ superseded_token_history)
shell_bounded_example =
    shell_bounded toy toy_hash config allow_all with_shell shell alice_shell reached opened_shell

opened_key : Map.get with_shell.idempotency (text "alice", replicate 16 1) ≡ some shell
unfolding Map.get Map.insert bytes_eq new open_shell existing_shell open_new over_limit owned_shells
    live_shells spawner_target register new_runtime open_dims clamp_dims allow_all
opened_key = refl

idempotency_scoped_example :
    (entry : ShellEntry toy.Screen) × (Map.get with_shell.shells shell ≡ some entry)
    × (entry.owner ≡ text "alice")
idempotency_scoped_example =
    idempotency_scoped toy toy_hash config allow_all with_shell (text "alice") (replicate 16 1)
      shell reached opened_key

first_open : existing_shell toy toy_hash empty request ≡ none
unfolding existing_shell new Map.get
first_open = refl

abbrev answer : OpenedShell
answer = record { shell_id = shell; resume_token = token_a; reused = false }

first_answer : (open_shell toy toy_hash empty request token_a shell 5 starts).1 ≡ ok answer
unfolding Map.get Map.insert bytes_eq new open_shell existing_shell open_new over_limit owned_shells
    live_shells spawner_target register new_runtime open_dims clamp_dims allow_all
first_answer = refl

open_shell_idempotent_example :
    ((open_shell toy toy_hash with_shell request token_b (replicate 16 8) 6 starts).1
      ≡ ok (record { shell_id = shell; resume_token = token_b; reused = true }))
    × (length
          (open_shell toy toy_hash with_shell request token_b (replicate 16 8) 6 starts).0.shells
        ≡ length with_shell.shells)
open_shell_idempotent_example =
    open_shell_idempotent toy toy_hash empty request token_a shell 5 starts answer request token_b
      (replicate 16 8) 6 starts refl refl first_open first_answer

abbrev alice_attached : Attachment
alice_attached = record {
  attachment_id = 1;
  shell_id = shell;
  snapshot = [];
  screen_revision = 0;
  rotated_resume_token = token_b;
  oldest_history_line_id = 0;
  newest_history_line_id = 0;
}

first_attach :
    (attach toy toy_hash with_shell (text "alice") shell token_a 100 30 token_b 7 true).1
    ≡ ok alice_attached
unfolding Map.get Map.insert bytes_eq new open_shell existing_shell open_new over_limit owned_shells
    live_shells spawner_target register new_runtime open_dims clamp_dims allow_all attach with_owned
    attach_with_token attach_runtime fit_to_client same_size resize_both joined rotate_token
    push_superseded is_running
first_attach = refl

attach_once_example :
    (attach toy toy_hash
      (attach toy toy_hash with_shell (text "alice") shell token_a 100 30 token_b 7 true).0
      (text "alice")
      shell
      token_a
      0
      0
      (3 ∷ [])
      8
      true).1
    ≡ err token_replayed
unfolding bytes_eq
attach_once_example =
    attach_once toy toy_hash with_shell (text "alice") shell token_a 100 30 token_b 7 true
      alice_attached (text "alice") 0 0 (3 ∷ []) 8 true (λ e. ground (arith, e)) first_attach

abbrev slow : Sender
slow = record { queued = output [] ∷ output [] ∷ []; connected = true }

abbrev watched : Runtime toy.Screen
watched = record fresh_runtime {
  attachments = (1, record { queued = []; connected = true }) ∷ (2, slow) ∷ [];
}

slow_found : Map.get watched.attachments 2 ≡ some slow
unfolding Map.get
slow_found = refl

pump_chunk_delivers_example :
    ((slow.connected ≡ true)
      × (length slow.queued < 2)
      × (Map.get (pump_chunk toy 2 watched (65 ∷ [])).attachments 2
          ≡ some (record { queued = slow.queued ++ output (65 ∷ []) ∷ []; connected = true }))
      × (length (slow.queued ++ output (65 ∷ []) ∷ []) ≤ 2))
    ⊎ (((slow.connected ≡ false) ⊎ (2 ≤ length slow.queued))
        × (Map.get (pump_chunk toy 2 watched (65 ∷ [])).attachments 2 ≡ none))
pump_chunk_delivers_example =
    pump_chunk_delivers toy 2 watched (65 ∷ []) 2 slow (ground arith) slow_found
