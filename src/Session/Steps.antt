-- ===== src/Session/Steps.antt =====
-- The steps of a shell manager as a relation: every method that changes it and both halves of the pump, in
-- any order. Each holds the shell's lock from its beginning to its end, except `terminate`: the steps of
-- others on that runtime during its wait are its `meanwhile`. `reap_idle` is a run of `terminate` steps.
use holdfast.Base.{Bytes, length, ℕ, ◌≤◌, ◌≡◌, Bool, Option, none, some, [], arith}
use holdfast.Base.Map
use holdfast.Base.Map.{Map, nat_key, bytes_key, pair_key}
use holdfast.Session.Policy.{AccessPolicy}
use holdfast.Session.Types.{
  ShellId, Token, ExitSummary, SessionCoreConfig, TerminalModel, Runtime, ShellEntry, ShellManager,
  OpenShellRequest, superseded_token_history,
}
use holdfast.Session.Manager.{rotate_token, Start, put_runtime, live_shells, open_shell}
use holdfast.Session.Attaching.{attach, attach_authorized}
use holdfast.Session.Attaching.Consistency.{
  rotate_token-Keeps, attach-IsConsistent, attach_authorized-IsConsistent,
}
use holdfast.Session.Manager.Opening.{open_shell-IsConsistent}
use holdfast.Session.Operations.{
  write_runtime, resize_runtime, kill_runtime, reaped_runtime, detach, write_input, resize,
  terminate, remove_exited,
}
use holdfast.Session.Operations.Consistency.{
  detach-IsConsistent, write_input-IsConsistent, resize-IsConsistent, terminate-IsConsistent,
  remove_exited-IsConsistent, Keeps-then, detach_runtime-Keeps, write_runtime-Keeps,
  resize_runtime-Keeps, kill_runtime-Keeps, reaped_runtime-Keeps,
}
use holdfast.Session.Pump.{pump_chunk, pump_eof}
use holdfast.Session.Pump.Consistency.{pump_chunk-Keeps, pump_eof-Keeps}
use holdfast.Session.Invariant.{Keeps, Keeps-self, IsConsistent, put_runtime-IsConsistent}

-- `ShellManager::with_policy`
unfoldable pub new : {S : Type 0} → SessionCoreConfig → AccessPolicy → ShellManager S
new config policy = record { config = config; policy = policy; shells = []; idempotency = [] }

module _ (tm : TerminalModel) (hash : Token → Bytes) where
  open tm use {Screen}

  -- What can happen to one shell's runtime while `terminate` waits: the pump's steps, the methods of other
  -- clients (an attach is refused by then and changes nothing) and another `terminate`.
  pub data RuntimeStep (capacity : ℕ) (rt : Runtime Screen) : Runtime Screen → Type 0 where
    chunk : (bytes : Bytes) → RuntimeStep capacity rt (pump_chunk tm capacity rt bytes)
    end : (waited : Option ExitSummary) → RuntimeStep capacity rt (pump_eof capacity rt waited).0
    detaching :
        (attachment_id : ℕ)
        → RuntimeStep capacity rt
            (record rt { attachments = Map.remove rt.attachments attachment_id })
    writing :
        (write : Bytes → Bytes × Bool) (bytes : Bytes)
        → RuntimeStep capacity rt (write_runtime write bytes rt).0
    resizing :
        (cols rows : ℕ) (resize_ok : Bool)
        → RuntimeStep capacity rt (resize_runtime tm cols rows resize_ok rt).0
    rotating : (token : Token) → RuntimeStep capacity rt (rotate_token hash rt token)
    killing :
        (kill_ok : Bool) → rt.exit ≡ none → RuntimeStep capacity rt (kill_runtime rt kill_ok).0
    reaping : RuntimeStep capacity rt (reaped_runtime rt).0

  pub data RuntimeSteps (capacity : ℕ) : Runtime Screen → Runtime Screen → Type 0 where
    done : (rt : Runtime Screen) → RuntimeSteps capacity rt rt
    next :
        (rt rt' rt'' : Runtime Screen)
        → RuntimeStep capacity rt rt'
        → RuntimeSteps capacity rt' rt''
        → RuntimeSteps capacity rt rt''

  -- A freshly drawn shell id is one that no shell has.
  pub data Step (m : ShellManager Screen) : ShellManager Screen → Type 0 where
    opened :
        (req : OpenShellRequest) (token : Token) (id : ShellId) (now : ℕ) (start : Start)
        → Map.get m.shells id ≡ none
        → Step m (open_shell tm hash m req token id now start).0
    attached :
        (owner : Bytes) (id : ShellId) (presented : Token) (cols rows : ℕ) (token : Token) (now : ℕ)
        (resize_ok : Bool)
        → Step m (attach tm hash m owner id presented cols rows token now resize_ok).0
    authorized :
        (owner : Bytes) (id : ShellId) (cols rows : ℕ) (token : Token) (now : ℕ) (resize_ok : Bool)
        → Step m (attach_authorized tm hash m owner id cols rows token now resize_ok).0
    detached : (id : ShellId) (attachment_id : ℕ) → Step m (detach m id attachment_id).0
    wrote :
        (write : Bytes → Bytes × Bool) (id : ShellId) (bytes : Bytes)
        → Step m (write_input write m id bytes).0
    resized :
        (id : ShellId) (cols rows : ℕ) (resize_ok : Bool)
        → Step m (resize tm m id cols rows resize_ok).0
    terminated :
        (id : ShellId) (kill_ok : Bool) (meanwhile : Runtime Screen → Runtime Screen)
        → ((rt : Runtime Screen) → RuntimeSteps m.config.max_queued_chunks rt (meanwhile rt))
        → Step m (terminate m id kill_ok meanwhile).0
    removed : (id : ShellId) → Step m (remove_exited m id).0
    -- The pump, or a part of a method, on one shell.
    stepped :
        (id : ShellId) (entry : ShellEntry Screen) (rt : Runtime Screen)
        → Map.get m.shells id ≡ some entry
        → RuntimeSteps m.config.max_queued_chunks entry.runtime rt
        → Step m (put_runtime m id entry rt)

  pub data Reachable (config : SessionCoreConfig) (policy : AccessPolicy)
      : ShellManager Screen → Type 0 where
    initial : Reachable config policy (new config policy)
    further :
        (m m' : ShellManager Screen)
        → Reachable config policy m
        → Step m m'
        → Reachable config policy m'

  RuntimeStep-Keeps :
      (limit capacity : ℕ) (rt rt' : Runtime Screen)
      → RuntimeStep capacity rt rt'
      → Keeps limit rt rt'
  RuntimeStep-Keeps limit capacity rt _ (chunk bytes) = pump_chunk-Keeps limit tm capacity rt bytes
  RuntimeStep-Keeps limit capacity rt _ (end waited) = pump_eof-Keeps limit capacity rt waited
  RuntimeStep-Keeps limit capacity rt _ (detaching attachment_id) =
      detach_runtime-Keeps limit attachment_id rt
  RuntimeStep-Keeps limit capacity rt _ (writing write bytes) =
      write_runtime-Keeps limit write bytes rt
  RuntimeStep-Keeps limit capacity rt _ (resizing cols rows resize_ok) =
      resize_runtime-Keeps tm limit cols rows resize_ok rt
  RuntimeStep-Keeps limit capacity rt _ (rotating token) = rotate_token-Keeps tm hash limit rt token
  RuntimeStep-Keeps limit capacity rt _ (killing kill_ok no_exit) =
      kill_runtime-Keeps limit rt kill_ok no_exit
  RuntimeStep-Keeps limit capacity rt _ reaping = reaped_runtime-Keeps limit rt

  RuntimeSteps-Keeps :
      (limit capacity : ℕ) (rt rt' : Runtime Screen)
      → RuntimeSteps capacity rt rt'
      → Keeps limit rt rt'
  RuntimeSteps-Keeps limit capacity rt _ (done _) = Keeps-self limit rt
  RuntimeSteps-Keeps limit capacity rt _ (next _ rt' rt'' s more) =
      Keeps-then limit rt rt' rt'' (RuntimeStep-Keeps limit capacity rt rt' s)
        (RuntimeSteps-Keeps limit capacity rt' rt'' more)

  Step-IsConsistent : (m m' : ShellManager Screen) → Step m m' → IsConsistent m → IsConsistent m'
  Step-IsConsistent m _ (opened req token id now start fresh) v =
      open_shell-IsConsistent tm hash m req token id now start v fresh
  Step-IsConsistent m _ (attached owner id presented cols rows token now resize_ok) v =
      attach-IsConsistent tm hash m owner id presented cols rows token now resize_ok v
  Step-IsConsistent m _ (authorized owner id cols rows token now resize_ok) v =
      attach_authorized-IsConsistent tm hash m owner id cols rows token now resize_ok v
  Step-IsConsistent m _ (detached id attachment_id) v = detach-IsConsistent m id attachment_id v
  Step-IsConsistent m _ (wrote write id bytes) v = write_input-IsConsistent write m id bytes v
  Step-IsConsistent m _ (resized id cols rows resize_ok) v =
      resize-IsConsistent tm m id cols rows resize_ok v
  Step-IsConsistent m _ (terminated id kill_ok meanwhile others) v =
      terminate-IsConsistent m id kill_ok meanwhile
        (λ rt.
          RuntimeSteps-Keeps m.config.max_attachments_per_shell m.config.max_queued_chunks rt
            (meanwhile rt) (others rt))
        v
  Step-IsConsistent m _ (removed id) v = remove_exited-IsConsistent m id v
  Step-IsConsistent m _ (stepped id entry rt found p) v =
      put_runtime-IsConsistent m id entry rt v found (
        RuntimeSteps-Keeps m.config.max_attachments_per_shell m.config.max_queued_chunks
          entry.runtime rt p)

  pub Reachable-IsConsistent :
      (config : SessionCoreConfig) (policy : AccessPolicy) (m : ShellManager Screen)
      → Reachable config policy m
      → IsConsistent m
  unfolding new live_shells Map.get
  Reachable-IsConsistent config policy _ initial = record {
    sound = λ id entry h. ground (arith, h);
    few = omega arith;
    scoped = λ user key id h. ground (arith, h);
    unique = tt;
  }
  Reachable-IsConsistent config policy _ (further m m' r s) =
      Step-IsConsistent m m' s (Reachable-IsConsistent config policy m r)

  -- Whatever steps a new manager takes, at most `max_shells` of its shells live.
  pub live_shells_bounded :
      (config : SessionCoreConfig) (policy : AccessPolicy) (m : ShellManager Screen)
      → Reachable config policy m
      → length (live_shells m) ≤ m.config.max_shells
  live_shells_bounded config policy m r = (Reachable-IsConsistent config policy m r).few

  -- Whatever steps a new manager takes, every shell has at most `max_attachments_per_shell` attachments
  -- and remembers at most 64 superseded tokens.
  pub shell_bounded :
      (config : SessionCoreConfig) (policy : AccessPolicy) (m : ShellManager Screen) (id : ShellId)
      (entry : ShellEntry Screen)
      → Reachable config policy m
      → Map.get m.shells id ≡ some entry
      → (length entry.runtime.attachments ≤ m.config.max_attachments_per_shell)
        × (length entry.runtime.superseded_token_hashes ≤ superseded_token_history)
  shell_bounded config policy m id entry r found =
      let s = (Reachable-IsConsistent config policy m r).sound id entry found in
      (s.attached, s.remembered)

  -- Whatever steps a new manager takes, an idempotency key of a user leads to a shell that is there and
  -- that this user owns, so that a retry never finds another user's shell.
  pub idempotency_scoped :
      (config : SessionCoreConfig) (policy : AccessPolicy) (m : ShellManager Screen)
      (user key : Bytes) (id : ShellId)
      → Reachable config policy m
      → Map.get m.idempotency (user, key) ≡ some id
      → (entry : ShellEntry Screen) × (Map.get m.shells id ≡ some entry) × (entry.owner ≡ user)
  idempotency_scoped config policy m user key id r =
      (Reachable-IsConsistent config policy m r).scoped user key id
