-- ===== src/Conn/Dispatch/Refusals.antt =====
-- crates/daemon/src/conn.rs: a request that is answered with an error and changes nothing.
use holdfast.Base.{
  Bool-cases, Option-cases, text, ℕ, ◌≡◌, inl, inr, false, none, [], ◌∷◌, ◌++◌, arith,
}
use Prim.Native.String.{String}
use holdfast.Base.Map.{nat_key}
use holdfast.Protocol.Upload.{BeginUpload}
use holdfast.Protocol.Negotiate.{Capability}
use holdfast.Observability.{AuditEvent, RejectReason}
use holdfast.Messages.{OpenTcpForward, ErrorCode, Envelope}
use holdfast.Conn.State.{App, World, Draws, permits}
use holdfast.Conn.Replies.{audited, send, reply_error, error_envelope}
use holdfast.Conn.Upload.{has_capability, begin_upload, begin_enabled, upload_rejected}
use holdfast.Conn.Forwards.{open_forward, forward_refused}
use holdfast.Conn.Dispatch.Effects.{SameShared}

-- The client got nothing or an error.
pub data OnlyError {S : Type 0} (w w' : World S) (channel : ℕ) : Type 0 where
  nothing_sent : w'.sent ≡ w.sent → OnlyError w w' channel
  error_sent :
      (request_id : ℕ) (code : ErrorCode) (message : String)
      → w'.sent ≡ w.sent ++ (channel, error_envelope request_id code message false) ∷ []
      → OnlyError w w' channel

pub record Refused {S : Type 0} (w w' : World S) (channel : ℕ) : Type 0 where
  pub same : SameShared w w'
  pub answer : OnlyError w w' channel

pub reply_error-Refused :
    {S : Type 0} (w : World S) (channel request_id : ℕ) (code : ErrorCode) (message : String)
    → Refused w (reply_error w channel request_id code message).0 channel
unfolding reply_error send
reply_error-Refused w channel request_id code message = elim (Bool-cases w.writer_open) [
  | inl taken ↦ record {
    same = ground (arith, taken);
    answer = OnlyError.error_sent request_id code message (ground (arith, taken));
  }
  | inr gone ↦ record {
    same = ground (arith, gone);
    answer = OnlyError.nothing_sent (ground (arith, gone));
  }
]

-- The same after an audit event.
pub audited_error-Refused :
    {S : Type 0} (w : World S) (event : AuditEvent) (channel request_id : ℕ) (code : ErrorCode)
    (message : String)
    → Refused w (reply_error (audited w event) channel request_id code message).0 channel
audited_error-Refused w event channel request_id code message =
    let r = reply_error-Refused (audited w event) channel request_id code message in
    record {
      same = record {
        manager = r.same.manager;
        uploads = r.same.uploads;
        forwards = r.same.forwards;
        commands = r.same.commands;
        attachments = r.same.attachments;
      };
      answer = elim r.answer [
        | OnlyError.nothing_sent e ↦ OnlyError.nothing_sent e
        | OnlyError.error_sent rid c t e ↦ OnlyError.error_sent rid c t e
      ];
    }

module _ (app : App) where
  open app use {terminal}
  open terminal use {Screen}

  pub begin_upload-Refused :
      (w : World Screen) (d : Draws Screen) (channel : ℕ) (envelope : Envelope)
      (begin : BeginUpload)
      → permits w.conn (text "upload") ≡ false
      → Refused w (begin_upload app w d channel envelope begin).0 channel
  unfolding begin_upload begin_enabled upload_rejected
  begin_upload-Refused w d channel envelope begin forbidden = elim (Option-cases w.uploads) [
    | inl disabled ↦
        (let at : begin_upload app w d channel envelope begin
              ≡ reply_error w channel envelope.request_id ErrorCode.unknown_message
                  "file transfer is disabled" =
            ground (arith, disabled) in
          rw at (reply_error-Refused w channel envelope.request_id _ _))
    | inr (service, enabled) ↦ elim (Bool-cases (has_capability w.conn Capability.file_transfer)) [
      | inr missing ↦
          (let at : begin_upload app w d channel envelope begin
                ≡ reply_error w channel envelope.request_id ErrorCode.unknown_message
                    "file transfer was not negotiated" =
              ground (arith, enabled, missing) in
            rw at (reply_error-Refused w channel envelope.request_id _ _))
      | inl negotiated ↦
          (let at : begin_upload app w d channel envelope begin
                ≡ reply_error
                    (audited w
                      (AuditEvent.upload_rejected w.conn.user_id none RejectReason.forbidden))
                    channel envelope.request_id ErrorCode.forbidden "grant does not permit upload" =
              ground (arith, enabled, negotiated, forbidden) in
            rw at (audited_error-Refused w _ channel envelope.request_id _ _))
    ]
  ]

  pub open_forward-Refused :
      (w : World Screen) (channel : ℕ) (envelope : Envelope) (request : OpenTcpForward)
      → permits w.conn (text "tcp-forward") ≡ false
      → Refused w (open_forward app w channel envelope request).0 channel
  unfolding open_forward forward_refused
  open_forward-Refused w channel envelope request forbidden =
      elim (Bool-cases (has_capability w.conn Capability.tcp_forward)) [
        | inr missing ↦
            (let at : open_forward app w channel envelope request
                  ≡ reply_error w channel envelope.request_id ErrorCode.unknown_message
                      "TCP forwarding is not enabled" =
                ground (arith, missing) in
              rw at (reply_error-Refused w channel envelope.request_id _ _))
        | inl negotiated ↦
            (let at : open_forward app w channel envelope request
                  ≡ reply_error w channel envelope.request_id ErrorCode.forbidden
                      "TCP forwarding is not allowed for this user" =
                ground (arith, negotiated, forbidden) in
              rw at (reply_error-Refused w channel envelope.request_id _ _))
      ]
