-- ===== src/Share/Invite.antt =====
-- internal/sync/protocol.go: the invite code, in which one instance hands a share to another. The
-- JSON document of an invite is a parameter; its version is a number, so that a negative one, which
-- is refused like every foreign version, is left out.
use flightdeck.Base.{
  ℕ, zero, suc, ◌<◌, ◌≡◌, ◌≢◌, refl, ◌↔◌, not, ◌||◌, Option, none, some, [], ◌∷◌, ◌++◌, arith, ap,
  subst, ◌∙◌, inl, inr, Option-cases, nat_beq_iff, leb, if◌then◌else◌, ◌==◌, nat_eq, string_eq,
  length, All, Bool-cases,
}
use flightdeck.Base.Bytes.{IsByte, Bytes, codes, bytes_eq, bytes_beq_iff, has_prefix}
use flightdeck.Sync.Engine.{protocol_version}
use flightdeck.Share.Base64.{encode64, sextets, decode64, decode64-encode64}

pub record Invite : Type 0 where
  pub version : ℕ
  pub peer_name : Bytes
  pub project_slug : Bytes
  pub project_name : Bytes
  pub mailbox_url : Bytes
  pub send_mailbox : Bytes
  pub send_token : Bytes
  pub recv_mailbox : Bytes
  pub recv_token : Bytes
  pub secret : Bytes
  pub client_cert : Bytes
  pub client_key : Bytes
  pub ca_pem : Bytes

pub data InviteError : Type 0 where
  not_a_code malformed no_key no_details : InviteError
  foreign_version : ℕ → InviteError

pub data Decoded : Type 0 where
  accepted : Invite → Decoded
  rejected : InviteError → Decoded

-- chacha20poly1305.KeySize
abbrev pub key_size : ℕ
key_size = 32

abbrev pub invite_prefix : Bytes
invite_prefix = codes "fdshare_"

abbrev pub skip_prefix : ℕ → Bytes → Bytes
skip_prefix zero s = s
skip_prefix (suc n) [] = []
skip_prefix (suc n) (c ∷ s) = skip_prefix n s

unfoldable pub check_invite : Invite → Decoded
check_invite i =
    if not (i.version == protocol_version)
    then rejected (foreign_version i.version)
    else if not (length i.secret == key_size)
    then rejected no_key
    else if i.mailbox_url == [] || i.send_mailbox == [] || i.recv_mailbox == []
    then rejected no_details
    else accepted i

-- encoding/json on an invite.
pub record Json : Type 0 where
  pub marshal : Invite → Bytes
  pub unmarshal : Bytes → Option Invite

module _ (json : Json) where
  unfoldable pub encode_invite : Invite → Bytes
  unfolding encode64
  encode_invite i = invite_prefix ++ encode64 (json.marshal i)

  decode_document : Option Bytes → Decoded
  unfolding check_invite
  decode_document none = rejected malformed
  decode_document (some b) = elim (json.unmarshal b) [
    | none ↦ rejected malformed
    | some i ↦ check_invite i
  ]

  unfoldable pub decode_invite : Bytes → Decoded
  unfolding decode_document decode64 has_prefix
  decode_invite code =
      if leb (length code) (length invite_prefix) || not (has_prefix code invite_prefix)
      then rejected not_a_code
      else decode_document (decode64 (skip_prefix 8 code))

-- What an invite must have for the other instance to use it.
pub record IsUsable (i : Invite) : Type 0 where
  pub same_version : i.version ≡ protocol_version
  pub has_key : length i.secret ≡ key_size
  pub has_url : i.mailbox_url ≢ []
  pub has_send : i.send_mailbox ≢ []
  pub has_recv : i.recv_mailbox ≢ []

-- What encoding/json does with an invite: its document is made of bytes and reads back. An empty
-- text is no document.
pub record ReadsBack (json : Json) (i : Invite) : Type 0 where
  pub are_bytes : All IsByte (json.marshal i)
  pub reads_back : json.unmarshal (json.marshal i) ≡ some i
  pub no_empty : json.unmarshal [] ≡ none

pub check_invite_iff : (i : Invite) → (check_invite i ≡ accepted i) ↔ IsUsable i
unfolding check_invite
check_invite_iff i = (usable, checks)
  where
    usable : check_invite i ≡ accepted i → IsUsable i
    usable h = record {
      same_version = ground (arith, nat_beq_iff i.version 1);
      has_key = ground (arith, nat_beq_iff (length i.secret) 32);
      has_url = λ e. ground (arith, bytes_beq_iff i.mailbox_url []);
      has_send = λ e. ground (arith, bytes_beq_iff i.send_mailbox []);
      has_recv = λ e. ground (arith, bytes_beq_iff i.recv_mailbox []);
    }

    checks : IsUsable i → check_invite i ≡ accepted i
    checks u = ground (
      arith,
      bytes_beq_iff i.mailbox_url [],
      bytes_beq_iff i.send_mailbox [],
      bytes_beq_iff i.recv_mailbox [],
    )

check_same : (j i : Invite) → check_invite j ≡ accepted i → j ≡ i
unfolding check_invite
check_same j i h = ground arith

check_invite-accepted : (j i : Invite) → check_invite j ≡ accepted i → IsUsable i
check_invite-accepted j i h =
    (check_invite_iff i).0 (subst (λ k. check_invite k ≡ accepted i) (check_same j i h) h)

nonempty_code : (b : Bytes) → b ≢ [] → 0 < length (encode64 b)
unfolding encode64 sextets
nonempty_code [] h = absurd (h refl)
nonempty_code (a ∷ []) h = omega arith
nonempty_code (a ∷ b ∷ []) h = omega arith
nonempty_code (a ∷ b ∷ c ∷ rest) h = omega arith

module _ (json : Json) where
  decode_prefixed :
      (s : Bytes)
      → 0 < length s
      → decode_invite json (invite_prefix ++ s) ≡ decode_document json (decode64 s)
  unfolding decode_invite has_prefix
  decode_prefixed [] h = absurd (omega arith)
  decode_prefixed (c ∷ s) h = ground arith

  pub decode-encode :
      (i : Invite) → ReadsBack json i → decode_invite json (encode_invite json i) ≡ check_invite i
  unfolding encode_invite decode_document
  decode-encode i r =
      decode_prefixed (encode64 (json.marshal i)) (nonempty_code (json.marshal i) document)
      ∙ (rw (decode64-encode64 (json.marshal i) r.are_bytes) checked)
    where
      document : json.marshal i ≢ []
      document e = cc (r.reads_back, r.no_empty, ap json.unmarshal e)

      checked : decode_document json (some (json.marshal i)) ≡ check_invite i
      checked = rw (r.reads_back, decode_document) refl

  -- The code of an invite whose JSON document is made of bytes and reads back is accepted, as the
  -- same invite, exactly when the invite has the protocol's version, a key of 32 bytes, a mailbox
  -- host and both mailboxes.
  pub decode_invite-encode_invite :
      (i : Invite)
      → ReadsBack json i
      → (decode_invite json (encode_invite json i) ≡ accepted i) ↔ IsUsable i
  decode_invite-encode_invite i r = rw (decode-encode i r) (check_invite_iff i)

  decode_document-accepted :
      (b : Option Bytes) (i : Invite) → decode_document json b ≡ accepted i → IsUsable i
  unfolding decode_document
  decode_document-accepted none i h = cc
  decode_document-accepted (some b) i h = elim (Option-cases (json.unmarshal b)) [
    | inl bad ↦ cc (rw (bad, decode_document) at h)
    | inr (j, good) ↦ check_invite-accepted j i (rw (good, decode_document) at h)
  ]

  -- Whatever code is pasted, only a usable invite is accepted.
  pub decode_invite-accepted :
      (code : Bytes) (i : Invite) → decode_invite json code ≡ accepted i → IsUsable i
  unfolding decode_invite
  decode_invite-accepted code i h =
      elim (Bool-cases (leb (length code) 8 || not (has_prefix code invite_prefix))) [
        | inl bad ↦ cc (rw bad at h)
        | inr good ↦ decode_document-accepted (decode64 (skip_prefix 8 code)) i (rw good at h)
      ]
