-- ===== src/Share/Client.antt =====
-- internal/sync/client.go: the mailbox host as an instance sees it, over package net/http. `Net` is
-- what the code takes from other packages: the request itself, TLS and encoding/json. What lies
-- beyond the connection is the world, which a request may change.
use flightdeck.Base.{
  ℕ, ◌*◌, ◌^◌, Bool, Option, none, some, List, [], ◌∷◌, ◌++◌, take, if◌then◌else◌, ◌==◌, nat_eq,
  string_eq,
}
use flightdeck.Base.Bytes.{Bytes, codes}

-- ErrMailboxGone and the client's other errors; a refusal carries the status and the host's text.
pub data NetError : Type 0 where
  bad_certificate no_ca unreachable mailbox_gone undecodable : NetError
  refused : ℕ → Bytes → NetError

pub data Outcome (A : Type 0) : Type 0 where
  got : A → Outcome A
  lost : NetError → Outcome A

pub record Client : Type 0 where
  pub base_url : Bytes
  pub client_cert : Bytes
  pub client_key : Bytes
  pub ca_pem : Bytes

pub data Method : Type 0 where
  method_get method_post : Method

pub record HttpCall : Type 0 where
  pub method : Method
  pub url : Bytes
  pub authorization : Bytes
  pub body : Bytes

pub record HttpReply : Type 0 where
  pub status : ℕ
  pub body : Bytes

pub record Mail : Type 0 where
  pub seq : ℕ
  pub sent_at : ℕ
  pub body : Bytes

pub record MadeMailbox : Type 0 where
  pub id : Bytes
  pub write_token : Bytes
  pub read_token : Bytes

pub record ClientBundle : Type 0 where
  pub name : Bytes
  pub cert_pem : Bytes
  pub key_pem : Bytes
  pub ca_pem : Bytes

pub record Net : Type 1 where
  pub World : Type 0
  -- tls.X509KeyPair and AppendCertsFromPEM: whether they succeed.
  pub key_pair : Bytes → Bytes → Bool
  pub has_ca : Bytes → Bool
  -- http.Client.Do; `none` is an error.
  pub do_call : Client → HttpCall → World → Option HttpReply × World
  pub marshal_seqs : List ℕ → Bytes
  pub marshal_name : Bytes → Bytes
  pub decode_messages : Bytes → Option (List Mail)
  pub decode_made : Bytes → Option MadeMailbox
  pub decode_bundle : Bytes → Option ClientBundle
  -- The text that a refusal carries, or the status line.
  pub error_text : ℕ → Bytes → Bytes

abbrev pub max_messages_reply : ℕ
max_messages_reply = 64 * 2 ^ 20

abbrev pub max_small_reply : ℕ
max_small_reply = 2 ^ 20

abbrev pub max_error_reply : ℕ
max_error_reply = 4 * 2 ^ 10

abbrev pub decoded : {A : Type 0} → Option A → Outcome A
decoded none = lost undecodable
decoded (some a) = got a

module _ (net : Net) where
  open net use {World}

  -- What a call of the client does: an outcome, and the world after it.
  abbrev pub Online : Type 0 → Type 0
  Online A = World → Outcome A × World

  unfoldable pub new_client : Bytes → Bytes → Bytes → Bytes → Outcome Client
  new_client base_url cert key ca =
      if net.key_pair cert key
      then if net.has_ca ca
        then got (record { base_url = base_url; client_cert = cert; client_key = key; ca_pem = ca })
        else lost no_ca
      else lost bad_certificate

  unfoldable pub call : Client → Method → Bytes → Bytes → Bytes → World → Option HttpReply × World
  call c method path token body = net.do_call c (record {
    method = method;
    url = c.base_url ++ path;
    authorization = codes "Bearer " ++ token;
    body = body;
  })

  unfoldable pub status_detail : HttpReply → Bytes
  status_detail r = net.error_text r.status (take max_error_reply r.body)

  unfoldable pub refusal_of : HttpReply → NetError
  unfolding status_detail
  refusal_of r = refused r.status (status_detail r)

  -- The reply, handed to the rest of the method.
  unfoldable pub on_reply :
      {A : Type 0} → (HttpReply → Outcome A) → Option HttpReply × World → Outcome A × World
  on_reply f (none, w) = (lost unreachable, w)
  on_reply f (some r, w) = (f r, w)

  abbrev pub messages_path : Bytes → Bytes
  messages_path mailbox = codes "/v1/mailboxes/" ++ mailbox ++ codes "/messages"

  abbrev pub ack_path : Bytes → Bytes
  ack_path mailbox = codes "/v1/mailboxes/" ++ mailbox ++ codes "/ack"

  unfoldable pub sent_reply : HttpReply → Outcome (Unit {0})
  unfolding refusal_of
  sent_reply r =
      if r.status == 404
      then lost mailbox_gone
      else if r.status == 202
      then got tt
      else lost (refusal_of r)

  unfoldable pub client_send : Client → Bytes → Bytes → Bytes → Online (Unit {0})
  unfolding call on_reply sent_reply
  client_send c mailbox token sealed w =
      on_reply sent_reply (call c method_post (messages_path mailbox) token sealed w)

  unfoldable pub received_reply : HttpReply → Outcome (List Mail)
  unfolding refusal_of
  received_reply r =
      if r.status == 404
      then lost mailbox_gone
      else if r.status == 200
      then decoded (net.decode_messages (take max_messages_reply r.body))
      else lost (refusal_of r)

  unfoldable pub client_receive : Client → Bytes → Bytes → Online (List Mail)
  unfolding call on_reply received_reply
  client_receive c mailbox token w =
      on_reply received_reply (call c method_get (messages_path mailbox) token [] w)

  unfoldable pub acked_reply : HttpReply → Outcome (Unit {0})
  unfolding refusal_of
  acked_reply r = if r.status == 200 then got tt else lost (refusal_of r)

  unfoldable pub client_ack : Client → Bytes → Bytes → List ℕ → Online (Unit {0})
  unfolding call on_reply acked_reply
  client_ack c mailbox token [] w = (got tt, w)
  client_ack c mailbox token (seq ∷ seqs) w =
      on_reply acked_reply
        (call c method_post (ack_path mailbox) token (net.marshal_seqs (seq ∷ seqs)) w)

  unfoldable pub made_reply : HttpReply → Outcome MadeMailbox
  unfolding refusal_of
  made_reply r =
      if r.status == 201
      then decoded (net.decode_made (take max_small_reply r.body))
      else lost (refusal_of r)

  unfoldable pub create_remote : Client → Bytes → Online MadeMailbox
  unfolding call on_reply made_reply
  create_remote c admin_token w =
      on_reply made_reply (call c method_post (codes "/v1/mailboxes") admin_token [] w)

  unfoldable pub bundle_reply : HttpReply → Outcome ClientBundle
  unfolding refusal_of
  bundle_reply r =
      if r.status == 201
      then decoded (net.decode_bundle (take max_small_reply r.body))
      else lost (refusal_of r)

  -- PostAdmin and the reading of its reply in issuePeerBundle.
  unfoldable pub post_issue : Client → Bytes → Bytes → Online ClientBundle
  unfolding call on_reply bundle_reply
  post_issue c admin_token name w =
      on_reply bundle_reply
        (call c method_post (codes "/v1/clients") admin_token (net.marshal_name name) w)
