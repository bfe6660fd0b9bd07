-- ===== src/Share/Setup.antt =====
-- internal/service/sharing.go: ShareProject and AcceptInvite.
use flightdeck.Base.{
  ◌||◌, ℕ, Bool, true, false, not, Option, none, some, [], if◌then◌else◌, ◌==◌, nat_eq, string_eq,
}
use flightdeck.Share.Rows.{
  is_linked, ShareRow, ProjectEntry, Instance, Trouble, ShareError, create_project_share,
  create_project, find_by_slug, invited_row, Done, not_configured, no_admin_token, no_project,
  database_failed, no_random, host_failed, bad_invite, finished, stopped,
}
use flightdeck.Share.Config.{trim_ascii, MailboxConfig, or_else, configured, mailbox_config}
use flightdeck.Base.Assoc.{lookup}
use flightdeck.Base.Bytes.{Bytes, codes, bytes_eq}
use flightdeck.Sync.Engine.{protocol_version}
use flightdeck.Share.Invite.{
  Invite, Json, Decoded, accepted, rejected, encode_invite, decode_invite,
}
use flightdeck.Share.Client.{
  Net, Outcome, got, lost, MadeMailbox, ClientBundle, new_client, create_remote, post_issue,
}

-- One mailbox for each direction: "ours" is drained, "theirs" is written to.
unfoldable pub own_row :
    MailboxConfig → ProjectEntry → Bytes → MadeMailbox → MadeMailbox → Bytes → ShareRow
own_row cfg project peer ours theirs secret = record {
  id = 0;
  project_id = project.id;
  peer_name = peer;
  mailbox_url = cfg.url;
  send_mailbox = theirs.id;
  send_token = theirs.write_token;
  recv_mailbox = ours.id;
  recv_token = ours.read_token;
  secret = secret;
  client_cert = cfg.client_cert;
  client_key = cfg.client_key;
  ca_pem = cfg.ca_pem;
  enabled = true;
  last_error = [];
}

unfoldable pub peer_invite :
    MailboxConfig → ProjectEntry → Bytes → MadeMailbox → MadeMailbox → Bytes → ClientBundle → Invite
peer_invite cfg project peer ours theirs secret bundle = record {
  version = protocol_version;
  peer_name = peer;
  project_slug = project.slug;
  project_name = project.name;
  mailbox_url = cfg.url;
  send_mailbox = ours.id;
  send_token = ours.write_token;
  recv_mailbox = theirs.id;
  recv_token = theirs.read_token;
  secret = secret;
  client_cert = bundle.cert_pem;
  client_key = bundle.key_pem;
  ca_pem = bundle.ca_pem;
}

-- `if name == "" { name = "peer" }`
abbrev pub peer_or_default : Bytes → Bytes
peer_or_default name = or_else name (codes "peer")

module _ (net : Net) (json : Json) where
  -- A task of the service works on its instance, and on the world that it talks to.
  abbrev pub Task : Type 0 → Type 0
  Task A = Instance × net.World → Done A × (Instance × net.World)

  abbrev pub proceed :
      {A B : Type 0}
      → (A → Task B)
      → Done A × (Instance × net.World)
      → Done B × (Instance × net.World)
  proceed f (finished a, s) = f a s
  proceed f (stopped e, s) = (stopped e, s)

  infixl 5 ◌>>=◌ ◌>>◌
  abbrev pub ◌>>=◌ : {A B : Type 0} → Task A → (A → Task B) → Task B
  ◌>>=◌ m f s = proceed f (m s)

  abbrev pub ◌>>◌ : {A B : Type 0} → Task A → Task B → Task B
  m >> k = m >>= λ _. k

  abbrev pub pure : {A : Type 0} → A → Task A
  pure a s = (finished a, s)

  abbrev pub require : Bool → ShareError → Task (Unit {0})
  require true e s = (finished tt, s)
  require false e s = (stopped e, s)

  abbrev pub or_stop : {A : Type 0} → ShareError → Option A → Task A
  or_stop e none s = (stopped e, s)
  or_stop e (some a) s = (finished a, s)

  abbrev pub or_lost : {A : Type 0} → Outcome A → Task A
  or_lost (got a) s = (finished a, s)
  or_lost (lost e) s = (stopped (host_failed e), s)

  abbrev pub heard :
      {A : Type 0} → Instance → Outcome A × net.World → Done A × (Instance × net.World)
  heard i (o, w) = or_lost o (i, w)

  abbrev pub online : {A : Type 0} → (net.World → Outcome A × net.World) → Task A
  online m (i, w) = heard i (m w)

  unfoldable pub store_share : Trouble → ShareRow → Task (Unit {0})
  unfolding create_project_share is_linked
  store_share t row (i, w) =
      if t.create_share_fails || is_linked row.project_id row.send_mailbox i.shares
      then (stopped database_failed, (i, w))
      else (finished tt, (create_project_share row i, w))

  unfoldable pub issue_peer_bundle : MailboxConfig → Bytes → Task ClientBundle
  unfolding new_client post_issue
  issue_peer_bundle cfg name = do
    client ← or_lost (new_client net cfg.url cfg.client_cert cfg.client_key cfg.ca_pem)
    online (post_issue net client cfg.admin_token (peer_or_default name))

  unfoldable pub share_with :
      MailboxConfig → Trouble → Option Bytes → Bytes → ProjectEntry → Task Bytes
  unfolding new_client create_remote issue_peer_bundle store_share own_row peer_invite
  share_with cfg t key peer project = do
    client ← or_lost (new_client net cfg.url cfg.client_cert cfg.client_key cfg.ca_pem)
    ours ← online (create_remote net client cfg.admin_token)
    theirs ← online (create_remote net client cfg.admin_token)
    secret ← or_stop no_random key
    bundle ← issue_peer_bundle cfg peer
    store_share t (own_row cfg project peer ours theirs secret)
    pure (encode_invite json (peer_invite cfg project peer ours theirs secret bundle))

  -- `key` is what crypto/rand gives for the share's key.
  unfoldable pub share_project : Trouble → Option Bytes → Bytes → Bytes → Task Bytes
  unfolding configured find_by_slug share_with mailbox_config
  share_project t key slug peer (i, w) =
      let cfg = mailbox_config i in
      (do
        require (configured cfg) not_configured
        require (not (cfg.admin_token == [])) no_admin_token
        project ← or_stop no_project (find_by_slug t slug i)
        share_with cfg t key peer project)
        (i, w)

  -- CreateProject: a slug that is taken violates the unique key.
  unfoldable pub join_project : Trouble → Bytes → Bytes → Task ProjectEntry
  unfolding find_by_slug create_project lookup
  join_project t slug name (i, w) = elim (find_by_slug t slug i) [
    | some project ↦ (finished project, (i, w))
    | none ↦ elim (t.create_project_fails) [
      | true ↦ (stopped database_failed, (i, w))
      | false ↦ elim (lookup slug i.projects) [
        | some taken ↦ (stopped database_failed, (i, w))
        | none ↦
            let made = create_project slug (or_else name slug) i in (finished made.0, (made.1, w))
      ]
    ]
  ]

  unfoldable pub accept_decoded : Trouble → Bytes → Decoded → Task ℕ
  unfolding join_project store_share invited_row
  accept_decoded t local_slug (rejected e) s = (stopped (bad_invite e), s)
  accept_decoded t local_slug (accepted v) s =
      (do
        project ← join_project t (or_else local_slug v.project_slug) v.project_name
        store_share t (invited_row project.id v)
        pure project.id)
        s

  unfoldable pub accept_invite : Trouble → Bytes → Bytes → Task ℕ
  unfolding accept_decoded trim_ascii decode_invite
  accept_invite t code local_slug =
      accept_decoded t local_slug (decode_invite json (trim_ascii code))
