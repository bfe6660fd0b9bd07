-- ===== src/Share/Rows.antt =====
-- internal/service/sharing.go and internal/store/sharing.sql.go: an instance as far as sharing goes: its
-- settings, its projects and the rows of project_shares. `Trouble` says which of the calls of its
-- database fail.
use flightdeck.Base.{
  ◌||◌, ◌&&◌, ◌==◌, false, ℕ, ◌+◌, Bool, true, Option, none, List, [], ◌∷◌, ◌++◌, if◌then◌else◌,
  nat_eq, string_eq,
}
use flightdeck.Base.Assoc.{Assoc, lookup, set}
use flightdeck.Base.Bytes.{Bytes, bytes_eq}
use flightdeck.Share.Invite.{Invite, InviteError}
use flightdeck.Share.Client.{NetError}

-- The row of project_shares.
pub record ShareRow : Type 0 where
  pub id : ℕ
  pub project_id : ℕ
  pub peer_name : Bytes
  pub mailbox_url : Bytes
  pub send_mailbox : Bytes
  pub send_token : Bytes
  pub recv_mailbox : Bytes
  pub recv_token : Bytes
  pub secret : Bytes
  pub client_cert : Bytes
  pub client_key : Bytes
  pub ca_pem : Bytes
  pub enabled : Bool
  pub last_error : Bytes

pub record ProjectEntry : Type 0 where
  pub id : ℕ
  pub slug : Bytes
  pub name : Bytes

pub record Instance : Type 0 where
  pub settings : Assoc Bytes Bytes
  pub projects : Assoc Bytes ProjectEntry
  pub shares : List ShareRow
  pub next_id : ℕ
  pub cache_cleared : Bool

pub record Trouble : Type 0 where
  pub lookup_fails : Bool
  pub create_project_fails : Bool
  pub create_share_fails : Bool

pub data ShareError : Type 0 where
  not_configured no_admin_token no_project database_failed no_random : ShareError
  host_failed : NetError → ShareError
  bad_invite : InviteError → ShareError

pub data Done (A : Type 0) : Type 0 where
  finished : A → Done A
  stopped : ShareError → Done A

-- UNIQUE (project_id, send_mailbox) of the table project_shares.
unfoldable pub is_linked : ℕ → Bytes → List ShareRow → Bool
is_linked project mailbox [] = false
is_linked project mailbox (row ∷ rows) =
    (row.project_id == project && row.send_mailbox == mailbox) || is_linked project mailbox rows

-- CreateProjectShare (internal/store/sharing.sql.go): a new row is enabled, with no error.
unfoldable pub create_project_share : ShareRow → Instance → Instance
create_project_share row i = record i {
  shares = i.shares ++ record row { id = i.next_id; enabled = true; last_error = [] } ∷ [];
  next_id = i.next_id + 1;
  cache_cleared = true;
}

unfoldable pub create_project : Bytes → Bytes → Instance → ProjectEntry × Instance
unfolding set
create_project slug name i =
    let entry : ProjectEntry = record { id = i.next_id; slug = slug; name = name } in
    (entry, record i { projects = set slug entry i.projects; next_id = i.next_id + 1 })

unfoldable pub find_by_slug : Trouble → Bytes → Instance → Option ProjectEntry
unfolding lookup
find_by_slug t slug i = if t.lookup_fails then none else lookup slug i.projects

-- The wiring of an invite into a row, for either end.
unfoldable pub invited_row : ℕ → Invite → ShareRow
invited_row project_id v = record {
  id = 0;
  project_id = project_id;
  peer_name = v.peer_name;
  mailbox_url = v.mailbox_url;
  send_mailbox = v.send_mailbox;
  send_token = v.send_token;
  recv_mailbox = v.recv_mailbox;
  recv_token = v.recv_token;
  secret = v.secret;
  client_cert = v.client_cert;
  client_key = v.client_key;
  ca_pem = v.ca_pem;
  enabled = true;
  last_error = [];
}
