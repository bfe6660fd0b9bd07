-- ===== src/Share/Passes.antt =====
-- internal/sync/engine.go: runOnce and SyncShare over the mailbox client, for the shares of one
-- instance. The rows of a project are those of `Sync.Engine`; the hashes belong to a share. A
-- message is read and written under the share's key by `sealed_of` and `bytes_of`, and `describe`
-- is the text of an error. A database call that fails is left out, and so are the log and the
-- timestamps.
use flightdeck.Base.{
  ℕ, suc, Bool, true, false, Option, none, some, List, [], ◌∷◌, if◌then◌else◌, ◌==◌, nat_eq,
  string_eq,
}
use flightdeck.Base.Assoc.{Assoc}
use flightdeck.Base.Bytes.{Bytes}
use flightdeck.Sync.Payload.{Item, Activity, Project}
use flightdeck.Sync.Engine.{Wire, Db, Kind, Share, ShareState, record_sent}
use flightdeck.Sync.Engine.Exchange.{
  Pulled, Row, already_sent, envelope, pull_inbound, rows, sent_hashes,
}
use flightdeck.Share.Client.{
  Net, NetError, mailbox_gone, Outcome, got, lost, Client, Mail, new_client, client_send,
  client_receive, client_ack,
}
use flightdeck.Share.Rows.{ShareRow}

pub data PassError : Type 0 where
  network : NetError → PassError
  apply_failed : PassError

-- errors.Is(err, ErrMailboxGone)
unfoldable pub is_gone : PassError → Bool
is_gone (network mailbox_gone) = true
is_gone _ = false

-- UPDATE project_shares SET … WHERE id = $1
unfoldable pub change_row : ℕ → (ShareRow → ShareRow) → List ShareRow → List ShareRow
change_row id f [] = []
change_row id f (r ∷ rs) = (if r.id == id then f r else r) ∷ change_row id f rs

unfoldable pub find_row : ℕ → List ShareRow → Option ShareRow
find_row id [] = none
find_row id (r ∷ rs) = if r.id == id then some r else find_row id rs

abbrev pub clear_error : ShareRow → ShareRow
clear_error r = record r { last_error = [] }

abbrev pub with_error : Bytes → ShareRow → ShareRow
with_error text r = record r { last_error = text }

abbrev pub disable : ShareRow → ShareRow
disable r = record r { enabled = false }

unfoldable pub list_enabled : List ShareRow → List ShareRow
list_enabled [] = []
list_enabled (r ∷ rs) = if r.enabled then r ∷ list_enabled rs else list_enabled rs

-- `Engine`, with what it takes from other packages.
pub record Engine : Type 1 where
  pub wire : Wire
  pub net : Net
  pub bytes_of : Bytes → wire.Sealed → Bytes
  pub sealed_of : Bytes → Bytes → wire.Sealed
  pub describe : PassError → Bytes
  pub instance_id : Bytes

module _ (engine : Engine) where
  open engine use {wire, net, bytes_of, sealed_of, describe, instance_id}
  open engine.wire use {Hash, Sealed, hash, seal}

  -- `told` are the projects that OnChange was called with.
  pub record Site : Type 0 where
    pub world : net.World
    pub shares : List ShareRow
    pub items : Assoc ℕ Item
    pub activities : Assoc ℕ Activity
    pub projects : ℕ → Project
    pub states : ℕ → Kind → ℕ → ShareState Hash
    pub told : List ℕ

  unfoldable pub db_of : ShareRow → Site → Db Hash
  db_of share site = record {
    items = site.items;
    activities = site.activities;
    the_project = site.projects share.project_id;
    states = site.states share.id;
  }

  unfoldable pub put_db : ShareRow → Db Hash → Site → Site
  put_db share db site = record site {
    items = db.items;
    activities = db.activities;
    projects = λ p. if p == share.project_id then db.the_project else site.projects p;
    states = λ s. if s == share.id then db.states else site.states s;
  }

  unfoldable pub change_share : ShareRow → (ShareRow → ShareRow) → Site → Site
  unfolding change_row
  change_share share f site = record site { shares = change_row share.id f site.shares }

  abbrev pub share_of : ShareRow → Share
  share_of share = record { project_id = share.project_id; peer_name = share.peer_name }

  abbrev pub opened : ShareRow → List Mail → List (ℕ × Sealed)
  opened share [] = []
  opened share (m ∷ ms) = (m.seq, sealed_of share.secret m.body) ∷ opened share ms

  unfoldable pub pulled_mail : ShareRow → Pulled Hash → Site → Site
  unfolding change_share
  pulled_mail share p site =
      let cleared = change_share share clear_error site in
      if p.changed then record cleared { told = share.project_id ∷ cleared.told } else cleared

  unfoldable pub acked_mail :
      ShareRow → Pulled Hash → Site → Outcome (Unit {0}) × net.World → Option PassError × Site
  unfolding pulled_mail
  acked_mail share p site (got _, w) = (none, pulled_mail share p (record site { world = w }))
  acked_mail share p site (lost e, w) = (some (network e), record site { world = w })

  -- After the loop: the Ack, if it is reached.
  unfoldable pub after_pull : Client → ShareRow → Site → Pulled Hash → Option PassError × Site
  unfolding put_db acked_mail client_ack
  after_pull c share site p = elim p.acked [
    | none ↦ (some apply_failed, put_db share p.db site)
    | some seqs ↦
        acked_mail share p (put_db share p.db site)
          (client_ack net c share.recv_mailbox share.recv_token seqs site.world)
  ]

  unfoldable pub apply_mail :
      Client → ShareRow → Site → Outcome (List Mail) × net.World → Option PassError × Site
  unfolding after_pull pull_inbound db_of
  apply_mail c share site (lost e, w) = (some (network e), record site { world = w })
  apply_mail c share site (got [], w) = (none, record site { world = w })
  apply_mail c share site (got (m ∷ ms), w) =
      after_pull c share (record site { world = w })
        (pull_inbound wire instance_id (share_of share) (opened share (m ∷ ms)) (db_of share site))

  unfoldable pub pull_share : Client → ShareRow → Site → Option PassError × Site
  unfolding apply_mail client_receive
  pull_share c share site =
      apply_mail c share site (client_receive net c share.recv_mailbox share.recv_token site.world)

  -- The local variables of pushOutbound: the database, the count of messages sent, the world.
  pub record PushRun : Type 0 where
    pub db : Db Hash
    pub sent : ℕ
    pub world : net.World

  unfoldable pub row_answered :
      Row wire → PushRun → Outcome (Unit {0}) × net.World → Option NetError × PushRun
  unfolding record_sent
  row_answered row p (got _, w) = (
    none,
    record { db = record_sent row.kind row.id (hash row.doc) p.db; sent = suc p.sent; world = w },
  )
  row_answered row p (lost e, w) = (some e, record p { world = w })

  unfoldable pub send_over :
      Client → ShareRow → (Kind → ℕ → Option Hash) → Row wire → PushRun → Option NetError × PushRun
  unfolding row_answered already_sent client_send envelope
  send_over c share hashes row p =
      if already_sent wire hashes row
      then (none, p)
      else row_answered row p (
          client_send net c share.send_mailbox share.send_token
            (bytes_of share.secret (seal (envelope wire instance_id row))) p.world)

  abbrev pub unless_failed :
      (PushRun → Option NetError × PushRun) → Option NetError × PushRun → Option NetError × PushRun
  unless_failed next (none, p) = next p
  unless_failed next (some e, p) = (some e, p)

  unfoldable pub send_each :
      Client
      → ShareRow
      → (Kind → ℕ → Option Hash)
      → List (Row wire)
      → PushRun
      → Option NetError × PushRun
  unfolding send_over
  send_each c share hashes [] p = (none, p)
  send_each c share hashes (row ∷ rest) p =
      unless_failed (send_each c share hashes rest) (send_over c share hashes row p)

  unfoldable pub push_over : Client → ShareRow → Site → Option NetError × PushRun
  unfolding send_each db_of rows sent_hashes
  push_over c share site =
      send_each c share (sent_hashes wire (db_of share site)) (rows wire (db_of share site))
        (record { db = db_of share site; sent = 0; world = site.world })

  -- Its end: RecordShareSend, if something was sent.
  unfoldable pub pushed : ShareRow → Site → Option NetError × PushRun → Option PassError × Site
  unfolding put_db change_share
  pushed share site (some e, p) =
      (some (network e), record (put_db share p.db site) { world = p.world })
  pushed share site (none, p) =
      let after : Site = record (put_db share p.db site) { world = p.world } in
      (none, if p.sent == 0 then after else change_share share clear_error after)

  unfoldable pub push_after : Client → ShareRow → Option PassError × Site → Option PassError × Site
  unfolding pushed push_over
  push_after c share (some e, site) = (some e, site)
  push_after c share (none, site) = pushed share site (push_over c share site)

  unfoldable pub sync_with : Outcome Client → ShareRow → Site → Option PassError × Site
  unfolding pull_share push_after
  sync_with (lost e) share site = (some (network e), site)
  sync_with (got c) share site = push_after c share (pull_share c share site)

  unfoldable pub sync_share : ShareRow → Site → Option PassError × Site
  unfolding sync_with new_client
  sync_share share =
      sync_with (new_client net share.mailbox_url share.client_cert share.client_key share.ca_pem)
        share

  unfoldable pub note_outcome : ShareRow → Option PassError × Site → Site
  unfolding change_share is_gone
  note_outcome share (none, site) = site
  note_outcome share (some e, site) =
      let noted = change_share share (with_error (describe e)) site in
      if is_gone e then change_share share disable noted else noted

  unfoldable pub run_shares : List ShareRow → Site → Site
  unfolding sync_share note_outcome
  run_shares [] site = site
  run_shares (share ∷ rest) site = run_shares rest (note_outcome share (sync_share share site))

  unfoldable pub run_once : Site → Site
  unfolding run_shares list_enabled
  run_once site = run_shares (list_enabled site.shares) site
