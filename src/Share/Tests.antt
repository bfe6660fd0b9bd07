-- ===== src/Share/Tests.antt =====
-- internal/sync/engine.go: the theorems on two shares, one of which was revoked.
use flightdeck.Base.{
  ℕ, ◌+◌, ◌≡◌, refl, true, false, not, ◌&&◌, none, some, [], ◌∷◌, ◌++◌, arith, if◌then◌else◌, ◌==◌,
  nat_eq, string_eq, All,
}
use flightdeck.Share.SetupTests.{row_here, a_client}
use flightdeck.Base.Bytes.{Bytes, codes, bytes_eq}
use flightdeck.Sync.Engine.{no_state}
use flightdeck.Sync.Engine.Exchange.{already_sent, rows, sent_hashes}
use flightdeck.Sync.Payload.{project_payload, item_payload}
use flightdeck.Sync.Engine.Samples.{list_beq, fields, a_wire, an_item, a_project}
use flightdeck.Share.Client.{Net, got, Client, method_get, method_post, new_client, client_receive}
use flightdeck.Share.Rows.{ShareRow}
use flightdeck.Share.Config.{mailbox_config}
use flightdeck.Share.Setup.{own_row}
use flightdeck.Share.Passes.{
  put_db, Engine, Site, find_row, list_enabled, db_of, push_over, run_once, run_shares, sync_share,
}
use flightdeck.Share.Touches.{enabled_of, error_of}
use flightdeck.Share.Isolation.{run_once-own, is_revoked, reported}
use flightdeck.Share.Quiet.{sync_share-quiet}

-- A host where the mailboxes of one share are gone, and where the others are empty.
abbrev idle : Net
idle = record {
  World = ℕ;
  key_pair = λ c k. true;
  has_ca = λ ca. true;
  do_call = λ c call w.
      if c.base_url == codes "gone"
      then (some (record { status = 404; body = [] }), w)
      else elim call.method [
        | method_get ↦ (some (record { status = 200; body = [] }), w)
        | method_post ↦ (some (record { status = 202; body = [] }), w + 1)
      ];
  marshal_seqs = λ s. s;
  marshal_name = λ s. s;
  decode_messages = λ b. some [];
  decode_made = λ b. none;
  decode_bundle = λ b. none;
  error_text = λ s b. b;
}

abbrev an_engine : Engine
an_engine = record {
  wire = a_wire;
  net = idle;
  bytes_of = λ k env. k;
  sealed_of = λ k b. record {
    version = 1;
    kind = codes "item";
    origin = codes "b";
    payload = a_wire.marshal_item (record {
      id = [];
      type = [];
      title = [];
      body = [];
      status = [];
      priority = [];
      assignee = none;
      external_ref = none;
      tags = [];
      metadata = [];
      acceptance_criteria = [];
      created_at = 0;
      closed_at = none;
      deleted_at = none;
    });
  };
  describe = λ e. codes "error";
  instance_id = codes "a";
}

abbrev share_at : ℕ → Bytes → ShareRow
share_at id url = record row_here {
  id = id;
  project_id = id;
  mailbox_url = url;
  enabled = true;
  last_error = codes "old";
}

abbrev a_site : Site an_engine
a_site = record {
  world = 0;
  shares = share_at 1 (codes "gone") ∷ share_at 2 (codes "here") ∷ [];
  items = (4, record (an_item (codes "red")) { project_id = 2 }) ∷ [];
  activities = [];
  projects = λ p. record a_project { id = p };
  states = λ s. λ k i. no_state;
  told = [];
}

both_listed :
    list_enabled a_site.shares ≡ (share_at 1 (codes "gone") ∷ []) ++ share_at 2 (codes "here") ∷ []
unfolding list_enabled
both_listed = refl

run_once-own_example :
    (find_row 2 (run_shares an_engine (share_at 1 (codes "gone") ∷ []) a_site).shares
      ≡ find_row 2 a_site.shares)
    × (enabled_of (find_row 2 (run_once an_engine a_site).shares) ≡ (
        enabled_of (find_row 2 a_site.shares)
        && not (
            is_revoked
              (sync_share an_engine
                (share_at 2 (codes "here"))
                (run_shares an_engine (share_at 1 (codes "gone") ∷ []) a_site)).0)))
    × (error_of (find_row 2 (run_once an_engine a_site).shares)
        ≡ reported an_engine
            (sync_share an_engine
              (share_at 2 (codes "here"))
              (run_shares an_engine (share_at 1 (codes "gone") ∷ []) a_site)).0
            (error_of (
              find_row 2
                (sync_share an_engine
                  (share_at 2 (codes "here"))
                  (run_shares an_engine (share_at 1 (codes "gone") ∷ []) a_site)).1.shares)))
run_once-own_example =
    run_once-own an_engine a_site (share_at 1 (codes "gone") ∷ []) [] (share_at 2 (codes "here"))
      both_listed (omega arith) tt

revoked_is_disabled : enabled_of (find_row 1 (run_once an_engine a_site).shares) ≡ false
unfolding run_once find_row
revoked_is_disabled = refl

abbrev after_pass : Site an_engine
after_pass =
    put_db an_engine (share_at 2 (codes "here"))
      (push_over an_engine a_client (share_at 2 (codes "here")) a_site).1.db a_site

two_are_sent : (push_over an_engine a_client (share_at 2 (codes "here")) a_site).1.sent ≡ 2
unfolding push_over
two_are_sent = refl

abbrev client_here : Client
client_here = record a_client { base_url = codes "here" }

-- After the pass everything has been sent.
abbrev quiet_site : Site an_engine
quiet_site = record a_site { states = (run_once an_engine a_site).states }

here_is_settled :
    All
      (λ r.
        already_sent a_wire
          (sent_hashes a_wire (db_of an_engine (share_at 2 (codes "here")) quiet_site))
          r
        ≡ true)
      (rows a_wire (db_of an_engine (share_at 2 (codes "here")) quiet_site))
unfolding db_of rows sent_hashes already_sent run_once list_beq fields project_payload item_payload
here_is_settled = (refl, (refl, tt))

here_connects :
    new_client idle (codes "here") (codes "c") (codes "k") (codes "ca") ≡ got client_here
unfolding new_client
here_connects = refl

here_is_empty : client_receive idle client_here (codes "m1") (codes "r1") 0 ≡ (got [], 0)
unfolding client_receive
here_is_empty = refl

sync_share-quiet_example :
    ((sync_share an_engine (share_at 2 (codes "here")) quiet_site).0 ≡ none)
    × ((sync_share an_engine (share_at 2 (codes "here")) quiet_site).1.shares ≡ quiet_site.shares)
    × ((sync_share an_engine (share_at 2 (codes "here")) quiet_site).1.world ≡ 0)
unfolding own_row mailbox_config
sync_share-quiet_example =
    sync_share-quiet an_engine (share_at 2 (codes "here")) quiet_site client_here 0 here_connects
      here_is_empty here_is_settled
