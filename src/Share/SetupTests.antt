-- ===== src/Share/SetupTests.antt =====
-- internal/service/sharing.go and internal/sync/protocol.go: an invite, on a host that numbers its
-- mailboxes.
use flightdeck.Base.{
  ℕ, ◌+◌, ◌≡◌, refl, sym, subst, ◌↔◌, true, false, none, some, [], ◌∷◌, ◌++◌, arith, nat_eq,
  string_eq,
}
use flightdeck.Base.Assoc.{lookup}
use flightdeck.Base.Bytes.{Bytes, codes, bytes_eq}
use flightdeck.Share.Invite.{
  Invite, Json, accepted, encode_invite, decode_invite, IsUsable, ReadsBack,
  decode_invite-encode_invite,
}
use flightdeck.Share.Client.{
  Net, Client, MadeMailbox, ClientBundle, new_client, create_remote, post_issue,
}
use flightdeck.Share.Rows.{
  find_by_slug, Instance, ProjectEntry, ShareRow, finished, create_project_share,
}
use flightdeck.Share.Config.{configured, mailbox_config, or_else}
use flightdeck.Share.Setup.{share_project, accept_invite, own_row, peer_invite}
use flightdeck.Share.Linking.{IsLinked, Provides, no_trouble, stored, share-accept-IsLinked}

abbrev a_key : Bytes
a_key = codes "0123456789abcdef0123456789abcdef"

abbrev an_invite : Invite
an_invite = record {
  version = 1;
  peer_name = codes "kit";
  project_slug = codes "paint";
  project_name = codes "Paint";
  mailbox_url = codes "https://host";
  send_mailbox = codes "m1";
  send_token = codes "w1";
  recv_mailbox = codes "m2";
  recv_token = codes "r2";
  secret = a_key;
  client_cert = codes "cert";
  client_key = codes "key";
  ca_pem = codes "ca";
}

-- One invite, and the document that stands for it.
abbrev a_json : Json
a_json = record {
  marshal = λ _. codes "{v:1}";
  unmarshal = λ b. elim b [ [] ↦ none | c ∷ s ↦ some an_invite ];
}

an_invite-ReadsBack : ReadsBack a_json an_invite
an_invite-ReadsBack = record { are_bytes = omega arith; reads_back = refl; no_empty = refl }

an_invite-IsUsable : IsUsable an_invite
an_invite-IsUsable = record {
  same_version = refl;
  has_key = refl;
  has_url = λ e. ground arith;
  has_send = λ e. ground arith;
  has_recv = λ e. ground arith;
}

decode_invite-encode_invite_example :
    (decode_invite a_json (encode_invite a_json an_invite) ≡ accepted an_invite)
    ↔ IsUsable an_invite
decode_invite-encode_invite_example =
    decode_invite-encode_invite a_json an_invite an_invite-ReadsBack

-- A host that numbers its mailboxes; the world is the count of requests that it answered.
abbrev making : Net
making = record {
  World = ℕ;
  key_pair = λ c k. true;
  has_ca = λ ca. true;
  do_call = λ c call w. (some (record { status = 201; body = (w + 49) ∷ [] }), w + 1);
  marshal_seqs = λ s. s;
  marshal_name = λ s. s;
  decode_messages = λ b. some [];
  decode_made = λ b.
      some
        (record { id = codes "m" ++ b; write_token = codes "w" ++ b; read_token = codes "r" ++ b });
  decode_bundle = λ b. some (record {
    name = codes "kit";
    cert_pem = codes "cert";
    key_pem = codes "key";
    ca_pem = codes "ca";
  });
  error_text = λ s b. b;
}

abbrev a_project_entry : ProjectEntry
a_project_entry = record { id = 5; slug = codes "paint"; name = codes "Paint" }

abbrev creator : Instance
creator = record {
  settings =
      (codes "mailbox_url", codes "https://host")
      ∷ (codes "mailbox_admin_token", codes "root")
      ∷ (codes "mailbox_client_cert", codes "c")
      ∷ (codes "mailbox_client_key", codes "k")
      ∷ (codes "mailbox_ca_pem", codes "ca")
      ∷ [];
  projects = (codes "paint", a_project_entry) ∷ [];
  shares = [];
  next_id = 9;
  cache_cleared = false;
}

abbrev joiner : Instance
joiner = record { settings = []; projects = []; shares = []; next_id = 30; cache_cleared = false }

abbrev pub a_client : Client
a_client = record {
  base_url = codes "https://host";
  client_cert = codes "c";
  client_key = codes "k";
  ca_pem = codes "ca";
}

abbrev made : Bytes → MadeMailbox
made b = record { id = codes "m" ++ b; write_token = codes "w" ++ b; read_token = codes "r" ++ b }

abbrev a_bundle : ClientBundle
a_bundle = record {
  name = codes "kit";
  cert_pem = codes "cert";
  key_pem = codes "key";
  ca_pem = codes "ca";
}

host-Provides :
    Provides making no_trouble creator 0
      (codes "paint")
      (codes "kit")
      a_project_entry
      a_client
      (made (codes "1"))
      (made (codes "2"))
      a_bundle
      1
      2
      3
unfolding mailbox_config configured find_by_slug new_client create_remote post_issue
host-Provides = record {
  is_configured = refl;
  has_admin = refl;
  found = refl;
  connects = refl;
  makes_ours = refl;
  makes_theirs = refl;
  issues = refl;
  stores = refl;
  is_new = tt;
}

abbrev pub row_here : ShareRow
row_here =
    own_row (mailbox_config creator) a_project_entry (codes "kit") (made (codes "1"))
      (made (codes "2")) a_key

abbrev invite_there : Invite
invite_there =
    peer_invite (mailbox_config creator) a_project_entry (codes "kit") (made (codes "1"))
      (made (codes "2")) a_key a_bundle

there_is : invite_there ≡ an_invite
unfolding mailbox_config peer_invite
there_is = refl

share-accept-IsLinked_example :
    (b : ProjectEntry) × (j' : Instance) × (share_project making a_json no_trouble
        (some a_key)
        (codes "paint")
        (codes "kit")
        (creator, 0)
      ≡ (finished (encode_invite a_json invite_there), (create_project_share row_here creator, 3)))
    × (accept_invite making a_json no_trouble (encode_invite a_json invite_there) [] (joiner, 0)
        ≡ (finished b.id, (j', 0)))
    × (lookup (or_else [] (codes "paint")) j'.projects ≡ some b)
    × ((create_project_share row_here creator).shares
        ≡ creator.shares ++ stored creator row_here ∷ [])
    × (b' : ShareRow) × (j'.shares ≡ joiner.shares ++ b' ∷ [])
    × (b'.project_id ≡ b.id)
    × IsLinked (made (codes "1")) (made (codes "2")) a_key (stored creator row_here) b'
share-accept-IsLinked_example =
    share-accept-IsLinked making a_json no_trouble creator 0 (codes "paint") (codes "kit") a_key
      a_project_entry a_client (made (codes "1")) (made (codes "2")) a_bundle 1 2 3 host-Provides
      joiner 0 [] (subst (ReadsBack a_json) (sym there_is) an_invite-ReadsBack)
      (subst IsUsable (sym there_is) an_invite-IsUsable) tt
