-- ===== src/Share/Linking.antt =====
-- internal/service/sharing.go: what ShareProject on one instance and AcceptInvite on another make
-- together.
use flightdeck.Base.{
  List, ap, ℕ, ◌<◌, ◌≡◌, refl, sym, subst, inl, inr, Bool, true, false, some, [], ◌∷◌, ◌++◌, arith,
  ◌==◌, nat_eq, string_eq, Option-cases, All, All-append, All-map,
}
use mathlib.Core.List.{reverse, reverse-cons, reverse-reverse}
use flightdeck.Base.Assoc.{lookup, lookup-set_self}
use flightdeck.Base.Bytes.{Bytes, bytes_eq}
use flightdeck.Share.Base64.{encode64, encode64-All}
use flightdeck.Share.Invite.{
  Invite, Json, encode_invite, IsUsable, ReadsBack, decode-encode, check_invite_iff, invite_prefix,
}
use flightdeck.Share.Client.{
  Net, got, Client, MadeMailbox, ClientBundle, new_client, create_remote, post_issue,
}
use flightdeck.Share.Rows.{
  is_linked, Instance, ProjectEntry, Trouble, ShareRow, finished, create_project_share,
  create_project, find_by_slug, invited_row,
}
use flightdeck.Share.Config.{
  is_space, drop_while, trim_ascii, MailboxConfig, mailbox_config, configured, or_else,
}
use flightdeck.Share.Setup.{
  own_row, peer_invite, peer_or_default, issue_peer_bundle, share_project, share_with, join_project,
  accept_invite, accept_decoded, store_share,
}

drop_none : (p : ℕ → Bool) (s : Bytes) → All (λ c. p c ≡ false) s → drop_while p s ≡ s
drop_none p [] h = refl
drop_none p (c ∷ s) (e, h) = rw e refl

All-reverse : (P : ℕ → Type 0) (s : Bytes) → All P s → All P (reverse s)
All-reverse P [] h = tt
All-reverse P (c ∷ s) h =
    subst (All P) (sym (reverse-cons c s))
      (All-append P (reverse s) (c ∷ []) (All-reverse P s h.1) (h.0, tt))

drop_spaces : (s : Bytes) → All (λ c. 32 < c) s → drop_while is_space s ≡ s
drop_spaces s h = drop_none is_space s (All-map (λ c lt. ground arith) s h)

trim_code : (s : Bytes) → All (λ c. 32 < c) s → trim_ascii s ≡ s
unfolding trim_ascii
trim_code s h =
    rw (drop_spaces s h, drop_spaces (reverse s) (All-reverse (λ c. 32 < c) s h))
      (reverse-reverse s)

encode_invite-trimmed :
    (json : Json) (v : Invite)
    → ReadsBack json v
    → trim_ascii (encode_invite json v) ≡ encode_invite json v
unfolding encode_invite
encode_invite-trimmed json v r = trim_code (encode_invite json v) (
    All-append (λ c. 32 < c) invite_prefix (encode64 (json.marshal v)) (omega arith)
      (encode64-All (json.marshal v) r.are_bytes))

-- No share of the instance sends to this mailbox.
abbrev pub WithoutMailbox : Bytes → Instance → Type 0
WithoutMailbox mailbox i = All (λ row. (row.send_mailbox == mailbox) ≡ false) i.shares

unlinked :
    (project : ℕ) (mailbox : Bytes) (rows : List ShareRow)
    → All (λ row. (row.send_mailbox == mailbox) ≡ false) rows
    → is_linked project mailbox rows ≡ false
unfolding is_linked
unlinked project mailbox [] h = refl
unlinked project mailbox (row ∷ rows) h = ground (arith, h.0, unlinked project mailbox rows h.1)

-- What the host and the database answer while one project is shared.
pub record Provides (net : Net) (t : Trouble) (i : Instance) (w : net.World) (slug peer : Bytes)
    (project : ProjectEntry) (client : Client) (ours theirs : MadeMailbox) (bundle : ClientBundle)
    (w1 w2 w3 : net.World) : Type 0 where
  pub is_configured : configured (mailbox_config i) ≡ true
  pub has_admin : ((mailbox_config i).admin_token == []) ≡ false
  pub found : find_by_slug t slug i ≡ some project
  pub connects :
      new_client net
        (mailbox_config i).url
        (mailbox_config i).client_cert
        (mailbox_config i).client_key
        (mailbox_config i).ca_pem
      ≡ got client
  pub makes_ours : create_remote net client (mailbox_config i).admin_token w ≡ (got ours, w1)
  pub makes_theirs : create_remote net client (mailbox_config i).admin_token w1 ≡ (got theirs, w2)
  pub issues :
      post_issue net client (mailbox_config i).admin_token (peer_or_default peer) w2
      ≡ (got bundle, w3)
  pub stores : t.create_share_fails ≡ false
  pub is_new : WithoutMailbox theirs.id i

-- The two rows of a share: each end writes where the other one drains, under the token that the
-- mailbox was made with, and both hold the key.
pub record IsLinked (ours theirs : MadeMailbox) (secret : Bytes) (a b : ShareRow) : Type 0 where
  pub both_enabled : (a.enabled ≡ true) × (b.enabled ≡ true)
  pub one_host : b.mailbox_url ≡ a.mailbox_url
  pub a_to_b : (a.send_mailbox ≡ theirs.id) × (b.recv_mailbox ≡ theirs.id)
  pub a_to_b_tokens : (a.send_token ≡ theirs.write_token) × (b.recv_token ≡ theirs.read_token)
  pub b_to_a : (b.send_mailbox ≡ ours.id) × (a.recv_mailbox ≡ ours.id)
  pub b_to_a_tokens : (b.send_token ≡ ours.write_token) × (a.recv_token ≡ ours.read_token)
  pub one_key : (a.secret ≡ secret) × (b.secret ≡ secret)

abbrev pub no_trouble : Trouble
no_trouble = record {
  lookup_fails = false;
  create_project_fails = false;
  create_share_fails = false;
}

-- The row as the database has it.
abbrev pub stored : Instance → ShareRow → ShareRow
stored i row = record row { id = i.next_id; enabled = true; last_error = [] }

-- The joiner ends with a project of the slug that it asked for, its own or a new one.
join_project_lem :
    (net : Net) (json : Json) (j : Instance) (v : net.World) (slug name : Bytes)
    → (b : ProjectEntry) × (j' : Instance) × (join_project net json no_trouble slug name (j, v)
        ≡ (finished b, (j', v)))
      × (lookup slug j'.projects ≡ some b)
      × (j'.shares ≡ j.shares)
unfolding join_project find_by_slug create_project
join_project_lem net json j v slug name = elim (Option-cases (lookup slug j.projects)) [
  | inl free ↦ (
    (create_project slug (or_else name slug) j).0,
    (create_project slug (or_else name slug) j).1,
    rw (free, join_project, free) refl,
    lookup-set_self slug _ j.projects,
    refl,
  )
  | inr (b, here) ↦ (b, j, rw (here, join_project) refl, here, refl)
]

module _ (net : Net) (json : Json) (t : Trouble) (i : Instance) (w : net.World)
    (slug peer secret : Bytes) (project : ProjectEntry) (client : Client)
    (ours theirs : MadeMailbox) (bundle : ClientBundle) (w1 w2 w3 : net.World)
    (p : Provides net t i w slug peer project client ours theirs bundle w1 w2 w3) where
  abbrev cfg : MailboxConfig
  cfg = mailbox_config i

  abbrev row : ShareRow
  row = own_row cfg project peer ours theirs secret

  abbrev invite : Invite
  invite = peer_invite cfg project peer ours theirs secret bundle

  share_project_lem :
      share_project net json t (some secret) slug peer (i, w)
      ≡ (finished (encode_invite json invite), (create_project_share row i, w3))
  unfolding share_project share_with issue_peer_bundle store_share
  share_project_lem =
      rw
        (
          p.is_configured,
          p.has_admin,
          p.found,
          p.connects,
          p.makes_ours,
          p.makes_theirs,
          p.issues,
          p.stores,
          unlinked project.id theirs.id i.shares p.is_new,
        )
        refl

  -- Where the host and the database answer while a project is shared, and no share of the instance
  -- sends to the mailbox made for that, ShareProject returns a code and adds one row. If the invite
  -- in it is usable and its document reads back, every instance whose database works and which has
  -- no share that sends to the invite's mailbox accepts the code: it then has a project of the slug
  -- that it named, or else of the invite's, and one more row, of that project, which is linked to
  -- the first.
  pub share-accept-IsLinked :
      (j : Instance) (v : net.World) (local_slug : Bytes)
      → ReadsBack json invite
      → IsUsable invite
      → WithoutMailbox ours.id j
      → (b : ProjectEntry) × (j' : Instance) × (share_project net json t
            (some secret)
            slug
            peer
            (i, w)
          ≡ (finished (encode_invite json invite), (create_project_share row i, w3)))
        × (accept_invite net json no_trouble (encode_invite json invite) local_slug (j, v)
            ≡ (finished b.id, (j', v)))
        × (lookup (or_else local_slug project.slug) j'.projects ≡ some b)
        × ((create_project_share row i).shares ≡ i.shares ++ stored i row ∷ [])
        × (b' : ShareRow) × (j'.shares ≡ j.shares ++ b' ∷ [])
        × (b'.project_id ≡ b.id)
        × IsLinked ours theirs secret (stored i row) b'
  unfolding accept_invite accept_decoded store_share own_row peer_invite invited_row
      create_project_share
  share-accept-IsLinked j v local_slug reads usable free =
      let (b, k, joined, there, same) =
        join_project_lem net json j v (or_else local_slug project.slug) project.name in
      (
        b,
        create_project_share (invited_row b.id invite) k,
        share_project_lem,
        rw
            (
              encode_invite-trimmed json invite reads,
              decode-encode json invite reads,
              (check_invite_iff invite).1 usable,
              joined,
              ap (is_linked b.id ours.id) same,
              unlinked b.id ours.id j.shares free,
            )
            refl,
        there,
        refl,
        stored k (invited_row b.id invite),
        rw same refl,
        refl,
        record {
          both_enabled = (refl, refl);
          one_host = refl;
          a_to_b = (refl, refl);
          a_to_b_tokens = (refl, refl);
          b_to_a = (refl, refl);
          b_to_a_tokens = (refl, refl);
          one_key = (refl, refl);
        },
      )
