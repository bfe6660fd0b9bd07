-- ===== src/Share/Quiet.antt =====
-- internal/sync/engine.go: an exchange with no mail on either side.
use flightdeck.Base.{ℕ, ◌≡◌, refl, true, Option, none, List, [], ◌∷◌, nat_eq, string_eq, All}
use flightdeck.Sync.Engine.{Kind}
use flightdeck.Sync.Engine.Exchange.{Row, already_sent, rows, sent_hashes}
use flightdeck.Share.Client.{got, Client, new_client, client_receive}
use flightdeck.Share.Rows.{ShareRow}
use flightdeck.Share.Passes.{
  Engine, Site, PushRun, db_of, send_over, send_each, push_over, pushed, push_after, pull_share,
  apply_mail, sync_with, sync_share, put_db,
}

module _ (engine : Engine) (share : ShareRow) where
  open engine use {wire, net}
  open engine.wire use {Hash}

  pub send_each_settled :
      (c : Client) (hashes : Kind → ℕ → Option Hash) (rest : List (Row wire)) (p : PushRun engine)
      → All (λ r. already_sent wire hashes r ≡ true) rest
      → send_each engine c share hashes rest p ≡ (none, p)
  unfolding send_each send_over
  send_each_settled c hashes [] p h = refl
  send_each_settled c hashes (row ∷ rest) p (old, h) = rw old (send_each_settled c hashes rest p h)

  -- An exchange that finds no mail and has nothing new to send succeeds, and leaves every row of
  -- project_shares as it is, the error of an earlier exchange included.
  pub sync_share-quiet :
      (site : Site engine) (c : Client) (w : net.World)
      → new_client net share.mailbox_url share.client_cert share.client_key share.ca_pem ≡ got c
      → client_receive net c share.recv_mailbox share.recv_token site.world ≡ (got [], w)
      → All
          (λ r. already_sent wire (sent_hashes wire (db_of engine share site)) r ≡ true)
          (rows wire (db_of engine share site))
      → ((sync_share engine share site).0 ≡ none)
        × ((sync_share engine share site).1.shares ≡ site.shares)
        × ((sync_share engine share site).1.world ≡ w)
  unfolding sync_share sync_with pull_share apply_mail push_after pushed push_over put_db db_of
  sync_share-quiet site c w connects empty settled =
      let start : PushRun engine = record { db = db_of engine share site; sent = 0; world = w } in
      let sent =
        send_each_settled c (sent_hashes wire (db_of engine share site))
          (rows wire (db_of engine share site)) start settled in
      rw (connects, sync_with, empty, pull_share, sent) (refl, refl, refl)
