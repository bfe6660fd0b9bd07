-- ===== src/Share/Touches.antt =====
-- internal/sync/engine.go: what an exchange does to the rows of project_shares: at most the error of the
-- share's own row is cleared.
use flightdeck.Base.{
  ℕ, ◌≡◌, refl, ap, ◌∙◌, ◌≢◌, inl, inr, Bool, false, Option, none, some, List, [], ◌∷◌, arith,
  nat_beq_iff, ◌==◌, nat_eq, string_eq, Bool-cases, Option-cases,
}
use flightdeck.Base.Bytes.{Bytes}
use flightdeck.Sync.Engine.Exchange.{Pulled}
use flightdeck.Share.Client.{client_receive, NetError, Outcome, got, lost, Client, Mail}
use flightdeck.Share.Rows.{ShareRow}
use flightdeck.Share.Passes.{
  Engine, PassError, change_row, find_row, clear_error, Site, change_share, pulled_mail, acked_mail,
  after_pull, apply_mail, pull_share, PushRun, pushed, push_after, push_over, put_db, sync_with,
  sync_share,
}

-- Of the rows of project_shares, `rows` is what came of `old` by clearing the error of one.
pub data Touches (id : ℕ) (old : List ShareRow) : List ShareRow → Type 0 where
  same : Touches id old old
  cleared :
      {rows : List ShareRow} → Touches id old rows → Touches id old (change_row id clear_error rows)

pub Touches-trans :
    {id : ℕ} {a b c : List ShareRow} → Touches id a b → Touches id b c → Touches id a c
Touches-trans h same = h
Touches-trans h (cleared k) = cleared (Touches-trans h k)

pub find-change_ne :
    (i j : ℕ) (f : ShareRow → ShareRow) (rs : List ShareRow)
    → ((r : ShareRow) → (f r).id ≡ r.id)
    → i ≢ j
    → find_row j (change_row i f rs) ≡ find_row j rs
unfolding find_row change_row
find-change_ne i j f [] keeps ne = refl
find-change_ne i j f (r ∷ rs) keeps ne = ground (
  arith,
  keeps r,
  nat_beq_iff r.id i,
  nat_beq_iff r.id j,
  nat_beq_iff (f r).id j,
  find-change_ne i j f rs keeps ne,
)

abbrev pub change_found : (ShareRow → ShareRow) → Option ShareRow → Option ShareRow
change_found f none = none
change_found f (some r) = some (f r)

pub find-change_self :
    (i : ℕ) (f : ShareRow → ShareRow) (rs : List ShareRow)
    → ((r : ShareRow) → (f r).id ≡ r.id)
    → find_row i (change_row i f rs) ≡ change_found f (find_row i rs)
unfolding find_row change_row
find-change_self i f [] keeps = refl
find-change_self i f (r ∷ rs) keeps = elim (Bool-cases (r.id == i)) [
  | inl at ↦ rw (at, keeps r, at) refl
  | inr off ↦ rw (off, off) (find-change_self i f rs keeps)
]

-- The columns of a row that may be missing.
abbrev pub enabled_of : Option ShareRow → Bool
enabled_of none = false
enabled_of (some r) = r.enabled

abbrev pub error_of : Option ShareRow → Option Bytes
error_of none = none
error_of (some r) = some r.last_error

clear-enabled : (o : Option ShareRow) → enabled_of (change_found clear_error o) ≡ enabled_of o
clear-enabled none = refl
clear-enabled (some r) = refl

pub Touches-elsewhere :
    {i : ℕ} {old rows : List ShareRow} (j : ℕ)
    → Touches i old rows
    → i ≢ j
    → find_row j rows ≡ find_row j old
Touches-elsewhere j same ne = refl
Touches-elsewhere {i} j (cleared {rows} h) ne =
    find-change_ne i j clear_error rows (λ r. refl) ne ∙ Touches-elsewhere j h ne

pub Touches-enabled :
    {i : ℕ} {old rows : List ShareRow}
    → Touches i old rows
    → enabled_of (find_row i rows) ≡ enabled_of (find_row i old)
Touches-enabled same = refl
Touches-enabled {i} (cleared {rows} h) =
    ap enabled_of (find-change_self i clear_error rows (λ r. refl))
    ∙ (clear-enabled (find_row i rows) ∙ Touches-enabled h)

module _ (engine : Engine) where
  open engine use {wire, net, describe}

  abbrev Here : Type 0
  Here = Site engine

  pulled_mail-Touches :
      (share : ShareRow) (p : Pulled wire.Hash) (site : Here)
      → Touches share.id site.shares (pulled_mail engine share p site).shares
  unfolding pulled_mail change_share
  pulled_mail-Touches share p site = elim (Bool-cases p.changed) [
    | inl changed ↦ rw changed (cleared same)
    | inr unchanged ↦ rw unchanged (cleared same)
  ]

  acked_mail-Touches :
      (share : ShareRow) (p : Pulled wire.Hash) (site : Here) (o : Outcome (Unit {0}) × net.World)
      → Touches share.id site.shares (acked_mail engine share p site o).1.shares
  unfolding acked_mail
  acked_mail-Touches share p site (got _, w) =
      pulled_mail-Touches share p (record site { world = w })
  acked_mail-Touches share p site (lost e, w) = same

  after_pull-Touches :
      (c : Client) (share : ShareRow) (site : Here) (p : Pulled wire.Hash)
      → Touches share.id site.shares (after_pull engine c share site p).1.shares
  unfolding after_pull put_db
  after_pull-Touches c share site p = elim (Option-cases p.acked) [
    | inl stuck ↦ rw stuck same
    | inr (seqs, acks) ↦ rw acks (acked_mail-Touches share p (put_db engine share p.db site) _)
  ]

  apply_mail-Touches :
      (c : Client) (share : ShareRow) (site : Here) (o : Outcome (List Mail) × net.World)
      → Touches share.id site.shares (apply_mail engine c share site o).1.shares
  unfolding apply_mail
  apply_mail-Touches c share site (lost e, w) = same
  apply_mail-Touches c share site (got [], w) = same
  apply_mail-Touches c share site (got (m ∷ ms), w) =
      after_pull-Touches c share (record site { world = w }) _

  pushed-Touches :
      (share : ShareRow) (site : Here) (o : Option NetError × PushRun engine)
      → Touches share.id site.shares (pushed engine share site o).1.shares
  unfolding pushed put_db change_share
  pushed-Touches share site (some e, p) = same
  pushed-Touches share site (none, p) = elim (Bool-cases (p.sent == 0)) [
    | inl quiet ↦ rw quiet same
    | inr sent ↦ rw sent (cleared same)
  ]

  push_after-Touches :
      (c : Client) (share : ShareRow) (site : Here) (o : Option PassError × Here)
      → Touches share.id site.shares o.1.shares
      → Touches share.id site.shares (push_after engine c share o).1.shares
  unfolding push_after
  push_after-Touches c share site (some e, s) h = h
  push_after-Touches c share site (none, s) h =
      Touches-trans h (pushed-Touches share s (push_over engine c share s))

  sync_with-Touches :
      (o : Outcome Client) (share : ShareRow) (site : Here)
      → Touches share.id site.shares (sync_with engine o share site).1.shares
  unfolding sync_with pull_share
  sync_with-Touches (lost e) share site = same
  sync_with-Touches (got c) share site =
      push_after-Touches c share site (pull_share engine c share site) (
        apply_mail-Touches c share site
          (client_receive net c share.recv_mailbox share.recv_token site.world))

  pub sync_share-Touches :
      (share : ShareRow) (site : Here)
      → Touches share.id site.shares (sync_share engine share site).1.shares
  unfolding sync_share
  sync_share-Touches share site = sync_with-Touches _ share site
