-- ===== src/Items/Tests.antt =====
-- Items: a project with one board, a keyed create that is retried, and a completion.
use flightdeck.Items.Races.{Raced, update_item-Raced}
use flightdeck.Base.Bytes.{codes}
use flightdeck.Items.Atomic.{IsSettled}
use flightdeck.Items.Robust.{IsBroken}
use flightdeck.Items.Spec.{prior_item}
use flightdeck.Items.Operations.{
  EventEnvelope, Marshal, moved_body, given_key, create_in_tx, create_item, update_item, to_done,
  complete_item,
}
use flightdeck.Items.Revision.{with_items, soft_delete_item}
use flightdeck.Items.Transaction.{Fate, runs, loses, breaks, Conn, with_tx}
use flightdeck.Items.Tables.{Failure, unique_violation, failed, ok, new_item, is_key_taken}
use flightdeck.Items.State.{ItemRow, ActivityRow, Db, CreateItemParams, UpdateItemParams}
use flightdeck.Items.Retry.{create_item_found, create_item_again}
use flightdeck.Items.History.{
  Turn, creates_all, completes, alone, run_turns, Reaches, run_turns-Reaches,
}
use flightdeck.Items.Laws.{HasUniqueKeys, holders, count_events}
use flightdeck.Items.Audit.{run_turns-HasUniqueKeys}
use flightdeck.Items.Completion.{complete_item-explained, HasDecision}
use flightdeck.Base.{
  ◌+◌, ℕ, String, ◌≡◌, refl, ◌≢◌, ◌⊎◌, false, Option, none, some, List, [], ◌∷◌, map, arith, nat_eq,
  string_eq, length,
}

abbrev encodes : Marshal
encodes e = some (codes e.event)

encodes_all : (e : EventEnvelope) → encodes e ≢ none
encodes_all e h = ground (arith, h)

abbrev an_empty_board : Db
an_empty_board = record {
  projects = (record { id = 7; slug = "deck"; summary = []; item_seq = 0 }) ∷ [];
  items = [];
  activities = [];
  outbox = [];
  next = 100;
}

abbrev a_conn : Db → List Fate → Conn
a_conn db fates = record {
  committed = db;
  db = db;
  now = 1000;
  fates = fates;
  heard = [];
  cache_cleared = false;
}

abbrev a_request : Option String → CreateItemParams
a_request key = record {
  project_id = 7;
  type_ = none;
  title = codes "fix login";
  body = none;
  status = none;
  priority = none;
  assignee = none;
  position = none;
  source = none;
  external_ref = none;
  tags = none;
  metadata = none;
  idempotency_key = key;
  acceptance_criteria = none;
}

abbrev an_item : ItemRow
an_item = new_item 100 1 1000 (a_request (some "k1"))

-- The item is created, and the cache is cleared.
creates_it :
    (create_item encodes alone (a_request (some "k1")) (codes "ada") (a_conn an_empty_board [])).0
    ≡ ok an_item
unfolding create_item create_in_tx with_tx is_key_taken
creates_it = refl

is_keyed : given_key (a_request (some "k1")) ≡ some "k1"
unfolding given_key
is_keyed = refl

create_item_found_example :
    prior_item
      (a_request (some "k1"))
      (create_item encodes alone
        (a_request (some "k1"))
        (codes "ada")
        (a_conn an_empty_board [])).1.db
    ≡ some an_item
create_item_found_example =
    create_item_found encodes alone (a_request (some "k1")) (codes "ada") (a_conn an_empty_board [])
      "k1" an_item is_keyed refl creates_it

-- The retry meets a lost connection.
create_item_again_example :
    let d : Conn =
      record (create_item encodes alone
        (a_request (some "k1"))
        (codes "ada")
        (a_conn an_empty_board [])).1 { now = 2000; fates = breaks (codes "reset") ∷ [] } in
    let x = create_item encodes alone (a_request (some "k1")) (codes "ada") d in
    (x.1.db ≡ d.db) × ((x.0 ≡ ok an_item) ⊎ (IsBroken x.0 × (breaks (codes "reset") ∷ [] ≢ [])))
create_item_again_example =
    create_item_again encodes alone alone (a_request (some "k1")) (codes "ada")
      (a_conn an_empty_board []) "k1" an_item 2000 (breaks (codes "reset") ∷ []) is_keyed refl
      creates_it

-- A batch whose commit breaks, the batch again, and a completion.
abbrev some_turns : List Turn
some_turns =
    (record {
      write = creates_all (a_request (some "k1") ∷ a_request (some "k2") ∷ []) (codes "ada");
      now = 1000;
      fates = runs ∷ runs ∷ runs ∷ loses ∷ [];
    })
    ∷ (record {
      write = creates_all (a_request (some "k1") ∷ a_request (some "k2") ∷ []) (codes "ada");
      now = 1001;
      fates = [];
    })
    ∷ (record { write = completes 100 (codes "fixed") [] (codes "ada"); now = 1002; fates = [] })
    ∷ []

turns_count :
    let db = (run_turns encodes some_turns (a_conn an_empty_board [])).db in
    ◌≡◌ {A = ℕ × ℕ × ℕ} (length db.items, length db.activities, length db.outbox) (2, 4, 4)
unfolding run_turns is_key_taken
turns_count = refl

run_turns-Reaches_example :
    IsSettled (run_turns encodes some_turns (a_conn an_empty_board []))
    × Reaches encodes some_turns an_empty_board
        (run_turns encodes some_turns (a_conn an_empty_board [])).db
run_turns-Reaches_example = run_turns-Reaches encodes some_turns (a_conn an_empty_board []) refl

none_held : HasUniqueKeys []
unfolding HasUniqueKeys holders
none_held project k = omega arith

run_turns-HasUniqueKeys_example :
    let last = (run_turns encodes some_turns (a_conn an_empty_board [])).db in
    HasUniqueKeys last.items
    × (length last.items + count_events "item.created" []
        ≡ length an_empty_board.items + count_events "item.created" last.outbox)
run_turns-HasUniqueKeys_example =
    run_turns-HasUniqueKeys encodes some_turns (a_conn an_empty_board []) encodes_all refl none_held

abbrev a_board : Db
a_board = record an_empty_board { items = an_item ∷ [] }

fixed_given : codes "fixed" ≢ []
fixed_given h = ground (arith, h)

complete_item-explained_example :
    let x = complete_item encodes 100 (codes "fixed") [] (codes "ada") (a_conn a_board []) in
    ((it : ItemRow) × (x.0 ≡ ok it)
      × (it.status ≡ "done")
      × HasDecision it.id (codes "fixed") x.1.db)
    ⊎ ((e : Failure) × (x.0 ≡ failed e) × (x.1.db ≡ a_board))
complete_item-explained_example =
    complete_item-explained encodes (codes "ada") 100 (codes "fixed") [] (a_conn a_board []) refl
      fixed_given

-- The empty key is no supplied key for the look-up, but the unique index holds it: the second create
-- with it fails.
second_empty_key :
    let c =
      (create_item encodes alone
        (a_request (some ""))
        (codes "ada")
        (a_conn an_empty_board [])).1 in
    (create_item encodes alone (a_request (some "")) (codes "bob") c).0 ≡ failed unique_violation
unfolding create_item create_in_tx with_tx is_key_taken
second_empty_key = refl

-- A deleted item keeps its key in the index, where no look-up sees it: the retry fails.
deleted_key :
    let gone = (soft_delete_item 1500 100 a_board).1 in
    (create_item encodes alone (a_request (some "k1")) (codes "ada") (a_conn gone [])).0
    ≡ failed unique_violation
unfolding create_item create_in_tx with_tx is_key_taken soft_delete_item
deleted_key = refl

-- Another caller moves the item between the two queries of an update: the log says that it moved from
-- the status it no longer had.
abbrev to_blocked : UpdateItemParams
to_blocked = record (to_done 100) { status = some "blocked" }

abbrev gets_going : Db → Db
gets_going db = with_items (record an_item { status = "in_progress"; version = 2 } ∷ []) db

stale_from :
    let x = update_item encodes gets_going to_blocked (codes "ada") (a_conn a_board []) in
    map (λ (row : ActivityRow). row.body) x.1.db.activities ≡ moved_body "backlog" "blocked" ∷ []
unfolding update_item with_tx new_item
stale_from = refl

abbrev a_blocked_item : ItemRow
a_blocked_item = record an_item { status = "blocked"; version = 3 }

blocks_it :
    (update_item encodes gets_going to_blocked (codes "ada") (a_conn a_board [])).0
    ≡ ok a_blocked_item
unfolding update_item with_tx new_item
blocks_it = refl

update_item-Raced_example :
    Raced encodes
      (codes "ada")
      gets_going
      to_blocked
      1000
      a_board
      a_blocked_item
      (update_item encodes gets_going to_blocked (codes "ada") (a_conn a_board [])).1.db
update_item-Raced_example =
    update_item-Raced encodes (codes "ada") gets_going to_blocked (a_conn a_board []) a_blocked_item
      blocks_it
