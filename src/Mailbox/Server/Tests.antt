-- ===== src/Mailbox/Server/Tests.antt =====
-- internal/mailbox/mailbox.go: a caller with no token.
use flightdeck.Base.Assoc.{lookup}
use flightdeck.Base.{◌≡◌, sym, ap, ◌∙◌, none, some, [], ◌∷◌, arith, nat_eq, string_eq, length}
use flightdeck.Base.Bytes.{has_prefix, Bytes, codes, bytes_eq}
use flightdeck.Mailbox.State.{Store, MetaFile, no_faults, box}
use flightdeck.Mailbox.Server.{Request, serve, send_message, bearer}
use flightdeck.Mailbox.Server.Access.{Knows, refusal, stranger_learns_nothing}

abbrev tag_hash : Bytes → Bytes
tag_hash token = 35 ∷ token

abbrev a_store : Store
a_store = record {
  boxes =
      (
        codes "box",
        record {
          meta = MetaFile.parsed (record {
            id = codes "box";
            write_token_sha = tag_hash (codes "w");
            read_token_sha = tag_hash (codes "r");
            created_at = 5;
            next_seq = 1;
          });
          files = [];
        },
      )
      ∷ [];
  leases = λ _ _. none;
}

abbrev a_request : Request
a_request = record {
  id = codes "box";
  authorization = codes "Bearer wrong";
  body = some (codes "hello");
  seqs = none;
}

stranger_lacks_token : ¬ Knows tag_hash (codes "admin") send_message a_request a_store
unfolding box bearer lookup has_prefix
stranger_lacks_token (m, p, t) = absurd (omega (arith, ap length wrong))
  where
    wanted_sha : MetaFile → Bytes
    wanted_sha (MetaFile.parsed m) = m.write_token_sha
    wanted_sha _ = []

    wrong : tag_hash (codes "wrong") ≡ tag_hash (codes "w")
    wrong = t ∙ sym (ap wanted_sha p)

stranger_learns_nothing_example :
    serve tag_hash (codes "admin") no_faults 7 none none none send_message a_request a_store
    ≡ (refusal send_message, a_store)
stranger_learns_nothing_example =
    stranger_learns_nothing tag_hash (codes "admin") no_faults 7 none none none send_message
      a_request a_store stranger_lacks_token
