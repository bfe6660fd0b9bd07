-- ===== src/Share/Isolation.antt =====
-- internal/sync/engine.go: what a pass over all shares does to the row of one of them.
use flightdeck.Base.{
  ℕ, ◌≡◌, refl, ap, ◌∙◌, ◌≢◌, inl, inr, Bool, true, false, not, ◌&&◌, Option, none, some, List, [],
  ◌∷◌, ◌++◌, nat_eq, string_eq, Bool-cases, All,
}
use flightdeck.Base.Bytes.{Bytes}
use flightdeck.Share.Rows.{ShareRow}
use flightdeck.Share.Touches.{
  find-change_ne, find-change_self, change_found, enabled_of, error_of, Touches-elsewhere,
  Touches-enabled, sync_share-Touches,
}
use flightdeck.Share.Passes.{
  Engine, PassError, is_gone, change_row, find_row, with_error, disable, list_enabled, Site,
  change_share, sync_share, note_outcome, run_shares, run_once,
}

-- What the outcome of a share's exchange says of its row.
abbrev pub is_revoked : Option PassError → Bool
is_revoked none = false
is_revoked (some e) = is_gone e

-- The error that the row of a share shows after its exchange, if it showed `before`.
abbrev pub reported : Engine → Option PassError → Option Bytes → Option Bytes
reported engine none before = before
reported engine (some e) none = none
reported engine (some e) (some before) = some (engine.describe e)

and_true : (b : Bool) → b ≡ (b && true)
and_true true = refl
and_true false = refl

and_false : (b : Bool) → false ≡ (b && false)
and_false true = refl
and_false false = refl

module _ (engine : Engine) where
  open engine use {wire, net, describe}

  abbrev Here : Type 0
  Here = Site engine

  -- The row of another share is left alone by a whole turn.
  turn_elsewhere :
      (j : ℕ) (share : ShareRow) (site : Here)
      → share.id ≢ j
      → find_row j (note_outcome engine share (sync_share engine share site)).shares
        ≡ find_row j site.shares
  unfolding note_outcome change_share
  turn_elsewhere j share site ne =
      noted (sync_share engine share site)
      ∙ Touches-elsewhere j (sync_share-Touches engine share site) ne
    where
      noted :
          (o : Option PassError × Here)
          → find_row j (note_outcome engine share o).shares ≡ find_row j o.1.shares
      noted (none, s) = refl
      noted (some e, s) =
          let texted =
            find-change_ne share.id j (with_error (describe e)) s.shares (λ r. refl) ne in
          elim (Bool-cases (is_gone e)) [
            | inl gone ↦ rw gone (find-change_ne share.id j disable _ (λ r. refl) ne ∙ texted)
            | inr there ↦ rw there texted
          ]

  run_shares-elsewhere :
      (j : ℕ) (shares : List ShareRow) (site : Here)
      → All (λ r. r.id ≢ j) shares
      → find_row j (run_shares engine shares site).shares ≡ find_row j site.shares
  unfolding run_shares
  run_shares-elsewhere j [] site h = refl
  run_shares-elsewhere j (share ∷ rest) site (ne, h) =
      run_shares-elsewhere j rest _ h ∙ turn_elsewhere j share site ne

  run_shares-append :
      (xs ys : List ShareRow) (site : Here)
      → run_shares engine (xs ++ ys) site ≡ run_shares engine ys (run_shares engine xs site)
  unfolding run_shares
  run_shares-append [] ys site = refl
  run_shares-append (x ∷ xs) ys site = run_shares-append xs ys _

  noted_row :
      (share : ShareRow) (o : Option PassError × Here)
      → (enabled_of (find_row share.id (note_outcome engine share o).shares)
          ≡ (enabled_of (find_row share.id o.1.shares) && not (is_revoked o.0)))
        × (error_of (find_row share.id (note_outcome engine share o).shares)
            ≡ reported engine o.0 (error_of (find_row share.id o.1.shares)))
  unfolding note_outcome change_share
  noted_row share (none, s) = (and_true (enabled_of (find_row share.id s.shares)), refl)
  noted_row share (some e, s) =
      let texted = find-change_self share.id (with_error (describe e)) s.shares (λ r. refl) in
      elim (Bool-cases (is_gone e)) [
        | inl gone ↦
            rw
              (
                gone,
                find-change_self share.id disable
                    (change_row share.id (with_error (describe e)) s.shares) (λ r. refl),
                texted,
              )
              (disabled (find_row share.id s.shares))
        | inr there ↦ rw (there, texted) (kept (find_row share.id s.shares))
      ]
    where
      disabled :
          (o : Option ShareRow)
          → (enabled_of (change_found disable (change_found (with_error (describe e)) o))
              ≡ (enabled_of o && false))
            × (error_of (change_found disable (change_found (with_error (describe e)) o))
                ≡ reported engine (some e) (error_of o))
      disabled none = (refl, refl)
      disabled (some r) = (and_false r.enabled, refl)

      kept :
          (o : Option ShareRow)
          → (enabled_of (change_found (with_error (describe e)) o) ≡ (enabled_of o && true))
            × (error_of (change_found (with_error (describe e)) o)
                ≡ reported engine (some e) (error_of o))
      kept none = (refl, refl)
      kept (some r) = (and_true r.enabled, refl)

  -- A pass over the enabled shares reaches each of them, whatever becomes of the others. For a
  -- share whose id stands once among the enabled ones: its exchange starts from the row that it had
  -- before the pass; after the pass it is enabled as before, unless its own exchange found its
  -- mailbox gone; and its row shows the error of its own exchange, or, where that succeeded, what
  -- it left there.
  pub run_once-own :
      (site : Here) (xs ys : List ShareRow) (share : ShareRow)
      → list_enabled site.shares ≡ xs ++ share ∷ ys
      → All (λ r. r.id ≢ share.id) xs
      → All (λ r. r.id ≢ share.id) ys
      → (find_row share.id (run_shares engine xs site).shares ≡ find_row share.id site.shares)
        × (enabled_of (find_row share.id (run_once engine site).shares) ≡ (
            enabled_of (find_row share.id site.shares)
            && not (is_revoked (sync_share engine share (run_shares engine xs site)).0)))
        × (error_of (find_row share.id (run_once engine site).shares)
            ≡ reported engine (sync_share engine share (run_shares engine xs site)).0 (
                error_of (
                  find_row share.id
                    (sync_share engine share (run_shares engine xs site)).1.shares)))
  unfolding run_once run_shares
  run_once-own site xs ys share listed before after =
      let start = run_shares engine xs site in
      let early = run_shares-elsewhere share.id xs site before in
      let noted = noted_row share (sync_share engine share start) in
      let late =
        run_shares-elsewhere share.id ys (note_outcome engine share (sync_share engine share start))
          after in
      let whole : (run_once engine site).shares
          ≡ (run_shares engine ys
              (note_outcome engine share (sync_share engine share start))).shares =
        rw listed (ap (λ (s : Here). s.shares) (run_shares-append xs (share ∷ ys) site)) in
      (
        early,
        ap (λ rs. enabled_of (find_row share.id rs)) whole
            ∙ (ap enabled_of late
                ∙ (noted.0
                    ∙ ap (λ b. b && not (is_revoked (sync_share engine share start).0))
                        (Touches-enabled (sync_share-Touches engine share start)
                          ∙ ap enabled_of early))),
        ap (λ rs. error_of (find_row share.id rs)) whole ∙ (ap error_of late ∙ noted.1),
      )
