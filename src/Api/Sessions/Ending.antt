-- ===== src/Api/Sessions/Ending.antt =====
-- The end of a session (apps/rc-api/src/sessions/sessions.service.ts).
use ukpc_remote_control.Prelude.{
  ℕ, String, true, ◌≡◌, ◌≢◌, refl, ◌∙◌, inl, inr, Option, none, some, [], ◌∷◌, ◌++◌, arith, eq_iff,
  ◌==◌, lookup, lookup-insert, Bool-cases, Dict, nat_eq, ◌||◌,
}
use ukpc_remote_control.Shared.Keys
use ukpc_remote_control.Api.Redis.{Redis}
use ukpc_remote_control.Api.Sessions.{
  SessionState, probing, starting, active, closed, failed, mark_ended, SessionRow, ok, err,
  not_found, session_stop, World, close, close_row, close_found, change_row, end_row,
}
use ukpc_remote_control.Api.Sessions.Locking.{lock}
use ukpc_remote_control.Api.Sessions.Starting.{lookup-change_row, session_key-lock_key}

-- who may close a session: its operator and an administrator
abbrev pub May : ℕ → String → SessionRow → Type 0
May operator role row = (nat_eq row.operator_id operator || role == "admin") ≡ true

mark_ended-state :
    (state : SessionState) (row : SessionRow)
    → row.state ≡ state
    → (mark_ended state row).state ≡ closed
mark_ended-state closed row h = h
mark_ended-state probing row h = refl
mark_ended-state starting row h = refl
mark_ended-state active row h = refl
mark_ended-state failed row h = refl

lookup_other-change_row :
    (sid other : String) (change : SessionRow → SessionRow) (rows : Dict SessionRow)
    (row : SessionRow)
    → lookup sid rows ≡ some row
    → sid ≢ other
    → lookup other (change_row sid change rows) ≡ lookup other rows
lookup_other-change_row sid other change rows row h ne =
    rw (h, change_row)
      (lookup-insert sid other (change row) rows ∙ ground (arith, eq_iff sid other))

module _ (r : Redis) where
  -- what the end of the session `sid` leaves
  pub record Ended (w v : World r) (sid : String) (row : SessionRow) : Type 0 where
    pub closes : (end_row row).state ≡ closed
    pub is_kept : lookup sid v.sessions ≡ some (end_row row)
    pub freed : lock r v row.device_id ≡ none
    pub told : v.published ≡ w.published ++ (row.device_id, session_stop sid) ∷ []

  close_row-Ended :
      (w : World r) (sid : String) (row : SessionRow)
      → lookup sid w.sessions ≡ some row
      → Ended w (close_row r w sid row).0 sid row
  unfolding close_row
  close_row-Ended w sid row h = record {
    closes = mark_ended-state row.state row refl;
    is_kept = lookup-change_row sid end_row w.sessions row h;
    freed =
        r.get-del_ne _ (Keys.session sid) (Keys.active_session row.device_id)
          (session_key-lock_key sid row.device_id)
        ∙ r.get-del w.store (Keys.active_session row.device_id);
    told = refl;
  }

  -- Who may close a session closes it: its row becomes closed, its device is free, and the agent is
  -- told to stop.
  pub close-Ended :
      (w : World r) (sid role : String) (operator : ℕ) (row : SessionRow)
      → lookup sid w.sessions ≡ some row
      → May operator role row
      → (close r w sid operator role).1 ≡ ok tt × Ended w (close r w sid operator role).0 sid row
  unfolding close close_found close_row
  close-Ended w sid role operator row h m = rw (h, m) (refl, close_row-Ended w sid row h)

  close_found-denied :
      (w : World r) (sid role : String) (operator : ℕ) (o : Option SessionRow)
      → ((row : SessionRow) → o ≡ some row → ¬ May operator role row)
      → close_found r w sid operator role o ≡ (w, err not_found)
  unfolding close_found
  close_found-denied w sid role operator none h = refl
  close_found-denied w sid role operator (some row) h =
      elim (Bool-cases (nat_eq row.operator_id operator || role == "admin")) [
        | inl m ↦ absurd (h row refl m)
        | inr m ↦ rw m
      ]

  -- Any other request to close a session changes nothing, and its answer does not tell a session of
  -- another operator from one that does not exist.
  pub close_denied :
      (w : World r) (sid role : String) (operator : ℕ)
      → ((row : SessionRow) → lookup sid w.sessions ≡ some row → ¬ May operator role row)
      → close r w sid operator role ≡ (w, err not_found)
  unfolding close close_found
  close_denied w sid role operator h =
      close_found-denied w sid role operator (lookup sid w.sessions) h

  -- The lock of a device is not compared with the session that is closed: closing a session of the
  -- device frees the lock also when another session holds it.
  pub close_frees_lock_of_other :
      (w : World r) (sid other role : String) (operator : ℕ) (row : SessionRow)
      → lookup sid w.sessions ≡ some row
      → May operator role row
      → sid ≢ other
      → lock r w row.device_id ≡ some other
      → (lock r (close r w sid operator role).0 row.device_id ≡ none)
        × (lookup other (close r w sid operator role).0.sessions ≡ lookup other w.sessions)
  unfolding close close_found close_row
  close_frees_lock_of_other w sid other role operator row h m ne held = (
    (close-Ended w sid role operator row h m).1.freed,
    rw (h, m) (lookup_other-change_row sid other end_row w.sessions row h ne),
  )
