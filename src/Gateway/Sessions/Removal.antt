-- ===== src/Gateway/Sessions/Removal.antt =====
-- What the removals of src/gateway/session_manager.cpp leave in the table.
use protocol_design.Prelude.{ℕ, ◌≡◌, ◌≢◌, refl, ap, none, some, arith, Option-cases, inl, inr}
use protocol_design.Prelude.Assoc.{lookup, erase, nat_eq, lookup-erase}
use protocol_design.Prelude.Int.{ℤ, int_eq}
use protocol_design.Gateway.Sessions.{
  SessionTable, no_route, find, remove_session, remove_by_client, remove_by_apphost, without_client,
  without_apphost, without_pid,
}
use protocol_design.Gateway.Sessions.Soundness.{IsSound, remove_session-IsSound}

-- A session is nowhere in the table, and the other sessions are as they were.
pub record IsGone (id : ℕ) (before after : SessionTable) : Type 0 where
  pub no_session : lookup id after.by_session ≡ none
  pub no_route_left : find id after ≡ no_route
  pub not_by_client : (c : ℕ) → lookup c after.by_client ≢ some id
  pub not_by_apphost : (a : ℕ) → lookup a after.by_apphost ≢ some id
  pub not_by_pid : (p : ℤ) → lookup p after.by_pid ≢ some id
  pub others_kept : (j : ℕ) → j ≢ id → lookup j after.by_session ≡ lookup j before.by_session

module _ (t : SessionTable) (id : ℕ) (v : IsSound t) where
  session_gone : lookup id (remove_session id t).by_session ≡ none
  unfolding remove_session
  session_gone = elim (Option-cases (lookup id t.by_session)) [
    | inl e ↦ rw (e, remove_session) e
    | inr (rt, e) ↦ rw (e, remove_session) (ground (arith, lookup-erase id id t.by_session))
  ]

  others : (j : ℕ) → j ≢ id → lookup j (remove_session id t).by_session ≡ lookup j t.by_session
  unfolding remove_session
  others j n = elim (Option-cases (lookup id t.by_session)) [
    | inl e ↦ rw (e, remove_session) refl
    | inr (rt, e) ↦ rw (e, remove_session) (ground (arith, lookup-erase id j t.by_session))
  ]

  -- On a sound table, after `remove_session` the session has no route, no index entry names it, and
  -- the other sessions are as they were.
  pub remove_session-IsGone : IsGone id t (remove_session id t)
  unfolding find
  remove_session-IsGone =
      let w = remove_session-IsSound t id v in
      let e = session_gone in
      record {
        no_session = e;
        no_route_left = rw (e, find) refl;
        not_by_client = λ c h. ground (arith, w.client_sound c id, e);
        not_by_apphost = λ a h. ground (arith, w.apphost_sound a id, e);
        not_by_pid = λ p h. ground (arith, w.pid_sound p id, e);
        others_kept = others;
      }

module _ (t : SessionTable) (conn id : ℕ) (v : IsSound t) where
  -- On a sound table, removal by the handle of a client that is indexed is removal of the session
  -- that it is indexed to.
  pub remove_by_client_lem :
      lookup conn t.by_client ≡ some id → remove_by_client conn t ≡ (id, remove_session id t)
  unfolding remove_by_client remove_session
  remove_by_client_lem q = elim (Option-cases (lookup id t.by_session)) [
    | inl e ↦ absurd (ground (arith, v.client_sound conn id q))
    | inr (rt, e) ↦
        let same : rt.client_conn ≡ conn = ground (arith, v.client_sound conn id q) in
        let index : erase conn t.by_client ≡ without_client rt t =
          ground (arith, same, v.client_nonzero conn id q) in
        rw (q, remove_by_client, e, remove_session)
          (ap
            (λ m. (
              id,
              record t {
                by_client = m;
                by_apphost = without_apphost rt t;
                by_pid = without_pid rt t;
                by_session = erase id t.by_session;
              },
            ))
            index)
  ]

  -- On a sound table, removal by the handle of an AppHost that is indexed is removal of the session
  -- that it is indexed to.
  pub remove_by_apphost_lem :
      lookup conn t.by_apphost ≡ some id → remove_by_apphost conn t ≡ (id, remove_session id t)
  unfolding remove_by_apphost remove_session
  remove_by_apphost_lem q = elim (Option-cases (lookup id t.by_session)) [
    | inl e ↦ absurd (ground (arith, v.apphost_sound conn id q))
    | inr (rt, e) ↦
        let same : rt.apphost_conn ≡ conn = ground (arith, v.apphost_sound conn id q) in
        let index : erase conn t.by_apphost ≡ without_apphost rt t =
          ground (arith, same, v.apphost_nonzero conn id q) in
        rw (q, remove_by_apphost, e, remove_session)
          (ap
            (λ m. (
              id,
              record t {
                by_client = without_client rt t;
                by_apphost = m;
                by_pid = without_pid rt t;
                by_session = erase id t.by_session;
              },
            ))
            index)
  ]
