-- ===== src/Gateway/Sessions/Soundness.antt =====
-- The invariant of the session table (src/gateway/session_manager.cpp): the reverse indexes name
-- only sessions that are in the table and that have that handle or process, and ids are fresh.
use protocol_design.Prelude.{
  ℕ, ◌+◌, ◌^◌, ◌<◌, ◌≡◌, ◌≢◌, refl, List, true, not, Option, none, some, if◌then◌else◌, ◌==◌, arith,
  Option-cases, Bool-cases, inl, inr,
}
use protocol_design.Prelude.Assoc.{lookup, erase, nat_eq, lookup-insert, lookup-erase}
use protocol_design.Prelude.Int.{ℤ, int_eq, int_same_iff, is_positive}
use protocol_design.Gateway.Sessions.{
  SessionRuntime, SessionTable, empty, store, create_spawning_session, set_apphost_pid,
  bind_apphost, mark_client_seen, mark_apphost_seen, transition_to_closing, remove_session, is_dead,
  cannot_close, new_session, active,
}

abbrev pub Sessions : Type 0
Sessions = List (ℕ × SessionRuntime)

-- The handles and the process of a session.
abbrev pub client_of : ℕ → Sessions → Option ℕ
client_of s m = elim (lookup s m) [ none ↦ none | some rt ↦ some rt.client_conn ]

abbrev pub apphost_of : ℕ → Sessions → Option ℕ
apphost_of s m = elim (lookup s m) [ none ↦ none | some rt ↦ some rt.apphost_conn ]

abbrev pub pid_of : ℕ → Sessions → Option ℤ
pid_of s m = elim (lookup s m) [ none ↦ none | some rt ↦ some rt.apphost_pid ]

pub record IsSound (t : SessionTable) : Type 0 where
  pub client_sound : (c s : ℕ) → lookup c t.by_client ≡ some s → client_of s t.by_session ≡ some c
  pub client_nonzero : (c s : ℕ) → lookup c t.by_client ≡ some s → c ≢ 0
  pub apphost_sound :
      (a s : ℕ) → lookup a t.by_apphost ≡ some s → apphost_of s t.by_session ≡ some a
  pub apphost_nonzero : (a s : ℕ) → lookup a t.by_apphost ≡ some s → a ≢ 0
  pub pid_sound : (p : ℤ) (s : ℕ) → lookup p t.by_pid ≡ some s → pid_of s t.by_session ≡ some p
  pub pid_positive : (p : ℤ) (s : ℕ) → lookup p t.by_pid ≡ some s → is_positive p ≡ true
  pub own_id : (s : ℕ) (rt : SessionRuntime) → lookup s t.by_session ≡ some rt → rt.session_id ≡ s
  pub id_used :
      (s : ℕ) (rt : SessionRuntime)
      → lookup s t.by_session ≡ some rt
      → (0 < s) × (s < t.next_session_id)
  pub next_positive : 0 < t.next_session_id

pub empty-IsSound : IsSound empty
unfolding lookup
empty-IsSound = record {
  client_sound = λ c s e. cc;
  client_nonzero = λ c s e. cc;
  apphost_sound = λ c s e. cc;
  apphost_nonzero = λ c s e. cc;
  pid_sound = λ c s e. cc;
  pid_positive = λ c s e. cc;
  own_id = λ c s e. cc;
  id_used = λ c s e. cc;
  next_positive = omega arith;
}

unused_id : (t : SessionTable) → IsSound t → lookup t.next_session_id t.by_session ≡ none
unused_id t v = elim (Option-cases (lookup t.next_session_id t.by_session)) [
  | inl e ↦ e
  | inr (rt, e) ↦ absurd (omega (arith, v.id_used t.next_session_id rt e))
]

-- Creating a session for a client, whose handle is not 0, keeps the invariant of the table, while
-- the next id is not the last one of 32 bits.
pub create_spawning_session-IsSound :
    (c : ℕ) (app path : List ℕ) (now timeout : ℕ) (t : SessionTable)
    → c ≢ 0
    → t.next_session_id + 1 < 2 ^ 32
    → IsSound t
    → IsSound (create_spawning_session c app path now timeout t).1
unfolding create_spawning_session
create_spawning_session-IsSound c app path now timeout t nz room v =
    let new = t.next_session_id in
    let free = unused_id t v in
    let rt = new_session new c app path now timeout in
    let added = λ (s : ℕ). lookup-insert new s rt t.by_session in
    record {
      client_sound = λ k s e.
          ground (arith, free, lookup-insert c k new t.by_client, added s, v.client_sound k s);
      client_nonzero =
          λ k s e. ground (arith, lookup-insert c k new t.by_client, v.client_nonzero k s);
      apphost_sound = λ k s e. ground (arith, free, added s, v.apphost_sound k s);
      apphost_nonzero = v.apphost_nonzero;
      pid_sound = λ k s e. ground (arith, free, added s, v.pid_sound k s);
      pid_positive = v.pid_positive;
      own_id = λ s rt' e. ground (arith, added s, v.own_id s rt');
      id_used = λ s rt' e. ground (arith, added s, v.id_used s rt', v.next_positive);
      next_positive = omega arith;
    }

module _ (t : SessionTable) (id : ℕ) (v : IsSound t) where
  remove_session-IsSound_at :
      (rt : SessionRuntime) → lookup id t.by_session ≡ some rt → IsSound (remove_session id t)
  unfolding remove_session
  remove_session-IsSound_at rt q =
      let gone = λ (s : ℕ). lookup-erase id s t.by_session in
      rw (q, remove_session)
        (record {
          client_sound = λ k s e. ground (
            arith,
            gone s,
            lookup-erase rt.client_conn k t.by_client,
            v.client_sound k s,
            v.client_nonzero k s,
          );
          client_nonzero = λ k s e.
              ground (arith, lookup-erase rt.client_conn k t.by_client, v.client_nonzero k s);
          apphost_sound = λ k s e. ground (
            arith,
            gone s,
            lookup-erase rt.apphost_conn k t.by_apphost,
            v.apphost_sound k s,
            v.apphost_nonzero k s,
          );
          apphost_nonzero = λ k s e.
              ground (arith, lookup-erase rt.apphost_conn k t.by_apphost, v.apphost_nonzero k s);
          pid_sound = λ k s e. ground (
            arith,
            gone s,
            lookup-erase rt.apphost_pid k t.by_pid,
            int_same_iff rt.apphost_pid k,
            v.pid_sound k s,
            v.pid_positive k s,
          );
          pid_positive =
              λ k s e. ground (arith, lookup-erase rt.apphost_pid k t.by_pid, v.pid_positive k s);
          own_id = λ s rt' e. ground (arith, gone s, v.own_id s rt');
          id_used = λ s rt' e. ground (arith, gone s, v.id_used s rt');
          next_positive = v.next_positive;
        })

  -- Removing a session keeps the invariant.
  pub remove_session-IsSound : IsSound (remove_session id t)
  unfolding remove_session
  remove_session-IsSound = elim (Option-cases (lookup id t.by_session)) [
    | inl e ↦ rw (e, remove_session) v
    | inr (rt, e) ↦ remove_session-IsSound_at rt e
  ]

-- A new runtime for a session that is in the table, with the same id, handles and process.
store-IsSound :
    (t : SessionTable) (id : ℕ) (rt rt' : SessionRuntime)
    → IsSound t
    → lookup id t.by_session ≡ some rt
    → rt'.session_id ≡ rt.session_id
    → rt'.client_conn ≡ rt.client_conn
    → rt'.apphost_conn ≡ rt.apphost_conn
    → rt'.apphost_pid ≡ rt.apphost_pid
    → IsSound (store id rt' t)
store-IsSound t id rt rt' v q e₁ e₂ e₃ e₄ =
    let put = λ (s : ℕ). lookup-insert id s rt' t.by_session in
    record {
      client_sound = λ k s e. ground (arith, put s, v.client_sound k s);
      client_nonzero = v.client_nonzero;
      apphost_sound = λ k s e. ground (arith, put s, v.apphost_sound k s);
      apphost_nonzero = v.apphost_nonzero;
      pid_sound = λ k s e. ground (arith, put s, v.pid_sound k s);
      pid_positive = v.pid_positive;
      own_id = λ s r e. ground (arith, put s, v.own_id s r, v.own_id s rt);
      id_used = λ s r e. ground (arith, put s, v.id_used s r, v.id_used s rt);
      next_positive = v.next_positive;
    }

module _ (t : SessionTable) (id : ℕ) (v : IsSound t) where
  -- Binding an AppHost connection, whose handle is not 0, keeps the invariant of the table.
  pub bind_apphost-IsSound : (conn now : ℕ) → conn ≢ 0 → IsSound (bind_apphost id conn now t).1
  unfolding bind_apphost
  bind_apphost-IsSound conn now nz = elim (Option-cases (lookup id t.by_session)) [
    | inl e ↦ rw (e, bind_apphost) v
    | inr (rt, q) ↦ elim (Bool-cases (is_dead rt.state)) [
      | inl d ↦ rw (q, bind_apphost, d) v
      | inr d ↦
          let rt' = record rt { apphost_conn = conn; state = active; last_apphost_seen = now } in
          let put = λ (s : ℕ). lookup-insert id s rt' t.by_session in
          let index = λ (k : ℕ). lookup-insert conn k id (
            if not (rt.apphost_conn == 0)
            then erase rt.apphost_conn t.by_apphost
            else t.by_apphost) in
          let cleared = λ (k : ℕ). lookup-erase rt.apphost_conn k t.by_apphost in
          rw (q, bind_apphost, d)
            (record {
              client_sound = λ k s e. ground (arith, put s, v.client_sound k s);
              client_nonzero = v.client_nonzero;
              apphost_sound = λ k s e.
                  ground
                    (arith, put s, index k, cleared k, v.apphost_sound k s, v.apphost_nonzero k s);
              apphost_nonzero = λ k s e. ground (arith, index k, cleared k, v.apphost_nonzero k s);
              pid_sound = λ k s e. ground (arith, put s, v.pid_sound k s);
              pid_positive = v.pid_positive;
              own_id = λ s r e. ground (arith, put s, v.own_id s r, v.own_id s rt);
              id_used = λ s r e. ground (arith, put s, v.id_used s r, v.id_used s rt);
              next_positive = v.next_positive;
            })
    ]
  ]

  -- Recording the process of a session keeps the invariant of the table.
  pub set_apphost_pid-IsSound : (pid : ℤ) → IsSound (set_apphost_pid id pid t).1
  unfolding set_apphost_pid
  set_apphost_pid-IsSound pid = elim (Option-cases (lookup id t.by_session)) [
    | inl e ↦ rw (e, set_apphost_pid) v
    | inr (rt, q) ↦
        let rt' = record rt { apphost_pid = pid } in
        let put = λ (s : ℕ). lookup-insert id s rt' t.by_session in
        let old = if is_positive rt.apphost_pid then erase rt.apphost_pid t.by_pid else t.by_pid in
        let index = λ (k : ℤ). lookup-insert pid k id old in
        let cleared = λ (k : ℤ). lookup-erase rt.apphost_pid k t.by_pid in
        rw (q, set_apphost_pid)
          (record {
            client_sound = λ k s e. ground (arith, put s, v.client_sound k s);
            client_nonzero = v.client_nonzero;
            apphost_sound = λ k s e. ground (arith, put s, v.apphost_sound k s);
            apphost_nonzero = v.apphost_nonzero;
            pid_sound = λ k s e. ground (
              arith,
              put s,
              index k,
              cleared k,
              int_same_iff pid k,
              int_same_iff rt.apphost_pid k,
              v.pid_sound k s,
              v.pid_positive k s,
            );
            pid_positive =
                λ k s e. ground (arith, index k, cleared k, int_same_iff pid k, v.pid_positive k s);
            own_id = λ s r e. ground (arith, put s, v.own_id s r, v.own_id s rt);
            id_used = λ s r e. ground (arith, put s, v.id_used s r, v.id_used s rt);
            next_positive = v.next_positive;
          })
  ]

  pub mark_client_seen-IsSound : (now : ℕ) → IsSound (mark_client_seen id now t).1
  unfolding mark_client_seen
  mark_client_seen-IsSound now = elim (Option-cases (lookup id t.by_session)) [
    | inl e ↦ rw (e, mark_client_seen) v
    | inr (rt, q) ↦ rw (q, mark_client_seen) (store-IsSound t id rt _ v q refl refl refl refl)
  ]

  pub mark_apphost_seen-IsSound : (now : ℕ) → IsSound (mark_apphost_seen id now t).1
  unfolding mark_apphost_seen
  mark_apphost_seen-IsSound now = elim (Option-cases (lookup id t.by_session)) [
    | inl e ↦ rw (e, mark_apphost_seen) v
    | inr (rt, q) ↦ rw (q, mark_apphost_seen) (store-IsSound t id rt _ v q refl refl refl refl)
  ]

  pub transition_to_closing-IsSound : IsSound (transition_to_closing id t).1
  unfolding transition_to_closing
  transition_to_closing-IsSound = elim (Option-cases (lookup id t.by_session)) [
    | inl e ↦ rw (e, transition_to_closing) v
    | inr (rt, q) ↦ elim (Bool-cases (cannot_close rt.state)) [
      | inl d ↦ rw (q, transition_to_closing, d) v
      | inr d ↦ rw (q, transition_to_closing, d) (store-IsSound t id rt _ v q refl refl refl refl)
    ]
  ]
