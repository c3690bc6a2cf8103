-- ===== src/Security/Sessions.antt =====
-- What a session cookie is worth.
use aistat.Prelude.{
  ℕ, ◌+◌, ◌≡◌, refl, String, Option, none, some, arith, is_some, str_eq, if◌then◌else◌, Bool-cases,
  inl, inr, ltb, subst, sym, ap, eq_iff,
}
use aistat.Security.Rows.{
  look, drop, drop_where, put, look-drop, look-drop_other, look-put, inserted,
}
use aistat.Security.{
  SecurityDb, Session, new_session, expired, create_session, resolve_session, resolve_row,
  session_is_active, active_row, revoke_session,
}

module _ (hash : String → String) where
  row_active :
      (now : ℕ) (o : Option Session) → active_row hash now o ≡ is_some (resolve_row hash now o)
  unfolding active_row resolve_row
  row_active now none = refl
  row_active now (some s) = ground arith

  -- A cookie is active exactly when it resolves to a session.
  pub session_is_active-is_some :
      (sid : Option String) (now : ℕ) (db : SecurityDb)
      → session_is_active hash sid now db ≡ is_some (resolve_session hash sid now db)
  unfolding session_is_active resolve_session
  session_is_active-is_some none now db = refl
  session_is_active-is_some (some sid) now db = row_active now (look (hash sid) db.sessions)

  created_row :
      (sid csrf : String) (user_id ttl now : ℕ) (db db' : SecurityDb)
      → create_session hash sid csrf user_id ttl now db ≡ some db'
      → look (hash sid) db'.sessions ≡ some (new_session user_id csrf ttl now)
  unfolding create_session
  created_row sid csrf user_id ttl now db db' h =
      let live = drop_where (expired now) db.sessions in
      let row = new_session user_id csrf ttl now in
      let written : SecurityDb = record db { sessions = put (hash sid) row live } in
      subst (λ d. look (hash sid) d.sessions ≡ some row)
        (inserted (is_some (look (hash sid) live)) written db' h) (look-put (hash sid) row live)

  -- The cookie of a created session resolves to its user and its CSRF secret before it expires, and
  -- to nothing from then on.
  pub create_session-resolve_session :
      (sid csrf : String) (user_id ttl now : ℕ) (db db' : SecurityDb)
      → create_session hash sid csrf user_id ttl now db ≡ some db'
      → (t : ℕ)
      → resolve_session hash (some sid) t db' ≡ (
          if ltb t (now + ttl)
          then some (record { user_id = user_id; csrf = csrf; expires_at = now + ttl })
          else none)
  unfolding resolve_session resolve_row
  create_session-resolve_session sid csrf user_id ttl now db db' h t =
      ap (resolve_row hash t) (created_row sid csrf user_id ttl now db db' h)

  -- Revoking a cookie makes each cookie with its hash resolve to nothing, and leaves what every
  -- other cookie resolves to.
  pub revoke_session-resolve_session :
      (sid other : String) (t : ℕ) (db : SecurityDb)
      → resolve_session hash (some other) t (revoke_session hash (some sid) db)
        ≡ (if str_eq (hash sid) (hash other) then none else resolve_session hash (some other) t db)
  unfolding resolve_session revoke_session resolve_row
  revoke_session-resolve_session sid other t db =
      elim (Bool-cases (str_eq (hash sid) (hash other))) [
        | inl e ↦
            let same : hash sid ≡ hash other = (eq_iff (hash sid) (hash other)).0 e in
            rw e (
              ap (resolve_row hash t) (
                subst (λ k. look (hash other) (drop k db.sessions) ≡ none) (sym same)
                  (look-drop (hash other) db.sessions)))
        | inr f ↦
            rw f (ap (resolve_row hash t) (look-drop_other (hash other) (hash sid) db.sessions f))
      ]
