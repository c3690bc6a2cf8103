-- ===== src/WorkerStore/Laws.antt =====
-- What the worker store promises to the synchroniser and the collector.
use aistat.Prelude.{
  ℕ, ◌≡◌, ◌≤◌, ◌<◌, refl, ◌⊎◌, ◌↔◌, inl, inr, Bool, true, false, String, Option, none, some, arith,
  ==_refl, subst, sym, ◌∙◌, eq_refl,
}
use aistat.Table.{find, find-upsert}
use aistat.Tenant.{canonical_tenant_id, int}
use aistat.Handoff.State.{official_multica_url}
use aistat.Handoff.Validation.{official-accepted}
use aistat.WorkerStore.{
  Row, stored, revoked, Version, Store, Fernet, Outcome, returned, write_credential, version_row,
  store_version, store_token, get_credential, read_row, is_current, joined, is_stored, same_epoch,
  same_data, label_eq, WorkerCredential,
}
use aistat.WorkerStore.Watermark.{
  Moves, stays, writes, buries, Below, Call, perform, perform-Moved, Agree, IsCoherent,
}

-- What a call may do to the rows of a user who has a version.
pub record IsLater (v : Version) (c : Option Row) (v' : Version) (c' : Option Row) : Type 0 where
  pub monotone : v.token_epoch ≤ v'.token_epoch
  -- no resurrection: a revoked epoch stays revoked
  pub tombstone : v.token_epoch ≡ v'.token_epoch → v.state ≡ revoked → v'.state ≡ revoked
  -- an epoch keeps its credential until it is deleted
  pub one_credential : v.token_epoch ≡ v'.token_epoch → (c' ≡ c) ⊎ (c' ≡ none)

later :
    (j : ℕ) (v : Version) (c : Option Row) (r' : Option Row) (v' : Option Version)
    → Moves (λ _ _. Unit) j c (some v) r' v'
    → (w : Version) × (v' ≡ some w) × IsLater v c w r'
later j v c r' v' (stays p q) =
    (v, q, record { monotone = omega arith; tombstone = λ _ s. s; one_credential = λ _. inl p })
later j v c r' v' (writes row w p q e s b _) = (
  w,
  q,
  record {
    monotone = omega arith;
    tombstone = λ h _. absurd (omega arith);
    one_credential = λ h. absurd (omega arith);
  },
)
later j v c r' v' (buries w p q s b _) =
    (w, q, record { monotone = b; tombstone = λ _ _. s; one_credential = λ _. inr p })

-- Whatever is stored or deleted, the watermark of a user never goes back, a revoked epoch is never
-- stored again, and the credential of an epoch is never exchanged for another.
pub perform-IsLater :
    (fernet : Fernet) (call : Call) (s : Store) (u : ℕ) (v : Version)
    → find u s.versions ≡ some v
    → (w : Version) × (find u (perform fernet call s).versions ≡ some w)
      × IsLater v (find u s.connections) w (find u (perform fernet call s).connections)
perform-IsLater fernet call s u v e =
    later u v (find u s.connections) (find u (perform fernet call s).connections)
      (find u (perform fernet call s).versions)
      (subst
        (λ x.
          Moves (λ _ _. Unit) u (find u s.connections) x
            (find u (perform fernet call s).connections) (find u (perform fernet call s).versions))
        e (perform-Moved fernet call s u))

current_agrees :
    (epoch : ℕ) (r : Option Row) (v : Option Version)
    → Agree r v
    → (joined epoch v r ≡ true) ↔ ((c : Row) × (r ≡ some c) × (c.token_epoch ≡ epoch))
unfolding joined is_stored
current_agrees epoch none none a = ground arith
current_agrees epoch none (some v) a = ground arith
current_agrees epoch (some c) none a = absurd a
current_agrees epoch (some c) (some v) a = (λ h. (c, refl, ground arith), λ (d, e, k). ground arith)

-- In a store whose tables agree, an epoch is current exactly if the stored credential has it.
pub is_current_iff :
    (s : Store) (u epoch : ℕ)
    → IsCoherent s
    → (is_current u epoch s ≡ true)
      ↔ ((c : Row) × (find u s.connections ≡ some c) × (c.token_epoch ≡ epoch))
unfolding is_current
is_current_iff s u epoch h = current_agrees epoch (find u s.connections) (find u s.versions) (h u)

label_eq_refl : (l : Option String) → label_eq l l ≡ true
label_eq_refl none = refl
label_eq_refl (some a) = eq_refl a

abbrev pub credential : ℕ → Option String → String → ℕ → WorkerCredential
credential u label token epoch = record {
  user_id = u;
  server_url = official_multica_url;
  workspace_label = label;
  token_epoch = epoch;
  token = token;
}

module _ (fernet : Fernet) (seed u : ℕ) (label : Option String) (token : String) (epoch now : ℕ)
    (s : Store) (canonical : canonical_tenant_id (int u) ≡ some u) where
  abbrev pub stored_as : ℕ → ℕ → Store → Store × Outcome Bool
  stored_as seed now s = store_token fernet seed u official_multica_url label token epoch now s

  store_opened :
      stored_as seed now s
      ≡ store_version fernet seed u official_multica_url label token epoch now s (find u s.versions)
  unfolding store_token
  store_opened = rw (official-accepted, store_token, canonical)

  fresh_written :
      (v : Option Version)
      → Below v epoch
      → store_version fernet seed u official_multica_url label token epoch now s v ≡ (
        write_credential fernet seed u official_multica_url label token epoch now s,
        returned true,
      )
  unfolding store_version
  fresh_written none b = refl
  fresh_written (some v) b = ground arith

  written_read :
      get_credential fernet u
        (write_credential fernet seed u official_multica_url label token epoch now s)
      ≡ returned (some (credential u label token epoch))
  unfolding get_credential write_credential
  written_read = rw (find-upsert, ==_refl, read_row, fernet.decrypt-encrypt)

  -- A credential of a newer epoch is accepted, and reading it back gives the server, the label, the
  -- epoch and the plaintext token that were stored, whatever random bytes the encryption draws.
  pub store-get :
      Below (find u s.versions) epoch
      → ((stored_as seed now s).1 ≡ returned true)
        × (get_credential fernet u (stored_as seed now s).0
            ≡ returned (some (credential u label token epoch)))
  store-get b = rw (store_opened, fresh_written (find u s.versions) b) (refl, written_read)

  -- A store request at or behind a tombstone, or behind a stored version, is refused and changes
  -- nothing: a delayed message cannot bring a revoked credential back.
  pub store_stale :
      (v : Version)
      → find u s.versions ≡ some v
      → (epoch < v.token_epoch) ⊎ ((epoch ≡ v.token_epoch) × (v.state ≡ revoked))
      → stored_as seed now s ≡ (s, returned false)
  unfolding store_version same_epoch
  store_stale v e (inl h) = rw (store_opened, e) (ground arith)
  store_stale v e (inr h) = rw (store_opened, e) (ground (arith, h.0, h.1))

  matches :
      same_data official_multica_url label token (returned (some (credential u label token epoch)))
      ≡ returned true
  unfolding same_data
  matches = rw (label_eq_refl label, eq_refl token)

  written_version :
      find u (write_credential fernet seed u official_multica_url label token epoch now s).versions
      ≡ some (version_row epoch stored now)
  unfolding write_credential
  written_version = rw (find-upsert, ==_refl)

  same_version :
      (seed' now' : ℕ) (t : Store) (v : Version)
      → v.token_epoch ≡ epoch
      → v.state ≡ stored
      → get_credential fernet u t ≡ returned (some (credential u label token epoch))
      → store_version fernet seed' u official_multica_url label token epoch now' t (some v)
        ≡ (t, returned true)
  unfolding store_version same_epoch
  same_version seed' now' t v e st g =
      rw (e, st, store_version, same_epoch, g, matches) (ground arith)

  again :
      (seed' now' : ℕ)
      → stored_as seed' now'
          (write_credential fernet seed u official_multica_url label token epoch now s)
        ≡ (
          write_credential fernet seed u official_multica_url label token epoch now s,
          returned true,
        )
  unfolding store_token
  again seed' now' =
      rw (official-accepted, store_token, canonical, written_version)
        (same_version seed' now'
          (write_credential fernet seed u official_multica_url label token epoch now s)
          (version_row epoch stored now) refl refl written_read)

  -- The worker may repeat a delivery that it has stored (its acknowledgement was lost): the repeated
  -- call, with other random bytes and at another time, is accepted and changes nothing.
  pub store_again :
      (seed' now' : ℕ)
      → Below (find u s.versions) epoch
      → store_token fernet seed' u official_multica_url label token epoch now'
          (stored_as seed now s).0
        ≡ ((stored_as seed now s).0, returned true)
  store_again seed' now' b =
      let w : Store = write_credential fernet seed u official_multica_url label token epoch now s in
      let done : stored_as seed now s ≡ (w, returned true) =
        store_opened ∙ fresh_written (find u s.versions) b in
      subst (λ r. stored_as seed' now' r.0 ≡ (r.0, returned true)) (sym done) (again seed' now')
