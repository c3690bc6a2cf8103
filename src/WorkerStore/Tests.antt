-- ===== src/WorkerStore/Tests.antt =====
-- The worker's store on concrete calls.
use aistat.Prelude.{
  ◌≡◌, refl, true, false, none, some, [], ◌∷◌, inl, inr, arith, ◌↔◌, Bool-cases, ◌==◌,
}
use aistat.Table.{find, upsert, delete}
use aistat.Tenant.{canonical_tenant_id, int}
use aistat.Handoff.State.{official_multica_url}
use aistat.WorkerStore.{
  Fernet, Store, Row, Version, stored, revoked, is_current, delete_connection, returned,
  store_token, get_credential, write_tombstone,
}
use aistat.WorkerStore.Watermark.{stores, deletes, perform, IsCoherent, perform-IsCoherent, Below}
use aistat.WorkerStore.Laws.{
  IsLater, perform-IsLater, is_current_iff, credential, store-get, store_stale, store_again,
}
use aistat.WorkerStore.Revocation.{IsDead, delete-IsDead}

-- A stand-in for the encryption that meets its law.
abbrev plain : Fernet
plain = record {
  encrypt = λ seed token. token;
  decrypt = λ c. some c;
  decrypt-encrypt = λ seed token. refl;
}

abbrev empty : Store
empty = record { connections = []; versions = [] }

abbrev row : Row
row = record {
  server_url = official_multica_url;
  workspace_label = none;
  token_ciphertext = "token-12345678";
  token_epoch = 3;
  updated_at = 50;
}

abbrev version : Version
version = record { token_epoch = 3; state = stored; updated_at = 50 }

abbrev tombstone : Version
tombstone = record { token_epoch = 3; state = revoked; updated_at = 60 }

abbrev holding : Store
holding = record { connections = (7, row) ∷ []; versions = (7, version) ∷ [] }

abbrev buried : Store
buried = record { connections = []; versions = (7, tombstone) ∷ [] }

empty-IsCoherent : IsCoherent empty
unfolding find
empty-IsCoherent u = tt

holding-IsCoherent : IsCoherent holding
unfolding find
holding-IsCoherent u = elim (Bool-cases (7 == u)) [ inl t ↦ rw t (refl, refl) | inr f ↦ rw f tt ]

seven : canonical_tenant_id (int 7) ≡ some 7
unfolding canonical_tenant_id aistat.Tenant.in_range
seven = refl

found : find 7 holding.versions ≡ some version
unfolding find
found = refl

found_tombstone : find 7 buried.versions ≡ some tombstone
unfolding find
found_tombstone = refl

next_epoch : Below (find 7 holding.versions) 4
unfolding find
next_epoch = omega arith

perform-IsCoherent_example :
    IsCoherent (perform plain (stores 0 7 official_multica_url none "token-12345678" 3 50) empty)
perform-IsCoherent_example =
    perform-IsCoherent plain (stores 0 7 official_multica_url none "token-12345678" 3 50) empty
      empty-IsCoherent

perform-IsLater_example :
    (w : Version) × (find 7 (perform plain (deletes 7 (some 3) 60) holding).versions ≡ some w)
    × IsLater version
        (find 7 holding.connections)
        w
        (find 7 (perform plain (deletes 7 (some 3) 60) holding).connections)
perform-IsLater_example = perform-IsLater plain (deletes 7 (some 3) 60) holding 7 version found

is_current_iff_example :
    (is_current 7 3 holding ≡ true)
    ↔ ((c : Row) × (find 7 holding.connections ≡ some c) × (c.token_epoch ≡ 3))
is_current_iff_example = is_current_iff holding 7 3 holding-IsCoherent

store-get_example :
    ((store_token plain 0 7 official_multica_url none "token-87654321" 4 70 holding).1
      ≡ returned true)
    × (get_credential plain 7
          (store_token plain 0 7 official_multica_url none "token-87654321" 4 70 holding).0
        ≡ returned (some (credential 7 none "token-87654321" 4)))
store-get_example = store-get plain 0 7 none "token-87654321" 4 70 holding seven next_epoch

store_stale_example :
    store_token plain 0 7 official_multica_url none "token-12345678" 3 70 buried
    ≡ (buried, returned false)
store_stale_example =
    store_stale plain 0 7 none "token-12345678" 3 70 buried seven tombstone found_tombstone
      (inr (refl, refl))

store_again_example :
    store_token plain 1 7 official_multica_url none "token-87654321" 4 90
      (store_token plain 0 7 official_multica_url none "token-87654321" 4 70 holding).0
    ≡ (
      (store_token plain 0 7 official_multica_url none "token-87654321" 4 70 holding).0,
      returned true,
    )
store_again_example = store_again plain 0 7 none "token-87654321" 4 70 holding seven 1 90 next_epoch

deletes_returned : (delete_connection 7 (some 4) 60 holding).1 ≡ returned true
unfolding delete_connection canonical_tenant_id find write_tombstone upsert delete
deletes_returned = refl

delete-IsDead_example : IsDead (delete_connection 7 (some 4) 60 holding).0 7 4
delete-IsDead_example = delete-IsDead 7 4 60 holding deletes_returned
