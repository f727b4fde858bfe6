-- ===== src/Pilot/Client/Agreeing.antt =====
-- The agreement of the worker and the snapshot of src/pilot/pilot_integration_client.cpp after a
-- publication and in a session.
use nodus_vision.Prelude.{
  bytes, ℕ, ◌≡◌, refl, false, not, Option, none, some, [], Text, text_eq, length, if_cases,
}
use nodus_vision.Prelude.Int.{pos}
use nodus_vision.Prelude.Json.{Json}
use nodus_vision.Prelude.Result.{Result, ok, err, Ensures}
use nodus_vision.Camera.Contracts.{ProviderState}
use nodus_vision.Pilot.{PilotHttpResult, PilotCatalogAcceptedResponse}
use nodus_vision.Pilot.Responses.Registration.{IsPublished, parse_catalog_accepted_response-lem}
use nodus_vision.Pilot.Client.{
  Environment, Session, PilotClient, CatalogConflictDisposition, status_is, is_contract_status,
  set_snapshot, update_online_success, set_retry_count,
}
use nodus_vision.Pilot.Client.Writes.{
  publication_replied, session_head, write_replied, catalog_parsed, catalog_conflict,
  contract_fault, publication_refused, send_write, write_request, write_parsed,
}
use nodus_vision.Pilot.Client.Consistent.{
  is_online, Online, IsSession, Matches, Consistent, Known, finish_worker-Consistent,
  recover-Consistent,
}

module _ (env : Environment) where
  session_head-Consistent :
      (s : Session) (n now : ℕ) (c : PilotClient)
      → Known env c
      → IsSession s
      → Online s c.catalog c.snapshot
      → Consistent env (session_head s n now c)
  unfolding session_head Matches
  session_head-Consistent s n now c known session online =
      if_cases (Consistent env) c.stop_requested _ _
        (λ _. finish_worker-Consistent env s.session_id c) (λ _. (known, session, online))

  catalog_parsed-Consistent :
      (s : Session) (n now : ℕ) (r : Result PilotCatalogAcceptedResponse) (c : PilotClient)
      → Ensures (IsPublished s.server_instance_id (pos (length c.catalog.descriptors))) r
      → Known env c
      → IsSession s
      → Consistent env (catalog_parsed s n now r c)
  unfolding catalog_parsed update_online_success Matches
  catalog_parsed-Consistent s n now (ok response) c (server, generation, count) known session =
      session_head-Consistent s 1 now
        (update_online_success now (record c {
          snapshot = record c.snapshot {
            server_instance_id = response.server_instance_id;
            catalog_generation = response.catalog_generation;
            descriptor_count = response.descriptor_count;
          };
        }))
        known session (refl, server, generation, count)
  catalog_parsed-Consistent s n now (err exception) c h known session =
      recover-Consistent env [] [] n now c known

  contract_fault-Consistent :
      (error : Text) (c : PilotClient) → Consistent env (contract_fault error c)
  unfolding contract_fault set_snapshot Matches is_online
  contract_fault-Consistent error c = refl

  catalog_conflict-Consistent :
      (d : CatalogConflictDisposition) (code : Text) (n now : ℕ) (c : PilotClient)
      → Known env c
      → Consistent env (catalog_conflict d code n now c)
  unfolding catalog_conflict Matches
  catalog_conflict-Consistent CatalogConflictDisposition.replace_session code n now c known =
      recover-Consistent env [] [] n now c known
  catalog_conflict-Consistent CatalogConflictDisposition.contract_fault code n now c known =
      contract_fault-Consistent [] c
  catalog_conflict-Consistent CatalogConflictDisposition.unknown code n now c known =
      contract_fault-Consistent [] c

  publication_refused-Consistent :
      (s : Session) (body : Text) (n m : ℕ) (result : PilotHttpResult) (now : ℕ) (c : PilotClient)
      → Known env c
      → IsSession s
      → is_online c.snapshot.state ≡ false
      → Consistent env (publication_refused env s body n m result now c)
  unfolding publication_refused set_retry_count Matches
  publication_refused-Consistent s body n m result now c known session offline =
      if_cases (Consistent env) (status_is 409 result.status) _ _
        (λ _. catalog_conflict-Consistent _ _ n now c known)
        (λ _.
          if_cases (Consistent env) (is_contract_status result.status) _ _
            (λ _. contract_fault-Consistent [] c)
            (λ _.
              if_cases (Consistent env) (status_is 404 result.status) _ _
                (λ _. recover-Consistent env [] [] n now c known) (λ _. (known, session, offline))))

  pub publication_replied-Consistent :
      (s : Session) (body : Text) (n m : ℕ) (result : PilotHttpResult) (now : ℕ) (c : PilotClient)
      → Known env c
      → IsSession s
      → is_online c.snapshot.state ≡ false
      → Consistent env (publication_replied env s body n m result now c)
  unfolding publication_replied Matches
  publication_replied-Consistent s body n m result now c known session offline =
      if_cases (Consistent env) c.stop_requested _ _
        (λ _. finish_worker-Consistent env s.session_id c)
        (λ _.
          if_cases (Consistent env) (status_is 200 result.status) _ _
            (λ _.
              catalog_parsed-Consistent s n now _ c
                (parse_catalog_accepted_response-lem env.parse result.body c.config.component_id
                  s.server_instance_id (pos (length c.catalog.descriptors)))
                known session)
            (λ _. publication_refused-Consistent s body n m result now c known session offline))

  send_write-Consistent :
      (s : Session) (n : ℕ) (suffix : Text) (now : ℕ) (r : Result Json) (c : PilotClient)
      → Known env c
      → IsSession s
      → Online s c.catalog c.snapshot
      → Consistent env (send_write env s n suffix now r c)
  unfolding send_write Matches bytes
  send_write-Consistent s n suffix now (ok document) c known session online =
      (known, session, online)
  send_write-Consistent s n suffix now (err exception) c known session online =
      recover-Consistent env [] s.session_id 0 now c known

  pub write_request-Consistent :
      (s : Session) (n : ℕ) (pending : Option ProviderState) (now : ℕ) (c : PilotClient)
      → Known env c
      → IsSession s
      → Online s c.catalog c.snapshot
      → Consistent env (write_request env s n pending now c)
  unfolding write_request Matches
  write_request-Consistent s n (some state) now c known session online =
      send_write-Consistent s n _ now _ c known session online
  write_request-Consistent s n none now c known session online =
      send_write-Consistent s n _ now _ c known session online

  write_parsed-Consistent :
      (s : Session) (n now : ℕ) (r : Result Text) (c : PilotClient)
      → Known env c
      → IsSession s
      → Online s c.catalog c.snapshot
      → Consistent env (write_parsed s n now r c)
  unfolding write_parsed update_online_success Matches
  write_parsed-Consistent s n now (ok server) c known session (state, same, generation, count) =
      if_cases (Consistent env) (text_eq server c.snapshot.server_instance_id) _ _
        (λ _.
          session_head-Consistent s n now (update_online_success now c) known session
            (refl, same, generation, count))
        (λ _. recover-Consistent env [] s.session_id 0 now c known)
  write_parsed-Consistent s n now (err exception) c known session online =
      recover-Consistent env [] s.session_id 0 now c known

  pub write_replied-Consistent :
      (s : Session) (n : ℕ) (result : PilotHttpResult) (now : ℕ) (c : PilotClient)
      → Known env c
      → IsSession s
      → Online s c.catalog c.snapshot
      → Consistent env (write_replied env s n result now c)
  unfolding write_replied Matches
  write_replied-Consistent s n result now c known session online =
      if_cases (Consistent env) c.stop_requested _ _
        (λ _. finish_worker-Consistent env s.session_id c)
        (λ _.
          if_cases (Consistent env) (not (status_is 200 result.status)) _ _
            (λ _. recover-Consistent env [] s.session_id 0 now c known)
            (λ _. write_parsed-Consistent s n now _ c known session online))
