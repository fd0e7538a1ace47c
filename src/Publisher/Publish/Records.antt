-- ===== src/Publisher/Publish/Records.antt =====
-- What a publish leaves in the two tables.
use free_model_orchestrator.Base.{
  ℕ, ◌≡◌, refl, inl, inr, String, true, Option, some, List, [], ◌∷◌, ◌++◌, ◌==◌, ◌&&◌, string_eq,
  arith, ◌∙◌, ap, sym, subst, Bool-cases,
}
use free_model_orchestrator.Base.Float.{Float}
use free_model_orchestrator.Effects.{Outcome, return, raise, Exception, Action, and_then, lift}
use free_model_orchestrator.Omniroute.{Outside, OmniRouteClient, get, put}
use free_model_orchestrator.Json.{Json, Fields, obj}
use free_model_orchestrator.Publisher.Combos.{resolve_generation}
use free_model_orchestrator.Publisher.{Generation, or_text}
use free_model_orchestrator.Publisher.Publish.{
  PublishedRow, AuditRow, Tables, PublishState, Wire, PoolPublishResult, Acknowledged, has_key,
  upsert, get_published, on_outside, send_generation, record_publish, publish_pool_generation,
  published_row, audit_row, ask_version, read_version, check_version, as_dict, sent, commit,
}

has_key-own : (a b : String) → ((a == a) && (b == b)) ≡ true
has_key-own a b = ground arith

module _ (F : Float) (new : PublishedRow F) (generation payload_hash : String) where
  pub get_published-upsert :
      (rows : List (PublishedRow F))
      → has_key F generation payload_hash new ≡ true
      → (row : PublishedRow F) × (get_published F generation payload_hash (upsert F new rows)
          ≡ some row)
        × (row.payload ≡ new.payload)
        × (row.status ≡ new.status)
  unfolding upsert get_published
  get_published-upsert [] h = (new, ground arith, refl, refl)
  get_published-upsert (row ∷ rows) h =
      elim (Bool-cases (has_key F new.generation new.payload_hash row)) [
        | inl e ↦ (
          record row { payload = new.payload; status = new.status },
          ground (arith, e),
          refl,
          refl,
        )
        | inr e ↦
            let (found, at, payload, status) = get_published-upsert rows h in
            (found, ground (arith, e, at), payload, status)
      ]

module _ {F : Float} {W : Type 0} where
  and_then-tables :
      {A B : Type 0} (o : Outcome A) (f : A → Action (PublishState F W) B) (s : PublishState F W)
      {t : Tables F}
      → s.tables ≡ t
      → ((a : A) (s1 : PublishState F W) → (f a s1).1.tables ≡ s1.tables)
      → (and_then o f s).1.tables ≡ t
  and_then-tables (return a) f s e h = h a s ∙ e
  and_then-tables (raise x) f s e h = e

  bind-tables :
      {A B : Type 0} (m : Action (PublishState F W) A) (f : A → Action (PublishState F W) B)
      → ((s : PublishState F W) → (m s).1.tables ≡ s.tables)
      → ((a : A) (s1 : PublishState F W) → (f a s1).1.tables ≡ s1.tables)
      → (s : PublishState F W) → (and_then (m s).0 f (m s).1).1.tables ≡ s.tables
  bind-tables m f e h s = and_then-tables (m s).0 f (m s).1 (e s) h

module _ {F : Float} {W : Type 0} (outside : Outside F W) (client : OmniRouteClient) (wire : Wire F)
    (known : List String) (server_version : Option String) where
  abbrev asked : String → Action (PublishState F W) Json
  asked path = on_outside outside client wire (get outside client path)

  ask_version-tables :
      (s : PublishState F W) → (ask_version outside client wire s).1.tables ≡ s.tables
  ask_version-tables =
      bind-tables (asked "/api/monitoring/health") _ (λ s. refl)
        (λ health.
          bind-tables (lift (as_dict outside client wire health)) _ (λ s. refl) (λ fields s. refl))

  read_version-tables :
      (s : PublishState F W)
      → (read_version outside client wire server_version s).1.tables ≡ s.tables
  read_version-tables s = elim (Bool-cases (or_text server_version "" == "")) [
    | inl e ↦ rw e (ask_version-tables s)
    | inr e ↦ rw e
  ]

  send_generation-tables :
      (g : Generation F) (s : PublishState F W)
      → (send_generation outside client wire known server_version g s).1.tables ≡ s.tables
  unfolding send_generation
  send_generation-tables g =
      bind-tables (read_version outside client wire server_version) _ read_version-tables
        (λ version.
          bind-tables (lift (check_version outside client wire known version)) _ (λ s. refl)
            (λ ok.
              bind-tables (asked "/api/combos") _ (λ s. refl)
                (λ payload.
                  bind-tables (lift (resolve_generation payload g)) _ (λ s. refl)
                    (λ resolved.
                      bind-tables (sent outside client wire resolved) _ (λ s. refl)
                        (λ answer.
                          bind-tables (lift (as_dict outside client wire answer)) _ (λ s. refl)
                            (λ response s. refl))))))

  -- The generation is resolved against a listing of OmniRoute, and the last request is the PUT of
  -- what it resolves to, under its hash, with this answer.
  pub record Sent (g resolved : Generation F) (response : Fields) (after : W) : Type 0 where
    pub before : W
    pub between : W
    pub payload : Json
    pub listed : get outside client "/api/combos" before ≡ (return payload, between)
    pub resolves : resolve_generation payload g ≡ return resolved
    pub put_resolved :
        put outside client "/api/fmo/pools"
          (wire.payload_json resolved)
          []
          (some (wire.stable_hash resolved))
          between
        ≡ (return (obj response), after)

  abbrev SentIf : Generation F → Outcome (Acknowledged F) × PublishState F W → Type 0
  SentIf g (return a, s) = Sent g a.resolved a.response s.outside
  SentIf g (raise x, s) = Unit

  lift-SentIf :
      {A : Type 0} (g : Generation F) (o : Outcome A)
      (f : A → Action (PublishState F W) (Acknowledged F)) (s : PublishState F W)
      → ((a : A) → o ≡ return a → SentIf g (f a s))
      → SentIf g (and_then o f s)
  lift-SentIf g (return a) f s each = each a refl
  lift-SentIf g (raise x) f s each = tt

  bind-SentIf :
      {A : Type 0} (g : Generation F) (m : Action (PublishState F W) A)
      (f : A → Action (PublishState F W) (Acknowledged F)) (s : PublishState F W)
      → ((a : A) (s1 : PublishState F W) → m s ≡ (return a, s1) → SentIf g (f a s1))
      → SentIf g (and_then (m s).0 f (m s).1)
  bind-SentIf {A} g m f s each = go (m s).0 (m s).1 refl
    where
      go : (o : Outcome A) (s1 : PublishState F W) → m s ≡ (o, s1) → SentIf g (and_then o f s1)
      go (return a) s1 e = each a s1 e
      go (raise x) s1 e = tt

  as_dict-obj :
      (answer : Json) (response : Fields)
      → as_dict outside client wire answer ≡ return response
      → answer ≡ obj response
  as_dict-obj answer response h = ground (arith, h)

  send_generation-SentIf :
      (g : Generation F) (s : PublishState F W)
      → SentIf g (send_generation outside client wire known server_version g s)
  unfolding send_generation
  send_generation-SentIf g s =
      bind-SentIf g (read_version outside client wire server_version) _ s λ version s1 _.
        lift-SentIf g (check_version outside client wire known version) _ s1 λ ok _.
          bind-SentIf g (asked "/api/combos") _ s1 λ payload s2 listed.
            lift-SentIf g (resolve_generation payload g) _ s2 λ resolved resolves.
              bind-SentIf g (sent outside client wire resolved) _ s2 λ answer s3 put_resolved.
                lift-SentIf g (as_dict outside client wire answer) _ s3 λ response dict. record {
                  before = s1.outside;
                  between = s2.outside;
                  payload = payload;
                  listed = ap (λ (x : Outcome Json × PublishState F W). (x.0, x.1.outside)) listed;
                  resolves = resolves;
                  put_resolved =
                      ap (λ (x : Outcome Json × PublishState F W). (x.0, x.1.outside)) put_resolved
                      ∙ ap (λ (j : Json). (return j, s3.outside))
                          (as_dict-obj answer response dict);
                }

  -- What a publish of `g` with this result has sent and written.
  pub record Recorded (g : Generation F) (s s1 : PublishState F W) (result : PoolPublishResult F)
      : Type 0 where
    pub row : PublishedRow F
    pub audit : AuditRow F
    pub found :
        get_published F result.generation result.payload_hash s1.tables.published_generations
        ≡ some row
    pub sent_row : Sent g row.payload result.response s1.outside
    pub row_status : row.status ≡ result.status
    pub row_hash : result.payload_hash ≡ wire.stable_hash row.payload
    pub logged : s1.tables.change_log ≡ s.tables.change_log ++ audit ∷ []
    pub audit_entity : audit.entity_id ≡ result.generation
    pub audit_status : audit.status ≡ result.status

  abbrev RecordedIf :
      Generation F → PublishState F W → Outcome (PoolPublishResult F) × PublishState F W → Type 0
  RecordedIf g s (return result, s1) = Recorded g s s1 result
  RecordedIf g s (raise x, s1) = Unit

  commit-Recorded :
      (g : Generation F) (run_id : Option ℕ) (a : Acknowledged F) (s w : PublishState F W)
      → w.tables ≡ s.tables
      → Sent g a.resolved a.response w.outside
      → RecordedIf g s (commit outside client wire run_id a w)
  unfolding record_publish
  commit-Recorded g run_id a s w k was_sent =
      let new = published_row outside client wire a in
      let (row, found, payload, status) =
        get_published-upsert F new new.generation new.payload_hash w.tables.published_generations
          (has_key-own new.generation new.payload_hash) in
      record {
        row = row;
        audit = audit_row outside client wire run_id a;
        found = found;
        sent_row = subst (λ r. Sent g r a.response w.outside) (sym payload) was_sent;
        row_status = status;
        row_hash = ap wire.stable_hash (sym payload);
        logged =
            ap (λ (t : Tables F). t.change_log ++ audit_row outside client wire run_id a ∷ []) k;
        audit_entity = refl;
        audit_status = refl;
      }

  module _ (run_id : Option ℕ) (g : Generation F) (s s1 : PublishState F W) where
    -- A publish that raises, at the version gate, the resolution or a request, records nothing.
    pub publish-raises :
        (e : Exception)
        → publish_pool_generation outside client wire known server_version run_id g s
          ≡ (raise e, s1)
        → s1.tables ≡ s.tables
    unfolding publish_pool_generation
    publish-raises e h =
        let sent = send_generation outside client wire known server_version g s in
        go sent.0 sent.1 (send_generation-tables g s) h
      where
        go :
            (o : Outcome (Acknowledged F)) (w : PublishState F W)
            → w.tables ≡ s.tables
            → and_then o (commit outside client wire run_id) w ≡ (raise e, s1)
            → s1.tables ≡ s.tables
        go (return a) w k eq = absurd (ground (arith, eq))
        go (raise x) w k eq = ground (arith, k, eq)

    -- A publish that returns has resolved the given generation against a listing of OmniRoute, and
    -- has sent what it resolves to, under its hash, as the last request. It leaves that under its
    -- name and hash, with the status that it reports, and one more row in the change log.
    pub publish-Recorded :
        (result : PoolPublishResult F)
        → publish_pool_generation outside client wire known server_version run_id g s
          ≡ (return result, s1)
        → Recorded g s s1 result
    unfolding publish_pool_generation
    publish-Recorded result h =
        let sent = send_generation outside client wire known server_version g s in
        subst (RecordedIf g s) h
          (go sent.0 sent.1 (send_generation-tables g s) (send_generation-SentIf g s))
      where
        go :
            (o : Outcome (Acknowledged F)) (w : PublishState F W)
            → w.tables ≡ s.tables
            → SentIf g (o, w)
            → RecordedIf g s (and_then o (commit outside client wire run_id) w)
        go (return a) w k was_sent = commit-Recorded g run_id a s w k was_sent
        go (raise x) w k was_sent = tt
