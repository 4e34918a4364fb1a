-- ===== src/Storage/Artifacts/Refines.antt =====
-- pkg/storage/artifact_repo.go against a map: what clients of several tenants can observe over any
-- sequence of calls.
use mathlib.Core.Path.{subst}
use ragivka.Prelude.{
  ℕ, ◌≡◌, refl, ◌⊎◌, inl, inr, Bool, true, false, List, [], ◌∷◌, arith, is_some, Bool-cases,
  Option-cases, ap, sym,
}
use ragivka.Errors.{Result, ok, err, panic, other, Result-Cases, Cases, on_ok}
use ragivka.Tenant.{Uuid, tenant_uuid_from_ctx}
use ragivka.Storage.Types.{Artifact}
use ragivka.Storage.Artifacts.{
  filled_artifact, create_artifact, get_artifact, delete_artifact, insert_artifact, delete_rows,
  accepts_artifact, artifact_or_not_found, find_artifact, has_artifact_key,
}
use ragivka.Storage.Artifacts.Shelf.{
  Shelf, shelf_of, seen, IsKeyed, Misses-of_none, find-seen, others-IsKeyed, shelf_of-deleted,
}
use ragivka.Storage.Artifacts.Spec.{
  Request, create, get, delete, Answer, created, got, deleted, got_or_not_found, fits, put_row,
  get_row, delete_row, with_tenant, act, spec, act_all, Replay, done, served, refused,
}
use ragivka.World.{World, Exec, ◌>>=◌, pure, statement, continue}
use ragivka.World.Laws.{statement-cases}

module _ ⦃uuid : Uuid⦄ where
  abbrev Kept : World → World → Type 0
  Kept w v = IsKeyed v.artifacts × (v.sessions ≡ w.sessions) × (v.now ≡ w.now)

  abbrev answered : {A : Type 0} → (A → Answer) → Result A → Result Answer
  answered wrap = on_ok (λ a. ok (wrap a))

  -- A statement's body does what the map's operation does.
  abbrev Does :
      {A : Type 0} → (Shelf → Result Answer × Shelf) → (A → Answer) → Exec A → World → Type 0
  Does op wrap body w =
      (op (shelf_of w.artifacts) ≡ (answered wrap (body w).0, shelf_of (body w).1.artifacts))
      × Kept w (body w).1

  abbrev Acted : (Shelf → Result Answer × Shelf) → World → Result Answer × World → Type 0
  Acted op w out =
      ((op (shelf_of w.artifacts) ≡ (out.0, shelf_of out.1.artifacts))
        ⊎ ((out.0 ≡ err (other "database error")) × (out.1.artifacts ≡ w.artifacts)))
      × Kept w out.1

  insert-Does :
      (row : Artifact) (w : World)
      → IsKeyed w.artifacts
      → Does (put_row w.sessions w.now row) created (insert_artifact row) w
  unfolding insert_artifact put_row fits accepts_artifact shelf_of
  insert-Does row w h = elim (Bool-cases (accepts_artifact w row)) [
    | inl good ↦
        let fitting : fits w.sessions row (shelf_of w.artifacts) ≡ true = good in
        rw fitting (refl, ((Misses-of_none row.id w.artifacts (ground arith), h), refl, refl))
    | inr bad ↦
        let unfit : fits w.sessions row (shelf_of w.artifacts) ≡ false = bad in
        rw unfit (refl, (h, refl, refl))
  ]

  get-Does :
      (id tenant : ℕ) (w : World)
      → IsKeyed w.artifacts
      → Does
          (get_row id tenant)
          got
          (λ v. artifact_or_not_found (find_artifact (has_artifact_key id tenant) v.artifacts) v)
          w
  unfolding get_row artifact_or_not_found got_or_not_found
  get-Does id tenant w h =
      rw (find-seen id tenant w.artifacts h)
        (elim (Option-cases (seen tenant (shelf_of w.artifacts id))) [
          | inl e ↦ rw e (refl, (h, refl, refl))
          | inr (a, e) ↦ rw e (refl, (h, refl, refl))
        ])

  delete-Does :
      (id tenant : ℕ) (w : World)
      → IsKeyed w.artifacts
      → Does (delete_row id tenant) (λ _. deleted) (delete_rows id tenant) w
  unfolding delete_row delete_rows
  delete-Does id tenant w h =
      rw (find-seen id tenant w.artifacts h)
        (elim (Bool-cases (is_some (seen tenant (shelf_of w.artifacts id)))) [
          | inr e ↦ rw e (refl, (h, refl, refl))
          | inl e ↦ rw e (
            ap (λ f. (ok deleted, f)) (sym (shelf_of-deleted id tenant w.artifacts h e)),
            (others-IsKeyed id tenant w.artifacts h, refl, refl),
          )
        ])

  pure_after :
      {A : Type 0} (wrap : A → Answer) (r : Result A) (v : World)
      → continue r (λ a. pure (wrap a)) v ≡ (answered wrap r, v)
  pure_after wrap (ok a) v = refl
  pure_after wrap (err e) v = refl
  pure_after wrap (panic p) v = refl

  statement-Acted :
      {A : Type 0} (wrap : A → Answer) (body : Exec A) (op : Shelf → Result Answer × Shelf)
      (w : World)
      → IsKeyed w.artifacts
      → ((fs : List Bool) → Does op wrap body (record w { faults = fs }))
      → Acted op w ((statement body >>= λ a. pure (wrap a)) w)
  statement-Acted wrap body op w h does =
      statement-cases body w (λ out. Acted op w (((λ v. out) >>= λ a. pure (wrap a)) w))
        (λ fs.
          let v = record w { faults = fs } in
          rw (pure_after wrap (body v).0 (body v).1) (inl (does fs).0, (does fs).1))
        (λ fs. (inr (refl, refl), (h, refl, refl)))

  -- Under a context with no tenant's UUID neither does anything.
  act-Acted :
      (r : Request) (w : World) → IsKeyed w.artifacts → Acted (spec w.sessions w.now r) w (act r w)
  unfolding spec act with_tenant create_artifact get_artifact delete_artifact
  act-Acted (create ctx fresh a) w h = elim (Result-Cases (tenant_uuid_from_ctx ctx)) [
    | Cases.is_ok t e ↦ rw e (
        statement-Acted created _ (put_row w.sessions w.now (filled_artifact t fresh a)) w h
          (λ fs. insert-Does (filled_artifact t fresh a) (record w { faults = fs }) h))
    | Cases.is_err x e ↦ rw e (inl refl, (h, refl, refl))
    | Cases.is_panic p e ↦ rw e (inl refl, (h, refl, refl))
  ]
  act-Acted (get ctx id) w h = elim (Result-Cases (tenant_uuid_from_ctx ctx)) [
    | Cases.is_ok t e ↦ rw e (
        statement-Acted got _ (get_row id t) w h (λ fs. get-Does id t (record w { faults = fs }) h))
    | Cases.is_err x e ↦ rw e (inl refl, (h, refl, refl))
    | Cases.is_panic p e ↦ rw e (inl refl, (h, refl, refl))
  ]
  act-Acted (delete ctx id) w h = elim (Result-Cases (tenant_uuid_from_ctx ctx)) [
    | Cases.is_ok t e ↦ rw e (
        statement-Acted (λ _. deleted) _ (delete_row id t) w h
          (λ fs. delete-Does id t (record w { faults = fs }) h))
    | Cases.is_err x e ↦ rw e (inl refl, (h, refl, refl))
    | Cases.is_panic p e ↦ rw e (inl refl, (h, refl, refl))
  ]

  -- From a table with no two rows of one key, whatever the tenants ask for and whatever the database
  -- fails, the repository answers each request as a map from keys to rows does, in which a tenant
  -- sees only its own rows, except for the requests whose statement failed: these are answered by the
  -- database's error and leave the map as it was. The table ends as the map does, and keyed.
  pub act_all-refines :
      (requests : List Request) (w : World)
      → IsKeyed w.artifacts
      → Replay w.sessions w.now requests
          (shelf_of w.artifacts)
          (act_all requests w).0
          (shelf_of (act_all requests w).1.artifacts)
        × IsKeyed (act_all requests w).1.artifacts
  unfolding act_all
  act_all-refines [] w h = (done, h)
  act_all-refines (r ∷ rest) w h =
      let (step, (keyed, s, n)) = act-Acted r w h in
      let v = (act r w).1 in
      let (later, end) = act_all-refines rest v keyed in
      let same : Replay w.sessions w.now rest (shelf_of v.artifacts) (act_all rest v).0
          (shelf_of (act_all rest v).1.artifacts) =
        subst
          (λ t.
            Replay w.sessions t rest (shelf_of v.artifacts) (act_all rest v).0
              (shelf_of (act_all rest v).1.artifacts))
          n
          (subst
            (λ ss.
              Replay ss v.now rest (shelf_of v.artifacts) (act_all rest v).0
                (shelf_of (act_all rest v).1.artifacts))
            s later) in
      elim step [
        | inl e ↦ (served e same, end)
        | inr (lost, kept) ↦ (
          refused lost (
              subst
                (λ table.
                  Replay w.sessions w.now rest (shelf_of table) (act_all rest v).0
                    (shelf_of (act_all rest v).1.artifacts))
                kept same),
          end,
        )
      ]
