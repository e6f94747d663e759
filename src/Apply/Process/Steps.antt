-- ===== src/Apply/Process/Steps.antt =====
-- pkg/apply/desiredset_process.go: what each step of process keeps of the state behind the client.
use nah.Prelude.{
  true, Bool-cases, inl, inr, ◌≡◌, is_some, refl, lookup, text_eq, List, [], ◌∷◌, ◌++◌, Option,
  none, some, not, if_inv,
}
use nah.Error.{Error, Result, ok, err, already_exists, has_reason}
use nah.Kube.{GroupVersionKind, Object}
use nah.Apply.ObjectSet.{ObjectKey, object_key_eq, ObjectByKey}
use nah.Apply.Takeover.{refuses_takeover}
use nah.Apply.Prepare.{prepare_object_for_create}
use nah.Apply.Update.{State, on_server, compare_objects}
use nah.Apply.Update.Kept.{compare_objects-Kept}
use nah.Apply.Process.{
  Applier, Progress, is_err_replace, ensured, take_over, created, create_prepared, create_at,
  create_step, deleted, delete_step, may_replace, update_error, updated, update_at, update_step,
}
use nah.Apply.Process.Tracked.{
  snoc-All, Calls, IsTracked, IsDesired, IsWanted, IsMade, IsFound, IsReplaced, at_state,
  at_state-IsTracked, ensured-IsTracked, taken_over-IsTracked,
}

module _ {V : Type 0} (a : Applier V) (gvk : GroupVersionKind) (objs existing : ObjectByKey)
    (P : ObjectKey → Type 0) (Q : List ObjectKey → V → Type 0)
    (calls : Calls a gvk objs existing P Q) where
  pub record Good (ks : List ObjectKey) (p : Progress V) : Type 0 where
    pub holds : Q ks p.state.server
    pub tracked : IsTracked a gvk objs existing p

  abbrev IsGood : List ObjectKey → Option Error × Progress V → Type 0
  IsGood ks (e, p) = Good ks p

  moved_on :
      (ks : List ObjectKey) (p : Progress V) (s : State V)
      → IsTracked a gvk objs existing p
      → Q ks s.server
      → Good ks (at_state a gvk objs existing p s)
  moved_on ks p s t q = record { holds = q; tracked = at_state-IsTracked a gvk objs existing p s t }

  ensured-Good :
      (ks : List ObjectKey) (k : ObjectKey) (obj : Object) (p : Progress V)
      → Good ks p
      → Good ks (ensured a gvk k obj p)
  ensured-Good ks k obj p g = record {
    holds = if_inv (λ (p : Progress V). Q ks p.state.server) a.updates.ensure _ _ g.holds g.holds;
    tracked = ensured-IsTracked a gvk objs existing k obj p g.tracked;
  }

  take_over-Good :
      (ks : List ObjectKey) (k : ObjectKey) (obj : Object) (e : Error) (p : Progress V)
      (r : Result Object × State V)
      → IsDesired a gvk objs existing k
      → ((found : Object) → r.0 ≡ ok found → IsFound a gvk objs existing k found)
      → IsTracked a gvk objs existing p
      → Q ks r.1.server
      → IsGood ks (take_over a gvk k obj e p r)
  take_over-Good ks k obj e p (err e', s) d f t q = moved_on ks p s t q
  take_over-Good ks k obj e p (ok found, s) d f t q =
      if_inv (IsGood ks) (refuses_takeover a.valid_owner_changes found obj) _ _
        (moved_on ks p s t q)
        (record {
          holds = q;
          tracked =
              taken_over-IsTracked a gvk objs existing k found obj
                (at_state a gvk objs existing p s) d (f found refl)
                (at_state-IsTracked a gvk objs existing p s t);
        })

  created-Good :
      (ks : List ObjectKey) (k : ObjectKey) (obj : Object) (p : Progress V)
      (r : Result Object × State V)
      → IsDesired a gvk objs existing k
      → IsTracked a gvk objs existing p
      → Q ks r.1.server
      → IsGood ks (created a gvk k obj p r)
  created-Good ks k obj p (ok answer, s) d t q =
      ensured-Good ks k answer (at_state a gvk objs existing p s) (moved_on ks p s t q)
  created-Good ks k obj p (err e, s) d t q =
      if_inv (IsGood ks) (has_reason already_exists e) _ _
        (take_over-Good ks k obj e p (on_server (a.client.get obj.go_type k.namespace k.name) s) d
          (λ found h. inr (obj.go_type, s.server, h)) t
          (calls.gets ks obj.go_type k.namespace k.name s.server q))
        (moved_on ks p s t q)

  -- One creation on the way from the keys that wait before it to those that wait behind it.
  create_prepared-Good :
      (before ks : List ObjectKey) (k : ObjectKey) (obj : Object) (p : Progress V)
      (r : Result Object)
      → IsDesired a gvk objs existing k
      → IsWanted a gvk objs existing k obj
      → prepare_object_for_create a.updates.codec gvk obj (not a.updates.ensure) ≡ r
      → ((sent : Object) (v : V)
          → IsMade a gvk objs existing k sent
          → Q before v
          → Q ks (a.client.create sent v).1)
      → ((e : Error) (v : V)
          → prepare_object_for_create a.updates.codec gvk obj (not a.updates.ensure) ≡ err e
          → Q before v
          → Q ks v)
      → Good before p
      → IsGood ks (create_prepared a gvk k p r)
  create_prepared-Good before ks k obj p (err e) d w prepared sends fails g = record {
    holds = fails e p.state.server prepared g.holds;
    tracked = g.tracked;
  }
  create_prepared-Good before ks k obj p (ok sent) d w prepared sends fails g =
      created-Good ks k sent (ensured a gvk k sent p) (on_server (a.client.create sent) p.state) d
        (ensured-IsTracked a gvk objs existing k sent p g.tracked)
        (sends sent p.state.server (record { obj = obj; wanted = w; prepared = prepared }) g.holds)

  wanted_of :
      (k : ObjectKey) (obj : Object) (p : Progress V)
      → IsTracked a gvk objs existing p
      → lookup k p.objs ≡ some obj
      → IsWanted a gvk objs existing k obj
  wanted_of k obj p t h off = rw (t.same off) at h

  create_at-Good :
      (before ks : List ObjectKey) (k : ObjectKey) (p : Progress V) (there : Option Object)
      → IsDesired a gvk objs existing k
      → lookup k p.objs ≡ there
      → ((sent : Object) (v : V)
          → IsMade a gvk objs existing k sent
          → Q before v
          → Q ks (a.client.create sent v).1)
      → ((obj : Object) (e : Error) (v : V)
          → IsWanted a gvk objs existing k obj
          → prepare_object_for_create a.updates.codec gvk obj (not a.updates.ensure) ≡ err e
          → Q before v
          → Q ks v)
      → Good before p
      → IsGood ks (create_at a gvk k p there)
  create_at-Good before ks k p none d h sends fails g =
      let some_there : is_some (lookup k p.objs) ≡ true = g.tracked.there k d in
      absurd (let gone : is_some {A = Object} none ≡ true = rw h at some_there in cc)
  create_at-Good before ks k p (some obj) d h sends fails g =
      let w = wanted_of k obj p g.tracked h in
      create_prepared-Good before ks k obj p _ d w refl sends (λ e v. fails obj e v w) g

  pub create_step-Good :
      (k : ObjectKey) (ks : List ObjectKey) (p : Progress V)
      → IsDesired a gvk objs existing k
      → Good (k ∷ ks) p
      → IsGood ks (create_step a gvk k p)
  unfolding create_step
  create_step-Good k ks p d g =
      create_at-Good (k ∷ ks) ks k p (lookup k p.objs) d refl (calls.creates k ks)
        (calls.abandons k ks) g

  deleted-Good :
      (ks : List ObjectKey) (k : ObjectKey) (p : Progress V) (r : Option Error × State V)
      → IsTracked a gvk objs existing p
      → Q ks r.1.server
      → IsGood ks (deleted a gvk k p r)
  deleted-Good ks k p (none, s) t q = moved_on ks p s t q
  deleted-Good ks k p (some e, s) t q = moved_on ks p s t q

  pub prune_step-Good :
      (k : ObjectKey) (p : Progress V) → P k → Good [] p → IsGood [] (delete_step a gvk k p)
  unfolding delete_step
  prune_step-Good k p d g =
      deleted-Good [] k p (on_server (a.client.delete gvk k.namespace k.name) p.state) g.tracked
        (calls.prunes k p.state.server d g.holds)

  pub remove_step-Good :
      (k : ObjectKey) (ks : List ObjectKey) (p : Progress V)
      → IsReplaced a gvk objs existing k
      → Good ks p
      → IsGood (ks ++ k ∷ []) (delete_step a gvk k p)
  unfolding delete_step
  remove_step-Good k ks p d g =
      deleted-Good (ks ++ k ∷ []) k p (on_server (a.client.delete gvk k.namespace k.name) p.state)
        g.tracked (calls.replaces k ks p.state.server d g.holds)

  replaced-Good :
      (k : ObjectKey) (p : Progress V)
      → IsReplaced a gvk objs existing k
      → Good [] p
      → Good [] (record p { to_replace = p.to_replace ++ k ∷ [] })
  replaced-Good k p d g = record {
    holds = g.holds;
    tracked = record {
      updating = g.tracked.updating;
      replacing = snoc-All (IsReplaced a gvk objs existing) p.to_replace k g.tracked.replacing d;
      found = g.tracked.found;
      same = g.tracked.same;
      there = g.tracked.there;
    };
  }

  update_error-Good :
      (k : ObjectKey) (old new : Object) (p : Progress V) (e : Option Error)
      → ((e' : Error)
          → e ≡ some e'
          → is_err_replace e' ≡ true
          → may_replace a gvk old new ≡ true
          → IsReplaced a gvk objs existing k)
      → Good [] p
      → IsGood [] (update_error a gvk k old new p e)
  update_error-Good k old new p none d g = g
  update_error-Good k old new p (some e) d g = elim (Bool-cases (is_err_replace e)) [
    | inr other ↦ rw other g
    | inl replace ↦ rw replace (elim (Bool-cases (may_replace a gvk old new)) [
      | inl allowed ↦ rw allowed (replaced-Good k p (d e refl replace allowed) g)
      | inr refused ↦ rw refused g
    ])
  ]

  updated-Good :
      (k : ObjectKey) (old obj : Object) (p : Progress V) (s₀ : State V)
      (r : (Option Error × Object) × State V)
      → IsDesired a gvk objs existing k
      → IsFound a gvk objs existing k old
      → IsWanted a gvk objs existing k obj
      → compare_objects a.updates gvk old obj s₀ ≡ r
      → IsTracked a gvk objs existing p
      → Q [] r.1.server
      → IsGood [] (updated a gvk k old p r)
  updated-Good k old obj p s₀ ((e, new), s) d f w refused t q =
      update_error-Good k old new (ensured a gvk k new (at_state a gvk objs existing p s)) e
        (λ e' same replace allowed. record {
          old = old;
          obj = obj;
          new = new;
          state = s₀;
          desired = d;
          found = f;
          wanted = w;
          e = e';
          refused = rw (refused, same) refl;
          replace = replace;
          allowed = allowed;
        })
        (ensured-Good [] k new (at_state a gvk objs existing p s) (moved_on [] p s t q))

  update_at-Good :
      (k : ObjectKey) (p : Progress V) (old new : Option Object)
      → IsDesired a gvk objs existing k
      → lookup k p.existing ≡ old
      → lookup k p.objs ≡ new
      → Good [] p
      → IsGood [] (update_at a gvk k p old new)
  update_at-Good k p none none d f w g = g
  update_at-Good k p none (some new) d f w g = g
  update_at-Good k p (some old) none d f w g = g
  update_at-Good k p (some old) (some new) d f w g =
      updated-Good k old new p p.state (compare_objects a.updates gvk old new p.state) d
        (g.tracked.found k old f) (wanted_of k new p g.tracked w) refl g.tracked
        (compare_objects-Kept a.updates (Q []) calls.patches gvk old new p.state g.holds)

  pub update_step-Good :
      (k : ObjectKey) (p : Progress V)
      → IsDesired a gvk objs existing k
      → Good [] p
      → IsGood [] (update_step a gvk k p)
  unfolding update_step
  update_step-Good k p d g =
      update_at-Good k p (lookup k p.existing) (lookup k p.objs) d refl refl g
