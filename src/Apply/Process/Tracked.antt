-- ===== src/Apply/Process/Tracked.antt =====
-- pkg/apply/desiredset_process.go: what a run of process does to the objects of one kind, and what
-- is known of its maps and lists while it runs.
use nah.Prelude.{
  Bool, true, false, lookup-insert, Bool-cases, inl, inr, ◌⊎◌, ◌≡◌, ◌==◌, ◌∙◌, sym, subst, eq_of_==,
  is_some, arith, refl, if◌then◌else◌, Text, lookup, insert, text_eq, List, [], ◌∷◌, ◌++◌, some,
  not, All, if_inv,
}
use nah.Error.{Error, ok, err}
use nah.Kube.{GroupVersionKind, Object}
use nah.Apply.ObjectSet.{ObjectKey, object_key_eq, ObjectByKey}
use nah.Apply.Labels.{annotation_update}
use nah.Apply.Compare.{should}
use nah.Apply.Compare.Decisions.{Lists, to_create}
use nah.Apply.Prepare.{prepare_object_for_create}
use nah.Apply.Style.{PatchStyle}
use nah.Apply.Update.{State, compare_objects}
use nah.Apply.Process.{Applier, Progress, is_err_replace, ensured, taken_over, may_replace}

pub snoc-All :
    {K : Type 0} (P : K → Type 0) (ks : List K) (k : K) → All P ks → P k → All P (ks ++ k ∷ [])
snoc-All P [] k h p = (p, tt)
snoc-All P (j ∷ ks) k h p = (h.0, snoc-All P ks k h.1 p)

module _ {V : Type 0} (a : Applier V) (gvk : GroupVersionKind) (objs existing : ObjectByKey) where
  -- An object that exists under a key: the list of what exists has it, or a read answered it.
  abbrev pub IsFound : ObjectKey → Object → Type 0
  IsFound k old =
      (lookup k existing ≡ some old)
      ⊎ (g : GroupVersionKind) × (v : V) × ((a.client.get g k.namespace k.name v).0 ≡ ok old)

  -- The object that is desired under a key. Under ensure the desired objects are overwritten by
  -- what the server answers, so that nothing is said of the object.
  abbrev pub IsWanted : ObjectKey → Object → Type 0
  IsWanted k obj = a.updates.ensure ≡ false → lookup k objs ≡ some obj

  -- What is sent to create the object that is desired under a key.
  pub record IsMade (k : ObjectKey) (sent : Object) : Type 0 where
    pub obj : Object
    pub wanted : IsWanted k obj
    pub prepared :
        prepare_object_for_create a.updates.codec gvk obj (not a.updates.ensure) ≡ ok sent

  -- When an object is to be replaced: it is desired and exists, the update of it answered
  -- ErrReplace, and the annotations of the two allow it.
  pub record IsReplaced (k : ObjectKey) : Type 0 where
    pub old : Object
    pub obj : Object
    pub new : Object
    pub state : State V
    pub desired : is_some (lookup k objs) ≡ true
    pub found : IsFound k old
    pub wanted : IsWanted k obj
    pub e : Error
    pub refused : (compare_objects a.updates gvk old obj state).0 ≡ (some e, new)
    pub replace : is_err_replace e ≡ true
    pub allowed : may_replace a gvk old new ≡ true

  -- P says which keys are pruned. Q says what holds while objects are still to be created under some
  -- keys, in this order: at first, under those that are desired, allow creation and do not exist;
  -- later, under those whose object was deleted to be replaced.
  pub record Calls (P : ObjectKey → Type 0) (Q : List ObjectKey → V → Type 0) : Type 0 where
    pub gets :
        (ks : List ObjectKey) (g : GroupVersionKind) (ns n : Text) (v : V)
        → Q ks v
        → Q ks (a.client.get g ns n v).1
    pub awaits :
        (ks : List ObjectKey) (v : V)
        → Lists a.sha1_hex (to_create a.sha1_hex existing objs) ks
        → Q [] v
        → Q ks v
    pub patches :
        (obj : Object) (style : PatchStyle) (diff : Text) (v : V)
        → Q [] v
        → Q [] (a.updates.patch obj style diff v).1
    pub prunes :
        (k : ObjectKey) (v : V) → P k → Q [] v → Q [] (a.client.delete gvk k.namespace k.name v).1
    pub replaces :
        (k : ObjectKey) (ks : List ObjectKey) (v : V)
        → IsReplaced k
        → Q ks v
        → Q (ks ++ k ∷ []) (a.client.delete gvk k.namespace k.name v).1
    pub creates :
        (k : ObjectKey) (ks : List ObjectKey) (sent : Object) (v : V)
        → IsMade k sent
        → Q (k ∷ ks) v
        → Q ks (a.client.create sent v).1
    pub abandons :
        (k : ObjectKey) (ks : List ObjectKey) (obj : Object) (e : Error) (v : V)
        → IsWanted k obj
        → prepare_object_for_create a.updates.codec gvk obj (not a.updates.ensure) ≡ err e
        → Q (k ∷ ks) v
        → Q ks v

  abbrev pub IsDesired : ObjectKey → Type 0
  IsDesired k = is_some (lookup k objs) ≡ true

  -- What is known of the maps and lists of a run.
  pub record IsTracked (p : Progress V) : Type 0 where
    pub updating : All IsDesired p.to_update
    pub replacing : All IsReplaced p.to_replace
    pub found : (k : ObjectKey) (old : Object) → lookup k p.existing ≡ some old → IsFound k old
    pub same : a.updates.ensure ≡ false → p.objs ≡ objs
    pub there : (k : ObjectKey) → IsDesired k → is_some (lookup k p.objs) ≡ true

  renewed-IsTracked :
      (k : ObjectKey) (obj : Object) (p : Progress V) (ensure : Bool)
      → a.updates.ensure ≡ ensure
      → IsTracked p
      → IsTracked (if ensure then record p { objs = insert k obj p.objs } else p)
  renewed-IsTracked k obj p false plain t = t
  renewed-IsTracked k obj p true on t = record {
    updating = t.updating;
    replacing = t.replacing;
    found = t.found;
    same = λ off. cc;
    there = λ j d. ground (arith, lookup-insert k j obj p.objs, t.there j d);
  }

  pub ensured-IsTracked :
      (k : ObjectKey) (obj : Object) (p : Progress V)
      → IsTracked p
      → IsTracked (ensured a gvk k obj p)
  ensured-IsTracked k obj p t = renewed-IsTracked k obj p a.updates.ensure refl t

  abbrev pub at_state : Progress V → State V → Progress V
  at_state p s = record p { state = s }

  pub at_state-IsTracked : (p : Progress V) (s : State V) → IsTracked p → IsTracked (at_state p s)
  at_state-IsTracked p s t = record {
    updating = t.updating;
    replacing = t.replacing;
    found = t.found;
    same = t.same;
    there = t.there;
  }

  insert-IsFound :
      (k j : ObjectKey) (found old : Object) (p : Progress V)
      → IsTracked p
      → IsFound k found
      → lookup j (insert k found p.existing) ≡ some old
      → IsFound j old
  insert-IsFound k j found old p t f h =
      let now : (if k == j then some found else lookup j p.existing) ≡ some old =
        sym (lookup-insert k j found p.existing) ∙ h in
      elim (Bool-cases (k == j)) [
        | inl here ↦
            let at : some found ≡ some old = rw here at now in
            let same : found ≡ old = cc in
            subst (λ i. IsFound i old) (eq_of_== k j here) (subst (λ o. IsFound k o) same f)
        | inr other ↦ t.found j old (rw other at now)
      ]

  pub taken_over-IsTracked :
      (k : ObjectKey) (found obj : Object) (p : Progress V)
      → IsDesired k
      → IsFound k found
      → IsTracked p
      → IsTracked (taken_over a gvk k found obj p)
  taken_over-IsTracked k found obj p d f t = record {
    updating =
        if_inv (All IsDesired) (should obj annotation_update) _ _
          (snoc-All IsDesired p.to_update k t.updating d) t.updating;
    replacing = t.replacing;
    found = λ j old. insert-IsFound k j found old p t f;
    same = t.same;
    there = t.there;
  }
