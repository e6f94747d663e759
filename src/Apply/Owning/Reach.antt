-- ===== src/Apply/Owning/Reach.antt =====
-- pkg/apply/desiredset_process.go: which objects assignOwnerReference reaches.
use nah.Prelude.{
  Text, lookup, insert, delete, keys, is_some, is_some-lookup, lookup-insert, lookup-delete, ◌==◌,
  text_eq, List, [], ◌∷◌, Option, none, some, Bool, true, false, not, ◌≡◌, refl, arith, ◌∙◌,
  Option-cases, Bool-cases, inl, inr, ◌⊎◌, ap, sym, any-append, contains, ◌||◌, ==_self, subst,
  eq_of_==,
}
use nah.Error.{Result, ok, ok-injective}
use nah.Kube.{GroupVersionKind, OwnerReference, Object}
use nah.Apply.ObjectSet.{ObjectKey, ObjectByKey, object_key_eq, key_eq-fields}
use nah.Apply.Namespace.{under, set_namespace}
use nah.Apply.Labels.{annotation_prune}
use nah.Apply.Compare.{should}
use nah.Apply.Owning.{
  refers_to, with_reference, place, assign_one, assign_at, assign_keys, reference_to,
  assign_owner_reference,
}

-- An owner with a namespace changes no entry of another namespace.
assign_one-elsewhere :
    (owner : Object) (ref : OwnerReference) (k j : ObjectKey) (v : Object) (objs : ObjectByKey)
    → (j.namespace == []) ≡ false
    → (j.namespace == owner.namespace) ≡ false
    → lookup j (assign_one true true owner ref k v objs) ≡ lookup j objs
unfolding assign_one place
assign_one-elsewhere owner ref k j v objs h g =
    let assigned = with_reference ref (set_namespace owner.namespace v) in
    ground (
      arith,
      lookup-insert (under owner.namespace k) j assigned (delete k (insert k assigned objs)),
      lookup-delete k j (insert k assigned objs),
      lookup-insert k j assigned objs,
      lookup-insert k j (with_reference ref v) objs,
      key_eq-fields (under owner.namespace k) j,
      key_eq-fields k j,
    )

-- Whether an object refers to a UID, where it is to be pruned at all.
abbrev pub is_owned : Text → Option Object → Bool
is_owned uid none = true
is_owned uid (some v) = not (should v annotation_prune) || refers_to uid v

with_reference-is_owned :
    (ref : OwnerReference) (v : Object)
    → (ref.uid == []) ≡ false
    → is_owned ref.uid (some (with_reference ref v)) ≡ true
unfolding with_reference should
with_reference-is_owned ref v h =
    let added = any-append (λ of. ref.uid == of.uid) v.owner_references (ref ∷ []) in
    elim (Bool-cases (refers_to ref.uid v)) [
      | inl there ↦ ground (arith, there)
      | inr absent ↦ ground (arith, added, ==_self ref.uid)
    ]

assign_one-is_owned :
    (owner : Object) (ref : OwnerReference) (k j : ObjectKey) (v : Object) (objs : ObjectByKey)
    → (ref.uid == []) ≡ false
    → (owner.namespace == []) ≡ false
    → (j.namespace == owner.namespace) ≡ true
    → (is_owned ref.uid (lookup j objs) || k == j) ≡ true
    → is_owned ref.uid (lookup j (assign_one true true owner ref k v objs)) ≡ true
unfolding assign_one place
assign_one-is_owned owner ref k j v objs h n g before =
    let moved_object = with_reference ref (set_namespace owner.namespace v) in
    ground (
      arith,
      with_reference-is_owned ref v h,
      with_reference-is_owned ref (set_namespace owner.namespace v) h,
      lookup-insert (under owner.namespace k) j moved_object
          (delete k (insert k moved_object objs)),
      lookup-delete k j (insert k moved_object objs),
      lookup-insert k j moved_object objs,
      lookup-insert k j (with_reference ref v) objs,
      key_eq-fields (under owner.namespace k) j,
      key_eq-fields k j,
    )

or_true : (b : Bool) → (b || true) ≡ true
or_true true = refl
or_true false = refl

owned_or_there : (uid : Text) (o : Option Object) → (is_owned uid o || is_some o) ≡ true
owned_or_there uid none = refl
owned_or_there uid (some v) = or_true (is_owned uid (some v))

or_false : (a : Bool) → (a || false) ≡ true → a ≡ true
or_false a h = ground arith

or_else :
    (a b c good : Bool)
    → (a || (b || c)) ≡ true
    → ((a || b) ≡ true → good ≡ true)
    → (good || c) ≡ true
or_else a b c good h f = ground arith

or_absent : (a b : Bool) → (a || b) ≡ true → (b ≡ true → a ≡ true) → a ≡ true
or_absent a b h f = ground arith

module _ (is_namespaced : GroupVersionKind → Result Bool)
    (gvk_for_object : Object → Result GroupVersionKind) (group_version : GroupVersionKind → Text)
    (gvk : GroupVersionKind) (has_namespaces : is_namespaced gvk ≡ ok true) where
  assign_keys-elsewhere :
      (owner : Object) (ref : OwnerReference) (j : ObjectKey) (ks : List ObjectKey)
      (objs result : ObjectByKey)
      → (j.namespace == []) ≡ false
      → (j.namespace == owner.namespace) ≡ false
      → assign_keys is_namespaced gvk_for_object group_version true owner ref gvk ks objs
        ≡ ok result
      → lookup j result ≡ lookup j objs
  unfolding assign_keys assign_at
  assign_keys-elsewhere owner ref j [] objs result h g done =
      ap (lookup j) (sym (ok-injective done))
  assign_keys-elsewhere owner ref j (k ∷ ks) objs result h g done =
      elim (Option-cases (lookup k objs)) [
        | inl p ↦ assign_keys-elsewhere owner ref j ks objs result h g (rw p at done)
        | inr (v, p) ↦
            assign_keys-elsewhere owner ref j ks (assign_one true true owner ref k v objs) result h
              g (rw (p, has_namespaces) at done)
            ∙ assign_one-elsewhere owner ref k j v objs h g
      ]

  assign_keys-is_owned :
      (owner : Object) (ref : OwnerReference) (j : ObjectKey) (ks : List ObjectKey)
      (objs result : ObjectByKey)
      → (ref.uid == []) ≡ false
      → (owner.namespace == []) ≡ false
      → (j.namespace == owner.namespace) ≡ true
      → (is_owned ref.uid (lookup j objs) || contains ks j) ≡ true
      → assign_keys is_namespaced gvk_for_object group_version true owner ref gvk ks objs
        ≡ ok result
      → is_owned ref.uid (lookup j result) ≡ true
  unfolding assign_keys assign_at
  assign_keys-is_owned owner ref j [] objs result h n g before done =
      subst (λ m. is_owned ref.uid (lookup j m) ≡ true) (ok-injective done) (or_false _ before)
  assign_keys-is_owned owner ref j (k ∷ ks) objs result h n g before done =
      elim (Option-cases (lookup k objs)) [
        | inl p ↦
            assign_keys-is_owned owner ref j ks objs result h n g
              (or_else _ _ _ _ before (λ q.
                or_absent (is_owned ref.uid (lookup j objs)) (k == j) q
                  (λ e. rw (sym (eq_of_== k j e), p) refl)))
              (rw p at done)
        | inr (v, p) ↦
            assign_keys-is_owned owner ref j ks (assign_one true true owner ref k v objs) result h n
              g (or_else _ _ _ _ before (assign_one-is_owned owner ref k j v objs h n g))
              (rw (p, has_namespaces) at done)
      ]

  -- Where assignOwnerReference succeeds, for a kind and an owner with a UID that have namespaces, a
  -- key with a namespace either is in the owner's, and an object under it then refers to the UID
  -- of the owner unless it is not to be pruned; or holds what it held before.
  pub assign_owner_reference_lem :
      (owner : Object) (owner_gvk : GroupVersionKind) (objs result : ObjectByKey) (j : ObjectKey)
      → gvk_for_object owner ≡ ok owner_gvk
      → is_namespaced owner_gvk ≡ ok true
      → (owner.uid == []) ≡ false
      → (owner.namespace == []) ≡ false
      → (j.namespace == []) ≡ false
      → assign_owner_reference is_namespaced gvk_for_object group_version (some owner) gvk objs
        ≡ ok result
      → (((j.namespace == owner.namespace) ≡ true) × (is_owned owner.uid (lookup j result) ≡ true))
        ⊎ (((j.namespace == owner.namespace) ≡ false) × (lookup j result ≡ lookup j objs))
  unfolding assign_owner_reference
  assign_owner_reference_lem owner owner_gvk objs result j kind scoped h n full done =
      let ref = reference_to is_namespaced gvk_for_object group_version owner owner_gvk in
      let run = rw (kind, scoped) at done in
      elim (Bool-cases (j.namespace == owner.namespace)) [
        | inl here ↦ inl (
          here,
          assign_keys-is_owned owner ref j (keys objs) objs result h n here
              (rw (sym (is_some-lookup j objs)) (owned_or_there owner.uid (lookup j objs))) run,
        )
        | inr elsewhere ↦ inr (
          elsewhere,
          assign_keys-elsewhere owner ref j (keys objs) objs result full elsewhere run,
        )
      ]
