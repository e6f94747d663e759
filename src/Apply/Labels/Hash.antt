-- ===== src/Apply/Labels/Hash.antt =====
-- The hash label of a managed object is the hash of its own annotations.
use nah.Prelude.{
  Text, Map, lookup, lookup-insert, lookup-delete, text_eq, text_discrete, [], ◌∷◌, Option, none,
  some, ◌≡◌, refl, arith, ◌≢◌, ◌⊎◌, inl, inr, subst, sym, ◌∙◌,
}
use nah.Error.{Result, ok, ok-injective}
use nah.Kube.{GroupVersionKind, Object, at}
use nah.Apply.Labels.{
  label_sub_context, label_gvk, label_name, label_namespace, label_hash, set_annotations,
  set_labels, object_set_hash, get_labels_and_annotations,
}

-- The object carries no annotation that names an owner.
pub record HasNoOwner (obj : Object) : Type 0 where
  pub no_gvk : at label_gvk obj.annotations ≡ []
  pub no_name : at label_name obj.annotations ≡ []
  pub no_namespace : at label_namespace obj.annotations ≡ []

module _ (sha1_hex : Text → Text) where
  -- The hash reads four values.
  object_set_hash-eq :
      (m n : Map Text Text)
      → at label_sub_context m ≡ at label_sub_context n
      → at label_gvk m ≡ at label_gvk n
      → at label_name m ≡ at label_name n
      → at label_namespace m ≡ at label_namespace n
      → object_set_hash sha1_hex m ≡ object_set_hash sha1_hex n
  unfolding object_set_hash
  object_set_hash-eq m n a b c d = rw (a, b, c, d) refl

  module _ (gvk_string : GroupVersionKind → Text)
      (gvk_for_object : Object → Result GroupVersionKind) where
    abbrev pub marks : Text → Option Object → Result (Map Text Text × Map Text Text)
    marks = get_labels_and_annotations sha1_hex gvk_string gvk_for_object

    -- What injectLabelsAndAnnotations does to one object.
    abbrev pub marked : Object → Map Text Text × Map Text Text → Object
    marked obj (labels, annotations) = set_annotations (set_labels obj labels) annotations

    abbrev pub HasOwnHash : Object → Type 0
    HasOwnHash obj = at label_hash obj.labels ≡ object_set_hash sha1_hex obj.annotations

    abbrev pub hashed : Map Text Text → Map Text Text × Map Text Text
    hashed annotations = ((label_hash, object_set_hash sha1_hex annotations) ∷ [], annotations)

    marks_owned :
        (sub_context : Text) (owner : Object) (gvk : GroupVersionKind)
        → gvk_for_object owner ≡ ok gvk
        → marks sub_context (some owner)
          ≡ ok (
              hashed (
                (label_sub_context, sub_context)
                ∷ (label_gvk, gvk_string gvk)
                ∷ (label_name, owner.name)
                ∷ (label_namespace, owner.namespace)
                ∷ []))
    unfolding get_labels_and_annotations
    marks_owned sub_context owner gvk known = ground arith

    marks_unowned :
        (sub_context : Text)
        → sub_context ≢ []
        → marks sub_context none ≡ ok (hashed ((label_sub_context, sub_context) ∷ []))
    unfolding get_labels_and_annotations
    marks_unowned sub_context named = ground arith

    hashed_owned :
        (obj : Object) (a b c d : Text)
        → HasOwnHash (
            marked obj (
              hashed (
                (label_sub_context, a)
                ∷ (label_gvk, b)
                ∷ (label_name, c)
                ∷ (label_namespace, d)
                ∷ [])))
    unfolding set_annotations set_labels text_discrete object_set_hash lookup
    hashed_owned obj a b c d = simp lookup-insert

    hashed_unowned :
        (obj : Object) (a : Text)
        → HasNoOwner obj
        → HasOwnHash (marked obj (hashed ((label_sub_context, a) ∷ [])))
    unfolding set_annotations set_labels text_discrete object_set_hash lookup
    hashed_unowned obj a bare =
        simp (lookup-insert, lookup-delete, bare.no_gvk, bare.no_name, bare.no_namespace)

    marks-known :
        (sub_context : Text) (owner : Object) {m : Map Text Text × Map Text Text}
        → marks sub_context (some owner) ≡ ok m
        → (gvk : GroupVersionKind) × (gvk_for_object owner ≡ ok gvk)
    unfolding get_labels_and_annotations
    marks-known sub_context owner e = ground arith

    -- An object that the apply marked has the hash of its own annotations as its hash label,
    -- whatever it carried before, if there is an owner; and without an owner, under a subcontext,
    -- if it carried no owner annotation.
    pub marked-HasOwnHash :
        (sub_context : Text) (owner : Option Object) (obj : Object)
        {m : Map Text Text × Map Text Text}
        → (owner ≢ none) ⊎ ((sub_context ≢ []) × HasNoOwner obj)
        → marks sub_context owner ≡ ok m
        → HasOwnHash (marked obj m)
    marked-HasOwnHash sub_context none obj (inl h) e = absurd (h refl)
    marked-HasOwnHash sub_context none obj (inr (named, bare)) e =
        subst (λ m. HasOwnHash (marked obj m))
          (ok-injective (sym (marks_unowned sub_context named) ∙ e))
          (hashed_unowned obj sub_context bare)
    marked-HasOwnHash sub_context (some owner) obj h e =
        let (gvk, known) = marks-known sub_context owner e in
        subst (λ m. HasOwnHash (marked obj m))
          (ok-injective (sym (marks_owned sub_context owner gvk known) ∙ e))
          (hashed_owned obj sub_context (gvk_string gvk) owner.name owner.namespace)
