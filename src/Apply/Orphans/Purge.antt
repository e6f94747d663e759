-- ===== src/Apply/Orphans/Purge.antt =====
-- pkg/apply/desiredset_owner.go: which owner is looked for, and when an object is deleted.
use nah.Prelude.{
  Text, codes, cut, cut-append, cut_absent, contains, contains-append, text_eq, text_discrete,
  nat_eq, ◌==◌, [], ◌∷◌, ◌++◌, none, some, false, ◌≡◌, refl, arith, ℕ, Bool-cases, inl, inr, if_inv,
  Option, true,
}
use nah.Error.{
  Error, Result, ok, err, not_found, has_reason, first_reason, message, err_owner_not_found,
}
use nah.Kube.{GroupVersionKind, Object, Client, at}
use nah.Apply.Labels.{label_gvk, label_name, label_namespace}
use nah.Apply.Orphans.{
  Known, registered_type, not_registered, new_failed, delete_as, purge_after, read_owner, parsed,
  two_parts, read_as, get_gvk, kind_separator, get, new_obj, find_owner, purge_orphan,
  is_owner_not_found,
}

-- How schema.GroupVersionKind writes itself.
abbrev pub written_kind : GroupVersionKind → Text
written_kind g = g.group ++ codes "/" ++ g.version ++ codes ", Kind=" ++ g.kind

-- A kind as Kubernetes has them.
pub record IsPlainKind (g : GroupVersionKind) : Type 0 where
  pub no_slash : contains g.group b'/' ≡ false
  pub no_comma_in_group : contains g.group b',' ≡ false
  pub no_comma_in_version : contains g.version b',' ≡ false
  pub no_comma_in_kind : contains g.kind b',' ≡ false

slash-no_comma : contains (codes "/") b',' ≡ false
unfolding text_discrete
slash-no_comma = refl

get_gvk-written_kind : (g : GroupVersionKind) → IsPlainKind g → get_gvk (written_kind g) ≡ ok g
unfolding get_gvk
get_gvk-written_kind g plain =
    let first = g.group ++ codes "/" ++ g.version in
    let no_comma : contains first b',' ≡ false = ground (
      arith,
      plain.no_comma_in_group,
      plain.no_comma_in_version,
      contains-append (g.group ++ codes "/") g.version b',',
      contains-append g.group (codes "/") b',',
      slash-no_comma,
    ) in
    let no_more : cut g.kind kind_separator ≡ none =
      cut_absent g.kind (codes " Kind=") b',' plain.no_comma_in_kind in
    let group_first : cut first (codes "/") ≡ some (g.group, g.version) =
      cut-append g.group g.version [] b'/' plain.no_slash in
    rw (cut-append first g.kind (codes " Kind=") b',' no_comma, no_more, group_first) refl

not_empty_left : (a b : Text) → (a == []) ≡ false → (a ++ b == []) ≡ false
unfolding text_discrete
not_empty_left [] b h = cc
not_empty_left (c ∷ a) b h = ground arith

not_empty_right : (a : Text) (c : ℕ) (b : Text) → (a ++ (c ∷ b) == []) ≡ false
not_empty_right [] c b = ground arith
not_empty_right (x ∷ a) c b = ground arith

written_kind-not_empty : (g : GroupVersionKind) → (written_kind g == []) ≡ false
written_kind-not_empty g =
    let start = not_empty_right g.group b'/' [] in
    let first = not_empty_left (g.group ++ codes "/") g.version start in
    let separated = not_empty_left (g.group ++ codes "/" ++ g.version) (codes ", Kind=") first in
    not_empty_left (g.group ++ codes "/" ++ g.version ++ codes ", Kind=") g.kind separated

parsed-has_reason :
    (label : Text) (parts : Option (Text × Text)) (e : Error)
    → parsed label parts ≡ err e
    → has_reason not_found e ≡ false
unfolding has_reason first_reason
parsed-has_reason label none (message t) h = refl
parsed-has_reason label none (Error.api r) h = cc
parsed-has_reason label none Error.err_replace h = cc
parsed-has_reason label none err_owner_not_found h = cc
parsed-has_reason label none Error.err_ignore h = cc
parsed-has_reason label none (Error.wrapped t e) h = cc
parsed-has_reason label none (Error.joined es) h = cc
parsed-has_reason label (some (first, kind)) e h = cc

-- A kind that does not parse is no NotFound.
get_gvk-has_reason :
    (label : Text) (e : Error) → get_gvk label ≡ err e → has_reason not_found e ≡ false
unfolding get_gvk
get_gvk-has_reason label e h =
    parsed-has_reason label (two_parts kind_separator (cut label kind_separator)) e h

unknown_owner : has_reason not_found err_owner_not_found ≡ false
unfolding has_reason first_reason
unknown_owner = refl

module _ {W : Type 0} (client : Client W) (scheme_new : GroupVersionKind → Known)
    (gvk_for_object : Object → Result GroupVersionKind) where
  -- For an object whose annotations name an owner of a registered kind, as they are written for
  -- it, FindOwner reads the object of that very kind, namespace and name, and nothing else.
  pub find_owner_lem :
      (owner_gvk : GroupVersionKind) (obj : Object) (w : W)
      → IsPlainKind owner_gvk
      → scheme_new owner_gvk ≡ registered_type
      → at label_gvk obj.annotations ≡ written_kind owner_gvk
      → find_owner client scheme_new gvk_for_object (some obj) w
        ≡ client.get owner_gvk
            (at label_namespace obj.annotations)
            (at label_name obj.annotations)
            w
  unfolding find_owner get new_obj
  find_owner_lem owner_gvk obj w plain registered marked =
      rw
        (marked, written_kind-not_empty owner_gvk, get_gvk-written_kind owner_gvk plain, registered)
        refl

  -- The owner that an object's annotations name, which a read answered not to be there.
  pub record IsGone (obj : Object) (v v' : W) : Type 0 where
    pub owner_gvk : GroupVersionKind
    pub error : Error
    pub marked : (at label_gvk obj.annotations == []) ≡ false
    pub parses : get_gvk (at label_gvk obj.annotations) ≡ ok owner_gvk
    pub answered :
        client.get owner_gvk (at label_namespace obj.annotations) (at label_name obj.annotations) v
        ≡ (err error, v')
    pub missing : has_reason not_found error ≡ true

  module _ (Q : W → Type 0) (obj : Object)
      (fails : (g : GroupVersionKind) (e : Error)
        → scheme_new g ≡ new_failed e
        → has_reason not_found e ≡ false)
      (gets : (g : GroupVersionKind) (ns n : Text) (v : W) → Q v → Q (client.get g ns n v).1)
      (deletes : (own : GroupVersionKind) (v v' : W)
        → IsGone obj v v'
        → gvk_for_object obj ≡ ok own
        → Q v'
        → Q (client.delete own obj.namespace obj.name v').1) where
    delete_as-Kept :
        (v v' : W) (own : Result GroupVersionKind)
        → IsGone obj v v'
        → gvk_for_object obj ≡ own
        → Q v'
        → Q (delete_as client scheme_new gvk_for_object own obj v').1
    delete_as-Kept v v' (err e) gone kind q = q
    delete_as-Kept v v' (ok own) gone kind q = deletes own v v' gone kind q

    purge_after-Kept :
        (v : W) (r : Result Object × W)
        → ((e : Error) → r.0 ≡ err e → has_reason not_found e ≡ true → IsGone obj v r.1)
        → Q r.1
        → Q (purge_after client scheme_new gvk_for_object obj r).1
    purge_after-Kept v (ok owner, w) gone q = q
    purge_after-Kept v (err e, w) gone q = elim (Bool-cases (has_reason not_found e)) [
      | inl missing ↦
          rw missing (delete_as-Kept v w (gvk_for_object obj) (gone e refl missing) refl q)
      | inr other ↦ rw other (
          if_inv (λ (r : Option Error × W). Q r.1)
            (is_owner_not_found client scheme_new gvk_for_object e) _ _ q q)
    ]

    -- An error that is no NotFound deletes nothing.
    failed-Kept :
        (w : W) (e : Error)
        → has_reason not_found e ≡ false
        → Q w
        → Q (purge_after client scheme_new gvk_for_object obj (err e, w)).1
    failed-Kept w e other q = rw other (
        if_inv (λ (r : Option Error × W). Q r.1)
          (is_owner_not_found client scheme_new gvk_for_object e) _ _ q q)

    read-Kept :
        (w : W) (g : GroupVersionKind) (r : Result Object × W)
        → (at label_gvk obj.annotations == []) ≡ false
        → get_gvk (at label_gvk obj.annotations) ≡ ok g
        → client.get g (at label_namespace obj.annotations) (at label_name obj.annotations) w ≡ r
        → Q r.1
        → Q (purge_after client scheme_new gvk_for_object obj r).1
    read-Kept w g (ok owner, w') marked parses answered q = q
    read-Kept w g (err e, w') marked parses answered q =
        purge_after-Kept w (err e, w')
          (λ e' same missing. record {
            owner_gvk = g;
            error = e;
            marked = marked;
            parses = parses;
            answered = answered;
            missing = let i : e ≡ e' = cc in rw i missing;
          })
          q

    read_as-Kept :
        (w : W) (g : GroupVersionKind) (known : Known)
        → scheme_new g ≡ known
        → (at label_gvk obj.annotations == []) ≡ false
        → get_gvk (at label_gvk obj.annotations) ≡ ok g
        → Q w
        → Q
            (purge_after client scheme_new gvk_for_object obj (
              read_as client scheme_new gvk_for_object
                (new_obj known)
                g
                (at label_namespace obj.annotations)
                (at label_name obj.annotations)
                w)).1
    unfolding new_obj
    read_as-Kept w g registered_type k marked parses q =
        let found =
          client.get g (at label_namespace obj.annotations) (at label_name obj.annotations) w in
        read-Kept w g found marked parses refl (gets g _ _ w q)
    read_as-Kept w g not_registered k marked parses q =
        let found =
          client.get g (at label_namespace obj.annotations) (at label_name obj.annotations) w in
        read-Kept w g found marked parses refl (gets g _ _ w q)
    read_as-Kept w g (new_failed e) k marked parses q = failed-Kept w e (fails g e k) q

    read_owner-Kept :
        (w : W) (r : Result GroupVersionKind)
        → (at label_gvk obj.annotations == []) ≡ false
        → get_gvk (at label_gvk obj.annotations) ≡ r
        → Q w
        → Q
            (purge_after client scheme_new gvk_for_object obj
              (read_owner client scheme_new gvk_for_object obj r w)).1
    unfolding get
    read_owner-Kept w (err e) marked parses q =
        failed-Kept w e (get_gvk-has_reason (at label_gvk obj.annotations) e parses) q
    read_owner-Kept w (ok g) marked parses q = read_as-Kept w g (scheme_new g) refl marked parses q

  -- PurgeOrphan deletes nothing but the object itself, under its own kind, namespace and name, and
  -- that only if its annotations name an owner's kind that parses, and a read of the owner of that
  -- kind, namespace and name answered that it is not there: whatever holds of the world and is kept
  -- by reads and by such a deletion, still holds when it returns, with an error or without one. An
  -- object without these annotations, or whose owner cannot be read for another reason, is not
  -- deleted. The condition on the scheme: where it knows a kind but fails to make an object, its
  -- error is no NotFound of an API server.
  pub purge_orphan-keeps :
      (Q : W → Type 0) (obj : Object) (w : W)
      → ((g : GroupVersionKind) (e : Error)
          → scheme_new g ≡ new_failed e
          → has_reason not_found e ≡ false)
      → ((g : GroupVersionKind) (ns n : Text) (v : W) → Q v → Q (client.get g ns n v).1)
      → ((own : GroupVersionKind) (v v' : W)
          → IsGone obj v v'
          → gvk_for_object obj ≡ ok own
          → Q v'
          → Q (client.delete own obj.namespace obj.name v').1)
      → Q w
      → Q (purge_orphan client scheme_new gvk_for_object (some obj) w).1
  unfolding purge_orphan find_owner get
  purge_orphan-keeps Q obj w fails gets deletes q =
      elim (Bool-cases (at label_gvk obj.annotations == [])) [
        | inl unmarked ↦
            rw unmarked (failed-Kept Q obj fails gets deletes w err_owner_not_found unknown_owner q)
        | inr marked ↦ rw marked (
            read_owner-Kept Q obj fails gets deletes w (get_gvk (at label_gvk obj.annotations))
              marked refl q)
      ]
