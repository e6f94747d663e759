-- ===== src/Apply/Takeover/Owners.antt =====
-- pkg/apply/desiredset_process.go: whose objects may be taken over.
use nah.Prelude.{
  Text, text_eq, ◌==◌, if◌then◌else◌, List, [], Bool, true, false, not, ◌&&◌, ◌||◌, contains, ◌≡◌,
  arith,
}
use nah.Kube.{Object, at}
use nah.Apply.Labels.{label_sub_context, label_gvk, label_name, label_namespace, label_hash}
use nah.Apply.Takeover.{
  match_all, annotations_match, is_assigning_sub_context, owner_change, is_allow_owner_transition,
  refuses_takeover,
}

-- The mark of an existing object is that of the new one, or is not there.
abbrev pub agrees : Text → Object → Object → Bool
agrees l existing new =
    (at l existing.annotations == []) || (at l existing.annotations == at l new.annotations)

-- The guard as a function of its tests: which marks are equal, which are empty, whether the new
-- sub-context is empty, and whether the change is declared.
guard_facts :
    (sub gvk name ns hash sub_empty gvk_empty name_empty ns_empty new_empty declared : Bool)
    → (not (
          if not sub
          then false
          else if not gvk
          then false
          else if not name
          then false
          else if not ns
          then false
          else if not hash
          then false
          else true)
        && (not false
            && (not (sub_empty && (not new_empty && (gvk && (ns && name))))
                && not (
                    if new_empty
                      || ((not gvk_empty && not gvk)
                          || ((not ns_empty && not ns) || (not name_empty && not name)))
                    then false
                    else declared))))
      ≡ false
    → ((gvk_empty || gvk) ≡ true)
      × ((ns_empty || ns) ≡ true)
      × ((name_empty || name) ≡ true)
      × (((sub_empty || sub) || declared) ≡ true)
guard_facts sub gvk name ns hash sub_empty gvk_empty name_empty ns_empty new_empty declared h =
    (ground arith, ground arith, ground arith, ground arith)

-- An object that was managed already is taken over only for the owner that its marks name, as far
-- as they name one: its kind, namespace and name agree with the new ones. Its sub-context is the
-- new one, or was empty, or is one that was declared to change into the new one.
pub refuses_takeover_lem :
    (valid : List Text) (existing new : Object)
    → refuses_takeover valid existing new ≡ false
    → (at label_hash existing.labels == []) ≡ false
    → (agrees label_gvk existing new ≡ true)
      × (agrees label_namespace existing new ≡ true)
      × (agrees label_name existing new ≡ true)
      × ((agrees label_sub_context existing new
            || contains valid (
                owner_change
                  (at label_sub_context existing.annotations)
                  (at label_sub_context new.annotations)))
          ≡ true)
unfolding refuses_takeover annotations_match match_all is_assigning_sub_context
    is_allow_owner_transition
refuses_takeover_lem valid existing new taken managed =
    let same : Text → Bool = λ l. at l existing.annotations == at l new.annotations in
    let empty : Text → Bool = λ l. at l existing.annotations == [] in
    guard_facts (same label_sub_context) (same label_gvk) (same label_name) (same label_namespace)
      (same label_hash) (empty label_sub_context) (empty label_gvk) (empty label_name)
      (empty label_namespace) (at label_sub_context new.annotations == [])
      (contains valid (
        owner_change (at label_sub_context existing.annotations)
          (at label_sub_context new.annotations)))
      (rw managed at taken)
