-- ===== src/Apply/Process/Kept.antt =====
-- pkg/apply/desiredset_process.go: which objects a run may delete.
use mathlib.Core.List.{append_assoc, append-nil}
use nah.Prelude.{
  Text, subst, ◌++◌, inl, lookup, text_eq, ◌==◌, if◌then◌else◌, List, [], ◌∷◌, Option, none, some,
  Bool, true, not, ◌&&◌, ◌≡◌, refl, arith, All, IsMap, is_some, contains, contains-select, ap, ◌∙◌,
  sym, ==_self, select,
}
use nah.Error.{Error}
use nah.Kube.{GroupVersionKind, Object, group_kind}
use nah.Apply.ObjectSet.{ObjectKey, object_key_eq, ObjectByKey, ObjectSet, set_contains}
use nah.Apply.Compare.{compare_sets}
use nah.Apply.Compare.Decisions.{wants, deletable, compare_sets_lem}
use nah.Apply.Takeover.{filter_cross_version}
use nah.Apply.Takeover.Versions.{filter_cross_version-select}
use nah.Apply.Update.{State, on_server}
use nah.Apply.Process.{
  Applier, Progress, run_steps, Step, create_step, delete_step, deleted, update_step, carry_out,
  sync, began,
}
use nah.Apply.Process.Tracked.{Calls, IsReplaced, IsDesired}
use nah.Apply.Process.Steps.{
  Good, create_step-Good, prune_step-Good, remove_step-Good, update_step-Good,
}

All-of :
    (P : ObjectKey → Type 0) (ks : List ObjectKey)
    → ((k : ObjectKey) → contains ks k ≡ true → P k)
    → All P ks
All-of P [] h = tt
All-of P (k ∷ ks) h = (h k (ground (arith, ==_self k)), All-of P ks (λ j m. h j (ground arith)))

contains-filter_cross_version :
    (default : Text) (objs : ObjectSet) (gvk : GroupVersionKind) (keys : List ObjectKey)
    (k : ObjectKey)
    → contains (filter_cross_version default objs gvk keys) k ≡ true
    → (contains keys k && not (set_contains objs (group_kind gvk) k)) ≡ true
contains-filter_cross_version default objs gvk keys k h =
    let seen = λ (j : ObjectKey). set_contains objs (group_kind gvk) j in
    let kept = λ (j : ObjectKey).
      not (seen j)
      && not ((j.namespace == default) && seen (record { name = j.name; namespace = [] })) in
    let m : contains (select kept keys) k ≡ true =
      ap (λ l. contains l k) (sym (filter_cross_version-select default objs gvk keys)) ∙ h in
    ground (arith, contains-select kept keys k, m)

-- deleteF leaves the lists of a run alone.
delete_step-to_replace :
    {V : Type 0} (a : Applier V) (gvk : GroupVersionKind) (k : ObjectKey) (p : Progress V)
    → (delete_step a gvk k p).1.to_replace ≡ p.to_replace
unfolding delete_step
delete_step-to_replace {V = V} a gvk k p =
    left_alone (on_server (a.client.delete gvk k.namespace k.name) p.state)
  where
    left_alone : (r : Option Error × State V) → (deleted a gvk k p r).1.to_replace ≡ p.to_replace
    left_alone (none, s) = refl
    left_alone (some e, s) = refl

module _ {V : Type 0} (a : Applier V) (gvk : GroupVersionKind) (objs existing : ObjectByKey)
    (P : ObjectKey → Type 0) (Q : List ObjectKey → V → Type 0)
    (calls : Calls a gvk objs existing P Q) where
  abbrev IsGood : List ObjectKey → Progress V → Type 0
  IsGood ks p = Good a gvk objs existing P Q calls ks p

  -- What every step keeps is kept by the loop, at keys of D.
  run_steps-Good :
      (D : ObjectKey → Type 0) (step : Step V)
      → ((k : ObjectKey) (p : Progress V) → D k → IsGood [] p → IsGood [] (step k p).1)
      → (ks : List ObjectKey) (p : Progress V) → All D ks
      → IsGood [] p
      → IsGood [] (run_steps step ks p).1
  unfolding run_steps
  run_steps-Good D step keeps [] p d g = g
  run_steps-Good D step keeps (k ∷ ks) p d g =
      run_steps-Good D step keeps ks (step k p).1 d.1 (keeps k p d.0 g)

  -- The removals of what is to be replaced
  removals-Good :
      (before ks : List ObjectKey) (p : Progress V)
      → All (IsReplaced a gvk objs existing) ks
      → IsGood before p
      → IsGood (before ++ ks) (run_steps (delete_step a gvk) ks p).1
        × ((run_steps (delete_step a gvk) ks p).1.to_replace ≡ p.to_replace)
  unfolding run_steps
  removals-Good before [] p d g = (subst (λ ks. IsGood ks p) (sym (append-nil before)) g, refl)
  removals-Good before (k ∷ ks) p d g =
      let p' = (delete_step a gvk k p).1 in
      let (good, same) =
        removals-Good (before ++ k ∷ []) ks p' d.1
          (remove_step-Good a gvk objs existing P Q calls k before p d.0 g) in
      (
        subst (λ l. IsGood l (run_steps (delete_step a gvk) ks p').1)
            (append_assoc before (k ∷ []) ks) good,
        same ∙ delete_step-to_replace a gvk k p,
      )

  -- The loop over createF creates what waits.
  creations-Good :
      (ks : List ObjectKey) (p : Progress V)
      → All (IsDesired a gvk objs existing) ks
      → IsGood ks p
      → IsGood [] (run_steps (create_step a gvk) ks p).1
  unfolding run_steps
  creations-Good [] p d g = g
  creations-Good (k ∷ ks) p d g =
      creations-Good ks (create_step a gvk k p).1 d.1
        (create_step-Good a gvk objs existing P Q calls k ks p d.0 g)

  all-IsDesired :
      (ks : List ObjectKey)
      → All (IsReplaced a gvk objs existing) ks
      → All (IsDesired a gvk objs existing) ks
  all-IsDesired [] d = tt
  all-IsDesired (k ∷ ks) d = (d.0.desired, all-IsDesired ks d.1)

  carry_out-Good :
      (creating deleting : List ObjectKey) (p : Progress V)
      → All (IsDesired a gvk objs existing) creating
      → All P (if a.no_prune then [] else deleting)
      → IsGood creating p
      → IsGood [] (carry_out a gvk creating deleting p).1
  unfolding carry_out
  carry_out-Good creating deleting p dc dd g =
      let p₁ = (run_steps (create_step a gvk) creating p).1 in
      let g₁ = creations-Good creating p dc g in
      let p₂ = (run_steps (update_step a gvk) p₁.to_update p₁).1 in
      let g₂ =
        run_steps-Good _ (update_step a gvk) (update_step-Good a gvk objs existing P Q calls)
          p₁.to_update p₁ g₁.tracked.updating g₁ in
      let pruned = if a.no_prune then [] else deleting in
      let p₃ = (run_steps (delete_step a gvk) pruned p₂).1 in
      let g₃ =
        run_steps-Good P (delete_step a gvk) (prune_step-Good a gvk objs existing P Q calls) pruned
          p₂ dd g₂ in
      let p₄ = (run_steps (delete_step a gvk) p₃.to_replace p₃).1 in
      let (g₄, same) = removals-Good [] p₃.to_replace p₃ g₃.tracked.replacing g₃ in
      creations-Good p₄.to_replace p₄ (all-IsDesired p₄.to_replace g₄.tracked.replacing)
        (subst (λ ks. IsGood ks p₄) (sym same) g₄)

module _ {V : Type 0} (a : Applier V) (gvk : GroupVersionKind) where
  -- The keys that a run may prune: where pruning is on, those of an object that exists and that may
  -- be pruned, if it is desired under no version of its kind.
  abbrev pub is_prunable : ObjectSet → ObjectByKey → ObjectKey → Bool
  is_prunable all_objs existing k =
      not a.no_prune
      && (deletable a.sha1_hex (lookup k existing)
          && not (set_contains all_objs (group_kind gvk) k))

  wanted : (label : Text) (found : Option Object) → wants label found ≡ true → is_some found ≡ true
  wanted label (some obj) h = refl
  wanted label none h = h

  -- Behind the list of what exists, process keeps what its calls keep: see process-keeps.
  pub sync-keeps :
      (Q : List ObjectKey → V → Type 0) (all_objs : ObjectSet) (objs existing : ObjectByKey)
      (s : State V)
      → IsMap existing
      → IsMap objs
      → Calls a gvk objs existing (λ k. is_prunable all_objs existing k ≡ true) Q
      → Q [] s.server
      → Q [] (sync a gvk all_objs objs existing s).1.server
  unfolding sync
  sync-keeps Q all_objs objs existing s e n calls q =
      let P = λ (k : ObjectKey). is_prunable all_objs existing k ≡ true in
      let (creating, deleting, updating) = compare_sets_lem a.sha1_hex existing objs e n in
      let lists = compare_sets a.sha1_hex existing objs in
      let pruning = filter_cross_version a.default_namespace all_objs gvk lists.1 in
      let D = IsDesired a gvk objs existing in
      let dc : All D lists.0 =
        All-of D lists.0 (λ k m. ground (arith, creating.exact k, wanted _ (lookup k objs))) in
      let du : All D lists.2 =
        All-of D lists.2 (λ k m. ground (arith, updating.exact k, wanted _ (lookup k objs))) in
      let dd : All P (if a.no_prune then [] else pruning) =
        All-of P (if a.no_prune then [] else pruning) (λ k m. ground (
          arith,
          contains-filter_cross_version a.default_namespace all_objs gvk lists.1 k,
          deleting.exact k,
        )) in
      (carry_out-Good a gvk objs existing P Q calls lists.0 pruning
        (began a gvk objs existing lists.2 s) dc dd
        (record {
          holds = calls.awaits lists.0 s.server creating q;
          tracked = record {
            updating = du;
            replacing = tt;
            found = λ k old h. inl h;
            same = λ off. refl;
            there = λ k d. d;
          };
        })).holds
