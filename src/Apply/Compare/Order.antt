-- ===== src/Apply/Compare/Order.antt =====
-- The result of compareSets does not depend on the order in which Go ranges over the maps.
use nah.Prelude.{
  nat_eq, All, All-keys, keys, Text, codes, cut, cut-append, cut_absent, lookup, text_eq, ◌==◌,
  if◌then◌else◌, List, [], none, some, Bool, true, false, contains, IsMap, sorted_unique, ◌≡◌,
  arith, ◌∙◌, sym, ap,
}
use nah.Apply.ObjectSet.{ObjectKey, ObjectByKey, object_key_eq, key_string}
use nah.Apply.Compare.{compare_sets}
use nah.Apply.Compare.Decisions.{Lists, compare_sets_lem, to_create, to_delete, to_update}

-- Kubernetes allows no slash in a name or a namespace.
pub record HasNoSlash (k : ObjectKey) : Type 0 where
  pub in_name : contains k.name b'/' ≡ false
  pub in_namespace : contains k.namespace b'/' ≡ false

cut-key_string :
    (k : ObjectKey)
    → HasNoSlash k
    → cut (key_string k) (codes "/")
      ≡ (if k.namespace == [] then none else some (k.namespace, k.name))
unfolding key_string
cut-key_string k h = ground (
  arith,
  cut_absent k.name [] b'/' h.in_name,
  cut-append k.namespace k.name [] b'/' h.in_namespace,
)

pub key_string-injective :
    (a b : ObjectKey) → HasNoSlash a → HasNoSlash b → key_string a ≡ key_string b → a ≡ b
unfolding key_string
key_string-injective a b h k e =
    ground (
      arith,
      sym (cut-key_string a h) ∙ ap (λ (s : Text). cut s (codes "/")) e ∙ cut-key_string b k,
    )

module _ (sha1_hex : Text → Text) where
  -- Two lists of the keys that pass the same test are the same.
  Lists-unique :
      (test other : ObjectKey → Bool) (xs ys : List ObjectKey)
      → ((k : ObjectKey) → test k ≡ true → HasNoSlash k)
      → ((k : ObjectKey) → test k ≡ other k)
      → Lists sha1_hex test xs
      → Lists sha1_hex other ys
      → xs ≡ ys
  Lists-unique test other xs ys plain same l m =
      sorted_unique key_string xs ys
        (λ a b h k e.
          key_string-injective a b (plain a (sym (l.exact a) ∙ h)) (plain b (sym (l.exact b) ∙ k))
            e)
        l.sorted m.sorted l.once m.once (λ a. l.exact a ∙ same a ∙ sym (m.exact a))

  -- compareSets gives the same three lists for every order in which Go ranges over the two maps, if
  -- no key has a slash: two representations of the same maps are not told apart.
  pub compare_sets-order :
      (existing existing' new new' : ObjectByKey)
      → IsMap existing
      → IsMap existing'
      → IsMap new
      → IsMap new'
      → ((k : ObjectKey) → lookup k existing ≡ lookup k existing')
      → ((k : ObjectKey) → lookup k new ≡ lookup k new')
      → All HasNoSlash (keys existing)
      → All HasNoSlash (keys new)
      → compare_sets sha1_hex existing new ≡ compare_sets sha1_hex existing' new'
  compare_sets-order existing existing' new new' e e' n n' same_e same_n plain_e plain_n =
      let (create, delete, update) = compare_sets_lem sha1_hex existing new e n in
      let (create', delete', update') = compare_sets_lem sha1_hex existing' new' e' n' in
      let creates =
        Lists-unique (to_create sha1_hex existing new) (to_create sha1_hex existing' new') _ _
          (λ k h. All-keys HasNoSlash k new plain_n (ground (arith, h)))
          (λ k. ground (arith, same_e k, same_n k)) create create' in
      let deletes =
        Lists-unique (to_delete sha1_hex existing new) (to_delete sha1_hex existing' new') _ _
          (λ k h. All-keys HasNoSlash k existing plain_e (ground (arith, h)))
          (λ k. ground (arith, same_e k, same_n k)) delete delete' in
      let updates =
        Lists-unique (to_update sha1_hex existing new) (to_update sha1_hex existing' new') _ _
          (λ k h. All-keys HasNoSlash k new plain_n (ground (arith, h)))
          (λ k. ground (arith, same_e k, same_n k)) update update' in
      λ i. (creates i, deletes i, updates i)
