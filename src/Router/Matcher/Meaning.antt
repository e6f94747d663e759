-- ===== src/Router/Matcher/Meaning.antt =====
-- What Match decides.
use nah.Prelude.{
  is_some, if◌then◌else◌, ==_of_eq, ==_of_ne, and_left, and_right, and_both, text_discrete, Text,
  text_eq, ◌==◌, [], Option, none, some, Bool, true, false, not, ◌&&◌, ◌||◌, ◌≡◌, ◌≢◌, ◌⊎◌, ◌↔◌,
  arith, refl, inl, inr,
}
use nah.Kube.{Object}
use nah.Router.Matcher.{
  LabelSelector, FieldSelector, ObjectMatcher, matches, match_object, match_rest, selector_matches,
  field_matches,
}

ladder :
    (unnamed named everywhere here selects object rest fit : Bool)
    → (selects ≡ false → rest ≡ (everywhere || here))
    → fit ≡ (if selects then object else true)
    → (if not unnamed
        then named
        else if not everywhere && not here
        then false
        else if selects
        then object
        else rest)
      ≡ (if unnamed then (everywhere || here) && fit else named)
ladder unnamed named everywhere here selects object rest fit h k = ground arith

module _ (is_fields : Object → Bool) where
  abbrev pub SelectorHolds : Option LabelSelector → Object → Type 0
  SelectorHolds none obj = Unit
  SelectorHolds (some s) obj = s.matches obj.labels ≡ true

  abbrev pub FieldsHold : Option FieldSelector → Object → Type 0
  FieldsHold none obj = Unit
  FieldsHold (some s) obj = is_fields obj ≡ true → s.matches obj ≡ true

  -- The matcher has no selector, or the object is there and satisfies those that the matcher has.
  abbrev pub ObjectFits : ObjectMatcher → Option Object → Type 0
  ObjectFits o none = (o.selector ≡ none) × (o.fields ≡ none)
  ObjectFits o (some obj) = SelectorHolds o.selector obj × FieldsHold o.fields obj

  selector-holds :
      (s : Option LabelSelector) (obj : Object)
      → (selector_matches is_fields s obj ≡ true) ↔ SelectorHolds s obj
  selector-holds none obj = (λ _. tt, λ _. refl)
  selector-holds (some s) obj = (λ h. h, λ h. h)

  fields-hold :
      (s : Option FieldSelector) (obj : Object)
      → (field_matches is_fields s obj ≡ true) ↔ FieldsHold s obj
  fields-hold none obj = (λ _. tt, λ _. refl)
  fields-hold (some s) obj = (λ h k. ground arith, λ h. ground (arith, h))

  abbrev fits : ObjectMatcher → Option Object → Bool
  fits o none = not (is_some o.selector || is_some o.fields)
  fits o (some obj) =
      selector_matches is_fields o.selector obj && field_matches is_fields o.fields obj

  fits-ObjectFits :
      (o : ObjectMatcher) (obj : Option Object) → (fits o obj ≡ true) ↔ ObjectFits o obj
  fits-ObjectFits o none = (λ h. ground arith, λ h. ground arith)
  fits-ObjectFits o (some obj) =
      let (sel_to, sel_from) = selector-holds o.selector obj in
      let (fields_to, fields_from) = fields-hold o.fields obj in
      (
        λ h. (sel_to (ground arith), fields_to (ground arith)),
        λ h. ground (arith, sel_from h.0, fields_from h.1),
      )

  match_rest-fits :
      (o : ObjectMatcher) (ns : Text) (f : Option FieldSelector) (obj : Option Object)
      → is_some f ≡ false
      → match_rest is_fields o ns f obj ≡ (o.namespace == [] || o.namespace == ns)
  unfolding match_rest
  match_rest-fits o ns none obj h = refl
  match_rest-fits o ns (some f) obj h = cc

  fits-eq :
      (o : ObjectMatcher) (obj : Option Object)
      → fits o obj
        ≡ (if is_some o.selector || is_some o.fields then match_object is_fields o obj else true)
  unfolding match_object
  fits-eq o none = ground arith
  fits-eq o (some obj) = ground arith

  matches-eq :
      (o : ObjectMatcher) (ns name : Text) (obj : Option Object)
      → matches is_fields o ns name obj ≡ (
          if o.name == []
          then (o.namespace == [] || o.namespace == ns) && fits o obj
          else o.name == name && o.namespace == ns)
  unfolding matches
  matches-eq o ns name obj =
      ladder (o.name == []) _ (o.namespace == []) (o.namespace == ns)
        (is_some o.selector || is_some o.fields) _ _ _
        (λ h. match_rest-fits o ns o.fields obj (ground arith)) (fits-eq o obj)

  pub matches_named :
      (o : ObjectMatcher) (ns name : Text) (obj : Option Object)
      → (o.name == []) ≡ false
      → matches is_fields o ns name obj ≡ (o.name == name && o.namespace == ns)
  matches_named o ns name obj h = rw (matches-eq o ns name obj, h) refl

  either_iff : (a b c : Text) → ((a == b || a == c) ≡ true) ↔ ((a ≡ b) ⊎ (a ≡ c))
  either_iff a b c = (λ h. ground arith, λ h. ground arith)

  both_iff : (a b c d : Text) → ((a == b && c == d) ≡ true) ↔ ((a ≡ b) × (c ≡ d))
  both_iff a b c d = (λ h. ground arith, λ h. ground arith)

  -- A matcher with a name matches that name in its namespace, whatever the object. One without a
  -- name matches in its namespace, or in all if it has none, the objects that satisfy its selectors.
  -- A missing object satisfies no selector, and a type that has no fields satisfies every field
  -- selector.
  pub matches_iff :
      (o : ObjectMatcher) (ns name : Text) (obj : Option Object)
      → (matches is_fields o ns name obj ≡ true) ↔ (
          (o.name ≢ []) × (o.name ≡ name) × (o.namespace ≡ ns)
          ⊎ (o.name ≡ []) × ((o.namespace ≡ []) ⊎ (o.namespace ≡ ns)) × ObjectFits o obj)
  matches_iff o ns name obj =
      let (here_to, here_from) = either_iff o.namespace [] ns in
      let (both_to, both_from) = both_iff o.name name o.namespace ns in
      let (fits_to, fits_from) = fits-ObjectFits o obj in
      rw (matches-eq o ns name obj) (elim (text_discrete o.name []) [
        | yes e ↦ rw (==_of_eq o.name [] e) (
          λ h. inr (e, here_to (and_left _ _ h), fits_to (and_right _ _ h)),
          λ h. elim h [
            | inl (named, _, _) ↦ absurd (named e)
            | inr (_, here, fit) ↦ and_both _ _ (here_from here) (fits_from fit)
          ],
        )
        | no n ↦ rw (==_of_ne o.name [] n) (
          λ h. inl (n, (both_to h).0, (both_to h).1),
          λ h. elim h [ inl (named, e, f) ↦ both_from (e, f) | inr (e, _, _) ↦ absurd (n e) ],
        )
      ])
