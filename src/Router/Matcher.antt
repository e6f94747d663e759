-- ===== src/Router/Matcher.antt =====
-- pkg/router/matcher.go: which objects a registered watch is about.
pub mod Meaning
use nah.Prelude.{
  Text, codes, Map, text_eq, ◌==◌, if◌then◌else◌, [], ◌++◌, Option, none, some, Bool, true, false,
  not, ◌&&◌, ◌||◌, is_some,
}
use nah.Kube.{Object}

-- labels.Selector
pub record LabelSelector : Type 0 where
  pub string : Text
  pub matches : Map Text Text → Bool

-- fields.Selector, with what it says of an object that implements fields.Fields
pub record FieldSelector : Type 0 where
  pub string : Text
  pub matches : Object → Bool

pub record ObjectMatcher : Type 0 where
  pub namespace : Text
  pub name : Text
  pub selector : Option LabelSelector
  pub fields : Option FieldSelector

abbrev selector_part : Option LabelSelector → Text
selector_part none = []
selector_part (some s) = codes "/label selectors" ++ s.string

abbrev fields_part : Option FieldSelector → Text
fields_part none = []
fields_part (some s) = codes "/field selectors" ++ s.string

-- objectMatcher.String
unfoldable pub matcher_string : ObjectMatcher → Text
matcher_string o =
    o.name ++ codes "/" ++ o.namespace ++ selector_part o.selector ++ fields_part o.fields

abbrev same_selector : Option LabelSelector → Option LabelSelector → Bool
same_selector none none = true
same_selector none (some t) = false
same_selector (some s) none = false
same_selector (some s) (some t) = s.string == t.string

abbrev same_fields : Option FieldSelector → Option FieldSelector → Bool
same_fields none none = true
same_fields none (some t) = false
same_fields (some s) none = false
same_fields (some s) (some t) = s.string == t.string

-- objectMatcher.Equals
unfoldable pub matcher_equals : ObjectMatcher → ObjectMatcher → Bool
matcher_equals o other =
    if not (o.name == other.name)
    then false
    else if not (o.namespace == other.namespace)
    then false
    else same_selector o.selector other.selector && same_fields o.fields other.fields

-- is_fields says whether the Go type of an object implements fields.Fields.
module _ (is_fields : Object → Bool) where
  abbrev pub selector_matches : Option LabelSelector → Object → Bool
  selector_matches none obj = true
  selector_matches (some s) obj = s.matches obj.labels

  abbrev pub field_matches : Option FieldSelector → Object → Bool
  field_matches none obj = true
  field_matches (some s) obj = if is_fields obj then s.matches obj else true

  pub match_object : ObjectMatcher → Option Object → Bool
  match_object o none = false
  match_object o (some obj) = selector_matches o.selector obj && field_matches o.fields obj

  -- The last test of the function, which no call reaches with a field selector.
  pub match_rest : ObjectMatcher → Text → Option FieldSelector → Option Object → Bool
  match_rest o ns none obj = o.namespace == [] || o.namespace == ns
  match_rest o ns (some s) none = false
  match_rest o ns (some s) (some obj) =
      if is_fields obj then s.matches obj else o.namespace == [] || o.namespace == ns

  -- objectMatcher.Match
  unfoldable pub matches : ObjectMatcher → Text → Text → Option Object → Bool
  unfolding match_object match_rest
  matches o ns name obj =
      if not (o.name == [])
      then o.name == name && o.namespace == ns
      else if not (o.namespace == []) && not (o.namespace == ns)
      then false
      else if is_some o.selector || is_some o.fields
      then match_object o obj
      else match_rest o ns o.fields obj
