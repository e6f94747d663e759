-- ===== src/Mapper.antt =====
-- pkg/mapper/mapper.go: the mapper of resources and kinds, with caches that all mappers share.
pub mod Answers
use nah.Prelude.{
  Text, codes, Map, lookup, insert, HasEq, text_eq, text_discrete, ◌==◌, if◌then◌else◌, List, [],
  ◌∷◌, ◌++◌, Option, none, some, Bool, true, false,
}
use nah.Error.{Error, Result, ok, err}
use nah.Kube.{GroupVersionKind, GroupKind, gk_discrete, gk_eq}

-- schema.GroupVersionResource
pub record Resource : Type 0 where
  pub group : Text
  pub version : Text
  pub resource : Text

resource_fields : Discrete Resource
unfolding text_discrete
resource_fields = hlevel text_discrete

unfoldable pub resource_discrete : Discrete Resource
unfolding resource_fields
resource_discrete = resource_fields

instance abbrev pub resource_eq : HasEq Resource
resource_eq = record { same = resource_discrete }

-- gkKey
pub record GkKey : Type 0 where
  pub versions : Text
  pub gk : GroupKind

gk_key_fields : Discrete GkKey
unfolding text_discrete gk_discrete
gk_key_fields = hlevel (text_discrete, gk_discrete)

unfoldable pub gk_key_discrete : Discrete GkKey
unfolding gk_key_fields
gk_key_discrete = gk_key_fields

instance abbrev pub gk_key_eq : HasEq GkKey
gk_key_eq = record { same = gk_key_discrete }

-- meta.RESTMapping; the scope is that of a namespace or not.
pub record RestMapping : Type 0 where
  pub resource : Resource
  pub kind : GroupVersionKind
  pub namespaced : Bool

-- What a RESTMapper of the discovery answers.
pub record Discovered : Type 0 where
  pub kinds_for : Resource → Result (List GroupVersionKind)
  pub resources_for : Resource → Result (List Resource)
  pub mappings : GroupKind → Result (List RestMapping)
  pub singularizer : Text → Result Text

-- strings.Join(versions, "|")
unfoldable pub joined_versions : List Text → Text
joined_versions [] = []
joined_versions (v ∷ []) = v
joined_versions (v ∷ u ∷ vs) = v ++ codes "|" ++ joined_versions (u ∷ vs)

-- The first of an answer; an answer without any panics, which is `none`.
abbrev pub first_of {ℓ} : {A : Type ℓ} → Result (List A) → Option (Result A)
first_of (err e) = some (err e)
first_of (ok []) = none
first_of (ok (a ∷ as_found)) = some (ok a)

abbrev pub empty_kind : GroupVersionKind
empty_kind = record { group = []; version = []; kind = [] }

-- KindFor returns no error where KindsFor does, but an empty kind.
abbrev pub kind_or_empty : Result (List GroupVersionKind) → Option (Result GroupVersionKind)
kind_or_empty (err e) = some (ok empty_kind)
kind_or_empty (ok kinds) = first_of (ok kinds)

-- withClient's state: the API of the last discovery, with the state of the server. The discovery of
-- an API is a parameter, and so is the mapper of one; an API that is empty counts as none.
module _ {Api W : Type 0} (is_empty : Api → Bool) (discover : W → Result Api × W)
    (mapper : Api → Discovered) where
  abbrev pub Server : Type 0
  Server = Api × W

  abbrev pub retried {ℓ} :
      {A : Type ℓ} → (Discovered → Result A) → Api → Result Api × W → Result A × Server
  retried f api (err e, w) = (err e, (api, w))
  retried f api (ok new, w) = (f (mapper new), (new, w))

  abbrev pub or_again {ℓ} :
      {A : Type ℓ} → (Discovered → Result A) → Server → Result A → Result A × Server
  or_again f (api, w) (ok a) = (ok a, (api, w))
  or_again f (api, w) (err e) = retried f api (discover w)

  -- withClient: an error is asked for once more, of a new discovery, unless the first was new.
  unfoldable pub with_client {ℓ} :
      {A : Type ℓ} → (Discovered → Result A) → Server → Result A × Server
  with_client f (api, w) =
      if is_empty api then retried f api (discover w) else or_again f (api, w) (f (mapper api))

  abbrev pub cached_as {ℓ κ} :
      {K : Type ℓ} {A : Type κ} ⦃e : HasEq K⦄
      → K
      → Map K A
      → Result A × Server
      → (Result A × Map K A) × Server
  cached_as k cache (err e, s) = ((err e, cache), s)
  cached_as k cache (ok a, s) = ((ok a, insert k a cache), s)

  abbrev pub or_cached {ℓ κ} :
      {K : Type ℓ} {A : Type κ} ⦃e : HasEq K⦄
      → K
      → Map K A
      → (Discovered → Result A)
      → Server
      → Option A
      → (Result A × Map K A) × Server
  or_cached k cache f s (some a) = ((ok a, cache), s)
  or_cached k cache f s none = cached_as k cache (with_client f s)

  -- What KindsFor, ResourcesFor, RESTMappings and ResourceSingularizer do, each on its own cache
  unfoldable pub lookup_or_ask {ℓ κ} :
      {K : Type ℓ} {A : Type κ} ⦃e : HasEq K⦄
      → K
      → (Discovered → Result A)
      → Map K A
      → Server
      → (Result A × Map K A) × Server
  unfolding with_client lookup insert
  lookup_or_ask k f cache s = or_cached k cache f s (lookup k cache)

  -- KindsFor, ResourcesFor and ResourceSingularizer
  unfoldable pub kinds_for :
      Resource
      → Map Resource (List GroupVersionKind)
      → Server
      → (Result (List GroupVersionKind) × Map Resource (List GroupVersionKind)) × Server
  unfolding lookup_or_ask
  kinds_for resource = lookup_or_ask resource (λ m. m.kinds_for resource)

  unfoldable pub resources_for :
      Resource
      → Map Resource (List Resource)
      → Server
      → (Result (List Resource) × Map Resource (List Resource)) × Server
  unfolding lookup_or_ask
  resources_for input = lookup_or_ask input (λ m. m.resources_for input)

  unfoldable pub resource_singularizer :
      Text → Map Text Text → Server → (Result Text × Map Text Text) × Server
  unfolding lookup_or_ask
  resource_singularizer resource = lookup_or_ask resource (λ m. m.singularizer resource)

  -- RESTMappings: the versions are part of the key, but not of the question.
  unfoldable pub rest_mappings :
      GroupKind
      → List Text
      → Map GkKey (List RestMapping)
      → Server
      → (Result (List RestMapping) × Map GkKey (List RestMapping)) × Server
  unfolding lookup_or_ask joined_versions
  rest_mappings gk versions =
      lookup_or_ask (record { versions = joined_versions versions; gk = gk }) (λ m. m.mappings gk)

  -- KindFor, ResourceFor and RESTMapping
  unfoldable pub kind_for :
      Resource
      → Map Resource (List GroupVersionKind)
      → Server
      → (Option (Result GroupVersionKind) × Map Resource (List GroupVersionKind)) × Server
  unfolding kinds_for
  kind_for resource cache s =
      let ((r, cache'), s') = kinds_for resource cache s in ((kind_or_empty r, cache'), s')

  unfoldable pub resource_for :
      Resource
      → Map Resource (List Resource)
      → Server
      → (Option (Result Resource) × Map Resource (List Resource)) × Server
  unfolding resources_for
  resource_for input cache s =
      let ((r, cache'), s') = resources_for input cache s in ((first_of r, cache'), s')

  unfoldable pub rest_mapping :
      GroupKind
      → List Text
      → Map GkKey (List RestMapping)
      → Server
      → (Option (Result RestMapping) × Map GkKey (List RestMapping)) × Server
  unfolding rest_mappings
  rest_mapping gk versions cache s =
      let ((r, cache'), s') = rest_mappings gk versions cache s in ((first_of r, cache'), s')
