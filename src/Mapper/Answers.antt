-- ===== src/Mapper/Answers.antt =====
-- pkg/mapper/mapper.go: the shared caches keep to one answer.
use nah.Prelude.{
  Map, lookup, insert, lookup-insert, HasEq, Option, none, some, Bool, ◌≡◌, refl, ==_self, ◌∙◌,
}
use nah.Error.{Result, ok, err}
use nah.Mapper.{Discovered, Server, with_client, cached_as, or_cached, lookup_or_ask}

module _ {Api W : Type 0} (is_empty : Api → Bool) (discover : W → Result Api × W)
    (mapper : Api → Discovered) where
  cached_as-holds :
      {K A : Type 0} ⦃e : HasEq K⦄ (k : K) (cache cache' : Map K A)
      (r : Result A × Server is_empty discover mapper) (a : A)
      (s' : Server is_empty discover mapper)
      → cached_as is_empty discover mapper k cache r ≡ ((ok a, cache'), s')
      → lookup k cache' ≡ some a
  cached_as-holds k cache cache' (err e, s) a s' h = cc
  cached_as-holds k cache cache' (ok b, s) a s' h =
      let held : lookup k (insert k b cache) ≡ some b =
        lookup-insert k k b cache ∙ rw (==_self k) refl in
      let same : (b ≡ a) × (insert k b cache ≡ cache') = (cc, cc) in cc

  or_cached-holds :
      {K A : Type 0} ⦃e : HasEq K⦄ (k : K) (f : Discovered → Result A) (cache cache' : Map K A)
      (s s' : Server is_empty discover mapper) (found : Option A) (a : A)
      → lookup k cache ≡ found
      → or_cached is_empty discover mapper k cache f s found ≡ ((ok a, cache'), s')
      → lookup k cache' ≡ some a
  or_cached-holds k f cache cache' s s' (some b) a p h = cc
  or_cached-holds k f cache cache' s s' none a p h =
      cached_as-holds k cache cache' (with_client is_empty discover mapper f s) a s' h

  -- A lookup that was answered is answered in the same way from then on, by the cache as it is
  -- after it, without a question to the server and whatever that would answer by then.
  pub lookup_or_ask-again :
      {K A : Type 0} ⦃e : HasEq K⦄ (k : K) (f later : Discovered → Result A)
      (cache cache' : Map K A) (s s' now : Server is_empty discover mapper) (a : A)
      → lookup_or_ask is_empty discover mapper k f cache s ≡ ((ok a, cache'), s')
      → lookup_or_ask is_empty discover mapper k later cache' now ≡ ((ok a, cache'), now)
  unfolding lookup_or_ask
  lookup_or_ask-again k f later cache cache' s s' now a h =
      rw (or_cached-holds k f cache cache' s s' (lookup k cache) a refl h) refl
