-- ===== src/Runtime/SharedHandler/Ids.antt =====
-- pkg/runtime/sharedhandler.go: the end of a registration removes its own handler and no other.
use nah.Prelude.{
  Text, text_eq, nat_eq, ◌==◌, select, List, [], ◌∷◌, ◌++◌, false, not, ℕ, ◌+◌, ◌≤◌, ◌<◌, ◌^◌, ◌≡◌,
  refl, arith, ap, subst, sym, ◌∙◌, contains, IsNodup, All, contains-append,
}
use nah.Runtime.SharedHandler.{
  HandlerEntry, SharedHandler, OnChange, next_id, register, unregister, delete_id,
}

abbrev pub ids : {W : Type 0} → List (HandlerEntry W) → List ℕ
ids [] = []
ids (e ∷ es) = e.id ∷ ids es

fresh : (c i : ℕ) (ns : List ℕ) → All (λ n. n ≤ c) ns → c < i → contains ns i ≡ false
fresh c i [] h l = refl
fresh c i (n ∷ ns) h l = ground (arith, fresh c i ns h.1 l)

weaken : (c d : ℕ) (ns : List ℕ) → c ≤ d → All (λ n. n ≤ c) ns → All (λ n. n ≤ d) ns
weaken c d [] l h = tt
weaken c d (n ∷ ns) l h = (omega (arith, h.0), weaken c d ns l h.1)

snoc-IsNodup : (i : ℕ) (ns : List ℕ) → IsNodup ns → contains ns i ≡ false → IsNodup (ns ++ i ∷ [])
snoc-IsNodup i [] h f = (refl, tt)
snoc-IsNodup i (n ∷ ns) h f = ground (arith, contains-append ns (i ∷ []) n, snoc-IsNodup i ns h.1)

snoc-All : (c i : ℕ) (ns : List ℕ) → i ≤ c → All (λ n. n ≤ c) ns → All (λ n. n ≤ c) (ns ++ i ∷ [])
snoc-All c i [] l h = (l, tt)
snoc-All c i (n ∷ ns) l h = (h.0, snoc-All c i ns l h.1)

module _ {W : Type 0} where
  -- Registrations and their ends, as long as the counter is below its limit.
  pub data Step (h : SharedHandler W) : SharedHandler W → Type 0 where
    registered :
        (name : Text) (f : OnChange W) → h.id_counter + 1 < 2 ^ 63 → Step h (register name f h)
    ended : (id : ℕ) → Step h (unregister id h)

  pub data Reachable : SharedHandler W → Type 0 where
    start : Reachable (record { id_counter = 0; handlers = [] })
    next : (h h' : SharedHandler W) → Reachable h → Step h h' → Reachable h'

  -- No id is used twice, and none is above the counter.
  pub record IsNumbered (h : SharedHandler W) : Type 0 where
    pub distinct : IsNodup (ids h.handlers)
    pub below : All (λ i. i ≤ h.id_counter) (ids h.handlers)

  ids-append : (xs ys : List (HandlerEntry W)) → ids (xs ++ ys) ≡ ids xs ++ ids ys
  ids-append [] ys = refl
  ids-append (x ∷ xs) ys = ap (λ l. x.id ∷ l) (ids-append xs ys)

  register-IsNumbered :
      (name : Text) (f : OnChange W) (h : SharedHandler W)
      → h.id_counter + 1 < 2 ^ 63
      → IsNumbered h
      → IsNumbered (register name f h)
  unfolding register
  register-IsNumbered name f h l v =
      let c = h.id_counter in
      let i : next_id c ≡ c + 1 = omega arith in
      let entry : HandlerEntry W = record { id = next_id c; name = name; handler = f } in
      let numbers : ids (h.handlers ++ entry ∷ []) ≡ ids h.handlers ++ (c + 1) ∷ [] =
        ids-append h.handlers (entry ∷ []) ∙ ap (λ n. ids h.handlers ++ n ∷ []) i in
      record {
        distinct = subst IsNodup (sym numbers) (
            snoc-IsNodup (c + 1) (ids h.handlers) v.distinct
              (fresh c (c + 1) (ids h.handlers) v.below (omega arith)));
        below =
            subst (λ ns. All (λ n. n ≤ next_id c) ns) (sym numbers)
              (rw i (
                snoc-All (c + 1) (c + 1) (ids h.handlers) (omega arith)
                  (weaken c (c + 1) (ids h.handlers) (omega arith) v.below)));
      }

  contains-delete_id :
      (id i : ℕ) (es : List (HandlerEntry W))
      → contains (ids es) i ≡ false
      → contains (ids (delete_id id es)) i ≡ false
  unfolding delete_id
  contains-delete_id id i [] h = refl
  contains-delete_id id i (e ∷ es) h = ground (arith, contains-delete_id id i es)

  delete_id-IsNodup :
      (id : ℕ) (es : List (HandlerEntry W)) → IsNodup (ids es) → IsNodup (ids (delete_id id es))
  unfolding delete_id
  delete_id-IsNodup id [] h = tt
  delete_id-IsNodup id (e ∷ es) h =
      ground (arith, contains-delete_id id e.id es h.0, delete_id-IsNodup id es h.1)

  delete_id-All :
      (c id : ℕ) (es : List (HandlerEntry W))
      → All (λ n. n ≤ c) (ids es)
      → All (λ n. n ≤ c) (ids (delete_id id es))
  unfolding delete_id
  delete_id-All c id [] h = tt
  delete_id-All c id (e ∷ es) h = ground (arith, delete_id-All c id es h.1)

  reachable-IsNumbered : {h : SharedHandler W} → Reachable h → IsNumbered h
  unfolding unregister
  reachable-IsNumbered start = record { distinct = tt; below = tt }
  reachable-IsNumbered (next h h' r (registered name f l)) =
      register-IsNumbered name f h l (reachable-IsNumbered r)
  reachable-IsNumbered (next h h' r (ended id)) =
      let v = reachable-IsNumbered r in
      record {
        distinct = delete_id-IsNodup id h.handlers v.distinct;
        below = delete_id-All h.id_counter id h.handlers v.below;
      }

  select-absent :
      (id : ℕ) (es : List (HandlerEntry W))
      → contains (ids es) id ≡ false
      → select (λ e. not (e.id == id)) es ≡ es
  select-absent id [] h = refl
  select-absent id (e ∷ es) h = ground (arith, select-absent id es)

  delete_id-select :
      (id : ℕ) (es : List (HandlerEntry W))
      → IsNodup (ids es)
      → delete_id id es ≡ select (λ e. not (e.id == id)) es
  unfolding delete_id
  delete_id-select id [] h = refl
  delete_id-select id (e ∷ es) h = ground (arith, delete_id-select id es h.1, select-absent id es)

  -- As long as the counter is below its limit, the end of a registration takes away exactly the
  -- handlers with its id, of which there is at most one, and keeps the others in their order.
  pub unregister_lem :
      (id : ℕ) {h : SharedHandler W}
      → Reachable h
      → ((unregister id h).handlers ≡ select (λ e. not (e.id == id)) h.handlers)
        × IsNodup (ids h.handlers)
  unfolding unregister
  unregister_lem id {h} r =
      let v = reachable-IsNumbered r in (delete_id-select id h.handlers v.distinct, v.distinct)
