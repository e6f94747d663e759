-- ===== src/Runtime/Controller/Order.antt =====
-- pkg/runtime/controller.go: what the calls on the work queues leave on each of them.
use nah.Prelude.{
  Text, text_eq, nat_eq, ◌==◌, if◌then◌else◌, length, map, List, [], ◌∷◌, ◌++◌, none, some, ℕ, zero,
  suc, ◌<◌, ◌≡◌, refl, arith, ap, sym, ==_self, Option-cases, ◌∙◌, inl, inr,
}
use mathlib.Core.List.{append_assoc, append-nil, map-append}
use nah.Runtime.Controller.{
  QueueCall, add, add_after, Queue, StartKey, Splitter, push_at, start_call, push_starts,
}

-- AddAfter with no delay is Add.
abbrev pub effective : QueueCall → QueueCall
effective (add_after key after) = if after == 0 then add key else add_after key after
effective (add key) = add key
effective (QueueCall.add_rate_limited key) = QueueCall.add_rate_limited key
effective (QueueCall.forget item) = QueueCall.forget item
effective (QueueCall.finished item) = QueueCall.finished item

-- The calls on the queue at an index, with their effect.
abbrev pub calls_at : ℕ → List Queue → List QueueCall
calls_at i [] = []
calls_at zero (q ∷ qs) = map effective q
calls_at (suc i) (q ∷ qs) = calls_at i qs

some-injective {ℓ} : {A : Type ℓ} {a b : A} → some a ≡ some b → a ≡ b
some-injective h = cc

absurd_option {ℓ κ} : {A : Type ℓ} {P : Type κ} {a : A} → none ≡ some a → P
absurd_option h = absurd (cc)

pub push_at-some :
    (i : ℕ) (call : QueueCall) (qs : List Queue)
    → i < length qs
    → (qs' : List Queue) × (push_at i call qs ≡ some qs') × (length qs' ≡ length qs)
unfolding push_at
push_at-some i call [] h = elim h [ ]
push_at-some zero call (q ∷ qs) h = ((q ++ call ∷ []) ∷ qs, refl, refl)
push_at-some (suc i) call (q ∷ qs) h =
    let (rest, p, l) = push_at-some i call qs (omega arith) in
    (q ∷ rest, rw p refl, omega (arith, l))

-- A call is seen on its queue, behind the others, and nowhere else.
pub calls_at-push_at :
    (i j : ℕ) (call : QueueCall) (qs qs' : List Queue)
    → push_at i call qs ≡ some qs'
    → calls_at j qs' ≡ calls_at j qs ++ (if i == j then effective call ∷ [] else [])
unfolding push_at
calls_at-push_at i j call [] qs' h = cc
calls_at-push_at zero zero call (q ∷ qs) qs' h =
    ap (calls_at 0) (sym (some-injective h))
    ∙ map-append effective q (call ∷ [])
    ∙ rw (==_self zero) refl
calls_at-push_at zero (suc j) call (q ∷ qs) qs' h =
    ap (calls_at (suc j)) (sym (some-injective h))
    ∙ sym (ground (arith, append-nil (calls_at j qs)))
calls_at-push_at (suc i) zero call (q ∷ qs) qs' h = elim (Option-cases (push_at i call qs)) [
  | inl p ↦ absurd_option (rw p at h)
  | inr (rest, p) ↦
      ap (calls_at 0) (sym (some-injective (rw p at h)))
      ∙ sym (ground (arith, append-nil (map effective q)))
]
calls_at-push_at (suc i) (suc j) call (q ∷ qs) qs' h = elim (Option-cases (push_at i call qs)) [
  | inl p ↦ absurd_option (rw p at h)
  | inr (rest, p) ↦
      ap (calls_at (suc j)) (sym (some-injective (rw p at h)))
      ∙ calls_at-push_at i j call qs rest p
      ∙ ground arith
]

module _ (splitter : Splitter) where
  -- The calls that starting keys make on one queue.
  unfoldable pub sent : ℕ → List StartKey → List QueueCall
  sent j [] = []
  sent j (s ∷ ss) =
      (if splitter.split s.key == j then start_call splitter s ∷ [] else []) ++ sent j ss

  pub sent-append : (j : ℕ) (xs ys : List StartKey) → sent j (xs ++ ys) ≡ sent j xs ++ sent j ys
  unfolding sent
  sent-append j [] ys = refl
  sent-append j (s ∷ xs) ys =
      ap (λ l. (if splitter.split s.key == j then start_call splitter s ∷ [] else []) ++ l)
        (sent-append j xs ys)
      ∙ sym (
          append_assoc (if splitter.split s.key == j then start_call splitter s ∷ [] else [])
            (sent j xs) (sent j ys))

  pub effective-start_call :
      (s : StartKey) → effective (start_call splitter s) ≡ start_call splitter s
  effective-start_call s = ground arith

  -- Every key has a queue.
  abbrev pub Covers : ℕ → Type 0
  Covers n = (key : Text) → splitter.split key < n

  pub push_starts-lem :
      (ss : List StartKey) (qs : List Queue)
      → Covers (length qs)
      → (qs' : List Queue) × (push_starts splitter ss qs ≡ some qs')
        × (length qs' ≡ length qs)
        × ((j : ℕ) → calls_at j qs' ≡ calls_at j qs ++ sent j ss)
  unfolding push_starts sent
  push_starts-lem [] qs covers = (qs, refl, refl, λ j. sym (append-nil (calls_at j qs)))
  push_starts-lem (s ∷ ss) qs covers =
      let (mid, p, l) =
        push_at-some (splitter.split s.key) (start_call splitter s) qs (covers s.key) in
      let (qs', q, k, calls) = push_starts-lem ss mid (λ key. rw l (covers key)) in
      (
        qs',
        rw (p, q) refl,
        k ∙ l,
        λ j.
            calls j
            ∙ ap (λ c. c ++ sent j ss)
                (calls_at-push_at (splitter.split s.key) j (start_call splitter s) qs mid p
                  ∙ rw (effective-start_call s) refl)
            ∙ append_assoc (calls_at j qs)
                (if splitter.split s.key == j then start_call splitter s ∷ [] else []) (sent j ss),
      )
