-- ===== src/Multicluster/Pending.antt =====
-- A worker that is given nothing new comes to the end of its queue.
use limiter.Prelude.{
  ℕ, zero, suc, ◌+◌, ◌-◌, ◌*◌, ◌≤◌, ◌<◌, ◌≡◌, refl, ap, subst, sym, ◌∙◌, ltb, List, [], ◌∷◌, ◌++◌,
  Bool, true, false, some, if◌then◌else◌, Bool-cases, inl, inr, arith, All, All-map, All-append,
  length,
}
use limiter.Text.{Text, ◌==◌, eq_comm, eq_refl}
use limiter.Multicluster.{KubeClients, Subscribers, Queue, max_retries, finish}
use limiter.Multicluster.Retries.{IsCounting}

-- No item stands twice.
abbrev pub Once : List Text → Type 0
Once [] = Unit
Once (x ∷ xs) = All (λ y. (x == y) ≡ false) xs × Once xs

abbrev pub Lacks : Text → List Text → Type 0
Lacks x xs = All (λ y. (x == y) ≡ false) xs

-- What the controller relies on: the queue hands out what is pending in some order, an item that is
-- added again is pending, also while the rate limiter holds it back, and nothing else is.
pub record IsWaiting (q : Queue) : Type 0 where
  pub pending : q.State → List Text
  pub handed_out :
      (s : q.State) (z : Text) (zs : List Text)
      → pending s ≡ z ∷ zs
      → (before : List Text) × (x : Text) × (after : List Text) × (pending s ≡ before ++ x ∷ after)
        × (pending (q.next s).1 ≡ before ++ after)
        × ((q.next s).0 ≡ some x)
  pub added_last :
      (s : q.State) (x : Text)
      → All (λ y. (x == y) ≡ false) (pending s)
      → pending (q.add_rate_limited s x) ≡ pending s ++ x ∷ []
  pub forgotten_kept : (s : q.State) (x : Text) → pending (q.forget s x) ≡ pending s
  pub done_kept : (s : q.State) (x : Text) → pending (q.done s x) ≡ pending s

-- How often the items may still be tried.
abbrev pub tries : (Text → ℕ) → List Text → ℕ
tries n [] = 0
tries n (x ∷ xs) = (4 - n x) + tries n xs

pub tries-append : (n : Text → ℕ) (xs ys : List Text) → tries n (xs ++ ys) ≡ tries n xs + tries n ys
tries-append n [] ys = omega arith
tries-append n (x ∷ xs) ys = omega (arith, tries-append n xs ys)

pub tries-same :
    (n n' : Text → ℕ) (xs : List Text) → All (λ y. n' y ≡ n y) xs → tries n' xs ≡ tries n xs
tries-same n n' [] h = refl
tries-same n n' (x ∷ xs) h = rw (h.0, tries-same n n' xs h.1)

pub tries-everywhere :
    (n n' : Text → ℕ) (xs : List Text) → ((y : Text) → n' y ≡ n y) → tries n' xs ≡ tries n xs
tries-everywhere n n' [] h = refl
tries-everywhere n n' (x ∷ xs) h = rw (h x, tries-everywhere n n' xs h)

pub tries-bound : (n : Text → ℕ) (xs : List Text) → tries n xs ≤ 4 * length xs
tries-bound n [] = omega arith
tries-bound n (x ∷ xs) = omega (arith, tries-bound n xs)

All-middle :
    (P : Text → Type 0) (before after : List Text) (x : Text)
    → All P (before ++ x ∷ after)
    → P x × All P (before ++ after)
All-middle P [] after x h = h
All-middle P (y ∷ before) after x h =
    let (here, rest) = All-middle P before after x h.1 in (here, (h.0, rest))

pub Once-middle :
    (before after : List Text) (x : Text)
    → Once (before ++ x ∷ after)
    → Lacks x (before ++ after) × Once (before ++ after)
Once-middle [] after x h = h
Once-middle (y ∷ before) after x h =
    let (apart, others) = All-middle (λ z. (y == z) ≡ false) before after x h.0 in
    let (lacks, once) = Once-middle before after x h.1 in
    ((eq_comm x y ∙ apart, lacks), (others, once))

Once-last : (xs : List Text) (x : Text) → Lacks x xs → Once xs → Once (xs ++ x ∷ [])
Once-last [] x l h = (tt, tt)
Once-last (y ∷ xs) x l h = (
  All-append (λ z. (y == z) ≡ false) xs (x ∷ []) h.0 (eq_comm y x ∙ l.0, tt),
  Once-last xs x l.1 h.1,
)

module _ (k : KubeClients) (subs : Subscribers k) (q : Queue) (counting : IsCounting q)
    (waiting : IsWaiting q) where
  abbrev pub left : q.State → ℕ
  left s = tries (q.num_requeues s) (waiting.pending s)

  -- An item that was just taken, and the queue without it.
  module _ (s : q.State) (x : Text) (few : q.num_requeues s x ≤ max_retries)
      (lacks : Lacks x (waiting.pending s)) (once : Once (waiting.pending s)) where
    abbrev pub Progress : q.State → Type 0
    Progress s' = (left s' < (4 - q.num_requeues s x) + left s) × Once (waiting.pending s')

    counts_apart :
        (n' : Text → ℕ) (f : ℕ → ℕ)
        → ((y : Text) → n' y ≡ (if x == y then f (q.num_requeues s y) else q.num_requeues s y))
        → All (λ y. n' y ≡ q.num_requeues s y) (waiting.pending s)
    counts_apart n' f h = All-map _ (λ y e. h y ∙ rw e refl) (waiting.pending s) lacks

    forget-Progress : Progress (q.forget s x)
    forget-Progress =
        let kept = waiting.forgotten_kept s x in
        let same =
          tries-same (q.num_requeues s) (q.num_requeues (q.forget s x)) (waiting.pending s)
            (counts_apart (q.num_requeues (q.forget s x)) (λ _. zero) (counting.forgotten s x)) in
        let here : left (q.forget s x) ≡ left s =
          ap (tries (q.num_requeues (q.forget s x))) kept ∙ same in
        (omega (arith, here, few), subst Once (sym kept) once)

    add-Progress : Progress (q.add_rate_limited s x)
    add-Progress =
        let n' = q.num_requeues (q.add_rate_limited s x) in
        let kept = waiting.added_last s x lacks in
        let same =
          tries-same (q.num_requeues s) n' (waiting.pending s)
            (counts_apart n' suc (counting.added s x)) in
        let again : n' x ≡ suc (q.num_requeues s x) = counting.added s x x ∙ rw (eq_refl x) refl in
        let here : left (q.add_rate_limited s x)
            ≡ tries n' (waiting.pending s) + tries n' (x ∷ []) =
          ap (tries n') kept ∙ tries-append n' (waiting.pending s) (x ∷ []) in
        (
          omega (arith, here, same, again, few),
          subst Once (sym kept) (Once-last (waiting.pending s) x lacks once),
        )

    pub finish-Progress : (failed_once : Bool) → Progress (finish k subs q s x failed_once)
    unfolding finish
    finish-Progress false = forget-Progress
    finish-Progress true = elim (Bool-cases (ltb (q.num_requeues s x) max_retries)) [
      | inl e ↦ rw e add-Progress
      | inr e ↦ rw e forget-Progress
    ]
