-- ===== src/Multicluster/Worker.antt =====
-- The worker's loop until its queue is empty.
use limiter.Prelude.{
  ℕ, zero, suc, ◌+◌, ◌-◌, ◌*◌, ◌≤◌, ◌<◌, ◌≡◌, refl, ap, subst, sym, ◌∙◌, List, [], ◌∷◌, ◌++◌, Bool,
  true, Option, ◌⊎◌, inl, inr, arith, length,
}
use limiter.Text.{Text}
use limiter.GoMap.{GoMap, Runtime}
use limiter.Multicluster.{
  KubeClients, Controller, Subscribers, Queue, max_retries, finish, process_item, process_next_item,
  run_worker,
}
use limiter.Multicluster.Retries.{IsCounting, IsBounded, process_next_item-IsBounded}
use limiter.Multicluster.Pending.{
  Once, IsWaiting, tries, tries-append, tries-everywhere, tries-bound, Once-middle, finish-Progress,
  left, Lacks,
}

module _ (k : KubeClients) (subs : Subscribers k) (q : Queue) (counting : IsCounting q)
    (waiting : IsWaiting q) (go : Runtime) where
  -- A round of the loop with something pending goes on, and fewer tries are left after it.
  abbrev Round : q.State → Bool × q.State × Controller k → Type 0
  Round s r =
      (r.0 ≡ true)
      × (left k subs q counting waiting r.1 < left k subs q counting waiting s)
      × Once (waiting.pending r.1)

  module _ (s : q.State) (before after : List Text) (x : Text)
      (all : waiting.pending s ≡ before ++ x ∷ after)
      (rest : waiting.pending (q.next s).1 ≡ before ++ after) where
    -- Taking an item takes its tries away.
    left-next :
        left k subs q counting waiting s
        ≡ (4 - q.num_requeues s x) + left k subs q counting waiting (q.next s).1
    left-next =
        let n = q.num_requeues s in
        let here : left k subs q counting waiting s ≡ tries n (before ++ x ∷ after) =
          ap (tries n) all in
        let there : left k subs q counting waiting (q.next s).1 ≡ tries n (before ++ after) =
          tries-everywhere n (q.num_requeues (q.next s).1) (waiting.pending (q.next s).1)
            (counting.taken s)
          ∙ ap (tries n) rest in
        omega (arith, here, there, tries-append n before (x ∷ after), tries-append n before after)

  left-done :
      (s : q.State) (x : Text)
      → left k subs q counting waiting (q.done s x) ≡ left k subs q counting waiting s
  left-done s x =
      tries-everywhere (q.num_requeues s) (q.num_requeues (q.done s x))
        (waiting.pending (q.done s x)) (counting.finished s x)
      ∙ ap (tries (q.num_requeues s)) (waiting.done_kept s x)

  round :
      (by_key : Text → Option (Option (GoMap Text))) (s : q.State) (c : Controller k) (z : Text)
      (zs : List Text)
      → waiting.pending s ≡ z ∷ zs
      → IsBounded k subs q counting s
      → Once (waiting.pending s)
      → Round s (process_next_item k subs q go by_key s c)
  unfolding process_next_item
  round by_key s c z zs h few once =
      let (before, x, after, e, rest, taken) = waiting.handed_out s z zs h in
      let t = (q.next s).1 in
      let (lacks, others) = Once-middle before after x (subst Once e once) in
      let failed_once = (process_item k subs go c x (by_key x)).1 in
      let t' = finish k subs q t x failed_once in
      let (less, once') =
        finish-Progress k subs q counting waiting t x
          (subst (λ n. n ≤ max_retries) (sym (counting.taken s x)) (few x))
          (subst (Lacks x) (sym rest) lacks) (subst Once (sym rest) others) failed_once in
      rw (taken, process_next_item)
        (
          refl,
          omega
              (arith, less, left-next s before after x e rest, left-done t' x, counting.taken s x),
          subst Once (sym (waiting.done_kept t' x)) once',
        )

  -- Some number of rounds within the tries that are left empties the queue.
  abbrev pub Emptied :
      (ℕ → Text → Option (Option (GoMap Text))) → ℕ → q.State → Controller k → ℕ → Type 0
  Emptied by_key time s c bound =
      (n : ℕ) × (n ≤ bound)
      × ((run_worker k subs q go by_key n time s c).0 ≡ true)
      × (waiting.pending (run_worker k subs q go by_key n time s c).1 ≡ [])

  List-cases : (l : List Text) → (l ≡ []) ⊎ ((z : Text) × (zs : List Text) × (l ≡ z ∷ zs))
  List-cases [] = inl refl
  List-cases (z ∷ zs) = inr (z, zs, refl)

  run_worker-suc :
      (by_key : ℕ → Text → Option (Option (GoMap Text))) (n time : ℕ) (s : q.State)
      (c : Controller k)
      → (process_next_item k subs q go (by_key time) s c).0 ≡ true
      → run_worker k subs q go by_key (suc n) time s c
        ≡ run_worker k subs q go by_key n
            (suc time)
            (process_next_item k subs q go (by_key time) s c).1
            (process_next_item k subs q go (by_key time) s c).2
  unfolding run_worker
  run_worker-suc by_key n time s c e = rw e refl

  within :
      (by_key : ℕ → Text → Option (Option (GoMap Text))) (fuel time : ℕ) (s : q.State)
      (c : Controller k)
      → left k subs q counting waiting s ≤ fuel
      → IsBounded k subs q counting s
      → Once (waiting.pending s)
      → Emptied by_key time s c fuel
  unfolding run_worker
  within by_key zero time s c enough few once = elim (List-cases (waiting.pending s)) [
    | inl e ↦ (0, omega arith, refl, e)
    | inr (z, zs, e) ↦
        let (goes_on, less, once') = round (by_key time) s c z zs e few once in
        absurd (omega (arith, less, enough))
  ]
  within by_key (suc fuel) time s c enough few once = elim (List-cases (waiting.pending s)) [
    | inl e ↦ (0, omega arith, refl, e)
    | inr (z, zs, e) ↦
        let r = process_next_item k subs q go (by_key time) s c in
        let (goes_on, less, once') = round (by_key time) s c z zs e few once in
        let (n, small, runs, done) =
          within by_key fuel (suc time) r.1 r.2 (omega (arith, less, enough))
            (process_next_item-IsBounded k subs q counting go (by_key time) s c few) once' in
        let same = run_worker-suc by_key n time s c goes_on in
        (
          suc n,
          omega (arith, small),
          ap (λ x. x.0) same ∙ runs,
          ap (λ x. waiting.pending x.1) same ∙ done,
        )
  ]

  -- If no pending item stands twice and none has been added again more than three times, then the
  -- worker that is given nothing new empties its queue within four rounds for each pending item,
  -- and goes on, whichever rounds fail and however the informer's index changes between them.
  pub run_worker-empties :
      (by_key : ℕ → Text → Option (Option (GoMap Text))) (time : ℕ) (s : q.State) (c : Controller k)
      → IsBounded k subs q counting s
      → Once (waiting.pending s)
      → Emptied by_key time s c (4 * length (waiting.pending s))
  run_worker-empties by_key time s c few once =
      within by_key (4 * length (waiting.pending s)) time s c
        (tries-bound (q.num_requeues s) (waiting.pending s)) few once
