-- ===== src/Multicluster/Retries.antt =====
-- How often a secret is tried again.
use limiter.Prelude.{
  ◌≡◌, ap, zero, suc, ◌≤◌, ◌<◌, ltb, Bool, true, false, Option, if◌then◌else◌, Bool-cases,
  Option-cases, inl, inr, arith,
}
use limiter.Text.{Text, ◌==◌, eq_iff}
use limiter.GoMap.{GoMap, Runtime}
use limiter.Multicluster.{
  KubeClients, Controller, Subscribers, Queue, max_retries, finish, process_item, process_next_item,
}

-- What the controller relies on: the queue counts how often an item was added again since it was
-- forgotten, and nothing else changes the count.
pub record IsCounting (q : Queue) : Type 0 where
  pub added :
      (s : q.State) (x y : Text)
      → q.num_requeues (q.add_rate_limited s x) y
        ≡ (if x == y then suc (q.num_requeues s y) else q.num_requeues s y)
  pub forgotten :
      (s : q.State) (x y : Text)
      → q.num_requeues (q.forget s x) y ≡ (if x == y then zero else q.num_requeues s y)
  pub enqueued : (s : q.State) (x y : Text) → q.num_requeues (q.add s x) y ≡ q.num_requeues s y
  pub taken : (s : q.State) (y : Text) → q.num_requeues (q.next s).1 y ≡ q.num_requeues s y
  pub finished : (s : q.State) (x y : Text) → q.num_requeues (q.done s x) y ≡ q.num_requeues s y

module _ (k : KubeClients) (subs : Subscribers k) (q : Queue) (counting : IsCounting q) where
  abbrev pub IsBounded : q.State → Type 0
  IsBounded s = (y : Text) → q.num_requeues s y ≤ max_retries

  forget-IsBounded : (s : q.State) (x : Text) → IsBounded s → IsBounded (q.forget s x)
  forget-IsBounded s x h y = elim (Bool-cases (x == y)) [
    | inl e ↦ rw (counting.forgotten s x y, e) (omega arith)
    | inr e ↦ rw (counting.forgotten s x y, e) (h y)
  ]

  add-IsBounded :
      (s : q.State) (x : Text)
      → ltb (q.num_requeues s x) max_retries ≡ true
      → IsBounded s
      → IsBounded (q.add_rate_limited s x)
  add-IsBounded s x few h y = elim (Bool-cases (x == y)) [
    | inl e ↦
        (let same : q.num_requeues s x ≡ q.num_requeues s y =
            ap (q.num_requeues s) ((eq_iff x y).0 e) in
          let less : q.num_requeues s x < max_retries = ground arith in
          rw (counting.added s x y, e) (omega arith))
    | inr e ↦ rw (counting.added s x y, e) (h y)
  ]

  finish-IsBounded :
      (s : q.State) (x : Text) (failed_once : Bool)
      → IsBounded s
      → IsBounded (finish k subs q s x failed_once)
  unfolding finish
  finish-IsBounded s x false h = forget-IsBounded s x h
  finish-IsBounded s x true h = elim (Bool-cases (ltb (q.num_requeues s x) max_retries)) [
    | inl e ↦ rw e (add-IsBounded s x e h)
    | inr e ↦ rw e (forget-IsBounded s x h)
  ]

  -- If no item of the queue has been added again more than three times since it was forgotten, then
  -- this is so after the next item has been processed, whether or not that failed.
  pub process_next_item-IsBounded :
      (go : Runtime) (by_key : Text → Option (Option (GoMap Text))) (s : q.State) (c : Controller k)
      → IsBounded s
      → IsBounded (process_next_item k subs q go by_key s c).1
  unfolding process_next_item
  process_next_item-IsBounded go by_key s c h =
      let rest : IsBounded (q.next s).1 = λ y. rw (counting.taken s y) (h y) in
      elim (Option-cases (q.next s).0) [
        | inl e ↦ rw (e, process_next_item) rest
        | inr (x, e) ↦
            let failed_once = (process_item k subs go c x (by_key x)).1 in
            rw (e, process_next_item)
              (λ y.
                rw (counting.finished (finish k subs q (q.next s).1 x failed_once) x y)
                  (finish-IsBounded (q.next s).1 x failed_once rest y))
      ]
