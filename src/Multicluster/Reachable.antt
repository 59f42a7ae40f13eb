-- ===== src/Multicluster/Reachable.antt =====
-- The multicluster controller in operation: events of the informer and rounds of the worker, in any
-- order.
use limiter.Prelude.{
  ◌≡◌, List, [], ◌∷◌, Bool, true, false, Option, none, some, if◌then◌else◌, Option-cases, inl, inr,
  arith,
}
use limiter.Text.{Text, ◌==◌}
use limiter.GoMap.{GoMap, delete, Runtime, IsDistinct}
use limiter.GoMap.Laws.{delete-IsDistinct}
use limiter.Multicluster.{
  KubeClients, Controller, Subscribers, Queue, notify, new, on_event, delete_clusters,
  delete_member_cluster, process_item, process_next_item,
}
use limiter.Multicluster.Members.{add_member_cluster-Added}
use limiter.Multicluster.Retries.{IsCounting, IsBounded, process_next_item-IsBounded}

module _ (k : KubeClients) (subs : Subscribers k) (go : Runtime) where
  delete_clusters-IsDistinct :
      (c : Controller k) (secret_name : Text) (es : List (Text × Text))
      → IsDistinct c.cs
      → IsDistinct (delete_clusters k subs c secret_name es).cs
  unfolding delete_clusters
  delete_clusters-IsDistinct c secret_name [] d = d
  delete_clusters-IsDistinct c secret_name ((j, s) ∷ es) d =
      let removed : Controller k = record {
        cs = delete c.cs j;
        world = notify k subs.un_subscriber j c.world;
      } in
      delete_clusters-IsDistinct (if s == secret_name then removed else c) secret_name es
        (either (s == secret_name) removed c (delete-IsDistinct c.cs j d) d)
    where
      either :
          (b : Bool) (x y : Controller k)
          → IsDistinct x.cs
          → IsDistinct y.cs
          → IsDistinct (if b then x else y).cs
      either true x y dx dy = dx
      either false x y dx dy = dy

  process_item-IsDistinct :
      (c : Controller k) (secret_name : Text) (o : Option (Option (GoMap Text)))
      → IsDistinct c.cs
      → IsDistinct (process_item k subs go c secret_name o).0.cs
  unfolding process_item delete_member_cluster
  process_item-IsDistinct c secret_name none d = d
  process_item-IsDistinct c secret_name (some (some data_of)) d =
      (add_member_cluster-Added k subs go c secret_name data_of d).1
  process_item-IsDistinct c secret_name (some none) d =
      delete_clusters-IsDistinct c secret_name (go.range Text c.cs) d

  module _ (q : Queue) where
    pub record Operation : Type 0 where
      pub queue : q.State
      pub controller : Controller k

    abbrev pub after_event : Operation → Option Text → Operation
    after_event t key = record t { queue = on_event k subs q t.queue key }

    abbrev pub after_round : Operation → (Text → Option (Option (GoMap Text))) → Operation
    after_round t by_key =
        let (goes_on, queue, c) = process_next_item k subs q go by_key t.queue t.controller in
        record { queue = queue; controller = c }

    pub data Step (t : Operation) : Operation → Type 0 where
      event : (key : Option Text) → Step t (after_event t key)
      round : (by_key : Text → Option (Option (GoMap Text))) → Step t (after_round t by_key)

    pub data Reach (t : Operation) : Operation → Type 0 where
      here : Reach t t
      later : {u v : Operation} → Reach t u → Step u v → Reach t v

    module _ (counting : IsCounting q) where
      abbrev pub IsOrderly : Operation → Type 0
      IsOrderly t = IsDistinct t.controller.cs × IsBounded k subs q counting t.queue

      process_next_item-IsDistinct :
          (by_key : Text → Option (Option (GoMap Text))) (s : q.State) (c : Controller k)
          → IsDistinct c.cs
          → IsDistinct (process_next_item k subs q go by_key s c).2.cs
      unfolding process_next_item
      process_next_item-IsDistinct by_key s c d = elim (Option-cases (q.next s).0) [
        | inl e ↦ rw (e, process_next_item) d
        | inr (x, e) ↦ rw (e, process_next_item) (process_item-IsDistinct c x (by_key x) d)
      ]

      on_event-IsBounded :
          (s : q.State) (key : Option Text)
          → IsBounded k subs q counting s
          → IsBounded k subs q counting (on_event k subs q s key)
      unfolding on_event
      on_event-IsBounded s none h = h
      on_event-IsBounded s (some x) h = λ y. rw (counting.enqueued s x y) (h y)

      Step-IsOrderly : {t u : Operation} → Step t u → IsOrderly t → IsOrderly u
      Step-IsOrderly {t} (event key) h = (h.0, on_event-IsBounded t.queue key h.1)
      Step-IsOrderly {t} (round by_key) h = (
        process_next_item-IsDistinct by_key t.queue t.controller h.0,
        process_next_item-IsBounded k subs q counting go by_key t.queue t.controller h.1,
      )

      Reach-IsOrderly : {t u : Operation} → Reach t u → IsOrderly t → IsOrderly u
      Reach-IsOrderly here h = h
      Reach-IsOrderly (later r st) h = Step-IsOrderly st (Reach-IsOrderly r h)

      -- In every state that is reached from a new controller and a queue of which nothing has been
      -- added again, by events of the informer and rounds of the worker in any order, with any
      -- index at each round, no cluster stands twice in the table, and no item has been added again
      -- more than three times since it was forgotten.
      pub reachable-IsOrderly :
          (world : k.World) (s : q.State) (t : Operation)
          → ((y : Text) → q.num_requeues s y ≡ 0)
          → Reach (record { queue = s; controller = new k world }) t
          → IsOrderly t
      unfolding new
      reachable-IsOrderly world s t fresh r = Reach-IsOrderly r (tt, λ y. omega (arith, fresh y))
