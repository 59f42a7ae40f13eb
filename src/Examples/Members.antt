-- ===== src/Examples/Members.antt =====
-- The theorems on member clusters at a concrete table.
use limiter.Prelude.{
  ◌≤◌, ℕ, zero, suc, arith, if◌then◌else◌, List, [], ◌∷◌, ◌++◌, ◌≡◌, refl, true, none, some,
}
use limiter.Text.{Text, text, ◌==◌}
use limiter.GoMap.{GoMap, get, IsDistinct}
use limiter.GoMap.Range.{in_order}
use limiter.Multicluster.{
  KubeClients, Controller, Subscribers, Queue, add_member_cluster, delete_member_cluster,
  process_next_item,
}
use limiter.Multicluster.Members.{
  without, Added, delete_member_cluster-without, add_member_cluster-Added,
}
use limiter.Multicluster.{new}
use limiter.Multicluster.Pending.{Once, IsWaiting}
use limiter.Multicluster.Worker.{Emptied, run_worker-empties}
use limiter.Multicluster.Reachable.{
  Operation, after_event, after_round, event, round, here, later, IsOrderly, reachable-IsOrderly,
}
use limiter.Multicluster.Retries.{IsCounting, process_next_item-IsBounded}

-- A configuration and its client are the bytes; the world is what the subscribers were told.
abbrev clients : KubeClients
clients = record {
  Config = Text;
  Client = Text;
  World = List Text;
  load = λ bytes. some bytes;
  is_valid = λ config. true;
  new_client = λ config. some config;
}

abbrev subscribers : Subscribers clients
subscribers = record {
  subscriber = (λ client told. client ∷ told) ∷ [];
  un_subscriber = (λ id told. id ∷ told) ∷ [];
}

abbrev one_cluster : Controller clients
one_cluster = record { cs = (text "east", text "istio-mc/east") ∷ []; world = [] }

one_cluster-IsDistinct : IsDistinct one_cluster.cs
unfolding get
one_cluster-IsDistinct = (refl, tt)

delete_member_cluster-without_example :
    get
      (delete_member_cluster clients subscribers in_order one_cluster (text "istio-mc/east")).cs
      (text "east")
    ≡ without clients subscribers (text "istio-mc/east") (get one_cluster.cs (text "east"))
delete_member_cluster-without_example =
    delete_member_cluster-without clients subscribers in_order one_cluster (text "istio-mc/east")
      (text "east") one_cluster-IsDistinct

abbrev west : GoMap Text
west = (text "west", text "kubeconfig") ∷ (text "east", text "kubeconfig") ∷ []

add_member_cluster-Added_example :
    ((id : Text)
      → Added clients subscribers (text "istio-mc/west") (get one_cluster.cs id) (
          get
            (add_member_cluster clients subscribers in_order one_cluster
              (text "istio-mc/west")
              west).cs
            id))
    × IsDistinct
        (add_member_cluster clients subscribers in_order one_cluster (text "istio-mc/west") west).cs
add_member_cluster-Added_example =
    add_member_cluster-Added clients subscribers in_order one_cluster (text "istio-mc/west") west
      one_cluster-IsDistinct

abbrev counting_queue : Queue
counting_queue = record {
  State = List Text × (Text → ℕ);
  next = λ s. elim s.0 [ [] ↦ (none, s) | x ∷ xs ↦ (some x, (xs, s.1)) ];
  add = λ s x. (s.0 ++ x ∷ [], s.1);
  num_requeues = λ s x. s.1 x;
  forget = λ s x. (s.0, λ y. if x == y then zero else s.1 y);
  add_rate_limited = λ s x. (s.0 ++ x ∷ [], λ y. if x == y then suc (s.1 y) else s.1 y);
  done = λ s x. s;
  shut_down = λ s. s;
}

next_counts :
    (pending : List Text) (counts : Text → ℕ) (y : Text)
    → counting_queue.num_requeues (counting_queue.next (pending, counts)).1 y ≡ counts y
next_counts [] counts y = refl
next_counts (x ∷ pending) counts y = refl

counting_queue-IsCounting : IsCounting counting_queue
counting_queue-IsCounting = record {
  added = λ s x y. refl;
  forgotten = λ s x y. refl;
  enqueued = λ s x y. refl;
  taken = λ s y. next_counts s.0 s.1 y;
  finished = λ s x y. refl;
}

process_next_item-IsBounded_example :
    counting_queue.num_requeues
      (process_next_item clients subscribers counting_queue in_order
        (λ key. none)
        (text "istio-mc/east" ∷ [], λ key. 3)
        one_cluster).1
      (text "istio-mc/east")
    ≤ 3
process_next_item-IsBounded_example =
    process_next_item-IsBounded clients subscribers counting_queue counting_queue-IsCounting
      in_order (λ key. none) (text "istio-mc/east" ∷ [], λ key. 3) one_cluster (λ y. omega arith)
      (text "istio-mc/east")

abbrev two_pending : counting_queue.State
two_pending = (text "istio-mc/east" ∷ text "istio-mc/west" ∷ [], λ key. 0)

handed_out_first :
    (pending : List Text) (counts : Text → ℕ) (z : Text) (zs : List Text)
    → pending ≡ z ∷ zs
    → (before : List Text) × (x : Text) × (after : List Text) × (pending ≡ before ++ x ∷ after)
      × ((counting_queue.next (pending, counts)).1.0 ≡ before ++ after)
      × ((counting_queue.next (pending, counts)).0 ≡ some x)
handed_out_first [] counts z zs e = absurd (cc)
handed_out_first (x ∷ xs) counts z zs e = ([], x, xs, refl, refl, refl)

abbrev counting_queue-IsWaiting : IsWaiting counting_queue
counting_queue-IsWaiting = record {
  pending = λ s. s.0;
  handed_out = λ s z zs e. handed_out_first s.0 s.1 z zs e;
  added_last = λ s x lacks. refl;
  forgotten_kept = λ s x. refl;
  done_kept = λ s x. refl;
}

two_apart : Once two_pending.0
unfolding text ◌==◌
two_apart = ((refl, tt), (tt, tt))

-- Every read of the index fails.
run_worker-empties_example :
    Emptied clients subscribers counting_queue counting_queue-IsCounting counting_queue-IsWaiting
      in_order
      (λ time key. none)
      0
      two_pending
      one_cluster
      8
run_worker-empties_example =
    run_worker-empties clients subscribers counting_queue counting_queue-IsCounting
      counting_queue-IsWaiting in_order (λ time key. none) 0 two_pending one_cluster
      (λ y. omega arith) two_apart

abbrev started : Operation clients subscribers in_order counting_queue
started = record { queue = ([], λ key. 0); controller = new clients [] }

abbrev east_added : Operation clients subscribers in_order counting_queue
east_added =
    after_round clients subscribers in_order counting_queue
      (after_event clients subscribers in_order counting_queue started
        (some (text "istio-mc/east")))
      (λ key. some (some west))

reachable-IsOrderly_example :
    IsOrderly clients subscribers in_order counting_queue counting_queue-IsCounting east_added
reachable-IsOrderly_example =
    reachable-IsOrderly clients subscribers in_order counting_queue counting_queue-IsCounting []
      ([], λ key. 0) east_added (λ y. refl)
      (later (later here (event (some (text "istio-mc/east")))) (round (λ key. some (some west))))
