-- ===== src/Multicluster.antt =====
-- controllers/multicluster/controller.go: the table of member clusters, kept from secrets.
pub mod Members
pub mod Retries
pub mod Pending
pub mod Worker
pub mod Reachable
use limiter.Prelude.{
  ℕ, zero, suc, ltb, List, [], ◌∷◌, Bool, true, false, Option, none, some, is_empty, if◌then◌else◌,
}
use limiter.Text.{Text, ◌==◌}
use limiter.GoMap.{GoMap, get, set, delete, Runtime}

abbrev pub max_retries : ℕ
max_retries = 3

-- `workqueue.RateLimitingInterface`; `next` is none if the queue shuts down.
pub record Queue : Type 1 where
  pub State : Type 0
  pub next : State → Option Text × State
  pub add : State → Text → State
  pub num_requeues : State → Text → ℕ
  pub forget : State → Text → State
  pub add_rate_limited : State → Text → State
  pub done : State → Text → State
  pub shut_down : State → State

-- The client library, with `none` for an error, and what the subscribers' calls change.
pub record KubeClients : Type 1 where
  pub Config : Type 0
  pub Client : Type 0
  pub World : Type 0
  pub load : Text → Option Config
  pub is_valid : Config → Bool
  -- `ClientConfig` and `NewForConfig`
  pub new_client : Config → Option Client

module _ (k : KubeClients) where
  pub record Controller : Type 0 where
    -- `cs`, from the identifier of a cluster to the name of its secret
    pub cs : GoMap Text
    pub world : k.World

  -- The fields that do not change.
  pub record Subscribers : Type 0 where
    pub subscriber : List (k.Client → k.World → k.World)
    pub un_subscriber : List (Text → k.World → k.World)

  -- `New`: no cluster is a member yet. `world` is what the subscribers' calls change.
  pub new : k.World → Controller
  new world = record { cs = []; world = world }

  abbrev notify : {A : Type 0} → List (A → k.World → k.World) → A → k.World → k.World
  notify [] a w = w
  notify (f ∷ fs) a w = notify fs a (f a w)

  module _ (subs : Subscribers) where
    -- A cluster is recorded before its client is made.
    record_cluster : Controller → Text → Text → k.Config → Controller
    record_cluster c secret_name cluster_id config =
        let cs = set c.cs cluster_id secret_name in
        elim (k.new_client config) [
          | none ↦ record c { cs = cs }
          | some client ↦ record { cs = cs; world = notify subs.subscriber client c.world }
        ]

    -- One round of the loop over the data of a secret.
    add_cluster : Controller → Text → Text → Text → Controller
    unfolding record_cluster
    add_cluster c secret_name cluster_id kube_config = elim (get c.cs cluster_id) [
      | some _ ↦ c
      | none ↦ if is_empty kube_config then c else elim (k.load kube_config) [
        | none ↦ c
        | some config ↦
            if k.is_valid config then record_cluster c secret_name cluster_id config else c
      ]
    ]

    add_clusters : Controller → Text → List (Text × Text) → Controller
    unfolding add_cluster
    add_clusters c secret_name [] = c
    add_clusters c secret_name ((cluster_id, kube_config) ∷ es) =
        add_clusters (add_cluster c secret_name cluster_id kube_config) secret_name es

    pub add_member_cluster : Runtime → Controller → Text → GoMap Text → Controller
    unfolding add_clusters
    add_member_cluster go c secret_name data_of = add_clusters c secret_name (go.range Text data_of)

    -- The entry that is deleted is the one that the loop is at.
    delete_clusters : Controller → Text → List (Text × Text) → Controller
    delete_clusters c secret_name [] = c
    delete_clusters c secret_name ((cluster_id, cluster) ∷ es) =
        delete_clusters
          (if cluster == secret_name
            then record {
              cs = delete c.cs cluster_id;
              world = notify subs.un_subscriber cluster_id c.world;
            }
            else c)
          secret_name es

    pub delete_member_cluster : Runtime → Controller → Text → Controller
    unfolding delete_clusters
    delete_member_cluster go c secret_name = delete_clusters c secret_name (go.range Text c.cs)

    -- `GetByKey` fails, or has the secret's data, or has nothing; the second part is whether there
    -- was an error.
    pub process_item :
        Runtime → Controller → Text → Option (Option (GoMap Text)) → Controller × Bool
    process_item go c secret_name none = (c, true)
    process_item go c secret_name (some (some data_of)) =
        (add_member_cluster go c secret_name data_of, false)
    process_item go c secret_name (some none) = (delete_member_cluster go c secret_name, false)

    module _ (q : Queue) where
      -- What is done about the outcome of an item.
      pub finish : q.State → Text → Bool → q.State
      finish queue secret_name failed_once =
          if failed_once
          then (if ltb (q.num_requeues queue secret_name) max_retries
              then q.add_rate_limited queue secret_name
              else q.forget queue secret_name)
          else q.forget queue secret_name

      -- The first part is false if the worker stops. `by_key` is the informer's index.
      pub process_next_item :
          Runtime
          → (Text → Option (Option (GoMap Text)))
          → q.State
          → Controller
          → Bool × q.State × Controller
      unfolding finish
      process_next_item go by_key queue c =
          let (item, taken) = q.next queue in
          elim item [
            | none ↦ (false, taken, c)
            | some secret_name ↦
                let (c', failed_once) = process_item go c secret_name (by_key secret_name) in
                (true, q.done (finish taken secret_name failed_once) secret_name, c')
          ]

      -- What the informer's `AddFunc` and `DeleteFunc` do with the key of an object; none is the
      -- error of the function that makes it.
      pub on_event : q.State → Option Text → q.State
      on_event queue none = queue
      on_event queue (some key) = q.add queue key

      -- `runWorker`, for at most so many items; the index of the informer may be another one for
      -- each of them. The first part is true if the worker has not stopped.
      unfoldable pub run_worker :
          Runtime
          → (ℕ → Text → Option (Option (GoMap Text)))
          → (fuel time : ℕ) → q.State
          → Controller
          → Bool × q.State × Controller
      unfolding process_next_item
      run_worker go by_key zero time queue c = (true, queue, c)
      run_worker go by_key (suc fuel) time queue c =
          let (goes_on, queue', c') = process_next_item go (by_key time) queue c in
          let rest = run_worker go by_key fuel (suc time) queue' c' in
          if goes_on then rest else (false, queue', c')

      -- `Run`: without the informer's caches there is no worker, and the queue is shut down in any
      -- case. (`wait.Until` starts a worker again that has stopped, but one stops only when the queue
      -- is shut down.)
      pub run :
          Runtime
          → (ℕ → Text → Option (Option (GoMap Text)))
          → (has_synced : Bool) → (fuel : ℕ) → q.State
          → Controller
          → q.State × Controller
      unfolding run_worker
      run go by_key has_synced fuel queue c =
          if has_synced
          then (let (goes_on, queue', c') = run_worker go by_key fuel 0 queue c in
              (q.shut_down queue', c'))
          else (q.shut_down queue, c)
