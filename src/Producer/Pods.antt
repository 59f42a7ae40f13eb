-- ===== src/Producer/Pods.antt =====
-- Which pods are counted for a subset, and for the service as a whole.
use limiter.Prelude.{
  ◌≡◌, ◌≢◌, refl, sym, ap, ◌∙◌, List, [], ◌∷◌, ◌++◌, Option, some, if◌then◌else◌, arith, Bool-cases,
  inl, inr, map, keep_if, All, append-nil, append_assoc,
}
use limiter.Text.{Text, eq_iff, eq_refl}
use limiter.GoMap.{GoMap, get, push, slice_at}
use limiter.GoMap.Laws.{slice_at-push}
use limiter.Api.{NamespacedName}
use limiter.Framework.{Framework}
use limiter.Filters.{Subset}
use limiter.Producer.{Pod, Calls, append_to_subsets, assign_pods, append_to_base, query_subset_pods}

-- Pushes under another name do not show.
slice_at-push_ne :
    (m : GoMap (List Text)) (j k v : Text) → j ≢ k → slice_at (push m j v) k ≡ slice_at m k
slice_at-push_ne m j k v n =
    slice_at-push m j k v ∙ ground (arith, eq_iff j k, append-nil (slice_at m k))

slice_at-push_self :
    (m : GoMap (List Text)) (k v : Text) → slice_at (push m k v) k ≡ slice_at m k ++ v ∷ []
slice_at-push_self m k v = slice_at-push m k k v ∙ rw (eq_refl k) refl

empty_slice : (k : Text) → slice_at {V = Text} [] k ≡ []
unfolding slice_at get
empty_slice k = refl

module _ (calls : Calls) where
  abbrev with_pod : GoMap (List Text) → Pod → Subset → GoMap (List Text)
  with_pod m pod sb = if calls.is_contain pod.labels sb.labels then push m sb.name pod.name else m

  with_pod_ne :
      (m : GoMap (List Text)) (pod : Pod) (sb : Subset) (k : Text)
      → sb.name ≢ k
      → slice_at (with_pod m pod sb) k ≡ slice_at m k
  with_pod_ne m pod sb k n = elim (Bool-cases (calls.is_contain pod.labels sb.labels)) [
    | inl e ↦ rw e (slice_at-push_ne m sb.name k pod.name n)
    | inr e ↦ rw e refl
  ]

  apart_subsets :
      (m : GoMap (List Text)) (pod : Pod) (sbs : List Subset) (k : Text)
      → All (λ sb. sb.name ≢ k) sbs
      → slice_at (append_to_subsets calls m pod sbs) k ≡ slice_at m k
  unfolding append_to_subsets
  apart_subsets m pod [] k n = refl
  apart_subsets m pod (sb ∷ sbs) k n =
      apart_subsets (with_pod m pod sb) pod sbs k n.1 ∙ with_pod_ne m pod sb k n.0

  module _ (before after : List Subset) (sb : Subset) where
    -- No other subset of the destination rule has the name of this one.
    abbrev pub IsOnly : Type 0
    IsOnly = All (λ t. t.name ≢ sb.name) before × All (λ t. t.name ≢ sb.name) after

    own_subset :
        (m : GoMap (List Text)) (pod : Pod)
        → All (λ t. t.name ≢ sb.name) after
        → slice_at (append_to_subsets calls m pod (sb ∷ after)) sb.name
          ≡ slice_at m sb.name
            ++ map (λ q. q.name) (keep_if (λ q. calls.is_contain q.labels sb.labels) (pod ∷ []))
    unfolding append_to_subsets
    own_subset m pod n =
        apart_subsets (with_pod m pod sb) pod after sb.name n
        ∙ elim (Bool-cases (calls.is_contain pod.labels sb.labels)) [
          | inl e ↦ rw e (slice_at-push_self m sb.name pod.name)
          | inr e ↦ rw e (sym (append-nil (slice_at m sb.name)))
        ]

    one_pod :
        (m : GoMap (List Text)) (pod : Pod) (before' : List Subset)
        → All (λ t. t.name ≢ sb.name) before'
        → All (λ t. t.name ≢ sb.name) after
        → slice_at (append_to_subsets calls m pod (before' ++ sb ∷ after)) sb.name
          ≡ slice_at m sb.name
            ++ map (λ q. q.name) (keep_if (λ q. calls.is_contain q.labels sb.labels) (pod ∷ []))
    unfolding append_to_subsets
    one_pod m pod [] b a = own_subset m pod a
    one_pod m pod (t ∷ ts) b a =
        one_pod (with_pod m pod t) pod ts b.1 a
        ∙ ap
            (λ l.
              l
              ++ map (λ q. q.name) (keep_if (λ q. calls.is_contain q.labels sb.labels) (pod ∷ [])))
            (with_pod_ne m pod t sb.name b.0)

    all_pods :
        (m : GoMap (List Text)) (pods : List Pod)
        → IsOnly
        → slice_at (assign_pods calls m pods (before ++ sb ∷ after)) sb.name
          ≡ slice_at m sb.name
            ++ map (λ q. q.name) (keep_if (λ q. calls.is_contain q.labels sb.labels) pods)
    unfolding assign_pods
    all_pods m [] only = sym (append-nil _)
    all_pods m (pod ∷ pods) only =
        all_pods (append_to_subsets calls m pod (before ++ sb ∷ after)) pods only
        ∙ ap (λ l. l ++ map (λ q. q.name) (keep_if (λ q. calls.is_contain q.labels sb.labels) pods))
            (one_pod m pod before only.0 only.1)
        ∙ append_assoc (slice_at m sb.name) _ _
        ∙ ap (λ l. slice_at m sb.name ++ l) (one_more pod pods)
      where
        one_more :
            (q : Pod) (qs : List Pod)
            → map (λ x. x.name) (keep_if (λ x. calls.is_contain x.labels sb.labels) (q ∷ []))
                ++ map (λ x. x.name) (keep_if (λ x. calls.is_contain x.labels sb.labels) qs)
              ≡ map (λ x. x.name) (keep_if (λ x. calls.is_contain x.labels sb.labels) (q ∷ qs))
        one_more q qs = elim (Bool-cases (calls.is_contain q.labels sb.labels)) [
          | inl e ↦ rw e refl
          | inr e ↦ rw e refl
        ]

  module _ (fw : Framework) where
    base_apart :
        (m : GoMap (List Text)) (pods : List Pod) (k : Text)
        → fw.base_set ≢ k
        → slice_at (append_to_base fw m pods) k ≡ slice_at m k
    unfolding append_to_base
    base_apart m [] k n = refl
    base_apart m (pod ∷ pods) k n =
        base_apart (push m fw.base_set pod.name) pods k n
        ∙ slice_at-push_ne m fw.base_set k pod.name n

    base_pods :
        (m : GoMap (List Text)) (pods : List Pod)
        → slice_at (append_to_base fw m pods) fw.base_set
          ≡ slice_at m fw.base_set ++ map (λ q. q.name) pods
    unfolding append_to_base
    base_pods m [] = sym (append-nil _)
    base_pods m (pod ∷ pods) =
        base_pods (push m fw.base_set pod.name) pods
        ∙ ap (λ l. l ++ map (λ q. q.name) pods) (slice_at-push_self m fw.base_set pod.name)
        ∙ append_assoc (slice_at m fw.base_set) _ _

    all_apart :
        (m : GoMap (List Text)) (pods : List Pod) (sbs : List Subset) (k : Text)
        → All (λ sb. sb.name ≢ k) sbs
        → slice_at (assign_pods calls m pods sbs) k ≡ slice_at m k
    unfolding assign_pods
    all_apart m [] sbs k n = refl
    all_apart m (pod ∷ pods) sbs k n =
        all_apart (append_to_subsets calls m pod sbs) pods sbs k n ∙ apart_subsets m pod sbs k n

    -- If a subset's name is its own in the destination rule, and no subset has the name of the
    -- service as a whole, then the subset's pods are those pods of the service that have its
    -- labels, in order, and under the name of the service as a whole stand all its pods.
    pub query_subset_pods-pods :
        (host_subsets : Text → Option (List Subset)) (pods : List Pod) (loc : NamespacedName)
        (before after : List Subset) (sb : Subset)
        → host_subsets (fw.unity_host loc.name loc.namespace) ≡ some (before ++ sb ∷ after)
        → IsOnly before after sb
        → All (λ t. t.name ≢ fw.base_set) (before ++ sb ∷ after)
        → fw.base_set ≢ sb.name
        → (slice_at (query_subset_pods fw calls host_subsets pods loc) sb.name
            ≡ map (λ q. q.name) (keep_if (λ q. calls.is_contain q.labels sb.labels) pods))
          × (slice_at (query_subset_pods fw calls host_subsets pods loc) fw.base_set
              ≡ map (λ q. q.name) pods)
    unfolding query_subset_pods
    query_subset_pods-pods host_subsets pods loc before after sb h only no_base apart = (
      rw (h, query_subset_pods)
          (base_apart (assign_pods calls [] pods (before ++ sb ∷ after)) pods sb.name apart
            ∙ all_pods before after sb [] pods only
            ∙ ap
                (λ l.
                  l ++ map (λ q. q.name) (keep_if (λ q. calls.is_contain q.labels sb.labels) pods))
                (empty_slice sb.name)),
      rw (h, query_subset_pods)
          (base_pods (assign_pods calls [] pods (before ++ sb ∷ after)) pods
            ∙ ap (λ l. l ++ map (λ q. q.name) pods)
                (all_apart [] pods (before ++ sb ∷ after) fw.base_set no_base
                  ∙ empty_slice fw.base_set)),
    )
