-- ===== src/Multicluster/Members.antt =====
-- Which clusters are members, and by which secret.
use limiter.Prelude.{
  ◌≡◌, refl, ap, sym, ◌∙◌, subst, ◌⊎◌, inl, inr, List, [], ◌∷◌, true, false, Option, none, some,
  is_empty, if◌then◌else◌, Bool-cases, Option-cases,
}
use mathlib.Core.List.Permᴰ
use limiter.Text.{Text, ◌==◌, eq_iff}
use limiter.GoMap.{GoMap, get, set, delete, Runtime, IsDistinct}
use limiter.GoMap.Laws.{get-set, get-delete, set-IsDistinct}
use limiter.GoMap.Range.{get-perm}
use limiter.Multicluster.{
  KubeClients, Controller, Subscribers, notify, record_cluster, add_cluster, add_clusters,
  add_member_cluster, delete_clusters, delete_member_cluster,
}

module _ (k : KubeClients) (subs : Subscribers k) where
  -- The secret by which a cluster is a member once the entries of another have been removed.
  abbrev pub without : Text → Option Text → Option Text
  without secret_name o = elim o [
    | none ↦ none
    | some s ↦ if s == secret_name then none else some s
  ]

  -- What is left of an entry when the loop has met `met` under its key.
  abbrev removed_from : Text → Option Text → Option Text → Option Text
  removed_from secret_name met old = elim met [
    | none ↦ old
    | some s ↦ if s == secret_name then none else old
  ]

  removed_own :
      (secret_name : Text) (o : Option Text) → removed_from secret_name o o ≡ without secret_name o
  removed_own secret_name none = refl
  removed_own secret_name (some s) = refl

  absent_here :
      (j id s : Text) (es : GoMap Text) → get es j ≡ none → (j == id) ≡ true → get es id ≡ none
  absent_here j id s es h e = subst (λ x. get es x ≡ none) ((eq_iff j id).0 e) h

  one_removed :
      (secret_name s j id : Text) (met old : Option Text)
      → (s == secret_name) ≡ true
      → ((j == id) ≡ true → met ≡ none)
      → removed_from secret_name met (if j == id then none else old)
        ≡ removed_from secret_name (if j == id then some s else met) old
  one_removed secret_name s j id met old own absent = elim (Bool-cases (j == id)) [
    | inl e ↦ rw (e, own, absent e) refl
    | inr e ↦ rw e refl
  ]

  one_passed :
      (secret_name s j id : Text) (met old : Option Text)
      → (s == secret_name) ≡ false
      → ((j == id) ≡ true → met ≡ none)
      → removed_from secret_name met old
        ≡ removed_from secret_name (if j == id then some s else met) old
  one_passed secret_name s j id met old other absent = elim (Bool-cases (j == id)) [
    | inl e ↦ rw (e, other, absent e) refl
    | inr e ↦ rw e refl
  ]

  get-delete_clusters :
      (c : Controller k) (secret_name : Text) (es : GoMap Text) (id : Text)
      → IsDistinct es
      → get (delete_clusters k subs c secret_name es).cs id
        ≡ removed_from secret_name (get es id) (get c.cs id)
  unfolding delete_clusters get
  get-delete_clusters c secret_name [] id d = refl
  get-delete_clusters c secret_name ((j, s) ∷ es) id d = elim (Bool-cases (s == secret_name)) [
    | inl own ↦
        (let removed : Controller k = record {
          cs = delete c.cs j;
          world = notify k subs.un_subscriber j c.world;
        } in
          ap (λ b. get (delete_clusters k subs (if b then removed else c) secret_name es).cs id) own
          ∙ (get-delete_clusters removed secret_name es id d.1
              ∙ ap (removed_from secret_name (get es id)) (get-delete c.cs j id)
              ∙ one_removed secret_name s j id (get es id) (get c.cs id) own
                  (absent_here j id s es d.0)))
    | inr other ↦
        (let removed : Controller k = record {
          cs = delete c.cs j;
          world = notify k subs.un_subscriber j c.world;
        } in
          ap (λ b. get (delete_clusters k subs (if b then removed else c) secret_name es).cs id)
            other
          ∙ get-delete_clusters c secret_name es id d.1
          ∙ one_passed secret_name s j id (get es id) (get c.cs id) other
              (absent_here j id s es d.0))
  ]

  -- After a secret is removed from a table in which no cluster stands twice, no cluster is a member
  -- by it, and every other cluster is a member by the secret by which it was.
  pub delete_member_cluster-without :
      (go : Runtime) (c : Controller k) (secret_name id : Text)
      → IsDistinct c.cs
      → get (delete_member_cluster k subs go c secret_name).cs id
        ≡ without secret_name (get c.cs id)
  unfolding delete_member_cluster
  delete_member_cluster-without go c secret_name id d =
      let (same, d') = get-perm (Permᴰ.symm (go.range_perm Text c.cs)) d in
      get-delete_clusters c secret_name (go.range Text c.cs) id d'
      ∙ ap (λ o. removed_from secret_name o (get c.cs id)) (sym (same id))
      ∙ removed_own secret_name (get c.cs id)

  -- What a secret that is added does to one cluster: nothing if it is a member, else it is a member
  -- by this secret or not at all.
  abbrev pub Added : Text → Option Text → Option Text → Type 0
  Added secret_name none after = (after ≡ none) ⊎ (after ≡ some secret_name)
  Added secret_name (some s) after = after ≡ some s

  Added-refl : (secret_name : Text) (o : Option Text) → Added secret_name o o
  Added-refl secret_name none = inl refl
  Added-refl secret_name (some s) = refl

  Added-trans :
      (secret_name : Text) (a b c : Option Text)
      → Added secret_name a b
      → Added secret_name b c
      → Added secret_name a c
  Added-trans secret_name none b c (inl e) h = rw e at h
  Added-trans secret_name none b c (inr e) h = inr (rw e at h)
  Added-trans secret_name (some s) b c e h = rw e at h

  set-Added :
      (cs : GoMap Text) (secret_name j id : Text)
      → get cs j ≡ none
      → Added secret_name (get cs id) (get (set cs j secret_name) id)
  set-Added cs secret_name j id h =
      subst (Added secret_name (get cs id)) (sym (get-set cs j id secret_name))
        (elim (Bool-cases (j == id)) [
          | inl e ↦ rw (e, absent_here j id [] cs h e) (inr refl)
          | inr e ↦ rw e (Added-refl secret_name (get cs id))
        ])

  record_cluster-cs :
      (c : Controller k) (secret_name j : Text) (config : k.Config)
      → (record_cluster k subs c secret_name j config).cs ≡ set c.cs j secret_name
  unfolding record_cluster
  record_cluster-cs c secret_name j config = elim (Option-cases (k.new_client config)) [
    | inl e ↦ rw (e, record_cluster) refl
    | inr (client, e) ↦ rw (e, record_cluster) refl
  ]

  -- A round changes nothing, or it records the cluster.
  abbrev Outcome : Controller k → Text → Text → Controller k → Type 0
  Outcome c secret_name j c' = (c' ≡ c) ⊎ ((get c.cs j ≡ none) × (c'.cs ≡ set c.cs j secret_name))

  add_cluster-Outcome :
      (c : Controller k) (secret_name j config_text : Text)
      → Outcome c secret_name j (add_cluster k subs c secret_name j config_text)
  unfolding add_cluster
  add_cluster-Outcome c secret_name j config_text = elim (Option-cases (get c.cs j)) [
    | inr (s, e) ↦ inl (rw (e, add_cluster) refl)
    | inl e ↦ elim (Bool-cases (is_empty config_text)) [
      | inl f ↦ inl (rw (e, add_cluster) (rw f refl))
      | inr f ↦ elim (Option-cases (k.load config_text)) [
        | inl g ↦ inl (rw (e, add_cluster) (rw f (rw g refl)))
        | inr (config, g) ↦ elim (Bool-cases (k.is_valid config)) [
          | inr h ↦ inl (rw (e, add_cluster) (rw f (rw g (rw h refl))))
          | inl h ↦ inr (
            e,
            rw (e, add_cluster) (rw f (rw g (rw h (record_cluster-cs c secret_name j config)))),
          )
        ]
      ]
    ]
  ]

  Outcome-Added :
      (c c' : Controller k) (secret_name j id : Text)
      → Outcome c secret_name j c'
      → Added secret_name (get c.cs id) (get c'.cs id) × (IsDistinct c.cs → IsDistinct c'.cs)
  Outcome-Added c c' secret_name j id (inl same) = (
    subst (λ x. Added secret_name (get c.cs id) (get x.cs id)) (sym same)
        (Added-refl secret_name (get c.cs id)),
    λ d. subst (λ x. IsDistinct x.cs) (sym same) d,
  )
  Outcome-Added c c' secret_name j id (inr (absent, recorded)) = (
    subst (λ x. Added secret_name (get c.cs id) (get x id)) (sym recorded)
        (set-Added c.cs secret_name j id absent),
    λ d. subst IsDistinct (sym recorded) (set-IsDistinct c.cs j secret_name d),
  )

  add_clusters-Added :
      (c : Controller k) (secret_name : Text) (es : List (Text × Text)) (id : Text)
      → Added secret_name (get c.cs id) (get (add_clusters k subs c secret_name es).cs id)
        × (IsDistinct c.cs → IsDistinct (add_clusters k subs c secret_name es).cs)
  unfolding add_clusters
  add_clusters-Added c secret_name [] id = (Added-refl secret_name (get c.cs id), λ d. d)
  add_clusters-Added c secret_name ((j, config_text) ∷ es) id =
      let c1 = add_cluster k subs c secret_name j config_text in
      let (a, d) =
        Outcome-Added c c1 secret_name j id (add_cluster-Outcome c secret_name j config_text) in
      let (a', d') = add_clusters-Added c1 secret_name es id in
      (Added-trans secret_name (get c.cs id) (get c1.cs id) _ a a', λ e. d' (d e))

  -- When a secret is added to a table in which no cluster stands twice, every cluster that is a
  -- member stays one by its secret, every other cluster is afterwards a member by the new secret or
  -- none, and no cluster stands twice.
  pub add_member_cluster-Added :
      (go : Runtime) (c : Controller k) (secret_name : Text) (data_of : GoMap Text)
      → IsDistinct c.cs
      → ((id : Text)
          → Added secret_name
              (get c.cs id)
              (get (add_member_cluster k subs go c secret_name data_of).cs id))
        × IsDistinct (add_member_cluster k subs go c secret_name data_of).cs
  unfolding add_member_cluster
  add_member_cluster-Added go c secret_name data_of d = (
    λ id. (add_clusters-Added c secret_name (go.range Text data_of) id).0,
    (add_clusters-Added c secret_name (go.range Text data_of) []).1 d,
  )
