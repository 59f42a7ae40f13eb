-- ===== src/Producer/Queries.antt =====
-- Which queries come out of the configured handlers.
use limiter.Prelude.{
  ◌≡◌, refl, ap, ◌∙◌, List, [], ◌∷◌, ◌++◌, Bool, false, some, is_empty, if◌then◌else◌, Bool-cases,
  inl, inr, arith,
}
use limiter.Text.{Text}
use limiter.GoMap.{GoMap, get, set_all, Runtime}
use limiter.Api.{NamespacedName}
use limiter.Process.Metrics.{StaticMeta}
use limiter.Producer.{
  Calls, Handler, SourceHandler, add_handlers, generate_meta, replace_query_string,
  generate_query_string,
}

only_entry :
    (k : Text) (v : List Handler) (j : Text) (w : List Handler)
    → get (if is_empty k then [] else (k, v) ∷ []) j ≡ some w
    → w ≡ v
unfolding get
only_entry k v j w h = elim (Bool-cases (is_empty k)) [
  | inl e ↦ absurd (cc (rw e at h))
  | inr e ↦ (let h' = rw e at h in ground (arith, h'))
]

module _ (go : Runtime) (loc : NamespacedName) (subsets_pods : GoMap (List Text)) where
  add_handlers-last :
      (before : List (Text × SourceHandler)) (name : Text) (handler : SourceHandler)
      (queries : List Handler) (meta : StaticMeta)
      → is_empty handler.query ≡ false
      → (add_handlers go loc subsets_pods (before ++ (name, handler) ∷ []) queries meta).0
        ≡ (replace_query_string go name handler.query handler.source_type loc subsets_pods).0
  unfolding add_handlers
  add_handlers-last [] name handler queries meta h = rw (h, add_handlers) refl
  add_handlers-last ((name', handler') ∷ before) name handler queries meta h =
      elim (Bool-cases (is_empty handler'.query)) [
        | inl e ↦ rw (e, add_handlers) (add_handlers-last before name handler queries meta h)
        | inr e ↦
            rw (e, add_handlers)
              (add_handlers-last before name handler
                (replace_query_string go name' handler'.query handler'.source_type loc
                  subsets_pods).0
                (record meta {
                  is_group = set_all meta.is_group (
                      go.range Bool
                        (replace_query_string go name' handler'.query handler'.source_type loc
                          subsets_pods).1);
                })
                h)
      ]

  -- Only the handler that is visited last is queried for, if its query is not empty: the queries of
  -- all handlers that are visited before it are lost.
  pub last_handler_only :
      (calls : Calls) (handlers : GoMap SourceHandler) (before : List (Text × SourceHandler))
      (name : Text) (handler : SourceHandler) (meta_info : Text) (queries : List Handler)
      → go.range SourceHandler handlers ≡ before ++ (name, handler) ∷ []
      → is_empty handler.query ≡ false
      → get (generate_query_string go calls subsets_pods loc handlers) meta_info ≡ some queries
      → queries
        ≡ (replace_query_string go name handler.query handler.source_type loc subsets_pods).0
  unfolding generate_query_string get
  last_handler_only calls handlers before name handler meta_info queries r h g =
      only_entry _ _ meta_info queries g
      ∙ ap (λ hs. (add_handlers go loc subsets_pods hs [] (generate_meta go subsets_pods loc)).0) r
      ∙ add_handlers-last before name handler [] (generate_meta go subsets_pods loc) h
