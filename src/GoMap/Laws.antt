-- ===== src/GoMap/Laws.antt =====
-- What lookups see after an update.
use limiter.Prelude.{
  ◌≡◌, refl, ◌∙◌, ◌≢◌, List, [], ◌∷◌, ◌++◌, none, some, if◌then◌else◌, arith, Option-cases,
  Bool-cases, inl, inr, append-nil,
}
use limiter.Text.{Text, ◌==◌, eq_iff, eq_refl, eq_comm}
use limiter.GoMap.{GoMap, get, set, delete, IsDistinct, set_all, push, slice_at}

module _ {V : Type 0} where
  pub get-set :
      (m : GoMap V) (k j : Text) (v : V) → get (set m k v) j ≡ (if k == j then some v else get m j)
  unfolding get set
  get-set [] k j v = refl
  get-set ((i, w) ∷ m) k j v = ground (arith, eq_iff i k, eq_iff i j, eq_iff k j, get-set m k j v)

  pub get-set_self : (m : GoMap V) (k : Text) (v : V) → get (set m k v) k ≡ some v
  get-set_self m k v = get-set m k k v ∙ rw (eq_refl k)

  pub get-set_ne : (m : GoMap V) (k j : Text) (v : V) → k ≢ j → get (set m k v) j ≡ get m j
  get-set_ne m k j v h = get-set m k j v ∙ ground (arith, eq_iff k j)

  pub get-delete :
      (m : GoMap V) (k j : Text) → get (delete m k) j ≡ (if k == j then none else get m j)
  unfolding get delete
  get-delete [] k j = ground arith
  get-delete ((i, v) ∷ m) k j = ground (arith, eq_iff i k, eq_iff i j, eq_iff k j, get-delete m k j)

  pub set-IsDistinct : (m : GoMap V) (k : Text) (v : V) → IsDistinct m → IsDistinct (set m k v)
  unfolding set get
  set-IsDistinct [] k v d = (refl, tt)
  set-IsDistinct ((i, w) ∷ m) k v d = elim (Bool-cases (i == k)) [
    | inl same ↦ rw same d
    | inr other ↦ rw other (get-set m k i v ∙ rw (eq_comm k i, other) d.0, set-IsDistinct m k v d.1)
  ]

  pub delete-IsDistinct : (m : GoMap V) (k : Text) → IsDistinct m → IsDistinct (delete m k)
  unfolding delete get
  delete-IsDistinct [] k d = tt
  delete-IsDistinct ((i, w) ∷ m) k d = elim (Bool-cases (i == k)) [
    | inl same ↦ rw same (delete-IsDistinct m k d.1)
    | inr other ↦
        rw other (get-delete m k i ∙ rw (eq_comm k i, other) d.0, delete-IsDistinct m k d.1)
  ]

  pub set_all-IsDistinct :
      (es : List (Text × V)) (m : GoMap V) → IsDistinct m → IsDistinct (set_all m es)
  unfolding set_all
  set_all-IsDistinct [] m d = d
  set_all-IsDistinct ((k, v) ∷ es) m d = set_all-IsDistinct es (set m k v) (set-IsDistinct m k v d)

  -- A key that is not among the new entries keeps its value.
  pub get-set_all_absent :
      (es : List (Text × V)) (m : GoMap V) (j : Text)
      → get es j ≡ none
      → get (set_all m es) j ≡ get m j
  unfolding set_all get
  get-set_all_absent [] m j h = refl
  get-set_all_absent ((k, v) ∷ es) m j h =
      get-set_all_absent es (set m k v) j (ground arith) ∙ get-set m k j v ∙ ground arith

  -- A key that is among them once has its new value.
  pub get-set_all_present :
      (es : List (Text × V)) (m : GoMap V) (j : Text) {v : V}
      → IsDistinct es
      → get es j ≡ some v
      → get (set_all m es) j ≡ some v
  unfolding set_all get
  get-set_all_present [] m j d h = cc
  get-set_all_present ((k, w) ∷ es) m j d h = elim (Bool-cases (k == j)) [
    | inl same ↦
        get-set_all_absent es (set m k w) j (ground (arith, eq_iff k j))
        ∙ get-set m k j w
        ∙ rw same (ground arith)
    | inr other ↦ get-set_all_present es (set m k w) j d.1 (ground arith)
  ]

module _ {V : Type 0} where
  pub slice_at-push :
      (m : GoMap (List V)) (k j : Text) (v : V)
      → slice_at (push m k v) j ≡ slice_at m j ++ (if k == j then v ∷ [] else [])
  unfolding slice_at push
  slice_at-push m k j v = elim (Option-cases (get m k)) [
    | inl e ↦
        rw (e, push) (ground (arith, get-set m k j (v ∷ []), eq_iff k j, append-nil (slice_at m j)))
    | inr (vs, e) ↦
        rw (e, push)
          (ground (arith, get-set m k j (vs ++ v ∷ []), eq_iff k j, append-nil (slice_at m j)))
  ]

  pub push-IsDistinct :
      (m : GoMap (List V)) (k : Text) (v : V) → IsDistinct m → IsDistinct (push m k v)
  unfolding push
  push-IsDistinct m k v d = elim (Option-cases (get m k)) [
    | inl e ↦ rw (e, push) (set-IsDistinct m k _ d)
    | inr (vs, e) ↦ rw (e, push) (set-IsDistinct m k _ d)
  ]
