-- ===== src/GoMap/Groups.antt =====
-- Slices filed under keys: `m[k] = append(m[k], v)` for a sequence of keys and values.
use limiter.Prelude.{
  ◌≡◌, refl, ap, ◌∙◌, sym, List, [], ◌∷◌, ◌++◌, none, some, if◌then◌else◌, arith, keep_if,
  keep_if-append, All, All-append, append-nil, append_assoc, Option-cases, Bool-cases, inl, inr,
  subst,
}
use mathlib.Core.List.Permᴰ
use limiter.Text.{Text, ◌==◌, eq_iff, eq_refl}
use limiter.GoMap.{GoMap, get, set, push, slice_at, IsDistinct, Runtime}
use limiter.GoMap.Laws.{slice_at-push, push-IsDistinct}
use limiter.GoMap.Range.{get-perm, All-perm}

module _ {V : Type 0} where
  abbrev pub push_all : GoMap (List V) → List (Text × V) → GoMap (List V)
  push_all m [] = m
  push_all m ((k, v) ∷ es) = push_all (push m k v) es

  -- The values filed under a key, in order.
  abbrev pub values_on : Text → List (Text × V) → List V
  values_on k [] = []
  values_on k ((j, v) ∷ es) = if j == k then v ∷ values_on k es else values_on k es

  pub slice_at-push_all :
      (m : GoMap (List V)) (es : List (Text × V)) (k : Text)
      → slice_at (push_all m es) k ≡ slice_at m k ++ values_on k es
  slice_at-push_all m [] k = sym (append-nil _)
  slice_at-push_all m ((j, v) ∷ es) k =
      slice_at-push_all (push m j v) es k
      ∙ ap (λ l. l ++ values_on k es) (slice_at-push m j k v)
      ∙ append_assoc (slice_at m k) _ _
      ∙ ap (λ l. slice_at m k ++ l) (ground arith)

  abbrev pub HasItem : Text × List V → Type 0
  HasItem (k, vs) = (v : V) × (rest : List V) × (vs ≡ v ∷ rest)

  set-HasItem :
      (m : GoMap (List V)) (k : Text) (vs : List V)
      → All HasItem m
      → HasItem (k, vs)
      → All HasItem (set m k vs)
  unfolding set
  set-HasItem [] k vs h n = (n, tt)
  set-HasItem ((j, ws) ∷ m) k vs h n = elim (Bool-cases (j == k)) [
    | inl same ↦ rw same (n, h.1)
    | inr other ↦ rw other (h.0, set-HasItem m k vs h.1 n)
  ]

  append-HasItem : (k : Text) (vs : List V) (v : V) → HasItem (k, vs ++ v ∷ [])
  append-HasItem k [] v = (v, [], refl)
  append-HasItem k (w ∷ vs) v = (w, vs ++ v ∷ [], refl)

  push-HasItem : (m : GoMap (List V)) (k : Text) (v : V) → All HasItem m → All HasItem (push m k v)
  unfolding push
  push-HasItem m k v h = elim (Option-cases (get m k)) [
    | inl e ↦ rw (e, push) (set-HasItem m k _ h (v, [], refl))
    | inr (vs, e) ↦ rw (e, push) (set-HasItem m k _ h (append-HasItem k vs v))
  ]

  -- Distinct keys, and no empty slice.
  abbrev pub AreFiled : GoMap (List V) → Type 0
  AreFiled m = IsDistinct m × All HasItem m

  pub push_all-AreFiled :
      (m : GoMap (List V)) (es : List (Text × V)) → AreFiled m → AreFiled (push_all m es)
  push_all-AreFiled m [] h = h
  push_all-AreFiled m ((k, v) ∷ es) h =
      push_all-AreFiled (push m k v) es (push-IsDistinct m k v h.0, push-HasItem m k v h.1)

  pub slice_at_of_get :
      (l m : GoMap (List V)) (k : Text) → get l k ≡ get m k → slice_at l k ≡ slice_at m k
  unfolding slice_at
  slice_at_of_get l m k e = ground arith

  slice_at-nil : (k : Text) → slice_at {V = V} [] k ≡ []
  unfolding slice_at get
  slice_at-nil k = refl

  pub slice_at-push_all_nil :
      (es : List (Text × V)) (k : Text) → slice_at (push_all [] es) k ≡ values_on k es
  slice_at-push_all_nil es k =
      slice_at-push_all [] es k ∙ ap (λ l. l ++ values_on k es) (slice_at-nil k)

  slice_at-cons :
      (m : GoMap (List V)) (j k : Text) (vs : List V)
      → slice_at ((j, vs) ∷ m) k ≡ (if j == k then vs else slice_at m k)
  unfolding slice_at get
  slice_at-cons m j k vs = ground arith

-- A loop over the filed slices makes `f k vs` from each. Where the result for a key bears its key,
-- what bears a key `k` is what the loop makes from the slice of `k`, in whatever order it runs.
module _ {V B : Type 0} (key : B → Text) (f : Text → List V → List B)
    (f-nil : (k : Text) → f k [] ≡ [])
    (keyed : (k : Text) (v : V) (vs : List V) → All (λ b. key b ≡ k) (f k (v ∷ vs))) where
  abbrev on_key : Text → List B → List B
  on_key k = keep_if λ b. key b == k

  abbrev pub loop : GoMap (List V) → List B
  loop [] = []
  loop ((k, vs) ∷ m) = f k vs ++ loop m

  on_key-keyed :
      (k j : Text) (bs : List B)
      → All (λ b. key b ≡ k) bs
      → on_key j bs ≡ (if k == j then bs else [])
  on_key-keyed k j [] h = ground arith
  on_key-keyed k j (b ∷ bs) h = rw (h.0, on_key-keyed k j bs h.1) (ground arith)

  on_key-f : (k j : Text) (vs : List V) → on_key j (f k vs) ≡ (if k == j then f k vs else [])
  on_key-f k j [] = rw f-nil (ground arith)
  on_key-f k j (v ∷ vs) = on_key-keyed k j (f k (v ∷ vs)) (keyed k v vs)

  loop_absent : (m : GoMap (List V)) (k : Text) → get m k ≡ none → on_key k (loop m) ≡ []
  unfolding get
  loop_absent [] k e = refl
  loop_absent ((j, vs) ∷ m) k e =
      keep_if-append (λ b. key b == k) (f j vs) (loop m)
      ∙ ground (arith, on_key-f j k vs, loop_absent m k)

  loop_once :
      (m : GoMap (List V)) (k : Text) → IsDistinct m → on_key k (loop m) ≡ f k (slice_at m k)
  loop_once [] k d = sym (ap (f k) (slice_at-nil k) ∙ f-nil k)
  loop_once ((j, vs) ∷ m) k d =
      keep_if-append (λ b. key b == k) (f j vs) (loop m) ∙ elim (Bool-cases (j == k)) [
        | inl same ↦
            rw
              (
                slice_at-cons m j k vs,
                same,
                on_key-f j k vs,
                same,
                loop_absent m k (subst (λ i. get m i ≡ none) ((eq_iff j k).0 same) d.0),
              )
              (append-nil (f j vs) ∙ ap (λ i. f i vs) ((eq_iff j k).0 same))
        | inr other ↦ rw (slice_at-cons m j k vs, other, on_key-f j k vs, other) (loop_once m k d.1)
      ]

  pub All-loop :
      (P : B → Type 0)
      → ((k : Text) (vs : List V) → All P (f k vs))
      → (m : GoMap (List V)) → All P (loop m)
  All-loop P h [] = tt
  All-loop P h ((k, vs) ∷ m) = All-append P (f k vs) (loop m) (h k vs) (All-loop P h m)

  -- The loop over a map built by `push_all`, in the order of the run-time system.
  pub loop_over_filed :
      (go : Runtime) (es : List (Text × V)) (k : Text)
      → on_key k (loop (go.range (List V) (push_all [] es))) ≡ f k (values_on k es)
  loop_over_filed go es k =
      let m : GoMap (List V) = push_all [] es in
      let visited : GoMap (List V) = go.range (List V) m in
      let (same, d) =
        get-perm (Permᴰ.symm (go.range_perm (List V) m)) (push_all-AreFiled [] es (tt, tt)).0 in
      loop_once visited k d
      ∙ ap (f k) (slice_at_of_get visited m k (sym (same k)) ∙ slice_at-push_all_nil es k)

module _ {V : Type 0} where
  pub push_all-append :
      (m : GoMap (List V)) (es fs : List (Text × V))
      → push_all m (es ++ fs) ≡ push_all (push_all m es) fs
  push_all-append m [] fs = refl
  push_all-append m ((k, v) ∷ es) fs = push_all-append (push m k v) es fs

  entries_weaken :
      (m l : GoMap V) (k : Text) (v : V)
      → get m k ≡ none
      → All (λ e. get m e.0 ≡ some e.1) l
      → All (λ e. get ((k, v) ∷ m) e.0 ≡ some e.1) l
  unfolding get
  entries_weaken m [] k v n h = tt
  entries_weaken m ((j, w) ∷ l) k v n h = (ground (arith, eq_iff k j), entries_weaken m l k v n h.1)

  -- Each entry is what a lookup of its key gives.
  pub get_of_entries : (m : GoMap V) → IsDistinct m → All (λ e. get m e.0 ≡ some e.1) m
  get_of_entries [] d = tt
  get_of_entries ((k, v) ∷ m) d =
      (unfold get in rw (eq_refl k), entries_weaken m m k v d.0 (get_of_entries m d.1))

slice_of_get :
    {V : Type 0} (m : GoMap (List V)) (k : Text) (vs : List V)
    → get m k ≡ some vs
    → vs ≡ slice_at m k
unfolding slice_at
slice_of_get m k vs e = ground arith

module _ {V : Type 0} (es : List (Text × V)) where
  -- What a loop over a map built by `push_all` meets.
  abbrev pub IsSlice : Text × List V → Type 0
  IsSlice (k, vs) = (vs ≡ values_on k es) × HasItem (k, vs)

  slices :
      (l : GoMap (List V))
      → All (λ e. get (push_all [] es) e.0 ≡ some e.1) l
      → All HasItem l
      → All IsSlice l
  slices [] h n = tt
  slices ((k, vs) ∷ l) h n =
      ((slice_of_get (push_all [] es) k vs h.0 ∙ slice_at-push_all_nil es k, n.0), slices l h.1 n.1)

  pub visited_slices : (go : Runtime) → All IsSlice (go.range (List V) (push_all [] es))
  visited_slices go =
      let m : GoMap (List V) = push_all [] es in
      let filed = push_all-AreFiled [] es (tt, tt) in
      let back = Permᴰ.symm (go.range_perm (List V) m) in
      slices (go.range (List V) m)
        (All-perm (λ e. get m e.0 ≡ some e.1) back (get_of_entries m filed.0))
        (All-perm HasItem back filed.1)
