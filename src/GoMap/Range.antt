-- ===== src/GoMap/Range.antt =====
-- Lookups and the order of the entries.
use limiter.Prelude.{
  ◌≡◌, refl, ◌∙◌, sym, List, none, some, arith, inl, inr, Option-cases, All, subst,
}
use mathlib.Core.List.{Permᴰ}
use mathlib.Core.List.Permᴰ
use limiter.Text.{Text, eq_iff, eq_comm}
use limiter.GoMap.{GoMap, get, IsDistinct, Runtime, set_all}
use limiter.GoMap.Laws.{get-set_all_absent, get-set_all_present}

module _ {V : Type 0} where
  -- Entries in another order give the same lookups, and keep the keys distinct.
  pub get-perm :
      {l m : GoMap V} → Permᴰ l m → IsDistinct l → ((k : Text) → get l k ≡ get m k) × IsDistinct m
  unfolding get
  get-perm Permᴰ.nil d = (λ k. refl, tt)
  get-perm (Permᴰ.cons {a = x} {b = y} {l₁ = l} {l₂ = m} e p) d =
      let (same, d') = get-perm p d.1 in
      (λ k. ground (arith, same k), (ground (arith, same y.0), d'))
  get-perm (Permᴰ.swap {a = x} {b = y} {a' = u} {b' = w} {l = l} e f) d = (
    λ k. ground (arith, eq_iff x.0 k, eq_iff y.0 k, eq_iff y.0 x.0, eq_iff u.0 k, eq_iff w.0 k),
    (
      ground (arith, eq_iff w.0 u.0, eq_iff y.0 x.0, eq_comm w.0 u.0),
      (ground (arith, eq_iff y.0 x.0), ground (arith, eq_iff y.0 x.0)),
    ),
  )
  get-perm (Permᴰ.trans p q) d =
      let (same, d') = get-perm p d in
      let (same', d'') = get-perm q d' in (λ k. same k ∙ same' k, d'')

-- `for k, v := range es { m[k] = v }` in any order: the new entries over the old ones.
pub get-set_all_range :
    (go : Runtime) {V : Type 0} (m es : GoMap V) (j : Text)
    → IsDistinct es
    → get (set_all m (go.range V es)) j ≡ elim (get es j) [ none ↦ get m j | some v ↦ some v ]
get-set_all_range go {V} m es j d =
    let (same, d') = get-perm (Permᴰ.symm (go.range_perm V es)) d in
    elim (Option-cases (get es j)) [
      | inl e ↦ rw e (get-set_all_absent (go.range V es) m j (sym (same j) ∙ e))
      | inr (v, e) ↦ rw e (get-set_all_present (go.range V es) m j d' (sym (same j) ∙ e))
    ]

-- Nothing but the permutation matters to a runtime that visits the entries as they stand.
abbrev pub in_order : Runtime
in_order = record { range = λ V m. m; range_perm = λ V m. Permᴰ.refl m }

-- What holds of all entries holds of them in any order.
pub All-perm {ℓ κ} : {A : Type ℓ} (P : A → Type κ) {l m : List A} → Permᴰ l m → All P l → All P m
All-perm P Permᴰ.nil h = tt
All-perm P (Permᴰ.cons e p) h = (subst P e h.0, All-perm P p h.1)
All-perm P (Permᴰ.swap e f) h = (subst P f h.1.0, (subst P e h.0, h.1.1))
All-perm P (Permᴰ.trans p q) h = All-perm P q (All-perm P p h)
