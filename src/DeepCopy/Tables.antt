-- ===== src/DeepCopy/Tables.antt =====
-- Copies of maps to pointers, whatever order their entries are visited in.
use limiter.Prelude.{
  ◌≡◌, refl, sym, subst, ◌∙◌, [], ◌∷◌, Option, none, some, All, Bool-cases, inl, inr,
}
use mathlib.Core.List.Permᴰ
use limiter.Text.{Text, ◌==◌, eq_iff}
use limiter.GoMap.{GoMap, get, set, Runtime, IsDistinct}
use limiter.GoMap.Laws.{get-set}
use limiter.GoMap.Range.{get-perm, All-perm}
use limiter.Memory.{Ref, Memory, Using}
use limiter.DeepCopy.{copy_entries}
use limiter.DeepCopy.Copies.{
  IsFree, Extends, Extends-trans, Extends-Kept, Kept, Makes, Makes-pure, Makes-bind, Copies,
  IsStable,
}

module _ (h0 : Memory) (Valid : Option Ref → Type 0)
    (Copied : Memory → Option Ref → Option Ref → Type 0) (stable : IsStable h0 Copied) where
  -- Under a key stands the copy of what the original has under it, or else what was there before.
  abbrev pub EntryCopied :
      Memory → Option (Option Ref) → Option (Option Ref) → Option (Option Ref) → Type 0
  EntryCopied h none old new = new ≡ old
  EntryCopied h (some v) old new = (w : Option Ref) × (new ≡ some w) × Copied h v w

  EntryCopied-grows :
      (h h' : Memory) (o old new : Option (Option Ref))
      → Kept h0 h h'
      → EntryCopied h o old new
      → EntryCopied h' o old new
  EntryCopied-grows h h' none old new e c = c
  EntryCopied-grows h h' (some v) old new e (w, f, c) = (w, f, stable h h' v w e c)

  abbrev pub CopiedTable : Memory → GoMap (Option Ref) → GoMap (Option Ref) → Type 0
  CopiedTable h m m' = (j : Text) → EntryCopied h (get m j) none (get m' j)

  pub CopiedTable-IsStable : IsStable h0 CopiedTable
  CopiedTable-IsStable h h' m m' e c = λ j. EntryCopied-grows h h' (get m j) none (get m' j) e (c j)

  -- One round of the loop and then the others.
  entry_next :
      (h h' : Memory) (k j : Text) (v w : Option Ref) (es out m' : GoMap (Option Ref))
      → Extends h h'
      → get es k ≡ none
      → Copied h v w
      → EntryCopied h' (get es j) (get (set out k w) j) (get m' j)
      → EntryCopied h' (get ((k, v) ∷ es) j) (get out j) (get m' j)
  unfolding get
  entry_next h h' k j v w es out m' e absent c rest = elim (Bool-cases (k == j)) [
    | inl same ↦
        let there : get es j ≡ none = subst (λ x. get es x ≡ none) ((eq_iff k j).0 same) absent in
        let new : get m' j ≡ get (set out k w) j =
          subst (λ o. EntryCopied h' o (get (set out k w) j) (get m' j)) there rest in
        rw same
          (w, new ∙ get-set out k j w ∙ rw same refl, stable h h' v w (Extends-Kept h0 h h' e) c)
    | inr other ↦ rw other (
        subst (λ o. EntryCopied h' (get es j) o (get m' j)) (get-set out k j w ∙ rw other refl)
          rest)
  ]

  entries_done :
      (copy : Option Ref → Using (Option Ref))
      → Copies h0 Valid Copied copy
      → (h : Memory) (es out : GoMap (Option Ref)) → IsFree h
      → Extends h0 h
      → IsDistinct es
      → All (λ e. Valid e.1) es
      → Makes h
          (copy_entries copy es out)
          (λ h' m'. (j : Text) → EntryCopied h' (get es j) (get out j) (get m' j))
  unfolding copy_entries get
  entries_done copy copies h [] out free e d v = Makes-pure h out free (λ j. refl)
  entries_done copy copies h ((k, v) ∷ es) out free e (absent, d) (valid, vs) =
      Makes-bind h (copy v) _ (copies h v free e valid) (λ w h1 free1 e1 c.
        let (m', h2, same, free2, e2, all) =
          entries_done copy copies h1 es (set out k w) free1 (Extends-trans h0 h h1 e e1) d vs in
        (m', h2, same, free2, e2, λ j. entry_next h1 h2 k j v w es out m' e2 absent c (all j)))

  abbrev pub ValidTable : GoMap (Option Ref) → Type 0
  ValidTable m = IsDistinct m × All (λ e. Valid e.1) m

  pub copy_entries-Copies :
      (go : Runtime) (copy : Option Ref → Using (Option Ref))
      → Copies h0 Valid Copied copy
      → Copies h0 ValidTable CopiedTable (λ m. copy_entries copy (go.range (Option Ref) m) [])
  unfolding get
  copy_entries-Copies go copy copies h m free e (d, v) =
      let perm = Permᴰ.symm (go.range_perm (Option Ref) m) in
      let (same, d') = get-perm perm d in
      let (m', h', made, free', ext, all) =
        entries_done copy copies h (go.range (Option Ref) m) [] free e d' (All-perm _ perm v) in
      (
        m',
        h',
        made,
        free',
        ext,
        λ j. subst (λ o. EntryCopied h' o none (get m' j)) (sym (same j)) (all j),
      )
