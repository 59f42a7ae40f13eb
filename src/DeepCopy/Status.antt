-- ===== src/DeepCopy/Status.antt =====
-- Copies of the status.
use limiter.Prelude.{◌≡◌, refl, ◌∙◌, [], Option, none, some}
use limiter.Text.{Text}
use limiter.GoMap.{GoMap, get, set_all, Runtime, IsDistinct}
use limiter.GoMap.Range.{get-set_all_range}
use limiter.Memory.{StatusStruct, Memory}
use limiter.Memory.Kinds.{table, strings}
use limiter.DeepCopy.{copy_ref, copy_unknown, copy_table, copy_strings, copy_status}
use limiter.DeepCopy.Copies.{
  Extends-trans, Extends-Kept, Makes-pure, Makes-bind, Copies, IsStable, ValidRef, CopiedRef,
  CopiedRef-IsStable, copy_ref-Copies,
}
use limiter.DeepCopy.Structs.{
  ValidUnknown, CopiedUnknown, CopiedUnknown-IsStable, copy_unknown-Copies,
}
use limiter.DeepCopy.Spec.{ValidSets, CopiedSets, CopiedSets-IsStable, copy_table-Copies}

by_key : (o : Option Text) → elim o [ none ↦ none | some v ↦ some v ] ≡ o
by_key none = refl
by_key (some v) = refl

module _ (h0 : Memory) (go : Runtime) where
  -- Every key has the same value.
  abbrev pub CopiedStrings : Memory → GoMap Text → GoMap Text → Type 0
  CopiedStrings h m m' = (j : Text) → get m' j ≡ get m j

  CopiedStrings-IsStable : IsStable h0 CopiedStrings
  CopiedStrings-IsStable h h' m m' e c = c

  copy_strings-Copies : Copies h0 IsDistinct CopiedStrings (copy_strings go)
  unfolding copy_strings get
  copy_strings-Copies h m free e d =
      Makes-pure h (set_all [] (go.range Text m)) free
        (λ j. get-set_all_range go [] m j d ∙ by_key (get m j))

  abbrev pub ValidStatus : StatusStruct → Type 0
  ValidStatus s =
      ValidRef h0 table (ValidSets h0 go) (CopiedSets h0 go) s.ratelimit_status
      × ValidRef h0 strings IsDistinct CopiedStrings s.metric_status
      × ValidUnknown h0 s.unknown

  abbrev pub CopiedStatus : Memory → StatusStruct → StatusStruct → Type 0
  CopiedStatus h s w =
      CopiedRef h0 table (ValidSets h0 go) (CopiedSets h0 go) h s.ratelimit_status
        w.ratelimit_status
      × CopiedRef h0 strings IsDistinct CopiedStrings h s.metric_status w.metric_status
      × CopiedUnknown h0 h s.unknown w.unknown

  pub CopiedStatus-IsStable : IsStable h0 CopiedStatus
  CopiedStatus-IsStable h h' s w e (r, m, u) = (
    CopiedRef-IsStable h0 table (ValidSets h0 go) (CopiedSets h0 go) (CopiedSets-IsStable h0 go) h
        h' s.ratelimit_status w.ratelimit_status e r,
    CopiedRef-IsStable h0 strings IsDistinct CopiedStrings CopiedStrings-IsStable h h'
        s.metric_status w.metric_status e m,
    CopiedUnknown-IsStable h0 h h' s.unknown w.unknown e u,
  )

  pub copy_status-Copies : Copies h0 ValidStatus CopiedStatus (copy_status go)
  unfolding copy_status
  copy_status-Copies h s free e (vr, vm, vu) =
      Makes-bind h (copy_ref table (copy_table go) s.ratelimit_status) _
        (copy_ref-Copies h0 table (ValidSets h0 go) (CopiedSets h0 go) (copy_table go)
          (CopiedSets-IsStable h0 go) (copy_table-Copies h0 go) h s.ratelimit_status free e vr)
        (λ r h1 free1 e1 cr.
          let f1 = Extends-trans h0 h h1 e e1 in
          Makes-bind h1 (copy_ref strings (copy_strings go) s.metric_status) _
            (copy_ref-Copies h0 strings IsDistinct CopiedStrings (copy_strings go)
              CopiedStrings-IsStable copy_strings-Copies h1 s.metric_status free1 f1 vm)
            (λ m h2 free2 e2 cm.
              Makes-bind h2 (copy_unknown s.unknown) _
                (copy_unknown-Copies h0 h2 s.unknown free2 (Extends-trans h0 h1 h2 f1 e2) vu)
                (λ u h3 free3 e3 cu.
                  Makes-pure h3 (record s { ratelimit_status = r; metric_status = m; unknown = u })
                    free3
                    (
                      CopiedRef-IsStable h0 table (ValidSets h0 go) (CopiedSets h0 go)
                          (CopiedSets-IsStable h0 go) h1 h3 s.ratelimit_status r
                          (Extends-Kept h0 h1 h3 (Extends-trans h1 h2 h3 e2 e3)) cr,
                      CopiedRef-IsStable h0 strings IsDistinct CopiedStrings CopiedStrings-IsStable
                          h2 h3 s.metric_status m (Extends-Kept h0 h2 h3 e3) cm,
                      cu,
                    ))))
