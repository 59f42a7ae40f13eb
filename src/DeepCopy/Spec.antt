-- ===== src/DeepCopy/Spec.antt =====
-- Deep copies of the specification and the status of a SmartLimiter.
use limiter.Prelude.{◌≡◌, refl, Option}
use limiter.GoMap.{GoMap, Runtime}
use limiter.Memory.{Ref, SpecStruct, Memory}
use limiter.Memory.Kinds.{descriptors, table}
use limiter.DeepCopy.{copy_ref, copy_unknown, copy_descriptors, copy_table, copy_spec}
use limiter.DeepCopy.Copies.{
  Extends-trans, Extends-Kept, Makes-pure, Makes-bind, Copies, IsStable, ValidRef, CopiedRef,
  CopiedRef-IsStable, copy_ref-Copies,
}
use limiter.DeepCopy.Structs.{
  ValidUnknown, CopiedUnknown, CopiedUnknown-IsStable, copy_unknown-Copies,
}
use limiter.DeepCopy.Descriptors.{
  ValidDescriptors, CopiedDescriptors, CopiedDescriptors-IsStable, copy_descriptors-Copies,
}
use limiter.DeepCopy.Tables.{CopiedTable, CopiedTable-IsStable, ValidTable, copy_entries-Copies}

module _ (h0 : Memory) (go : Runtime) where
  abbrev pub ValidSets : GoMap (Option Ref) → Type 0
  ValidSets =
      ValidTable h0 (ValidRef h0 descriptors (ValidDescriptors h0) (CopiedDescriptors h0))
        (CopiedRef h0 descriptors (ValidDescriptors h0) (CopiedDescriptors h0))
        (CopiedRef-IsStable h0 descriptors (ValidDescriptors h0) (CopiedDescriptors h0)
          (CopiedDescriptors-IsStable h0))

  abbrev pub CopiedSets : Memory → GoMap (Option Ref) → GoMap (Option Ref) → Type 0
  CopiedSets =
      CopiedTable h0 (ValidRef h0 descriptors (ValidDescriptors h0) (CopiedDescriptors h0))
        (CopiedRef h0 descriptors (ValidDescriptors h0) (CopiedDescriptors h0))
        (CopiedRef-IsStable h0 descriptors (ValidDescriptors h0) (CopiedDescriptors h0)
          (CopiedDescriptors-IsStable h0))

  pub CopiedSets-IsStable : IsStable h0 CopiedSets
  CopiedSets-IsStable =
      CopiedTable-IsStable h0 (ValidRef h0 descriptors (ValidDescriptors h0) (CopiedDescriptors h0))
        (CopiedRef h0 descriptors (ValidDescriptors h0) (CopiedDescriptors h0))
        (CopiedRef-IsStable h0 descriptors (ValidDescriptors h0) (CopiedDescriptors h0)
          (CopiedDescriptors-IsStable h0))

  pub copy_table-Copies : Copies h0 ValidSets CopiedSets (copy_table go)
  unfolding copy_table
  copy_table-Copies =
      copy_entries-Copies h0 (ValidRef h0 descriptors (ValidDescriptors h0) (CopiedDescriptors h0))
        (CopiedRef h0 descriptors (ValidDescriptors h0) (CopiedDescriptors h0))
        (CopiedRef-IsStable h0 descriptors (ValidDescriptors h0) (CopiedDescriptors h0)
          (CopiedDescriptors-IsStable h0))
        go (copy_ref descriptors copy_descriptors)
        (copy_ref-Copies h0 descriptors (ValidDescriptors h0) (CopiedDescriptors h0)
          copy_descriptors (CopiedDescriptors-IsStable h0) (copy_descriptors-Copies h0))

  abbrev pub ValidSpec : SpecStruct → Type 0
  ValidSpec s = ValidRef h0 table ValidSets CopiedSets s.sets × ValidUnknown h0 s.unknown

  abbrev pub CopiedSpec : Memory → SpecStruct → SpecStruct → Type 0
  CopiedSpec h s w =
      (w.rls ≡ s.rls)
      × CopiedRef h0 table ValidSets CopiedSets h s.sets w.sets
      × CopiedUnknown h0 h s.unknown w.unknown

  pub CopiedSpec-IsStable : IsStable h0 CopiedSpec
  CopiedSpec-IsStable h h' s w e (r, c, u) = (
    r,
    CopiedRef-IsStable h0 table ValidSets CopiedSets CopiedSets-IsStable h h' s.sets w.sets e c,
    CopiedUnknown-IsStable h0 h h' s.unknown w.unknown e u,
  )

  pub copy_spec-Copies : Copies h0 ValidSpec CopiedSpec (copy_spec go)
  unfolding copy_spec
  copy_spec-Copies h s free e (vs, vu) =
      Makes-bind h (copy_ref table (copy_table go) s.sets) _
        (copy_ref-Copies h0 table ValidSets CopiedSets (copy_table go) CopiedSets-IsStable
          copy_table-Copies h s.sets free e vs)
        (λ sets h1 free1 e1 c.
          Makes-bind h1 (copy_unknown s.unknown) _
            (copy_unknown-Copies h0 h1 s.unknown free1 (Extends-trans h0 h h1 e e1) vu)
            (λ u h2 free2 e2 cu.
              Makes-pure h2 (record s { sets = sets; unknown = u }) free2
                (
                  refl,
                  CopiedRef-IsStable h0 table ValidSets CopiedSets CopiedSets-IsStable h1 h2 s.sets
                      sets (Extends-Kept h0 h1 h2 e2) c,
                  cu,
                )))
