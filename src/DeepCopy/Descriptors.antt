-- ===== src/DeepCopy/Descriptors.antt =====
-- Copies of descriptors and of lists of them.
use limiter.Prelude.{◌≡◌, refl, List, Option, All}
use limiter.Memory.{Ref, DescriptorStruct, DescriptorsStruct, Memory}
use limiter.Memory.Kinds.{refs, action, matcher, target, descriptor}
use limiter.DeepCopy.{
  copy_ref, copy_items, copy_unknown, copy_action, copy_matcher, copy_target, copy_descriptor,
  copy_descriptors,
}
use limiter.DeepCopy.Copies.{
  Extends-trans, Extends-Kept, Makes-pure, Makes-bind, Copies, IsStable, ValidRef, CopiedRef,
  CopiedRef-IsStable, copy_ref-Copies, CopiedItems, CopiedItems-IsStable, copy_items-Copies,
}
use limiter.DeepCopy.Structs.{
  ValidUnknown, CopiedUnknown, CopiedUnknown-IsStable, copy_unknown-Copies, ValidAction,
  CopiedAction, CopiedAction-IsStable, copy_action-Copies, ValidMatcher, CopiedMatcher,
  CopiedMatcher-IsStable, copy_matcher-Copies, ValidTarget, CopiedTarget, CopiedTarget-IsStable,
  copy_target-Copies,
}

module _ (h0 : Memory) where
  abbrev pub ActionRef : Memory → Option Ref → Option Ref → Type 0
  ActionRef = CopiedRef h0 action (ValidAction h0) (CopiedAction h0)

  ActionRef-IsStable : IsStable h0 ActionRef
  ActionRef-IsStable =
      CopiedRef-IsStable h0 action (ValidAction h0) (CopiedAction h0) (CopiedAction-IsStable h0)

  abbrev pub ValidMatcherRef : Option Ref → Type 0
  ValidMatcherRef = ValidRef h0 matcher (ValidMatcher h0) (CopiedMatcher h0)

  abbrev pub MatcherRef : Memory → Option Ref → Option Ref → Type 0
  MatcherRef = CopiedRef h0 matcher (ValidMatcher h0) (CopiedMatcher h0)

  MatcherRef-IsStable : IsStable h0 MatcherRef
  MatcherRef-IsStable =
      CopiedRef-IsStable h0 matcher (ValidMatcher h0) (CopiedMatcher h0) (CopiedMatcher-IsStable h0)

  abbrev pub MatcherItems : Memory → List (Option Ref) → List (Option Ref) → Type 0
  MatcherItems = CopiedItems h0 ValidMatcherRef MatcherRef

  MatcherItems-IsStable : IsStable h0 MatcherItems
  MatcherItems-IsStable = CopiedItems-IsStable h0 ValidMatcherRef MatcherRef MatcherRef-IsStable

  abbrev pub MatchRef : Memory → Option Ref → Option Ref → Type 0
  MatchRef = CopiedRef h0 refs (All ValidMatcherRef) MatcherItems

  MatchRef-IsStable : IsStable h0 MatchRef
  MatchRef-IsStable =
      CopiedRef-IsStable h0 refs (All ValidMatcherRef) MatcherItems MatcherItems-IsStable

  abbrev pub TargetRef : Memory → Option Ref → Option Ref → Type 0
  TargetRef = CopiedRef h0 target (ValidTarget h0) (CopiedTarget h0)

  TargetRef-IsStable : IsStable h0 TargetRef
  TargetRef-IsStable =
      CopiedRef-IsStable h0 target (ValidTarget h0) (CopiedTarget h0) (CopiedTarget-IsStable h0)

  abbrev pub ValidDescriptor : DescriptorStruct → Type 0
  ValidDescriptor d =
      ValidRef h0 action (ValidAction h0) (CopiedAction h0) d.action
      × ValidRef h0 refs (All ValidMatcherRef) MatcherItems d.match
      × ValidRef h0 target (ValidTarget h0) (CopiedTarget h0) d.target
      × ValidUnknown h0 d.unknown

  abbrev pub CopiedDescriptor : Memory → DescriptorStruct → DescriptorStruct → Type 0
  CopiedDescriptor h d w =
      (w.condition ≡ d.condition)
      × (w.custom_key ≡ d.custom_key)
      × (w.custom_value ≡ d.custom_value)
      × ActionRef h d.action w.action
      × MatchRef h d.match w.match
      × TargetRef h d.target w.target
      × CopiedUnknown h0 h d.unknown w.unknown

  CopiedDescriptor-IsStable : IsStable h0 CopiedDescriptor
  CopiedDescriptor-IsStable h h' d w e (c, key, value, a, m, t, u) = (
    c,
    key,
    value,
    ActionRef-IsStable h h' d.action w.action e a,
    MatchRef-IsStable h h' d.match w.match e m,
    TargetRef-IsStable h h' d.target w.target e t,
    CopiedUnknown-IsStable h0 h h' d.unknown w.unknown e u,
  )

  copy_match-Copies :
      Copies h0
        (ValidRef h0 refs (All ValidMatcherRef) MatcherItems)
        MatchRef
        (copy_ref refs (copy_items (copy_ref matcher copy_matcher)))
  copy_match-Copies =
      copy_ref-Copies h0 refs (All ValidMatcherRef) MatcherItems
        (copy_items (copy_ref matcher copy_matcher)) MatcherItems-IsStable
        (copy_items-Copies h0 ValidMatcherRef MatcherRef (copy_ref matcher copy_matcher)
          MatcherRef-IsStable
          (copy_ref-Copies h0 matcher (ValidMatcher h0) (CopiedMatcher h0) copy_matcher
            (CopiedMatcher-IsStable h0) (copy_matcher-Copies h0)))

  copy_descriptor-Copies : Copies h0 ValidDescriptor CopiedDescriptor copy_descriptor
  unfolding copy_descriptor
  copy_descriptor-Copies h d free e (va, vm, vt, vu) =
      Makes-bind h (copy_ref action copy_action d.action) _
        (copy_ref-Copies h0 action (ValidAction h0) (CopiedAction h0) copy_action
          (CopiedAction-IsStable h0) (copy_action-Copies h0) h d.action free e va)
        (λ a h1 free1 e1 ca.
          let f1 = Extends-trans h0 h h1 e e1 in
          Makes-bind h1 (copy_ref refs (copy_items (copy_ref matcher copy_matcher)) d.match) _
            (copy_match-Copies h1 d.match free1 f1 vm)
            (λ m h2 free2 e2 cm.
              let f2 = Extends-trans h0 h1 h2 f1 e2 in
              Makes-bind h2 (copy_ref target copy_target d.target) _
                (copy_ref-Copies h0 target (ValidTarget h0) (CopiedTarget h0) copy_target
                  (CopiedTarget-IsStable h0) (copy_target-Copies h0) h2 d.target free2 f2 vt)
                (λ t h3 free3 e3 ct.
                  Makes-bind h3 (copy_unknown d.unknown) _
                    (copy_unknown-Copies h0 h3 d.unknown free3 (Extends-trans h0 h2 h3 f2 e3) vu)
                    (λ u h4 free4 e4 cu.
                      let g3 = Extends-trans h2 h3 h4 e3 e4 in
                      Makes-pure h4 (record d { action = a; match = m; target = t; unknown = u })
                        free4
                        (
                          refl,
                          refl,
                          refl,
                          ActionRef-IsStable h1 h4 d.action a
                              (Extends-Kept h0 h1 h4 (Extends-trans h1 h2 h4 e2 g3)) ca,
                          MatchRef-IsStable h2 h4 d.match m (Extends-Kept h0 h2 h4 g3) cm,
                          TargetRef-IsStable h3 h4 d.target t (Extends-Kept h0 h3 h4 e4) ct,
                          cu,
                        )))))

  abbrev pub ValidDescriptorRef : Option Ref → Type 0
  ValidDescriptorRef = ValidRef h0 descriptor ValidDescriptor CopiedDescriptor

  abbrev pub DescriptorRef : Memory → Option Ref → Option Ref → Type 0
  DescriptorRef = CopiedRef h0 descriptor ValidDescriptor CopiedDescriptor

  DescriptorRef-IsStable : IsStable h0 DescriptorRef
  DescriptorRef-IsStable =
      CopiedRef-IsStable h0 descriptor ValidDescriptor CopiedDescriptor CopiedDescriptor-IsStable

  abbrev pub DescriptorItems : Memory → List (Option Ref) → List (Option Ref) → Type 0
  DescriptorItems = CopiedItems h0 ValidDescriptorRef DescriptorRef

  DescriptorItems-IsStable : IsStable h0 DescriptorItems
  DescriptorItems-IsStable =
      CopiedItems-IsStable h0 ValidDescriptorRef DescriptorRef DescriptorRef-IsStable

  abbrev pub ValidDescriptors : DescriptorsStruct → Type 0
  ValidDescriptors d =
      ValidRef h0 refs (All ValidDescriptorRef) DescriptorItems d.descriptor
      × ValidUnknown h0 d.unknown

  abbrev pub CopiedDescriptors : Memory → DescriptorsStruct → DescriptorsStruct → Type 0
  CopiedDescriptors h d w =
      CopiedRef h0 refs (All ValidDescriptorRef) DescriptorItems h d.descriptor w.descriptor
      × CopiedUnknown h0 h d.unknown w.unknown

  pub CopiedDescriptors-IsStable : IsStable h0 CopiedDescriptors
  CopiedDescriptors-IsStable h h' d w e (c, u) = (
    CopiedRef-IsStable h0 refs (All ValidDescriptorRef) DescriptorItems DescriptorItems-IsStable h
        h' d.descriptor w.descriptor e c,
    CopiedUnknown-IsStable h0 h h' d.unknown w.unknown e u,
  )

  pub copy_descriptors-Copies : Copies h0 ValidDescriptors CopiedDescriptors copy_descriptors
  unfolding copy_descriptors
  copy_descriptors-Copies h d free e (vd, vu) =
      Makes-bind h (copy_ref refs (copy_items (copy_ref descriptor copy_descriptor)) d.descriptor) _
        (copy_ref-Copies h0 refs (All ValidDescriptorRef) DescriptorItems
          (copy_items (copy_ref descriptor copy_descriptor)) DescriptorItems-IsStable
          (copy_items-Copies h0 ValidDescriptorRef DescriptorRef
            (copy_ref descriptor copy_descriptor) DescriptorRef-IsStable
            (copy_ref-Copies h0 descriptor ValidDescriptor CopiedDescriptor copy_descriptor
              CopiedDescriptor-IsStable copy_descriptor-Copies))
          h d.descriptor free e vd)
        (λ ds h1 free1 e1 cd.
          Makes-bind h1 (copy_unknown d.unknown) _
            (copy_unknown-Copies h0 h1 d.unknown free1 (Extends-trans h0 h h1 e e1) vu)
            (λ u h2 free2 e2 cu.
              Makes-pure h2 (record d { descriptor = ds; unknown = u }) free2
                (
                  CopiedRef-IsStable h0 refs (All ValidDescriptorRef) DescriptorItems
                      DescriptorItems-IsStable h1 h2 d.descriptor ds (Extends-Kept h0 h1 h2 e2) cd,
                  cu,
                )))
