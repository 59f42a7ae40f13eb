-- ===== src/DeepCopy/Structs.antt =====
-- Copies of the structs of a descriptor.
use limiter.Prelude.{◌≡◌, refl}
use limiter.Memory.{
  Unknown, DurationStruct, ActionStruct, HeaderMatcherStruct, TargetStruct, Memory, pure,
}
use limiter.Memory.Kinds.{bytes, duration}
use limiter.DeepCopy.{copy_ref, copy_unknown, copy_duration, copy_action, copy_matcher, copy_target}
use limiter.DeepCopy.Copies.{
  Extends-Kept, Extends-trans, Makes-pure, Makes-bind, Copies, IsStable, ValidRef, CopiedRef,
  CopiedRef-IsStable, copy_ref-Copies,
}

module _ (h0 : Memory) where
  -- Any content is valid, and its copy is the same.
  abbrev pub Anything : {A : Type 0} → A → Type 0
  Anything a = Unit

  abbrev pub Same : {A : Type 0} → Memory → A → A → Type 0
  Same h a b = b ≡ a

  pub Same-IsStable : {A : Type 0} → IsStable h0 {A = A} Same
  Same-IsStable h h' a b e c = c

  pure-Copies : {A : Type 0} → Copies h0 {A = A} Anything Same pure
  pure-Copies h a free e v = Makes-pure h a free refl

  abbrev pub ValidUnknown : Unknown → Type 0
  ValidUnknown u = ValidRef h0 bytes Anything Same u.unrecognized

  abbrev pub CopiedUnknown : Memory → Unknown → Unknown → Type 0
  CopiedUnknown h u w =
      CopiedRef h0 bytes Anything Same h u.unrecognized w.unrecognized × (w.sizecache ≡ u.sizecache)

  pub CopiedUnknown-IsStable : IsStable h0 CopiedUnknown
  CopiedUnknown-IsStable h h' u w e (c, same) = (
    CopiedRef-IsStable h0 bytes Anything Same Same-IsStable h h' u.unrecognized w.unrecognized e c,
    same,
  )

  pub copy_unknown-Copies : Copies h0 ValidUnknown CopiedUnknown copy_unknown
  unfolding copy_unknown
  copy_unknown-Copies h u free e v =
      Makes-bind h (copy_ref bytes pure u.unrecognized) _
        (copy_ref-Copies h0 bytes Anything Same pure Same-IsStable pure-Copies h u.unrecognized free
          e v)
        (λ b h1 free1 e1 c. Makes-pure h1 (record u { unrecognized = b }) free1 (c, refl))

  abbrev pub ValidDuration : DurationStruct → Type 0
  ValidDuration d = ValidUnknown d.unknown

  abbrev pub CopiedDuration : Memory → DurationStruct → DurationStruct → Type 0
  CopiedDuration h d w =
      (w.seconds ≡ d.seconds) × (w.nanos ≡ d.nanos) × CopiedUnknown h d.unknown w.unknown

  CopiedDuration-IsStable : IsStable h0 CopiedDuration
  CopiedDuration-IsStable h h' d w e (s, n, c) =
      (s, n, CopiedUnknown-IsStable h h' d.unknown w.unknown e c)

  copy_duration-Copies : Copies h0 ValidDuration CopiedDuration copy_duration
  unfolding copy_duration
  copy_duration-Copies h d free e v =
      Makes-bind h (copy_unknown d.unknown) _ (copy_unknown-Copies h d.unknown free e v)
        (λ u h1 free1 e1 c. Makes-pure h1 (record d { unknown = u }) free1 (refl, refl, c))

  abbrev pub ValidAction : ActionStruct → Type 0
  ValidAction a =
      ValidRef h0 duration ValidDuration CopiedDuration a.fill_interval × ValidUnknown a.unknown

  abbrev pub CopiedAction : Memory → ActionStruct → ActionStruct → Type 0
  CopiedAction h a b =
      (b.quota ≡ a.quota)
      × (b.strategy ≡ a.strategy)
      × CopiedRef h0 duration ValidDuration CopiedDuration h a.fill_interval b.fill_interval
      × CopiedUnknown h a.unknown b.unknown

  pub CopiedAction-IsStable : IsStable h0 CopiedAction
  CopiedAction-IsStable h h' a b e (q, s, i, c) = (
    q,
    s,
    CopiedRef-IsStable h0 duration ValidDuration CopiedDuration CopiedDuration-IsStable h h'
        a.fill_interval b.fill_interval e i,
    CopiedUnknown-IsStable h h' a.unknown b.unknown e c,
  )

  pub copy_action-Copies : Copies h0 ValidAction CopiedAction copy_action
  unfolding copy_action
  copy_action-Copies h a free e (vi, vu) =
      Makes-bind h (copy_ref duration copy_duration a.fill_interval) _
        (copy_ref-Copies h0 duration ValidDuration CopiedDuration copy_duration
          CopiedDuration-IsStable copy_duration-Copies h a.fill_interval free e vi)
        (λ i h1 free1 e1 ci.
          Makes-bind h1 (copy_unknown a.unknown) _
            (copy_unknown-Copies h1 a.unknown free1 (Extends-trans h0 h h1 e e1) vu)
            (λ u h2 free2 e2 cu.
              Makes-pure h2 (record a { fill_interval = i; unknown = u }) free2
                (
                  refl,
                  refl,
                  CopiedRef-IsStable h0 duration ValidDuration CopiedDuration
                      CopiedDuration-IsStable h1 h2 a.fill_interval i (Extends-Kept h0 h1 h2 e2) ci,
                  cu,
                )))

  abbrev pub ValidMatcher : HeaderMatcherStruct → Type 0
  ValidMatcher m = ValidUnknown m.unknown

  -- The fields without a reference are the same.
  abbrev pub CopiedMatcher : Memory → HeaderMatcherStruct → HeaderMatcherStruct → Type 0
  CopiedMatcher h m w = (w ≡ record m { unknown = w.unknown }) × CopiedUnknown h m.unknown w.unknown

  pub CopiedMatcher-IsStable : IsStable h0 CopiedMatcher
  CopiedMatcher-IsStable h h' m w e (s, c) =
      (s, CopiedUnknown-IsStable h h' m.unknown w.unknown e c)

  pub copy_matcher-Copies : Copies h0 ValidMatcher CopiedMatcher copy_matcher
  unfolding copy_matcher
  copy_matcher-Copies h m free e v =
      Makes-bind h (copy_unknown m.unknown) _ (copy_unknown-Copies h m.unknown free e v)
        (λ u h1 free1 e1 c. Makes-pure h1 (record m { unknown = u }) free1 (refl, c))

  abbrev pub ValidTarget : TargetStruct → Type 0
  ValidTarget t = ValidUnknown t.unknown

  -- The copy has the references to the routes and the hosts of the original.
  abbrev pub CopiedTarget : Memory → TargetStruct → TargetStruct → Type 0
  CopiedTarget h t w = (w ≡ record t { unknown = w.unknown }) × CopiedUnknown h t.unknown w.unknown

  pub CopiedTarget-IsStable : IsStable h0 CopiedTarget
  CopiedTarget-IsStable h h' t w e (s, c) = (s, CopiedUnknown-IsStable h h' t.unknown w.unknown e c)

  pub copy_target-Copies : Copies h0 ValidTarget CopiedTarget copy_target
  unfolding copy_target
  copy_target-Copies h t free e v =
      Makes-bind h (copy_unknown t.unknown) _ (copy_unknown-Copies h t.unknown free e v)
        (λ u h1 free1 e1 c. Makes-pure h1 (record t { unknown = u }) free1 (refl, c))
