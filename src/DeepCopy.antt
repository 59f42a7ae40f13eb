-- ===== src/DeepCopy.antt =====
-- api/v1alpha2/zz_generated.deepcopy.go: the copies that client libraries make of resources, so that
-- a caller may change its copy. `DeepCopyInto` is here the function that gives the struct that is
-- written, and `DeepCopy` the one from a pointer to a new pointer.
pub mod Copies
pub mod Structs
pub mod Descriptors
pub mod Tables
pub mod Spec
pub mod Status
pub mod Resource
use limiter.Prelude.{List, [], ◌∷◌, Option, none, some}
use limiter.Text.{Text}
use limiter.GoMap.{GoMap, set, set_all, Runtime}
use limiter.Memory.{
  Ref, Unknown, DurationStruct, ActionStruct, HeaderMatcherStruct, TargetStruct, DescriptorStruct,
  DescriptorsStruct, SpecStruct, StatusStruct, LimiterStruct, ResourceStruct, Kind, Using, pure,
  ◌>>=◌, load, alloc,
}
use limiter.Memory.Kinds.{
  nanoseconds, bytes, refs, table, strings, duration, action, matcher, target, descriptor,
  descriptors, spec, status,
}

-- The copy of what a reference leads to, with `into` for the content; nil stays nil. With the
-- `DeepCopyInto` of a type this is its `DeepCopy`.
pub copy_ref : {A : Type 0} → Kind A → (A → Using A) → Option Ref → Using (Option Ref)
unfolding load alloc
copy_ref k into none = pure none
copy_ref k into (some p) = do a ← load k p; b ← into a; q ← alloc k b; pure (some q)

-- The loop over a slice, of pointers or of structs.
pub copy_items : {A : Type 0} → (A → Using A) → List A → Using (List A)
copy_items into [] = pure []
copy_items into (a ∷ rest) = do b ← into a; bs ← copy_items into rest; pure (b ∷ bs)

-- The loop over a map to pointers; `out` is what is written so far.
pub copy_entries :
    (Option Ref → Using (Option Ref))
    → List (Text × Option Ref)
    → GoMap (Option Ref)
    → Using (GoMap (Option Ref))
copy_entries copy [] out = pure out
copy_entries copy ((key, val) ∷ es) out = do
  out_val ← copy val
  copy_entries copy es (set out key out_val)

pub copy_unknown : Unknown → Using Unknown
unfolding copy_ref
copy_unknown u = do b ← copy_ref bytes pure u.unrecognized; pure (record u { unrecognized = b })

pub copy_duration : DurationStruct → Using DurationStruct
unfolding copy_unknown
copy_duration d = do u ← copy_unknown d.unknown; pure (record d { unknown = u })

pub copy_action : ActionStruct → Using ActionStruct
unfolding copy_unknown copy_duration
copy_action a = do
  fill_interval ← copy_ref duration copy_duration a.fill_interval
  u ← copy_unknown a.unknown
  pure (record a { fill_interval = fill_interval; unknown = u })

pub copy_matcher : HeaderMatcherStruct → Using HeaderMatcherStruct
unfolding copy_unknown
copy_matcher m = do u ← copy_unknown m.unknown; pure (record m { unknown = u })

-- The slices of routes and hosts are not copied.
unfoldable pub copy_target : TargetStruct → Using TargetStruct
unfolding copy_unknown
copy_target t = do u ← copy_unknown t.unknown; pure (record t { unknown = u })

pub copy_descriptor : DescriptorStruct → Using DescriptorStruct
unfolding copy_ref copy_items copy_action copy_matcher copy_target copy_unknown
copy_descriptor d = do
  act ← copy_ref action copy_action d.action
  match ← copy_ref refs (copy_items (copy_ref matcher copy_matcher)) d.match
  tgt ← copy_ref target copy_target d.target
  u ← copy_unknown d.unknown
  pure (record d { action = act; match = match; target = tgt; unknown = u })

pub copy_descriptors : DescriptorsStruct → Using DescriptorsStruct
unfolding copy_ref copy_items copy_descriptor copy_unknown
copy_descriptors d = do
  ds ← copy_ref refs (copy_items (copy_ref descriptor copy_descriptor)) d.descriptor
  u ← copy_unknown d.unknown
  pure (record d { descriptor = ds; unknown = u })

module _ (go : Runtime) where
  pub copy_table : GoMap (Option Ref) → Using (GoMap (Option Ref))
  unfolding copy_ref copy_entries copy_descriptors
  copy_table m = copy_entries (copy_ref descriptors copy_descriptors) (go.range (Option Ref) m) []

  pub copy_spec : SpecStruct → Using SpecStruct
  unfolding copy_ref copy_table copy_unknown
  copy_spec s = do
    sets ← copy_ref table copy_table s.sets
    u ← copy_unknown s.unknown
    pure (record s { sets = sets; unknown = u })

  pub copy_strings : GoMap Text → Using (GoMap Text)
  copy_strings m = pure (set_all [] (go.range Text m))

  pub copy_status : StatusStruct → Using StatusStruct
  unfolding copy_ref copy_table copy_strings copy_unknown
  copy_status s = do
    ratelimit_status ← copy_ref table copy_table s.ratelimit_status
    metric_status ← copy_ref strings copy_strings s.metric_status
    u ← copy_unknown s.unknown
    pure (record s {
      ratelimit_status = ratelimit_status;
      metric_status = metric_status;
      unknown = u;
    })

pub copy_limiter : LimiterStruct → Using LimiterStruct
unfolding copy_ref copy_unknown
copy_limiter l = do
  refresh ← copy_ref nanoseconds pure l.refresh
  u ← copy_unknown l.unknown
  pure (record l { refresh = refresh; unknown = u })

-- `copy_meta` is the copy of `ObjectMeta`, which is Kubernetes'.
module _ (go : Runtime) {Meta : Type 0} (copy_meta : Meta → Using Meta) where
  pub copy_resource : ResourceStruct Meta → Using (ResourceStruct Meta)
  unfolding copy_spec copy_status
  copy_resource r = do
    m ← copy_meta r.object_meta
    s ← copy_spec go r.spec
    st ← copy_status go r.status
    pure (record r { object_meta = m; spec = s; status = st })

  -- The items of a `SmartLimiterList`
  pub copy_resources : List (ResourceStruct Meta) → Using (List (ResourceStruct Meta))
  unfolding copy_items copy_resource
  copy_resources rs = copy_items copy_resource rs
