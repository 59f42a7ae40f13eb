-- ===== src/DeepCopy/Resource.antt =====
-- Deep copies of a SmartLimiter, and writes through the original and through the copy.
use limiter.Prelude.{◌≡◌, refl, ap, sym, ◌∙◌, List, Option, none, some, arith, All}
use limiter.Text.{Text}
use limiter.GoMap.{Runtime}
use limiter.Memory.{
  Ref, Cell, Kind, Unknown, TargetStruct, ResourceStruct, Memory, Using, pure, load, store,
}
use limiter.Memory.Kinds.{texts}
use limiter.DeepCopy.{
  copy_unknown, copy_target, copy_spec, copy_status, copy_resource, copy_resources,
}
use limiter.DeepCopy.Copies.{
  IsFree, Extends-refl, Extends-trans, Extends-Kept, Makes-pure, Makes-bind, Copies, IsStable,
  CopiedItems, copy_items-Copies, bind-some, bind-none, load-cell,
}
use limiter.DeepCopy.Spec.{ValidSpec, CopiedSpec, CopiedSpec-IsStable, copy_spec-Copies}
use limiter.DeepCopy.Status.{ValidStatus, CopiedStatus, CopiedStatus-IsStable, copy_status-Copies}

-- What Kubernetes' `ObjectMeta` and its `DeepCopyInto` do.
pub record MetaCopy : Type 1 where
  pub Meta : Type 0
  pub copy_meta : Meta → Using Meta
  pub ValidMeta : Memory → Meta → Type 0
  pub CopiedMeta : Memory → Memory → Meta → Meta → Type 0
  pub stable : (h0 : Memory) → IsStable h0 (CopiedMeta h0)
  pub copies : (h0 : Memory) → Copies h0 (ValidMeta h0) (CopiedMeta h0) copy_meta

module _ (go : Runtime) (lib : MetaCopy) (h0 : Memory) where
  -- Every reference of a resource leads to a cell of its kind.
  abbrev pub ValidResource : ResourceStruct lib.Meta → Type 0
  ValidResource r =
      lib.ValidMeta h0 r.object_meta × ValidSpec h0 go r.spec × ValidStatus h0 go r.status

  -- The fields of the copy are those of the original; its references lead to cells of its own, with
  -- copies in them.
  abbrev pub CopiedResource : Memory → ResourceStruct lib.Meta → ResourceStruct lib.Meta → Type 0
  CopiedResource h r w =
      (w.kind ≡ r.kind)
      × (w.api_version ≡ r.api_version)
      × lib.CopiedMeta h0 h r.object_meta w.object_meta
      × CopiedSpec h0 go h r.spec w.spec
      × CopiedStatus h0 go h r.status w.status

  CopiedResource-IsStable : IsStable h0 CopiedResource
  CopiedResource-IsStable h h' r w e (k, v, m, s, st) = (
    k,
    v,
    lib.stable h0 h h' r.object_meta w.object_meta e m,
    CopiedSpec-IsStable h0 go h h' r.spec w.spec e s,
    CopiedStatus-IsStable h0 go h h' r.status w.status e st,
  )

  copy_resource-Copies : Copies h0 ValidResource CopiedResource (copy_resource go lib.copy_meta)
  unfolding copy_resource
  copy_resource-Copies h r free e (vm, vs, vst) =
      Makes-bind h (lib.copy_meta r.object_meta) _ (lib.copies h0 h r.object_meta free e vm)
        (λ m h1 free1 e1 cm.
          let f1 = Extends-trans h0 h h1 e e1 in
          Makes-bind h1 (copy_spec go r.spec) _ (copy_spec-Copies h0 go h1 r.spec free1 f1 vs)
            (λ s h2 free2 e2 cs.
              Makes-bind h2 (copy_status go r.status) _
                (copy_status-Copies h0 go h2 r.status free2 (Extends-trans h0 h1 h2 f1 e2) vst)
                (λ st h3 free3 e3 cst.
                  Makes-pure h3 (record r { object_meta = m; spec = s; status = st }) free3
                    (
                      refl,
                      refl,
                      lib.stable h0 h1 h3 r.object_meta m
                          (Extends-Kept h0 h1 h3 (Extends-trans h1 h2 h3 e2 e3)) cm,
                      CopiedSpec-IsStable h0 go h2 h3 r.spec s (Extends-Kept h0 h2 h3 e3) cs,
                      cst,
                    ))))

  abbrev pub CopiedResources :
      Memory → List (ResourceStruct lib.Meta) → List (ResourceStruct lib.Meta) → Type 0
  CopiedResources = CopiedItems h0 ValidResource CopiedResource

  -- In a memory without cells beyond `next`, let every reference of some resources lead to a cell of
  -- its kind. Then their deep copies are made, with the fields of the originals and, for their
  -- pointers, maps and slices, the routes and hosts of targets excepted, cells of their own
  -- with copies in them; and every cell that was there is as it was.
  pub copy_resources-Copied :
      (rs : List (ResourceStruct lib.Meta)) (old : Ref) (c : Cell)
      → IsFree h0
      → All ValidResource rs
      → h0.cell old ≡ some c
      → (ws : List (ResourceStruct lib.Meta)) × (h : Memory) × (copy_resources go lib.copy_meta rs
            h0
          ≡ some (ws, h))
        × CopiedResources h rs ws
        × (h.cell old ≡ some c)
  unfolding copy_resources
  copy_resources-Copied rs old c free v here =
      let (ws, h, made, free', e, copied) =
        copy_items-Copies h0 ValidResource CopiedResource (copy_resource go lib.copy_meta)
          CopiedResource-IsStable copy_resource-Copies h0 rs free (Extends-refl h0) v in
      (ws, h, made, copied, e.1 old c here)

load-store :
    {A : Type 0} (k : Kind A) (p : Ref) (a : A) (h : Memory)
    → load k p (store k p a h) ≡ some (a, store k p a h)
unfolding store
load-store k p a h = load-cell k (store k p a h) p a (ground arith)

slices_shared :
    (t w : TargetStruct) (h h' : Memory)
    → copy_target t h ≡ some (w, h')
    → (w.route ≡ t.route) × (w.host ≡ t.host)
unfolding copy_target
slices_shared t w h h' made = by_unknown (copy_unknown t.unknown h) refl
  where
    by_unknown :
        (r : Option (Unknown × Memory))
        → copy_unknown t.unknown h ≡ r
        → (w.route ≡ t.route) × (w.host ≡ t.host)
    by_unknown none e =
        absurd (cc (bind-none (copy_unknown t.unknown) (λ x. pure (record t { unknown = x })) h e))
    by_unknown (some (u, h1)) e =
        let same : record t { unknown = u } ≡ w = ground (
          arith,
          bind-some (copy_unknown t.unknown) (λ x. pure (record t { unknown = x })) h h1 u e,
          made,
        ) in
        (sym (ap (λ x. x.route) same), sym (ap (λ x. x.host) same))

-- The deep copy of a target has the very slices of routes and hosts of the original: what is
-- written through the copy's routes, or its hosts, is read through the original's.
pub copy_target-shares :
    (t w : TargetStruct) (h h' : Memory) (r s : Ref) (written : List Text)
    → t.route ≡ some r
    → t.host ≡ some s
    → copy_target t h ≡ some (w, h')
    → (q : Ref) × (q' : Ref) × (w.route ≡ some q)
      × (w.host ≡ some q')
      × (load texts r (store texts q written h') ≡ some (written, store texts q written h'))
      × (load texts s (store texts q' written h') ≡ some (written, store texts q' written h'))
copy_target-shares t w h h' r s written route host made =
    let (same_route, same_host) = slices_shared t w h h' made in
    (
      r,
      s,
      same_route ∙ route,
      same_host ∙ host,
      load-store texts r written h',
      load-store texts s written h',
    )
