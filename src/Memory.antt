-- ===== src/Memory.antt =====
-- The structs of api/v1alpha2/smart_limiter.pb.go as they lie in memory, with their pointers, slices
-- and maps as references, and a memory of cells. A slice is the elements up to its length; an
-- address says nothing but which cell it is.
pub mod Kinds
use limiter.Prelude.{ℕ, ℤ, suc, ◌≡◌, ◌≤◌, List, Bool, Option, none, some, if◌then◌else◌, eqb}
use limiter.Text.{Text}
use limiter.GoMap.{GoMap}

abbrev pub Ref : Type 0
Ref = ℕ

-- `XXX_unrecognized` and `XXX_sizecache`, which every message has
pub record Unknown : Type 0 where
  pub unrecognized : Option Ref
  pub sizecache : ℤ

pub record DurationStruct : Type 0 where
  pub seconds : ℤ
  pub nanos : ℤ
  pub unknown : Unknown

pub record ActionStruct : Type 0 where
  pub quota : Text
  pub fill_interval : Option Ref
  pub strategy : Text
  pub unknown : Unknown

pub record HeaderMatcherStruct : Type 0 where
  pub name : Text
  pub regex_match : Text
  pub exact_match : Text
  pub prefix_match : Text
  pub suffix_match : Text
  pub present_match : Bool
  pub invert_match : Bool
  pub is_exact_match_empty : Bool
  pub unknown : Unknown

pub record TargetStruct : Type 0 where
  pub direction : Text
  pub port : ℤ
  pub route : Option Ref
  pub host : Option Ref
  pub unknown : Unknown

pub record DescriptorStruct : Type 0 where
  pub condition : Text
  pub action : Option Ref
  pub match : Option Ref
  pub target : Option Ref
  pub custom_key : Text
  pub custom_value : Text
  pub unknown : Unknown

pub record DescriptorsStruct : Type 0 where
  pub descriptor : Option Ref
  pub unknown : Unknown

pub record SpecStruct : Type 0 where
  pub sets : Option Ref
  pub rls : Text
  pub unknown : Unknown

pub record StatusStruct : Type 0 where
  pub ratelimit_status : Option Ref
  pub metric_status : Option Ref
  pub unknown : Unknown

-- `Limiter` of api/v1alpha2/limiter_module.pb.go; `refresh` leads to a `time.Duration`.
pub record LimiterStruct : Type 0 where
  pub backend : ℤ
  pub refresh : Option Ref
  pub disable_global_rate_limit : Bool
  pub disable_adaptive : Bool
  pub enable_service_entry : Bool
  pub unknown : Unknown

-- api/v1alpha2/smartlimiter_types.go; the type of a resource's metadata is Kubernetes'.
pub record ResourceStruct (Meta : Type 0) : Type 0 where
  pub kind : Text
  pub api_version : Text
  pub object_meta : Meta
  pub spec : SpecStruct
  pub status : StatusStruct

pub data Cell : Type 0 where
  nanoseconds_cell : ℤ → Cell
  bytes_cell : Text → Cell
  texts_cell : List Text → Cell
  refs_cell : List (Option Ref) → Cell
  table_cell : GoMap (Option Ref) → Cell
  strings_cell : GoMap Text → Cell
  duration_cell : DurationStruct → Cell
  action_cell : ActionStruct → Cell
  matcher_cell : HeaderMatcherStruct → Cell
  target_cell : TargetStruct → Cell
  descriptor_cell : DescriptorStruct → Cell
  descriptors_cell : DescriptorsStruct → Cell
  spec_cell : SpecStruct → Cell
  status_cell : StatusStruct → Cell

-- What a cell of one kind has in it.
pub record Kind (A : Type 0) : Type 0 where
  pub inj : A → Cell
  pub out : Cell → Option A
  pub out-inj : (a : A) → out (inj a) ≡ some a

-- `next` is the first address that was never given out.
pub record Memory : Type 0 where
  pub cell : Ref → Option Cell
  pub next : ℕ

-- What runs in a memory, and stops (`none`) at a reference to no cell of the kind that is read,
-- which Go's types rule out.
abbrev pub Using : Type 0 → Type 0
Using A = Memory → Option (A × Memory)

module _ {A : Type 0} where
  abbrev pub pure : A → Using A
  pure a = λ memory. some (a, memory)

  abbrev pub going_on : {B : Type 0} → (A → Using B) → Option (A × Memory) → Option (B × Memory)
  going_on f none = none
  going_on f (some (a, memory)) = f a memory

  infixl 5 ◌>>=◌
  abbrev pub ◌>>=◌ : {B : Type 0} → Using A → (A → Using B) → Using B
  m >>= f = λ memory. going_on f (m memory)

abbrev pub updated : (Ref → Option Cell) → Ref → Cell → Ref → Option Cell
updated cell p c q = if eqb p q then some c else cell q

module _ {A : Type 0} (k : Kind A) where
  unfoldable pub load : Ref → Using A
  load p h = elim (h.cell p) [
    | none ↦ none
    | some c ↦ elim (k.out c) [ none ↦ none | some a ↦ some (a, h) ]
  ]

  -- `new` and `make`, with what is stored there at once
  unfoldable pub alloc : A → Using Ref
  alloc a h = some (h.next, record { next = suc h.next; cell = updated h.cell h.next (k.inj a) })

  -- `*p = a`
  unfoldable pub store : Ref → A → Memory → Memory
  store p a h = record h { cell = updated h.cell p (k.inj a) }
