-- ===== src/Examples/Copying.antt =====
-- The theorems on deep copies at a resource with one descriptor.
use limiter.Prelude.{
  zero, suc, ◌≤◌, ◌≡◌, refl, List, [], ◌∷◌, Option, none, some, pos, arith, length,
}
use limiter.Text.{Text, text}
use limiter.GoMap.{get}
use limiter.GoMap.Range.{in_order}
use limiter.Memory.{
  Ref, Unknown, TargetStruct, ResourceStruct, Cell, Memory, pure, load, store, texts_cell,
  refs_cell, table_cell, duration_cell, action_cell, target_cell, descriptor_cell, descriptors_cell,
}
use limiter.Memory.Kinds.{texts}
use limiter.DeepCopy.{copy_target, copy_resources}
use limiter.DeepCopy.Copies.{IsFree}
use limiter.DeepCopy.Resource.{
  MetaCopy, ValidResource, CopiedResources, copy_resources-Copied, copy_target-shares,
}

-- Metadata that is a text.
abbrev labels : MetaCopy
labels = record {
  Meta = Text;
  copy_meta = pure;
  ValidMeta = λ h m. Unit {0};
  CopiedMeta = λ h0 h m w. w ≡ m;
  stable = λ h0 h h' m w e c. c;
  copies = λ h0 h m free e v. (m, h, refl, free, (omega arith, λ p c f. f), refl);
}

abbrev nothing : Unknown
nothing = record { unrecognized = none; sizecache = pos 0 }

abbrev a_target : TargetStruct
a_target = record {
  direction = text "outbound";
  port = pos 0;
  route = some 7;
  host = some 8;
  unknown = nothing;
}

cell_at : List Cell → Ref → Option Cell
cell_at [] p = none
cell_at (c ∷ cs) zero = some c
cell_at (c ∷ cs) (suc p) = cell_at cs p

abbrev cells : List Cell
cells =
    table_cell ((text "_base", some 1) ∷ [])
    ∷ descriptors_cell (record { descriptor = some 2; unknown = nothing })
    ∷ refs_cell (some 3 ∷ [])
    ∷ descriptor_cell (record {
      condition = text "true";
      action = some 4;
      match = none;
      target = some 6;
      custom_key = [];
      custom_value = [];
      unknown = nothing;
    })
    ∷ action_cell (record {
      quota = text "10";
      fill_interval = some 5;
      strategy = text "single";
      unknown = nothing;
    })
    ∷ duration_cell (record { seconds = pos 60; nanos = pos 0; unknown = nothing })
    ∷ target_cell a_target
    ∷ texts_cell (text "a.test.com:80/r1" ∷ [])
    ∷ texts_cell (text "a.test.com" ∷ [])
    ∷ []

cell_at-beyond : (cs : List Cell) (p : Ref) → length cs ≤ p → cell_at cs p ≡ none
unfolding cell_at
cell_at-beyond [] p n = refl
cell_at-beyond (c ∷ cs) zero n = absurd (omega (arith, n))
cell_at-beyond (c ∷ cs) (suc p) n = cell_at-beyond cs p (omega (arith, n))

abbrev memory : Memory
memory = record { next = 9; cell = cell_at cells }

memory-IsFree : IsFree memory
memory-IsFree p n = cell_at-beyond cells p n

abbrev resource : ResourceStruct Text
resource = record {
  kind = text "SmartLimiter";
  api_version = text "microservice.slime.io/v1alpha2";
  object_meta = text "reviews";
  spec = record { sets = some 0; rls = []; unknown = nothing };
  status = record { ratelimit_status = none; metric_status = none; unknown = nothing };
}

resource-Valid : ValidResource in_order labels memory resource
unfolding cell_at get
resource-Valid = (
  tt,
  (
    (
      (text "_base", some 1) ∷ [],
      refl,
      (
        (refl, tt),
        (
          (
            record { descriptor = some 2; unknown = nothing },
            refl,
            (
              (
                some 3 ∷ [],
                refl,
                ((_, refl, ((_, refl, ((_, refl, tt), tt)), tt, (a_target, refl, tt), tt)), tt),
              ),
              tt,
            ),
          ),
          tt,
        ),
      ),
    ),
    tt,
  ),
  (tt, tt, tt),
)

routes_here : memory.cell 7 ≡ some (texts_cell (text "a.test.com:80/r1" ∷ []))
unfolding cell_at
routes_here = refl

abbrev copied :
    (ws : List (ResourceStruct Text)) × (h : Memory) × (copy_resources in_order labels.copy_meta
        (resource ∷ [])
        memory
      ≡ some (ws, h))
    × CopiedResources in_order labels memory h (resource ∷ []) ws
    × (h.cell 7 ≡ some (texts_cell (text "a.test.com:80/r1" ∷ [])))
copied =
    copy_resources-Copied in_order labels memory (resource ∷ []) 7
      (texts_cell (text "a.test.com:80/r1" ∷ [])) memory-IsFree (resource-Valid, tt) routes_here

copy_resources-Copied_example :
    (ws : List (ResourceStruct Text)) × (h : Memory) × (copy_resources in_order labels.copy_meta
        (resource ∷ [])
        memory
      ≡ some (ws, h))
    × CopiedResources in_order labels memory h (resource ∷ []) ws
    × (h.cell 7 ≡ some (texts_cell (text "a.test.com:80/r1" ∷ [])))
copy_resources-Copied_example =
    copy_resources-Copied in_order labels memory (resource ∷ []) 7
      (texts_cell (text "a.test.com:80/r1" ∷ [])) memory-IsFree (resource-Valid, tt) routes_here

target_copied : copy_target a_target memory ≡ some (a_target, memory)
unfolding copy_target
target_copied = refl

copy_target-shares_example :
    (q : Ref) × (q' : Ref) × (a_target.route ≡ some q)
    × (a_target.host ≡ some q')
    × (load texts 7 (store texts q [] memory) ≡ some ([], store texts q [] memory))
    × (load texts 8 (store texts q' [] memory) ≡ some ([], store texts q' [] memory))
copy_target-shares_example =
    copy_target-shares a_target a_target memory memory 7 8 [] refl refl target_copied
