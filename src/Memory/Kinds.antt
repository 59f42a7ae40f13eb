-- ===== src/Memory/Kinds.antt =====
-- The kinds of cells.
use limiter.Prelude.{ℤ, List, Option, some, none, refl}
use limiter.Text.{Text}
use limiter.GoMap.{GoMap}
use limiter.Memory.{
  Ref, DurationStruct, ActionStruct, HeaderMatcherStruct, TargetStruct, DescriptorStruct,
  DescriptorsStruct, SpecStruct, StatusStruct, nanoseconds_cell, bytes_cell, texts_cell, refs_cell,
  table_cell, strings_cell, duration_cell, action_cell, matcher_cell, target_cell, descriptor_cell,
  descriptors_cell, spec_cell, status_cell, Kind,
}

abbrev pub nanoseconds : Kind ℤ
nanoseconds = record {
  inj = nanoseconds_cell;
  out = λ c. elim c [ nanoseconds_cell b ↦ some b | _ ↦ none ];
  out-inj = λ a. refl;
}

abbrev pub bytes : Kind Text
bytes = record {
  inj = bytes_cell;
  out = λ c. elim c [ bytes_cell b ↦ some b | _ ↦ none ];
  out-inj = λ a. refl;
}

abbrev pub texts : Kind (List Text)
texts = record {
  inj = texts_cell;
  out = λ c. elim c [ texts_cell b ↦ some b | _ ↦ none ];
  out-inj = λ a. refl;
}

abbrev pub refs : Kind (List (Option Ref))
refs = record {
  inj = refs_cell;
  out = λ c. elim c [ refs_cell b ↦ some b | _ ↦ none ];
  out-inj = λ a. refl;
}

abbrev pub table : Kind (GoMap (Option Ref))
table = record {
  inj = table_cell;
  out = λ c. elim c [ table_cell b ↦ some b | _ ↦ none ];
  out-inj = λ a. refl;
}

abbrev pub strings : Kind (GoMap Text)
strings = record {
  inj = strings_cell;
  out = λ c. elim c [ strings_cell b ↦ some b | _ ↦ none ];
  out-inj = λ a. refl;
}

abbrev pub duration : Kind DurationStruct
duration = record {
  inj = duration_cell;
  out = λ c. elim c [ duration_cell b ↦ some b | _ ↦ none ];
  out-inj = λ a. refl;
}

abbrev pub action : Kind ActionStruct
action = record {
  inj = action_cell;
  out = λ c. elim c [ action_cell b ↦ some b | _ ↦ none ];
  out-inj = λ a. refl;
}

abbrev pub matcher : Kind HeaderMatcherStruct
matcher = record {
  inj = matcher_cell;
  out = λ c. elim c [ matcher_cell b ↦ some b | _ ↦ none ];
  out-inj = λ a. refl;
}

abbrev pub target : Kind TargetStruct
target = record {
  inj = target_cell;
  out = λ c. elim c [ target_cell b ↦ some b | _ ↦ none ];
  out-inj = λ a. refl;
}

abbrev pub descriptor : Kind DescriptorStruct
descriptor = record {
  inj = descriptor_cell;
  out = λ c. elim c [ descriptor_cell b ↦ some b | _ ↦ none ];
  out-inj = λ a. refl;
}

abbrev pub descriptors : Kind DescriptorsStruct
descriptors = record {
  inj = descriptors_cell;
  out = λ c. elim c [ descriptors_cell b ↦ some b | _ ↦ none ];
  out-inj = λ a. refl;
}

abbrev pub spec : Kind SpecStruct
spec = record {
  inj = spec_cell;
  out = λ c. elim c [ spec_cell b ↦ some b | _ ↦ none ];
  out-inj = λ a. refl;
}

abbrev pub status : Kind StatusStruct
status = record {
  inj = status_cell;
  out = λ c. elim c [ status_cell b ↦ some b | _ ↦ none ];
  out-inj = λ a. refl;
}
