-- ===== src/Runner/Wildcard.antt =====
-- `%` rules: matchWildcard and instantiate of driver.go.
pub mod RoundTrip
mod Tests
use cgpipe.Prelude.{
  suc, ◌+◌, ◌-◌, List, [], ◌∷◌, map, ◌&&◌, Option, none, some, if◌then◌else◌, ltb, length, take,
  drop, list_eq, nat_eq, Bool,
}
use cgpipe.Prelude.Assoc.{insert}
use cgpipe.Text.{Str, has_prefix, has_suffix, index_byte, slice, replace_byte}
use cgpipe.Runner.Target.{Target, is_temp, no_pos}

-- The tests behind `i >= 0`, for the pattern cut at its first `%`.
cut_stem : Str → Str → Str → Option Str
unfolding has_prefix has_suffix
cut_stem prefix suffix goal =
    if ltb (length prefix + length suffix) (length goal)
      && (has_prefix goal prefix && has_suffix goal suffix)
    then some (slice goal (length prefix) (length goal - length suffix))
    else none

pub match_pattern : Str → Str → Option Str
unfolding cut_stem index_byte
match_pattern p goal = elim (index_byte p b'%') [
  | none ↦ none
  | some i ↦ cut_stem (take i p) (drop (suc i) p) goal
]

-- The loop over rule.Outputs.
match_outputs : List Str → Str → Option Str
match_outputs [] goal = none
match_outputs (p ∷ ps) goal =
    let rest = match_outputs ps goal in
    elim (match_pattern p goal) [ none ↦ rest | some stem ↦ some stem ]

unfoldable pub match_wildcard : Target → Str → Option Str
unfolding match_pattern match_outputs
match_wildcard rule goal = match_outputs rule.outputs goal

-- inst.Temp[ro] = rule.Temp[o], in the order of the outputs
instantiate_temp : Target → Str → List Str → List (Str × Bool) → List (Str × Bool)
unfolding insert
instantiate_temp rule stem [] temp = temp
instantiate_temp rule stem (o ∷ os) temp =
    instantiate_temp rule stem os (insert (replace_byte o b'%' stem) (is_temp rule o) temp)

unfoldable pub instantiate : Target → Str → Target
unfolding instantiate_temp replace_byte
instantiate rule stem = record {
  pos = no_pos;
  special = rule.special;
  body = rule.body;
  has_body = rule.has_body;
  stem = stem;
  outputs = map (λ o. replace_byte o b'%' stem) rule.outputs;
  temp = instantiate_temp rule stem rule.outputs [];
  inputs = map (λ i. replace_byte i b'%' stem) rule.inputs;
}
