-- ===== src/Runner/Target.antt =====
-- The parts of eval.Target and eval.Program that the driver reads, and `Label` of driver.go.
-- `Scope`, which only the renderer reads, is left out.
use cgpipe.Prelude.{
  List, [], ◌++◌, Bool, Option, none, some, if◌then◌else◌, nat_eq, list_eq, ◌==◌, false,
}
use cgpipe.Prelude.Assoc.{flag}
pub use cgpipe.Syntax.Token.{Pos, pos_eq, no_pos}
use cgpipe.Text.{Str, codes, join}

pub record Target : Type 0 where
  pub pos : Pos
  pub special : Str
  pub outputs : List Str
  -- output path -> is it a ^temporary output
  pub temp : List (Str × Bool)
  pub inputs : List Str
  pub body : Str
  pub has_body : Bool
  pub stem : Str

pub record Program : Type 0 where
  pub targets : List Target
  pub default_goals : List Str
  pub first_output : Str
  pub setup : Option Target
  pub teardown : Option Target
  pub postsubmit : Option Target

-- t.Temp[o]
abbrev pub is_temp : Target → Str → Bool
is_temp t o = flag o t.temp

-- x != nil && x.HasBody
unfoldable pub with_body : Option Target → Bool
with_body none = false
with_body (some t) = t.has_body

unfoldable pub label : Target → Str
unfolding join
label t =
    if t.special == []
    then (if t.outputs == [] then codes "(opportunistic)" else join t.outputs (codes " "))
    else codes "@" ++ t.special
