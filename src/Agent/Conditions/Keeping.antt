-- ===== src/Agent/Conditions/Keeping.antt =====
-- What `setCondition` keeps.
use k8s_native_fast_gpu_chec.Prelude.{
  String, ◌≡◌, refl, Option, none, some, List, [], ◌∷◌, ◌==◌, if◌then◌else◌, arith, eq_iff,
}
use k8s_native_fast_gpu_chec.Api.{Time, Condition}
use k8s_native_fast_gpu_chec.Agent.Conditions.{update_condition, put_condition}

-- The first condition of a type.
unfoldable pub find_type : String → List Condition → Option Condition
find_type type [] = none
find_type type (c ∷ cs) = if c.type == type then some c else find_type type cs

-- No type stands twice.
abbrev pub DistinctTypes : List Condition → Type 0
DistinctTypes [] = Unit
DistinctTypes (c ∷ cs) = (find_type c.type cs ≡ none) × DistinctTypes cs

module _ (at : Time) (type s reason msg : String) where
  abbrev pub put : List Condition → List Condition
  put cs = put_condition at cs type s reason msg

  -- What the condition is after the call, from what it was.
  abbrev pub renewed : Option Condition → Condition
  renewed none = record {
    type = type;
    status = s;
    reason = reason;
    message = msg;
    last_transition_time = at;
  }
  renewed (some old) = record {
    type = type;
    status = s;
    reason = reason;
    message = msg;
    last_transition_time = if old.status == s then old.last_transition_time else at;
  }

  -- After the call the condition of the given type has the given status, reason and message; its
  -- transition time is the old one if the status was the same, and else the time of the call.
  -- The first condition of any other type is the one that was there.
  pub find_type-put :
      (other : String) (cs : List Condition)
      → find_type other (put cs)
        ≡ (if other == type then some (renewed (find_type type cs)) else find_type other cs)
  unfolding find_type put_condition update_condition
  find_type-put other [] = ground (arith, eq_iff type other, eq_iff other type)
  find_type-put other (c ∷ cs) = ground (
    arith,
    eq_iff c.type type,
    eq_iff c.type other,
    eq_iff other type,
    eq_iff type other,
    find_type-put other cs,
  )

  -- If no type stands twice in the conditions, none does after the call.
  pub put-DistinctTypes : (cs : List Condition) → DistinctTypes cs → DistinctTypes (put cs)
  unfolding find_type put_condition update_condition
  put-DistinctTypes [] d = (refl, tt)
  put-DistinctTypes (c ∷ cs) (fresh, d) =
      ground (arith, eq_iff c.type type, find_type-put c.type cs, put-DistinctTypes cs d)
