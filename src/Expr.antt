-- ===== src/Expr.antt =====
-- The conditions of rules: `_safe_eval` of app/services/rule_engine_v2.py and of
-- app/services/incident_engine.py, which are the same, and `safe_eval_expr` of
-- app/services/detection_core.py. A condition is a text with the tree that Python's parser makes of
-- it. The arithmetic operators, which round on floats, are an argument.
use Prim.Native.Nat.{Ordering}
use Prim.Native.String.{compare}
use siem_sentinel_xv.Base.{
  Bool, true, false, not, ◌&&◌, Option, none, some, String, ◌=ₛ◌, ltb_ℤ, if◌then◌else◌,
}
use siem_sentinel_xv.Text.{contains}
use siem_sentinel_xv.Value.{
  Value, null, bool, str, list, dict, Fields, end, field, get, has_key, truthy, value_eq, value_in,
  items, millionths,
}

pub data BinOp : Type 0 where
  add sub mult div modulo : BinOp

pub data CmpOp : Type 0 where
  eq not_eq gt ge lt le in_ not_in : CmpOp

-- The nodes of `_ALLOWED_NODES`; any other node is `refused`, with the nodes below it.
mutual
  pub data Expr : Type 0 where
    name : String → Expr
    constant : Value → Expr
    and_ : Exprs → Expr
    or_ : Exprs → Expr
    not_ : Expr → Expr
    compared : Expr → Tests → Expr
    binary : BinOp → Expr → Expr → Expr
    refused : Exprs → Expr

  pub data Exprs : Type 0 where
    none_left : Exprs
    then_expr : Expr → Exprs → Exprs

  pub data Tests : Type 0 where
    no_test : Tests
    test : CmpOp → Expr → Tests → Tests

-- The walk over the tree: every node is allowed, and every name is known.
unfoldable mutual
  pub allowed : Fields → Expr → Bool
  allowed ctx (name x) = has_key ctx x
  allowed ctx (constant v) = true
  allowed ctx (and_ es) = all_allowed ctx es
  allowed ctx (or_ es) = all_allowed ctx es
  allowed ctx (not_ e) = allowed ctx e
  allowed ctx (compared e ts) = allowed ctx e && tests_allowed ctx ts
  allowed ctx (binary op a b) = allowed ctx a && allowed ctx b
  allowed ctx (refused es) = false

  pub all_allowed : Fields → Exprs → Bool
  all_allowed ctx none_left = true
  all_allowed ctx (then_expr e es) = allowed ctx e && all_allowed ctx es

  pub tests_allowed : Fields → Tests → Bool
  tests_allowed ctx no_test = true
  tests_allowed ctx (test op e ts) = allowed ctx e && tests_allowed ctx ts

infixl 5 ◌>>=◌
-- `none` is a raised exception.
abbrev pub ◌>>=◌ {ℓ κ} : {A : Type ℓ} {B : Type κ} → Option A → (A → Option B) → Option B
none >>= f = none
some a >>= f = f a

abbrev before : String → String → Bool
before s t = elim (compare s t) [ Ordering.lt ↦ true | _ ↦ false ]

-- a < b, for two texts or two numbers; other values are not ordered
unfoldable pub less : Value → Value → Option Bool
less (str s) (str t) = some (before s t)
less a b = do x ← millionths a; y ← millionths b; some (ltb_ℤ x y)

-- a in b
unfoldable pub member_of : Value → Value → Option Bool
member_of (str s) (str t) = some (contains s t)
member_of a (list vs) = some (value_in a (items vs))
member_of (str k) (dict fs) = some (has_key fs k)
member_of _ _ = none

abbrev pub negated : Option Bool → Option Bool
negated o = o >>= λ b. some (not b)

unfoldable pub apply_cmp : CmpOp → Value → Value → Option Bool
unfolding less member_of
apply_cmp eq a b = some (value_eq a b)
apply_cmp not_eq a b = some (not (value_eq a b))
apply_cmp gt a b = less b a
apply_cmp ge a b = negated (less a b)
apply_cmp lt a b = less a b
apply_cmp le a b = negated (less b a)
apply_cmp in_ a b = member_of a b
apply_cmp not_in a b = negated (member_of a b)

-- What a raised exception or the first operand makes of `and` and `or`.
abbrev pub and_then : Option Value → Option Value → Option Value
and_then none rest = none
and_then (some v) rest = if truthy v then rest else some v

abbrev pub or_else : Option Value → Option Value → Option Value
or_else none rest = none
or_else (some v) rest = if truthy v then some v else rest

module _ (arithmetic : BinOp → Value → Value → Option Value) (ctx : Fields) where
  -- The value of an expression: `and` and `or` give an operand, a chain of comparisons a bool.
  unfoldable mutual
    pub eval : Expr → Option Value
    eval (name x) = get ctx x
    eval (constant v) = some v
    eval (and_ es) = eval_and es
    eval (or_ es) = eval_or es
    eval (not_ e) = do v ← eval e; some (bool (not (truthy v)))
    eval (compared e ts) = do v ← eval e; eval_tests v ts
    eval (binary op a b) = do x ← eval a; y ← eval b; arithmetic op x y
    eval (refused es) = none

    pub eval_and : Exprs → Option Value
    eval_and none_left = some (bool true)
    eval_and (then_expr e none_left) = eval e
    eval_and (then_expr e es) = and_then (eval e) (eval_and es)

    pub eval_or : Exprs → Option Value
    eval_or none_left = some (bool false)
    eval_or (then_expr e none_left) = eval e
    eval_or (then_expr e es) = or_else (eval e) (eval_or es)

    pub eval_tests : Value → Tests → Option Value
    eval_tests v no_test = some (bool true)
    eval_tests v (test op e ts) = do
      w ← eval e
      holds ← apply_cmp op v w
      if holds then eval_tests w ts else some (bool false)

-- A condition as the rule holds it: its text, stripped, and its tree, none where the parser raises.
pub record Condition : Type 0 where
  pub text : String
  pub tree : Option Expr

-- { **_ALLOWED_NAMES, **ctx }
unfoldable pub with_names : Fields → Fields
with_names end = field "True" (bool true) (field "False" (bool false) (field "None" null end))
with_names (field k v fs) = field k v (with_names fs)

-- What is done with the tree: the walk, then the evaluation.
unfoldable pub eval_tree : (BinOp → Value → Value → Option Value) → Fields → Expr → Option Bool
eval_tree arithmetic ctx tree =
    if allowed ctx tree then (eval arithmetic ctx tree >>= λ v. some (truthy v)) else none

-- `_safe_eval`
unfoldable pub safe_eval : (BinOp → Value → Value → Option Value) → Condition → Fields → Option Bool
safe_eval arithmetic cond ctx =
    if cond.text =ₛ "" then some true else (cond.tree >>= eval_tree arithmetic (with_names ctx))

-- `safe_eval_expr`: an exception is a condition that does not hold
unfoldable pub safe_eval_expr : (BinOp → Value → Value → Option Value) → Condition → Fields → Bool
safe_eval_expr arithmetic cond ctx = elim (safe_eval arithmetic cond ctx) [
  | none ↦ false
  | some b ↦ b
]
