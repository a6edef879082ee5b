-- ===== src/Rpc/Params.antt =====
-- The parameters of rpc_call in stnet/rpc.go: those of the function, then the callback, then the
-- function for the exception.
use gotools.Common.{ℕ, List, [], ◌∷◌, Option, none, some}
use gotools.Spb.Values.{w32, Ty, Value}
use gotools.Rpc.{Callback}

pub data CallError : Type 0 where
  no_callback bad_exception bad_callback : CallError
  wrong_param : ℕ → CallError
  not_encoded not_sent : CallError

-- A parameter of a call: nil, a func(int32), another function, or a value.
pub data Param : Type 0 where
  nil : Param
  exception : ℕ → Param
  function : Callback → Param
  value : Value → Param

-- `params[len(params)-2]`, `params[len(params)-1]` and those before.
unfoldable pub split_params : List Param → Option (List Param × Param × Param)
split_params [] = none
split_params (p ∷ []) = none
split_params (p ∷ q ∷ []) = some ([], p, q)
split_params (p ∷ q ∷ r ∷ ps) = elim (split_params (q ∷ r ∷ ps)) [
  | none ↦ none
  | some (front, c, e) ↦ some (p ∷ front, c, e)
]

abbrev pub as_exception : Param → Option (Option ℕ)
as_exception nil = some none
as_exception (exception f) = some (some f)
as_exception p = none

abbrev pub as_callback : Param → Option (Option Callback)
as_callback nil = some none
as_callback (exception f) = some (some (record { function = f; params = Ty.int w32 ∷ [] }))
as_callback (function c) = some (some c)
as_callback (value v) = none

-- What the encoder sees: a function is of a kind that it refuses, and nil, which has no kind, makes it
-- panic as a nil pointer does.
abbrev pub param_values : List Param → List Value
param_values [] = []
param_values (nil ∷ ps) = Value.nil_ptr Ty.other ∷ param_values ps
param_values (value v ∷ ps) = v ∷ param_values ps
param_values (p ∷ ps) = Value.other ∷ param_values ps
