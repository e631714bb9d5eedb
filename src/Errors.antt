-- ===== src/Errors.antt =====
-- errors.py: the exception classes with their bases. An exception is modelled by its class; its
-- message and its `ErrorContext` are left out.
pub mod Result
pub mod Exec
pub mod Keeps
use sartoriuslib.Prelude.{
  ℕ, zero, suc, ◌≡◌, refl, Bool, true, false, ◌||◌, List, [], ◌∷◌, arith, ◌==◌,
}

-- Every class of errors.py, then the built-in classes that the modelled code raises itself.
pub data ErrorClass : Type 0 where
  sartorius_error : ErrorClass
  configuration unknown_unit invalid_parameter_index invalid_sbn : ErrorClass
  confirmation_required validation : ErrorClass
  transport timeout connection transient_transport : ErrorClass
  protocol frame parse command_rejected protocol_unsupported autoprint_active : ErrorClass
  capability unsupported_command value_out_of_range operation_not_applicable : ErrorClass
  missing_args index_out_of_range firmware : ErrorClass
  sink sink_dependency sink_schema sink_write : ErrorClass
  value_error not_implemented_error key_error exception_group runtime_error : ErrorClass

-- The bases that a class statement names; `Exception` is left out.
unfoldable pub bases : ErrorClass → List ErrorClass
bases sartorius_error = []
bases configuration = sartorius_error ∷ []
bases unknown_unit = configuration ∷ []
bases invalid_parameter_index = configuration ∷ []
bases invalid_sbn = configuration ∷ []
bases confirmation_required = configuration ∷ []
bases validation = configuration ∷ []
bases transport = sartorius_error ∷ []
bases timeout = transport ∷ []
bases connection = transport ∷ []
bases transient_transport = transport ∷ []
bases protocol = sartorius_error ∷ []
bases frame = protocol ∷ []
bases parse = protocol ∷ []
bases command_rejected = protocol ∷ []
bases protocol_unsupported = protocol ∷ []
bases autoprint_active = protocol ∷ []
bases capability = sartorius_error ∷ []
bases unsupported_command = capability ∷ command_rejected ∷ []
bases value_out_of_range = capability ∷ command_rejected ∷ []
bases operation_not_applicable = capability ∷ command_rejected ∷ []
bases missing_args = capability ∷ command_rejected ∷ []
bases index_out_of_range = capability ∷ command_rejected ∷ []
bases firmware = capability ∷ []
bases sink = sartorius_error ∷ []
bases sink_dependency = sink ∷ configuration ∷ []
bases sink_schema = sink ∷ []
bases sink_write = sink ∷ []
bases value_error = []
bases not_implemented_error = []
bases key_error = []
bases exception_group = []
bases runtime_error = []

-- A number for each class, by which classes are compared.
tag : ErrorClass → ℕ
tag sartorius_error = 0
tag configuration = 1
tag unknown_unit = 2
tag invalid_parameter_index = 3
tag invalid_sbn = 4
tag confirmation_required = 5
tag validation = 6
tag transport = 7
tag timeout = 8
tag connection = 9
tag transient_transport = 10
tag protocol = 11
tag frame = 12
tag parse = 13
tag command_rejected = 14
tag protocol_unsupported = 15
tag autoprint_active = 16
tag capability = 17
tag unsupported_command = 18
tag value_out_of_range = 19
tag operation_not_applicable = 20
tag missing_args = 21
tag index_out_of_range = 22
tag firmware = 23
tag sink = 24
tag sink_dependency = 25
tag sink_schema = 26
tag sink_write = 27
tag value_error = 28
tag not_implemented_error = 29
tag key_error = 30
tag exception_group = 31
tag runtime_error = 32

any_base : (ErrorClass → Bool) → List ErrorClass → Bool
any_base p [] = false
any_base p (c ∷ cs) = p c || any_base p cs

-- The walk up the class graph; no chain of bases is longer than the fuel of `is_subclass`.
reaches : ℕ → ErrorClass → ErrorClass → Bool
unfolding tag any_base bases
reaches zero c target = tag c == tag target
reaches (suc fuel) c target = tag c == tag target || any_base (λ b. reaches fuel b target) (bases c)

-- issubclass(c, target), which decides whether `except target` catches an exception of class c.
unfoldable pub is_subclass : ErrorClass → ErrorClass → Bool
unfolding reaches
is_subclass c target = reaches 3 c target
