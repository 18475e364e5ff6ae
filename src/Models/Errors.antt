-- ===== src/Models/Errors.antt =====
-- applications/domain/exceptions.py, with the other exceptions that the use cases raise or meet.
use Prim.Native.Nat.{◌%◌}
use fabroku_back_end.Base.{
  ℕ, zero, suc, ◌+◌, ◌/◌, String, ◌<>◌, Option, none, some, ◌==◌, str_eq, if◌then◌else◌,
}

pub data Error : Type 0 where
  -- `ApplicationDomainError` and its subclasses
  domain_error : String → Error
  app_limit_exceeded service_limit_exceeded : ℕ → ℕ → Error
  app_name_conflict : String → Error
  app_not_found service_not_found : ℕ → Error
  deployment_failed : String → String → Error
  infrastructure_error : String → Option String → Error
  invalid_env_var : String → String → Error
  git_error : String → Option String → Error
  -- `OperationSuperseded` of applications/ownership.py
  operation_superseded : ℕ → Error
  -- `DoesNotExist` of a `get`, and the error of a `save` whose row is gone
  does_not_exist database_error : Error
  -- Python's own, and whatever a port or the broker raises
  value_error runtime_error raised : String → Error

abbrev pub digit : ℕ → String
digit n =
    if n == 0
    then "0"
    else if n == 1
    then "1"
    else if n == 2
    then "2"
    else if n == 3
    then "3"
    else if n == 4
    then "4"
    else if n == 5
    then "5"
    else if n == 6
    then "6"
    else if n == 7
    then "7"
    else if n == 8
    then "8"
    else "9"

-- The decimal text of `n`, on more fuel than `n` has digits.
unfoldable pub decimal_loop : ℕ → ℕ → String → String
decimal_loop zero n rest = rest
decimal_loop (suc fuel) n rest =
    let more = decimal_loop fuel (n / 10) (digit (n % 10) <> rest) in
    if (n / 10) == 0 then digit (n % 10) <> rest else more

unfoldable pub decimal : ℕ → String
unfolding decimal_loop
decimal n = decimal_loop (n + 1) n ""

-- `f' ({details})' if details else ''`
abbrev suffix : String → String → Option String → String
suffix before after none = ""
suffix before after (some d) = if str_eq d "" then "" else before <> d <> after

-- `str(e)`
unfoldable pub message : Error → String
unfolding decimal
message (domain_error text) = text
message (app_limit_exceeded current limit) =
    "App limit exceeded: " <> decimal current <> " apps created, limit is " <> decimal limit
message (service_limit_exceeded current limit) =
    "Service limit exceeded: " <> decimal current <> " services created, limit is " <> decimal limit
message (app_name_conflict name) = "App name already exists: " <> name
message (app_not_found id) = "App not found: " <> decimal id
message (service_not_found id) = "Service not found: " <> decimal id
message (deployment_failed reason step) = "Deployment failed at " <> step <> ": " <> reason
message (infrastructure_error text details) =
    "Infrastructure error: " <> text <> suffix " (" ")" details
message (invalid_env_var key reason) = "Invalid environment variable " <> key <> ": " <> reason
message (git_error text url) = "Git error: " <> text <> suffix " for " "" url
message (operation_superseded id) = "App " <> decimal id <> " foi assumido por outra operação."
message does_not_exist = "matching query does not exist."
message database_error = "Save with update_fields did not affect any rows."
message (value_error text) = text
message (runtime_error text) = text
message (raised text) = text
