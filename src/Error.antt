-- ===== src/Error.antt =====
-- The errors that handlers return, as values: the call that built the error, with its format and
-- its arguments.
use opi_nvidia_bridge.Base.{ℤ, String, List, [], ◌∷◌}
use opi_nvidia_bridge.Api.Messages.{NvmeTransportType}

-- codes.Code of gRPC, the ones that the bridge uses.
pub data Code : Type 0 where
  invalid_argument not_found already_exists unimplemented : Code

pub data Arg : Type 0 where
  text : String → Arg
  number : ℤ → Arg
  transport : NvmeTransportType → Arg

-- A text in the source, or what `fmt.Sprintf` makes of one.
pub data Format : Type 0 where
  literal : String → Format
  sprintf : String → List Arg → Format

pub data Error : Type 0 where
  -- `status.Errorf(code, format, args...)`
  status : Code → Format → List Arg → Error
  -- `fmt.Errorf(format, args...)`
  errorf : String → List Arg → Error
  -- `errors.New(text)`
  new : String → Error
  -- an error that another package returned
  external : String → Error

-- The errors that several handlers build.
-- A status with a message that `fmt.Sprintf` has made of one text.
abbrev pub invalid : String → String → Error
invalid format arg = status invalid_argument (sprintf format (text arg ∷ [])) []

abbrev pub unable_to_find_key : String → Error
unable_to_find_key key = status not_found (literal "unable to find key %s") (text key ∷ [])

abbrev pub not_implemented : String → Error
not_implemented message = status unimplemented (literal message) []
