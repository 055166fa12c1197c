-- ===== src/Api/Request.antt =====
-- A request as the services hand it to axios.
use Prim.Native.String
use cogni_cash.Base.{
  String, Bool, true, false, Option, none, some, List, [], ◌∷◌, if◌then◌else◌, truthy,
}
use cogni_cash.Base.Int.{ℤ}

pub data Method : Type 0 where
  get post put patch delete : Method

-- The values of parameters and of JSON bodies.
mutual
  pub data Value : Type 0 where
    undefined : Value
    null : Value
    text : String → Value
    flag : Bool → Value
    number : ℤ → Value
    texts : List String → Value
    object : Fields → Value
    objects : Objects → Value

  pub data Fields : Type 0 where
    end : Fields
    field : String → Value → Fields → Fields

  pub data Objects : Type 0 where
    none_left : Objects
    one_more : Fields → Objects → Objects

-- A part of a `FormData`; a file is known by its name.
pub data Part : Type 0 where
  file : String → Part
  entry : String → Part
  -- `String(n)` and `JSON.stringify(v)`
  amount : ℤ → Part
  stringified : Value → Part

pub data Body : Type 0 where
  empty : Body
  null_body : Body
  json : List (String × Value) → Body
  form : List (String × Part) → Body

-- The path is kept as the segments of the template text, each of which ends in a slash.
pub record Request : Type 0 where
  pub method : Method
  pub path : List String
  pub params : List (String × Value)
  pub body : Body
  pub blob : Bool

abbrev pub path_text : List String → String
path_text [] = ""
path_text (segment ∷ path) = String.◌++◌ segment (String.◌++◌ "/" (path_text path))

abbrev pub send : Method → List String → Body → Request
send method path body = record {
  method = method;
  path = path;
  params = [];
  body = body;
  blob = false;
}

abbrev pub fetch : List String → List (String × Value) → Request
fetch path params = record (send get path empty) { params = params }

abbrev pub fetch_blob : List String → Request
fetch_blob path = record (send get path empty) { blob = true }

-- An argument that may be left out.
abbrev pub optional : Option String → Value
optional none = undefined
optional (some s) = text s

abbrev pub nullable : Option String → Value
nullable none = null
nullable (some s) = text s

-- `s || undefined`
abbrev pub or_undefined : Option String → Value
or_undefined none = undefined
or_undefined (some s) = if truthy s then text s else undefined

-- A default value of a parameter.
abbrev pub default : {A : Type 0} → A → Option A → A
default d none = d
default d (some a) = a

abbrev pub optional_flag : Option Bool → Value
optional_flag none = undefined
optional_flag (some b) = flag b

-- `b.toString()`
abbrev pub bool_text : Bool → String
bool_text b = if b then "true" else "false"

-- `if (s) form.append(key, s)`
abbrev pub append_if : String → Option String → List (String × Part) → List (String × Part)
append_if key none rest = rest
append_if key (some s) rest = if truthy s then (key, entry s) ∷ rest else rest
