-- ===== src/Core/Failure/Values.antt =====
-- core/failure.rs: TOML values and their translation to JSON. Integers, floats, times and JSON's numbers
-- are parameters; a table is the list of its fields in the order of the map.
use project_whitequbit.Base.{String, Bool, Option, none, some, text_key, ◌==◌, if◌then◌else◌}

pub record Scalars : Type 1 where
  pub Integer : Type 0
  pub Float : Type 0
  pub Datetime : Type 0
  pub Number : Type 0
  pub from_integer : Integer → Number
  pub from_f64 : Float → Option Number
  pub to_text : Datetime → String

module _ (scalars : Scalars) where
  open scalars use {Integer, Float, Datetime, Number, from_integer, from_f64, to_text}

  mutual
    pub data Toml : Type 0 where
      string : String → Toml
      integer : Integer → Toml
      float : Float → Toml
      boolean : Bool → Toml
      datetime : Datetime → Toml
      array : Tomls → Toml
      table : Table → Toml

    pub data Tomls : Type 0 where
      end : Tomls
      item : Toml → Tomls → Tomls

    pub data Table : Type 0 where
      empty : Table
      entry : String → Toml → Table → Table

  mutual
    pub data Value : Type 0 where
      null : Value
      bool : Bool → Value
      number : Number → Value
      text : String → Value
      values : Values → Value
      object : Fields → Value

    pub data Values : Type 0 where
      stop : Values
      also : Value → Values → Values

    pub data Fields : Type 0 where
      none_left : Fields
      field : String → Value → Fields → Fields

  abbrev number_or_null : Option Number → Value
  number_or_null none = null
  number_or_null (some n) = number n

  unfoldable mutual
    pub toml_to_json : Toml → Value
    toml_to_json (string s) = text s
    toml_to_json (integer i) = number (from_integer i)
    toml_to_json (float f) = number_or_null (from_f64 f)
    toml_to_json (boolean b) = bool b
    toml_to_json (datetime d) = text (to_text d)
    toml_to_json (array ts) = values (items_to_json ts)
    toml_to_json (table t) = object (table_to_json t)

    pub items_to_json : Tomls → Values
    items_to_json end = stop
    items_to_json (item t ts) = also (toml_to_json t) (items_to_json ts)

    pub table_to_json : Table → Fields
    table_to_json empty = none_left
    table_to_json (entry k t ts) = field k (toml_to_json t) (table_to_json ts)

  abbrev find : String → Fields → Option Value
  find k none_left = none
  find k (field j v fs) = if j == k then some v else find k fs

  -- `serde_json::Value::get` by a key, `as_str` and `as_bool`.
  abbrev pub get : String → Value → Option Value
  get k (object fs) = find k fs
  get k null = none
  get k (bool b) = none
  get k (number n) = none
  get k (text s) = none
  get k (values vs) = none

  abbrev pub as_str : Value → Option String
  as_str (text s) = some s
  as_str (object fs) = none
  as_str null = none
  as_str (bool b) = none
  as_str (number n) = none
  as_str (values vs) = none

  abbrev pub as_bool : Value → Option Bool
  as_bool (bool b) = some b
  as_bool (text s) = none
  as_bool (object fs) = none
  as_bool null = none
  as_bool (number n) = none
  as_bool (values vs) = none
