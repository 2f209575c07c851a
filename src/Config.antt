-- ===== src/Config.antt =====
-- Values and sections of the configuration (src/config/configuration_manager.cpp). `int` and
-- `double` are any types, with their conversions as parameters. A section is shared by pointers,
-- here the numbers of a store.
use distributed_data_science.Prelude.{
  ℕ, suc, Bool, true, false, Option, none, some, String, List, [], ◌∷◌, ◌||◌, not, map,
  if◌then◌else◌, ◌=?◌, string_key, nat_key,
}
use distributed_data_science.Prelude.Maps.{lookup, lookup_or, insert, erase, has}
pub mod Changes

pub data ConfigValue (Int Double : Type 0) : Type 0 where
  string : String → ConfigValue Int Double
  integer : Int → ConfigValue Int Double
  double : Double → ConfigValue Int Double
  boolean : Bool → ConfigValue Int Double
  array : List String → ConfigValue Int Double
  object : List (String × String) → ConfigValue Int Double

-- What the conversions use of the numbers.
pub record Numbers (Int Double : Type 0) : Type 0 where
  pub int_text : Int → String
  pub double_text : Double → String
  pub truncate : Double → Int
  pub widen : Int → Double
  pub int_zero : Int
  pub int_one : Int
  pub double_zero : Double
  pub is_zero : Int → Bool

module _ {Int Double : Type 0} (n : Numbers Int Double) where
  unfoldable pub as_string : ConfigValue Int Double → String
  as_string (string s) = s
  as_string (integer i) = n.int_text i
  as_string (double d) = n.double_text d
  as_string (boolean b) = if b then "true" else "false"
  as_string (array _) = ""
  as_string (object _) = ""

  unfoldable pub as_int : ConfigValue Int Double → Int
  as_int (integer i) = i
  as_int (double d) = n.truncate d
  as_int (boolean b) = if b then n.int_one else n.int_zero
  as_int (string _) = n.int_zero
  as_int (array _) = n.int_zero
  as_int (object _) = n.int_zero

  unfoldable pub as_double : ConfigValue Int Double → Double
  as_double (double d) = d
  as_double (integer i) = n.widen i
  as_double (string _) = n.double_zero
  as_double (boolean _) = n.double_zero
  as_double (array _) = n.double_zero
  as_double (object _) = n.double_zero

  unfoldable pub as_bool : ConfigValue Int Double → Bool
  as_bool (boolean b) = b
  as_bool (integer i) = not (n.is_zero i)
  as_bool (string s) = s =? "true" || s =? "1"
  as_bool (double _) = false
  as_bool (array _) = false
  as_bool (object _) = false

module _ {Int Double : Type 0} where
  unfoldable pub as_array : ConfigValue Int Double → List String
  as_array (array xs) = xs
  as_array _ = []

  unfoldable pub as_object : ConfigValue Int Double → List (String × String)
  as_object (object m) = m
  as_object _ = []

  -- With the default of the caller for a value of another type.
  unfoldable pub as_string_or : String → ConfigValue Int Double → String
  as_string_or default (string s) = s
  as_string_or default _ = default

  unfoldable pub as_int_or : Int → ConfigValue Int Double → Int
  as_int_or default (integer i) = i
  as_int_or default _ = default

  unfoldable pub as_double_or : Double → ConfigValue Int Double → Double
  as_double_or default (double d) = d
  as_double_or default _ = default

  unfoldable pub as_bool_or : Bool → ConfigValue Int Double → Bool
  as_bool_or default (boolean b) = b
  as_bool_or default _ = default

pub record ConfigSection (Int Double : Type 0) : Type 0 where
  pub name : String
  pub values : List (String × ConfigValue Int Double)
  pub subsections : List (String × ℕ)

-- The sections by their numbers; `next` is free.
pub record Store (Int Double : Type 0) : Type 0 where
  pub sections : List (ℕ × ConfigSection Int Double)
  pub next : ℕ

module _ {Int Double : Type 0} where
  unfoldable pub new_section : String → ConfigSection Int Double
  new_section name = record { name = name; values = []; subsections = [] }

  unfoldable pub set_value :
      String → ConfigValue Int Double → ConfigSection Int Double → ConfigSection Int Double
  unfolding insert
  set_value key value s = record s { values = insert key value s.values }

  unfoldable pub get_value : String → ConfigSection Int Double → ConfigValue Int Double
  unfolding lookup_or
  get_value key s = lookup_or (string "") key s.values

  unfoldable pub has_value : String → ConfigSection Int Double → Bool
  unfolding has
  has_value key s = has key s.values

  unfoldable pub remove_value : String → ConfigSection Int Double → ConfigSection Int Double
  unfolding erase
  remove_value key s = record s { values = erase key s.values }

  unfoldable pub clear : ConfigSection Int Double → ConfigSection Int Double
  clear s = record s { values = []; subsections = [] }

  -- On the section with a number.
  unfoldable pub get_subsection : ℕ → String → Store Int Double → Option ℕ
  unfolding lookup lookup_or new_section
  get_subsection id name s = lookup name (lookup_or (new_section "") id s.sections).subsections

  unfoldable pub has_subsection : ℕ → String → Store Int Double → Bool
  unfolding has lookup_or new_section
  has_subsection id name s = has name (lookup_or (new_section "") id s.sections).subsections

  unfoldable pub create_subsection : ℕ → String → Store Int Double → ℕ × Store Int Double
  unfolding lookup_or new_section insert
  create_subsection id name s =
      let owner = lookup_or (new_section "") id s.sections in
      let linked = record owner { subsections = insert name s.next owner.subsections } in
      (
        s.next,
        record {
          sections = insert id linked (insert s.next (new_section name) s.sections);
          next = suc s.next;
        },
      )
