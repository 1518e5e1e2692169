-- ===== src/Canonical/Json.antt =====
-- `JSONValue` of canonical.py, and the Python objects that `normalize` reads.
use strongwiz.Base.{ℕ, String, Bool}

-- A JSON value. Integers are unbounded: a sign and a magnitude.
mutual
  pub data Json : Type 0 where
    null : Json
    bool : Bool → Json
    int : Bool → ℕ → Json
    str : String → Json
    list : Items → Json
    dict : Fields → Json

  pub data Items : Type 0 where
    nil : Items
    cons : Json → Items → Items

  pub data Fields : Type 0 where
    end : Fields
    field : String → Json → Fields → Fields
