-- ===== src/Json.antt =====
-- The values of an unstructured Kubernetes object: what encoding/json decodes into `any`. A number is
-- an int64 or, as its 64 bits, a float64; the fields of an object are an association list.
use botbox.Base.{ℕ, String, Bool}
use botbox.Base.Int.{ℤ}

mutual
  pub data Fields : Type 0 where
    end : Fields
    field : String → Value → Fields → Fields

  pub data Items : Type 0 where
    nil : Items
    cons : Value → Items → Items

  pub data Value : Type 0 where
    null : Value
    bool : Bool → Value
    int : ℤ → Value
    float : ℕ → Value
    str : String → Value
    obj : Fields → Value
    arr : Items → Value
