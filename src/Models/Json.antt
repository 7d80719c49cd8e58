-- ===== src/Models/Json.antt =====
-- JSON values, as audit details hold them (apps/api/app/core/audit.py).
use hamicloud.Prelude.{ℕ, String, Bool}

mutual
  pub data Json : Type 0 where
    null : Json
    boolean : Bool → Json
    number : ℕ → Json
    text : String → Json
    dict : Fields → Json
    array : Items → Json

  pub data Fields : Type 0 where
    end : Fields
    field : String → Json → Fields → Fields

  pub data Items : Type 0 where
    nil : Items
    cons : Json → Items → Items
