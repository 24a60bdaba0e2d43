-- ===== src/Prelude/Json.antt =====
-- The values that the program keeps in JSON columns and `dict[str, Any]`, over a type of floats.
use inference_lab.Prelude.Tests.{String-eq}
use inference_lab.Prelude.Int.{ℤ}
use Prim.Native.String.{String}
use mathlib.Core.Bool.{Bool}
use mathlib.Core.List.{List, [], ◌∷◌}

mutual
  pub data Json (F : Type 0) : Type 0 where
    null : Json F
    boolean : Bool → Json F
    int : ℤ → Json F
    float : F → Json F
    text : String → Json F
    arr : Items F → Json F
    obj : Fields F → Json F

  pub data Items (F : Type 0) : Type 0 where
    nil : Items F
    cons : Json F → Items F → Items F

  pub data Fields (F : Type 0) : Type 0 where
    end : Fields F
    field : String → Json F → Fields F → Fields F

abbrev pub items : {F : Type 0} → Items F → List (Json F)
items nil = []
items (cons v vs) = v ∷ items vs

abbrev pub fields : {F : Type 0} → Fields F → List (String × Json F)
fields end = []
fields (field k v m) = (k, v) ∷ fields m

abbrev pub pack : {F : Type 0} → List (Json F) → Items F
pack [] = nil
pack (v ∷ vs) = cons v (pack vs)

abbrev pub pack_fields : {F : Type 0} → List (String × Json F) → Fields F
pack_fields [] = end
pack_fields ((k, v) ∷ m) = field k v (pack_fields m)

-- A list and a `dict` as values.
abbrev pub array : {F : Type 0} → List (Json F) → Json F
array l = arr (pack l)

abbrev pub object : {F : Type 0} → List (String × Json F) → Json F
object m = obj (pack_fields m)
