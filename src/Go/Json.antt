-- ===== src/Go/Json.antt =====
-- encoding/json: values, their text as Marshal writes it, and the reading of Unmarshal. Texts are
-- taken to be ASCII or valid UTF-8 without U+2028 and U+2029, which Marshal would write otherwise.
pub mod Print
pub mod Parse
pub mod Decode
use go_leaderboard.Base.{Bool, List, ◌∷◌, []}
use go_leaderboard.Base.Bytes.{Text}

mutual
  -- A number is its text: it is read as what the Go field wants.
  pub data Json : Type 0 where
    null : Json
    bool : Bool → Json
    num : Text → Json
    str : Text → Json
    arr : Items → Json
    obj : Fields → Json

  pub data Items : Type 0 where
    end : Items
    item : Json → Items → Items

  -- The keys and their values, in order.
  pub data Fields : Type 0 where
    done : Fields
    field : Text → Json → Fields → Fields

abbrev pub items : List Json → Items
items [] = end
items (v ∷ vs) = item v (items vs)
