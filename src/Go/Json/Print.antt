-- ===== src/Go/Json/Print.antt =====
-- json.Marshal. The keys of a map come sorted: a value of type `Fields` has them in that order.
use go_leaderboard.Base.{
  ℕ, ◌+◌, ◌-◌, ◌/◌, ◌%◌, ltb, ◌==◌, ◌||◌, true, false, if◌then◌else◌, [], ◌∷◌, ◌++◌,
}
use go_leaderboard.Base.Bytes.{Text, codes}
use go_leaderboard.Go.Json.{
  Json, Items, Fields, null, bool, num, str, arr, obj, end, item, done, field,
}

hex_digit : ℕ → ℕ
hex_digit n = if ltb n 10 then b'0' + n else b'a' + (n - 10)

-- A byte inside quotes. "<", ">" and "&" are written as codes too, for the sake of HTML.
quote_byte : ℕ → Text
unfolding hex_digit
quote_byte c =
    if (c == b'"') || (c == 92)
    then 92 ∷ c ∷ []
    else if c == 10
    then codes "\\n"
    else if c == 13
    then codes "\\r"
    else if c == 9
    then codes "\\t"
    else if ltb c 32 || ((c == b'<') || ((c == b'>') || (c == b'&')))
    then codes "\\u00" ++ (hex_digit (c / 16) ∷ hex_digit (c % 16) ∷ [])
    else c ∷ []

quote_bytes : Text → Text
unfolding quote_byte
quote_bytes [] = []
quote_bytes (c ∷ s) = quote_byte c ++ quote_bytes s

unfoldable pub quote : Text → Text
unfolding quote_bytes
quote s = b'"' ∷ quote_bytes s ++ codes "\""

unfoldable mutual
  unfolding quote

  pub print : Json → Text
  print null = codes "null"
  print (bool true) = codes "true"
  print (bool false) = codes "false"
  print (num t) = t
  print (str s) = quote s
  print (arr vs) = codes "[" ++ print_items vs
  print (obj fs) = codes "{" ++ print_fields fs

  print_items : Items → Text
  print_items end = codes "]"
  print_items (item v vs) = print v ++ more_items vs

  more_items : Items → Text
  more_items end = codes "]"
  more_items (item v vs) = codes "," ++ (print v ++ more_items vs)

  print_fields : Fields → Text
  print_fields done = codes "}"
  print_fields (field k v fs) = quote k ++ (codes ":" ++ (print v ++ more_fields fs))

  more_fields : Fields → Text
  more_fields done = codes "}"
  more_fields (field k v fs) = codes "," ++ (quote k ++ (codes ":" ++ (print v ++ more_fields fs)))
