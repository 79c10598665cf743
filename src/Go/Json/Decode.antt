-- ===== src/Go/Json/Decode.antt =====
-- How Unmarshal fills a Go value: with a wrong kind of JSON the value stays as it was, the first such
-- error is kept, and the rest is filled all the same. Keys are matched without regard to case.
use go_leaderboard.Base.{
  ℕ, ◌+◌, leb, ◌&&◌, Bool, if◌then◌else◌, Option, none, some, List, [], ◌∷◌, map,
}
use go_leaderboard.Base.Int.{ℤ}
use go_leaderboard.Base.Bytes.{Text, eq}
use go_leaderboard.Go.Word.{half64}
use go_leaderboard.Go.Strconv.{ParseError, parse_int}
use go_leaderboard.Go.Json.{
  Json, Items, Fields, null, bool, num, str, arr, obj, end, item, done, field,
}
use go_leaderboard.Go.Json.Parse.{parse}

-- A syntax error, or a JSON value that does not fit the Go type.
pub data DecodeError : Type 0 where
  bad_syntax wrong_type : DecodeError

-- A value of type A, filled from JSON.
abbrev pub Decoder : Type 0 → Type 0
Decoder A = Json → A → A × Option DecodeError

abbrev pub first_error : Option DecodeError → Option DecodeError → Option DecodeError
first_error (some e) e' = some e
first_error none e' = e'

-- What ParseInt gave, or the old value beside an error.
parsed : ℤ → ℤ × Option ParseError → ℤ × Option DecodeError
parsed old (n, none) = (n, none)
parsed old (n, some e) = (old, some wrong_type)

unfoldable pub int : Decoder ℤ
unfolding parsed
int null old = (old, none)
int (num t) old = parsed old (parse_int half64 t)
int v old = (old, some wrong_type)

unfoldable pub string : Decoder Text
string null old = (old, none)
string (str s) old = (s, none)
string v old = (old, some wrong_type)

unfoldable pub boolean : Decoder Bool
boolean null old = (old, none)
boolean (bool b) old = (b, none)
boolean v old = (old, some wrong_type)

lower : ℕ → ℕ
lower c = if leb b'A' c && leb c b'Z' then c + 32 else c

-- strings.EqualFold on ASCII
unfoldable pub same_key : Text → Text → Bool
unfolding lower
same_key a b = eq (map lower a) (map lower b)

module _ {A : Type 0} where
  -- A field of a struct: what to do with its value.
  unfoldable pub fill_fields : (Text → Decoder A) → Fields → A → A × Option DecodeError
  fill_fields by_key done a = (a, none)
  fill_fields by_key (field k v fs) a =
      let (a', e) = by_key k v a in
      let (a'', e') = fill_fields by_key fs a' in (a'', first_error e e')

  unfoldable pub struct : (Text → Decoder A) → Decoder A
  unfolding fill_fields
  struct by_key null a = (a, none)
  struct by_key (obj fs) a = fill_fields by_key fs a
  struct by_key v a = (a, some wrong_type)

  -- A pointer: null makes it nil, anything else fills what it points to, which is made if it was nil.
  unfoldable pub pointer : A → Decoder A → Decoder (Option A)
  pointer zero_value fill null p = (none, none)
  pointer zero_value fill v none = let (a, e) = fill v zero_value in (some a, e)
  pointer zero_value fill v (some old) = let (a, e) = fill v old in (some a, e)

  unfoldable pub fill_items : A → Decoder A → Items → List A → List A × Option DecodeError
  fill_items zero_value fill end old = ([], none)
  fill_items zero_value fill (item v vs) [] =
      let (a, e) = fill v zero_value in
      let (as', e') = fill_items zero_value fill vs [] in (a ∷ as', first_error e e')
  fill_items zero_value fill (item v vs) (o ∷ old) =
      let (a, e) = fill v o in
      let (as', e') = fill_items zero_value fill vs old in (a ∷ as', first_error e e')

  -- A slice; a nil slice and an empty one are not told apart.
  unfoldable pub slice : A → Decoder A → Decoder (List A)
  unfolding fill_items
  slice zero_value fill null old = ([], none)
  slice zero_value fill (arr vs) old = fill_items zero_value fill vs old
  slice zero_value fill v old = (old, some wrong_type)

  -- json.Unmarshal(body, &a)
  unfoldable pub unmarshal : Decoder A → Text → A → A × Option DecodeError
  unmarshal fill body a = elim (parse body) [ none ↦ (a, some bad_syntax) | some v ↦ fill v a ]
